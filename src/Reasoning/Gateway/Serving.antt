-- ===== src/Reasoning/Gateway/Serving.antt =====
-- The breakers of a gateway of src/market_state_engine/reasoning/gateway.py that serves one run after
-- another.
use tread_agent.Base.{
  Bool, subst, arith, ◌≡◌, refl, sym, ap, ◌∙◌, String, true, none, List, [], ◌∷◌, ◌++◌, All,
  All-append, inl, inr, String-cases, append-nil,
}
use tread_agent.Base.Dict.{lookup}
use tread_agent.Reasoning.Breaker.{new_breaker, Call, run}
use tread_agent.Reasoning.Breaker.Decided.{results, results-append, run-append}
use tread_agent.Reasoning.Config.{ProvidersConfig, validate_config}
use tread_agent.Reasoning.Config.Loaded.{validate_config-Usable}
use tread_agent.Reasoning.Gateway.Attempt.{World, CallRecord}
use tread_agent.Reasoning.Gateway.{Gateway, new_gateway}
use tread_agent.Reasoning.Gateway.Kept.{Request, serve, serve-Kept}
use tread_agent.Reasoning.Gateway.Alone.{breaker_of, results_in, IsRead, IsRound}
use tread_agent.Reasoning.Gateway.Rounds.{visit-IsRound}
use tread_agent.Reasoning.Gateway.Bookkeeping.{AllValid, visit-Sound}

module _ {D C : Type 0} where
  results_in-append :
      (name : String) (rs qs : List (CallRecord D C))
      → results_in name (rs ++ qs) ≡ results_in name rs ++ results_in name qs
  results_in-append name [] qs = refl
  results_in-append name (r ∷ rs) qs = ground (arith, results_in-append name rs qs)

module _ {E D C : Type 0} (world : World E D C) (config : ProvidersConfig) where
  -- The breaker of the name is where a new breaker gets by some calls, whose times are read and whose
  -- results are those of the records.
  pub record IsAlone (name : String) (g : Gateway D C) : Type 0 where
    pub calls : List Call
    pub read : All (IsRead world) calls
    pub reached :
        breaker_of name g.breakers ≡ run (new_breaker config.defaults.circuit_breaker) calls
    pub agree : results calls ≡ results_in name g.records

  pub record AllAlone (g : Gateway D C) : Type 0 where
    pub recording : g.recording ≡ true
    pub each : (name : String) → IsAlone name g

  round-IsAlone :
      (name other : String) (g g' : Gateway D C)
      → IsRound world name g g'
      → IsAlone other g
      → IsAlone other g'
  round-IsAlone name other g g' r a = elim (String-cases name other) [
    | inl (e, same) ↦ record {
      calls = a.calls ++ r.calls;
      read = All-append (IsRead world) a.calls r.calls a.read r.read;
      reached =
          subst (λ n. breaker_of n g'.breakers ≡ run (breaker_of n g.breakers) r.calls) same r.own
          ∙ ap (λ b. run b r.calls) a.reached
          ∙ sym (run-append _ a.calls r.calls);
      agree =
          results-append a.calls r.calls
          ∙ rw (a.agree, r.records)
              (ap (λ qs. results_in other g.records ++ qs)
                  (r.agree ∙ ap (λ n. results_in n (r.note ∷ [])) same)
                ∙ sym (results_in-append other g.records (r.note ∷ [])));
    }
    | inr (e, _) ↦ record {
      calls = a.calls;
      read = a.read;
      reached = r.others other e ∙ a.reached;
      agree =
          a.agree
          ∙ sym (
              rw r.records (
                results_in-append other g.records (r.note ∷ [])
                ∙ rw (r.provider, e) (append-nil _)));
    }
  ]

  new_gateway-AllAlone : AllAlone (new_gateway world config true)
  unfolding new_gateway lookup run
  new_gateway-AllAlone = record {
    recording = refl;
    each = λ name. record { calls = []; read = tt; reached = refl; agree = refl };
  }

  -- However many runs a gateway with a recorder serves, each of its breakers has seen its own provider
  -- only: it is where a new breaker gets by some calls, which report, in order, a success for each
  -- record of a success of the provider, a failure for each record of a timeout or error, and nothing
  -- for a record of an open circuit. The times of these calls are times that the clock gives.
  pub serve-AllAlone :
      (qs : List Request) (e : E)
      → AllAlone (serve world config qs (new_gateway world config true) e).0
  serve-AllAlone qs e =
      serve-Kept world config AllAlone
        (λ q i p g e a.
          let r = visit-IsRound world config q.run_id q.job q.prompt i p g e a.recording in
          record {
            recording = r.recording;
            each = λ name. round-IsAlone p.name name g _ r (a.each name);
          })
        qs (new_gateway world config true) e new_gateway-AllAlone

  -- However many runs a gateway of an accepted configuration serves, each of its breakers is valid: below
  -- its threshold, and with a time at which it opened exactly if it is not closed.
  pub serve-AllValid :
      (recording : Bool) (qs : List Request) (e : E)
      → validate_config config ≡ none
      → AllValid (serve world config qs (new_gateway world config recording) e).0.breakers
  unfolding new_gateway lookup
  serve-AllValid recording qs e valid =
      serve-Kept world config (λ g. AllValid g.breakers)
        (λ q. visit-Sound world config q.run_id q.job q.prompt) qs
        (new_gateway world config recording) e
        (record { usable = (validate_config-Usable config valid).1; each = λ name b e. cc })
