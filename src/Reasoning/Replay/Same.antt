-- ===== src/Reasoning/Replay/Same.antt =====
-- The chain of src/market_state_engine/reasoning/gateway.py, walked and then replayed.
use tread_agent.Base.{
  ◌≡◌, refl, sym, subst, ap, ◌∙◌, ℕ, suc, String, true, false, Option, some, List, [], ◌∷◌, ◌++◌,
  All, All-map, All-both, append-nil, append_assoc, str_eq,
}
use tread_agent.Reasoning.Types.{LlmJob, Raised, ok, RenderedPrompt}
use tread_agent.Reasoning.Config.{ProviderCfg, ProvidersConfig}
use tread_agent.Reasoning.Router.Distinct.{Apart}
use tread_agent.Reasoning.Gateway.Attempt.{World, CallRecord, Tried, succeeded, failed}
use tread_agent.Reasoning.Gateway.{
  Gateway, Answer, degraded, DegradedMarker, Reason, Visit, hit, miss, walk, marker,
}
use tread_agent.Reasoning.Gateway.Fresh.{IsFresh, Rounds, visit-Rounds}
use tread_agent.Reasoning.Replay.Rebuilt.{Clocks, Replaying, replay_world}
use tread_agent.Reasoning.Replay.Attempts.{Tells, provider-Tells, try_provider-Tells}
use tread_agent.Reasoning.Replay.Repeated.{try_provider-Repeats}
use tread_agent.Reasoning.Replay.Told.{
  Told, data_of, told, ApartRecords, Among, apart-Among, own, later, hit-injective,
}
use tread_agent.Reasoning.Replay.Again.{
  IsReady, Steady, Again, goes_on, hit-Again, miss-Again, Ready-insert,
}

module _ {E D C F : Type 0} (world : World E D C) (config : ProvidersConfig) (run_id : String)
    (job : LlmJob) (prompt : RenderedPrompt) (dumps : Option D → String) (clocks : Clocks F)
    (all : List (CallRecord D C))
    (parses : (d : D) → world.parse_json (dumps (some d)) ≡ ok d) where
  abbrev again : World (Replaying D C F) D C
  again = replay_world dumps world clocks all

  abbrev Fresh : Gateway D C → ProviderCfg → Type 0
  Fresh g p = IsFresh world config run_id job prompt p.name g

  -- The marker after an attempt on `p`.
  abbrev left : Reason → ProviderCfg → DegradedMarker
  left reason p = marker world config run_id job prompt reason p

  -- A replay that starts with `last` in which each of the records is ready adds the like of them, and
  -- gives the answer.
  abbrev pub Replays :
      List ProviderCfg
      → Told D
      → List (CallRecord D C)
      → Told D
      → (DegradedMarker → Gateway D C → Replaying D C F → Answer D × Gateway D C × Replaying D C F)
      → Type 0
  Replays ps last rs answer replay =
      (m : DegradedMarker) (h : Gateway D C) (s : Replaying D C F)
      → told {D = D} (degraded m) ≡ last
      → h.recording ≡ true
      → All (λ (p : ProviderCfg). IsFresh again config run_id job prompt p.name h) ps
      → All (IsReady world config run_id job prompt dumps clocks all parses s.0) rs
      → Again world config run_id job prompt dumps clocks all parses h rs answer (replay m h s)

  -- The records that a walk adds, and their replay.
  abbrev pub Copied :
      List ProviderCfg
      → Told D
      → Gateway D C
      → Answer D × Gateway D C × E
      → (DegradedMarker → Gateway D C → Replaying D C F → Answer D × Gateway D C × Replaying D C F)
      → Type 0
  Copied ps last g (answer, g', e) replay =
      (rs : List (CallRecord D C)) × (g'.records ≡ g.records ++ rs)
      × All (Among ps) rs
      × ApartRecords rs
      × Replays ps last rs (told answer) replay

  hit-Replays :
      (i : ℕ) (p : ProviderCfg) (ps : List ProviderCfg) (d : D) (r : CallRecord D C) (last : Told D)
      → Tells world config run_id job prompt i p (succeeded d r)
      → Steady world config run_id job prompt dumps clocks all parses p
      → Replays (p ∷ ps) last (r ∷ []) (data_of d) (walk again config run_id job prompt i (p ∷ ps))
  unfolding walk
  hit-Replays i p ps d r last tells steady m h s _ rec f ready =
      let (after, same, put) =
        try_provider-Repeats world config run_id job prompt dumps clocks all parses i p
          (succeeded d r) s tells steady ready.0 in
      hit-Again world config run_id job prompt dumps clocks all parses i p ps h d r _ _ same
        (visit-Rounds again config run_id job prompt i p h s rec f.0)

  miss-Replays :
      (i : ℕ) (p : ProviderCfg) (ps : List ProviderCfg) (r : CallRecord D C) (x : Raised)
      (reason : Reason) (rs : List (CallRecord D C)) (last answer : Told D)
      → Tells world config run_id job prompt i p (failed r x)
      → Steady world config run_id job prompt dumps clocks all parses p
      → Apart (p ∷ ps)
      → All (Among ps) rs
      → Replays ps
          (told (degraded (left reason p)))
          rs
          answer
          (walk again config run_id job prompt (suc i) ps)
      → Replays (p ∷ ps) last (r ∷ rs) answer (walk again config run_id job prompt i (p ∷ ps))
  unfolding walk
  miss-Replays i p ps r x reason rs last answer tells steady a among replays m h s _ rec f ready =
      let (after, same, put) =
        try_provider-Repeats world config run_id job prompt dumps clocks all parses i p (failed r x)
          s tells steady ready.0 in
      miss-Again world config run_id job prompt dumps clocks all parses i p ps h r x rs answer after
        s _ _ same put (visit-Rounds again config run_id job prompt i p h s rec f.0)
        (λ reason' h' s' r' noted put'.
          replays (marker again config run_id job prompt reason' p) h' s' refl noted.recording
            (All-both _ _ _ (λ (q : ProviderCfg) k l. noted.others q.name k l) ps a.0 f.1)
            (subst (λ z. All (IsReady world config run_id job prompt dumps clocks all parses z) rs)
              (sym put')
              (All-both _ _ _
                (λ q k l.
                  Ready-insert world config run_id job prompt dumps clocks all parses p.name after
                    s.0 q (apart-Among p ps q a.0 k) l)
                rs among ready.1)))

  visit-Copied :
      (i : ℕ) (p : ProviderCfg) (ps : List ProviderCfg) (last : Told D) (g : Gateway D C)
      (t : Tried D C × E) (v : Visit D × Gateway D C × E)
      → Tells world config run_id job prompt i p t.0
      → Rounds world config run_id job prompt p g t v
      → Apart (p ∷ ps)
      → All (Fresh g) ps
      → Steady world config run_id job prompt dumps clocks all parses p
      → ((reason : Reason)
          → v.1.recording ≡ true
          → All (Fresh v.1) ps
          → Copied ps
              (told (degraded (left reason p)))
              v.1
              (walk world config run_id job prompt (suc i) ps (left reason p) v.1 v.2)
              (walk again config run_id job prompt (suc i) ps))
      → Copied
          (p ∷ ps)
          last
          g
          (goes_on world config run_id job prompt dumps clocks all parses world i p ps v)
          (walk again config run_id job prompt i (p ∷ ps))
  visit-Copied i p ps last g (succeeded d r, e) (miss reason, g', e') tells rounds a f t ih =
      absurd (let q = rounds.0 in cc)
  visit-Copied i p ps last g (failed r x, e) (hit d, g', e') tells rounds a f t ih =
      absurd (let q = rounds.0 in cc)
  visit-Copied i p ps last g (succeeded d r, e) (hit d', g', e') tells (q, noted, _) a f t ih = (
    r ∷ [],
    noted.records,
    (own p ps r (provider-Tells world config run_id job prompt i p (succeeded d r) tells), tt),
    (tt, tt),
    subst
        (λ z.
          Replays (p ∷ ps) last (r ∷ []) (data_of z)
            (walk again config run_id job prompt i (p ∷ ps)))
        (sym (hit-injective q)) (hit-Replays i p ps d r last tells t),
  )
  visit-Copied i p ps last g (failed r x, e) (miss reason, g', e') tells (q, noted, _) a f t ih =
      let provider = provider-Tells world config run_id job prompt i p (failed r x) tells in
      let (rs, records, among, apart, replays) =
        ih reason noted.recording
          (All-both _ _ _ (λ (q : ProviderCfg) k l. noted.others q.name k l) ps a.0 f) in
      (
        r ∷ rs,
        records ∙ ap (λ z. z ++ rs) noted.records ∙ append_assoc g.records (r ∷ []) rs,
        (own p ps r provider, All-map _ _ (λ q k. later p ps q k) rs among),
        (
          All-map _ _
              (λ q k.
                subst (λ z. str_eq z q.provider ≡ false) (sym provider) (apart-Among p ps q a.0 k))
              rs among,
          apart,
        ),
        miss-Replays i p ps r x reason rs last _ tells t a among replays,
      )

  pub walk-Copied :
      (i : ℕ) (ps : List ProviderCfg) (m : DegradedMarker) (g : Gateway D C) (e : E)
      → g.recording ≡ true
      → Apart ps
      → All (Fresh g) ps
      → All (Steady world config run_id job prompt dumps clocks all parses) ps
      → Copied ps
          (told (degraded m))
          g
          (walk world config run_id job prompt i ps m g e)
          (walk again config run_id job prompt i ps)
  unfolding walk
  walk-Copied i [] m g e rec a f t = (
    [],
    sym (append-nil g.records),
    tt,
    tt,
    λ m' h s k rec' f' ready. ([], sym (append-nil h.records), refl, sym k),
  )
  walk-Copied i (p ∷ ps) m g e rec a f t =
      visit-Copied i p ps (told (degraded m)) g _ _
        (try_provider-Tells world config run_id job prompt i p e)
        (visit-Rounds world config run_id job prompt i p g e rec f.0) a f.1 t.0
        (λ reason rec' f'. walk-Copied (suc i) ps (left reason p) _ _ rec' a.1 f' t.1)
