-- ===== src/Rules/Engine/Sources.antt =====
-- Where the activations of src/market_state_engine/rules/engine.py come from, and that its look-up of
-- a rule never misses.
use tread_agent.Base.{
  ◌≡◌, refl, ◌∙◌, ap, sym, subst, String, true, Option, some, List, [], ◌∷◌, ◌++◌, All, is_some,
  arith, Option-cases, inl, inr,
}
use tread_agent.Base.Dict.{Dict}
use tread_agent.Rules.Models.{RegimeState, Rule, Checked, valid, gate_error}
use tread_agent.Rules.Matcher.{Floats}
use tread_agent.Rules.Conflict.{Candidate, ResolvedEffect, ConflictFlag, resolve_asset_effects}
use tread_agent.Rules.Conflict.Strongest.{
  Among, Decides, clear, flagged, resolve_asset_effects-Decides,
}
use tread_agent.Rules.Engine.{
  meta_of, to_activation, put_activation, add_activation, and_emit, emit_assets, emit_collected,
  match_rules, flags_of,
}
use tread_agent.Rules.Activations.{EventFeature, Activation, Arithmetic, Collected}
use tread_agent.Rules.Engine.Filed.{
  pushed-All, valid-same, Meta, Known, Entry, IsFiled, meta_of-Entry, collect-IsFiled,
}

module _ {V : Type 0} (floats : Floats V) (arithmetic : Arithmetic V) (P : Rule V → Type 0) where
  -- It has the id and the condition of a rule with `P`.
  abbrev pub Backed : Activation V → Type 0
  Backed a =
      (r : Rule V) × P r
      × (a.rule_id ≡ r.id)
      × (a.matched_condition ≡ r.on_trigger.condition)
      × (a.source_rule_version ≡ r.version)

  -- Of a dict of activations.
  abbrev AllBacked : Dict (List (Activation V)) → Type 0
  AllBacked acts = All (λ e. All Backed e.1) acts

  among-All :
      (Q : Candidate → Type 0) (w : Candidate) (cs : List Candidate) → Among w cs → All Q cs → Q w
  among-All Q w [] m a = cc
  among-All Q w (c ∷ cs) (inl e) a = subst Q (sym e) a.0
  among-All Q w (c ∷ cs) (inr m) a = among-All Q w cs m a.1

  put_activation-Backed :
      (default : V) (meta : Meta floats arithmetic P) (asset : String) (r : ResolvedEffect)
      (acts : Dict (List (Activation V)))
      → is_some (meta_of floats arithmetic asset r.source_rule_id meta) ≡ true
      → All (Entry floats arithmetic P) meta
      → AllBacked acts
      → (out : Dict (List (Activation V))) × (add_activation floats arithmetic default meta asset
            (some r)
            acts
          ≡ some out)
        × AllBacked out
  unfolding to_activation
  put_activation-Backed default meta asset r acts here entries a =
      elim (Option-cases (meta_of floats arithmetic asset r.source_rule_id meta)) [
        | inl e ↦ absurd (ground (arith, e, here))
        | inr (m, e) ↦
            let (id, p) =
              meta_of-Entry floats arithmetic P asset r.source_rule_id meta m entries e in
            (
              _,
              ap (put_activation floats arithmetic default asset r acts) e,
              pushed-All (λ _. Backed) asset (to_activation floats arithmetic default asset r m)
                  acts (m.0, p, refl, refl, refl) a,
            )
      ]

  add_activation-Backed :
      (default : V) (meta : Meta floats arithmetic P) (asset : String) (cs : List Candidate)
      (acts : Dict (List (Activation V)))
      → All (Known floats arithmetic P meta asset) cs
      → All (Entry floats arithmetic P) meta
      → AllBacked acts
      → (out : Dict (List (Activation V))) × (add_activation floats arithmetic default meta asset
            (resolve_asset_effects asset cs).0
            acts
          ≡ some out)
        × AllBacked out
  unfolding resolve_asset_effects
  add_activation-Backed default meta asset [] acts known entries a = (acts, refl, a)
  add_activation-Backed default meta asset (c ∷ cs) acts known entries a =
      decided (resolve_asset_effects-Decides asset c cs)
    where
      decided :
          {r : Option ResolvedEffect × Option ConflictFlag}
          → Decides asset (c ∷ cs) r
          → (out : Dict (List (Activation V))) × (add_activation floats arithmetic default meta
                asset r.0 acts
              ≡ some out)
            × AllBacked out
      decided (clear w s _) =
          put_activation-Backed default meta asset _ acts
            (among-All (Known floats arithmetic P meta asset) w (c ∷ cs) s.among known) entries a
      decided (flagged w s _) =
          put_activation-Backed default meta asset _ acts
            (among-All (Known floats arithmetic P meta asset) w (c ∷ cs) s.among known) entries a

  emit_assets-Backed :
      (default : V) (meta : Meta floats arithmetic P) (cands : Dict (List Candidate))
      (acts : Dict (List (Activation V))) (flags : List ConflictFlag)
      → All (λ e. All (Known floats arithmetic P meta e.0) e.1) cands
      → All (Entry floats arithmetic P) meta
      → AllBacked acts
      → (out : Dict (List (Activation V))) × (fs : List ConflictFlag) × (emit_assets floats
            arithmetic default meta cands acts flags
          ≡ some (out, fs))
        × AllBacked out
  unfolding emit_assets
  emit_assets-Backed default meta [] acts flags known entries a = (acts, flags, refl, a)
  emit_assets-Backed default meta ((asset, cs) ∷ rest) acts flags known entries a =
      let fs : List ConflictFlag =
        flags ++ flags_of floats arithmetic (resolve_asset_effects asset cs).1 in
      let (acts', ran, a') = add_activation-Backed default meta asset cs acts known.0 entries a in
      let (out, fs', ran', b) = emit_assets-Backed default meta rest acts' fs known.1 entries a' in
      (
        out,
        fs',
        ap
              (λ m.
                and_emit floats arithmetic m
                  (λ acts''. emit_assets floats arithmetic default meta rest acts'' fs))
              ran
            ∙ ran',
        b,
      )

  emit_collected-Backed :
      (default : V) (st : Checked (Collected V))
      (o : Option (Dict (List (Activation V)) × List ConflictFlag))
      → ((out : Collected V) → st ≡ valid out → IsFiled floats arithmetic P out)
      → emit_collected floats arithmetic default st ≡ valid o
      → (acts : Dict (List (Activation V))) × (flags : List ConflictFlag) × (o ≡ some (acts, flags))
        × AllBacked acts
  emit_collected-Backed default (gate_error x) o f h = absurd cc
  emit_collected-Backed default (valid st) o f h =
      let filed = f st refl in
      let (acts, flags, ran, a) =
        emit_assets-Backed default st.meta st.candidates [] [] filed.known filed.entries tt in
      (acts, flags, sym (valid-same h) ∙ ran, a)

  -- A match that raises no gate error finds the rule of every resolved effect, and each of its
  -- activations has the id, the condition and the version of a rule of the rulebook: one that has any
  -- given property that all the rules have.
  pub match_rules-Backed :
      (default : V) (rules : List (Rule V)) (events : List (EventFeature V))
      (regime : Option RegimeState) (o : Option (Dict (List (Activation V)) × List ConflictFlag))
      → All P rules
      → match_rules floats arithmetic default rules events regime ≡ valid o
      → (acts : Dict (List (Activation V))) × (flags : List ConflictFlag) × (o ≡ some (acts, flags))
        × All (λ e. All Backed e.1) acts
  unfolding match_rules
  match_rules-Backed default rules events regime o a h =
      emit_collected-Backed default _ o
        (λ st e.
          collect-IsFiled floats arithmetic P _ _ regime rules _ st a
            (record { known = tt; entries = tt }) e)
        h
