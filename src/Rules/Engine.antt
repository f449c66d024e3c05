-- ===== src/Rules/Engine.antt =====
-- src/market_state_engine/rules/engine.py: the rules that match the events, their effects by asset,
-- and one activation for each asset.
pub mod Filed
pub mod Sources
pub mod Total
use Prim.Native.String.{◌++◌ as ◌<>◌}
use tread_agent.Base.{
  ℕ, String, Bool, true, false, ◌&&◌, Option, none, some, List, [], ◌∷◌, ◌++◌, or_else, str_eq,
  if◌then◌else◌,
}
use tread_agent.Base.Dict.{Dict, lookup, insert}
use tread_agent.Pipeline.Store.{MacroType, us_cpi, fomc, us_nfp}
use tread_agent.Rules.Models.{
  Direction, OrdinalLevel, RegimeState, Effect, Rule, RuleGateError, Checked, valid, gate_error,
}
use tread_agent.Rules.Matcher.{Floats, rule_matches, resolved_effects}
use tread_agent.Rules.Conflict.{Candidate, ResolvedEffect, ConflictFlag, resolve_asset_effects}
use tread_agent.Rules.Activations.{
  EventFeature, Activation, Arithmetic, value_of, or_nothing, Collected,
}

module _ {V : Type 0} (floats : Floats V) (arithmetic : Arithmetic V) where
  -- `build_condition_vars`
  unfoldable pub with_vars : Dict V → List (EventFeature V) → Dict V
  unfolding insert
  with_vars vars [] = vars
  with_vars vars (e ∷ es) =
      let vars' = insert ("surprise_" <> e.event_type) e.surprise vars in
      with_vars
        (if str_eq e.event_type "us_cpi"
          then insert "surprise_core_mom" e.surprise vars'
          else vars')
        es

  -- `event_by_type`
  unfoldable pub by_type : Dict (EventFeature V) → List (EventFeature V) → Dict (EventFeature V)
  unfolding insert
  by_type d [] = d
  by_type d (e ∷ es) = by_type (insert e.event_type e d) es

  abbrev pub event_of : Dict (EventFeature V) → Option MacroType → Option (EventFeature V)
  event_of d none = none
  event_of d (some t) = lookup (value_of t) d

  unfoldable pub add_effects :
      Rule V → Option (EventFeature V) → List Effect → Collected V → Collected V
  unfolding insert lookup
  add_effects rule event [] st = st
  add_effects rule event (e ∷ es) st = add_effects rule event es (record {
    candidates =
        insert e.asset (or_nothing (lookup e.asset st.candidates) ++ (e, rule.id) ∷ [])
          st.candidates;
    meta = ((e.asset, rule.id), (rule, event)) ∷ st.meta;
  })

  abbrev pub add_checked :
      Rule V → Option (EventFeature V) → Collected V → Checked (List Effect) → Checked (Collected V)
  add_checked rule event st (gate_error x) = gate_error x
  add_checked rule event st (valid es) = valid (add_effects rule event es st)

  abbrev pub add_if :
      Rule V
      → Option (EventFeature V)
      → Option RegimeState
      → Collected V
      → Checked Bool
      → Checked (Collected V)
  add_if rule event regime st (gate_error x) = gate_error x
  add_if rule event regime st (valid false) = valid st
  add_if rule event regime st (valid true) =
      add_checked rule event st (resolved_effects rule regime)

  abbrev pub and_collect :
      Checked (Collected V) → (Collected V → Checked (Collected V)) → Checked (Collected V)
  and_collect (gate_error x) k = gate_error x
  and_collect (valid st) k = k st

  -- The loop over the rules.
  unfoldable pub collect :
      Dict V
      → Dict (EventFeature V)
      → Option RegimeState
      → List (Rule V)
      → Collected V
      → Checked (Collected V)
  unfolding add_effects rule_matches resolved_effects
  collect vars events regime [] st = valid st
  collect vars events regime (r ∷ rs) st =
      and_collect
        (add_if r (event_of events r.on_trigger.event_type) regime st (rule_matches floats r vars))
        (collect vars events regime rs)

  -- `meta[(asset, rule_id)]`, or none for a `KeyError`
  unfoldable pub meta_of :
      String
      → String
      → List ((String × String) × (Rule V × Option (EventFeature V)))
      → Option (Rule V × Option (EventFeature V))
  meta_of asset rule_id [] = none
  meta_of asset rule_id ((k, m) ∷ rest) =
      if str_eq k.0 asset && str_eq k.1 rule_id then some m else meta_of asset rule_id rest

  -- `max(0.0, min(1.0, decay))`
  abbrev pub clamp : V → V
  clamp x =
      let y = if floats.is_lt x arithmetic.one then x else arithmetic.one in
      if floats.is_lt arithmetic.zero y then y else arithmetic.zero

  abbrev pub proximity_of : Option (EventFeature V) → V
  proximity_of none = arithmetic.zero
  proximity_of (some e) = arithmetic.absolute e.proximity_hours

  abbrev pub id_of : Option (EventFeature V) → Option String
  id_of none = none
  id_of (some e) = some e.event_id

  -- `rule.half_life_hours or default`
  abbrev pub half_life_of : V → Rule V → V
  half_life_of default rule =
      if floats.is_eq rule.half_life_hours arithmetic.zero then default else rule.half_life_hours

  -- `_to_activation`
  unfoldable pub to_activation :
      V → String → ResolvedEffect → Rule V × Option (EventFeature V) → Activation V
  to_activation default asset r (rule, event) = record {
    asset = asset;
    rule_id = rule.id;
    strength = r.strength;
    horizon = r.horizon;
    decay_remaining = arithmetic.round4 (
        clamp (
          arithmetic.half_power
            (arithmetic.quotient (proximity_of event) (half_life_of default rule))));
    direction = r.direction;
    event_id = id_of event;
    matched_condition = rule.on_trigger.condition;
    source_rule_version = rule.version;
  }

  abbrev pub flags_of : Option ConflictFlag → List ConflictFlag
  flags_of none = []
  flags_of (some f) = f ∷ []

  abbrev pub put_activation :
      V
      → String
      → ResolvedEffect
      → Dict (List (Activation V))
      → Option (Rule V × Option (EventFeature V))
      → Option (Dict (List (Activation V)))
  put_activation default asset r acts none = none
  put_activation default asset r acts (some m) =
      some
        (insert asset (or_nothing (lookup asset acts) ++ to_activation default asset r m ∷ []) acts)

  abbrev pub add_activation :
      V
      → List ((String × String) × (Rule V × Option (EventFeature V)))
      → String
      → Option ResolvedEffect
      → Dict (List (Activation V))
      → Option (Dict (List (Activation V)))
  add_activation default meta asset none acts = some acts
  add_activation default meta asset (some r) acts =
      put_activation default asset r acts (meta_of asset r.source_rule_id meta)

  abbrev pub and_emit :
      Option (Dict (List (Activation V)))
      → (Dict (List (Activation V)) → Option (Dict (List (Activation V)) × List ConflictFlag))
      → Option (Dict (List (Activation V)) × List ConflictFlag)
  and_emit none k = none
  and_emit (some acts) k = k acts

  -- The loop over the assets.
  unfoldable pub emit_assets :
      V
      → List ((String × String) × (Rule V × Option (EventFeature V)))
      → Dict (List Candidate)
      → Dict (List (Activation V))
      → List ConflictFlag
      → Option (Dict (List (Activation V)) × List ConflictFlag)
  unfolding resolve_asset_effects meta_of to_activation insert lookup
  emit_assets default meta [] acts flags = some (acts, flags)
  emit_assets default meta ((asset, cs) ∷ rest) acts flags =
      let (r, flag) = resolve_asset_effects asset cs in
      and_emit (add_activation default meta asset r acts)
        (λ acts'. emit_assets default meta rest acts' (flags ++ flags_of flag))

  abbrev pub emit_collected :
      V → Checked (Collected V) → Checked (Option (Dict (List (Activation V)) × List ConflictFlag))
  emit_collected default (gate_error x) = gate_error x
  emit_collected default (valid st) = valid (emit_assets default st.meta st.candidates [] [])

  -- `RuleEngine.match`; none stands for a `KeyError`.
  unfoldable pub match_rules :
      V
      → List (Rule V)
      → List (EventFeature V)
      → Option RegimeState
      → Checked (Option (Dict (List (Activation V)) × List ConflictFlag))
  unfolding collect emit_assets with_vars by_type
  match_rules default rules events regime = emit_collected default (
      collect (with_vars [] events) (by_type [] events) regime rules
        (record { candidates = []; meta = [] }))
