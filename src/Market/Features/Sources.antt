-- ===== src/Market/Features/Sources.antt =====
-- How `FeatureEngine.compute` of src/market_state_engine/features/engine.py ends.
use tread_agent.Base.{
  ◌≡◌, refl, sym, ◌∙◌, ◌++◌, ap, inl, inr, ℕ, String, true, Option, none, some, List, [], ◌∷◌, map,
  select, length, reverse, leb, is_some, Some, false, Bool-cases,
}
use tread_agent.Base.Dict.{Dict, lookup}
use tread_agent.Pipeline.Store.{MacroEvent, Ended, returned, raised, Ended-cases}
use tread_agent.Rules.Activations.{EventFeature}
use tread_agent.Market.Numbers.{Numbers}
use tread_agent.Market.Models.{
  AssetClass, Changes, AssetFeatures, FeatureSet, AssetConfig, RunContext,
}
use tread_agent.Market.Ranges.{and_then, features_fit}
use tread_agent.Market.Features.{
  Series, Globals, nth, indicators_of, features_from, change_between, horizon_change,
  computed_changes, changes_of, asset_features, all_features, surprise_feature, event_features_of,
  compute,
}

-- It returns a value with `Q`, or raises an exception for which there is a `Cause`.
pub data Outcome {A : Type 0} (Q : A → Type 0) (Cause : String → Type 0) : Ended A → Type 0 where
  fine : (a : A) → Q a → Outcome Q Cause (returned a)
  refused : (x : String) → Cause x → Outcome Q Cause (raised x)

and_then-Outcome :
    {A B : Type 0} {Cause : String → Type 0} (Q : A → Type 0) (R : B → Type 0) (o : Ended A)
    (k : A → Ended B)
    → Outcome Q Cause o
    → ((a : A) → Q a → Outcome R Cause (k a))
    → Outcome R Cause (and_then o k)
and_then-Outcome Q R (returned a) k (fine _ q) f = f a q
and_then-Outcome Q R (raised _) k (refused x c) f = refused x c

weaken :
    {A : Type 0} {Cause Cause' : String → Type 0} (Q : A → Type 0) (o : Ended A)
    → ((x : String) → Cause x → Cause' x)
    → Outcome Q Cause o
    → Outcome Q Cause' o
weaken Q (returned a) f (fine _ q) = fine a q
weaken Q (raised _) f (refused x c) = refused x (f x c)

module _ {V Stamp : Type 0} (n : Numbers V) (hours_since : String → Stamp → Ended V) where
  -- A ValueError for an earlier close of the series that is zero.
  data ZeroClose (closes : List V) : String → Type 0 where
    zero_close :
        (k : ℕ) (past : V)
        → nth k (reverse closes) ≡ some past
        → n.is_eq past (n.decimal 0 0) ≡ true
        → ZeroClose closes "ValueError"

  change_between-Outcome :
      (current : Option V) (o : Option V) (closes : List V) (k : ℕ)
      → nth k (reverse closes) ≡ o
      → Outcome (λ _. Unit) (ZeroClose closes) (change_between n hours_since current o)
  change_between-Outcome none o closes k h = fine none tt
  change_between-Outcome (some c) none closes k h = fine none tt
  change_between-Outcome (some c) (some p) closes k h =
      elim (Bool-cases (n.is_eq p (n.decimal 0 0))) [
        | inl e ↦ rw e (refused "ValueError" (zero_close k p h e))
        | inr e ↦ rw e (fine _ tt)
      ]

  horizon_change-Outcome :
      (closes : List V) (k : ℕ)
      → Outcome (λ _. Unit) (ZeroClose closes) (horizon_change n hours_since closes k)
  unfolding horizon_change
  horizon_change-Outcome closes k = elim (Bool-cases (leb (length closes) k)) [
    | inl e ↦ rw e (fine none tt)
    | inr e ↦ rw e (change_between-Outcome (nth 0 (reverse closes)) _ closes k refl)
  ]

  computed_changes-Outcome :
      (closes : List V)
      → Outcome (λ _. Unit) (ZeroClose closes) (computed_changes n hours_since closes)
  unfolding computed_changes
  computed_changes-Outcome closes =
      and_then-Outcome (λ _. Unit) (λ _. Unit) _ _ (horizon_change-Outcome closes 1)
        (λ a _.
          and_then-Outcome (λ _. Unit) (λ _. Unit) _ _ (horizon_change-Outcome closes 4)
            (λ b _.
              and_then-Outcome (λ _. Unit) (λ _. Unit) _ _ (horizon_change-Outcome closes 28)
                (λ c _.
                  and_then-Outcome (λ _. Unit) (λ _. Unit) _ _ (horizon_change-Outcome closes 120)
                    (λ d _. fine _ tt))))

  -- Why an asset with this series has no features: an earlier close is zero, of a series without
  -- explicit changes, or the range or the volume ratio that is computed is negative or not a number.
  pub data Unfit (c : AssetClass) (s : Series V) : String → Type 0 where
    zero_past :
        (k : ℕ) (past : V)
        → s.horizon_changes ≡ none
        → nth k (reverse s.closes) ≡ some past
        → n.is_eq past (n.decimal 0 0) ≡ true
        → Unfit c s "ValueError"
    out_of_range :
        (changes : Changes (Option V))
        → features_fit n (features_from n hours_since (indicators_of n hours_since c s) changes)
          ≡ false
        → Unfit c s "ValidationError"

  -- Why there are no features: a configured asset has a series that is unfit, or the time of an event
  -- whose actual value is recorded cannot be read.
  pub data Refusal (assets : Dict AssetConfig) (snapshots : Dict (Series V))
      (events : List (MacroEvent V)) (now : Stamp) (x : String) : Type 0 where
    bad_series :
        (symbol : String) (c : AssetClass) (s : Series V)
        → lookup symbol snapshots ≡ some s
        → Unfit c s x
        → Refusal assets snapshots events now x
    bad_time :
        Some
          (λ (e : MacroEvent V).
            (is_some e.actual ≡ true) × (hours_since e.scheduled_at now ≡ raised x))
          events
        → Refusal assets snapshots events now x

  asset_features-Outcome :
      (c : AssetClass) (o : Option (Series V))
      → Outcome
          (λ _. Unit)
          (λ x. (s : Series V) × (o ≡ some s) × Unfit c s x)
          (asset_features n hours_since c o)
  unfolding asset_features
  asset_features-Outcome c none = fine _ tt
  asset_features-Outcome c (some s) =
      and_then-Outcome (λ _. Unit) (λ _. Unit) _ _ (changed s.horizon_changes refl)
        (λ changes _.
          let f = features_from n hours_since (indicators_of n hours_since c s) changes in
          elim (Bool-cases (features_fit n f)) [
            | inl e ↦ rw e (fine _ tt)
            | inr e ↦ rw e (refused "ValidationError" (s, refl, out_of_range changes e))
          ])
    where
      past : (x : String) → s.horizon_changes ≡ none → ZeroClose s.closes x → Unfit c s x
      past _ h (zero_close k p at z) = zero_past k p h at z

      changed :
          (h : Option (Changes (Option V)))
          → s.horizon_changes ≡ h
          → Outcome {A = Changes (Option V)}
              (λ _. Unit)
              (λ x. (t : Series V) × (some s ≡ some t) × Unfit c t x)
              (changes_of n hours_since s h)
      changed none e = weaken _ _ (λ x z. (s, refl, past x e z)) (computed_changes-Outcome s.closes)
      changed (some x) e = fine x tt

  all_features-Outcome :
      (all assets : Dict AssetConfig) (snapshots : Dict (Series V)) (events : List (MacroEvent V))
      (now : Stamp)
      → Outcome
          (λ (d : Dict (AssetFeatures V)).
            map (λ e. e.0) d ≡ map (λ (e : String × AssetConfig). e.0) assets)
          (Refusal all snapshots events now)
          (all_features n hours_since assets snapshots)
  unfolding all_features
  all_features-Outcome all [] snapshots events now = fine [] refl
  all_features-Outcome all ((symbol, cfg) ∷ assets) snapshots events now =
      and_then-Outcome (λ _. Unit) _ _ _
        (weaken _ _ (λ x (s, e, u). bad_series symbol cfg.asset_class s e u)
          (asset_features-Outcome cfg.asset_class (lookup symbol snapshots)))
        (λ f _.
          and_then-Outcome _ _ _ _ (all_features-Outcome all assets snapshots events now)
            (λ rest h. fine _ (ap (λ ks. symbol ∷ ks) h)))

  -- The ids of the events whose actual value is recorded.
  abbrev pub recorded_ids : List (MacroEvent V) → List String
  recorded_ids events =
      map (λ (e : MacroEvent V). e.event_id)
        (select (λ (e : MacroEvent V). is_some e.actual) events)

  recorded-none :
      (e : MacroEvent V) (events : List (MacroEvent V))
      → is_some e.actual ≡ false
      → recorded_ids (e ∷ events) ≡ recorded_ids events
  recorded-none e events h = rw h refl

  recorded-some :
      (e : MacroEvent V) (events : List (MacroEvent V))
      → is_some e.actual ≡ true
      → recorded_ids (e ∷ events) ≡ e.event_id ∷ recorded_ids events
  recorded-some e events h = rw h refl

  Unread : List (MacroEvent V) → Stamp → String → Type 0
  Unread events now x =
      Some
        (λ (e : MacroEvent V).
          (is_some e.actual ≡ true) × (hours_since e.scheduled_at now ≡ raised x))
        events

  event_features-Outcome :
      (now : Stamp) (events : List (MacroEvent V))
      → Outcome
          (λ (fs : List (EventFeature V)).
            map (λ (f : EventFeature V). f.event_id) fs ≡ recorded_ids events)
          (Unread events now)
          (event_features_of n hours_since now events)
  unfolding event_features_of Unread
  event_features-Outcome now [] = fine [] refl
  event_features-Outcome now (e ∷ events) =
      one e.actual refl (weaken _ _ (λ x u. inr u) (event_features-Outcome now events))
    where
      one :
          (a : Option V)
          → is_some e.actual ≡ is_some a
          → Outcome
              (λ (fs : List (EventFeature V)).
                map (λ (f : EventFeature V). f.event_id) fs ≡ recorded_ids events)
              (Unread (e ∷ events) now)
              (event_features_of n hours_since now events)
          → Outcome
              (λ (fs : List (EventFeature V)).
                map (λ (f : EventFeature V). f.event_id) fs ≡ recorded_ids (e ∷ events))
              (Unread (e ∷ events) now)
              (and_then (surprise_feature n hours_since e now a) (λ fs.
                and_then
                  (event_features_of n hours_since now events)
                  (λ more. returned (fs ++ more))))
      one none h rest =
          and_then-Outcome _ _ _ _ rest (λ fs same. fine fs (same ∙ sym (recorded-none e events h)))
      one (some a) h rest = elim (Ended-cases (hours_since e.scheduled_at now)) [
        | inl (hours, t) ↦ rw t (
            and_then-Outcome _ _ _ _ rest (λ fs same.
              fine _ (ap (λ ks. e.event_id ∷ ks) same ∙ sym (recorded-some e events h))))
        | inr (x, t) ↦ rw t (refused x (inl (h, t)))
      ]

  -- The features have an entry for each configured asset, in their order, and one for each event
  -- whose actual value is recorded. Or an exception is raised: a ValueError when a series without
  -- explicit changes has an earlier close of zero, a ValidationError when the range or the volume
  -- ratio computed of a series is negative or not a number, or what the time of an event raises whose
  -- actual value is recorded.
  pub compute-Outcome :
      (assets : Dict AssetConfig) (snapshots : Dict (Series V)) (globals : Globals V)
      (events : List (MacroEvent V)) (ctx : RunContext Stamp)
      → Outcome
          (λ (fs : FeatureSet V).
            (map (λ e. e.0) fs.per_asset ≡ map (λ (e : String × AssetConfig). e.0) assets)
            × (map (λ (f : EventFeature V). f.event_id) fs.event_features ≡ recorded_ids events))
          (Refusal assets snapshots events ctx.now)
          (compute n hours_since assets snapshots globals events ctx)
  unfolding compute Unread
  compute-Outcome assets snapshots globals events ctx =
      and_then-Outcome _ _ _ _ (all_features-Outcome assets assets snapshots events ctx.now) (λ d h.
        and_then-Outcome _ _ _ _
          (weaken _ _ (λ x u. bad_time u) (event_features-Outcome ctx.now events))
          (λ fs same. fine _ (h, same)))
