-- ===== src/Reasoning/Replay/Verified.antt =====
-- What `verify_replay` of src/market_state_engine/reasoning/replay.py decides.
use tread_agent.Base.{
  some-injective, is_empty, ◌≡◌, refl, sym, ap, ◌∙◌, ◌↔◌, inl, inr, ℕ, suc, String, Bool, true,
  false, ◌&&◌, Option, none, some, List, [], ◌∷◌, ◌++◌, map, length, ◌==◌, eq_iff, arith,
  Bool-cases,
}
use tread_agent.Reasoning.Types.{LlmJob, Outcome}
use tread_agent.Reasoning.Gateway.Attempt.{CallRecord}
use tread_agent.Reasoning.Replay.{
  ComparedField, compared_fields, FieldValue, value_at, same_value, same_job, same_outcome,
  same_hash, DiffField, field_of, RecordDiff, diff_unless, field_diffs, zip_diffs, verify_replay,
}

same_job_iff : (a b : LlmJob) → (same_job a b ≡ true) ↔ (a ≡ b)
same_job_iff a b = ground arith

same_outcome_iff : (a b : Outcome) → (same_outcome a b ≡ true) ↔ (a ≡ b)
same_outcome_iff a b = ground arith

same_hash_iff : (a b : Option String) → (same_hash a b ≡ true) ↔ (a ≡ b)
same_hash_iff none none = (λ h. refl, λ h. refl)
same_hash_iff none (some b) = (λ h. absurd cc, λ h. absurd cc)
same_hash_iff (some a) none = (λ h. absurd cc, λ h. absurd cc)
same_hash_iff (some a) (some b) =
    (λ h. ap some ((eq_iff a b).0 h), λ h. (eq_iff a b).1 (some-injective h))

number_iff : (a b : ℕ) → ((a == b) ≡ true) ↔ (a ≡ b)
number_iff a b = (λ h. ground arith, λ h. ground arith)

split9 :
    (a b c d e f g h i : Bool)
    → (a && (b && (c && (d && (e && (f && (g && (h && (i && true))))))))) ≡ true
    → (a ≡ true)
      × (b ≡ true)
      × (c ≡ true)
      × (d ≡ true)
      × (e ≡ true)
      × (f ≡ true)
      × (g ≡ true)
      × (h ≡ true)
      × (i ≡ true)
split9 a b c d e f g h i p = (
  ground arith,
  ground arith,
  ground arith,
  ground arith,
  ground arith,
  ground arith,
  ground arith,
  ground arith,
  ground arith,
)

is_empty-append : (xs ys : List RecordDiff) → is_empty (xs ++ ys) ≡ (is_empty xs && is_empty ys)
is_empty-append [] ys = refl
is_empty-append (x ∷ xs) ys = refl

is_empty-unless :
    (same : Bool) (f : DiffField) (a b : FieldValue) → is_empty (diff_unless same f a b) ≡ same
is_empty-unless true f a b = refl
is_empty-unless false f a b = refl

and-both : (a b : Bool) → (a && b) ≡ true → (a ≡ true) × (b ≡ true)
and-both a b h = (ground arith, ground arith)

module _ {A : Type 0} where
  pub cons-same : {x y : A} {xs ys : List A} → x ≡ y → xs ≡ ys → x ∷ xs ≡ y ∷ ys
  cons-same p q = cc

  cons-head : {x y : A} {xs ys : List A} → x ∷ xs ≡ y ∷ ys → x ≡ y
  cons-head p = cc

  cons-tail : {x y : A} {xs ys : List A} → x ∷ xs ≡ y ∷ ys → xs ≡ ys
  cons-tail p = cc

-- The part of a record that a replay must reproduce.
pub record Critical : Type 0 where
  pub run_id : String
  pub llm_job : LlmJob
  pub attempt_index : ℕ
  pub provider : String
  pub model_id : String
  pub prompt_version : String
  pub prompt_hash : String
  pub response_hash : Option String
  pub outcome : Outcome

abbrev pub critical : {D C : Type 0} → CallRecord D C → Critical
critical r = record {
  run_id = r.run_id;
  llm_job = r.llm_job;
  attempt_index = r.attempt_index;
  provider = r.provider;
  model_id = r.model_id;
  prompt_version = r.prompt_version;
  prompt_hash = r.prompt_hash;
  response_hash = r.response_hash;
  outcome = r.outcome;
}

-- Every field of the list has the same value in both.
abbrev all_same : {D C : Type 0} → List ComparedField → CallRecord D C → CallRecord D C → Bool
all_same [] a b = true
all_same (f ∷ fs) a b = same_value (value_at f a) (value_at f b) && all_same fs a b

module _ {D C : Type 0} where
  is_empty-fields :
      (i : ℕ) (fs : List ComparedField) (a b : CallRecord D C)
      → is_empty (field_diffs i fs a b) ≡ all_same fs a b
  unfolding field_diffs
  is_empty-fields i [] a b = refl
  is_empty-fields i (f ∷ fs) a b =
      is_empty-append _ (field_diffs i fs a b)
      ∙ rw
          (
            is_empty-unless (same_value (value_at f a) (value_at f b)) (field_of i f) (value_at f a)
                (value_at f b),
            is_empty-fields i fs a b,
          )
          refl

  all_same_iff :
      (a b : CallRecord D C) → (all_same compared_fields a b ≡ true) ↔ (critical a ≡ critical b)
  unfolding same_value
  all_same_iff a b = (
    λ h.
        let p = split9 _ _ _ _ _ _ _ _ _ h in
        rw
          (
            (eq_iff a.run_id b.run_id).0 p.0,
            (same_job_iff a.llm_job b.llm_job).0 p.1,
            (number_iff a.attempt_index b.attempt_index).0 p.2,
            (eq_iff a.provider b.provider).0 p.3,
            (eq_iff a.model_id b.model_id).0 p.4,
            (eq_iff a.prompt_version b.prompt_version).0 p.5,
            (eq_iff a.prompt_hash b.prompt_hash).0 p.6,
            (same_hash_iff a.response_hash b.response_hash).0 p.7,
            (same_outcome_iff a.outcome b.outcome).0 p.8,
          )
          refl,
    λ h.
        rw
          (
            (eq_iff a.run_id b.run_id).1 (ap (λ (c : Critical). c.run_id) h),
            (same_job_iff a.llm_job b.llm_job).1 (ap (λ (c : Critical). c.llm_job) h),
            (number_iff a.attempt_index b.attempt_index).1
                (ap (λ (c : Critical). c.attempt_index) h),
            (eq_iff a.provider b.provider).1 (ap (λ (c : Critical). c.provider) h),
            (eq_iff a.model_id b.model_id).1 (ap (λ (c : Critical). c.model_id) h),
            (eq_iff a.prompt_version b.prompt_version).1
                (ap (λ (c : Critical). c.prompt_version) h),
            (eq_iff a.prompt_hash b.prompt_hash).1 (ap (λ (c : Critical). c.prompt_hash) h),
            (same_hash_iff a.response_hash b.response_hash).1
                (ap (λ (c : Critical). c.response_hash) h),
            (same_outcome_iff a.outcome b.outcome).1 (ap (λ (c : Critical). c.outcome) h),
          )
          refl,
  )

  -- The criticals of two lists, position by position.
  abbrev criticals : List (CallRecord D C) → List Critical
  criticals rs = map critical rs

  zip_diffs_iff :
      (i : ℕ) (rec rep : List (CallRecord D C))
      → length rec ≡ length rep
      → (is_empty (zip_diffs i rec rep) ≡ true) ↔ (criticals rec ≡ criticals rep)
  unfolding zip_diffs
  zip_diffs_iff i [] [] h = (λ _. refl, λ _. refl)
  zip_diffs_iff i [] (b ∷ bs) h = absurd (omega arith)
  zip_diffs_iff i (a ∷ as') [] h = absurd (omega arith)
  zip_diffs_iff i (a ∷ as') (b ∷ bs) h =
      let each = is_empty-append (field_diffs i compared_fields a b) (zip_diffs (suc i) as' bs) in
      let first = is_empty-fields i compared_fields a b in
      let ih = zip_diffs_iff (suc i) as' bs (omega (arith, h)) in
      (
        λ e.
            let both =
              and-both _ _
                (sym (each ∙ ap (λ x. x && is_empty (zip_diffs (suc i) as' bs)) first) ∙ e) in
            cons-same ((all_same_iff a b).0 both.0) (ih.0 both.1),
        λ q. each ∙ rw (first, (all_same_iff a b).1 (cons-head q), ih.1 (cons-tail q)) refl,
      )

  length-criticals : (rs : List (CallRecord D C)) → length (criticals rs) ≡ length rs
  length-criticals [] = refl
  length-criticals (r ∷ rs) = ap suc (length-criticals rs)

  -- A replay is found to match exactly when it has as many records as the recorded run and each agrees
  -- with the recorded one on the nine compared fields: run, job, attempt, provider, model, versions and
  -- hash of the prompt, hash of the response and outcome.
  pub verify_replay_matched :
      (rec rep : List (CallRecord D C))
      → ((verify_replay rec rep).matched ≡ true) ↔ (map critical rec ≡ map critical rep)
  unfolding verify_replay
  verify_replay_matched rec rep = elim (Bool-cases (length rec == length rep)) [
    | inl e ↦ rw e (zip_diffs_iff 0 rec rep ((number_iff (length rec) (length rep)).0 e))
    | inr e ↦ rw e (
      λ h. absurd cc,
      λ q. absurd (differ e (sym (length-criticals rec) ∙ ap length q ∙ length-criticals rep)),
    )
  ]
    where
      differ : {m n : ℕ} → (m == n) ≡ false → m ≡ n → ⊥
      differ e q = ground arith
