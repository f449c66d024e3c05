-- ===== src/Reasoning/Replay/Served.antt =====
-- In which order a provider of src/market_state_engine/reasoning/adapters/replay.py answers.
use tread_agent.Base.{
  ◌≡◌, refl, sym, ap, ◌∙◌, inl, inr, ℕ, zero, suc, String, Bool, true, false, ◌&&◌, Option, List,
  [], ◌∷◌, ◌++◌, select, drop, count_if, append-nil, append_assoc, or_else, str_eq, eq_iff, arith,
  Bool-cases, if◌then◌else◌,
}
use tread_agent.Base.Dict.{Dict, lookup, insert, lookup-insert}
use tread_agent.Reasoning.Types.{
  Result, err, provider_call_error, RenderedPrompt, RawProviderResult,
}
use tread_agent.Reasoning.Gateway.Attempt.{CallRecord}
use tread_agent.Reasoning.Replay.{
  ReplayProvider, enqueue, queues_from, new_replay, result_from_record, answer_from, complete,
}

module _ {D C : Type 0} where
  abbrev pub queue_at : String → Dict (List (CallRecord D C)) → List (CallRecord D C)
  queue_at h d = or_else (lookup h d) []

  -- The records of the provider for the prompt, as they are recorded.
  abbrev pub recorded_for : String → String → List (CallRecord D C) → List (CallRecord D C)
  recorded_for name h records =
      select (λ (r : CallRecord D C). str_eq r.provider name && str_eq r.prompt_hash h) records

  enqueued :
      (asked : Bool) (r : CallRecord D C) (q rest : List (CallRecord D C))
      → (if asked then q ++ r ∷ [] else q) ++ rest ≡ q ++ (if asked then r ∷ rest else rest)
  enqueued true r q rest = append_assoc q (r ∷ []) rest
  enqueued false r q rest = refl

  queue_at-insert :
      (k h : String) (v : List (CallRecord D C)) (d : Dict (List (CallRecord D C)))
      → queue_at h (insert k v d) ≡ (if str_eq k h then v else queue_at h d)
  queue_at-insert k h v d = ground (arith, lookup-insert k h v d)

  queue_at-enqueue :
      (h : String) (r : CallRecord D C) (d : Dict (List (CallRecord D C)))
      → queue_at h (enqueue r d)
        ≡ (if str_eq r.prompt_hash h then queue_at h d ++ r ∷ [] else queue_at h d)
  queue_at-enqueue h r d = elim (Bool-cases (str_eq r.prompt_hash h)) [
    | inl f ↦
        queue_at-insert r.prompt_hash h _ d
        ∙ rw f (ap (λ k. queue_at k d ++ r ∷ []) ((eq_iff r.prompt_hash h).0 f))
    | inr f ↦ queue_at-insert r.prompt_hash h _ d ∙ rw f refl
  ]

  queues_from-recorded :
      (name h : String) (records : List (CallRecord D C)) (d : Dict (List (CallRecord D C)))
      → queue_at h (queues_from name records d) ≡ queue_at h d ++ recorded_for name h records
  unfolding queues_from
  queues_from-recorded name h [] d = sym (append-nil _)
  queues_from-recorded name h (r ∷ rs) d = elim (Bool-cases (str_eq r.provider name)) [
    | inr e ↦ rw e (queues_from-recorded name h rs d)
    | inl e ↦ rw e (
        queues_from-recorded name h rs (enqueue r d)
        ∙ ap (λ q. q ++ recorded_for name h rs) (queue_at-enqueue h r d)
        ∙ enqueued (str_eq r.prompt_hash h) r (queue_at h d) (recorded_for name h rs))
  ]

  pub queue-new_replay :
      (name h : String) (records : List (CallRecord D C))
      → queue_at h (new_replay name records).by_hash ≡ recorded_for name h records
  unfolding new_replay
  queue-new_replay name h records = queues_from-recorded name h records []

-- The number of calls with the hash.
abbrev pub calls_with : String → List RenderedPrompt → ℕ
calls_with h prompts = count_if (λ (q : RenderedPrompt). str_eq q.prompt_hash h) prompts

module _ {D C : Type 0} (dumps : Option D → String) where
  -- The provider after calls with these prompts, the last one first.
  unfoldable pub after_calls : List RenderedPrompt → ReplayProvider D C → ReplayProvider D C
  unfolding complete
  after_calls [] p = p
  after_calls (q ∷ earlier) p = (complete dumps (after_calls earlier p) q).1

  -- The answer of a queue's first record.
  abbrev pub answer_of : String → List (CallRecord D C) → Result RawProviderResult
  answer_of name [] = err (provider_call_error name)
  answer_of name (r ∷ rs) = result_from_record dumps name r

  abbrev popped : Bool → List (CallRecord D C) → List (CallRecord D C)
  popped asked q = if asked then drop 1 q else q

  queue-answer :
      (h k : String) (p : ReplayProvider D C) (q : List (CallRecord D C))
      → q ≡ queue_at k p.by_hash
      → queue_at h (answer_from dumps p k q).1.by_hash ≡ popped (str_eq k h) (queue_at h p.by_hash)
  queue-answer h k p [] e = elim (Bool-cases (str_eq k h)) [
    | inl f ↦
        let here = e ∙ ap (λ j. queue_at j p.by_hash) ((eq_iff k h).0 f) in
        rw f (sym here ∙ ap (drop 1) here)
    | inr f ↦ rw f refl
  ]
  queue-answer h k p (r ∷ rs) e = elim (Bool-cases (str_eq k h)) [
    | inl f ↦
        queue_at-insert k h rs p.by_hash
        ∙ rw f (ap (drop 1) e ∙ ap (λ j. drop 1 (queue_at j p.by_hash)) ((eq_iff k h).0 f))
    | inr f ↦ queue_at-insert k h rs p.by_hash ∙ rw f refl
  ]

  queue-complete :
      (h : String) (q : RenderedPrompt) (p : ReplayProvider D C)
      → queue_at h (complete dumps p q).1.by_hash
        ≡ popped (str_eq q.prompt_hash h) (queue_at h p.by_hash)
  unfolding complete
  queue-complete h q p = queue-answer h q.prompt_hash p _ refl

  name-answer :
      (k : String) (p : ReplayProvider D C) (q : List (CallRecord D C))
      → (answer_from dumps p k q).1.name ≡ p.name
  name-answer k p [] = refl
  name-answer k p (r ∷ rs) = refl

  name-after_calls :
      (qs : List RenderedPrompt) (p : ReplayProvider D C) → (after_calls qs p).name ≡ p.name
  unfolding after_calls complete
  name-after_calls [] p = refl
  name-after_calls (q ∷ qs) p =
      name-answer q.prompt_hash (after_calls qs p) _ ∙ name-after_calls qs p

  drop-suc : (n : ℕ) (q : List (CallRecord D C)) → drop 1 (drop n q) ≡ drop (suc n) q
  drop-suc zero q = refl
  drop-suc (suc n) [] = refl
  drop-suc (suc n) (r ∷ rs) = drop-suc n rs

  queue-after_calls :
      (h : String) (qs : List RenderedPrompt) (p : ReplayProvider D C)
      → queue_at h (after_calls qs p).by_hash ≡ drop (calls_with h qs) (queue_at h p.by_hash)
  unfolding after_calls
  queue-after_calls h [] p = refl
  queue-after_calls h (q ∷ qs) p =
      queue-complete h q (after_calls qs p)
      ∙ ap (popped (str_eq q.prompt_hash h)) (queue-after_calls h qs p)
      ∙ elim (Bool-cases (str_eq q.prompt_hash h)) [
        | inl e ↦ rw e (drop-suc (calls_with h qs) (queue_at h p.by_hash))
        | inr e ↦ rw e refl
      ]

  complete-answer :
      (p : ReplayProvider D C) (q : RenderedPrompt)
      → (complete dumps p q).0 ≡ answer_of p.name (queue_at q.prompt_hash p.by_hash)
  unfolding complete
  complete-answer p q = answered (queue_at q.prompt_hash p.by_hash)
    where
      answered :
          (rs : List (CallRecord D C))
          → (answer_from dumps p q.prompt_hash rs).0 ≡ answer_of p.name rs
      answered [] = refl
      answered (r ∷ rs) = refl

  -- A replay provider, after any calls, answers a prompt with the provider's recorded call of the same
  -- prompt hash that stands at the number of the earlier calls with this hash, in the recorded order:
  -- its result, or the failure that it recorded. When the records of the hash are used up it answers with
  -- a call error.
  pub complete-Replays :
      (name : String) (records : List (CallRecord D C)) (earlier : List RenderedPrompt)
      (q : RenderedPrompt)
      → (complete dumps (after_calls earlier (new_replay name records)) q).0
        ≡ answer_of name
            (drop (calls_with q.prompt_hash earlier) (recorded_for name q.prompt_hash records))
  unfolding new_replay
  complete-Replays name records earlier q =
      let p = new_replay name records in
      complete-answer (after_calls earlier p) q
      ∙ ap (λ m. answer_of m (queue_at q.prompt_hash (after_calls earlier p).by_hash))
          (name-after_calls earlier p)
      ∙ ap (answer_of name) (
          queue-after_calls q.prompt_hash earlier p
          ∙ ap (drop (calls_with q.prompt_hash earlier))
              (queue-new_replay name q.prompt_hash records))
