-- ===== src/Reasoning/Health/Rolled.antt =====
-- The monitor against its specification: it keeps the last `window` entries of each provider.
use tread_agent.Base.{
  ℕ, zero, suc, ◌+◌, ◌-◌, ◌≤◌, ◌≡◌, refl, sym, ap, ◌∙◌, String, true, inl, inr, List, [], ◌∷◌, ◌++◌,
  length, length-append, drop, ltb, tests, arith, if◌then◌else◌, str_eq, Bool-cases, String-cases,
  append-nil, append_assoc, subst,
}
use tread_agent.Base.Dict.{lookup, lookup-insert}
use tread_agent.Reasoning.Types.{Outcome}
use tread_agent.Reasoning.Health.{
  Rolling, HealthMonitor, new_monitor, deque_append, roll, roll_in, record_outcome, is_success,
}

-- One call of `record`.
pub record Entry : Type 0 where
  pub provider : String
  pub outcome : Outcome
  pub latency_ms : ℕ

unfoldable pub record_all : List Entry → HealthMonitor → HealthMonitor
record_all [] m = m
record_all (e ∷ es) m = record_all es (record_outcome e.provider e.outcome e.latency_ms m)

abbrev pub outcomes_of : String → List Entry → List Outcome
outcomes_of name [] = []
outcomes_of name (e ∷ es) =
    if str_eq e.provider name then e.outcome ∷ outcomes_of name es else outcomes_of name es

abbrev pub latencies_of : String → List Entry → List ℕ
latencies_of name [] = []
latencies_of name (e ∷ es) =
    if str_eq e.provider name
    then (if is_success e.outcome
        then e.latency_ms ∷ latencies_of name es
        else latencies_of name es)
    else latencies_of name es

module _ {ℓ} {A : Type ℓ} where
  abbrev pub take_last : ℕ → List A → List A
  take_last n xs = drop (length xs - n) xs

  drop-append : (n : ℕ) (xs ys : List A) → n ≤ length xs → drop n (xs ++ ys) ≡ drop n xs ++ ys
  drop-append zero xs ys h = refl
  drop-append (suc n) [] ys h = elim h [ ]
  drop-append (suc n) (x ∷ xs) ys h = drop-append n xs ys (omega arith)

  drop-nil : (n : ℕ) → drop {A = A} n [] ≡ []
  drop-nil zero = refl
  drop-nil (suc n) = refl

  drop-drop : (n m : ℕ) (xs : List A) → drop n (drop m xs) ≡ drop (m + n) xs
  drop-drop n zero xs = ap (λ (i : ℕ). drop i xs) (omega arith)
  drop-drop n (suc m) [] = drop-nil n ∙ sym (drop-nil (suc m + n))
  drop-drop n (suc m) (x ∷ xs) =
      let e : suc m + n ≡ suc (m + n) = omega arith in rw e (drop-drop n m xs)

  length-drop : (n : ℕ) (xs : List A) → length (drop n xs) ≡ length xs - n
  length-drop zero xs = omega arith
  length-drop (suc n) [] = omega arith
  length-drop (suc n) (x ∷ xs) = omega (arith, length-drop n xs)

  -- Appending to a deque that holds the last entries of a history keeps the last of the longer one.
  deque_append-take_last :
      (n : ℕ) (x : A) (xs : List A) → deque_append n x (take_last n xs) ≡ take_last n (xs ++ x ∷ [])
  unfolding deque_append
  deque_append-take_last n x xs =
      rw (sym (drop-append (length xs - n) xs (x ∷ []) (omega arith)), deque_append)
        (elim (Bool-cases (ltb n (length (drop (length xs - n) (xs ++ x ∷ []))))) [
          | inl e ↦ rw e (
              drop-drop 1 (length xs - n) (xs ++ x ∷ [])
              ∙ ap (λ (i : ℕ). drop i (xs ++ x ∷ []))
                  (omega (tests, lens, length-append xs (x ∷ []))))
          | inr e ↦ rw e (
              ap (λ (i : ℕ). drop i (xs ++ x ∷ []))
                (omega (tests, lens, length-append xs (x ∷ []))))
        ])
    where
      lens : length (drop (length xs - n) (xs ++ x ∷ [])) ≡ length (xs ++ x ∷ []) - (length xs - n)
      lens = length-drop (length xs - n) (xs ++ x ∷ [])

roll_record :
    (name p : String) (o : Outcome) (t : ℕ) (m : HealthMonitor)
    → roll name (record_outcome p o t m)
      ≡ (if str_eq p name then roll_in m.window o t (roll p m) else roll name m)
unfolding roll record_outcome
roll_record name p o t m =
    ground (arith, lookup-insert p name (roll_in m.window o t (roll p m)) m.by_provider)

window-record_outcome :
    (p : String) (o : Outcome) (t : ℕ) (m : HealthMonitor)
    → (record_outcome p o t m).window ≡ m.window
unfolding record_outcome
window-record_outcome p o t m = refl

record_all-append :
    (xs ys : List Entry) (m : HealthMonitor)
    → record_all (xs ++ ys) m ≡ record_all ys (record_all xs m)
unfolding record_all
record_all-append [] ys m = refl
record_all-append (x ∷ xs) ys m =
    record_all-append xs ys (record_outcome x.provider x.outcome x.latency_ms m)

-- What the monitor should hold of a provider after the calls `es`.
abbrev pub kept_of : ℕ → String → List Entry → Rolling
kept_of window name es = record {
  outcomes = take_last window (outcomes_of name es);
  latencies = take_last window (latencies_of name es);
}

outcomes_of-snoc :
    (name : String) (es : List Entry) (e : Entry)
    → outcomes_of name (es ++ e ∷ []) ≡ (
        if str_eq e.provider name
        then outcomes_of name es ++ e.outcome ∷ []
        else outcomes_of name es)
outcomes_of-snoc name [] e = ground arith
outcomes_of-snoc name (x ∷ es) e = ground (arith, outcomes_of-snoc name es e)

latencies_of-snoc :
    (name : String) (es : List Entry) (e : Entry)
    → latencies_of name (es ++ e ∷ []) ≡ (
        if str_eq e.provider name
        then (if is_success e.outcome
            then latencies_of name es ++ e.latency_ms ∷ []
            else latencies_of name es)
        else latencies_of name es)
latencies_of-snoc name [] e = ground arith
latencies_of-snoc name (x ∷ es) e = ground (arith, latencies_of-snoc name es e)

roll_in-kept_of :
    (window w : ℕ) (name : String) (es : List Entry) (e : Entry) (r : Rolling)
    → str_eq e.provider name ≡ true
    → w ≡ window
    → r ≡ kept_of window name es
    → roll_in w e.outcome e.latency_ms r ≡ kept_of window name (es ++ e ∷ [])
unfolding roll_in
roll_in-kept_of window w name es e r h ew er =
    rw (ew, er, outcomes_of-snoc name es e, latencies_of-snoc name es e, h)
      (ground (
        arith,
        deque_append-take_last window e.outcome (outcomes_of name es),
        deque_append-take_last window e.latency_ms (latencies_of name es),
      ))

-- A monitor that holds what `es` should leave holds, after `fs` too, what `es ++ fs` should.
module _ (window : ℕ) where
  abbrev Holds : List Entry → HealthMonitor → Type 0
  Holds es m = (m.window ≡ window) × ((name : String) → roll name m ≡ kept_of window name es)

  record_outcome-Holds :
      (es : List Entry) (e : Entry) (m : HealthMonitor)
      → Holds es m
      → Holds (es ++ e ∷ []) (record_outcome e.provider e.outcome e.latency_ms m)
  record_outcome-Holds es e m h = (window-record_outcome _ _ _ m ∙ h.0, at)
    where
      at :
          (name : String)
          → roll name (record_outcome e.provider e.outcome e.latency_ms m)
            ≡ kept_of window name (es ++ e ∷ [])
      at name =
          roll_record name e.provider e.outcome e.latency_ms m
          ∙ elim (String-cases e.provider name) [
            | inl (t, p) ↦ rw t (
                roll_in-kept_of window m.window name es e _ t h.0
                  (h.1 e.provider ∙ ap (λ n. kept_of window n es) p))
            | inr (f, _) ↦
                rw (f, h.1 name, outcomes_of-snoc name es e, latencies_of-snoc name es e, f)
          ]

  new_monitor-Holds : Holds [] (new_monitor window)
  unfolding new_monitor roll lookup
  new_monitor-Holds = (
    refl,
    λ name. ground (arith, drop-nil {A = Outcome} (0 - window), drop-nil {A = ℕ} (0 - window)),
  )

  record_all-Holds :
      (es fs : List Entry) (m : HealthMonitor) → Holds es m → Holds (es ++ fs) (record_all fs m)
  unfolding record_all
  record_all-Holds es [] m h = rw (append-nil es) h
  record_all-Holds es (f ∷ fs) m h =
      subst (λ l. Holds l (record_all (f ∷ fs) m)) (append_assoc es (f ∷ []) fs)
        (record_all-Holds (es ++ f ∷ []) fs _ (record_outcome-Holds es f m h))

-- After any calls of `record` on a new monitor, it holds of each provider the last `window`
-- outcomes that were recorded of that provider, and the last `window` latencies of its successes.
pub roll-record_all :
    (window : ℕ) (es : List Entry) (name : String)
    → roll name (record_all es (new_monitor window)) ≡ record {
      outcomes = take_last window (outcomes_of name es);
      latencies = take_last window (latencies_of name es);
    }
roll-record_all window es name = (record_all-Holds window [] es (new_monitor window) fresh).1 name
  where
    fresh : Holds window [] (new_monitor window)
    fresh = new_monitor-Holds window
