-- ===== src/Reasoning/Breaker/Window.antt =====
-- The breaker against its specification: it trips on the failures of the last `window_seconds`.
use tread_agent.Base.{
  ℕ, ◌-◌, ◌≤◌, ◌<◌, ◌≡◌, refl, sym, ap, ◌∙◌, true, some, List, [], ◌∷◌, ◌++◌, length, select,
  count_if, All, All-append, All-select, All-map, length-select, select-append, leb, arith,
}
use tread_agent.Base.Sort.{IsSorted, IsSorted-select}
use tread_agent.Reasoning.Breaker.{
  CircuitBreaker, closed, opened, prune, trip, record_success, record_failure, maybe_half_open,
  recent,
}

select-All : (h f : ℕ) (fs : List ℕ) → h ≤ f → All (λ y. leb f y ≡ true) fs → select (leb h) fs ≡ fs
select-All h f [] le a = refl
select-All h f (y ∷ ys) le a = ground (arith, select-All h f ys le a.1)

-- On failures in order, to prune from the front is to keep what is not older than the horizon.
prune-eq-select : (h : ℕ) (fs : List ℕ) → IsSorted leb fs → prune h fs ≡ select (leb h) fs
unfolding prune
prune-eq-select h [] s = refl
prune-eq-select h (f ∷ fs) s =
    ground (arith, prune-eq-select h fs s.1, λ (p : h ≤ f). select-All h f fs p s.0)

-- A later horizon hides an earlier one.
select-select :
    (l h : ℕ) (xs : List ℕ) → l ≤ h → select (leb h) (select (leb l) xs) ≡ select (leb h) xs
select-select l h [] p = refl
select-select l h (x ∷ xs) p = ground (arith, select-select l h xs p)

IsSorted-snoc :
    (n : ℕ) (xs : List ℕ) → IsSorted leb xs → All (λ f. f ≤ n) xs → IsSorted leb (xs ++ n ∷ [])
IsSorted-snoc n [] s a = (tt, tt)
IsSorted-snoc n (x ∷ xs) s a = (
  All-append (λ y. leb x y ≡ true) xs (n ∷ []) s.0 (ground arith, tt),
  IsSorted-snoc n xs s.1 a.1,
)

-- A closed breaker has seen the failures `hist` since it last closed, in order and the last of them
-- not after `last`, and keeps those that were in the window then.
pub record Window (b : CircuitBreaker) (hist : List ℕ) (last : ℕ) : Type 0 where
  pub is_closed : b.state ≡ closed
  pub sorted : IsSorted leb hist
  pub seen : All (λ f. f ≤ last) hist
  pub kept : b.failures ≡ select (leb (last - b.window_seconds)) hist

-- A success starts a new history.
pub record_success-Window : (b : CircuitBreaker) (last : ℕ) → Window (record_success b) [] last
unfolding record_success
record_success-Window b last = record { is_closed = refl; sorted = tt; seen = tt; kept = refl }

module _ (b : CircuitBreaker) (hist : List ℕ) (last now : ℕ) (w : Window b hist last)
    (later : last ≤ now) where
  seen_now : All (λ f. f ≤ now) hist
  seen_now = All-map (λ f. f ≤ last) (λ f. f ≤ now) (λ f h. omega arith) hist w.seen

  kept_now : IsSorted leb (select (leb (last - b.window_seconds)) hist ++ now ∷ [])
  kept_now =
      IsSorted-snoc now _ (IsSorted-select leb (leb (last - b.window_seconds)) hist w.sorted)
        (All-select (λ f. f ≤ now) _ hist seen_now)

  recent-eq-select : recent now b ≡ select (leb (now - b.window_seconds)) (hist ++ now ∷ [])
  recent-eq-select = rw w.kept (
      prune-eq-select _ _ kept_now
      ∙ select-append (leb (now - b.window_seconds)) _ (now ∷ [])
      ∙ ap (λ xs. xs ++ select (leb (now - b.window_seconds)) (now ∷ []))
          (select-select _ _ hist (omega arith))
      ∙ sym (select-append (leb (now - b.window_seconds)) hist (now ∷ [])))

  stays_closed : (reading : ℕ) → maybe_half_open reading b ≡ b
  unfolding maybe_half_open
  stays_closed reading = ground (arith, w.is_closed)

  length-recent : length (recent now b) ≡ count_if (leb (now - b.window_seconds)) (hist ++ now ∷ [])
  length-recent = ap length recent-eq-select ∙ length-select _ (hist ++ now ∷ [])

  noted :
      (reading : ℕ)
      → length (recent now b) < b.failure_threshold
      → record_failure now reading b ≡ record b { failures = recent now b }
  unfolding record_failure
  noted reading free = rw (stays_closed reading) (ground (arith, w.is_closed))

  grows : Window (record b { failures = recent now b }) (hist ++ now ∷ []) now
  grows = record {
    is_closed = w.is_closed;
    sorted = IsSorted-snoc now hist w.sorted seen_now;
    seen = All-append (λ f. f ≤ now) hist (now ∷ []) seen_now (omega arith, tt);
    kept = recent-eq-select;
  }

  -- A closed breaker that sees one more failure, in order, trips exactly if that makes
  -- `failure_threshold` failures in the last `window_seconds`: then it is open since now with no
  -- failures kept, and else it is closed and has the failure in its history.
  pub record_failure-Window :
      (reading : ℕ)
      → let n = count_if (leb (now - b.window_seconds)) (hist ++ now ∷ []) in
        (b.failure_threshold ≤ n
          → record_failure now reading b
            ≡ record b { failures = []; state = opened; opened_at = some now })
        × (n < b.failure_threshold → Window (record_failure now reading b) (hist ++ now ∷ []) now)
  unfolding record_failure trip
  record_failure-Window reading = (
    λ full. rw (stays_closed reading) (ground (arith, length-recent, w.is_closed)),
    λ free. rw (noted reading (omega (arith, length-recent))) grows,
  )
