-- ===== src/Storage/Keyed/History.antt =====
-- What the store of src/market_state_engine/persistence/total_mcap_history.py returns.
use mathlib.Core.List.{Perm, reverse-reverse}
use tread_agent.Base.{
  ◌≡◌, refl, ap, inl, inr, ℕ, zero, suc, ◌≤◌, String, Bool, true, List, [], ◌∷◌, ◌++◌, select, take,
  drop, reverse, length, All, Some, str_eq, not, ◌⊎◌, arith, String-cases, Bool-cases,
}
use tread_agent.Base.Sort.{sort, IsSorted, sort-perm, sort-IsSorted}
use tread_agent.Base.Order.{str_le, str_le_total, str_le_trans}
use tread_agent.Storage.Keyed.{
  TotalMcapSample, same_key, upsert_sample, later_first, list_recent, record_and_list,
}

length-take : {A : Type 0} (k : ℕ) (xs : List A) → length (take k xs) ≤ k
length-take zero xs = omega arith
length-take (suc k) [] = omega arith
length-take (suc k) (x ∷ xs) = omega (arith, length-take k xs)

take-full : {A : Type 0} (k : ℕ) (xs : List A) → (length (take k xs) ≡ k) ⊎ (drop k xs ≡ [])
take-full zero xs = inl refl
take-full (suc k) [] = inr refl
take-full (suc k) (x ∷ xs) = elim (take-full k xs) [ inl h ↦ inl (ap suc h) | inr h ↦ inr h ]

take-append-drop : {A : Type 0} (k : ℕ) (xs : List A) → take k xs ++ drop k xs ≡ xs
take-append-drop zero xs = refl
take-append-drop (suc k) [] = refl
take-append-drop (suc k) (x ∷ xs) = ap (λ ys. x ∷ ys) (take-append-drop k xs)

All-take : {A : Type 0} (P : A → Type 0) (k : ℕ) (xs : List A) → All P xs → All P (take k xs)
All-take P zero xs a = tt
All-take P (suc k) [] a = tt
All-take P (suc k) (x ∷ xs) a = (a.0, All-take P k xs a.1)

All-drop : {A : Type 0} (P : A → Type 0) (k : ℕ) (xs : List A) → All P xs → All P (drop k xs)
All-drop P zero xs a = a
All-drop P (suc k) [] a = tt
All-drop P (suc k) (x ∷ xs) a = All-drop P k xs a.1

IsSorted-take :
    {A : Type 0} (le : A → A → Bool) (k : ℕ) (xs : List A)
    → IsSorted le xs
    → IsSorted le (take k xs)
IsSorted-take le zero xs s = tt
IsSorted-take le (suc k) [] s = tt
IsSorted-take le (suc k) (x ∷ xs) s = (All-take _ k xs s.0, IsSorted-take le k xs s.1)

-- What a sorted list has kept back comes after all that it has given.
dropped_after :
    {A : Type 0} (le : A → A → Bool) (k : ℕ) (xs : List A)
    → IsSorted le xs
    → All (λ x. All (λ y. le x y ≡ true) (drop k xs)) (take k xs)
dropped_after le zero xs s = tt
dropped_after le (suc k) [] s = tt
dropped_after le (suc k) (x ∷ xs) s = (All-drop _ k xs s.0, dropped_after le k xs s.1)

str_eq_refl : (s : String) → str_eq s s ≡ true
str_eq_refl s = elim (String-cases s s) [ inl (e, _) ↦ e | inr (_, n) ↦ absurd (n refl) ]

module _ {V : Type 0} where
  same_key_refl : (s : TotalMcapSample V) → same_key s s ≡ true
  same_key_refl s = rw (str_eq_refl s.symbol, str_eq_refl s.as_of) refl

  upsert_sample-stored :
      (s : TotalMcapSample V) (rows : List (TotalMcapSample V))
      → Some (λ r. r ≡ s) (upsert_sample s rows)
  unfolding upsert_sample
  upsert_sample-stored s [] = inl refl
  upsert_sample-stored s (r ∷ rows) = elim (Bool-cases (same_key r s)) [
    | inl e ↦ rw e (inl refl)
    | inr e ↦ rw e (inr (upsert_sample-stored s rows))
  ]

  upsert_sample-others :
      (s : TotalMcapSample V) (rows : List (TotalMcapSample V))
      → select (λ r. not (same_key r s)) (upsert_sample s rows)
        ≡ select (λ r. not (same_key r s)) rows
  unfolding upsert_sample
  upsert_sample-others s [] = rw (same_key_refl s) refl
  upsert_sample-others s (r ∷ rows) = elim (Bool-cases (same_key r s)) [
    | inl e ↦ rw (e, same_key_refl s) refl
    | inr e ↦ rw e (rw e (ap (λ rs. r ∷ rs) (upsert_sample-others s rows)))
  ]

  -- The list shown for a symbol: read from its end it has the latest samples of the table, the latest
  -- first, and `older` are the others, of which there are none unless the list has `limit` samples.
  pub record IsRecent (symbol : String) (limit : ℕ) (rows shown : List (TotalMcapSample V))
      : Type 0 where
    pub bounded : length (reverse shown) ≤ limit
    pub sorted : IsSorted later_first (reverse shown)
    pub older : List (TotalMcapSample V)
    pub full : (length (reverse shown) ≡ limit) ⊎ (older ≡ [])
    pub complete : Perm (reverse shown ++ older) (select (λ r. str_eq r.symbol symbol) rows)
    pub earlier :
        All
          (λ (x : TotalMcapSample V). All (λ y. str_le y.as_of x.as_of ≡ true) older)
          (reverse shown)

  list_recent-IsRecent :
      (symbol : String) (limit : ℕ) (rows : List (TotalMcapSample V))
      → IsRecent symbol limit rows (list_recent symbol limit rows)
  unfolding list_recent
  list_recent-IsRecent symbol limit rows =
      let all : List (TotalMcapSample V) =
        sort later_first (select (λ r. str_eq r.symbol symbol) rows) in
      let back : reverse (reverse (take limit all)) ≡ take limit all =
        reverse-reverse (take limit all) in
      let s : IsSorted later_first all =
        sort-IsSorted later_first (λ x y. str_le_total y.as_of x.as_of)
          (λ x y z h k. str_le_trans z.as_of y.as_of x.as_of k h)
          (select (λ r. str_eq r.symbol symbol) rows) in
      record {
        bounded = rw back (length-take limit all);
        sorted = rw back (IsSorted-take later_first limit all s);
        older = drop limit all;
        full = rw back (take-full limit all);
        complete =
            rw (back, take-append-drop limit all)
              (sort-perm later_first (select (λ r. str_eq r.symbol symbol) rows));
        earlier = rw back (dropped_after later_first limit all s);
      }

  -- Recording a sample stores it and keeps every row of another symbol or time as it is and in its
  -- place. The list shown has the samples of the table with its symbol, in the order of their times:
  -- all of them, or else exactly `limit`, of which no sample that is not shown is later.
  pub record_and_list-IsRecent :
      (s : TotalMcapSample V) (limit : ℕ) (rows : List (TotalMcapSample V))
      → let (shown, rows') = record_and_list s limit rows in
        Some (λ r. r ≡ s) rows'
        × (select (λ r. not (same_key r s)) rows' ≡ select (λ r. not (same_key r s)) rows)
        × IsRecent s.symbol limit rows' shown
  unfolding record_and_list
  record_and_list-IsRecent s limit rows = (
    upsert_sample-stored s rows,
    upsert_sample-others s rows,
    list_recent-IsRecent s.symbol limit (upsert_sample s rows),
  )
