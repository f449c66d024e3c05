-- ===== src/Storage/Reads/Unordered.antt =====
-- The order of the lists of runs in src/market_state_engine/persistence/repositories.py: it does not
-- depend on the order in which the database keeps the rows.
use mathlib.Core.List.{Permᴰ}
use tread_agent.Base.{
  ℕ, ◌≡◌, refl, ◌∙◌, ap, sym, ◌⊎◌, inl, inr, String, Bool, true, false, Option, none, some, List,
  [], ◌∷◌, map, select, take, drop, ltb, ◌==◌, if◌then◌else◌, arith, Bool-cases, Option-cases,
}
use tread_agent.Base.Sort.{sort, insert_sorted}
use tread_agent.Base.Order.{str_le, str_le_total, str_le_trans, str_le_antisym}
use tread_agent.Pipeline.Store.{TriggerType, RunRow, RunOutputRow}
use tread_agent.Storage.Reads.{
  Joined, has_trigger, run_of, join_runs, later_first, ordered_ids, documents_of, get_output,
  list_runs,
}

module _ {A : Type 0} (le : A → A → Bool) (total : (x y : A) → (le x y ≡ true) ⊎ (le y x ≡ true))
    (trans : (x y z : A) → le x y ≡ true → le y z ≡ true → le x z ≡ true)
    (antisym : (x y : A) → le x y ≡ true → le y x ≡ true → x ≡ y) where
  turn : (x y : A) → le x y ≡ false → le y x ≡ true
  turn x y e = elim (total x y) [ inl h ↦ cc | inr h ↦ h ]

  against : (x y z : A) → le x y ≡ true → le y z ≡ true → le x z ≡ false → ⊥
  against x y z h k n = let t = trans x y z h k in cc

  not_le : (x y z : A) → le y z ≡ true → le x z ≡ false → le x y ≡ false
  not_le x y z k n = elim (Bool-cases (le x y)) [ inl h ↦ absurd (against x y z h k n) | inr h ↦ h ]

  two :
      (x y : A) (l : List A)
      → (if le x y then x ∷ y ∷ l else y ∷ x ∷ l) ≡ (if le y x then y ∷ x ∷ l else x ∷ y ∷ l)
  two x y l = elim (Bool-cases (le x y)) [
    | inl a ↦ elim (Bool-cases (le y x)) [
      | inl b ↦
          let e = antisym x y a b in rw (a, b) (ap (λ z. z ∷ y ∷ l) e ∙ ap (λ z. y ∷ z ∷ l) (sym e))
      | inr b ↦ rw (a, b) refl
    ]
    | inr a ↦ rw (a, turn x y a) refl
  ]

  -- Insertions commute where the order tells different items apart.
  insert_sorted_comm :
      (x y : A) (xs : List A)
      → insert_sorted le x (insert_sorted le y xs) ≡ insert_sorted le y (insert_sorted le x xs)
  unfolding insert_sorted
  insert_sorted_comm x y [] = two x y []
  insert_sorted_comm x y (z ∷ zs) = elim (Bool-cases (le y z)) [
    | inl b ↦ elim (Bool-cases (le x z)) [
      | inl a ↦ rw (b, a) (rw b (two x y (z ∷ zs)))
      | inr a ↦ let c = not_le x y z b a in rw (b, a) (rw c (rw b refl))
    ]
    | inr b ↦ elim (Bool-cases (le x z)) [
      | inl a ↦ let c = not_le y x z a b in rw (b, a) (rw c (rw b refl))
      | inr a ↦ rw (b, a) (rw b (ap (λ l. z ∷ l) (insert_sorted_comm x y zs)))
    ]
  ]

-- What the order of the runs looks at.
abbrev Key : Type 0
Key = ℕ × ℕ × String

abbrev key_le : Key → Key → Bool
key_le a b =
    if a.0 == b.0 then (if a.1 == b.1 then str_le b.2 a.2 else ltb b.1 a.1) else ltb b.0 a.0

key_le_total : (a b : Key) → (key_le a b ≡ true) ⊎ (key_le b a ≡ true)
key_le_total (p, q, s) (p', q', s') = ground (arith, str_le_total s s')

key_le_trans : (a b c : Key) → key_le a b ≡ true → key_le b c ≡ true → key_le a c ≡ true
key_le_trans (p, q, s) (p', q', s') (p'', q'', s'') h k = ground (arith, str_le_trans s'' s' s)

key_le_antisym : (a b : Key) → key_le a b ≡ true → key_le b a ≡ true → a ≡ b
key_le_antisym (p, q, s) (p', q', s') h k =
    let e : p ≡ p' = ground arith in
    let f : q ≡ q' = ground arith in
    let g : str_le s' s ≡ true = ground arith in
    let g' : str_le s s' ≡ true = ground arith in
    let t = str_le_antisym s s' g' g in λ i. (e i, f i, t i)

abbrev put : Option Key → List Key → List Key
put none l = l
put (some k) l = insert_sorted key_le k l

put_comm : (a b : Option Key) (l : List Key) → put a (put b l) ≡ put b (put a l)
put_comm none b l = refl
put_comm (some a) none l = refl
put_comm (some a) (some b) l =
    insert_sorted_comm key_le key_le_total key_le_trans key_le_antisym a b l

-- The same runs, by their keys.
abbrev pub SameRuns : List RunRow → List RunRow → Type 0
SameRuns rows rows' = (k : String) → run_of k rows ≡ run_of k rows'

module _ {V Json : Type 0} where
  abbrev key : Joined V Json → Key
  key j = (j.0.persisted_at, j.1.run_sequence, j.0.run_id)

  abbrev entry : Option TriggerType → RunOutputRow V Json → Option RunRow → Option Key
  entry t o none = none
  entry t o (some r) = if has_trigger t r then some (key (o, r)) else none

  map-insert_sorted :
      (j : Joined V Json) (l : List (Joined V Json))
      → map key (insert_sorted later_first j l) ≡ insert_sorted key_le (key j) (map key l)
  unfolding insert_sorted
  map-insert_sorted j [] = refl
  map-insert_sorted j (x ∷ l) = elim (Bool-cases (later_first j x)) [
    | inl e ↦ rw e refl
    | inr e ↦ rw e (ap (λ ks. key x ∷ ks) (map-insert_sorted j l))
  ]

  map-key : (l : List (Joined V Json)) → map (λ j. j.0.run_id) l ≡ map (λ k. k.2) (map key l)
  map-key [] = refl
  map-key (j ∷ l) = ap (λ ids. j.0.run_id ∷ ids) (map-key l)

  module _ (t : Option TriggerType) (rows : List RunRow) where
    abbrev keys : List (RunOutputRow V Json) → List Key
    keys os =
        map key
          (sort later_first (select (λ (j : Joined V Json). has_trigger t j.1) (join_runs os rows)))

    abbrev entry_of : RunOutputRow V Json → Option Key
    entry_of o = entry t o (run_of o.run_id rows)

    keys-cons :
        (o : RunOutputRow V Json) (os : List (RunOutputRow V Json))
        → keys (o ∷ os) ≡ put (entry_of o) (keys os)
    unfolding join_runs sort
    keys-cons o os = elim (Option-cases (run_of o.run_id rows)) [
      | inl e ↦ rw e refl
      | inr (r, e) ↦ elim (Bool-cases (has_trigger t r)) [
        | inl h ↦ rw (e, h) (map-insert_sorted (o, r) _)
        | inr h ↦ rw (e, h) refl
      ]
    ]

    keys-perm : {os os' : List (RunOutputRow V Json)} → Permᴰ os os' → keys os ≡ keys os'
    keys-perm Permᴰ.nil = refl
    keys-perm (Permᴰ.cons {a} {b} {l₁} {l₂} e p) =
        keys-cons a l₁
        ∙ (ap (λ o. put (entry_of o) (keys l₁)) e
            ∙ (ap (put (entry_of b)) (keys-perm p) ∙ sym (keys-cons b l₂)))
    keys-perm (Permᴰ.swap {a} {b} {a'} {b'} {l} e f) =
        (keys-cons a (b ∷ l) ∙ ap (put (entry_of a)) (keys-cons b l))
        ∙ (put_comm (entry_of a) (entry_of b) (keys l)
            ∙ (ap (λ o. put (entry_of o) (put (entry_of a) (keys l))) f
                ∙ (ap (λ o. put (entry_of a') (put (entry_of o) (keys l))) e
                    ∙ sym (keys-cons a' (b' ∷ l) ∙ ap (put (entry_of a')) (keys-cons b' l)))))
    keys-perm (Permᴰ.trans p q) = keys-perm p ∙ keys-perm q

  join_runs_same :
      (os : List (RunOutputRow V Json)) (rows rows' : List RunRow)
      → SameRuns rows rows'
      → join_runs os rows ≡ join_runs os rows'
  unfolding join_runs
  join_runs_same [] rows rows' h = refl
  join_runs_same (o ∷ os) rows rows' h = rw (h o.run_id, join_runs_same os rows rows' h) refl

  documents_of_same :
      (ids : List String) (os os' : List (RunOutputRow V Json))
      → ((k : String) → get_output k os ≡ get_output k os')
      → documents_of ids os ≡ documents_of ids os'
  unfolding documents_of
  documents_of_same [] os os' h = refl
  documents_of_same (k ∷ ids) os os' h = rw (h k, documents_of_same ids os os' h) refl

  -- A listing of runs depends on what the tables hold and not on the order of their rows: it is the
  -- same when the outputs stand in another order, and when the runs do, while a search by key finds
  -- the same in both.
  pub list_runs_unordered :
      (t : Option TriggerType) (limit offset : ℕ) (os os' : List (RunOutputRow V Json))
      (rows rows' : List RunRow)
      → Permᴰ os os'
      → ((k : String) → get_output k os ≡ get_output k os')
      → SameRuns rows rows'
      → list_runs t limit offset os rows ≡ list_runs t limit offset os' rows'
  unfolding list_runs ordered_ids
  list_runs_unordered t limit offset os os' rows rows' p h g =
      let ids : ordered_ids t os rows ≡ ordered_ids t os' rows' =
        map-key _
        ∙ (ap (map (λ (k : Key). k.2)) (keys-perm t rows p)
            ∙ (sym (map-key _)
                ∙ ap
                    (λ l.
                      map (λ (j : Joined V Json). j.0.run_id)
                        (sort later_first (select (λ (j : Joined V Json). has_trigger t j.1) l)))
                    (join_runs_same os' rows rows' g))) in
      documents_of_same (take limit (drop offset (ordered_ids t os rows))) os os' h
      ∙ ap (λ l. documents_of (take limit (drop offset l)) os') ids
