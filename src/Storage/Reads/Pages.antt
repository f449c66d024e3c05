-- ===== src/Storage/Reads/Pages.antt =====
-- The pages of the stored runs, and the next sequence number.
use tread_agent.Base.{
  suc, ◌≤◌, ◌<◌, ◌≡◌, refl, ◌⊎◌, inl, inr, String, Option, none, some, List, [], ◌∷◌, take, All,
  All-map, Some, arith, Option-cases,
}
use tread_agent.Pipeline.Store.{RunRow, RunOutputRow}
use tread_agent.Storage.Reads.{
  greatest_sequence, next_sequence, get_output, ordered_ids, documents_of, list_runs, first_doc,
  latest,
}

abbrev first : {A : Type 0} → List A → Option A
first [] = none
first (x ∷ xs) = some x

first_doc-first :
    {V Json : Type 0} (ids : List String) (outputs : List (RunOutputRow V Json))
    → first_doc (take 1 ids) outputs ≡ first (documents_of (take 1 ids) outputs)
unfolding documents_of
first_doc-first [] outputs = refl
first_doc-first (id ∷ ids) outputs = elim (Option-cases (get_output id outputs)) [
  | inl e ↦ rw e refl
  | inr (d, e) ↦ rw e refl
]

-- The latest run is the one on the first page of one run.
pub latest-list_runs :
    {V Json : Type 0} (outputs : List (RunOutputRow V Json)) (rows : List RunRow)
    → latest outputs rows ≡ first (list_runs none 1 0 outputs rows)
unfolding latest list_runs
latest-list_runs outputs rows = first_doc-first (ordered_ids none outputs rows) outputs

-- Every stored run has a smaller number than the next one.
pub below :
    (rows : List RunRow) → All (λ (r : RunRow). r.run_sequence < suc (greatest_sequence rows)) rows
unfolding greatest_sequence
below [] = tt
below (r ∷ rs) = (
  omega arith,
  All-map (λ (x : RunRow). x.run_sequence < suc (greatest_sequence rs)) _ (λ x h. omega arith) rs
      (below rs),
)

Some-map :
    {A : Type 0} (P Q : A → Type 0) → ((x : A) → P x → Q x) → (xs : List A) → Some P xs → Some Q xs
Some-map P Q f [] h = h
Some-map P Q f (x ∷ xs) (inl p) = inl (f x p)
Some-map P Q f (x ∷ xs) (inr s) = inr (Some-map P Q f xs s)

reached :
    (rows : List RunRow)
    → ((rows ≡ []) × (suc (greatest_sequence rows) ≡ 1))
      ⊎ Some (λ (r : RunRow). suc (greatest_sequence rows) ≡ suc r.run_sequence) rows
unfolding greatest_sequence
reached [] = inl (refl, omega arith)
reached (r ∷ []) = inr (inl (omega arith))
reached (r ∷ r' ∷ rs) = elim (reached (r' ∷ rs)) [
  | inl e ↦ absurd (let f = e.0 in cc)
  | inr s ↦
      let total : (greatest_sequence (r' ∷ rs) ≤ r.run_sequence)
          ⊎ (r.run_sequence ≤ greatest_sequence (r' ∷ rs)) =
        omega arith in
      elim total [
        | inl h ↦ inr (inl (omega arith))
        | inr h ↦ inr (inr (Some-map _ _ (λ x k. omega arith) (r' ∷ rs) s))
      ]
]

-- The next sequence number is greater than that of every stored run, greater by one than that of
-- some run, and 1 if no run is stored.
pub next_sequence-Next :
    (rows : List RunRow)
    → All (λ (r : RunRow). r.run_sequence < next_sequence rows) rows
      × (((rows ≡ []) × (next_sequence rows ≡ 1))
          ⊎ Some (λ (r : RunRow). next_sequence rows ≡ suc r.run_sequence) rows)
unfolding next_sequence
next_sequence-Next rows = (below rows, reached rows)
