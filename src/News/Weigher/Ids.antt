-- ===== src/News/Weigher/Ids.antt =====
-- Lists of ids, as src/market_state_engine/news/weigher.py keeps them, and the items that have them.
use tread_agent.Base.{
  ◌≡◌, refl, ap, inl, inr, ℕ, zero, suc, ◌≤◌, String, Bool, true, false, List, [], ◌∷◌, take,
  count_if, length, All, All-map, str_eq, eq_iff, arith, Bool-cases, if◌then◌else◌,
}
use tread_agent.Market.Messages.{WeightedNewsItem}
use tread_agent.News.Weigher.{has_id, add_id}

pub remove_id : String → List String → List String
remove_id id [] = []
remove_id id (x ∷ xs) = if str_eq id x then xs else x ∷ remove_id id xs

pub length-remove :
    (id : String) (ids : List String)
    → has_id ids id ≡ true
    → length ids ≡ suc (length (remove_id id ids))
unfolding remove_id
length-remove id [] h = absurd cc
length-remove id (x ∷ ids) h = elim (Bool-cases (str_eq id x)) [
  | inl e ↦ rw e refl
  | inr e ↦ rw e (ap suc (length-remove id ids (ground (arith, e, h))))
]

pub has_id-remove :
    (id j : String) (ids : List String)
    → str_eq id j ≡ false
    → has_id (remove_id id ids) j ≡ has_id ids j
unfolding remove_id
has_id-remove id j [] h = refl
has_id-remove id j (x ∷ ids) h =
    ground (arith, eq_iff id x, eq_iff j x, eq_iff id j, has_id-remove id j ids h)

pub has_id-add :
    (id j : String) (ids : List String) → has_id ids j ≡ true → has_id (add_id id ids) j ≡ true
has_id-add id j ids h = elim (Bool-cases (has_id ids id)) [
  | inl e ↦ rw e h
  | inr e ↦ rw e (ground (arith, h))
]

pub has_id-added : (id : String) (ids : List String) → has_id (add_id id ids) id ≡ true
has_id-added id ids = elim (Bool-cases (has_id ids id)) [
  | inl e ↦ rw e e
  | inr e ↦ rw e (ground (arith, eq_iff id id))
]

pub length-add : (id : String) (ids : List String) → length (add_id id ids) ≤ suc (length ids)
length-add id ids = elim (Bool-cases (has_id ids id)) [
  | inl e ↦ rw e (omega arith)
  | inr e ↦ rw e (omega arith)
]

pub take_whole : {A : Type 0} (k : ℕ) (xs : List A) → length xs ≤ k → take k xs ≡ xs
take_whole zero [] h = refl
take_whole zero (x ∷ xs) h = absurd (omega arith)
take_whole (suc k) [] h = refl
take_whole (suc k) (x ∷ xs) h = ap (λ ys. x ∷ ys) (take_whole k xs (omega arith))

module _ {V : Type 0} where
  -- No two items have the same id.
  abbrev pub DistinctNews : List (WeightedNewsItem V) → Type 0
  DistinctNews [] = Unit
  DistinctNews (i ∷ is) =
      All (λ (j : WeightedNewsItem V). str_eq i.news_id j.news_id ≡ false) is × DistinctNews is

  pub count_alike :
      (t u : WeightedNewsItem V → Bool) (is : List (WeightedNewsItem V))
      → All (λ i. t i ≡ u i) is
      → count_if t is ≡ count_if u is
  count_alike t u [] a = refl
  count_alike t u (i ∷ is) a = rw (a.0, count_alike t u is a.1) refl

  -- Of items with distinct ids at most as many are selected as there are ids.
  pub count-le-ids :
      (is : List (WeightedNewsItem V)) (ids : List String)
      → DistinctNews is
      → count_if (λ (i : WeightedNewsItem V). has_id ids i.news_id) is ≤ length ids
  count-le-ids [] ids d = omega arith
  count-le-ids (i ∷ is) ids d = elim (Bool-cases (has_id ids i.news_id)) [
    | inr e ↦ rw e (count-le-ids is ids d.1)
    | inl e ↦
        let rest = count-le-ids is (remove_id i.news_id ids) d.1 in
        let alike =
          count_alike (λ (j : WeightedNewsItem V). has_id (remove_id i.news_id ids) j.news_id)
            (λ (j : WeightedNewsItem V). has_id ids j.news_id) is
            (All-map _ _ (λ j h. has_id-remove i.news_id j.news_id ids h) is d.0) in
        let size = length-remove i.news_id ids e in rw e (omega (arith, rest, alike, size))
  ]
