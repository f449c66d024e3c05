-- ===== src/News/Weigher/Capped.antt =====
-- The cap on the digest in src/market_state_engine/news/weigher.py: its size, its order and the
-- assets that it covers.
use tread_agent.Base.{
  ◌≡◌, refl, sym, subst, inl, inr, ℕ, suc, ◌+◌, ◌≤◌, String, Bool, true, Option, none, some, List,
  [], ◌∷◌, select, take, any, length, length-select, All, All-map, leb, leb→le, arith, Bool-cases,
}
use tread_agent.Base.Sort.{IsSorted, IsSorted-select}
use tread_agent.Market.Messages.{WeightedNewsItem}
use tread_agent.News.Weigher.{
  primary_assets, has_id, add_id, covers, first_covering, add_representative, cover_assets,
  fill_ids, selected_ids, select_items,
}
use tread_agent.News.Weigher.Ids.{
  has_id-add, has_id-added, length-add, take_whole, DistinctNews, count-le-ids,
}

module _ {V : Type 0} where
  fill_ids-keeps :
      (m : ℕ) (is : List (WeightedNewsItem V)) (ids : List String) (j : String)
      → has_id ids j ≡ true
      → has_id (fill_ids m is ids) j ≡ true
  unfolding fill_ids
  fill_ids-keeps m [] ids j h = h
  fill_ids-keeps m (i ∷ is) ids j h = elim (Bool-cases (leb m (length ids))) [
    | inl e ↦ rw e h
    | inr e ↦ rw e (fill_ids-keeps m is (add_id i.news_id ids) j (has_id-add i.news_id j ids h))
  ]

  fill_ids-bounded :
      (m : ℕ) (is : List (WeightedNewsItem V)) (ids : List String)
      → length ids ≤ m
      → length (fill_ids m is ids) ≤ m
  unfolding fill_ids
  fill_ids-bounded m [] ids h = h
  fill_ids-bounded m (i ∷ is) ids h = elim (Bool-cases (leb m (length ids))) [
    | inl e ↦ rw e h
    | inr e ↦
        rw e (
          fill_ids-bounded m is (add_id i.news_id ids)
            (ground (arith, e, length-add i.news_id ids)))
  ]

  represented-bounded :
      (o : Option (WeightedNewsItem V)) (ids : List String)
      → length (add_representative o ids) ≤ suc (length ids)
  represented-bounded none ids = omega arith
  represented-bounded (some i) ids = length-add i.news_id ids

  cover_assets-bounded :
      (assets : List String) (ranked : List (WeightedNewsItem V)) (ids : List String)
      → length (cover_assets assets ranked ids) ≤ length assets + length ids
  unfolding cover_assets
  cover_assets-bounded [] ranked ids = omega arith
  cover_assets-bounded (a ∷ assets) ranked ids = omega (
    arith,
    cover_assets-bounded assets ranked (add_representative (first_covering a ranked) ids),
    represented-bounded (first_covering a ranked) ids,
  )

  represented-keeps :
      (o : Option (WeightedNewsItem V)) (ids : List String) (j : String)
      → has_id ids j ≡ true
      → has_id (add_representative o ids) j ≡ true
  represented-keeps none ids j h = h
  represented-keeps (some i) ids j h = has_id-add i.news_id j ids h

  cover_assets-keeps :
      (assets : List String) (ranked : List (WeightedNewsItem V)) (ids : List String) (j : String)
      → has_id ids j ≡ true
      → has_id (cover_assets assets ranked ids) j ≡ true
  unfolding cover_assets
  cover_assets-keeps [] ranked ids j h = h
  cover_assets-keeps (a ∷ assets) ranked ids j h =
      cover_assets-keeps assets ranked (add_representative (first_covering a ranked) ids) j
        (represented-keeps (first_covering a ranked) ids j h)

  -- The representative of each asset is among the ids.
  cover_assets-All :
      (assets : List String) (ranked : List (WeightedNewsItem V)) (ids : List String)
      → All
          (λ a.
            (i : WeightedNewsItem V)
            → first_covering a ranked ≡ some i
            → has_id (cover_assets assets ranked ids) i.news_id ≡ true)
          assets
  unfolding cover_assets
  cover_assets-All [] ranked ids = tt
  cover_assets-All (a ∷ assets) ranked ids = (
    λ i e.
        cover_assets-keeps assets ranked (add_representative (first_covering a ranked) ids)
          i.news_id (rw e (has_id-added i.news_id ids)),
    cover_assets-All assets ranked (add_representative (first_covering a ranked) ids),
  )

  covering-kept :
      (a : String) (keep : WeightedNewsItem V → Bool) (ranked : List (WeightedNewsItem V))
      → ((i : WeightedNewsItem V) → first_covering a ranked ≡ some i → keep i ≡ true)
      → any (covers a) ranked ≡ true
      → any (covers a) (select keep ranked) ≡ true
  unfolding first_covering
  covering-kept a keep [] f h = h
  covering-kept a keep (i ∷ is) f h = elim (Bool-cases (covers a i)) [
    | inl e ↦ rw (f i (rw e refl)) (rw e refl)
    | inr e ↦
        let rest = covering-kept a keep is (λ j k. f j (rw e k)) (rw e at h) in
        elim (Bool-cases (keep i)) [ inl k ↦ rw k (rw e rest) | inr k ↦ rw k rest ]
  ]

  -- What the cap makes of the ranked items.
  pub record IsCapped (m : ℕ) (ranked shown : List (WeightedNewsItem V)) : Type 0 where
    pub bounded : length shown ≤ m
    pub ordered :
        (le : WeightedNewsItem V → WeightedNewsItem V → Bool)
        → IsSorted le ranked
        → IsSorted le shown
    pub covered :
        All (λ a. any (covers a) ranked ≡ true → any (covers a) shown ≡ true) primary_assets

  selected-bounded :
      (m : ℕ) (ranked : List (WeightedNewsItem V)) → 4 ≤ m → length (selected_ids m ranked) ≤ m
  unfolding selected_ids
  selected-bounded m ranked h =
      fill_ids-bounded m ranked (cover_assets primary_assets ranked [])
        (omega (arith, cover_assets-bounded primary_assets ranked []))

  kept-covered :
      (m : ℕ) (ranked : List (WeightedNewsItem V))
      → All
          (λ a.
            any (covers a) ranked ≡ true
            → any (covers a) (
                select
                  (λ (i : WeightedNewsItem V). has_id (selected_ids m ranked) i.news_id)
                  ranked)
              ≡ true)
          primary_assets
  unfolding selected_ids
  kept-covered m ranked =
      All-map
        (λ a.
          (i : WeightedNewsItem V)
          → first_covering a ranked ≡ some i
          → has_id (cover_assets primary_assets ranked []) i.news_id ≡ true)
        _
        (λ a f.
          covering-kept a (λ (i : WeightedNewsItem V). has_id (selected_ids m ranked) i.news_id)
            ranked
            (λ i e.
              fill_ids-keeps m ranked (cover_assets primary_assets ranked []) i.news_id (f i e)))
        primary_assets (cover_assets-All primary_assets ranked [])

  -- The cap leaves at most m items, which keep their order; and if no two items have the same id and
  -- m is at least the number of primary assets, each primary asset that some item covers is covered
  -- by an item that is left.
  pub select_items-IsCapped :
      (m : ℕ) (ranked : List (WeightedNewsItem V))
      → 4 ≤ m
      → DistinctNews ranked
      → IsCapped m ranked (select_items m ranked)
  unfolding select_items
  select_items-IsCapped m ranked h d = elim (Bool-cases (leb (length ranked) m)) [
    | inl e ↦ rw e (record {
      bounded = leb→le (length ranked) m e;
      ordered = λ le s. s;
      covered = (λ c. c, (λ c. c, (λ c. c, (λ c. c, tt))));
    })
    | inr e ↦
        let keep : WeightedNewsItem V → Bool = λ i. has_id (selected_ids m ranked) i.news_id in
        let fits : length (select keep ranked) ≤ m = omega (
          arith,
          length-select keep ranked,
          count-le-ids ranked (selected_ids m ranked) d,
          selected-bounded m ranked h,
        ) in
        let whole : take m (select keep ranked) ≡ select keep ranked =
          take_whole m (select keep ranked) fits in
        rw e (
          subst (IsCapped m ranked) (sym whole) (record {
            bounded = fits;
            ordered = λ le s. IsSorted-select le keep ranked s;
            covered = kept-covered m ranked;
          }))
  ]
