-- ===== src/News/Relevance/Signals.antt =====
-- The range of the relevances of src/market_state_engine/news/relevance.py, and the assets for which
-- an item has none.
use tread_agent.Base.{
  ◌≡◌, refl, inl, inr, String, Bool, true, false, Option, none, some, List, [], ◌∷◌, map, All,
  Bool-cases,
}
use tread_agent.Base.Dict.{Dict, lookup}
use tread_agent.Market.Numbers.{
  Numbers, IsOrdered, Between, larger, zero_point, one_point, clamped-Between, unit,
}
use tread_agent.News.Patterns.{mentions}
use tread_agent.News.Topics.{MacroTopic, macro_topics}
use tread_agent.News.Relevance.{
  NewsItem, normalized_assets, is_in, article_text, is_direct, raised_by, macro_from,
  macro_relevance, update_scores, with_upstream, tags_of, identified_scores, relevance_map,
}

module _ {V : Type 0} (n : Numbers V) where
  abbrev pub InUnit : V → Type 0
  InUnit v = Between n (zero_point n) (one_point n) v

  -- The literals of the relevances lie in [0, 1], and zero is not less than itself.
  pub record IsGraded : Type 0 where
    pub none_unit : InUnit (n.decimal 0 1)
    pub tag_unit : InUnit (n.decimal 10 1)
    pub text_unit : InUnit (n.decimal 75 2)
    pub zero_irrefl : n.is_lt (n.decimal 0 1) (n.decimal 0 1) ≡ false

  larger-InUnit : (a b : V) → InUnit a → InUnit b → InUnit (larger n a b)
  larger-InUnit a b ha hb = elim (Bool-cases (n.is_lt a b)) [ inl e ↦ rw e hb | inr e ↦ rw e ha ]

  larger_self : (a : V) → larger n a a ≡ a
  larger_self a = elim (Bool-cases (n.is_lt a a)) [ inl e ↦ rw e refl | inr e ↦ rw e refl ]

  -- A property of entries that a change keeps.
  update_scores-All :
      (P Q : String × V → Type 0) (test : String → V → Bool) (change : String → V → V)
      → ((a : String) (v : V) → P (a, v) → test a v ≡ true → Q (a, change a v))
      → ((a : String) (v : V) → P (a, v) → test a v ≡ false → Q (a, v))
      → (scores : Dict V) → All P scores
      → All Q (update_scores n test change scores)
  unfolding update_scores
  update_scores-All P Q test change f g [] a = tt
  update_scores-All P Q test change f g ((k, v) ∷ scores) a = elim (Bool-cases (test k v)) [
    | inl e ↦ rw e (f k v a.0 e, update_scores-All P Q test change f g scores a.1)
    | inr e ↦ rw e (g k v a.0 e, update_scores-All P Q test change f g scores a.1)
  ]

  module _ (o : IsOrdered n) (g : IsGraded) where
    unit-InUnit : (x : V) → InUnit (unit n x)
    unit-InUnit x = clamped-Between n x (zero_point n) (one_point n) o o.below_one

    raised_by-InUnit : (r : Option V) (v : V) → InUnit v → InUnit (raised_by n r v)
    raised_by-InUnit none v h = h
    raised_by-InUnit (some r) v h = larger-InUnit v (unit n r) h (unit-InUnit r)

    macro_from-InUnit :
        (text asset : String) (ts : List (MacroTopic V)) (v : V)
        → InUnit v
        → InUnit (macro_from n text asset ts v)
    unfolding macro_from
    macro_from-InUnit text asset [] v h = h
    macro_from-InUnit text asset (t ∷ ts) v h = elim (Bool-cases (mentions t.patterns text)) [
      | inl e ↦ rw e (
          macro_from-InUnit text asset ts _ (raised_by-InUnit (lookup asset t.asset_relevance) v h))
      | inr e ↦ rw e (macro_from-InUnit text asset ts v h)
    ]

    -- No topic that the text mentions is about the asset.
    abbrev pub Untouched : String → String → List (MacroTopic V) → Type 0
    Untouched text asset ts =
        All
          (λ (t : MacroTopic V).
            mentions t.patterns text ≡ true → lookup asset t.asset_relevance ≡ none)
          ts

    macro_from-same :
        (text asset : String) (ts : List (MacroTopic V)) (v : V)
        → Untouched text asset ts
        → macro_from n text asset ts v ≡ v
    unfolding macro_from
    macro_from-same text asset [] v u = refl
    macro_from-same text asset (t ∷ ts) v u = elim (Bool-cases (mentions t.patterns text)) [
      | inl e ↦ rw (e, u.0 e) (macro_from-same text asset ts v u.1)
      | inr e ↦ rw e (macro_from-same text asset ts v u.1)
    ]

    module _ (unescape : String → String) (item : NewsItem V) where
      -- The item neither is tagged with the asset, nor names it, nor mentions a topic about it.
      pub record IsUnrelated (asset : String) : Type 0 where
        pub untagged : is_in (tags_of n item) asset ≡ false
        pub unnamed : is_direct (article_text unescape item) asset ≡ false
        pub untouched : Untouched (article_text unescape item) asset (macro_topics n)

      abbrev Graded : String × V → Type 0
      Graded e = (IsUnrelated e.0 → e.1 ≡ n.decimal 0 1) × InUnit e.1

      start : (targets : List String) → All Graded (map (λ a. (a, n.decimal 0 1)) targets)
      start [] = tt
      start (a ∷ targets) = ((λ _. refl, g.none_unit), start targets)

      macro-Graded :
          (a : String) (v : V)
          → Graded (a, v)
          → Graded (a, larger n v (macro_relevance n (article_text unescape item) a))
      unfolding macro_relevance
      macro-Graded a v h = (
        λ u.
            rw
              (
                h.0 u,
                macro_from-same (article_text unescape item) a (macro_topics n) (n.decimal 0 1)
                    u.untouched,
              )
              (larger_self (n.decimal 0 1)),
        larger-InUnit v _ h.1 (
            macro_from-InUnit (article_text unescape item) a (macro_topics n) (n.decimal 0 1)
              g.none_unit),
      )

      identified-Graded :
          (targets : List String) → All Graded (identified_scores n unescape item targets)
      unfolding identified_scores
      identified-Graded targets =
          update_scores-All Graded Graded (λ a v. true) _ (λ a v h e. macro-Graded a v h)
            (λ a v h e. h) _
            (update_scores-All Graded Graded _ _
              (λ a v h e. (
                λ u. absurd (let f = u.unnamed in cc),
                larger-InUnit v (n.decimal 75 2) h.1 g.text_unit,
              ))
              (λ a v h e. h) _
              (update_scores-All Graded Graded _ _
                (λ a v h e. (λ u. absurd (let f = u.untagged in cc), g.tag_unit)) (λ a v h e. h) _
                (start targets)))

      upstream-Graded :
          (r : Option V) (scores : Dict V)
          → All Graded scores
          → All Graded (with_upstream n r scores)
      upstream-Graded none scores a = a
      upstream-Graded (some r) scores a =
          update_scores-All Graded Graded _ _
            (λ k v h e. (
              λ u. absurd (let f = h.0 u in let i = g.zero_irrefl in cc),
              larger-InUnit v (unit n r) h.1 (unit-InUnit r),
            ))
            (λ k v h e. h) scores a

      -- Every relevance lies in [0, 1], and an asset that the item is not tagged with, does not name and
      -- mentions no topic about has the relevance zero, also when the feed supplies a relevance.
      pub relevance_map-Graded :
          (target_assets : List String)
          → All
              (λ (e : String × V). (IsUnrelated e.0 → e.1 ≡ n.decimal 0 1) × InUnit e.1)
              (relevance_map n unescape item target_assets)
      unfolding relevance_map
      relevance_map-Graded target_assets =
          upstream-Graded item.relevance _ (identified-Graded (normalized_assets target_assets))
