-- ===== src/News/Relevance/Tags.antt =====
-- The removal of tags by src/market_state_engine/news/relevance.py ends: the fuel is enough.
use Prim.Native.Char.{Char, code}
use Prim.Native.String.{◌++◌ as ◌<>◌}
use tread_agent.Base.{
  ◌≡◌, refl, sym, ap, inl, inr, ℕ, zero, suc, ◌≤◌, ◌<◌, String, Bool, some, ◌==◌, arith, Bool-cases,
  Option-cases,
}
use tread_agent.News.Patterns.{text_length}
use tread_agent.News.Relevance.{after_char, is_close, after_tag, without_tags_from, without_tags}

after_char-le :
    (test : Char → Bool) (s rest : String)
    → after_char test s ≡ some rest
    → text_length rest ≤ text_length s
unfolding after_char text_length
after_char-le test String.[] rest h = absurd cc
after_char-le test (String.◌∷◌ c s) rest h = elim (Bool-cases (test c)) [
  | inl e ↦ let same : s ≡ rest = ground (arith, e, h) in rw (sym same) (omega arith)
  | inr e ↦ let ih = after_char-le test s rest (ground (arith, e, h)) in omega (arith, ih)
]

after_tag-le : (s rest : String) → after_tag s ≡ some rest → text_length rest ≤ text_length s
unfolding text_length
after_tag-le String.[] rest h = absurd cc
after_tag-le (String.◌∷◌ c s) rest h = elim (Bool-cases (is_close c)) [
  | inl e ↦ absurd (ground (arith, e, h))
  | inr e ↦ let ih = after_char-le is_close s rest (ground (arith, e, h)) in omega (arith, ih)
]

-- Two amounts of fuel above the size of the text give the same.
enough_fuel :
    (f g : ℕ) (s : String)
    → text_length s < f
    → text_length s < g
    → without_tags_from f s ≡ without_tags_from g s
unfolding without_tags_from text_length
enough_fuel zero g s hf hg = absurd (omega (arith, hf))
enough_fuel (suc f) zero s hf hg = absurd (omega (arith, hg))
enough_fuel (suc f) (suc g) String.[] hf hg = refl
enough_fuel (suc f) (suc g) (String.◌∷◌ c s) hf hg =
    let kept = ap (String.◌∷◌ c) (enough_fuel f g s (omega (arith, hf)) (omega (arith, hg))) in
    elim (Bool-cases (code c == 60)) [
      | inr e ↦ rw e kept
      | inl e ↦ elim (Option-cases (after_tag s)) [
        | inl n ↦ rw (e, n) kept
        | inr (rest, r) ↦
            let shorter = after_tag-le s rest r in
            rw (e, r)
              (ap (λ t. " " <> t)
                (enough_fuel f g rest (omega (arith, hf, shorter)) (omega (arith, hg, shorter))))
      ]
    ]

-- The removal of the tags of a text ends within its size plus one: any more fuel gives the same text.
without_tags-ends :
    (f : ℕ) (s : String) → text_length s < f → without_tags_from f s ≡ without_tags s
unfolding without_tags
without_tags-ends f s h = enough_fuel f (suc (text_length s)) s h (omega arith)
