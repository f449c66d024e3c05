-- ===== src/News/Patterns/Ends.antt =====
-- The repeated words of a pattern of src/market_state_engine/news/relevance.py end: the fuel is enough.
use Prim.Native.Char.{code}
use tread_agent.Base.{
  ◌≡◌, refl, sym, ap, inl, inr, ℕ, zero, suc, ◌≤◌, ◌<◌, String, some, List, [], ◌∷◌, All,
  All-append, All-map, ◌==◌, arith, Bool-cases, Option-cases,
}
use tread_agent.Rules.Condition.{is_space, is_word}
use tread_agent.News.Patterns.{
  Place, folded, after_text, after_texts, after_spaces, from_each, after_word, after_words,
  text_length, repeated, after_piece,
}

-- The place is so far from the end of the text.
abbrev Within : ℕ → Place → Type 0
Within n p = text_length p.1 < n

from_each-All :
    (P Q : Place → Type 0) (f : Place → List Place)
    → ((p : Place) → P p → All Q (f p))
    → (ps : List Place) → All P ps
    → All Q (from_each f ps)
unfolding from_each
from_each-All P Q f h [] a = tt
from_each-All P Q f h (p ∷ ps) a =
    All-append Q (f p) (from_each f ps) (h p a.0) (from_each-All P Q f h ps a.1)

from_each-same :
    (P : Place → Type 0) (f g : Place → List Place)
    → ((p : Place) → P p → f p ≡ g p)
    → (ps : List Place) → All P ps
    → from_each f ps ≡ from_each g ps
unfolding from_each
from_each-same P f g h [] a = refl
from_each-same P f g h (p ∷ ps) a = rw (h p a.0, from_each-same P f g h ps a.1) refl

after_spaces-Within : (s : String) → All (Within (text_length s)) (after_spaces s)
unfolding after_spaces text_length
after_spaces-Within String.[] = tt
after_spaces-Within (String.◌∷◌ c s) = elim (Bool-cases (is_space c)) [
  | inr e ↦ rw e tt
  | inl e ↦ rw e (
    omega arith,
    All-map (Within (text_length s)) (Within (suc (text_length s))) (λ p h. omega (arith, h))
        (after_spaces s) (after_spaces-Within s),
  )
]

after_text-Within :
    (t : String) (p q : Place) → after_text t p ≡ some q → text_length q.1 ≤ text_length p.1
unfolding after_text text_length
after_text-Within String.[] p q h = let same : p ≡ q = cc in rw (sym same) (omega arith)
after_text-Within (String.◌∷◌ c t) (before, String.[]) q h = absurd cc
after_text-Within (String.◌∷◌ c t) (before, String.◌∷◌ d rest) q h =
    elim (Bool-cases (code c == folded d)) [
      | inl e ↦
          let ih = after_text-Within t (is_word d, rest) q (ground (arith, e, h)) in
          omega (arith, ih)
      | inr e ↦ absurd (ground (arith, e, h))
    ]

after_texts-Within :
    (ts : List String) (p : Place)
    → All (λ (q : Place). text_length q.1 ≤ text_length p.1) (after_texts ts p)
unfolding after_texts
after_texts-Within [] p = tt
after_texts-Within (t ∷ ts) p = elim (Option-cases (after_text t p)) [
  | inl e ↦ rw e (after_texts-Within ts p)
  | inr (q, e) ↦ rw e (after_text-Within t p q e, after_texts-Within ts p)
]

after_word-Within :
    (ts : List String) (p : Place) → All (Within (text_length p.1)) (after_word ts p)
unfolding after_word
after_word-Within ts p =
    from_each-All (λ q. text_length q.1 ≤ text_length p.1) (Within (text_length p.1))
      (λ q. after_spaces q.1)
      (λ q h.
        All-map (Within (text_length q.1)) (Within (text_length p.1)) (λ r k. omega (arith, h, k))
          (after_spaces q.1) (after_spaces-Within q.1))
      (after_texts ts p) (after_texts-Within ts p)

from_each-none :
    (f : Place → List Place) (ps : List Place) (n : ℕ)
    → n ≡ 0
    → All (Within n) ps
    → from_each f ps ≡ []
unfolding from_each
from_each-none f [] n z a = refl
from_each-none f (p ∷ ps) n z a = absurd (omega (arith, z, a.0))

-- At the end of the text no word follows.
at_end : (f : ℕ) (ts : List String) (p : Place) → text_length p.1 ≡ 0 → after_words f ts p ≡ p ∷ []
unfolding after_words
at_end zero ts p h = refl
at_end (suc f) ts p h =
    rw
      (from_each-none (after_words f ts) (after_word ts p) (text_length p.1) h
        (after_word-Within ts p))
      refl

enough_fuel :
    (f g : ℕ) (ts : List String) (p : Place)
    → text_length p.1 ≤ f
    → text_length p.1 ≤ g
    → after_words f ts p ≡ after_words g ts p
unfolding after_words
enough_fuel zero g ts p hf hg = sym (at_end g ts p (omega (arith, hf)))
enough_fuel (suc f) zero ts p hf hg = at_end (suc f) ts p (omega (arith, hg))
enough_fuel (suc f) (suc g) ts p hf hg =
    ap (λ ps. p ∷ ps)
      (from_each-same (Within (text_length p.1)) (after_words f ts) (after_words g ts)
        (λ q h. enough_fuel f g ts q (omega (arith, hf, h)) (omega (arith, hg, h)))
        (after_word ts p) (after_word-Within ts p))

-- A piece that is repeated is tried as often as it can match: with at least as much fuel as the rest of
-- the text has characters, the places after it are those that `after_piece` gives.
pub after_piece-ends :
    (f : ℕ) (ts : List String) (p : Place)
    → text_length p.1 ≤ f
    → after_words f ts p ≡ after_piece (repeated ts) p
unfolding after_piece
after_piece-ends f ts p h = enough_fuel f (text_length p.1) ts p h (omega arith)
