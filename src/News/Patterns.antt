-- ===== src/News/Patterns.antt =====
-- The regular expressions of src/market_state_engine/news/relevance.py, on ASCII texts: a sequence of
-- pieces between two word boundaries, searched without regard to case.
pub mod Ends
use Prim.Native.Char.{Char, code}
use tread_agent.Base.{
  ℕ, zero, suc, ◌+◌, String, Bool, true, false, not, Option, none, some, List, [], ◌∷◌, ◌++◌, any,
  ◌==◌, ◌&&◌, if◌then◌else◌,
}
use tread_agent.Rules.Condition.{in_range, is_space, is_word}

-- One of some texts, `\s+`, `\s*`, `(?:(?:a|b)\s+)*` and
-- `(?:a\s+)?`.
pub data Piece : Type 0 where
  one_of : List String → Piece
  spaces : Piece
  maybe_spaces : Piece
  repeated : List String → Piece
  optional : List String → Piece

abbrev pub Pattern : Type 0
Pattern = List Piece

-- Where a search stands: whether the character before is one of a word, and the rest of the text.
abbrev pub Place : Type 0
Place = Bool × String

-- A letter in lower case, by its code.
abbrev pub folded : Char → ℕ
folded c = if in_range 65 90 c then code c + 32 else code c

abbrev pub starts_word : String → Bool
starts_word String.[] = false
starts_word (String.◌∷◌ c s) = is_word c

-- `\b`
abbrev pub at_boundary : Place → Bool
at_boundary (true, rest) = not (starts_word rest)
at_boundary (false, rest) = starts_word rest

-- After a text in lower case.
unfoldable pub after_text : String → Place → Option Place
unfolding is_word
after_text String.[] p = some p
after_text (String.◌∷◌ c s) (before, String.[]) = none
after_text (String.◌∷◌ c s) (before, String.◌∷◌ d rest) =
    if code c == folded d then after_text s (is_word d, rest) else none

abbrev pub put_place : Option Place → List Place → List Place
put_place none ps = ps
put_place (some p) ps = p ∷ ps

unfoldable pub after_texts : List String → Place → List Place
unfolding after_text
after_texts [] p = []
after_texts (t ∷ ts) p = put_place (after_text t p) (after_texts ts p)

-- After one space or more.
unfoldable pub after_spaces : String → List Place
unfolding is_space
after_spaces String.[] = []
after_spaces (String.◌∷◌ c rest) =
    let more = after_spaces rest in if is_space c then (false, rest) ∷ more else []

unfoldable pub from_each : (Place → List Place) → List Place → List Place
from_each f [] = []
from_each f (p ∷ ps) = f p ++ from_each f ps

-- After one of the texts and spaces.
unfoldable pub after_word : List String → Place → List Place
unfolding after_texts after_spaces from_each
after_word ts p = from_each (λ q. after_spaces q.1) (after_texts ts p)

-- Up to as many times as the fuel says; each takes a character at least.
unfoldable pub after_words : ℕ → List String → Place → List Place
unfolding after_word from_each
after_words zero ts p = p ∷ []
after_words (suc fuel) ts p = p ∷ from_each (after_words fuel ts) (after_word ts p)

unfoldable pub text_length : String → ℕ
text_length String.[] = 0
text_length (String.◌∷◌ c s) = suc (text_length s)

unfoldable pub after_piece : Piece → Place → List Place
unfolding after_texts after_spaces after_word after_words text_length
after_piece (one_of ts) p = after_texts ts p
after_piece spaces p = after_spaces p.1
after_piece maybe_spaces p = p ∷ after_spaces p.1
after_piece (repeated ts) p = after_words (text_length p.1) ts p
after_piece (optional ts) p = p ∷ after_word ts p

unfoldable pub matches_at : Pattern → Place → Bool
unfolding is_word after_piece
matches_at [] p = at_boundary p
matches_at (x ∷ xs) p = any (matches_at xs) (after_piece x p)

-- `pattern.search(text)`, from a place on
unfoldable pub search_from : Pattern → Bool → String → Bool
unfolding is_word matches_at
search_from pattern before String.[] = false
search_from pattern before (String.◌∷◌ c rest) =
    let later = search_from pattern (is_word c) rest in
    if at_boundary (before, String.◌∷◌ c rest) && matches_at pattern (before, String.◌∷◌ c rest)
    then true
    else later

unfoldable pub search : Pattern → String → Bool
unfolding search_from
search pattern text = search_from pattern false text

-- `any(pattern.search(text) for pattern in patterns)`
unfoldable pub mentions : List Pattern → String → Bool
unfolding search
mentions patterns text = any (λ p. search p text) patterns
