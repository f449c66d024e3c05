-- ===== src/Rules/Condition.antt =====
-- The pattern of src/market_state_engine/rules/matcher.py for a condition, `<name> <op> <number>`, on
-- ASCII texts.
pub mod Text
pub mod Printed
use Prim.Native.Char.{Char, code}
use Prim.Native.String
use Prim.Native.String.{◌++◌}
use tread_agent.Base.{
  ℕ, String, Bool, true, false, ◌&&◌, ◌||◌, Option, none, some, leb, ltb, ◌==◌, if◌then◌else◌,
}

pub data Comparator : Type 0 where
  ge le eq ne gt lt : Comparator

-- A number as it stands in the text: `-?\d+(?:\.\d+)?`.
pub record Literal : Type 0 where
  pub negative : Bool
  pub whole : String
  pub fraction : Option String

pub record Condition : Type 0 where
  pub name : String
  pub op : Comparator
  pub literal : Literal

abbrev pub in_range : ℕ → ℕ → Char → Bool
in_range low high c = leb low (code c) && leb (code c) high

-- `\s`, `\d`, `[A-Za-z_]` and `[A-Za-z0-9_]`
unfoldable pub is_space : Char → Bool
is_space c = in_range 9 13 c || in_range 28 32 c

unfoldable pub is_digit : Char → Bool
is_digit = in_range 48 57

unfoldable pub is_letter : Char → Bool
is_letter c = in_range 65 90 c || in_range 97 122 c || (code c == 95)

unfoldable pub is_word : Char → Bool
unfolding is_letter is_digit
is_word c = is_letter c || is_digit c

-- The longest beginning of which every character passes, and the rest.
unfoldable pub span : (Char → Bool) → String → String × String
span test String.[] = (String.[], String.[])
span test (String.◌∷◌ c s) =
    let (run, rest) = span test s in
    if test c then (String.◌∷◌ c run, rest) else (String.[], String.◌∷◌ c s)

abbrev pub skip_spaces : String → String
skip_spaces s = (span is_space s).1

abbrev pub is_blank : String → Bool
is_blank String.[] = true
is_blank (String.◌∷◌ c s) = false

-- `\s*$`
abbrev pub at_end : String → Bool
at_end s = is_blank (skip_spaces s)

-- `\d+\s*$`
abbrev pub last_digits : String × String → Option String
last_digits (String.[], rest) = none
last_digits (String.◌∷◌ c run, rest) = if at_end rest then some (String.◌∷◌ c run) else none

abbrev pub fraction_of : Option String → Option (Option String)
fraction_of none = none
fraction_of (some digits) = some (some digits)

-- `(?:\.\d+)?\s*$`
unfoldable pub parse_fraction : String → Option (Option String)
unfolding span is_space is_digit
parse_fraction String.[] = some none
parse_fraction (String.◌∷◌ c s) =
    if code c == 46
    then fraction_of (last_digits (span is_digit s))
    else (if at_end (String.◌∷◌ c s) then some none else none)

abbrev pub with_fraction : Bool → String → Option (Option String) → Option Literal
with_fraction negative whole none = none
with_fraction negative whole (some f) =
    some (record { negative = negative; whole = whole; fraction = f })

abbrev pub parse_whole : Bool → String × String → Option Literal
parse_whole negative (String.[], rest) = none
parse_whole negative (String.◌∷◌ c run, rest) =
    with_fraction negative (String.◌∷◌ c run) (parse_fraction rest)

-- `(-?\d+(?:\.\d+)?)\s*$`
unfoldable pub parse_literal : String → Option Literal
unfolding parse_fraction
parse_literal String.[] = none
parse_literal (String.◌∷◌ c s) =
    if code c == 45
    then parse_whole true (span is_digit s)
    else parse_whole false (span is_digit (String.◌∷◌ c s))

-- `(>=|<=|==|!=|>|<)`, by its first character and whether `=` follows
abbrev pub op_of : ℕ → Bool → Option Comparator
op_of c true =
    if c == 62
    then some ge
    else (if c == 60
        then some le
        else (if c == 61 then some eq else (if c == 33 then some ne else none)))
op_of c false = if c == 62 then some gt else (if c == 60 then some lt else none)

abbrev pub follows : String → Bool
follows String.[] = false
follows (String.◌∷◌ c s) = code c == 61

abbrev pub after_op : Bool → String → String
after_op true (String.◌∷◌ c s) = s
after_op _ s = s

abbrev pub with_literal : String → Comparator → Option Literal → Option Condition
with_literal name op none = none
with_literal name op (some l) = some (record { name = name; op = op; literal = l })

abbrev pub finish_condition : String → Option Comparator → String → Option Condition
finish_condition name none rest = none
finish_condition name (some op) rest = with_literal name op (parse_literal (skip_spaces rest))

abbrev pub parse_comparison : String → String → Option Condition
parse_comparison name String.[] = none
parse_comparison name (String.◌∷◌ c s) =
    finish_condition name (op_of (code c) (follows s)) (after_op (follows s) s)

abbrev pub compared : Bool → String × String → Option Condition
compared false _ = none
compared true (name, rest) = parse_comparison name (skip_spaces rest)

unfoldable pub parse_from : String → Option Condition
unfolding span is_word parse_literal
parse_from String.[] = none
parse_from (String.◌∷◌ c s) = compared (is_letter c) (span is_word (String.◌∷◌ c s))

-- `_CONDITION_RE.match`
unfoldable pub parse_condition : String → Option Condition
unfolding parse_from span is_space
parse_condition s = parse_from (skip_spaces s)
