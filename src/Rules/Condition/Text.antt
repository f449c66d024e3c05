-- ===== src/Rules/Condition/Text.antt =====
-- The text of a condition of src/market_state_engine/rules/matcher.py, and what its pattern can read.
use Prim.Native.Char.{Char}
use Prim.Native.String.{◌++◌}
use Prim.Native.String.append
use tread_agent.Base.{◌≡◌, refl, String, Bool, true, false, Option, none, some}
use tread_agent.Rules.Condition.{
  Comparator, ge, le, eq, ne, gt, lt, Literal, Condition, is_digit, is_letter, is_word, span,
  is_blank,
}

abbrev pub AllChars : (Char → Bool) → String → Type 0
AllChars test String.[] = Unit
AllChars test (String.◌∷◌ c s) = (test c ≡ true) × AllChars test s

-- No character, or one that fails.
abbrev pub Stops : (Char → Bool) → String → Type 0
Stops test String.[] = Unit
Stops test (String.◌∷◌ c s) = test c ≡ false

pub span-Stops : (test : Char → Bool) (s : String) → Stops test s → span test s ≡ (String.[], s)
unfolding span
span-Stops test String.[] h = refl
span-Stops test (String.◌∷◌ c s) h = rw h refl

pub span-append :
    (test : Char → Bool) (s rest : String)
    → AllChars test s
    → Stops test rest
    → span test (s ++ rest) ≡ (s, rest)
unfolding span
span-append test String.[] rest h k = rw (append.nil rest) (span-Stops test rest k)
span-append test (String.◌∷◌ c s) rest h k =
    rw (append.cons c s rest, span-append test s rest h.1 k, h.0) refl

pub span-all : (test : Char → Bool) (s : String) → AllChars test s → span test s ≡ (s, String.[])
unfolding span
span-all test String.[] h = refl
span-all test (String.◌∷◌ c s) h = rw (span-all test s h.1, h.0) refl

abbrev pub Digits : String → Type 0
Digits s = (is_blank s ≡ false) × AllChars is_digit s

-- What the pattern can read: a name that begins with a letter, and digits where digits stand.
abbrev pub FractionOk : Option String → Type 0
FractionOk none = Unit
FractionOk (some d) = Digits d

abbrev pub NameOk : String → Type 0
NameOk String.[] = false ≡ true
NameOk (String.◌∷◌ c s) = (is_letter c ≡ true) × AllChars is_word (String.◌∷◌ c s)

pub record IsReadable (c : Condition) : Type 0 where
  pub name : NameOk c.name
  pub whole : Digits c.literal.whole
  pub fraction : FractionOk c.literal.fraction

abbrev pub print_fraction : Option String → String
print_fraction none = String.[]
print_fraction (some d) = String.◌∷◌ "." d

abbrev pub print_signed : Bool → String → Option String → String
print_signed true w f = String.◌∷◌ "-" (w ++ print_fraction f)
print_signed false w f = w ++ print_fraction f

abbrev pub print_literal : Literal → String
print_literal l = print_signed l.negative l.whole l.fraction

abbrev pub print_op : Comparator → String → String
print_op ge s = String.◌∷◌ ">" (String.◌∷◌ "=" s)
print_op le s = String.◌∷◌ "<" (String.◌∷◌ "=" s)
print_op eq s = String.◌∷◌ "=" (String.◌∷◌ "=" s)
print_op ne s = String.◌∷◌ "!" (String.◌∷◌ "=" s)
print_op gt s = String.◌∷◌ ">" s
print_op lt s = String.◌∷◌ "<" s

-- `<name> <op> <number>`
abbrev pub print_condition : Condition → String
print_condition c =
    c.name ++ String.◌∷◌ " " (print_op c.op (String.◌∷◌ " " (print_literal c.literal)))
