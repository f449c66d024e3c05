-- ===== src/Rules/Condition/Printed.antt =====
-- Conditions of src/market_state_engine/rules/matcher.py read back from their text.
use Prim.Native.Char.{Char, code}
use Prim.Native.String.{◌++◌}
use Prim.Native.String.append
use tread_agent.Base.{
  ◌≡◌, refl, ◌∙◌, sym, ap, String, Bool, true, false, Option, none, some, ◌==◌, arith,
}
use tread_agent.Rules.Condition.{
  Comparator, ge, le, eq, ne, gt, lt, Literal, Condition, is_space, is_digit, is_letter, is_word,
  span, skip_spaces, parse_fraction, parse_whole, parse_literal, with_literal, finish_condition,
  compared, parse_comparison, parse_from, parse_condition,
}
use tread_agent.Rules.Condition.Text.{
  Stops, span-Stops, span-append, span-all, Digits, FractionOk, NameOk, IsReadable, print_fraction,
  print_signed, print_literal, print_op, print_condition,
}

parse_fraction-print :
    (f : Option String) → FractionOk f → parse_fraction (print_fraction f) ≡ some f
unfolding parse_fraction
parse_fraction-print none h = refl
parse_fraction-print (some String.[]) h = cc
parse_fraction-print (some (String.◌∷◌ c d)) h = rw (span-all is_digit (String.◌∷◌ c d) h.1) refl

fraction-Stops : (f : Option String) → Stops is_digit (print_fraction f)
unfolding is_digit
fraction-Stops none = tt
fraction-Stops (some d) = refl

parse_whole-print :
    (b : Bool) (w : String) (f : Option String)
    → Digits w
    → FractionOk f
    → parse_whole b (span is_digit (w ++ print_fraction f))
      ≡ some (record { negative = b; whole = w; fraction = f })
parse_whole-print b String.[] f h k = cc
parse_whole-print b (String.◌∷◌ c w) f h k =
    rw
      (
        span-append is_digit (String.◌∷◌ c w) (print_fraction f) h.1 (fraction-Stops f),
        parse_fraction-print f k,
      )
      refl

digit_first : (c : Char) → is_digit c ≡ true → (code c == 45 ≡ false) × (is_space c ≡ false)
unfolding is_digit is_space
digit_first c h = (ground arith, ground arith)

parse_literal-plain :
    (c : Char) (s : String)
    → is_digit c ≡ true
    → parse_literal (String.◌∷◌ c s) ≡ parse_whole false (span is_digit (String.◌∷◌ c s))
unfolding parse_literal
parse_literal-plain c s h = rw (digit_first c h).0 refl

parse_literal-print :
    (b : Bool) (w : String) (f : Option String)
    → Digits w
    → FractionOk f
    → parse_literal (print_signed b w f) ≡ some (record { negative = b; whole = w; fraction = f })
unfolding parse_literal
parse_literal-print true w f h k = parse_whole-print true w f h k
parse_literal-print false String.[] f h k = cc
parse_literal-print false (String.◌∷◌ c w) f h k =
    ap parse_literal (append.cons c w (print_fraction f))
    ∙ (parse_literal-plain c (w ++ print_fraction f) h.1.0
        ∙ (ap (λ s. parse_whole false (span is_digit s)) (sym (append.cons c w (print_fraction f)))
            ∙ parse_whole-print false (String.◌∷◌ c w) f h k))

literal-Stops :
    (b : Bool) (w : String) (f : Option String) → Digits w → Stops is_space (print_signed b w f)
unfolding is_space
literal-Stops true w f h = refl
literal-Stops false String.[] f h = cc
literal-Stops false (String.◌∷◌ c w) f h =
    rw (append.cons c w (print_fraction f)) (digit_first c h.1.0).1

skip_space : (s : String) → Stops is_space s → skip_spaces (String.◌∷◌ " " s) ≡ s
unfolding span is_space
skip_space s h = ap (λ p. p.1) (span-Stops is_space s h)

finish_condition-print :
    (name : String) (op : Comparator) (l : Literal)
    → Digits l.whole
    → FractionOk l.fraction
    → finish_condition name (some op) (String.◌∷◌ " " (print_literal l))
      ≡ some (record { name = name; op = op; literal = l })
finish_condition-print name op l h k =
    let skip = skip_space (print_literal l) (literal-Stops l.negative l.whole l.fraction h) in
    ap (λ t. with_literal name op (parse_literal t)) skip
    ∙ ap (with_literal name op) (parse_literal-print l.negative l.whole l.fraction h k)

-- An operator and the number behind it.
parse_comparison-print :
    (name : String) (op : Comparator) (l : Literal)
    → Digits l.whole
    → FractionOk l.fraction
    → parse_comparison name (print_op op (String.◌∷◌ " " (print_literal l)))
      ≡ some (record { name = name; op = op; literal = l })
parse_comparison-print name ge l h k = finish_condition-print name ge l h k
parse_comparison-print name le l h k = finish_condition-print name le l h k
parse_comparison-print name eq l h k = finish_condition-print name eq l h k
parse_comparison-print name ne l h k = finish_condition-print name ne l h k
parse_comparison-print name gt l h k = finish_condition-print name gt l h k
parse_comparison-print name lt l h k = finish_condition-print name lt l h k

print_op-Stops : (op : Comparator) (s : String) → Stops is_space (print_op op s)
unfolding is_space
print_op-Stops ge s = refl
print_op-Stops le s = refl
print_op-Stops eq s = refl
print_op-Stops ne s = refl
print_op-Stops gt s = refl
print_op-Stops lt s = refl

parse_from-word :
    (c : Char) (s name rest : String)
    → is_letter c ≡ true
    → span is_word (String.◌∷◌ c s) ≡ (name, rest)
    → parse_from (String.◌∷◌ c s) ≡ parse_comparison name (skip_spaces rest)
unfolding parse_from
parse_from-word c s name rest h e =
    ap (λ b. compared b (span is_word (String.◌∷◌ c s))) h ∙ ap (compared true) e

space-Stops : (s : String) → Stops is_word (String.◌∷◌ " " s)
unfolding is_word
space-Stops s = refl

letter_first : (c : Char) → is_letter c ≡ true → is_space c ≡ false
unfolding is_letter is_space
letter_first c h = ground arith

parse_from-print :
    (name : String) (op : Comparator) (l : Literal)
    → NameOk name
    → Digits l.whole
    → FractionOk l.fraction
    → parse_from (name ++ String.◌∷◌ " " (print_op op (String.◌∷◌ " " (print_literal l))))
      ≡ some (record { name = name; op = op; literal = l })
parse_from-print String.[] op l n h k = cc
parse_from-print (String.◌∷◌ c name) op l n h k =
    let tail = print_op op (String.◌∷◌ " " (print_literal l)) in
    let rest = String.◌∷◌ " " tail in
    ap parse_from (append.cons c name rest)
    ∙ (parse_from-word c (name ++ rest) (String.◌∷◌ c name) rest n.0 (
          ap (span is_word) (sym (append.cons c name rest))
          ∙ span-append is_word (String.◌∷◌ c name) rest n.1 (space-Stops tail))
        ∙ (ap (parse_comparison (String.◌∷◌ c name))
              (skip_space tail (print_op-Stops op (String.◌∷◌ " " (print_literal l))))
            ∙ parse_comparison-print (String.◌∷◌ c name) op l h k))

name-Stops : (name rest : String) → NameOk name → Stops is_space (name ++ rest)
name-Stops String.[] rest n = cc
name-Stops (String.◌∷◌ c name) rest n = rw (append.cons c name rest) (letter_first c n.0)

-- A readable condition, printed as `<name> <op> <number>`, is matched with the same name, operator and
-- number.
pub parse_condition-print :
    (c : Condition) → IsReadable c → parse_condition (print_condition c) ≡ some c
unfolding parse_condition
parse_condition-print c ok =
    let rest = String.◌∷◌ " " (print_op c.op (String.◌∷◌ " " (print_literal c.literal))) in
    ap (λ p. parse_from p.1) (span-Stops is_space (c.name ++ rest) (name-Stops c.name rest ok.name))
    ∙ parse_from-print c.name c.op c.literal ok.name ok.whole ok.fraction
