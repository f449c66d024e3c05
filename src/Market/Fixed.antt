-- ===== src/Market/Fixed.antt =====
-- Signed numbers with four decimals: numbers for the tests of the market modules.
use Prim.Native.Nat.{◌+◌, ◌-◌, ◌*◌, ◌/◌, ◌^◌}
use tread_agent.Base.{
  ℕ, zero, suc, ◌≤◌, ◌≡◌, refl, Bool, true, false, ◌&&◌, leb, ltb, arith, if◌then◌else◌,
}
use tread_agent.Rules.Matcher.{Floats}
use tread_agent.Rules.Activations.{Arithmetic}
use tread_agent.Market.Numbers.{Numbers, IsOrdered, Truncated, below_zero, whole}

-- `negsuc n` is -(n + 1).
pub data ℤ : Type 0 where
  pos : ℕ → ℤ
  negsuc : ℕ → ℤ

abbrev pos_part : ℤ → ℕ
pos_part (pos n) = n
pos_part (negsuc n) = 0

abbrev neg_part : ℤ → ℕ
neg_part (pos n) = 0
neg_part (negsuc n) = suc n

abbrev sub_ℕ : ℕ → ℕ → ℤ
sub_ℕ a b = if leb b a then pos (a - b) else negsuc (b - a - 1)

abbrev magnitude : ℤ → ℕ
magnitude a = pos_part a + neg_part a

abbrev is_negative : ℤ → Bool
is_negative (pos n) = false
is_negative (negsuc n) = true

-- With the sign of a product.
abbrev signed_as : ℤ → ℤ → ℕ → ℤ
signed_as (pos a) (pos b) n = pos n
signed_as (negsuc a) (negsuc b) n = pos n
signed_as _ _ n = sub_ℕ 0 n

abbrev quotient : ℕ → ℕ → ℕ
quotient a zero = 0
quotient a (suc b) = a / suc b

abbrev le_ℤ : ℤ → ℤ → Bool
le_ℤ a b = leb (pos_part a + neg_part b) (pos_part b + neg_part a)

abbrev lt_ℤ : ℤ → ℤ → Bool
lt_ℤ a b = ltb (pos_part a + neg_part b) (pos_part b + neg_part a)

abbrev negate : ℤ → ℤ
negate a = sub_ℕ (neg_part a) (pos_part a)

abbrev scale : ℕ → ℕ → ℤ
scale n d = pos (n * 10000 / 10 ^ d)

abbrev truncate : ℤ → Truncated
truncate (pos a) = whole (a / 10000)
truncate (negsuc a) = if ltb a 9999 then whole 0 else below_zero

abbrev pub fixed : Numbers ℤ
fixed = record {
  is_lt = lt_ℤ;
  is_le = le_ℤ;
  is_eq = λ a b. le_ℤ a b && le_ℤ b a;
  decimal = scale;
  negated = negate;
  absolute = λ a. pos (magnitude a);
  plus = λ a b. sub_ℕ (pos_part a + pos_part b) (neg_part a + neg_part b);
  minus = λ a b. sub_ℕ (pos_part a + neg_part b) (neg_part a + pos_part b);
  times = λ a b. signed_as a b (magnitude a * magnitude b / 10000);
  over = λ a b. signed_as a b (quotient (magnitude a * 10000) (magnitude b));
  round4 = λ a. a;
  round_whole = λ a. (pos_part a + 5000) / 10000;
  truncated = truncate;
  text_of = λ a. "";
}

abbrev pub fixed_floats : Floats ℤ
fixed_floats = record {
  float = λ l. pos 1000;
  is_lt = lt_ℤ;
  is_le = le_ℤ;
  is_eq = λ a b. le_ℤ a b && le_ℤ b a;
}

abbrev pub fixed_arithmetic : Arithmetic ℤ
fixed_arithmetic = record {
  zero = pos 0;
  one = pos 10000;
  absolute = λ a. pos (magnitude a);
  quotient = λ a b. pos 0;
  half_power = λ a. pos 10000;
  round4 = λ a. a;
}

round_bound :
    (a : ℤ) → le_ℤ a (pos 10000) ≡ true → fixed.round_whole (fixed.times (pos 1000000) a) ≤ 100
round_bound (pos n) h = ground arith
round_bound (negsuc n) h = ground arith

pub fixed-IsOrdered : IsOrdered fixed
fixed-IsOrdered = record {
  total = λ a b. ground arith;
  lt_false = λ a b h. ground arith;
  lt_true = λ a b h. ground arith;
  below_one = refl;
  above_minus_one = refl;
  round4_mono = λ a b h. h;
  round4_zero = refl;
  round4_one = refl;
  round4_minus_one = refl;
  round_whole_bound = round_bound;
}
