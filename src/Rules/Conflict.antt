-- ===== src/Rules/Conflict.antt =====
-- src/market_state_engine/rules/conflict.py: one effect for an asset, the strongest, and a flag when
-- effects of the greatest strength oppose each other.
pub mod Strongest
use tread_agent.Base.{
  ℕ, String, Bool, true, false, not, ◌&&◌, Option, none, some, List, [], ◌∷◌, any, ltb, ◌==◌,
  str_eq, or_else, if◌then◌else◌,
}
use tread_agent.Base.Order.{str_le}
use tread_agent.Rules.Models.{
  Direction, bullish, bearish, neutral, OrdinalLevel, minor, moderate, major, dominant, Effect,
}

-- `_STRENGTH_RANK`
abbrev pub rank : OrdinalLevel → ℕ
rank minor = 1
rank moderate = 2
rank major = 3
rank dominant = 4

pub record ResolvedEffect : Type 0 where
  pub asset : String
  pub direction : Direction
  pub strength : OrdinalLevel
  pub horizon : String
  pub uncertain : Bool
  pub source_rule_id : String

-- `detail` is a text over the directions, of which it names both.
pub record ConflictFlag : Type 0 where
  pub asset : String
  pub directions : List Direction

abbrev pub Candidate : Type 0
Candidate = Effect × String

abbrev pub rank_of : Candidate → ℕ
rank_of c = rank c.0.strength

-- `key(a) < key(b)` for the key `(rank, rule_id)`
abbrev pub key_lt : Candidate → Candidate → Bool
key_lt a b = if rank_of a == rank_of b then not (str_le b.1 a.1) else ltb (rank_of a) (rank_of b)

-- The loop of `max`: a later candidate must be greater.
unfoldable pub winner_from : Candidate → List Candidate → Candidate
winner_from w [] = w
winner_from w (c ∷ cs) = winner_from (if key_lt w c then c else w) cs

abbrev pub is_bullish : Direction → Bool
is_bullish bullish = true
is_bullish _ = false

abbrev pub is_bearish : Direction → Bool
is_bearish bearish = true
is_bearish _ = false

-- `len({d for d in directions if d is not NEUTRAL}) > 1`, of the candidates that pass the test
unfoldable pub is_opposed : (Candidate → Bool) → List Candidate → Bool
is_opposed test cs =
    any (λ c. test c && is_bullish c.0.direction) cs
    && any (λ c. test c && is_bearish c.0.direction) cs

abbrev pub kept_effect : String → Candidate → ResolvedEffect
kept_effect asset w = record {
  asset = asset;
  direction = w.0.direction;
  strength = w.0.strength;
  horizon = w.0.horizon;
  uncertain = or_else w.0.uncertain false;
  source_rule_id = w.1;
}

abbrev pub neutral_effect : String → Candidate → ResolvedEffect
neutral_effect asset w = record (kept_effect asset w) { direction = neutral; uncertain = true }

unfoldable pub resolve_with :
    String → List Candidate → Candidate → Option ResolvedEffect × Option ConflictFlag
unfolding is_opposed
resolve_with asset cs w =
    if not (is_opposed (λ _. true) cs)
    then (some (kept_effect asset w), none)
    else (if is_opposed (λ c. rank_of c == rank_of w) cs
        then (
          some (neutral_effect asset w),
          some (record { asset = asset; directions = bearish ∷ bullish ∷ [] }),
        )
        else (some (kept_effect asset w), none))

unfoldable pub resolve_asset_effects :
    String → List Candidate → Option ResolvedEffect × Option ConflictFlag
unfolding resolve_with winner_from
resolve_asset_effects asset [] = (none, none)
resolve_asset_effects asset (c ∷ cs) = resolve_with asset (c ∷ cs) (winner_from c cs)
