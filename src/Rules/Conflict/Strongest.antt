-- ===== src/Rules/Conflict/Strongest.antt =====
-- What src/market_state_engine/rules/conflict.py decides, against a description without its loops.
use tread_agent.Base.{
  ◌≡◌, refl, ap, sym, subst, ◌⊎◌, String, Bool, true, false, ◌&&◌, Option, none, some, List, [],
  ◌∷◌, any, All, ◌==◌, arith, Bool-cases, inl, inr, if◌then◌else◌,
}
use tread_agent.Base.Order.{str_le_total, str_le_trans}
use tread_agent.Rules.Models.{Direction, bullish, bearish, neutral}
use tread_agent.Rules.Conflict.{
  Candidate, rank_of, key_lt, winner_from, is_bullish, is_bearish, is_opposed, kept_effect,
  neutral_effect, resolve_with, resolve_asset_effects, ResolvedEffect, ConflictFlag,
}

abbrev pub Among : Candidate → List Candidate → Type 0
Among a [] = false ≡ true
Among a (c ∷ cs) = (a ≡ c) ⊎ Among a cs

-- One of the candidates, which none exceeds in strength, or in rule id at its strength.
pub record Strongest (w : Candidate) (cs : List Candidate) : Type 0 where
  pub among : Among w cs
  pub greatest : All (λ c. key_lt w c ≡ false) cs

-- Two candidates of the strength of `w`, of opposite directions.
pub record Opposed (w : Candidate) (cs : List Candidate) : Type 0 where
  pub up : Candidate
  pub down : Candidate
  pub up_among : Among up cs
  pub down_among : Among down cs
  pub up_rank : rank_of up ≡ rank_of w
  pub down_rank : rank_of down ≡ rank_of w
  pub up_direction : up.0.direction ≡ bullish
  pub down_direction : down.0.direction ≡ bearish

any-Among :
    (test : Candidate → Bool) (cs : List Candidate)
    → any test cs ≡ true
    → (a : Candidate) × Among a cs × (test a ≡ true)
any-Among test [] h = cc
any-Among test (c ∷ cs) h = elim (Bool-cases (test c)) [
  | inl e ↦ (c, inl refl, e)
  | inr e ↦ let (a, m, t) = any-Among test cs (ground (arith, e)) in (a, inr m, t)
]

Among-any :
    (test : Candidate → Bool) (a : Candidate) (cs : List Candidate)
    → Among a cs
    → test a ≡ true
    → any test cs ≡ true
Among-any test a [] m h = m
Among-any test a (c ∷ cs) (inl e) h = ground (arith, ap test e, h)
Among-any test a (c ∷ cs) (inr m) h = ground (arith, Among-any test a cs m h)

key_lt-irreflexive : (a : Candidate) → key_lt a a ≡ false
key_lt-irreflexive a = ground (arith, str_le_total a.1 a.1)

key_lt-below : (v w c : Candidate) → key_lt v c ≡ false → key_lt w c ≡ true → key_lt v w ≡ false
key_lt-below v w c h k = ground (arith, str_le_total c.1 w.1, str_le_trans w.1 c.1 v.1)

key_lt-over : (v w c : Candidate) → key_lt v w ≡ false → key_lt w c ≡ false → key_lt v c ≡ false
key_lt-over v w c h k = ground (arith, str_le_trans c.1 w.1 v.1)

winner_from-Strongest :
    (w : Candidate) (cs : List Candidate) → Strongest (winner_from w cs) (w ∷ cs)
unfolding winner_from
winner_from-Strongest w [] = record { among = inl refl; greatest = (key_lt-irreflexive w, tt) }
winner_from-Strongest w (c ∷ cs) = elim (Bool-cases (key_lt w c)) [
  | inl k ↦
      let s = winner_from-Strongest c cs in
      subst (λ b. Strongest (winner_from (if b then c else w) cs) (w ∷ c ∷ cs)) (sym k)
        (record {
          among = inr s.among;
          greatest = (key_lt-below (winner_from c cs) w c s.greatest.0 k, s.greatest);
        })
  | inr k ↦
      let s = winner_from-Strongest w cs in
      subst (λ b. Strongest (winner_from (if b then c else w) cs) (w ∷ c ∷ cs)) (sym k)
        (record {
          among = elim s.among [ inl e ↦ inl e | inr m ↦ inr (inr m) ];
          greatest =
              (s.greatest.0, (key_lt-over (winner_from w cs) w c s.greatest.0 k, s.greatest.1));
        })
]

is_bullish→bullish : (d : Direction) → is_bullish d ≡ true → d ≡ bullish
is_bullish→bullish bullish h = refl
is_bullish→bullish bearish h = cc
is_bullish→bullish neutral h = cc

is_bearish→bearish : (d : Direction) → is_bearish d ≡ true → d ≡ bearish
is_bearish→bearish bullish h = cc
is_bearish→bearish bearish h = refl
is_bearish→bearish neutral h = cc

is_opposed-Opposed :
    (w : Candidate) (cs : List Candidate)
    → is_opposed (λ c. rank_of c == rank_of w) cs ≡ true
    → Opposed w cs
unfolding is_opposed
is_opposed-Opposed w cs h =
    let (a, m, t) =
      any-Among (λ c. (rank_of c == rank_of w) && is_bullish c.0.direction) cs (ground arith) in
    let (b, n, u) =
      any-Among (λ c. (rank_of c == rank_of w) && is_bearish c.0.direction) cs (ground arith) in
    record {
      up = a;
      down = b;
      up_among = m;
      down_among = n;
      up_rank = ground (arith, t);
      down_rank = ground (arith, u);
      up_direction = is_bullish→bullish a.0.direction (ground (arith, t));
      down_direction = is_bearish→bearish b.0.direction (ground (arith, u));
    }

Opposed-is_opposed :
    (test : Candidate → Bool) (w : Candidate) (cs : List Candidate)
    → (o : Opposed w cs) → test o.up ≡ true
    → test o.down ≡ true
    → is_opposed test cs ≡ true
unfolding is_opposed
Opposed-is_opposed test w cs o t u =
    let bull =
      Among-any (λ c. test c && is_bullish c.0.direction) o.up cs o.up_among
        (ground (arith, t, ap is_bullish o.up_direction)) in
    let bear =
      Among-any (λ c. test c && is_bearish c.0.direction) o.down cs o.down_among
        (ground (arith, u, ap is_bearish o.down_direction)) in
    rw (bull, bear) refl

-- The two ways in which an asset's effects are resolved.
pub data Decides (asset : String) (cs : List Candidate)
    : Option ResolvedEffect × Option ConflictFlag → Type 0 where
  clear :
      (w : Candidate)
      → Strongest w cs
      → ¬ Opposed w cs
      → Decides asset cs (some (kept_effect asset w), none)
  flagged :
      (w : Candidate)
      → Strongest w cs
      → Opposed w cs
      → Decides asset cs (
        some (neutral_effect asset w),
        some (record { asset = asset; directions = bearish ∷ bullish ∷ [] }),
      )

resolve_with-Decides :
    (asset : String) (cs : List Candidate) (w : Candidate)
    → Strongest w cs
    → Decides asset cs (resolve_with asset cs w)
unfolding resolve_with
resolve_with-Decides asset cs w s = elim (Bool-cases (is_opposed (λ _. true) cs)) [
  | inr e ↦
      rw e (
        clear w s
          (λ o. absurd (ground (arith, e, Opposed-is_opposed (λ _. true) w cs o refl refl))))
  | inl e ↦ elim (Bool-cases (is_opposed (λ c. rank_of c == rank_of w) cs)) [
    | inl h ↦ rw (e, h) (flagged w s (is_opposed-Opposed w cs h))
    | inr h ↦
        rw (e, h)
          (clear w s (λ o. absurd (
            ground (
              arith,
              h,
              Opposed-is_opposed (λ c. rank_of c == rank_of w) w cs o (ground (arith, o.up_rank))
                  (ground (arith, o.down_rank)),
            ))))
  ]
]

-- The effects on an asset, if there are any, are resolved by the greatest of them in strength, and in
-- rule id at its strength: to its own direction, or to neutral and uncertain with a flag exactly when
-- a bullish and a bearish one of that strength are among them.
pub resolve_asset_effects-Decides :
    (asset : String) (c : Candidate) (cs : List Candidate)
    → Decides asset (c ∷ cs) (resolve_asset_effects asset (c ∷ cs))
unfolding resolve_asset_effects
resolve_asset_effects-Decides asset c cs =
    resolve_with-Decides asset (c ∷ cs) (winner_from c cs) (winner_from-Strongest c cs)
