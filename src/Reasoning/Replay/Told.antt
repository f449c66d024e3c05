-- ===== src/Reasoning/Replay/Told.antt =====
-- What a replay of src/market_state_engine/reasoning/gateway.py is compared by: the answers but for
-- the reason of a degraded one, and records of distinct providers of the chain.
use tread_agent.Base.{
  ◌≡◌, sym, subst, inl, inr, String, true, false, List, [], ◌∷◌, any, All, str_eq, eq_iff, arith,
  String-cases,
}
use tread_agent.Reasoning.Types.{LlmJob}
use tread_agent.Reasoning.Config.{ProviderCfg, names}
use tread_agent.Reasoning.Gateway.Attempt.{CallRecord}
use tread_agent.Reasoning.Gateway.{Answer, answered, degraded, hit}

-- An answer without the reason of a degraded one.
pub data Told (D : Type 0) : Type 0 where
  data_of : D → Told D
  marked : LlmJob → (last_provider last_model : String) → Told D

abbrev pub told : {D : Type 0} → Answer D → Told D
told (answered d) = data_of d
told (degraded m) = marked m.job m.last_provider m.last_model

pub hit-injective : {D : Type 0} {a b : D} → hit a ≡ hit b → a ≡ b
hit-injective k = cc

-- No two records are of the same provider.
abbrev pub ApartRecords : {D C : Type 0} → List (CallRecord D C) → Type 0
ApartRecords [] = Unit
ApartRecords (r ∷ rs) = All (λ q. str_eq r.provider q.provider ≡ false) rs × ApartRecords rs

abbrev pub Among : {D C : Type 0} → List ProviderCfg → CallRecord D C → Type 0
Among ps r = any (str_eq r.provider) (names ps) ≡ true

pub apart-Among :
    {D C : Type 0} (p : ProviderCfg) (ps : List ProviderCfg) (r : CallRecord D C)
    → All (λ (q : ProviderCfg). str_eq p.name q.name ≡ false) ps
    → Among ps r
    → str_eq p.name r.provider ≡ false
apart-Among p [] r a m = absurd cc
apart-Among p (q ∷ ps) r a m = elim (String-cases r.provider q.name) [
  | inl (e, same) ↦ subst (λ k. str_eq p.name k ≡ false) (sym same) a.0
  | inr (e, _) ↦ apart-Among p ps r a.1 (rw e at m)
]

module _ {D C : Type 0} where
  pub own :
      (p : ProviderCfg) (ps : List ProviderCfg) (r : CallRecord D C)
      → r.provider ≡ p.name
      → Among (p ∷ ps) r
  own p ps r e = ground (arith, eq_iff r.provider p.name)

  pub later :
      (p : ProviderCfg) (ps : List ProviderCfg) (r : CallRecord D C) → Among ps r → Among (p ∷ ps) r
  later p ps r m = ground (arith, m)
