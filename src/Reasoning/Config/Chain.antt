-- ===== src/Reasoning/Config/Chain.antt =====
-- The order of providers, and that a valid configuration has distinct names.
use mathlib.Core.List.{Nodup, Nodup-cons, Nodup-nil, Mem, not-mem-nil, mem-cons}
use mathlib.Core.Logic.Or
use tread_agent.Base.{
  String, ◌≡◌, ◌⊎◌, inl, inr, true, none, List, [], ◌∷◌, any, arith, str_eq, eq_iff, Bool-cases,
}
use tread_agent.Base.Order.{str_le_total, str_le_trans}
use tread_agent.Reasoning.Config.{ProviderCfg, names, all_distinct, validate_providers, provider_le}

pub provider_le_total : (p q : ProviderCfg) → (provider_le p q ≡ true) ⊎ (provider_le q p ≡ true)
provider_le_total p q = ground (arith, str_le_total p.name q.name)

pub provider_le_trans :
    (p q r : ProviderCfg) → provider_le p q ≡ true → provider_le q r ≡ true → provider_le p r ≡ true
provider_le_trans p q r h k = ground (arith, str_le_trans p.name q.name r.name)

any-Mem : (n : String) (ns : List String) → Mem n ns → any (str_eq n) ns ≡ true
any-Mem n [] m = absurd (not-mem-nil m)
any-Mem n (k ∷ ns) m =
    Or.elim (hlevel) (mem-cons.0 m) (λ e. ground (arith, eq_iff n k))
      (λ h. ground (arith, any-Mem n ns h))

all_distinct-Nodup : (ns : List String) → all_distinct ns ≡ true → Nodup ns
unfolding all_distinct
all_distinct-Nodup [] h = Nodup-nil
all_distinct-Nodup (n ∷ ns) h =
    Nodup-cons.1 ((λ m. ground (arith, any-Mem n ns m)), all_distinct-Nodup ns (ground arith))

-- The providers of a configuration that passed its validation have distinct names.
pub validate_providers-Nodup :
    (ps : List ProviderCfg) → validate_providers ps ≡ none → Nodup (names ps)
unfolding validate_providers
validate_providers-Nodup [] h = Nodup-nil
validate_providers-Nodup (p ∷ ps) h = elim (Bool-cases (all_distinct (names (p ∷ ps)))) [
  | inl e ↦ all_distinct-Nodup (names (p ∷ ps)) e
  | inr e ↦ absurd (ground arith)
]
