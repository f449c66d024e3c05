-- ===== src/Reasoning/Router/Distinct.antt =====
-- The names in the chain of a valid configuration.
use mathlib.Core.List.{Nodup, Nodup-cons, Mem, mem-cons, mem-cons_self, mem-cons_of_mem, Mem-prop}
use mathlib.Core.List.Perm
use mathlib.Core.Logic.Or
use tread_agent.Base.{
  ◌≡◌, inl, inr, Bool, false, none, String, List, [], ◌∷◌, All, select, str_eq, Bool-cases,
  String-cases,
}
use tread_agent.Base.Sort.{sort, sort-perm}
use tread_agent.Reasoning.Config.{
  ProviderCfg, ProvidersConfig, names, provider_le, validate_providers, enabled_providers,
}
use tread_agent.Reasoning.Config.Chain.{validate_providers-Nodup}
use tread_agent.Reasoning.Health.{Ratio}
use tread_agent.Reasoning.Router.{order}
use tread_agent.Reasoning.Router.Order.{order-IsChain}

-- No two providers have the same name.
abbrev pub Apart : List ProviderCfg → Type 0
Apart [] = Unit
Apart (p ∷ ps) = All (λ (q : ProviderCfg). str_eq p.name q.name ≡ false) ps × Apart ps

Mem-select :
    (test : ProviderCfg → Bool) (name : String) (ps : List ProviderCfg)
    → Mem name (names (select test ps))
    → Mem name (names ps)
Mem-select test name [] m = m
Mem-select test name (p ∷ ps) m = elim (Bool-cases (test p)) [
  | inr e ↦ mem-cons_of_mem p.name (Mem-select test name ps (rw e at m))
  | inl e ↦
      Or.elim Mem-prop (mem-cons.0 (rw e at m)) (λ (q : name ≡ p.name). rw q mem-cons_self)
        (λ (k : Mem name (names (select test ps))).
          mem-cons_of_mem p.name (Mem-select test name ps k))
]

select-Nodup :
    (test : ProviderCfg → Bool) (ps : List ProviderCfg)
    → Nodup (names ps)
    → Nodup (names (select test ps))
select-Nodup test [] d = d
select-Nodup test (p ∷ ps) d = elim (Bool-cases (test p)) [
  | inl e ↦ rw e (
      Nodup-cons.1 (
        (λ m. (Nodup-cons.0 d).0 (Mem-select test p.name ps m)),
        select-Nodup test ps (Nodup-cons.0 d).1,
      ))
  | inr e ↦ rw e (select-Nodup test ps (Nodup-cons.0 d).1)
]

absent-apart :
    (name : String) (ps : List ProviderCfg)
    → ¬ Mem name (names ps)
    → All (λ (q : ProviderCfg). str_eq name q.name ≡ false) ps
absent-apart name [] h = tt
absent-apart name (q ∷ ps) h = elim (String-cases name q.name) [
  | inl (_, e) ↦ absurd (h (rw e mem-cons_self))
  | inr (e, _) ↦ (e, absent-apart name ps (λ m. h (mem-cons_of_mem q.name m)))
]

Nodup-Apart : (ps : List ProviderCfg) → Nodup (names ps) → Apart ps
Nodup-Apart [] d = tt
Nodup-Apart (p ∷ ps) d =
    (absent-apart p.name ps (Nodup-cons.0 d).0, Nodup-Apart ps (Nodup-cons.0 d).1)

pub order-Apart :
    (strategy : String) (f : Ratio) (config : ProvidersConfig)
    → validate_providers config.providers ≡ none
    → Apart (order strategy f (enabled_providers config))
unfolding enabled_providers
order-Apart strategy f config h =
    let chosen : List ProviderCfg = select (λ p. p.enabled) config.providers in
    let distinct : Nodup (names chosen) =
      select-Nodup (λ p. p.enabled) config.providers
        (validate_providers-Nodup config.providers h) in
    let sorted : Nodup (names (sort provider_le chosen)) =
      Perm.nodup (Perm.symm (Perm.map (λ (x : ProviderCfg). x.name) (sort-perm provider_le chosen)))
        distinct in
    let chain = order-IsChain strategy f (sort provider_le chosen) sorted in
    Nodup-Apart _
      (Perm.nodup (Perm.symm (Perm.map (λ (x : ProviderCfg). x.name) chain.same)) sorted)
