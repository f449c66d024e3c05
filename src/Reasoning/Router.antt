-- ===== src/Reasoning/Router.antt =====
-- src/market_state_engine/reasoning/reliability/router.py: the order of the failover chain.
pub mod Order
pub mod Distinct
use tread_agent.Base.{
  ℕ, ◌+◌, ◌*◌, ◌^◌, ◌≤◌, String, not, List, [], ◌∷◌, select, ltb, leb, if◌then◌else◌, str_eq,
}
use tread_agent.Base.Sort.{sort}
use tread_agent.Reasoning.Config.{ProviderCfg, provider_le}
use tread_agent.Reasoning.Health.{Ratio}

unfoldable pub by_priority : List ProviderCfg → List ProviderCfg
by_priority = sort provider_le

-- `digest8` gives the first eight bytes of the SHA-256 digest of a text as a number. The fraction is
-- exact here.
unfoldable pub seed_fraction : (String → ℕ) → String → Ratio
seed_fraction digest8 seed = record { num = digest8 seed; den = 2 ^ 64 }

abbrev pub total_weight : List ProviderCfg → ℕ
total_weight [] = 0
total_weight (p ∷ ps) = p.weight + total_weight ps

-- The loop of `_weighted_first`: the first provider with `fraction * total < cumulative`, which is
-- compared without division, and `first` if there is none.
unfoldable pub pick : Ratio → ℕ → ℕ → ProviderCfg → List ProviderCfg → ProviderCfg
pick f total cumulative first [] = first
pick f total cumulative first (p ∷ ps) =
    let later = pick f total (cumulative + p.weight) first ps in
    if ltb (f.num * total) ((cumulative + p.weight) * f.den) then p else later

abbrev pub without : String → List ProviderCfg → List ProviderCfg
without name = select (λ p. not (str_eq p.name name))

unfoldable pub weighted_first : Ratio → List ProviderCfg → List ProviderCfg
unfolding pick
weighted_first f [] = []
weighted_first f (p ∷ ps) =
    let ordered = p ∷ ps in
    let total = total_weight ordered in
    let first = pick f total 0 p ordered in
    if leb total 0 then ordered else first ∷ without first.name ordered

-- `Router.order`, with the fraction of the run's seed.
unfoldable pub order : String → Ratio → List ProviderCfg → List ProviderCfg
unfolding by_priority weighted_first
order strategy f [] = []
order strategy f (p ∷ ps) =
    if not (str_eq strategy "weighted")
    then by_priority (p ∷ ps)
    else weighted_first f (by_priority (p ∷ ps))
