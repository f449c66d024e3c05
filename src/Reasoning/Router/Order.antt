-- ===== src/Reasoning/Router/Order.antt =====
-- The failover chain: nobody is lost, and it falls through by priority.
use mathlib.Core.List.{
  Nodup, Nodup-cons, Mem, Mem-prop, Perm, Perm-prop, tail, mem-cons, mem-cons_self, mem-cons_of_mem,
  mem-map_of_mem, not-mem-nil,
}
use mathlib.Core.List.Perm
use mathlib.Core.Logic.Or
use mathlib.Core.Path.{ap₂}
use tread_agent.Base.{
  ℕ, ◌+◌, ◌*◌, ◌≤◌, ◌<◌, String, ◌≡◌, refl, sym, ap, subst, not, List, [], ◌∷◌, ltb, leb, arith,
  inl, inr, Bool-cases, String-cases, str_eq, tests, ltb→lt,
}
use tread_agent.Base.Sort.{sort-perm, sort-IsSorted, IsSorted, IsSorted-select}
use tread_agent.Reasoning.Config.{ProviderCfg, provider_le, names}
use tread_agent.Reasoning.Config.Chain.{provider_le_total, provider_le_trans}
use tread_agent.Reasoning.Health.{Ratio}
use tread_agent.Reasoning.Router.{by_priority, total_weight, pick, without, weighted_first, order}

perm_of_eq : {xs ys : List ProviderCfg} → xs ≡ ys → Perm xs ys
perm_of_eq {xs} e = subst (Perm xs) e (Perm.refl xs)

by_priority-perm : (ps : List ProviderCfg) → Perm (by_priority ps) ps
unfolding by_priority
by_priority-perm ps = sort-perm provider_le ps

by_priority-IsSorted : (ps : List ProviderCfg) → IsSorted provider_le (by_priority ps)
unfolding by_priority
by_priority-IsSorted ps = sort-IsSorted provider_le provider_le_total provider_le_trans ps

without_absent :
    (name : String) (ps : List ProviderCfg) → ¬ Mem name (names ps) → without name ps ≡ ps
without_absent name [] h = refl
without_absent name (p ∷ ps) h = elim (String-cases p.name name) [
  | inl (_, e) ↦ absurd (h (rw e mem-cons_self))
  | inr (f, _) ↦ rw f (ap (λ l. p ∷ l) (without_absent name ps (λ m. h (mem-cons_of_mem p.name m))))
]

-- To put one of some providers with distinct names in front loses nobody and doubles nobody.
front-perm :
    (q : ProviderCfg) (ps : List ProviderCfg)
    → Nodup (names ps)
    → Mem q ps
    → Perm (q ∷ without q.name ps) ps
front-perm q [] d m = absurd (not-mem-nil m)
front-perm q (p ∷ ps) d m = elim (String-cases p.name q.name) [
  | inl (t, e) ↦ rw t (
      Or.elim Perm-prop (mem-cons.0 m)
        (λ (qe : q ≡ p). perm_of_eq (
          ap₂ (λ x l. x ∷ l) qe
            (without_absent q.name ps (subst (λ n. ¬ Mem n (names ps)) e (Nodup-cons.0 d).0))))
        (λ (h : Mem q ps).
          absurd ((Nodup-cons.0 d).0 (rw e (mem-map_of_mem (λ (x : ProviderCfg). x.name) h)))))
  | inr (f, ne) ↦ rw f (
      Perm.trans (Perm.swap p q _) (
        Perm.cons p (
          front-perm q ps (Nodup-cons.0 d).1 (
            Or.elim Mem-prop (mem-cons.0 m)
              (λ (qe : q ≡ p). absurd (ne (ap (λ (x : ProviderCfg). x.name) (sym qe))))
              (λ (h : Mem q ps). h)))))
]

pick-Mem :
    (f : Ratio) (total c : ℕ) (first : ProviderCfg) (all ps : List ProviderCfg)
    → Mem first all
    → ((x : ProviderCfg) → Mem x ps → Mem x all)
    → Mem (pick f total c first ps) all
unfolding pick
pick-Mem f total c first all [] m sub = m
pick-Mem f total c first all (p ∷ ps) m sub =
    elim (Bool-cases (ltb (f.num * total) ((c + p.weight) * f.den))) [
      | inl e ↦ rw (e, pick) (sub p mem-cons_self)
      | inr e ↦
          rw (e, pick)
            (pick-Mem f total (c + p.weight) first all ps m (λ x h. sub x (mem-cons_of_mem p h)))
    ]

-- What a chain promises: it has the given providers, each as often as given, and after its first
-- one they stand in the order of priority, with ties by name.
pub record IsChain (given chain : List ProviderCfg) : Type 0 where
  pub same : Perm chain given
  pub by_priority : IsSorted provider_le (tail chain)

IsSorted-tail : (ps : List ProviderCfg) → IsSorted provider_le ps → IsSorted provider_le (tail ps)
IsSorted-tail [] s = tt
IsSorted-tail (p ∷ ps) s = s.1

weighted_first-IsChain :
    (f : Ratio) (ps : List ProviderCfg)
    → Nodup (names ps)
    → IsSorted provider_le ps
    → IsChain ps (weighted_first f ps)
unfolding weighted_first
weighted_first-IsChain f [] d s = record { same = Perm.refl []; by_priority = tt }
weighted_first-IsChain f (p ∷ ps) d s = elim (Bool-cases (leb (total_weight (p ∷ ps)) 0)) [
  | inl e ↦ rw (e, weighted_first) (record { same = Perm.refl (p ∷ ps); by_priority = s.1 })
  | inr e ↦
      rw (e, weighted_first)
        (record {
          same =
              front-perm _ (p ∷ ps) d (pick-Mem f _ 0 p (p ∷ ps) (p ∷ ps) mem-cons_self (λ x h. h));
          by_priority =
              IsSorted-select provider_le
                (λ x. not (str_eq x.name (pick f (total_weight (p ∷ ps)) 0 p (p ∷ ps)).name))
                (p ∷ ps) s;
        })
]

by_priority-Nodup : (ps : List ProviderCfg) → Nodup (names ps) → Nodup (names (by_priority ps))
by_priority-Nodup ps d =
    Perm.nodup (Perm.symm (Perm.map (λ (x : ProviderCfg). x.name) (by_priority-perm ps))) d

IsChain-weaken : (ps chain : List ProviderCfg) → IsChain (by_priority ps) chain → IsChain ps chain
IsChain-weaken ps chain c = record {
  same = Perm.trans c.same (by_priority-perm ps);
  by_priority = c.by_priority;
}

-- By either strategy, the chain of providers with distinct names has every provider exactly once,
-- and after the first pick it falls through by priority, ties by name.
pub order-IsChain :
    (strategy : String) (f : Ratio) (ps : List ProviderCfg)
    → Nodup (names ps)
    → IsChain ps (order strategy f ps)
unfolding order
order-IsChain strategy f [] d = record { same = Perm.refl []; by_priority = tt }
order-IsChain strategy f (p ∷ ps) d = elim (Bool-cases (str_eq strategy "weighted")) [
  | inl e ↦
      rw (e, order)
        (IsChain-weaken (p ∷ ps) _ (
          weighted_first-IsChain f (by_priority (p ∷ ps)) (by_priority-Nodup (p ∷ ps) d)
            (by_priority-IsSorted (p ∷ ps))))
  | inr e ↦
      rw (e, order)
        (record {
          same = by_priority-perm (p ∷ ps);
          by_priority = IsSorted-tail _ (by_priority-IsSorted (p ∷ ps));
        })
]

-- The pick skips a provider only while the fraction lies beyond the weights so far.
pick_weighted :
    (f : Ratio) (total c : ℕ) (first : ProviderCfg) (ps : List ProviderCfg)
    → c * f.den ≤ f.num * total
    → f.num * total < (c + total_weight ps) * f.den
    → 0 < (pick f total c first ps).weight
unfolding pick
pick_weighted f total c first [] lo hi = absurd (omega arith)
pick_weighted f total c first (p ∷ ps) lo hi =
    elim (Bool-cases (ltb (f.num * total) ((c + p.weight) * f.den))) [
      | inl e ↦ rw (e, pick) (grind (arith, ltb→lt _ _ e))
      | inr e ↦
          rw (e, pick)
            (pick_weighted f total (c + p.weight) first ps (omega (tests, e)) (omega arith))
    ]

scaled_lt : (a b t : ℕ) → a < b → 0 < t → a * t < (0 + t) * b
scaled_lt a b t h w = grind arith

-- Where some provider has a weight and the fraction lies below 1, the weighted chain begins with a
-- provider of positive weight.
pub weighted_first_positive :
    (f : Ratio) (ordered : List ProviderCfg)
    → f.num < f.den
    → 0 < total_weight ordered
    → (q : ProviderCfg) × (rest : List ProviderCfg) × (weighted_first f ordered ≡ q ∷ rest)
      × (0 < q.weight)
unfolding weighted_first
weighted_first_positive f [] h w = absurd (omega arith)
weighted_first_positive f (p ∷ ps) h w = (
  pick f (total_weight (p ∷ ps)) 0 p (p ∷ ps),
  without (pick f (total_weight (p ∷ ps)) 0 p (p ∷ ps)).name (p ∷ ps),
  ground arith,
  pick_weighted f (total_weight (p ∷ ps)) 0 p (p ∷ ps) (omega arith)
      (scaled_lt f.num f.den (total_weight (p ∷ ps)) h w),
)
