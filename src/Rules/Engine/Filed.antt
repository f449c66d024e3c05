-- ===== src/Rules/Engine/Filed.antt =====
-- What src/market_state_engine/rules/engine.py collects: each effect has an entry of a rule.
use tread_agent.Base.{
  ◌≡◌, refl, ◌∙◌, sym, subst, String, Bool, true, false, ◌&&◌, Option, some, List, [], ◌∷◌, ◌++◌,
  All, All-append, All-map, is_some, str_eq, eq_iff, eq_refl, arith, Bool-cases, Option-cases, inl,
  inr,
}
use tread_agent.Base.Dict.{insert-All, lookup-All, Dict, lookup, insert}
use tread_agent.Rules.Models.{RegimeState, Effect, Rule, Checked, valid, gate_error}
use tread_agent.Rules.Matcher.{Floats, rule_matches, resolved_effects}
use tread_agent.Rules.Conflict.{Candidate}
use tread_agent.Rules.Engine.{
  add_effects, add_checked, add_if, and_collect, collect, meta_of, event_of,
}
use tread_agent.Rules.Activations.{EventFeature, Arithmetic, Collected, or_nothing}

-- What was stored of a key, with one more item.
pub pushed-All :
    {A : Type 0} (P : String → A → Type 0) (k : String) (x : A) (d : Dict (List A))
    → P k x
    → All (λ e. All (P e.0) e.1) d
    → All (λ e. All (P e.0) e.1) (insert k (or_nothing (lookup k d) ++ x ∷ []) d)
pushed-All P k x d h a =
    insert-All (λ e. All (P e.0) e.1) k (or_nothing (lookup k d) ++ x ∷ []) d
      (λ j e.
        subst (λ i. All (P i) (or_nothing (lookup k d) ++ x ∷ [])) (sym e)
          (All-append (P k) (or_nothing (lookup k d)) (x ∷ []) old (h, tt)))
      a
  where
    old : All (P k) (or_nothing (lookup k d))
    old = elim (Option-cases (lookup k d)) [
      | inl e ↦ rw e tt
      | inr (xs, e) ↦ rw e (lookup-All (λ e. All (P e.0) e.1) k xs d a e)
    ]

pub valid-same : {A : Type 0} {a b : A} → valid a ≡ valid b → a ≡ b
valid-same h = cc

module _ {V : Type 0} (floats : Floats V) (arithmetic : Arithmetic V) (P : Rule V → Type 0) where
  abbrev pub Meta : Type 0
  Meta = List ((String × String) × (Rule V × Option (EventFeature V)))

  -- The entry of an effect of the rule `id` on the asset can be found.
  abbrev pub Known : Meta → String → Candidate → Type 0
  Known meta asset c = is_some (meta_of floats arithmetic asset c.1 meta) ≡ true

  abbrev pub Entry : (String × String) × (Rule V × Option (EventFeature V)) → Type 0
  Entry m = (m.0.1 ≡ m.1.0.id) × P m.1.0

  pub record IsFiled (st : Collected V) : Type 0 where
    pub known : All (λ e. All (Known st.meta e.0) e.1) st.candidates
    pub entries : All Entry st.meta

  Known-more :
      (m : (String × String) × (Rule V × Option (EventFeature V))) (meta : Meta) (asset : String)
      (c : Candidate)
      → Known meta asset c
      → Known (m ∷ meta) asset c
  unfolding meta_of
  Known-more m meta asset c h = elim (Bool-cases (str_eq m.0.0 asset && str_eq m.0.1 c.1)) [
    | inl e ↦ rw e refl
    | inr e ↦ rw e h
  ]

  Known-new :
      (asset id : String) (e : Effect) (m : Rule V × Option (EventFeature V)) (meta : Meta)
      → Known (((asset, id), m) ∷ meta) asset (e, id)
  unfolding meta_of
  Known-new asset id e m meta = rw (eq_refl asset, eq_refl id) refl

  add_effects-IsFiled :
      (rule : Rule V) (event : Option (EventFeature V)) (es : List Effect) (st : Collected V)
      → P rule
      → IsFiled st
      → IsFiled (add_effects floats arithmetic rule event es st)
  unfolding add_effects
  add_effects-IsFiled rule event [] st p f = f
  add_effects-IsFiled rule event (e ∷ es) st p f =
      let m : (String × String) × (Rule V × Option (EventFeature V)) =
        ((e.asset, rule.id), (rule, event)) in
      add_effects-IsFiled rule event es _ p (record {
        known =
            pushed-All (Known (m ∷ st.meta)) e.asset (e, rule.id) st.candidates
              (Known-new e.asset rule.id e (rule, event) st.meta)
              (All-map (λ x. All (Known st.meta x.0) x.1) (λ x. All (Known (m ∷ st.meta) x.0) x.1)
                (λ x.
                  All-map (Known st.meta x.0) (Known (m ∷ st.meta) x.0) (Known-more m st.meta x.0)
                    x.1)
                st.candidates f.known);
        entries = ((refl, p), f.entries);
      })

  pub meta_of-Entry :
      (asset id : String) (meta : Meta) (m : Rule V × Option (EventFeature V))
      → All Entry meta
      → meta_of floats arithmetic asset id meta ≡ some m
      → (id ≡ m.0.id) × P m.0
  unfolding meta_of
  meta_of-Entry asset id [] m a h = absurd cc
  meta_of-Entry asset id (x ∷ meta) m a h =
      elim (Bool-cases (str_eq x.0.0 asset && str_eq x.0.1 id)) [
        | inl e ↦
            let same : x.1 ≡ m = ground (arith, e, h) in
            let key : x.0.1 ≡ id = (eq_iff x.0.1 id).0 (ground (arith, e)) in
            subst (λ y. (id ≡ y.0.id) × P y.0) same (sym key ∙ a.0.0, a.0.1)
        | inr e ↦ meta_of-Entry asset id meta m a.1 (ground (arith, e, h))
      ]

  add_if-IsFiled :
      (rule : Rule V) (event : Option (EventFeature V)) (regime : Option RegimeState)
      (st : Collected V) (b : Checked Bool) (out : Collected V)
      → P rule
      → IsFiled st
      → add_if floats arithmetic rule event regime st b ≡ valid out
      → IsFiled out
  add_if-IsFiled rule event regime st (gate_error x) out p f h = absurd cc
  add_if-IsFiled rule event regime st (valid false) out p f h = subst IsFiled (valid-same h) f
  add_if-IsFiled rule event regime st (valid true) out p f h =
      resolved (resolved_effects rule regime) h
    where
      resolved :
          (es : Checked (List Effect))
          → add_checked floats arithmetic rule event st es ≡ valid out
          → IsFiled out
      resolved (gate_error x) k = absurd cc
      resolved (valid es) k =
          subst IsFiled (valid-same k) (add_effects-IsFiled rule event es st p f)

  and_collect-IsFiled :
      (m : Checked (Collected V)) (k : Collected V → Checked (Collected V)) (out : Collected V)
      → ((st : Collected V) → m ≡ valid st → IsFiled st)
      → ((st : Collected V) → IsFiled st → k st ≡ valid out → IsFiled out)
      → and_collect floats arithmetic m k ≡ valid out
      → IsFiled out
  and_collect-IsFiled (gate_error x) k out f g h = absurd cc
  and_collect-IsFiled (valid st) k out f g h = g st (f st refl) h

  pub collect-IsFiled :
      (vars : Dict V) (events : Dict (EventFeature V)) (regime : Option RegimeState)
      (rules : List (Rule V)) (st out : Collected V)
      → All P rules
      → IsFiled st
      → collect floats arithmetic vars events regime rules st ≡ valid out
      → IsFiled out
  unfolding collect
  collect-IsFiled vars events regime [] st out a f h = subst IsFiled (valid-same h) f
  collect-IsFiled vars events regime (r ∷ rs) st out a f h =
      and_collect-IsFiled
        (add_if floats arithmetic r (event_of floats arithmetic events r.on_trigger.event_type)
          regime st (rule_matches floats r vars))
        (collect floats arithmetic vars events regime rs) out
        (λ st' e. add_if-IsFiled r _ regime st (rule_matches floats r vars) st' a.0 f e)
        (λ st' f' e. collect-IsFiled vars events regime rs st' out a.1 f' e) h
