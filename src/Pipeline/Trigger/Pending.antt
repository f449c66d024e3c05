-- ===== src/Pipeline/Trigger/Pending.antt =====
-- The pending events of src/market_state_engine/pipeline/event_trigger.py, counted by their ids.
use tread_agent.Base.{
  ℕ, ◌+◌, ◌≤◌, ◌≡◌, refl, ◌∙◌, ap, sym, subst, inl, inr, String, true, false, ◌||◌, none, List, [],
  ◌∷◌, ◌++◌, any, All, All-map, select, count_if, str_eq, eq_iff, eq_refl, arith, Bool-cases,
  String-cases, if◌then◌else◌,
}
use tread_agent.Base.Sort.{sort, insert_sorted}
use tread_agent.Pipeline.Store.{MacroEvent, MacroEventRow, Tables, find_event}
use tread_agent.Pipeline.Pending.{event_le, stored, waits, pending_of, ids_of}
use tread_agent.Pipeline.Trigger.Kept.{Kept, taken_in}

-- How often an id stands in a list.
abbrev pub times : String → List String → ℕ
times k ids = count_if (str_eq k) ids

pub times-append : (k : String) (xs ys : List String) → times k (xs ++ ys) ≡ times k xs + times k ys
times-append k [] ys = omega arith
times-append k (x ∷ xs) ys = ground (arith, times-append k xs ys)

times-absent : (k : String) (ids : List String) → any (str_eq k) ids ≡ false → times k ids ≡ 0
times-absent k [] h = refl
times-absent k (x ∷ xs) h = ground (arith, times-absent k xs)

any-append :
    (k : String) (xs ys : List String)
    → any (str_eq k) (xs ++ ys) ≡ (any (str_eq k) xs || any (str_eq k) ys)
any-append k [] ys = refl
any-append k (x ∷ xs) ys = ground (arith, any-append k xs ys)

module _ {V : Type 0} where
  times-insert_sorted :
      (k : String) (e : MacroEvent V) (es : List (MacroEvent V))
      → times k (ids_of (insert_sorted event_le e es)) ≡ times k (ids_of (e ∷ es))
  unfolding insert_sorted
  times-insert_sorted k e [] = refl
  times-insert_sorted k e (x ∷ es) = elim (Bool-cases (event_le e x)) [
    | inl h ↦ rw (h, insert_sorted) refl
    | inr h ↦ rw (h, insert_sorted) (ground (arith, times-insert_sorted k e es))
  ]

  times-sort :
      (k : String) (es : List (MacroEvent V))
      → times k (ids_of (sort event_le es)) ≡ times k (ids_of es)
  unfolding sort
  times-sort k [] = refl
  times-sort k (e ∷ es) =
      times-insert_sorted k e (sort event_le es) ∙ ground (arith, times-sort k es)

  times-waits :
      (k : String) (taken : List String) (es : List (MacroEvent V))
      → times k (ids_of (select (waits taken) es))
        ≤ (if any (str_eq k) taken then 0 else times k (ids_of es))
  unfolding waits
  times-waits k taken [] = ground arith
  times-waits k taken (e ∷ es) = elim (String-cases k e.event_id) [
    | inl (t, same) ↦ ground (arith, t, ap (λ z. any (str_eq z) taken) same, times-waits k taken es)
    | inr (f, other) ↦ ground (arith, f, times-waits k taken es)
  ]

  abbrev pub Covered : List String → List String → List (MacroEvent V) → Type 0
  Covered taken ids es = All (λ e. waits taken e ≡ true → any (str_eq e.event_id) ids ≡ true) es

  Covered-none :
      (taken ids : List String) (es : List (MacroEvent V))
      → Covered taken ids es
      → select (waits (taken ++ ids)) es ≡ []
  unfolding waits
  Covered-none taken ids [] h = refl
  Covered-none taken ids (e ∷ es) h =
      ground (arith, any-append e.event_id taken ids, h.0, Covered-none taken ids es h.1)

  Covered-more :
      (taken ids : List String) (k : String) (es : List (MacroEvent V))
      → Covered taken ids es
      → Covered taken (k ∷ ids) es
  Covered-more taken ids k es =
      All-map (λ e. waits taken e ≡ true → any (str_eq e.event_id) ids ≡ true)
        (λ e. waits taken e ≡ true → any (str_eq e.event_id) (k ∷ ids) ≡ true)
        (λ e h w. ground (arith, h w)) es

  pub select-Covered :
      (taken : List String) (es : List (MacroEvent V))
      → Covered taken (ids_of (select (waits taken) es)) es
  select-Covered taken [] = tt
  select-Covered taken (e ∷ es) =
      let S : List (MacroEvent V) = select (waits taken) es in
      elim (Bool-cases (waits taken e)) [
        | inl h ↦
            subst (λ b. Covered taken (ids_of (if b then e ∷ S else S)) (e ∷ es)) (sym h)
              (
                (λ _. ground (arith, eq_refl e.event_id)),
                Covered-more taken (ids_of S) e.event_id es (select-Covered taken es),
              )
        | inr h ↦
            subst (λ b. Covered taken (ids_of (if b then e ∷ S else S)) (e ∷ es)) (sym h)
              ((λ w. absurd (ground arith)), select-Covered taken es)
      ]

find_event-times :
    {V Json : Type 0} (k : String) (rows : List (MacroEventRow V Json))
    → find_event k rows ≡ none
    → times k (ids_of (stored rows)) ≡ 0
unfolding find_event
find_event-times k [] h = refl
find_event-times k (r ∷ rows) h = elim (String-cases r.event.event_id k) [
  | inl (e, _) ↦ absurd (ground (arith, e))
  | inr (e, _) ↦
      ground
        (arith, e, eq_iff k r.event.event_id, eq_iff r.event.event_id k, find_event-times k rows)
]

times-stored :
    {V Json : Type 0} (k : String) (rows : List (MacroEventRow V Json)) (r : MacroEventRow V Json)
    → times k (ids_of (stored (rows ++ r ∷ [])))
      ≡ times k (ids_of (stored rows)) + times k (r.event.event_id ∷ [])
times-stored k [] r = omega arith
times-stored k (q ∷ rows) r = ground (arith, times-stored k rows r)

module _ {V Raw Json : Type 0} where
  -- No event is stored twice, and none has been triggered twice.
  pub record Once (t : Tables V Raw Json) : Type 0 where
    pub distinct : (k : String) → times k (ids_of (stored t.macro_events)) ≤ 1
    pub once : (k : String) → times k (taken_in t.event_log) ≤ 1

  pub Once-Kept : (t t' : Tables V Raw Json) → Kept t t' → Once t → Once t'
  Once-Kept t t' k o = record {
    distinct =
        λ i. subst (λ rows. times i (ids_of (stored rows)) ≤ 1) (sym k.events) (o.distinct i);
    once = λ i. subst (λ ids. times i ids ≤ 1) (sym k.taken) (o.once i);
  }

  -- The tables after a trigger of the pending events.
  pub record Fired (t t' : Tables V Raw Json) : Type 0 where
    pub events : t'.macro_events ≡ t.macro_events
    pub taken : taken_in t'.event_log ≡ taken_in t.event_log ++ ids_of (pending_of t)

  times-pending :
      (t : Tables V Raw Json) (k : String)
      → Once t
      → times k (taken_in t.event_log) + times k (ids_of (pending_of t)) ≤ 1
  unfolding pending_of taken_in
  times-pending t k o =
      let es = sort event_le (stored t.macro_events) in
      let all = times-sort k (stored t.macro_events) in
      let most = times-waits k (taken_in t.event_log) es in
      elim (Bool-cases (any (str_eq k) (taken_in t.event_log))) [
        | inl h ↦ ground (arith, h, most, o.once k)
        | inr h ↦
            ground (arith, h, most, all, o.distinct k, times-absent k (taken_in t.event_log) h)
      ]

  pub Fired-Once : (t t' : Tables V Raw Json) → Fired t t' → Once t → Once t'
  Fired-Once t t' f o = record {
    distinct =
        λ i. subst (λ rows. times i (ids_of (stored rows)) ≤ 1) (sym f.events) (o.distinct i);
    once = λ i.
        subst (λ ids. times i ids ≤ 1) (sym f.taken)
          (omega (
            arith,
            times-append i (taken_in t.event_log) (ids_of (pending_of t)),
            times-pending t i o,
          ));
  }

  pub Fired-none : (t t' : Tables V Raw Json) → Fired t t' → pending_of t' ≡ []
  unfolding pending_of taken_in
  Fired-none t t' f =
      let es = sort event_le (stored t.macro_events) in
      let taken = taken_in t.event_log in
      rw (f.events, f.taken)
        (Covered-none taken (ids_of (select (waits taken) es)) es (select-Covered taken es))

  pub stored-Once :
      (t t' : Tables V Raw Json) (r : MacroEventRow V Json)
      → find_event r.event.event_id t.macro_events ≡ none
      → t'.macro_events ≡ t.macro_events ++ r ∷ []
      → taken_in t'.event_log ≡ taken_in t.event_log
      → Once t
      → Once t'
  stored-Once t t' r new rows taken o = record {
    distinct = λ k.
        subst (λ rows'. times k (ids_of (stored rows')) ≤ 1) (sym rows)
          (elim (String-cases k r.event.event_id) [
            | inl (e, same) ↦ ground (
              arith,
              e,
              times-stored k t.macro_events r,
              ap (λ i. times i (ids_of (stored t.macro_events))) same,
              find_event-times r.event.event_id t.macro_events new,
            )
            | inr (e, _) ↦ ground (arith, e, times-stored k t.macro_events r, o.distinct k)
          ]);
    once = λ k. subst (λ ids. times k ids ≤ 1) (sym taken) (o.once k);
  }
