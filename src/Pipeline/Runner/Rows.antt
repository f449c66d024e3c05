-- ===== src/Pipeline/Runner/Rows.antt =====
-- The rows that an execution writes. The times of the event log and the ids of the call records come
-- from outside, and a view of the tables leaves them out.
use tread_agent.Base.{
  ℕ, ◌≡◌, refl, ◌∙◌, ap, sym, String, Bool, true, false, Option, some, List, [], ◌∷◌, ◌++◌, map,
  All, All-append,
}
use tread_agent.Reasoning.Gateway.Attempt.{CallRecord}
use tread_agent.Pipeline.Store.{
  EventType, Payload, provider_call, called, degraded, llm_absent, EventLogRow, CallRecordRow,
  RuleActivationRow, Tables, Row, run_row, output_row, input_row, call_row, activation_row, log_row,
  macro_row, with_row, with_rows, RuleActivation, AssetDoc, Backend, IsBackend,
}
use tread_agent.Pipeline.Runner.{
  Outside, record_event, add_activations, add_for_run, add_calls, note_degraded,
}

abbrev pub untimed : EventLogRow → EventLogRow
untimed r = record r { created_at = 0 }

pub map-append {ℓ κ} :
    {A : Type ℓ} {B : Type κ} (f : A → B) (xs ys : List A) → map f (xs ++ ys) ≡ map f xs ++ map f ys
map-append f [] ys = refl
map-append f (x ∷ xs) ys = ap (λ zs. f x ∷ zs) (map-append f xs ys)

abbrev pub unnamed : {V Json : Type 0} → CallRecordRow V Json → CallRecordRow V Json
unnamed r = record r { call_id = "" }

module _ {V Raw Json : Type 0} where
  abbrev pub shown : Tables V Raw Json → Tables V Raw Json
  shown t = record t {
    event_log = map untimed t.event_log;
    call_records = map unnamed t.call_records;
  }

  abbrev pub shown_row : Row V Raw Json → Row V Raw Json
  shown_row (log_row r) = log_row (untimed r)
  shown_row (call_row r) = call_row (unnamed r)
  shown_row (run_row r) = run_row r
  shown_row (output_row r) = output_row r
  shown_row (input_row r) = input_row r
  shown_row (activation_row r) = activation_row r
  shown_row (macro_row r) = macro_row r

  pub shown-with_row :
      (r : Row V Raw Json) (t : Tables V Raw Json)
      → shown (with_row r t) ≡ with_row (shown_row r) (shown t)
  shown-with_row (log_row r) t =
      ap (λ rows. record (shown t) { event_log = rows }) (map-append untimed t.event_log (r ∷ []))
  shown-with_row (call_row r) t =
      ap (λ rows. record (shown t) { call_records = rows })
        (map-append unnamed t.call_records (r ∷ []))
  shown-with_row (run_row r) t = refl
  shown-with_row (output_row r) t = refl
  shown-with_row (input_row r) t = refl
  shown-with_row (activation_row r) t = refl
  shown-with_row (macro_row r) t = refl

  with_rows-append :
      (rs qs : List (Row V Raw Json)) (t : Tables V Raw Json)
      → with_rows (rs ++ qs) t ≡ with_rows qs (with_rows rs t)
  with_rows-append [] qs t = refl
  with_rows-append (r ∷ rs) qs t = with_rows-append rs qs (with_row r t)

  -- A line of the event log, without its time.
  abbrev pub line : Option String → EventType → Payload → Row V Raw Json
  line run_id event_type payload =
      log_row
        (record { run_id = run_id; event_type = event_type; payload = payload; created_at = 0 })

  abbrev pub activation_rows_of :
      String → String → ℕ → List (RuleActivation V) → List (Row V Raw Json)
  activation_rows_of run_id symbol now acts =
      map
        (λ a.
          activation_row
            (record { run_id = run_id; symbol = symbol; activation = a; created_at = now }))
        acts

  abbrev pub activation_rows : String → ℕ → List (AssetDoc V Json) → List (Row V Raw Json)
  activation_rows run_id now [] = []
  activation_rows run_id now (a ∷ rest) =
      activation_rows_of run_id a.symbol now a.activated_rules ++ activation_rows run_id now rest

  -- Each call of the run has a line in front of its record.
  abbrev pub call_rows : String → List (CallRecord Json V) → List (Row V Raw Json)
  call_rows run_id [] = []
  call_rows run_id (r ∷ rs) =
      line (some run_id) provider_call (called r.provider r.outcome)
      ∷ call_row (record { call_id = ""; fields = r })
      ∷ call_rows run_id rs

  abbrev pub degraded_rows : String → Bool → List (Row V Raw Json)
  degraded_rows run_id true = line (some run_id) degraded llm_absent ∷ []
  degraded_rows run_id false = []

module _ {V Raw Json : Type 0} (P : Row V Raw Json → Type 0) where
  activation_rows_of-All :
      ((r : RuleActivationRow V) → P (activation_row r))
      → (run_id symbol : String) (now : ℕ) (acts : List (RuleActivation V))
      → All P (activation_rows_of run_id symbol now acts)
  activation_rows_of-All h run_id symbol now [] = tt
  activation_rows_of-All h run_id symbol now (a ∷ acts) =
      (h _, activation_rows_of-All h run_id symbol now acts)

  pub activation_rows-All :
      ((r : RuleActivationRow V) → P (activation_row r))
      → (run_id : String) (now : ℕ) (assets : List (AssetDoc V Json))
      → All P (activation_rows run_id now assets)
  activation_rows-All h run_id now [] = tt
  activation_rows-All h run_id now (a ∷ rest) =
      All-append P (activation_rows_of run_id a.symbol now a.activated_rules) _
        (activation_rows_of-All h run_id a.symbol now a.activated_rules)
        (activation_rows-All h run_id now rest)

  pub call_rows-All :
      ((run_id : String) (payload : Payload) → P (line (some run_id) provider_call payload))
      → ((r : CallRecordRow V Json) → P (call_row r))
      → (run_id : String) (sink : List (CallRecord Json V)) → All P (call_rows run_id sink)
  call_rows-All h k run_id [] = tt
  call_rows-All h k run_id (r ∷ rs) = (h run_id _, (k _, call_rows-All h k run_id rs))

  pub degraded_rows-All :
      ((run_id : String) (payload : Payload) → P (line (some run_id) degraded payload))
      → (run_id : String) (b : Bool) → All P (degraded_rows run_id b)
  degraded_rows-All h run_id true = (h run_id _, tt)
  degraded_rows-All h run_id false = tt

module _ {V Raw Json Db S : Type 0} (db : Backend V Raw Json Db S) (law : IsBackend db) where
  -- The session `s'` is `s` with these rows, over the same database.
  pub record Wrote (rows : List (Row V Raw Json)) (s s' : S) : Type 0 where
    pub told : shown (db.tables s') ≡ with_rows rows (shown (db.tables s))
    pub same : law.base s' ≡ law.base s

  pub Wrote-none : (s : S) → Wrote [] s s
  Wrote-none s = record { told = refl; same = refl }

  pub Wrote-add : (r : Row V Raw Json) (s : S) → Wrote (shown_row r ∷ []) s (db.add r s)
  Wrote-add r s = record {
    told = ap shown (law.tables-add r s) ∙ shown-with_row r (db.tables s);
    same = law.base-add r s;
  }

  pub Wrote-then :
      (rs qs : List (Row V Raw Json)) (s s' s'' : S)
      → Wrote rs s s'
      → Wrote qs s' s''
      → Wrote (rs ++ qs) s s''
  Wrote-then rs qs s s' s'' a b = record {
    told = b.told ∙ (ap (with_rows qs) a.told ∙ sym (with_rows-append rs qs (shown (db.tables s))));
    same = b.same ∙ a.same;
  }

  module _ {E : Type 0} (outside : Outside V Raw Json E) where
    pub record_event-Wrote :
        (event_type : EventType) (payload : Payload) (run_id : Option String) (s : S) (e : E)
        → Wrote
            (line run_id event_type payload ∷ [])
            s
            (record_event db outside event_type payload run_id (s, e)).0
    unfolding record_event
    record_event-Wrote event_type payload run_id s e = Wrote-add _ s

    add_activations-Wrote :
        (run_id symbol : String) (now : ℕ) (acts : List (RuleActivation V)) (s : S)
        → Wrote
            (activation_rows_of run_id symbol now acts)
            s
            (add_activations db outside run_id symbol now acts s)
    unfolding add_activations
    add_activations-Wrote run_id symbol now [] s = Wrote-none s
    add_activations-Wrote run_id symbol now (a ∷ acts) s =
        Wrote-then (_ ∷ []) _ s _ _ (Wrote-add _ s) (add_activations-Wrote run_id symbol now acts _)

    pub add_for_run-Wrote :
        (run_id : String) (now : ℕ) (assets : List (AssetDoc V Json)) (s : S)
        → Wrote (activation_rows run_id now assets) s (add_for_run db outside run_id now assets s)
    unfolding add_for_run
    add_for_run-Wrote run_id now [] s = Wrote-none s
    add_for_run-Wrote run_id now (a ∷ rest) s =
        Wrote-then (activation_rows_of run_id a.symbol now a.activated_rules) _ s _ _
          (add_activations-Wrote run_id a.symbol now a.activated_rules s)
          (add_for_run-Wrote run_id now rest _)

    pub add_calls-Wrote :
        (run_id : String) (sink : List (CallRecord Json V)) (s : S) (e : E)
        → Wrote (call_rows run_id sink) s (add_calls db outside run_id sink (s, e)).0
    unfolding add_calls
    add_calls-Wrote run_id [] s e = Wrote-none s
    add_calls-Wrote run_id (r ∷ rs) s e =
        let logged =
          record_event db outside provider_call (called r.provider r.outcome) (some run_id)
            (s, e) in
        let named = outside.ulid logged.1 in
        Wrote-then (_ ∷ []) _ s _ _
          (record_event-Wrote provider_call (called r.provider r.outcome) (some run_id) s e)
          (Wrote-then (_ ∷ []) _ logged.0 _ _
            (Wrote-add (call_row (record { call_id = named.0; fields = r })) logged.0)
            (add_calls-Wrote run_id rs _ named.1))

    pub note_degraded-Wrote :
        (b : Bool) (run_id : String) (s : S) (e : E)
        → Wrote (degraded_rows run_id b) s (note_degraded db outside b run_id (s, e)).0
    note_degraded-Wrote true run_id s e = record_event-Wrote degraded llm_absent (some run_id) s e
    note_degraded-Wrote false run_id s e = Wrote-none s
