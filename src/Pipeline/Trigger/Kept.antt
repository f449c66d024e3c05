-- ===== src/Pipeline/Trigger/Kept.antt =====
-- Calls of src/market_state_engine/pipeline that leave the macro events and the triggered ones as
-- they are: all that a run of the scheduler writes, and all lines but that of a trigger.
use tread_agent.Base.{
  ℕ, ◌≡◌, refl, ◌∙◌, ap, sym, String, Bool, true, false, List, [], ◌∷◌, ◌++◌, map, append-nil,
  append_assoc, All, All-append, Bool-cases, inl, inr,
}
use tread_agent.Reasoning.Gateway.Attempt.{CallRecord}
use tread_agent.Pipeline.Store.{
  EventLogRow, is_triggered, triggered_rows, Row, run_row, output_row, input_row, call_row,
  activation_row, log_row, macro_row, with_row, with_rows, Tables, IngestBundle,
}
use tread_agent.Pipeline.Runner.{Outside, RunService, RunContext, PipelineResult, start_event}
use tread_agent.Pipeline.Runner.Rows.{
  shown, untimed, activation_rows, call_rows, degraded_rows, activation_rows-All, call_rows-All,
  degraded_rows-All,
}
use tread_agent.Pipeline.Runner.Persist.{story}
use tread_agent.Pipeline.Pending.{event_ids_of, all_event_ids, pending_of}

-- The ids of the events that have been triggered.
unfoldable pub taken_in : List EventLogRow → List String
unfolding triggered_rows
taken_in rows = all_event_ids (triggered_rows rows)

pub taken_in-quiet :
    (rows : List EventLogRow) (r : EventLogRow)
    → is_triggered r.event_type ≡ false
    → taken_in (rows ++ r ∷ []) ≡ taken_in rows
unfolding taken_in triggered_rows
taken_in-quiet [] r h = rw h refl
taken_in-quiet (q ∷ rows) r h = elim (Bool-cases (is_triggered q.event_type)) [
  | inl e ↦ rw e (ap (λ ids. event_ids_of q.payload ++ ids) (taken_in-quiet rows r h))
  | inr e ↦ rw e (taken_in-quiet rows r h)
]

pub taken_in-append :
    (rows : List EventLogRow) (r : EventLogRow)
    → is_triggered r.event_type ≡ true
    → taken_in (rows ++ r ∷ []) ≡ taken_in rows ++ event_ids_of r.payload
unfolding taken_in triggered_rows
taken_in-append [] r h = rw h (append-nil (event_ids_of r.payload))
taken_in-append (q ∷ rows) r h = elim (Bool-cases (is_triggered q.event_type)) [
  | inl e ↦ rw e (
      ap (λ ids. event_ids_of q.payload ++ ids) (taken_in-append rows r h)
      ∙ sym (append_assoc (event_ids_of q.payload) (taken_in rows) (event_ids_of r.payload)))
  | inr e ↦ rw e (taken_in-append rows r h)
]

pub taken_in-untimed : (rows : List EventLogRow) → taken_in (map untimed rows) ≡ taken_in rows
unfolding taken_in triggered_rows
taken_in-untimed [] = refl
taken_in-untimed (r ∷ rows) = elim (Bool-cases (is_triggered r.event_type)) [
  | inl e ↦ rw e (ap (λ ids. event_ids_of r.payload ++ ids) (taken_in-untimed rows))
  | inr e ↦ rw e (taken_in-untimed rows)
]

module _ {V Raw Json : Type 0} where
  -- A row that is neither a macro event nor the line of a trigger.
  abbrev pub Quiet : Row V Raw Json → Type 0
  Quiet (log_row r) = is_triggered r.event_type ≡ false
  Quiet (macro_row r) = false ≡ true
  Quiet _ = Unit

  -- The same macro events, of which the same have been triggered.
  pub record Kept (t t' : Tables V Raw Json) : Type 0 where
    pub events : t'.macro_events ≡ t.macro_events
    pub taken : taken_in t'.event_log ≡ taken_in t.event_log

  pub Kept-refl : (t : Tables V Raw Json) → Kept t t
  Kept-refl t = record { events = refl; taken = refl }

  pub Kept-then : (t t' t'' : Tables V Raw Json) → Kept t t' → Kept t' t'' → Kept t t''
  Kept-then t t' t'' a b = record { events = b.events ∙ a.events; taken = b.taken ∙ a.taken }

  pub Kept-pending : (t t' : Tables V Raw Json) → Kept t t' → pending_of t' ≡ pending_of t
  unfolding pending_of taken_in
  Kept-pending t t' k = rw (k.events, k.taken) refl

  with_row-Kept : (r : Row V Raw Json) (t : Tables V Raw Json) → Quiet r → Kept t (with_row r t)
  with_row-Kept (log_row r) t h = record { events = refl; taken = taken_in-quiet t.event_log r h }
  with_row-Kept (macro_row r) t h = cc
  with_row-Kept (run_row r) t h = record { events = refl; taken = refl }
  with_row-Kept (output_row r) t h = record { events = refl; taken = refl }
  with_row-Kept (input_row r) t h = record { events = refl; taken = refl }
  with_row-Kept (call_row r) t h = record { events = refl; taken = refl }
  with_row-Kept (activation_row r) t h = record { events = refl; taken = refl }

  with_rows-Kept :
      (rs : List (Row V Raw Json)) (t : Tables V Raw Json) → All Quiet rs → Kept t (with_rows rs t)
  with_rows-Kept [] t h = Kept-refl t
  with_rows-Kept (r ∷ rs) t h =
      Kept-then t (with_row r t) _ (with_row-Kept r t h.0) (with_rows-Kept rs (with_row r t) h.1)

  -- The view without times hides neither.
  pub shown-Kept :
      (rs : List (Row V Raw Json)) (t t' : Tables V Raw Json)
      → shown t' ≡ with_rows rs (shown t)
      → All Quiet rs
      → Kept t t'
  shown-Kept rs t t' h q =
      let k = with_rows-Kept rs (shown t) q in
      record {
        events = ap (λ (u : Tables V Raw Json). u.macro_events) h ∙ k.events;
        taken =
            sym (taken_in-untimed t'.event_log)
            ∙ (ap (λ (u : Tables V Raw Json). taken_in u.event_log) h
                ∙ (k.taken ∙ taken_in-untimed t.event_log));
      }

  pub story-Quiet :
      {E : Type 0} (outside : Outside V Raw Json E) (service : RunService) (ctx : RunContext Json)
      (ingest : IngestBundle V Raw) (now : ℕ) (result : PipelineResult V Json)
      (sink : List (CallRecord Json V))
      → All Quiet (story outside service ctx ingest now result sink)
  story-Quiet outside service ctx ingest now result sink = (
    start service.replaying,
    (
      tt,
      (
        tt,
        (
          tt,
          All-append Quiet (activation_rows ctx.run_id now result.run.assets) _
              (activation_rows-All Quiet (λ r. tt) ctx.run_id now result.run.assets)
              (All-append Quiet (call_rows ctx.run_id sink) _
                (call_rows-All Quiet (λ k p. refl) (λ r. tt) ctx.run_id sink)
                (All-append Quiet (degraded_rows ctx.run_id result.is_degraded) _
                  (degraded_rows-All Quiet (λ k p. refl) ctx.run_id result.is_degraded)
                  (refl, tt))),
        ),
      ),
    ),
  )
    where
      start : (b : Bool) → is_triggered (start_event b) ≡ false
      start true = refl
      start false = refl
