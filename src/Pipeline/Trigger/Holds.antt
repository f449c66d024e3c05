-- ===== src/Pipeline/Trigger/Holds.antt =====
-- Conditions that hold after the calls of src/market_state_engine/pipeline/event_trigger.py, one for
-- a call that returns and one for a call that raises.
use tread_agent.Base.{String, ◌≡◌, refl, ◌∙◌, ap, inl, inr, Option, List, [], ◌∷◌}
use tread_agent.Pipeline.Store.{
  EventType, Payload, Row, Tables, with_rows, Ended, returned, raised, Backend, IsBackend, contents,
  in_session, Ended-cases,
}
use tread_agent.Pipeline.Runner.{Outside, record_event}
use tread_agent.Pipeline.Runner.Rows.{shown, line, Wrote, Wrote-none, record_event-Wrote}
use tread_agent.Pipeline.Scheduler.{Node}
use tread_agent.Pipeline.Trigger.{on_db, reading, note}
use tread_agent.Pipeline.Pending.{and_do}

-- `P` of what is returned and of the node, or `I` of the node.
abbrev pub Holds :
    {A Db E : Type 0}
    → (A → Node Db E → Type 0)
    → (Node Db E → Type 0)
    → Ended A × Node Db E
    → Type 0
Holds P I (returned a, node) = P a node
Holds P I (raised x, node) = I node

pub Holds-weaker :
    {A Db E : Type 0} {P Q : A → Node Db E → Type 0} {I J : Node Db E → Type 0}
    (m : Ended A × Node Db E)
    → ((a : A) (n : Node Db E) → P a n → Q a n)
    → ((n : Node Db E) → I n → J n)
    → Holds P I m
    → Holds Q J m
Holds-weaker (returned a, n) f g h = f a n h
Holds-weaker (raised x, n) f g h = g n h

pub Holds-then :
    {A B Db E : Type 0} {P : A → Node Db E → Type 0} (Q : B → Node Db E → Type 0)
    (I : Node Db E → Type 0) (m : Ended A × Node Db E) (k : A → Node Db E → Ended B × Node Db E)
    → Holds P I m
    → ((a : A) (n : Node Db E) → P a n → Holds Q I (k a n))
    → Holds Q I (and_do m k)
Holds-then Q I (returned a, n) k h f = f a n h
Holds-then Q I (raised x, n) k h f = h

module _ {V Raw Json Db S E : Type 0} (db : Backend V Raw Json Db S) (law : IsBackend db) where
  abbrev pub held : Node Db E → Tables V Raw Json
  held node = contents db node.data_base

  -- After a session that wrote `rows` and returns `a`.
  abbrev pub Did : {A : Type 0} → List (Row V Raw Json) → A → Node Db E → A → Node Db E → Type 0
  Did rows a node a' node' = (a' ≡ a) × (shown (held node') ≡ with_rows rows (shown (held node)))

  abbrev pub Undone : Node Db E → Node Db E → Type 0
  Undone node node' = held node' ≡ held node

  pub on_db-Holds :
      {A : Type 0} (body : S × E → Ended A × S × E) (rows : List (Row V Raw Json)) (a : A)
      (node : Node Db E) (s : S) (e : E)
      → body (db.begin node.data_base, node.env) ≡ (returned a, s, e)
      → Wrote db law rows (db.begin node.data_base) s
      → Holds (Did rows a node) (Undone node) (on_db db body node)
  unfolding on_db in_session
  on_db-Holds body rows a node s e ran w = elim (Ended-cases (db.commit s)) [
    | inl (d, h) ↦ rw (ran, h) (refl, ap shown (law.tables-commit s d h) ∙ w.told)
    | inr (x, h) ↦
        rw (ran, h)
          (ap (contents db) (law.rollback-base s ∙ (w.same ∙ law.base-begin node.data_base)))
  ]

  pub reading-Holds :
      {A : Type 0} (f : Tables V Raw Json → A) (node : Node Db E)
      → Holds (Did [] (f (held node)) node) (Undone node) (reading db f node)
  reading-Holds f node =
      on_db-Holds _ [] (f (held node)) node (db.begin node.data_base) node.env refl
        (Wrote-none db law (db.begin node.data_base))

  pub note-Holds :
      (outside : Outside V Raw Json E) (event_type : EventType) (payload : Payload)
      (run_id : Option String) (node : Node Db E)
      → Holds
          (Did (line run_id event_type payload ∷ []) tt node)
          (Undone node)
          (note db outside event_type payload run_id node)
  unfolding note
  note-Holds outside event_type payload run_id node =
      let (s, e) =
        record_event db outside event_type payload run_id (db.begin node.data_base, node.env) in
      on_db-Holds
        (λ w.
          let (s', e') = record_event db outside event_type payload run_id w in
          (returned tt, s', e'))
        _ tt node s e refl
        (record_event-Wrote db law outside event_type payload run_id (db.begin node.data_base)
          node.env)
