-- ===== src/Resume/History.antt =====
-- Any sequence of runs of a DAG, with runs of other DAGs between them: orchestration/operators/init_operator.py
-- and metric_operator.py on one table of checkpoints. Two runs of the same DAG do not overlap.
use batch_ingestion_service.Prelude.{
  String, ◌≡◌, ap, ◌∙◌, sym, true, false, Option, some, List, [], ◌∷◌, ◌==◌, is_empty, arith,
}
use batch_ingestion_service.Py.Exc.{Exc, Result, ok, err, ok-injective}
use batch_ingestion_service.Py.Value.{Value, Dict, dict, truthy, lookup}
use batch_ingestion_service.Py.Value.Laws.{lookup-insert}
use batch_ingestion_service.Checkpoint.{Checkpoint, stored_text}
use batch_ingestion_service.Checkpoint.Laws.{IsStorable}
use batch_ingestion_service.Context.{RunContext, to_dict}
use batch_ingestion_service.Init.{Surroundings, parse_row, fetch_checkpoint_from}
use batch_ingestion_service.Metric.Adapter.{Formats, Clients}
use batch_ingestion_service.Metric.Operator.{World, execute}
use batch_ingestion_service.Metric.Operator.Event.{MetricPushOperator, MetricRun, pull}
use batch_ingestion_service.Metric.Operator.Build.{Secrets}
use batch_ingestion_service.Metric.Operator.Laws.{table_after, checkpoint_of, execute_checkpoints}
use batch_ingestion_service.Resume.{fetch_of_row, next_run_starts_at_checkpoint_to}

-- the bounds of a run that succeeded
pub record Window : Type 0 where
  pub from : Option Checkpoint
  pub to : Checkpoint

-- where the run after the windows starts; the latest window stands first
abbrev pub next_from : Option Checkpoint → List Window → Option Checkpoint
next_from first [] = first
next_from first (w ∷ ws) = some w.to

-- Each window starts where the one before it ends, and the first one at `first`.
abbrev pub Joined : Option Checkpoint → List Window → Type 0
Joined first [] = Unit
Joined first (w ∷ ws) = (w.from ≡ next_from first ws) × Joined first ws

-- the row of another DAG stays
lookup-table_after :
    (op : MetricPushOperator) (run : MetricRun) (v : Value) (table : Dict Value) (dag_id : String)
    → run.dag_id == dag_id ≡ false
    → lookup dag_id (table_after (ok tt) op run v table) ≡ lookup dag_id table
lookup-table_after op run v table dag_id other =
    ground (arith, lookup-insert run.dag_id dag_id v table)

module _ {W K C : Type 0} (f : Formats) (clients : Clients W K) (secrets : Secrets)
    (dag_id conn_id : String) (around : Dict Value → Surroundings C) where
  -- where the init task of the DAG starts when the table of checkpoints is `table`
  abbrev pub start_at : Dict Value → Result (Option Checkpoint)
  start_at table = fetch_checkpoint_from (around table) dag_id conn_id

  -- One run, from a state of the queues and the table to another. A run that succeeds with an upper
  -- bound has its window; any other leaves none.
  pub data Run (s : World W) : List Window → World W → Type 0 where
    -- the init or the Spark task raised, so that the metric task does not run
    stopped : (t : World W) → t.checkpoints ≡ s.checkpoints → Run s [] t
    -- the metric task raised
    refused :
        (op : MetricPushOperator) (run : MetricRun) (e : Exc)
        → (execute f clients secrets op run s).0 ≡ err e
        → Run s [] (execute f clients secrets op run s).1
    -- the metric task returned, and found no checkpoint
    unbounded :
        (op : MetricPushOperator) (run : MetricRun)
        → (execute f clients secrets op run s).0 ≡ ok tt
        → truthy (checkpoint_of (pull f.repr run.run_context)) ≡ false
        → Run s [] (execute f clients secrets op run s).1
    -- the metric task of another DAG returned
    elsewhere :
        (op : MetricPushOperator) (run : MetricRun)
        → (execute f clients secrets op run s).0 ≡ ok tt
        → run.dag_id == dag_id ≡ false
        → Run s [] (execute f clients secrets op run s).1
    -- the metric task of the DAG returned, with the context that its init task pushed
    finished :
        (op : MetricPushOperator) (run : MetricRun) (c : RunContext) (k : Checkpoint)
        → run.dag_id ≡ dag_id
        → run.run_context ≡ dict (to_dict c)
        → start_at s.checkpoints ≡ ok c.checkpoint_from
        → c.checkpoint_to ≡ some k
        → IsStorable k
        → is_empty (stored_text k) ≡ false
        → truthy op.checkpoint_conn_id ≡ true
        → (execute f clients secrets op run s).0 ≡ ok tt
        → Run s
            (record { from = c.checkpoint_from; to = k } ∷ [])
            (execute f clients secrets op run s).1

  -- Runs one after another, with the windows of those that succeeded.
  pub data History (s : World W) : List Window → World W → Type 0 where
    begin : History s [] s
    idle : {ws : List Window} {t u : World W} → History s ws t → Run t [] u → History s ws u
    success :
        {ws : List Window} {w : Window} {t u : World W}
        → History s ws t
        → Run t (w ∷ []) u
        → History s (w ∷ ws) u

  -- The table is what the init task reads.
  pub record ReadsTable : Type 0 where
    pub row :
        (table : Dict Value)
        → (around table).checkpoint_row conn_id dag_id ≡ ok (lookup dag_id table)
    pub shown : (table : Dict Value) → (around table).repr ≡ f.repr

  module _ (reads : ReadsTable) where
    start_at-row : (table : Dict Value) → start_at table ≡ parse_row f.repr (lookup dag_id table)
    start_at-row table =
        fetch_of_row (around table) dag_id conn_id (lookup dag_id table) (reads.row table)
        ∙ ap (λ r. parse_row r (lookup dag_id table)) (reads.shown table)

    -- the row of the DAG decides where it starts
    same_start : (t u : Dict Value) → lookup dag_id u ≡ lookup dag_id t → start_at u ≡ start_at t
    same_start t u h = start_at-row u ∙ ap (parse_row f.repr) h ∙ sym (start_at-row t)

    -- a run without a window leaves the row of the DAG as it was
    idle_row :
        (s t : World W) → Run s [] t → lookup dag_id t.checkpoints ≡ lookup dag_id s.checkpoints
    idle_row s t (stopped _ h) = ap (lookup dag_id) h
    idle_row s t (refused op run e failed) =
        ap (lookup dag_id) (rw failed at (execute_checkpoints f clients secrets op run s))
    idle_row s t (unbounded op run done nothing) =
        ap (lookup dag_id) (rw (done, nothing) at (execute_checkpoints f clients secrets op run s))
    idle_row s t (elsewhere op run done other) =
        let v = checkpoint_of (pull f.repr run.run_context) in
        ap (lookup dag_id) (rw done at (execute_checkpoints f clients secrets op run s))
        ∙ lookup-table_after op run v s.checkpoints dag_id other

    row_of :
        (d : String) (u : Dict Value)
        → d ≡ dag_id
        → (around u).checkpoint_row conn_id d ≡ ok (lookup d u)
    row_of d u e = rw e (reads.row u)

    start_of :
        (d : String) (u : Dict Value) {r : Result (Option Checkpoint)}
        → d ≡ dag_id
        → fetch_checkpoint_from (around u) d conn_id ≡ r
        → start_at u ≡ r
    start_of d u e h = rw (← e) h

    -- a run with a window starts where the table says, and the next one starts where it ends
    success_start :
        (s t : World W) (w : Window)
        → Run s (w ∷ []) t
        → (start_at s.checkpoints ≡ ok w.from) × (start_at t.checkpoints ≡ ok (some w.to))
    success_start s t w (finished op run c k same pushed from upper storable shown conn done) =
        let u = (execute f clients secrets op run s).1.checkpoints in
        (
          from,
          start_of run.dag_id u same (
              next_run_starts_at_checkpoint_to f clients secrets (around u) op run s c k conn_id
                pushed upper storable shown conn done (row_of run.dag_id u same)),
        )

    -- When the init task reads the table that the metric task writes, and the upper checkpoint of a
    -- run that has one can be stored, then however the runs of a DAG succeed or fail, and whatever
    -- other DAGs do between them, the windows of its successful runs join: each starts at the
    -- checkpoint up to which the one before it read, the first one where the table said at the
    -- beginning, and the next run starts where the last one ends.
    pub History-Joined :
        (s t : World W) (ws : List Window) (first : Option Checkpoint)
        → start_at s.checkpoints ≡ ok first
        → History s ws t
        → Joined first ws × (start_at t.checkpoints ≡ ok (next_from first ws))
    History-Joined s t [] first at_first begin = (tt, at_first)
    History-Joined s t ws first at_first (idle {t = u} past run) =
        let (joined, start) = History-Joined s u ws first at_first past in
        (joined, same_start u.checkpoints t.checkpoints (idle_row u t run) ∙ start)
    History-Joined s t (w ∷ past_ws) first at_first (success {t = u} past run) =
        let (joined, start) = History-Joined s u past_ws first at_first past in
        let (from, to) = success_start u t w run in ((ok-injective (sym from ∙ start), joined), to)
