-- ===== src/Resume.antt =====
-- From one run to the next: the checkpoint that orchestration/operators/metric_operator.py saves is
-- the one where orchestration/operators/init_operator.py starts.
pub mod History
pub mod Rows
pub mod Windows
pub mod Once
use batch_ingestion_service.Prelude.{
  refl, String, ◌≡◌, ap, ◌∙◌, true, false, some, arith, is_empty, eq_refl, sym, Option,
}
use batch_ingestion_service.Py.Exc.{Exc, err, ok}
use batch_ingestion_service.Py.Value.{Value, str_val, Dict, dict, truthy, lookup, str_of}
use batch_ingestion_service.Py.Value.Laws.{lookup-insert}
use batch_ingestion_service.Checkpoint.{Checkpoint, stored_text, parse_checkpoint}
use batch_ingestion_service.Checkpoint.Laws.{IsStorable, parse_text-stored_text}
use batch_ingestion_service.Context.{RunContext, to_dict}
use batch_ingestion_service.Init.{Surroundings, parse_row, fetch_checkpoint_from}
use batch_ingestion_service.Metric.Adapter.{Formats, Clients}
use batch_ingestion_service.Metric.Operator.{World, execute}
use batch_ingestion_service.Metric.Operator.Event.{MetricPushOperator, MetricRun, pull}
use batch_ingestion_service.Metric.Operator.Build.{Secrets}
use batch_ingestion_service.Metric.Operator.Laws.{
  table_after, checkpoint_of, execute_checkpoints, pull-to_dict,
}

-- the row that a run leaves for its DAG
table_after-lookup :
    (op : MetricPushOperator) (run : MetricRun) (s : String) (table : Dict Value)
    → is_empty s ≡ false
    → truthy op.checkpoint_conn_id ≡ true
    → lookup run.dag_id (table_after (ok tt) op run (str_val s) table) ≡ some (str_val s)
unfolding truthy
table_after-lookup op run s table h k =
    ground (arith, lookup-insert run.dag_id run.dag_id (str_val s) table, eq_refl run.dag_id)

fetch-stored_text :
    {C : Type 0} (w : Surroundings C) (dag_id conn_id : String) (k : Checkpoint)
    → IsStorable k
    → w.checkpoint_row conn_id dag_id ≡ ok (some (str_val (stored_text k)))
    → fetch_checkpoint_from w dag_id conn_id ≡ ok (some k)
unfolding fetch_checkpoint_from parse_checkpoint str_of
fetch-stored_text w dag_id conn_id k h row =
    rw (row, fetch_checkpoint_from) (ap (λ c. ok (some c)) (parse_text-stored_text k h))

module _ {W K C : Type 0} (f : Formats) (clients : Clients W K) (secrets : Secrets)
    (w : Surroundings C) where
  -- After a metric task that returned, the init task of the DAG's next run starts at the upper bound
  -- of this run: the context came from the init task and has an upper bound, whose text is not empty
  -- and is read as itself; a connection is set; and the next task reads the table that this one left.
  pub next_run_starts_at_checkpoint_to :
      (op : MetricPushOperator) (run : MetricRun) (s : World W) (c : RunContext) (k : Checkpoint)
      (conn_id : String)
      → run.run_context ≡ dict (to_dict c)
      → c.checkpoint_to ≡ some k
      → IsStorable k
      → is_empty (stored_text k) ≡ false
      → truthy op.checkpoint_conn_id ≡ true
      → (execute f clients secrets op run s).0 ≡ ok tt
      → w.checkpoint_row conn_id run.dag_id
        ≡ ok (lookup run.dag_id (execute f clients secrets op run s).1.checkpoints)
      → fetch_checkpoint_from w run.dag_id conn_id ≡ ok (some k)
  next_run_starts_at_checkpoint_to op run s c k conn_id pulled upper storable shown conn done row =
      let found : checkpoint_of (pull f.repr run.run_context) ≡ str_val (stored_text k) =
        rw pulled (pull-to_dict f.repr c k upper shown) in
      let table : (execute f clients secrets op run s).1.checkpoints
          ≡ table_after (ok tt) op run (str_val (stored_text k)) s.checkpoints =
        (rw (done, found) at (execute_checkpoints f clients secrets op run s)) in
      let kept = table_after-lookup op run (stored_text k) s.checkpoints shown conn in
      fetch-stored_text w run.dag_id conn_id k storable
        (row ∙ ap (λ t. ok (lookup run.dag_id t)) table ∙ ap ok kept)

pub fetch_of_row :
    {C : Type 0} (w : Surroundings C) (dag_id conn_id : String) (row : Option Value)
    → w.checkpoint_row conn_id dag_id ≡ ok row
    → fetch_checkpoint_from w dag_id conn_id ≡ parse_row w.repr row
unfolding fetch_checkpoint_from
fetch_of_row w dag_id conn_id row h = rw (h, fetch_checkpoint_from) refl

module _ {W K C : Type 0} (f : Formats) (clients : Clients W K) (secrets : Secrets)
    (w w' : Surroundings C) where
  -- After a metric task that raised, the init task of the DAG's next run starts where it would have
  -- started before it, so a failed run loses no window: `w` reads the table from before the task, and
  -- `w'` the one that it left.
  pub failed_run_starts_again :
      (op : MetricPushOperator) (run : MetricRun) (s : World W) (e : Exc) (conn_id : String)
      → (execute f clients secrets op run s).0 ≡ err e
      → w'.repr ≡ w.repr
      → w.checkpoint_row conn_id run.dag_id ≡ ok (lookup run.dag_id s.checkpoints)
      → w'.checkpoint_row conn_id run.dag_id
        ≡ ok (lookup run.dag_id (execute f clients secrets op run s).1.checkpoints)
      → fetch_checkpoint_from w' run.dag_id conn_id ≡ fetch_checkpoint_from w run.dag_id conn_id
  failed_run_starts_again op run s e conn_id failed shown before after =
      let kept : (execute f clients secrets op run s).1.checkpoints ≡ s.checkpoints =
        (rw failed at (execute_checkpoints f clients secrets op run s)) in
      fetch_of_row w' run.dag_id conn_id (lookup run.dag_id s.checkpoints)
        (after ∙ ap (λ t. ok (lookup run.dag_id t)) kept)
      ∙ ap (λ r. parse_row r (lookup run.dag_id s.checkpoints)) shown
      ∙ sym (fetch_of_row w run.dag_id conn_id (lookup run.dag_id s.checkpoints) before)
