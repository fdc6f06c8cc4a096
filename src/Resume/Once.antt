-- ===== src/Resume/Once.antt =====
-- Which of the runs of a DAG read a row: the windows of orchestration/operators/init_operator.py and
-- metric_operator.py, as the condition of `_build_read_query` in adapters/source/sql_adapter.py takes
-- them.
use batch_ingestion_service.Prelude.{
  refl, String, map, is_empty, ap, ◌==◌, ◌++◌, if◌then◌else◌, ◌≡◌, ◌∙◌, sym, true, false, some,
  List, [], ◌∷◌,
}
use batch_ingestion_service.Py.Exc.{ok, ok-injective}
use batch_ingestion_service.Py.Value.{Value, str_val, Dict, truthy}
use batch_ingestion_service.Config.Source.{TableSourceConfig}
use batch_ingestion_service.Checkpoint.{Checkpoint}
use batch_ingestion_service.Init.{Surroundings}
use batch_ingestion_service.Init.Dynamo.{greater}
use batch_ingestion_service.Init.Dynamo.Order.{AtMost}
use batch_ingestion_service.Metric.Adapter.{Formats, Clients}
use batch_ingestion_service.Metric.Operator.{World}
use batch_ingestion_service.Metric.Operator.Build.{Secrets}
use batch_ingestion_service.Resume.History.{
  Window, start_at, Run, stopped, refused, unbounded, elsewhere, History, begin, idle, success,
  ReadsTable, History-Joined,
}
use batch_ingestion_service.Resume.Rows.{
  Rows, everything, rows_of, ExactlyOne, Rises, IsLiteral, AreQueried, are_queried,
}
use batch_ingestion_service.Resume.Windows.{one_of-Joined}

module _ {W K C : Type 0} (f : Formats) (clients : Clients W K) (secrets : Secrets)
    (dag_id conn_id : String) (around : Dict Value → Surroundings C) where
  -- what the Spark task of a successful run of the DAG takes when the run has no window: without an upper
  -- bound its query has no condition
  abbrev pub taken_by :
      {s t : World W} {ws : List Window}
      → Run f clients secrets dag_id conn_id around s ws t
      → List Rows
  taken_by (unbounded op run done none_found) = if run.dag_id == dag_id then everything ∷ [] else []
  taken_by _ = []

  -- the reads of the successful runs of the DAG, the last one first
  abbrev pub taken :
      {s t : World W} {ws : List Window}
      → History f clients secrets dag_id conn_id around s ws t
      → List Rows
  taken begin = []
  taken (idle past run) = taken_by run ++ taken past
  taken (success {w = w} past run) = rows_of w ∷ taken past

  -- no successful run of the DAG lacks an upper bound
  abbrev IsBoundedRun :
      {s t : World W} {ws : List Window}
      → Run f clients secrets dag_id conn_id around s ws t
      → Type 0
  IsBoundedRun (unbounded op run done none_found) = run.dag_id == dag_id ≡ false
  IsBoundedRun _ = Unit

  abbrev pub IsBounded :
      {s t : World W} {ws : List Window}
      → History f clients secrets dag_id conn_id around s ws t
      → Type 0
  IsBounded begin = Unit
  IsBounded (idle past run) = IsBounded past × IsBoundedRun run
  IsBounded (success past run) = IsBounded past

  taken_by_idle :
      (s t : World W) (run : Run f clients secrets dag_id conn_id around s [] t)
      → IsBoundedRun run
      → taken_by run ≡ []
  taken_by_idle s t (stopped _ h) b = refl
  taken_by_idle s t (refused op run e failed) b = refl
  taken_by_idle s t (unbounded op run done none_found) b = rw b refl
  taken_by_idle s t (elsewhere op run done other) b = refl

  taken_windows :
      (s t : World W) (ws : List Window)
      (runs : History f clients secrets dag_id conn_id around s ws t)
      → IsBounded runs
      → taken runs ≡ map rows_of ws
  taken_windows s t [] begin b = refl
  taken_windows s t ws (idle {t = u} past run) (b, r) =
      rw (taken_by_idle u t run r) (taken_windows s u ws past b)
  taken_windows s t (w ∷ ws) (success {t = u} past run) b =
      ap (λ qs. rows_of w ∷ qs) (taken_windows s u ws past b)

  module _ (reads : ReadsTable f clients secrets dag_id conn_id around) where
    -- When the init task reads the table that the metric task writes, and every successful run of a DAG
    -- of a SQL table has an upper bound, exactly one of the successful runs takes a row with an integer or
    -- a time in the checkpoint column: the row's checkpoint lies above the start of the first run and not
    -- above the start of the next one, it can be compared with the lower bounds, and no run's upper
    -- bound lies below its lower one. What a run takes is what its query says: `_build_read_query` of
    -- the run's two checkpoints is the query with the bounds of its window, when the configuration has
    -- no query of its own. Runs that failed, which may have copied rows as well, and those of other
    -- DAGs are in between.
    pub History-ExactlyOne :
        (repr : Value → String) (c : TableSourceConfig) (schema name column : String)
        (s t : World W) (ws : List Window) (first end v : Checkpoint)
        (runs : History f clients secrets dag_id conn_id around s ws t)
        → truthy c.query ≡ false
        → c.schema ≡ str_val schema
        → c.table ≡ str_val name
        → c.checkpoint_column ≡ str_val column
        → is_empty column ≡ false
        → start_at f clients secrets dag_id conn_id around s.checkpoints ≡ ok (some first)
        → start_at f clients secrets dag_id conn_id around t.checkpoints ≡ ok (some end)
        → IsBounded runs
        → IsLiteral v
        → Rises v ws
        → greater v first ≡ ok true
        → AtMost v end
        → ExactlyOne v (taken runs) × AreQueried repr c schema name column ws
    History-ExactlyOne repr c schema name column s t ws first end v runs no_query e1 e2 e3 named
          at_first at_end bounded is_literal rises above most =
        let (joined, next) =
          History-Joined f clients secrets dag_id conn_id around reads s t ws (some first) at_first
            runs in
        (
          rw (taken_windows s t ws runs bounded) (
              one_of-Joined first v end ws (ok-injective (sym next ∙ at_end)) joined rises above
                most),
          are_queried repr c schema name column ws no_query e1 e2 e3 named,
        )
