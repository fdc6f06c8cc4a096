-- ===== src/Dag/Template.antt =====
-- orchestration/template_dags/file_landing_dag.py: the DAG that a deployment copies. Its `email_on_failure`
-- is Airflow's own.
use batch_ingestion_service.Prelude.{String, ◌≡◌, ◌∙◌, refl, arith, [], ◌∷◌}
use batch_ingestion_service.Prelude.Int.{pos}
use batch_ingestion_service.Py.Exc.{Result, ok, err}
use batch_ingestion_service.Py.Value.{
  Value, none_val, int_val, str_val, list_val, nil, cons, Dict, dict, truthy,
}
use batch_ingestion_service.Config.Kinds.{MetricAdapterType}
use batch_ingestion_service.Metric.Adapter.{Formats, Clients}
use batch_ingestion_service.Metric.Operator.{World, execute}
use batch_ingestion_service.Metric.Operator.Event.{MetricPushOperator, MetricRun, pull}
use batch_ingestion_service.Metric.Operator.Build.{Secrets}
use batch_ingestion_service.Metric.Operator.Laws.{table_after, checkpoint_of, execute_checkpoints}
use batch_ingestion_service.Dag.{Dag, init_of}

abbrev template_metric_config : Dict Value
template_metric_config =
    ("credential_ref", str_val "data-platform/redis")
    ∷ ("host", str_val "redis.infra.svc.cluster.local")
    ∷ ("port", int_val (pos 6379))
    ∷ ("stream_name", str_val "pipeline-metrics")
    ∷ ("max_len", int_val (pos 5000))
    ∷ ("message_attributes", dict (("service", str_val "file-landing") ∷ []))
    ∷ []

abbrev template_spark_config : Dict Value
template_spark_config =
    ("spark.sql.shuffle.partitions", str_val "200")
    ∷ ("spark.executor.memory", str_val "4g")
    ∷ ("spark.driver.memory", str_val "2g")
    ∷ []

-- the DAG, of the path of its configuration
unfoldable pub template_dag : String → Dag
unfolding init_of
template_dag config_path = record {
  dag_id = "file_landing_pipeline";
  description = str_val "Batch ingestion — reads from source, lands to storage";
  schedule_interval = str_val "@daily";
  owner = str_val "data-platform";
  retries = int_val (pos 1);
  retry_delay_minutes = int_val (pos 5);
  tags = list_val (cons (str_val "ingestion") (cons (str_val "file-landing") nil));
  init = init_of config_path;
  spark_config = dict template_spark_config;
  metric_type = MetricAdapterType.onprem_queue;
  metric_config = dict template_metric_config;
}

-- its last task, which names neither a Spark task nor a connection
unfoldable pub template_metric_push : MetricPushOperator
template_metric_push = record {
  metric_type = MetricAdapterType.onprem_queue;
  metric_config_raw = dict template_metric_config;
  status = str_val "success";
  extra_payload = ("stage", str_val "complete") ∷ [];
  checkpoint_conn_id = none_val;
  spark_task_id = none_val;
  openbao_conn_id = "openbao_default";
}

module _ {W K : Type 0} (f : Formats) (clients : Clients W K) (secrets : Secrets) where
  unsaved :
      (r : Result (Unit {0})) (run : MetricRun) (v : Value) (table : Dict Value)
      → table_after r template_metric_push run v table ≡ table
  unfolding template_metric_push truthy
  unsaved (ok _) run v table = ground arith
  unsaved (err e) run v table = refl

  -- No run of the template's DAG saves a checkpoint, whatever its context has: its last task names no
  -- connection, though its first one reads the table.
  pub execute_saves_nothing :
      (run : MetricRun) (s : World W)
      → (execute f clients secrets template_metric_push run s).1.checkpoints ≡ s.checkpoints
  execute_saves_nothing run s =
      execute_checkpoints f clients secrets template_metric_push run s
      ∙ unsaved _ run (checkpoint_of (pull f.repr run.run_context)) s.checkpoints
