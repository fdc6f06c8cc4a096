-- ===== src/Spark.antt =====
-- orchestration/operators/spark_run_operator.py: the task that copies or reads and writes the data.
pub mod Session
pub mod Source
pub mod Laws
pub mod Sinks
pub mod Sources
pub mod Task
pub mod Outcome
use batch_ingestion_service.Prelude.{
  ℕ, String, Option, not, ◌||◌, none, some, [], ◌∷◌, if◌then◌else◌,
}
use batch_ingestion_service.Prelude.Int.{pos}
use batch_ingestion_service.Py.Exc.{Exc, Result, ok, err, raise, value_error}
use batch_ingestion_service.Py.Exec.{Exec, pure, lift, continue, ◌>>=◌, ◌>>◌}
use batch_ingestion_service.Py.Value.{
  Value, str_val, int_val, Dict, truthy, or_else, insert, as_dict, method_dict,
}
use batch_ingestion_service.Config.Kinds.{ReadAdapterType, WriteAdapterType, MetricAdapterType}
use batch_ingestion_service.Config.Source.{SourceConfig, table, path, kafka}
use batch_ingestion_service.Config.Sink.{SinkConfig}
use batch_ingestion_service.Checkpoint.{Checkpoint}
use batch_ingestion_service.Context.{RunContext, from_dict}
use batch_ingestion_service.Write.Path.{build_write_path}
use batch_ingestion_service.Write.Sink.{sink_config_of}
use batch_ingestion_service.Metric.Adapter.{Formats, Clients}
use batch_ingestion_service.Metric.Operator.{push_metric_inline}
use batch_ingestion_service.Metric.Operator.Build.{Secrets}
use Session.{session_config}
use Source.{normalised}

pub record SparkRunOperator : Type 0 where
  pub spark_app_name : Value
  pub spark_config : Dict Value
  pub metric_type : Option MetricAdapterType
  pub metric_config_raw : Value
  pub openbao_conn_id : String

-- what `execute` reads of Airflow's context, the value of the init task among it
pub record SparkRun : Type 0 where
  pub dag_id : String
  pub run_id : String
  pub raw_context : Value

-- a source adapter with what the operator sets on it
pub record SourceAdapter : Type 0 where
  pub read_type : ReadAdapterType
  pub source_config : SourceConfig
  pub credentials : Value
  pub checkpoint_from : Option Checkpoint
  pub checkpoint_to : Option Checkpoint

pub record SinkAdapter : Type 0 where
  pub write_type : WriteAdapterType
  pub sink_config : SinkConfig
  pub credentials : Value

-- What the operator asks of the adapters: a call may change the state `S` of Spark and of the source
-- and sink systems. `D` is the type of data frames.
pub record Adapters (S D : Type 0) : Type 0 where
  pub build_session : Value → Dict Value → Exec S Unit
  pub validate_source : SourceAdapter → Exec S Unit
  pub validate_sink : SinkAdapter → Exec S Unit
  pub copy_from : SinkAdapter → Value → String → Exec S Unit
  pub apply_filters : SourceAdapter → Exec S Unit
  pub read : SourceAdapter → Exec S D
  pub cache : D → Exec S Unit
  pub count : D → Exec S ℕ
  pub write : SinkAdapter → D → Exec S Unit
  pub unpersist : D → Exec S Unit

-- the state outside: Spark and the source and sink, the metric queues, the values that the task pushed
pub record World (S W : Type 0) : Type 0 where
  pub cluster : S
  pub queues : W
  pub xcom : Dict Value

config_extra : SourceConfig → Value
config_extra (table c) = c.extra
config_extra (path c) = c.extra
config_extra (kafka c) = c.extra

-- step 1
unfoldable pub pulled : (Value → String) → Value → Result RunContext
unfolding truthy as_dict
pulled repr raw_context =
    if truthy raw_context
    then read_dict (as_dict raw_context)
    else raise value_error "No XCom value"
  where
    read_dict : Result (Dict Value) → Result RunContext
    read_dict (ok raw) = from_dict repr raw
    read_dict (err e) = err e

module _ {S D W K : Type 0} (repr : Value → String) (adapters : Adapters S D) (f : Formats)
    (clients : Clients W K) (secrets : Secrets) where
  abbrev on_cluster : {A : Type 0} → Exec S A → Exec (World S W) A
  on_cluster m s = let r = m s.cluster in (r.0, record s { cluster = r.1 })

  abbrev push_count : ℕ → Exec (World S W) Unit
  push_count n s = (ok tt, record s { xcom = insert "record_count" (int_val (pos n)) s.xcom })

  count_frame : D → Exec (World S W) Unit
  unfolding insert
  count_frame df = do
    on_cluster (adapters.cache df)
    n ← on_cluster (adapters.count df)
    push_count n

  -- step 8b
  counted : Value → D → Exec (World S W) Unit
  unfolding truthy count_frame
  counted count_records df = if truthy count_records then count_frame df else pure tt

  released : Value → D → Exec (World S W) Unit
  unfolding truthy
  released count_records df =
      if truthy count_records then on_cluster (adapters.unpersist df) else pure tt

  -- step 7 of a file source
  unfoldable pub copy_file : Value → SinkAdapter → Exec (World S W) Unit
  unfolding build_write_path
  copy_file source_path sink = do
    dest_path ← lift (build_write_path sink.sink_config)
    on_cluster (adapters.copy_from sink source_path dest_path)

  -- steps 7 to 9 of any other source
  unfoldable pub read_and_write : Value → SourceAdapter → SinkAdapter → Exec (World S W) Unit
  unfolding counted released build_write_path
  read_and_write count_records source sink = do
    on_cluster (adapters.apply_filters source)
    df ← on_cluster (adapters.read source)
    counted count_records df
    write_path ← lift (build_write_path sink.sink_config)
    on_cluster (adapters.write sink df)
    released count_records df

  unfoldable pub transfer :
      Value → SourceAdapter → SourceConfig → SinkAdapter → Exec (World S W) Unit
  unfolding copy_file read_and_write
  transfer count_records source (path c) sink = copy_file c.path sink
  transfer count_records source (table c) sink = read_and_write count_records source sink
  transfer count_records source (kafka c) sink = read_and_write count_records source sink

  -- steps 5 to 9, of adapters that are set up
  run_adapters : Value → SourceAdapter → SinkAdapter → Exec (World S W) Unit
  unfolding transfer
  run_adapters count_records source sink = do
    on_cluster (adapters.validate_source source)
    on_cluster (adapters.validate_sink sink)
    transfer count_records source source.source_config sink

  app_name : SparkRunOperator → SparkRun → Value
  unfolding or_else
  app_name op run = or_else op.spark_app_name (str_val run.dag_id)

  -- Steps 2 to 9. The sink config holds the very source config that the source adapter changes. The
  -- constructors change nothing but the paths of S3.
  unfoldable pub run_pipeline : SparkRunOperator → SparkRun → RunContext → Exec (World S W) Unit
  unfolding session_config normalised sink_config_of run_adapters app_name config_extra method_dict
  run_pipeline op run c = do
    source_extra ← lift (method_dict (config_extra c.source_config))
    on_cluster
        (adapters.build_session (app_name op run) (session_config op.spark_config source_extra))
    source_config ← lift (normalised c.read_type c.source_config)
    let source : SourceAdapter = record {
      read_type = c.read_type;
      source_config = source_config;
      credentials = c.source_credentials;
      checkpoint_from = c.checkpoint_from;
      checkpoint_to = c.checkpoint_to;
    }
    sink_config ←
        lift (sink_config_of c.write_type (record c.sink_config { source_config = source_config }))
    let sink : SinkAdapter = record {
      write_type = c.write_type;
      sink_config = sink_config;
      credentials = c.sink_credentials;
    }
    run_adapters c.count_records source sink

  abbrev failure_payload : SparkRun → Exc → Dict Value
  failure_payload run e =
      ("status", str_val "failed")
      ∷ ("dag_id", str_val run.dag_id)
      ∷ ("run_id", str_val run.run_id)
      ∷ ("error", str_val e.message)
      ∷ []

  push_failure_to : Option MetricAdapterType → SparkRunOperator → SparkRun → Exc → Exec W Unit
  unfolding truthy push_metric_inline
  push_failure_to none op run e = pure tt
  push_failure_to (some t) op run e =
      if truthy op.metric_config_raw
      then push_metric_inline f clients secrets (failure_payload run e) t op.metric_config_raw
          op.openbao_conn_id
      else pure tt

  -- `_push_failure_metric`
  unfoldable pub push_failure_metric : SparkRunOperator → SparkRun → Exc → Exec W Unit
  unfolding push_failure_to
  push_failure_metric op run e = push_failure_to op.metric_type op run e

  -- `except Exception as exc: push; raise`
  failed :
      SparkRunOperator → SparkRun → Result (Unit {0}) → World S W → Result (Unit {0}) × World S W
  failed op run (ok u) s = (ok u, s)
  failed op run (err e) s =
      let r = push_failure_metric op run e s.queues in
      (continue r.0 (λ u. lift (err e)) (record s { queues = r.1 }))

  -- steps 1 to 9
  unfoldable pub pipeline : SparkRunOperator → SparkRun → Exec (World S W) Unit
  unfolding pulled run_pipeline
  pipeline op run = lift (pulled repr run.raw_context) >>= run_pipeline op run

  -- `execute`
  unfoldable pub execute : SparkRunOperator → SparkRun → Exec (World S W) Unit
  unfolding pipeline failed
  execute op run s = let r = pipeline op run s in failed op run r.0 r.1
