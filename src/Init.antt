-- ===== src/Init.antt =====
-- orchestration/operators/init_operator.py: the task that prepares a run. The configuration file,
-- the checkpoint store and the source systems are parameters.
pub mod Planning
pub mod Upper
pub mod Laws
pub mod Context
pub mod Pushed
pub mod Dynamo
pub mod MaxSql
pub mod Max
pub mod Demo
use batch_ingestion_service.Prelude.{ℕ, String, Option, none, some, [], ◌∷◌, if◌then◌else◌}
use batch_ingestion_service.Py.Exc.{Exc, Result, ok, err}
use batch_ingestion_service.Py.Exec.{Exec, pure, lift, ◌>>=◌}
use batch_ingestion_service.Py.Time.{Date, Datetime}
use batch_ingestion_service.Py.Value.{
  Value, str_val, bool_val, Dict, dict, truthy, lookup, insert, get_or, get_item, as_dict,
  method_dict,
}
use batch_ingestion_service.Config.Kinds.{
  ReadAdapterType, WriteAdapterType, MetricAdapterType, read_type_of, write_type_of, metric_type_of,
}
use batch_ingestion_service.Config.Source
use batch_ingestion_service.Config.Source.{SourceConfig, table, path, kafka}
use batch_ingestion_service.Config.Sink
use batch_ingestion_service.Config.Sink.{SinkConfig}
use batch_ingestion_service.Checkpoint.{Checkpoint, parse_checkpoint}
use batch_ingestion_service.Context.{RunContext, to_dict}
use batch_ingestion_service.Secrets.{Api, Hook, get_secret}
use Planning.{TaskContext, Plan, load_plan}
use Upper.{MaxQueries, fetch_checkpoint_to}

-- the operator's own fields
pub record InitOperator : Type 0 where
  pub config_path : String
  pub checkpoint_conn_id : String
  pub openbao_conn_id : String
  pub xcom_key : String

-- What surrounds the task: the parsed configuration file, the row of the checkpoint store for a DAG
-- (`none` where there is none), the queries of the source systems, the hook's surroundings, the
-- moments at which the three secrets are read, and Python's `repr`.
pub record Surroundings (C : Type 0) : Type 0 where
  pub load_config : String → Result Value
  pub checkpoint_row : String → String → Result (Option Value)
  pub queries : MaxQueries
  pub api : Api C
  pub source_moment : ℕ
  pub sink_moment : ℕ
  pub metric_moment : ℕ
  pub repr : Value → String

unfoldable pub source_ref : SourceConfig → Value
source_ref (table c) = c.credential_ref
source_ref (path c) = c.credential_ref
source_ref (kafka c) = c.credential_ref

pub parse_row : (Value → String) → Option Value → Result (Option Checkpoint)
parse_row repr none = ok none
parse_row repr (some v) = parse_checkpoint repr v

module _ {C : Type 0} (w : Surroundings C) where
  -- `_fetch_checkpoint_from`
  unfoldable pub fetch_checkpoint_from : String → String → Result (Option Checkpoint)
  unfolding parse_row
  fetch_checkpoint_from dag_id conn_id = elim (w.checkpoint_row conn_id dag_id) [
    | ok row ↦ parse_row w.repr row
    | err e ↦ err e
  ]

  metric_secret : Value → Exec (Hook C) Value
  metric_secret ref hook =
      if truthy ref then get_secret w.api w.metric_moment ref hook else (ok (dict []), hook)

  -- the context of step 8, from the plan and from what the calls before it gave
  unfoldable pub context_of :
      TaskContext
      → Plan
      → SourceConfig
      → Value
      → Dict Value
      → Value
      → Dict Value
      → Value
      → Option Checkpoint
      → RunContext
  unfolding Sink.inject_connection fetch_checkpoint_to
  context_of ctx plan source_config source_secret source_credentials sink_secret sink_credentials
        metric_credentials checkpoint_from =
      let sink = Sink.inject_connection plan.sink_config sink_credentials in
      record {
        dag_id = str_val ctx.dag_id;
        run_id = str_val ctx.run_id;
        ingestion_date = ctx.data_interval_start.date;
        ingestion_time = ctx.data_interval_start;
        read_type = plan.read_type;
        write_type = plan.write_type;
        metric_type = plan.metric_type;
        source_config = source_config;
        sink_config = record sink { source_config = source_config };
        source_credentials = source_secret;
        sink_credentials = sink_secret;
        metric_credentials = metric_credentials;
        metric_config_raw = plan.metric_config_raw;
        checkpoint_from = checkpoint_from;
        checkpoint_to =
            fetch_checkpoint_to w.queries plan.read_type source_config source_credentials;
        count_records = plan.count_records;
      }

  -- Steps 4 to 8. The sink config holds the very source config that the injection changes.
  unfoldable pub connect : InitOperator → TaskContext → Plan → Exec (Hook C) RunContext
  unfolding metric_secret source_ref
  connect op ctx plan = do
    source_secret ← get_secret w.api w.source_moment (source_ref plan.source_config)
    source_credentials ← lift (as_dict source_secret)
    source_config ← lift (Source.inject_connection plan.source_config source_credentials)
    sink_secret ← get_secret w.api w.sink_moment plan.sink_config.credential_ref
    sink_credentials ← lift (as_dict sink_secret)
    metric_raw ← lift (method_dict plan.metric_config_raw)
    metric_credentials ← metric_secret (get_or metric_raw "credential_ref" (str_val ""))
    checkpoint_from ← lift (fetch_checkpoint_from ctx.dag_id op.checkpoint_conn_id)
    pure (
        context_of ctx plan source_config source_secret source_credentials sink_secret
          sink_credentials metric_credentials checkpoint_from)

  connect_planned : InitOperator → TaskContext → Result Plan → Result RunContext
  connect_planned op ctx (err e) = err e
  connect_planned op ctx (ok plan) =
      (connect op ctx plan (record { openbao_conn_id = op.openbao_conn_id; client = none })).0

  -- steps 1 to 8, with a hook of its own
  unfoldable pub prepare : InitOperator → TaskContext → Result RunContext
  unfolding connect_planned
  prepare op ctx = connect_planned op ctx (load_plan w.load_config op.config_path ctx)

  push : InitOperator → Result RunContext → Dict Value → Result (Dict Value) × Dict Value
  push op (ok c) xcom = (ok (to_dict c), insert op.xcom_key (dict (to_dict c)) xcom)
  push op (err e) xcom = (err e, xcom)

  -- `execute`, which returns the serialised context and changes the values that the task has pushed
  unfoldable pub execute :
      InitOperator → TaskContext → Dict Value → Result (Dict Value) × Dict Value
  unfolding push insert
  execute op ctx xcom = push op (prepare op ctx) xcom
