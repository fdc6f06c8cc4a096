-- ===== src/Tests/Pipeline.antt =====
-- The init task and the run context.
use batch_ingestion_service.Prelude.{
  String, ◌≡◌, refl, true, none, some, Option, [], ◌∷◌, ◌==◌, if◌then◌else◌,
}
use batch_ingestion_service.Prelude.Int.{pos}
use batch_ingestion_service.Py.Exc.{Exc, Result, ok, err, raise, key_error}
use batch_ingestion_service.Py.Value.{
  Value, bool_val, str_val, Dict, dict, lookup, method_dict, truthy, or_else,
}
use batch_ingestion_service.Config.Kinds.{
  ReadAdapterType, WriteAdapterType, MetricAdapterType, read_type_of, write_type_of, metric_type_of,
}
use batch_ingestion_service.Config.Source
use batch_ingestion_service.Config.Source.{table}
use batch_ingestion_service.Config.Source.Laws.{IsTable}
use batch_ingestion_service.Config.Sink
use batch_ingestion_service.Checkpoint.{number, parse_checkpoint, parse_text}
use batch_ingestion_service.Context.{to_dict, from_dict}
use batch_ingestion_service.Context.RoundTrip.{IsContext, without_sink_extra, from_dict-to_dict}
use batch_ingestion_service.Secrets.{
  Api, get_secret, get_conn, renewed, authenticate, resolve_url, url_of, resolve_auth_method,
  auth_token, get_var,
}
use batch_ingestion_service.Init.{
  InitOperator, Surroundings, source_ref, fetch_checkpoint_from, connect, context_of, prepare,
  execute,
}
use batch_ingestion_service.Init.Planning.{TaskContext, Plan, plan_of, load_plan}
use batch_ingestion_service.Init.Upper.{MaxQueries, fetch_checkpoint_to}
use batch_ingestion_service.Init.Laws.{IsPlan, plan_of-IsPlan}
use batch_ingestion_service.Init.Pushed.{execute_pushes_context, execute_refuses_kafka}
use batch_ingestion_service.Tests.Data.{
  start, orders_table, planned_table, orders_sink, source_secret, sink_secret, metric_raw,
  orders_context, repr,
}
use batch_ingestion_service.Tests.Values.{start-IsTime, orders_kwargs}

orders_table-IsTable : IsTable ReadAdapterType.sql orders_table
unfolding Source.family or_else
orders_table-IsTable = record {
  typed = refl;
  database = refl;
  table = refl;
  port_number = pos 5432;
  port = refl;
  extra = refl;
  read_options = refl;
}

pub orders_context-IsContext : IsContext orders_context
unfolding truthy
orders_context-IsContext = record {
  source = orders_table-IsTable;
  table_or_path = tt;
  sink = record {
    credential_ref = refl;
    source_system_name = refl;
    run_id = refl;
    same_run = refl;
    same_date = refl;
    same_time = refl;
    same_source = refl;
  };
  date = start-IsTime.date;
  time = start-IsTime;
  from_ok = tt;
  to_ok = tt;
}

from_dict-to_dict_example :
    from_dict repr (to_dict orders_context) ≡ ok (without_sink_extra orders_context)
from_dict-to_dict_example = from_dict-to_dict repr orders_context orders_context-IsContext

abbrev pub config_with : String → Dict Value
config_with read_type =
    ("read_type", str_val read_type)
    ∷ ("write_type", str_val "hadoop")
    ∷ ("metric_type", str_val "onprem_queue")
    ∷ ("source", dict orders_kwargs)
    ∷ (
      "sink",
      dict (
          ("credential_ref", str_val "hadoop/prod")
          ∷ ("source_system_name", str_val "postgres-prod")
          ∷ []),
    )
    ∷ ("metric", dict metric_raw)
    ∷ ("count_records", bool_val true)
    ∷ []

abbrev secret_at : Value → Result Value
secret_at (str_val s) =
    if s == "postgres/prod" then ok (dict source_secret) else ok (dict sink_secret)
secret_at _ = raise key_error "no such secret"

-- a server that knows one token
abbrev pub vault : Api String
vault = record {
  variable = λ k. ok none;
  environ = λ k. some "root";
  connection = λ c. ok (record { host = ""; port = 8200; schema = "" });
  new_client = λ url. "";
  set_token = λ t c. t;
  login = λ u p m c. ok c;
  is_authenticated = λ now c. ok (c == "root");
  read_secret = λ c ref. elim (secret_at ref) [
    | ok v ↦ ok (dict (("data", dict (("data", v) ∷ [])) ∷ []))
    | err e ↦ err e
  ];
}

abbrev upper_20 : MaxQueries
upper_20 = record {
  max_sql = λ t c d v. ok (some (number (pos 20)));
  max_mongodb = λ c d v. ok none;
  max_dynamodb = λ c d v. ok none;
  max_cassandra = λ c d v. ok none;
  max_file = λ t c d. ok none;
  max_kafka = λ c d. ok none;
}

abbrev pub surroundings_with : String → Option Value → Surroundings String
surroundings_with read_type row = record {
  load_config = λ p. ok (dict (config_with read_type));
  checkpoint_row = λ c d. ok row;
  queries = upper_20;
  api = vault;
  source_moment = 0;
  sink_moment = 1;
  metric_moment = 2;
  repr = repr;
}

abbrev pub op : InitOperator
op = record {
  config_path = "orders.yaml";
  checkpoint_conn_id = "pg";
  openbao_conn_id = "bao";
  xcom_key = "run_context";
}

abbrev pub ctx : TaskContext
ctx = record { dag_id = "orders"; run_id = "manual__2024-01"; data_interval_start = start }

prepared : prepare (surroundings_with "sql" (some (str_val "10"))) op ctx ≡ ok orders_context
unfolding prepare load_plan plan_of read_type_of write_type_of metric_type_of Source.create
    Source.inject_connection Source.inject_port Source.inject_jars Sink.create Sink.validate connect
    context_of get_secret get_conn renewed authenticate resolve_url url_of resolve_auth_method
    auth_token get_var fetch_checkpoint_from parse_checkpoint parse_text fetch_checkpoint_to
    source_ref method_dict
prepared = refl

execute_pushes_context_example :
    ((execute (surroundings_with "sql" (some (str_val "10"))) op ctx []).0
      ≡ ok (to_dict orders_context))
    × (lookup "run_context" (execute (surroundings_with "sql" (some (str_val "10"))) op ctx []).1
        ≡ some (dict (to_dict orders_context)))
    × (from_dict repr (to_dict orders_context) ≡ ok (without_sink_extra orders_context))
execute_pushes_context_example =
    execute_pushes_context (surroundings_with "sql" (some (str_val "10"))) op ctx [] orders_context
      prepared start-IsTime tt tt

pub kafka_asked : lookup "read_type" (config_with "kafka") ≡ some (str_val "kafka")
unfolding lookup
kafka_asked = refl

execute_refuses_kafka_example :
    (e : Exc) × (execute (surroundings_with "kafka" none) op ctx [] ≡ (err e, []))
execute_refuses_kafka_example =
    execute_refuses_kafka (surroundings_with "kafka" none) op ctx [] (config_with "kafka") refl
      kafka_asked

abbrev orders_plan : Plan
orders_plan = record {
  read_type = ReadAdapterType.sql;
  write_type = WriteAdapterType.hadoop;
  metric_type = MetricAdapterType.onprem_queue;
  source_config = table planned_table;
  sink_config = record orders_sink { endpoint = str_val ""; source_config = table planned_table };
  metric_config_raw = dict metric_raw;
  count_records = bool_val true;
}

planned : plan_of ctx (dict (config_with "sql")) ≡ ok orders_plan
unfolding plan_of read_type_of write_type_of metric_type_of Source.create Sink.create Sink.validate
planned = refl

plan_of-IsPlan_example : IsPlan ctx (dict (config_with "sql")) orders_plan
plan_of-IsPlan_example = plan_of-IsPlan ctx (dict (config_with "sql")) orders_plan planned
