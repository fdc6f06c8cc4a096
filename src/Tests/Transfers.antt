-- ===== src/Tests/Transfers.antt =====
-- The Spark task with a SQL adapter of the read factory as its source.
use batch_ingestion_service.Prelude.{ℕ, String, ◌≡◌, ◌∙◌, ap, refl, Bool, true, none, List, []}
use batch_ingestion_service.Py.Exc.{ok}
use batch_ingestion_service.Py.Exec.{Exec, pure}
use batch_ingestion_service.Py.Value.{Value, none_val, dict, str_val, Dict, or_else}
use batch_ingestion_service.Write.Path.{build_write_path, base_path}
use batch_ingestion_service.Write.Sink
use batch_ingestion_service.Write.Sink.{write, configure, sink_config_of, root_exists}
use batch_ingestion_service.Spark.Source.{normalised}
use batch_ingestion_service.Spark.Session.{session_config}
use batch_ingestion_service.Write.Sink.Laws.{Saved}
use batch_ingestion_service.Read.Frames.{Frames}
use batch_ingestion_service.Read.Kafka.{Decoder}
use batch_ingestion_service.Read.NoSql.{Stores}
use batch_ingestion_service.Read.File.{FileStatus}
use batch_ingestion_service.Read.Sql.{postgres, read_options_of}
use batch_ingestion_service.Read.Factory
use batch_ingestion_service.Read.Factory.{
  sql_class, registry, sql_adapter, read_as, read_sql, as_sql, validate_as,
}
use batch_ingestion_service.Config.Source.{table}
use batch_ingestion_service.Spark.{
  SparkRunOperator, SparkRun, pulled, run_pipeline, transfer, execute,
}
use batch_ingestion_service.Spark.Sinks.{Reader, with_sinks, sink_of}
use batch_ingestion_service.Spark.Laws.{pulled-to_dict, execute_reraises}
use batch_ingestion_service.Spark.Task.{source_adapter, sink_adapter, of_context}
use batch_ingestion_service.Spark.Outcome.{execute_saves_table}
use batch_ingestion_service.Write.Sink.Probes.{ProbesOnly}
use batch_ingestion_service.Read.Factory.Probes.{LooksOnly}
use batch_ingestion_service.Context.{RunContext, to_dict}
use batch_ingestion_service.Context.RoundTrip.{without_sink_extra}
use batch_ingestion_service.Config.Sink.{SinkConfig}
use batch_ingestion_service.Tests.Pipeline.{orders_context-IsContext}
use batch_ingestion_service.Spark.Sources.{Session, SessionOnly, source_of, with_sources}
use batch_ingestion_service.Tests.Data.{orders_table, orders_context, repr}
use batch_ingestion_service.Tests.Tasks.{formats, counting, no_secrets}
use batch_ingestion_service.Tests.Writes.{Files, local, local_KeepsFiles, frame, idle}

abbrev pub reader : Frames Files (Dict String) String
reader = record {
  load = λ format options schema path. pure frame;
  filter = λ condition df. ok df;
  schema = λ df. [];
  limit = λ n df. df;
  select_expr = λ e df. ok df;
  count = λ df. pure 0;
  collect = λ df. pure [];
  max_of = λ column df. pure [];
}

abbrev pub decoder : Decoder (Dict String) String
decoder = record { as_strings = λ df. ok df; expand = λ schema df. ok df }

abbrev pub stores : Stores Files ℕ
stores = record {
  describe_table = λ region key secret table. pure [];
  cluster = λ host port user password. pure 0;
  connect = λ k. pure true;
  shutdown = λ k. pure tt;
}

abbrev pub no_listing : Value → Exec Files (List FileStatus)
no_listing p = pure []

abbrev pub no_path : Value → Exec Files Bool
no_path p = pure true

abbrev pub session : Session Files (Dict String)
session = record {
  build_session = λ n c. pure tt;
  cache = λ df. pure tt;
  count = λ df. pure 2;
  unpersist = λ df. pure tt;
}

abbrev pub spark : Reader Files (Dict String)
spark = with_sources repr local reader decoder stores no_listing no_path session

abbrev pub session_SessionOnly : SessionOnly session reader (λ (s : Files). s)
session_SessionOnly = record {
  by_frames = record {
    by_load = λ format options schema path s. refl;
    by_max = λ column df s. refl;
  };
  by_build = λ name config s. refl;
  by_cache = λ df s. refl;
  by_count = λ df s. refl;
  by_unpersist = λ df s. refl;
}

pub local-ProbesOnly : ProbesOnly local (λ (s : Files). s)
local-ProbesOnly = record { by_exists = λ p s. refl; by_head = λ r k s b t. refl }

pub stores-LooksOnly : LooksOnly stores no_path (λ (s : Files). s)
stores-LooksOnly = record {
  by_describe = λ r k s t u. refl;
  by_cluster = λ a b c d s. refl;
  by_connect = λ k s. refl;
  by_shutdown = λ k s. refl;
  by_path = λ p s. refl;
}

abbrev pub spark_op : SparkRunOperator
spark_op = record {
  spark_app_name = none_val;
  spark_config = [];
  metric_type = none;
  metric_config_raw = none_val;
  openbao_conn_id = "openbao_default";
}

abbrev pub run_of : RunContext → SparkRun
run_of c = record { dag_id = "orders"; run_id = "manual__2024-01"; raw_context = dict (to_dict c) }

abbrev landed : RunContext
landed = without_sink_extra orders_context

is_sql : registry landed.read_type ≡ sql_class postgres
unfolding registry
is_sql = refl

landed_found : pulled repr (run_of orders_context).raw_context ≡ ok landed
landed_found = pulled-to_dict repr orders_context orders_context-IsContext

task_ran :
    (run_pipeline repr
      (with_sinks local spark)
      formats
      counting
      no_secrets
      spark_op
      (run_of orders_context)
      landed
      idle).0
    ≡ ok tt
unfolding run_pipeline transfer build_write_path write configure base_path or_else Factory.read
    read_as as_sql read_sql read_options_of registry normalised sink_config_of
    Sink.validate_connection root_exists Factory.validate_connection validate_as session_config
task_ran = refl

task_returned :
    (execute repr
      (with_sinks local spark)
      formats
      counting
      no_secrets
      spark_op
      (run_of orders_context)
      idle).0
    ≡ ok tt
task_returned =
    execute_reraises repr (with_sinks local spark) formats counting no_secrets spark_op
      (run_of orders_context) idle
    ∙ (ap (λ r. r.0)
          (of_context repr (with_sinks local spark) formats counting no_secrets spark_op
            (run_of orders_context) landed idle landed_found)
        ∙ task_ran)

execute_saves_table_example :
    (cfg : SinkConfig) × (opts : List (String × Value)) × (df : Dict String) × (t : Files)
    × (sink_config_of landed.write_type
          (record landed.sink_config { source_config = table orders_table })
        ≡ ok cfg)
    × (read_options_of repr (
          sql_adapter postgres
            (source_of (source_adapter landed (table orders_table)))
            orders_table)
        ≡ ok opts)
    × ((reader.load (str_val "jdbc") opts none none t).0 ≡ ok df)
    × Saved local
        (λ s. s)
        (sink_of (sink_adapter landed cfg))
        df
        []
        (execute repr
          (with_sinks local spark)
          formats
          counting
          no_secrets
          spark_op
          (run_of orders_context)
          idle).1.cluster
execute_saves_table_example =
    execute_saves_table repr local reader decoder stores no_listing no_path session formats counting
      no_secrets (λ s. s) local_KeepsFiles local-ProbesOnly stores-LooksOnly session_SessionOnly
      spark_op (run_of orders_context) landed orders_table postgres idle landed_found refl is_sql
      task_returned
