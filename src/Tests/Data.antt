-- ===== src/Tests/Data.antt =====
-- One pipeline: a table of a PostgreSQL database that goes to a Hadoop cluster.
use batch_ingestion_service.Prelude.{String, true, some, [], ◌∷◌}
use batch_ingestion_service.Prelude.Int.{pos}
use batch_ingestion_service.Py.Time.{Date, Datetime}
use batch_ingestion_service.Py.Value.{Value, none_val, bool_val, int_val, str_val, Dict, dict}
use batch_ingestion_service.Config.Kinds.{ReadAdapterType, WriteAdapterType, MetricAdapterType}
use batch_ingestion_service.Config.Source.{TableSourceConfig, table}
use batch_ingestion_service.Config.Sink.{SinkConfig}
use batch_ingestion_service.Checkpoint.{number}
use batch_ingestion_service.Context.{RunContext}

abbrev pub day : Date
day = record { year = 2024; month = 1; day = 5 }

abbrev pub start : Datetime
start = record { date = day; hour = 6; minute = 7; second = 8; micro = 0; offset = some (pos 0) }

abbrev pub orders_table : TableSourceConfig
orders_table = record {
  credential_ref = str_val "postgres/prod";
  extra = dict [];
  read_options = dict [];
  host = str_val "db1";
  port = int_val (pos 5432);
  database = str_val "shop";
  schema = str_val "default";
  table = str_val "orders";
  query = none_val;
  checkpoint_column = str_val "id";
}

abbrev pub planned_table : TableSourceConfig
planned_table = record orders_table { host = str_val ""; port = int_val (pos 0) }

abbrev pub orders_sink : SinkConfig
orders_sink = record {
  endpoint = str_val "hdfs://namenode:9000";
  credential_ref = str_val "hadoop/prod";
  source_system_name = str_val "postgres-prod";
  ingestion_date = day;
  ingestion_time = start;
  run_id = str_val "manual__2024-01";
  source_config = table orders_table;
  extra = dict [];
  file_format = str_val "parquet";
}

abbrev pub source_secret : Dict Value
source_secret = ("host", str_val "db1") ∷ ("port", str_val "5432") ∷ ("username", str_val "u") ∷ []

abbrev pub sink_secret : Dict Value
sink_secret = ("endpoint", str_val "hdfs://namenode:9000") ∷ []

abbrev pub metric_raw : Dict Value
metric_raw = ("stream_name", str_val "events") ∷ []

abbrev pub orders_context : RunContext
orders_context = record {
  dag_id = str_val "orders";
  run_id = str_val "manual__2024-01";
  ingestion_date = day;
  ingestion_time = start;
  read_type = ReadAdapterType.sql;
  write_type = WriteAdapterType.hadoop;
  metric_type = MetricAdapterType.onprem_queue;
  source_config = table orders_table;
  sink_config = orders_sink;
  source_credentials = dict source_secret;
  sink_credentials = dict sink_secret;
  metric_credentials = dict [];
  metric_config_raw = dict metric_raw;
  checkpoint_from = some (number (pos 10));
  checkpoint_to = some (number (pos 20));
  count_records = bool_val true;
}

abbrev pub repr : Value → String
repr v = "..."
