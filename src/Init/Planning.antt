-- ===== src/Init/Planning.antt =====
-- Steps 1 to 3 of `InitOperator.execute`: the two configs, from the parsed configuration file.
use batch_ingestion_service.Prelude.{String, false, []}
use batch_ingestion_service.Py.Exc.{Result, ok, ◌>>=◌}
use batch_ingestion_service.Py.Time.{Datetime}
use batch_ingestion_service.Py.Value.{
  Value, str_val, bool_val, dict, truthy, get_or, get_item, as_dict,
}
use batch_ingestion_service.Config.Kinds.{
  ReadAdapterType, WriteAdapterType, MetricAdapterType, read_type_of, write_type_of, metric_type_of,
}
use batch_ingestion_service.Config.Source
use batch_ingestion_service.Config.Source.{SourceConfig}
use batch_ingestion_service.Config.Sink
use batch_ingestion_service.Config.Sink.{SinkConfig}

-- what `execute` reads of Airflow's context
pub record TaskContext : Type 0 where
  pub dag_id : String
  pub run_id : String
  pub data_interval_start : Datetime

-- steps 1 to 3: the configuration and the two configs, without connection details
pub record Plan : Type 0 where
  pub read_type : ReadAdapterType
  pub write_type : WriteAdapterType
  pub metric_type : MetricAdapterType
  pub source_config : SourceConfig
  pub sink_config : SinkConfig
  pub metric_config_raw : Value
  pub count_records : Value

abbrev bool_of : Value → Value
bool_of v = bool_val (truthy v)

-- steps 1 to 3 of `execute`, on the parsed configuration
unfoldable pub plan_of : TaskContext → Value → Result Plan
unfolding as_dict get_item get_or
plan_of ctx loaded = do
  cfg ← as_dict loaded
  read_type ← read_type_of (← get_item "read_type" cfg)
  write_type ← write_type_of (← get_item "write_type" cfg)
  metric_type ← metric_type_of (get_or cfg "metric_type" (str_val "cloud_queue"))
  source_raw ← as_dict (← get_item "source" cfg)
  source_config ← Source.create read_type source_raw
  sink_raw ← as_dict (← get_item "sink" cfg)
  ref ← get_item "credential_ref" sink_raw
  name ← get_item "source_system_name" sink_raw
  let time = ctx.data_interval_start
  sink_config ←
      Sink.create ref name source_config time.date time (str_val ctx.run_id)
        (get_or sink_raw "extra" (dict [])) (get_or sink_raw "file_format" (str_val "parquet"))
  ok (record {
    read_type = read_type;
    write_type = write_type;
    metric_type = metric_type;
    source_config = source_config;
    sink_config = sink_config;
    metric_config_raw = get_or cfg "metric" (dict []);
    count_records = bool_of (get_or cfg "count_records" (bool_val false));
  })

-- steps 1 to 3 of `execute`
unfoldable pub load_plan : (String → Result Value) → String → TaskContext → Result Plan
load_plan load_config config_path ctx = do loaded ← load_config config_path; plan_of ctx loaded
