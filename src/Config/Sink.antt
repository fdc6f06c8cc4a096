-- ===== src/Config/Sink.antt =====
-- `SinkConfig` of adapters/write/base_write_adapter.py and adapters/factory/sink_config_factory.py.
pub mod Laws
use batch_ingestion_service.Prelude.{String, List, [], ◌∷◌, ◌<>◌}
use batch_ingestion_service.Py.Exc.{Result, ok, raise, value_error, type_error, ◌>>=◌, ◌>>◌}
use batch_ingestion_service.Py.Time.{Date, Datetime}
use batch_ingestion_service.Py.Value.{Value, str_val, Dict, dict, or_else, get_or, list_text}
use batch_ingestion_service.Config.Source.{SourceConfig, table, path, kafka, missing_names}

-- `ingestion_date` and `ingestion_time` come from Airflow as a date and a time.
pub record SinkConfig : Type 0 where
  pub endpoint : Value
  pub credential_ref : Value
  pub source_system_name : Value
  pub ingestion_date : Date
  pub ingestion_time : Datetime
  pub run_id : Value
  pub source_config : SourceConfig
  pub extra : Value
  pub file_format : Value

raise_missing : List String → Result (Unit {0})
raise_missing [] = ok tt
raise_missing (name ∷ names) =
    raise value_error ("Missing required SinkConfig field(s): " <> list_text (name ∷ names))

-- `isinstance(source_config, (TableSourceConfig, PathSourceConfig))`
require_table_or_path : SourceConfig → Result (Unit {0})
require_table_or_path (table _) = ok tt
require_table_or_path (path _) = ok tt
require_table_or_path (kafka _) =
    raise type_error
      "source_config must be TableSourceConfig or PathSourceConfig, got: KafkaSourceConfig"

-- `_validate`; its tests that the date and the time are not `None` hold of what the types admit.
unfoldable pub validate : Value → Value → SourceConfig → Value → Result (Unit {0})
unfolding missing_names raise_missing require_table_or_path
validate credential_ref source_system_name source_config run_id = do
  raise_missing (
      missing_names (
        ("credential_ref", credential_ref)
        ∷ ("source_system_name", source_system_name)
        ∷ ("run_id", run_id)
        ∷ []))
  require_table_or_path source_config

-- `SinkConfigFactory.create`
unfoldable pub create :
    Value → Value → SourceConfig → Date → Datetime → Value → Value → Value → Result SinkConfig
unfolding or_else
create credential_ref source_system_name source_config date time run_id extra file_format = do
  validate credential_ref source_system_name source_config run_id
  ok (record {
    endpoint = str_val "";
    credential_ref = credential_ref;
    source_system_name = source_system_name;
    ingestion_date = date;
    ingestion_time = time;
    run_id = run_id;
    source_config = source_config;
    extra = or_else extra (dict []);
    file_format = file_format;
  })

-- `SinkConfigFactory.inject_connection`
unfoldable pub inject_connection : SinkConfig → Dict Value → SinkConfig
unfolding get_or
inject_connection config credentials = record config {
  endpoint = get_or credentials "endpoint" config.endpoint;
}
