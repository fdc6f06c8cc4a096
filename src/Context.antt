-- ===== src/Context.antt =====
-- orchestration/operators/run_context.py: what the init task hands to the Spark task.
pub mod RoundTrip
use batch_ingestion_service.Prelude.{
  String, Bool, true, false, not, ◌||◌, Option, none, some, List, [], ◌∷◌, ◌==◌, if◌then◌else◌,
}
use batch_ingestion_service.Py.Exc.{Result, ok, err, raise, value_error, type_error, ◌>>=◌, ◌>>◌}
use batch_ingestion_service.Py.Time.{
  Date, Datetime, isoformat, isoformat_date, fromisoformat, date_fromisoformat,
}
use batch_ingestion_service.Py.Value.{
  Value, none_val, bool_val, str_val, enum_val, Dict, dict, lookup, get_or, get_item, as_dict,
}
use batch_ingestion_service.Config.Kinds.{
  ReadAdapterType, WriteAdapterType, MetricAdapterType, read_value, write_value, metric_value,
  read_type_of, write_type_of, metric_type_of,
}
use batch_ingestion_service.Config.Source
use batch_ingestion_service.Config.Source.{SourceConfig, table, path, kafka}
use batch_ingestion_service.Config.Sink
use batch_ingestion_service.Config.Sink.{SinkConfig}
use batch_ingestion_service.Checkpoint.{Checkpoint, serialise, deserialise, datetime_of}

pub record RunContext : Type 0 where
  pub dag_id : Value
  pub run_id : Value
  pub ingestion_date : Date
  pub ingestion_time : Datetime
  pub read_type : ReadAdapterType
  pub write_type : WriteAdapterType
  pub metric_type : MetricAdapterType
  pub source_config : SourceConfig
  pub sink_config : SinkConfig
  pub source_credentials : Value
  pub sink_credentials : Value
  pub metric_credentials : Value
  pub metric_config_raw : Value
  pub checkpoint_from : Option Checkpoint
  pub checkpoint_to : Option Checkpoint
  pub count_records : Value

-- `dataclasses.asdict` of a source config: the fields of the base class come first
unfoldable pub source_dict : SourceConfig → Dict Value
source_dict (table c) =
    ("credential_ref", c.credential_ref)
    ∷ ("extra", c.extra)
    ∷ ("read_options", c.read_options)
    ∷ ("host", c.host)
    ∷ ("port", c.port)
    ∷ ("database", c.database)
    ∷ ("schema", c.schema)
    ∷ ("table", c.table)
    ∷ ("query", c.query)
    ∷ ("checkpoint_column", c.checkpoint_column)
    ∷ []
source_dict (path c) =
    ("credential_ref", c.credential_ref)
    ∷ ("extra", c.extra)
    ∷ ("read_options", c.read_options)
    ∷ ("path", c.path)
    ∷ ("file_format", c.file_format)
    ∷ ("checkpoint_column", c.checkpoint_column)
    ∷ []
source_dict (kafka c) =
    ("credential_ref", c.credential_ref)
    ∷ ("extra", c.extra)
    ∷ ("read_options", c.read_options)
    ∷ ("bootstrap_servers", c.bootstrap_servers)
    ∷ ("topic", c.topic)
    ∷ ("group_id", c.group_id)
    ∷ ("starting_offsets", c.starting_offsets)
    ∷ ("value_format", c.value_format)
    ∷ []

abbrev date_val : Date → Value
date_val d = str_val (isoformat_date d)

abbrev time_val : Datetime → Value
time_val t = str_val (isoformat "T" t)

-- the sink config, with its two dates in ISO form
unfoldable pub sink_dict : SinkConfig → Dict Value
unfolding source_dict
sink_dict c =
    ("endpoint", c.endpoint)
    ∷ ("credential_ref", c.credential_ref)
    ∷ ("source_system_name", c.source_system_name)
    ∷ ("ingestion_date", date_val c.ingestion_date)
    ∷ ("ingestion_time", time_val c.ingestion_time)
    ∷ ("run_id", c.run_id)
    ∷ ("source_config", dict (source_dict c.source_config))
    ∷ ("extra", c.extra)
    ∷ ("file_format", c.file_format)
    ∷ []

-- `to_dict`: `asdict`, and then the keys that it assigns again, which keep their places
unfoldable pub to_dict : RunContext → Dict Value
unfolding source_dict sink_dict
to_dict c =
    ("dag_id", c.dag_id)
    ∷ ("run_id", c.run_id)
    ∷ ("ingestion_date", date_val c.ingestion_date)
    ∷ ("ingestion_time", time_val c.ingestion_time)
    ∷ ("read_type", str_val (read_value c.read_type))
    ∷ ("write_type", str_val (write_value c.write_type))
    ∷ ("metric_type", str_val (metric_value c.metric_type))
    ∷ ("source_config", dict (source_dict c.source_config))
    ∷ ("sink_config", dict (sink_dict c.sink_config))
    ∷ ("source_credentials", c.source_credentials)
    ∷ ("sink_credentials", c.sink_credentials)
    ∷ ("metric_credentials", c.metric_credentials)
    ∷ ("metric_config_raw", c.metric_config_raw)
    ∷ ("checkpoint_from", serialise c.checkpoint_from)
    ∷ ("checkpoint_to", serialise c.checkpoint_to)
    ∷ ("count_records", c.count_records)
    ∷ []

-- `date.fromisoformat(v)`
unfoldable pub date_of : Value → Result Date
date_of (str_val s) = elim (date_fromisoformat s) [
  | some d ↦ ok d
  | none ↦ raise value_error "Invalid isoformat string"
]
date_of _ = raise type_error "fromisoformat: argument must be str"

mem_text : String → List String → Bool
mem_text s [] = false
mem_text s (k ∷ ks) = s == k || mem_text s ks

-- the entries whose key is not listed
without_keys : List String → Dict Value → Dict Value
unfolding mem_text
without_keys ks [] = []
without_keys ks ((k, v) ∷ d) =
    if mem_text k ks then without_keys ks d else (k, v) ∷ without_keys ks d

abbrev sink_kept_out : List String
sink_kept_out =
    "source_config" ∷ "ingestion_date" ∷ "ingestion_time" ∷ "run_id" ∷ "endpoint" ∷ "extra" ∷ []

abbrev sink_keywords : List String
sink_keywords = "credential_ref" ∷ "source_system_name" ∷ "extra" ∷ "file_format" ∷ []

-- Python refuses a keyword that the function does not take, and a call without a required one.
only_keywords : List String → Dict Value → Result (Unit {0})
unfolding without_keys
only_keywords ks d = elim (without_keys ks d) [
  | [] ↦ ok tt
  | kv ∷ _ ↦ raise type_error "got an unexpected keyword argument"
]

required_keyword : String → Dict Value → Result Value
unfolding lookup
required_keyword k d = elim (lookup k d) [
  | some v ↦ ok v
  | none ↦ raise type_error "missing a required argument"
]

-- `SinkConfigFactory.create(source_config=…, ingestion_date=…, …, **sink_raw)`
create_sink : SourceConfig → Date → Datetime → Value → Dict Value → Result SinkConfig
unfolding only_keywords required_keyword get_or Sink.create Sink.validate
create_sink source_config date time run_id kwargs = do
  only_keywords sink_keywords kwargs
  ref ← required_keyword "credential_ref" kwargs
  name ← required_keyword "source_system_name" kwargs
  Sink.create ref name source_config date time run_id (get_or kwargs "extra" none_val)
      (get_or kwargs "file_format" (str_val "parquet"))

unfoldable pub rebuild_source : ReadAdapterType → Value → Result SourceConfig
unfolding as_dict Source.create Source.inject_connection Source.inject_port Source.inject_jars
rebuild_source read_type v = do
  raw ← as_dict v
  built ← Source.create read_type raw
  Source.inject_connection built raw

unfoldable pub rebuild_sink : SourceConfig → Date → Datetime → Value → Value → Result SinkConfig
unfolding as_dict create_sink without_keys get_or
rebuild_sink source_config date time run_id v = do
  raw ← as_dict v
  sink ← create_sink source_config date time run_id (without_keys sink_kept_out raw)
  ok (record sink { endpoint = get_or raw "endpoint" (str_val "") })

-- `from_dict`; `repr` is Python's, for a checkpoint text that is no text
unfoldable pub from_dict : (Value → String) → Dict Value → Result RunContext
unfolding get_item get_or
from_dict repr data' = do
  read_type ← read_type_of (← get_item "read_type" data')
  write_type ← write_type_of (← get_item "write_type" data')
  metric_type ← metric_type_of (← get_item "metric_type" data')
  date ← date_of (← get_item "ingestion_date" data')
  time ← datetime_of (← get_item "ingestion_time" data')
  source_config ← rebuild_source read_type (← get_item "source_config" data')
  run_id ← get_item "run_id" data'
  sink_config ← rebuild_sink source_config date time run_id (← get_item "sink_config" data')
  dag_id ← get_item "dag_id" data'
  source_credentials ← get_item "source_credentials" data'
  sink_credentials ← get_item "sink_credentials" data'
  checkpoint_from ← deserialise repr (get_or data' "checkpoint_from" none_val)
  checkpoint_to ← deserialise repr (get_or data' "checkpoint_to" none_val)
  ok (record {
    dag_id = dag_id;
    run_id = run_id;
    ingestion_date = date;
    ingestion_time = time;
    read_type = read_type;
    write_type = write_type;
    metric_type = metric_type;
    source_config = source_config;
    sink_config = sink_config;
    source_credentials = source_credentials;
    sink_credentials = sink_credentials;
    metric_credentials = get_or data' "metric_credentials" (dict []);
    metric_config_raw = get_or data' "metric_config_raw" (dict []);
    checkpoint_from = checkpoint_from;
    checkpoint_to = checkpoint_to;
    count_records = get_or data' "count_records" (bool_val false);
  })
