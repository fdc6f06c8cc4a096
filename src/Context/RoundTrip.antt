-- ===== src/Context/RoundTrip.antt =====
-- A run context survives its trip through XCom.
use batch_ingestion_service.Prelude.{String, ◌≡◌, true, [], arith}
use batch_ingestion_service.Py.Exc.{ok}
use batch_ingestion_service.Py.Time.{Date, Datetime, date_ok}
use batch_ingestion_service.Py.Time.Laws.{
  IsTime, fromisoformat-isoformat, date_fromisoformat-isoformat_date,
}
use batch_ingestion_service.Py.Value.{Value, dict, truthy}
use batch_ingestion_service.Config.Kinds.{ReadAdapterType}
use batch_ingestion_service.Config.Kinds.Laws.{
  read_type_of-read_value, write_type_of-write_value, metric_type_of-metric_value,
}
use batch_ingestion_service.Config.Source
use batch_ingestion_service.Config.Source.{
  SourceConfig, table, path, kafka, Family, tables, paths, topics, family,
}
use batch_ingestion_service.Config.Source.Laws.{IsSource, IsTable, IsPath, IsTopic}
use batch_ingestion_service.Config.Sink.{SinkConfig}
use batch_ingestion_service.Config.Sink.Laws.{IsTableOrPath}
use batch_ingestion_service.Checkpoint.{datetime_of}
use batch_ingestion_service.Checkpoint.Laws.{CheckpointOk, deserialise-serialise}
use batch_ingestion_service.Context.{
  RunContext, source_dict, sink_dict, to_dict, from_dict, rebuild_source, rebuild_sink, date_of,
  date_val, time_val,
}

rebuild_source-table :
    (t : ReadAdapterType) (c : Source.TableSourceConfig)
    → IsTable t c
    → rebuild_source t (dict (source_dict (table c))) ≡ ok (table c)
unfolding rebuild_source source_dict
rebuild_source-table t c h =
    ground (arith, h.typed, h.database, h.table, h.port, h.extra, h.read_options)

rebuild_source-path :
    (t : ReadAdapterType) (c : Source.PathSourceConfig)
    → IsPath t c
    → rebuild_source t (dict (source_dict (path c))) ≡ ok (path c)
unfolding rebuild_source source_dict
rebuild_source-path t c h = ground (arith, h.typed, h.extra, h.read_options)

rebuild_source-topic :
    (t : ReadAdapterType) (c : Source.KafkaSourceConfig)
    → IsTopic t c
    → rebuild_source t (dict (source_dict (kafka c))) ≡ ok (kafka c)
unfolding rebuild_source source_dict
rebuild_source-topic t c h = ground (arith, h.typed, h.topic, h.extra, h.read_options)

pub rebuild_source-source_dict :
    (t : ReadAdapterType) (c : SourceConfig)
    → IsSource t c
    → rebuild_source t (dict (source_dict c)) ≡ ok c
rebuild_source-source_dict t (table c) h = rebuild_source-table t c h
rebuild_source-source_dict t (path c) h = rebuild_source-path t c h
rebuild_source-source_dict t (kafka c) h = rebuild_source-topic t c h

-- What `SinkConfigFactory` makes for the run of a context.
pub record IsSink (c : RunContext) : Type 0 where
  pub credential_ref : truthy c.sink_config.credential_ref ≡ true
  pub source_system_name : truthy c.sink_config.source_system_name ≡ true
  pub run_id : truthy c.run_id ≡ true
  pub same_run : c.sink_config.run_id ≡ c.run_id
  pub same_date : c.sink_config.ingestion_date ≡ c.ingestion_date
  pub same_time : c.sink_config.ingestion_time ≡ c.ingestion_time
  pub same_source : c.sink_config.source_config ≡ c.source_config

rebuild_sink-sink_dict :
    (s : SinkConfig) (src : SourceConfig) (d : Date) (t : Datetime) (run : Value)
    → truthy s.credential_ref ≡ true
    → truthy s.source_system_name ≡ true
    → truthy run ≡ true
    → IsTableOrPath src
    → rebuild_sink src d t run (dict (sink_dict s))
      ≡ ok (record s {
        source_config = src;
        ingestion_date = d;
        ingestion_time = t;
        run_id = run;
        extra = dict [];
      })
unfolding rebuild_sink sink_dict
rebuild_sink-sink_dict s (table c) d t run h1 h2 h3 h = ground arith
rebuild_sink-sink_dict s (path c) d t run h1 h2 h3 h = ground arith
rebuild_sink-sink_dict s (kafka c) d t run h1 h2 h3 h = absurd h

-- A context that the init task may push.
pub record IsContext (c : RunContext) : Type 0 where
  pub source : IsSource c.read_type c.source_config
  pub table_or_path : IsTableOrPath c.source_config
  pub sink : IsSink c
  pub date : date_ok c.ingestion_date ≡ true
  pub time : IsTime c.ingestion_time
  pub from_ok : CheckpointOk c.checkpoint_from
  pub to_ok : CheckpointOk c.checkpoint_to

-- The sink's `extra` is left behind: `from_dict` takes it out of the sink's keywords.
abbrev pub without_sink_extra : RunContext → RunContext
without_sink_extra c = record c { sink_config = record c.sink_config { extra = dict [] } }

date_of-isoformat : (d : Date) → date_ok d ≡ true → date_of (date_val d) ≡ ok d
unfolding date_of
date_of-isoformat d h = ground (arith, date_fromisoformat-isoformat_date d h)

datetime_of-isoformat : (t : Datetime) → IsTime t → datetime_of (time_val t) ≡ ok t
unfolding datetime_of
datetime_of-isoformat t h = ground (arith, fromisoformat-isoformat "T" t h)

-- `RunContext.from_dict(c.to_dict())` is `c`, but for the sink's `extra`, which it empties, for
-- every context of a table or path source whose configs the factories made.
pub from_dict-to_dict :
    (repr : Value → String) (c : RunContext)
    → IsContext c
    → from_dict repr (to_dict c) ≡ ok (without_sink_extra c)
unfolding from_dict to_dict
from_dict-to_dict repr c h =
    let sink =
      rebuild_sink-sink_dict c.sink_config c.source_config c.ingestion_date c.ingestion_time
        c.run_id h.sink.credential_ref h.sink.source_system_name h.sink.run_id h.table_or_path in
    rw
      (
        read_type_of-read_value c.read_type,
        write_type_of-write_value c.write_type,
        metric_type_of-metric_value c.metric_type,
        date_of-isoformat c.ingestion_date h.date,
        datetime_of-isoformat c.ingestion_time h.time,
        rebuild_source-source_dict c.read_type c.source_config h.source,
        sink,
        deserialise-serialise repr c.checkpoint_from h.from_ok,
        deserialise-serialise repr c.checkpoint_to h.to_ok,
      )
      (cc (h.sink.same_run, h.sink.same_date, h.sink.same_time, h.sink.same_source))
