-- ===== src/Tests/Values.antt =====
-- Configurations, checkpoints and paths.
use batch_ingestion_service.Prelude.{
  String, ◌<>◌, ◌≡◌, refl, false, some, [], ◌∷◌, arith, All, ◌==◌, is_empty,
}
use batch_ingestion_service.Prelude.Int.{negsuc}
use batch_ingestion_service.Py.Exc.{ok}
use batch_ingestion_service.Py.Value.{Value, or_else, str_val, Dict, dict}
use batch_ingestion_service.Py.Number.{str_of_int}
use batch_ingestion_service.Py.Time.{date_ok, isoformat_date, strftime_hms}
use batch_ingestion_service.Py.Time.Laws.{IsTime}
use batch_ingestion_service.Py.Path.{join_slash}
use batch_ingestion_service.Config.Kinds.{ReadAdapterType}
use batch_ingestion_service.Config.Source
use batch_ingestion_service.Config.Source.{table}
use batch_ingestion_service.Config.Source.Laws.{
  IsSource, create-IsSource, inject_connection-IsSource,
}
use batch_ingestion_service.Config.Sink
use batch_ingestion_service.Config.Sink.Laws.{IsCreated, create_sound}
use batch_ingestion_service.Checkpoint.{
  number, stamp, parse_text, stored_text, serialise, deserialise,
}
use batch_ingestion_service.Checkpoint.Laws.{deserialise-serialise, parse_text-stored_text}
use batch_ingestion_service.Py.Path.Laws.{Lacks, IsSegment}
use batch_ingestion_service.Write.Path.{date_part, time_part, run_part, build_write_path}
use batch_ingestion_service.Write.Path.Segments.{IsDated, partitions, Sanitises}
use batch_ingestion_service.Write.Path.Laws.{IsTableSink, build_write_path-table}
use batch_ingestion_service.Tests.Data.{
  day, start, orders_table, planned_table, orders_sink, source_secret, repr,
}

pub start-IsTime : IsTime start
unfolding date_ok
start-IsTime = record {
  date = refl;
  hour = omega arith;
  minute = omega arith;
  second = omega arith;
  micro = omega arith;
  offset = omega arith;
}

stored-10 : stored_text (number (negsuc 9)) ≡ "-10"
unfolding stored_text str_of_int
stored-10 = refl

parse_text-stored_text_example : parse_text (stored_text (stamp start)) ≡ stamp start
parse_text-stored_text_example = parse_text-stored_text (stamp start) start-IsTime

deserialise-serialise_example :
    deserialise repr (serialise (some (stamp start))) ≡ ok (some (stamp start))
deserialise-serialise_example = deserialise-serialise repr (some (stamp start)) start-IsTime

abbrev pub orders_kwargs : Dict Value
orders_kwargs =
    ("credential_ref", str_val "postgres/prod")
    ∷ ("database", str_val "shop")
    ∷ ("table", str_val "orders")
    ∷ ("checkpoint_column", str_val "id")
    ∷ []

created : Source.create ReadAdapterType.sql orders_kwargs ≡ ok (table planned_table)
unfolding Source.create
created = refl

create-IsSource_example : IsSource ReadAdapterType.sql (table planned_table)
create-IsSource_example =
    create-IsSource ReadAdapterType.sql orders_kwargs (table planned_table) created

injected : Source.inject_connection (table planned_table) source_secret ≡ ok (table orders_table)
unfolding Source.inject_connection Source.inject_port Source.inject_jars
injected = refl

inject_connection-IsSource_example : IsSource ReadAdapterType.sql (table orders_table)
inject_connection-IsSource_example =
    inject_connection-IsSource ReadAdapterType.sql (table planned_table) (table orders_table)
      source_secret
      (create-IsSource ReadAdapterType.sql orders_kwargs (table planned_table) created) injected

sink_made :
    Sink.create
      (str_val "hadoop/prod")
      (str_val "postgres-prod")
      (table orders_table)
      day
      start
      (str_val "manual__2024-01")
      (dict [])
      (str_val "parquet")
    ≡ ok (record orders_sink { endpoint = str_val "" })
unfolding Sink.create Sink.validate
sink_made = refl

create_sound_example :
    IsCreated
      (str_val "hadoop/prod")
      (str_val "postgres-prod")
      (table orders_table)
      (str_val "manual__2024-01")
    × (record orders_sink { endpoint = str_val "" } ≡ record orders_sink { endpoint = str_val "" })
unfolding or_else
create_sound_example =
    create_sound (str_val "hadoop/prod") (str_val "postgres-prod") (table orders_table) day start
      (str_val "manual__2024-01") (dict []) (str_val "parquet")
      (record orders_sink { endpoint = str_val "" }) sink_made

schema_kept : or_else (str_val "default") (str_val "default") ≡ str_val "default"
unfolding or_else
schema_kept = refl

names_plain : All IsSegment ("namenode:9000" ∷ "postgres-prod" ∷ "shop" ∷ "default" ∷ "orders" ∷ [])
names_plain = (
  plain (ground arith) refl refl,
  (
    plain (ground arith) refl refl,
    (
      plain (ground arith) refl refl,
      (plain (ground arith) refl refl, (plain (ground arith) refl refl, tt)),
    ),
  ),
)
  where
    plain : {s : String} → Lacks b'/' s → is_empty s ≡ false → (s == ".") ≡ false → IsSegment s
    plain h1 h2 h3 = record { no_slash = h1; nonempty = h2; not_dot = h3 }

abbrev orders_sink-IsTableSink : IsTableSink orders_sink
orders_sink-IsTableSink = record {
  source = orders_table;
  scheme = "hdfs";
  rest = "namenode:9000";
  name = "postgres-prod";
  database = "shop";
  schema = "default";
  tbl = "orders";
  run_id = "manual__2024-01";
  source_eq = refl;
  endpoint_eq = refl;
  name_eq = refl;
  database_eq = refl;
  schema_eq = schema_kept;
  table_eq = refl;
  run_eq = refl;
  scheme_plain = ground arith;
  names_plain = names_plain;
}

pub orders_sink-IsDated : IsDated orders_sink
orders_sink-IsDated = record { date = start-IsTime.date; time = start-IsTime }

build_write_path-table_example :
    (safe : String) × Sanitises "manual__2024-01" safe
    × (build_write_path orders_sink
        ≡ ok (
            "hdfs"
            <> "://"
            <> join_slash (
                "namenode:9000"
                ∷ "postgres-prod"
                ∷ "shop"
                ∷ "default"
                ∷ "orders"
                ∷ ("ingestion_date=" <> isoformat_date day)
                ∷ ("ingestion_time=" <> strftime_hms start)
                ∷ ("run_id=" <> safe)
                ∷ [])))
build_write_path-table_example =
    build_write_path-table orders_sink orders_sink-IsTableSink orders_sink-IsDated

orders_path :
    ("hdfs"
      <> "://"
      <> join_slash (
          "namenode:9000"
          ∷ "postgres-prod"
          ∷ "shop"
          ∷ "default"
          ∷ "orders"
          ∷ partitions orders_sink "manual__2024-01"))
    ≡ "hdfs://namenode:9000/postgres-prod/shop/default/orders/ingestion_date=2024-01-05/ingestion_time=06-07-08/run_id=manual__2024_01"
unfolding join_slash date_part time_part run_part
orders_path = refl
