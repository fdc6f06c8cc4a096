-- ===== src/Tests/Writes.antt =====
-- The write adapters on a file system that holds the mode of each path's last change.
use batch_ingestion_service.Prelude.{
  ℕ, String, ◌<>◌, ◌≡◌, refl, sym, ap, ◌∙◌, ◌≢◌, ◌↔◌, true, none, some, List, [], ◌∷◌, ◌==◌, map,
}
use batch_ingestion_service.Py.Exc.{Exc, ok, err, ok-injective, value_error}
use batch_ingestion_service.Py.Exec.{pure}
use batch_ingestion_service.Py.Value.{str_val, dict, Dict, insert, or_else}
use batch_ingestion_service.Config.Kinds.{WriteAdapterType, ReadAdapterType}
use batch_ingestion_service.Config.Sink.{SinkConfig}
use batch_ingestion_service.Config.Source.{table}
use batch_ingestion_service.Py.Path.{split_scheme, after_mark, path_text, join, path_of}
use batch_ingestion_service.Write.Path.{
  build_write_path, base_path, place, split_endpoint, run_part, time_part, date_part,
}
use batch_ingestion_service.Write.Hadoop.{Hadoop}
use batch_ingestion_service.Write.Schema.{validate_schema, pre_write, names_of}
use batch_ingestion_service.Write.Schema.Laws.{Agrees, validate_schema_iff, pre_write_columns}
use batch_ingestion_service.Write.Sink.{Sink, sink_with, write, write_body, sink_config_of}
use batch_ingestion_service.Write.Sink.Laws.{KeepsFiles, write_refused, write_reraises}
use batch_ingestion_service.Write.Sink.Endpoint.{build_write_path_s3}
use batch_ingestion_service.Spark.{World, SourceAdapter, SinkAdapter}
use batch_ingestion_service.Tests.Data.{orders_table, orders_sink, source_secret, repr}

abbrev pub Files : Type 0
Files = Dict String

-- a frame is the dictionary of its columns' types
abbrev pub local : Hadoop Files (Dict String) String
local = record {
  fields = λ d. d;
  same_type = ◌==◌;
  type_text = λ t. t;
  select = λ names d. ok (map (λ n. (n, "string")) names);
  cast = λ n t d. ok d;
  check_mode = λ m. pure tt;
  save = λ w p d. (λ s. (ok tt, insert p w.mode s));
  set_env = λ k v. pure tt;
  set_conf = λ k v. pure tt;
  login_from_keytab = λ p t. pure tt;
  copy = λ src dest del over. (λ s. (ok true, insert dest "copy" s));
  exists = λ p. pure true;
  head_bucket = λ r k s b. pure 200;
  repr = repr;
  print = λ s. pure tt;
}

abbrev pub local_KeepsFiles : KeepsFiles local (λ (s : Files). s)
local_KeepsFiles = record {
  by_env = λ k v s. refl;
  by_conf = λ k v s. refl;
  by_login = λ p t s. refl;
  by_mode = λ m s. refl;
  by_print = λ l s. refl;
}

abbrev expected : Dict String
expected = ("id", "int") ∷ ("total", "double") ∷ []

abbrev pub frame : Dict String
frame = ("note", "string") ∷ ("total", "double") ∷ ("id", "int") ∷ []

valid : validate_schema local (some expected) frame ≡ ok true
unfolding validate_schema
valid = refl

validate_schema_iff_example :
    (validate_schema local (some expected) frame ≡ ok true) ↔ Agrees local expected frame
validate_schema_iff_example = validate_schema_iff local expected frame

names-selected :
    (names : List String) → names_of {V = String} (map (λ n. (n, "string")) names) ≡ names
names-selected [] = refl
names-selected (n ∷ names) = ap (λ ns. n ∷ ns) (names-selected names)

abbrev written : Dict String
written = ("id", "string") ∷ ("total", "string") ∷ []

selected : pre_write local (some expected) frame ≡ ok written
unfolding pre_write
selected = refl

pre_write_columns_example : names_of written ≡ names_of expected
pre_write_columns_example =
    pre_write_columns local expected frame written
      (λ names d e h. ap names_of (sym (ok-injective h)) ∙ names-selected names)
      (λ name t d e h. ap names_of (sym (ok-injective h))) valid selected

abbrev orders : Sink String
orders = sink_with WriteAdapterType.hadoop (dict []) (str_val "parquet") orders_sink

abbrev strict : Sink String
strict = record orders { schema = some expected }

abbrev narrow : Dict String
narrow = ("id", "string") ∷ []

abbrev refusal : Exc
refusal = record {
  cls = value_error;
  message =
      "Schema validation failed:\nColumn 'id': expected int, got string\nColumn 'total': expected double, got None";
}

drifted : validate_schema local (some expected) narrow ≡ err refusal
unfolding validate_schema
drifted = refl

write_refused_example :
    ((write local strict narrow []).1 ≡ []) × ((write local strict narrow []).0 ≢ ok tt)
write_refused_example =
    write_refused local (λ s. s) local_KeepsFiles strict narrow refusal [] drifted

abbrev run_path : String
run_path =
    "hdfs://namenode:9000/postgres-prod/shop/default/orders/ingestion_date=2024-01-05/ingestion_time=06-07-08/run_id=manual__2024_01"

built : build_write_path orders_sink ≡ ok run_path
unfolding build_write_path base_path or_else place split_endpoint split_scheme after_mark path_text
    join path_of run_part time_part date_part
built = refl

write_reraises_example : (write local strict narrow []).0 ≡ (write_body local strict narrow []).0
write_reraises_example = write_reraises local strict narrow run_path [] built (λ line t. refl)

abbrev bucket_sink : SinkConfig
bucket_sink = record orders_sink { endpoint = str_val "s3://lake/raw" }

bucket_built :
    build_write_path bucket_sink
    ≡ ok
        "s3://lake/raw/postgres-prod/shop/default/orders/ingestion_date=2024-01-05/ingestion_time=06-07-08/run_id=manual__2024_01"
unfolding build_write_path base_path or_else place split_endpoint split_scheme after_mark path_text
    join path_of run_part time_part date_part
bucket_built = refl

build_write_path_s3_example :
    (cfg' : SinkConfig) × (tail : String) × (sink_config_of WriteAdapterType.s3 bucket_sink
      ≡ ok cfg')
    × ("s3://lake/raw/postgres-prod/shop/default/orders/ingestion_date=2024-01-05/ingestion_time=06-07-08/run_id=manual__2024_01"
        ≡ "s3://" <> tail)
    × (build_write_path cfg' ≡ ok ("s3a://" <> tail))
build_write_path_s3_example = build_write_path_s3 bucket_sink "lake/raw" _ refl bucket_built

abbrev pub source : SourceAdapter
source = record {
  read_type = ReadAdapterType.sql;
  source_config = table orders_table;
  credentials = dict source_secret;
  checkpoint_from = none;
  checkpoint_to = none;
}

abbrev pub sink : SinkAdapter
sink = record {
  write_type = WriteAdapterType.hadoop;
  sink_config = orders_sink;
  credentials = dict [];
}

abbrev pub idle : World Files ℕ
idle = record { cluster = []; queues = 0; xcom = [] }
