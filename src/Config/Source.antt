-- ===== src/Config/Source.antt =====
-- adapters/source/base_read_adapter.py, the config classes, and
-- adapters/factory/source_config_factory.py. A field holds whatever value the configuration gives.
pub mod Laws
use batch_ingestion_service.Prelude.{
  String, Bool, true, false, Option, none, some, List, [], ◌∷◌, if◌then◌else◌, ◌<>◌,
}
use batch_ingestion_service.Prelude.Int.{ℤ, pos}
use batch_ingestion_service.Py.Exc.{Result, ok, err, raise, value_error, type_error, ◌>>=◌, ◌>>◌}
use batch_ingestion_service.Py.Value.{
  Value, none_val, int_val, str_val, enum_val, Dict, dict, truthy, or_else, lookup, get_or,
  get_item, set_item, py_int, list_text,
}
use batch_ingestion_service.Config.Kinds.{ReadAdapterType}

pub record TableSourceConfig : Type 0 where
  pub credential_ref : Value
  pub extra : Value
  pub read_options : Value
  pub host : Value
  pub port : Value
  pub database : Value
  pub schema : Value
  pub table : Value
  pub query : Value
  pub checkpoint_column : Value

pub record PathSourceConfig : Type 0 where
  pub credential_ref : Value
  pub extra : Value
  pub read_options : Value
  pub path : Value
  pub file_format : Value
  pub checkpoint_column : Value

pub record KafkaSourceConfig : Type 0 where
  pub credential_ref : Value
  pub extra : Value
  pub read_options : Value
  pub bootstrap_servers : Value
  pub topic : Value
  pub group_id : Value
  pub starting_offsets : Value
  pub value_format : Value

-- The subclasses of `SourceConfig`.
pub data SourceConfig : Type 0 where
  table : TableSourceConfig → SourceConfig
  path : PathSourceConfig → SourceConfig
  kafka : KafkaSourceConfig → SourceConfig

-- `_TABLE_TYPES`, `_PATH_TYPES` and `_KAFKA_TYPES`
pub data Family : Type 0 where
  tables paths topics : Family

unfoldable pub family : ReadAdapterType → Family
family ReadAdapterType.sql = tables
family ReadAdapterType.mysql = tables
family ReadAdapterType.nosql = tables
family ReadAdapterType.dynamodb = tables
family ReadAdapterType.cassandra = tables
family ReadAdapterType.file = paths
family ReadAdapterType.s3 = paths
family ReadAdapterType.kafka = topics

-- the names of the fields with a false value
unfoldable pub missing_names : Dict Value → List String
unfolding truthy
missing_names [] = []
missing_names ((name, value) ∷ rest) =
    if truthy value then missing_names rest else name ∷ missing_names rest

raise_missing : String → List String → Result (Unit {0})
raise_missing cls [] = ok tt
raise_missing cls (name ∷ names) =
    raise value_error ("Missing required " <> cls <> " field(s): " <> list_text (name ∷ names))

-- `_require`
unfoldable pub require : Dict Value → Result (Unit {0})
unfolding missing_names raise_missing
require fields = raise_missing "SourceConfig" (missing_names fields)

unfoldable pub build_table_config : Value → Dict Value → Result SourceConfig
unfolding get_or or_else require
build_table_config credential_ref kwargs =
    let database = get_or kwargs "database" (str_val "") in
    let table_name = get_or kwargs "table" (str_val "") in
    do
      require (("database", database) ∷ ("table", table_name) ∷ [])
      ok (
          table (record {
            credential_ref = credential_ref;
            extra = or_else (get_or kwargs "extra" none_val) (dict []);
            read_options = or_else (get_or kwargs "read_options" none_val) (dict []);
            host = str_val "";
            port = int_val (pos 0);
            database = database;
            schema = get_or kwargs "schema" (str_val "default");
            table = table_name;
            query = get_or kwargs "query" none_val;
            checkpoint_column = get_or kwargs "checkpoint_column" none_val;
          }))

unfoldable pub build_path_config : Value → Dict Value → Result SourceConfig
unfolding get_or or_else
build_path_config credential_ref kwargs = ok (
    path (record {
      credential_ref = credential_ref;
      extra = or_else (get_or kwargs "extra" none_val) (dict []);
      read_options = or_else (get_or kwargs "read_options" none_val) (dict []);
      path = str_val "";
      file_format = get_or kwargs "file_format" (enum_val "FileFormat.PARQUET" "parquet");
      checkpoint_column = get_or kwargs "checkpoint_column" none_val;
    }))

unfoldable pub build_kafka_config : Value → Dict Value → Result SourceConfig
unfolding get_or or_else require
build_kafka_config credential_ref kwargs =
    let topic = get_or kwargs "topic" (str_val "") in
    do
      require (("topic", topic) ∷ [])
      ok (
          kafka (record {
            credential_ref = credential_ref;
            extra = or_else (get_or kwargs "extra" none_val) (dict []);
            read_options = or_else (get_or kwargs "read_options" none_val) (dict []);
            bootstrap_servers = str_val "";
            topic = topic;
            group_id = get_or kwargs "group_id" (str_val "");
            starting_offsets = get_or kwargs "starting_offsets" (str_val "earliest");
            value_format = get_or kwargs "value_format" (str_val "json");
          }))

build_config : Family → Value → Dict Value → Result SourceConfig
unfolding build_table_config build_path_config build_kafka_config
build_config tables = build_table_config
build_config paths = build_path_config
build_config topics = build_kafka_config

-- `SourceConfigFactory.create(adapter_type=…, **kwargs)`: Python refuses a call that has no
-- `credential_ref` or gives `adapter_type` twice.
unfoldable pub create : ReadAdapterType → Dict Value → Result SourceConfig
unfolding family build_config lookup
create adapter_type kwargs = elim (lookup "adapter_type" kwargs) [
  | some _ ↦ raise type_error "got multiple values for keyword argument 'adapter_type'"
  | none ↦ elim (lookup "credential_ref" kwargs) [
    | none ↦ raise type_error "missing 1 required positional argument: 'credential_ref'"
    | some ref ↦ build_config (family adapter_type) ref kwargs
  ]
]

-- `if k in credentials: field = credentials[k]`
abbrev pub injected : Dict Value → String → Value → Value
injected credentials k v = get_or credentials k v

unfoldable pub inject_port : Option Value → Value → Result Value
unfolding py_int
inject_port none old = ok old
inject_port (some v) old = do n ← py_int v; ok (int_val n)

unfoldable pub inject_jars : Option Value → Value → Result Value
unfolding set_item
inject_jars none extra = ok extra
inject_jars (some v) extra = set_item "jars" v extra

-- `SourceConfigFactory.inject_connection`, with the config that it leaves
unfoldable pub inject_connection : SourceConfig → Dict Value → Result SourceConfig
unfolding lookup get_or
inject_connection (table c) credentials = do
  port ← inject_port (lookup "port" credentials) c.port
  extra ← inject_jars (lookup "jars" credentials) c.extra
  ok (table (record c { host = injected credentials "host" c.host; port = port; extra = extra }))
inject_connection (path c) credentials =
    ok (path (record c { path = injected credentials "path" c.path }))
inject_connection (kafka c) credentials = ok (
    kafka (record c {
      bootstrap_servers = injected credentials "bootstrap_servers" c.bootstrap_servers;
    }))
