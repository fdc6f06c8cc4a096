-- ===== src/Read/Factory.antt =====
-- adapters/factory/read_adapter_factory.py, and the adapters that it makes as the source of the Spark
-- task.
pub mod Laws
pub mod Files
pub mod Probes
use batch_ingestion_service.Prelude.{String, ◌<>◌, Bool, true, Option, none, some, List, [], ◌∷◌}
use batch_ingestion_service.Prelude.Int.{pos}
use batch_ingestion_service.Py.Exc.{Result, ok, err, raise, attribute_error}
use batch_ingestion_service.Py.Exec.{Exec, pure, lift, continue, ◌>>=◌}
use batch_ingestion_service.Py.Value.{Value, int_val, str_val, Dict, dict}
use batch_ingestion_service.Config.Kinds.{ReadAdapterType}
use batch_ingestion_service.Config.Source.{
  SourceConfig, TableSourceConfig, PathSourceConfig, KafkaSourceConfig, table, path, kafka,
}
use batch_ingestion_service.Checkpoint.{Checkpoint}
use batch_ingestion_service.Spark.Source.{normalised}
use batch_ingestion_service.Write.Hadoop.{Hadoop}
use batch_ingestion_service.Read.Frames.{Frames, given}
use batch_ingestion_service.Read.Sql.{SqlAdapter, Dialect, postgres, mysql, read_options_of}
use batch_ingestion_service.Read.NoSql
use batch_ingestion_service.Read.NoSql.{NoSqlAdapter, Store, mongodb, dynamodb, cassandra, Stores}
use batch_ingestion_service.Read.File
use batch_ingestion_service.Read.File.{FileAdapter, FileSystem, hdfs, s3a, FileStatus}
use batch_ingestion_service.Read.Kafka
use batch_ingestion_service.Read.Kafka.{KafkaAdapter, Decoder}

-- the adapter classes of adapters/source
pub data ReadClass : Type 0 where
  sql_class : Dialect → ReadClass
  nosql_class : Store → ReadClass
  file_class : FileSystem → ReadClass
  kafka_class : ReadClass

-- `ReadAdapterFactory._registry`
unfoldable pub registry : ReadAdapterType → ReadClass
registry ReadAdapterType.sql = sql_class postgres
registry ReadAdapterType.mysql = sql_class mysql
registry ReadAdapterType.nosql = nosql_class mongodb
registry ReadAdapterType.dynamodb = nosql_class dynamodb
registry ReadAdapterType.cassandra = nosql_class cassandra
registry ReadAdapterType.file = file_class hdfs
registry ReadAdapterType.s3 = file_class s3a
registry ReadAdapterType.kafka = kafka_class

-- The attributes that `BaseReadAdapter.__init__` sets; the adapters of the factory have no schema and no
-- filters.
pub record ReadAdapter : Type 0 where
  pub cls : ReadClass
  pub source_config : SourceConfig
  pub credentials : Value
  pub batch_size : Value
  pub checkpoint_from : Option Checkpoint
  pub checkpoint_to : Option Checkpoint

-- the constructors' work on the config that they keep
abbrev pub adapter_of : ReadAdapterType → SourceConfig → ReadAdapter
adapter_of t c = record {
  cls = registry t;
  source_config = c;
  credentials = dict [];
  batch_size = int_val (pos 10_000);
  checkpoint_from = none;
  checkpoint_to = none;
}

-- `ReadAdapterFactory.create`
unfoldable pub create : ReadAdapterType → SourceConfig → Result ReadAdapter
unfolding normalised registry
create t config = elim (normalised t config) [ ok c ↦ ok (adapter_of t c) | err e ↦ err e ]

-- an attribute of the config that only another class of configs has
abbrev pub missing : {A : Type 0} → String → Result A
missing name = raise attribute_error ("object has no attribute '" <> name <> "'")

abbrev pub sql_adapter : Dialect → ReadAdapter → TableSourceConfig → SqlAdapter
sql_adapter dialect a c = record {
  dialect = dialect;
  source_config = c;
  credentials = a.credentials;
  batch_size = a.batch_size;
  filters = [];
  checkpoint_from = a.checkpoint_from;
  checkpoint_to = a.checkpoint_to;
  jdbc_options = [];
}

-- the adapter of its class, where the config is of the class that the adapter reads
unfoldable pub as_sql : Dialect → ReadAdapter → Result SqlAdapter
as_sql dialect a = elim a.source_config [
  | table c ↦ ok (sql_adapter dialect a c)
  | path c ↦ missing "host"
  | kafka c ↦ missing "host"
]

module _ {T : Type 0} where
  unfoldable pub as_nosql : Store → ReadAdapter → Result (NoSqlAdapter T)
  as_nosql store a = elim a.source_config [
    | table c ↦ ok (record {
      store = store;
      source_config = c;
      credentials = a.credentials;
      batch_size = a.batch_size;
      schema = none;
      filters = [];
      checkpoint_from = a.checkpoint_from;
      checkpoint_to = a.checkpoint_to;
      read_options = [];
    })
    | path c ↦ missing "database"
    | kafka c ↦ missing "database"
  ]

  unfoldable pub as_file : FileSystem → ReadAdapter → Result (FileAdapter T)
  as_file file_system a = elim a.source_config [
    | path c ↦ ok (record {
      file_system = file_system;
      source_config = c;
      credentials = a.credentials;
      schema = none;
      filters = [];
      checkpoint_from = a.checkpoint_from;
      checkpoint_to = a.checkpoint_to;
      post_filters = [];
    })
    | table c ↦ missing "file_format"
    | kafka c ↦ missing "file_format"
  ]

  unfoldable pub as_kafka : ReadAdapter → Result (KafkaAdapter T)
  as_kafka a = elim a.source_config [
    | kafka c ↦ ok (record {
      source_config = c;
      credentials = a.credentials;
      schema = none;
      checkpoint_from = a.checkpoint_from;
      checkpoint_to = a.checkpoint_to;
    })
    | table c ↦ missing "starting_offsets"
    | path c ↦ missing "starting_offsets"
  ]

module _ (repr : Value → String) {S D T K : Type 0} (h : Hadoop S D T) (f : Frames S D T)
    (d : Decoder D T) (stores : Stores S K) (list_status : Value → Exec S (List FileStatus))
    (path_exists : Value → Exec S Bool) where
  -- `SQLAdapter.read`
  unfoldable pub read_sql : SqlAdapter → Exec S D
  unfolding read_options_of
  read_sql a = do options ← lift (read_options_of repr a); f.load (str_val "jdbc") options none none

  unfoldable pub read_nosql : NoSqlAdapter T → Exec S D
  unfolding NoSql.read
  read_nosql a = do read ← NoSql.read repr f a; pure read.0

  unfoldable pub read_file : FileAdapter T → Exec S D
  unfolding File.read
  read_file a = do read ← File.read repr h f list_status path_exists a; pure read.0

  unfoldable pub read_as : ReadClass → ReadAdapter → Exec S D
  unfolding as_sql as_nosql as_file as_kafka read_sql read_nosql read_file Kafka.read
  read_as (sql_class dialect) a = lift (as_sql dialect a) >>= read_sql
  read_as (nosql_class store) a = lift (as_nosql store a) >>= read_nosql
  read_as (file_class file_system) a = lift (as_file file_system a) >>= read_file
  read_as kafka_class a = lift (as_kafka a) >>= Kafka.read repr f d

  -- `read` of an adapter of the factory
  unfoldable pub read : ReadAdapter → Exec S D
  unfolding read_as
  read a = read_as a.cls a

  unfoldable pub validate_as : ReadClass → ReadAdapter → Exec S Bool
  unfolding as_nosql as_file NoSql.validate_connection File.validate_connection
  validate_as (sql_class dialect) a = pure true
  validate_as (nosql_class store) a =
      lift (as_nosql store a) >>= NoSql.validate_connection repr f stores
  validate_as (file_class file_system) a =
      lift (as_file file_system a) >>= File.validate_connection repr h f list_status path_exists
  validate_as kafka_class a = pure true

  -- `validate_connection` of an adapter of the factory
  unfoldable pub validate_connection : ReadAdapter → Exec S Bool
  unfolding validate_as
  validate_connection a = validate_as a.cls a
