-- ===== src/Read/Factory/Probes.antt =====
-- The validations of the adapters of the read factory leave the files of a cluster alone, where the
-- probes of the source systems do.
use batch_ingestion_service.Prelude.{String, refl, Bool, none, List}
use batch_ingestion_service.Py.Exc.{Result}
use batch_ingestion_service.Py.Exec.{Exec, lift, ◌>>=◌, Keeps, bind-Keeps, lift-Keeps}
use batch_ingestion_service.Py.Value.{
  Value, none_val, str_val, get_or, get_item, as_dict, method_dict, insert,
}
use batch_ingestion_service.Write.Hadoop.{Hadoop}
use batch_ingestion_service.Write.Sink.Laws.{KeepsFiles}
use batch_ingestion_service.Read.Frames.{Frames}
use batch_ingestion_service.Read.NoSql
use batch_ingestion_service.Read.NoSql.{
  NoSqlAdapter, Store, mongodb, dynamodb, cassandra, Stores, pipeline_key, connection_options,
  format_of, described, validate_mongodb, validate_dynamodb, validate_cassandra,
}
use batch_ingestion_service.Read.File
use batch_ingestion_service.Read.File.{FileAdapter, FileStatus}
use batch_ingestion_service.Read.Kafka.{Decoder}
use batch_ingestion_service.Read.Factory.{
  ReadAdapter, ReadClass, sql_class, nosql_class, file_class, kafka_class, as_nosql, as_file,
  validate_as, validate_connection,
}
use batch_ingestion_service.Read.Factory.Files.{LoadsOnly, after_lift, configure-Keeps}

-- The calls by which the adapters look at their source systems leave the files alone.
pub record LooksOnly {S K F : Type 0} (stores : Stores S K) (path_exists : Value → Exec S Bool)
    (files : S → F) : Type 0 where
  pub by_describe : (r k s t : Value) → Keeps files (stores.describe_table r k s t)
  pub by_cluster : (a b c d : Value) → Keeps files (stores.cluster a b c d)
  pub by_connect : (k : K) → Keeps files (stores.connect k)
  pub by_shutdown : (k : K) → Keeps files (stores.shutdown k)
  pub by_path : (p : Value) → Keeps files (path_exists p)

module _ (repr : Value → String) {S D T K F : Type 0} (h : Hadoop S D T) (f : Frames S D T)
    (d : Decoder D T) (stores : Stores S K) (list_status : Value → Exec S (List FileStatus))
    (path_exists : Value → Exec S Bool) (files : S → F) (kh : KeepsFiles h files)
    (kf : LoadsOnly f files) (kl : LooksOnly stores path_exists files) where
  abbrev lifted :
      {A B : Type 0} (r : Result A) (m : A → Exec S B)
      → ((a : A) → Keeps files (m a))
      → Keeps files (lift r >>= m)
  lifted r m k = after_lift repr h f d stores list_status path_exists files kh kf r m k

  mongodb-Keeps : (a : NoSqlAdapter T) → Keeps files (validate_mongodb repr f a)
  unfolding validate_mongodb
  mongodb-Keeps a = lifted (connection_options repr a) _ λ options.
      let probe = insert pipeline_key (str_val "[{\"$limit\": 1}]") options in
      bind-Keeps files (f.load (format_of repr f a) probe none none) _
        (kf.by_load (format_of repr f a) probe none none) (λ df s. refl)

  described-Keeps : (a : NoSqlAdapter T) → Keeps files (described repr f stores a)
  unfolding described
  described-Keeps a = lifted (method_dict a.credentials) _ λ credentials.
      bind-Keeps files (stores.describe_table _ _ _ _) _
        (kl.by_describe (get_or credentials "aws_region" none_val)
          (get_or credentials "aws_access_key_id" none_val)
          (get_or credentials "aws_secret_access_key" none_val) a.source_config.table)
        (λ response. lifted (get_item "Table" response) _ λ entry. lift-Keeps files (as_dict entry))

  dynamodb-Keeps : (a : NoSqlAdapter T) → Keeps files (validate_dynamodb repr f stores a)
  unfolding validate_dynamodb
  dynamodb-Keeps a =
      bind-Keeps files (described repr f stores a) _ (described-Keeps a)
        λ entry. lifted (get_item "TableStatus" entry) _ (λ status s. refl)

  cassandra-Keeps : (a : NoSqlAdapter T) → Keeps files (validate_cassandra repr f stores a)
  unfolding validate_cassandra
  cassandra-Keeps a = lifted (method_dict a.credentials) _ λ credentials.
      bind-Keeps files (stores.cluster _ _ _ _) _
        (kl.by_cluster a.source_config.host a.source_config.port
          (get_or credentials "username" none_val) (get_or credentials "password" none_val))
        λ cluster. bind-Keeps files (stores.connect cluster) _ (kl.by_connect cluster) λ connected.
          bind-Keeps files (stores.shutdown cluster) _ (kl.by_shutdown cluster) (λ _ s. refl)

  nosql-Keeps : (a : NoSqlAdapter T) → Keeps files (NoSql.validate_connection repr f stores a)
  unfolding NoSql.validate_connection
  nosql-Keeps a = by_store a.store
    where
      by_store :
          (st : Store)
          → Keeps files (elim st [
            | mongodb ↦ validate_mongodb repr f a
            | dynamodb ↦ validate_dynamodb repr f stores a
            | cassandra ↦ validate_cassandra repr f stores a
          ])
      by_store mongodb = mongodb-Keeps a
      by_store dynamodb = dynamodb-Keeps a
      by_store cassandra = cassandra-Keeps a

  file-Keeps :
      (a : FileAdapter T)
      → Keeps files (File.validate_connection repr h f list_status path_exists a)
  unfolding File.validate_connection
  file-Keeps a =
      bind-Keeps files (File.configure repr h f list_status path_exists a) _
        (configure-Keeps repr h f d stores list_status path_exists files kh kf a)
        (λ _. kl.by_path a.source_config.path)

  validate_as-Keeps :
      (c : ReadClass) (a : ReadAdapter)
      → Keeps files (validate_as repr h f d stores list_status path_exists c a)
  unfolding validate_as
  validate_as-Keeps (sql_class dialect) a = λ s. refl
  validate_as-Keeps (nosql_class store) a =
      lifted (as_nosql store a) (NoSql.validate_connection repr f stores) nosql-Keeps
  validate_as-Keeps (file_class file_system) a =
      lifted (as_file file_system a) (File.validate_connection repr h f list_status path_exists)
        file-Keeps
  validate_as-Keeps kafka_class a = λ s. refl

  pub validate_connection-Keeps :
      (a : ReadAdapter)
      → Keeps files (validate_connection repr h f d stores list_status path_exists a)
  unfolding validate_connection
  validate_connection-Keeps a = validate_as-Keeps a.cls a
