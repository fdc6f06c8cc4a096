-- ===== src/Read/Factory/Files.antt =====
-- A read of an adapter of the factory leaves the files of a cluster alone, where Spark's own reads do.
use batch_ingestion_service.Prelude.{
  String, refl, Bool, Option, none, some, List, [], ◌∷◌, Bool-cases, inl, inr,
}
use batch_ingestion_service.Py.Exc.{Result}
use batch_ingestion_service.Py.Exec.{Exec, lift, ◌>>=◌, Keeps, bind-Keeps, lift-Keeps}
use batch_ingestion_service.Write.Sink.{configure_hdfs, set_all}
use batch_ingestion_service.Py.Value.{Value, str_val, Dict, truthy, update, method_dict}
use batch_ingestion_service.Checkpoint.{Checkpoint}
use batch_ingestion_service.Write.Hadoop.{Hadoop}
use batch_ingestion_service.Write.Sink.Laws.{KeepsFiles, set_all-Keeps, configure_hdfs-Keeps}
use batch_ingestion_service.Read.Frames.{Frames, given, above, new_max, updated}
use batch_ingestion_service.Read.Sql.{SqlAdapter, read_options_of}
use batch_ingestion_service.Read.NoSql
use batch_ingestion_service.Read.NoSql.{NoSqlAdapter, Stores}
use batch_ingestion_service.Read.File
use batch_ingestion_service.Read.File.{
  FileAdapter, FileSystem, hdfs, s3a, FileStatus, s3a_read_settings, format_value, filter_all,
}
use batch_ingestion_service.Read.Kafka
use batch_ingestion_service.Read.Kafka.{Decoder, KafkaAdapter}
use batch_ingestion_service.Read.Factory.{
  ReadAdapter, ReadClass, sql_class, nosql_class, file_class, kafka_class, read_sql, read_nosql,
  read_file, read_as, read, as_sql, as_nosql, as_file, as_kafka,
}

-- Spark reads a frame and looks for a maximum without a change of the files.
pub record LoadsOnly {S D T F : Type 0} (f : Frames S D T) (files : S → F) : Type 0 where
  pub by_load :
      (format : Value) (options : List (String × Value)) (schema : Option (Dict T))
      (path : Option Value)
      → Keeps files (f.load format options schema path)
  pub by_max : (column : Value) (df : D) → Keeps files (f.max_of column df)

module _ (repr : Value → String) {S D T K F : Type 0} (h : Hadoop S D T) (f : Frames S D T)
    (d : Decoder D T) (stores : Stores S K) (list_status : Value → Exec S (List FileStatus))
    (path_exists : Value → Exec S Bool) (files : S → F) (kh : KeepsFiles h files)
    (kf : LoadsOnly f files) where
  pub after_lift :
      {A B : Type 0} (r : Result A) (m : A → Exec S B)
      → ((a : A) → Keeps files (m a))
      → Keeps files (lift r >>= m)
  after_lift r m k = bind-Keeps files (lift r) m (lift-Keeps files r) k

  updated-Keeps :
      (column : Value) (old : Option Checkpoint) (df : D)
      → Keeps files (updated repr f column old df)
  unfolding updated new_max
  updated-Keeps column old df s = elim (Bool-cases (truthy column)) [
    | inl here ↦
        rw here (bind-Keeps files (f.max_of column df) _ (kf.by_max column df) (λ rows t. refl) s)
    | inr off ↦ rw off refl
  ]

  read_nosql-Keeps :
      (a : NoSqlAdapter T) → Keeps files (read_nosql repr h f d stores list_status path_exists a)
  unfolding read_nosql NoSql.read
  read_nosql-Keeps a =
      let column = a.source_config.checkpoint_column in
      bind-Keeps files (NoSql.read repr f a) _
        (after_lift (NoSql.connection_options repr a) _ λ options.
          bind-Keeps files
            (f.load (NoSql.format_of repr f a) (update options a.read_options) (given a.schema)
              none)
            _
            (kf.by_load (NoSql.format_of repr f a) (update options a.read_options) (given a.schema)
              none)
            λ df. after_lift (above repr f column a.checkpoint_from df) _ λ bounded.
              bind-Keeps files (updated repr f column a.checkpoint_to bounded) _
                (updated-Keeps column a.checkpoint_to bounded) (λ to t. refl))
        (λ r t. refl)

  filter_all-Keeps :
      (filters : Dict Value) (df : D)
      → Keeps files (filter_all repr h f list_status path_exists filters df)
  unfolding filter_all
  filter_all-Keeps [] df = λ s. refl
  filter_all-Keeps (kv ∷ filters) df = after_lift _ _ (filter_all-Keeps filters)

  pub configure-Keeps :
      (a : FileAdapter T) → Keeps files (File.configure repr h f list_status path_exists a)
  unfolding File.configure
  configure-Keeps a = after_lift (method_dict a.credentials) _ (by_system a.file_system)
    where
      by_system :
          (w : FileSystem) (c : Dict Value)
          → Keeps files
              (elim w [ hdfs ↦ configure_hdfs h c | s3a ↦ set_all h (s3a_read_settings c) ])
      by_system hdfs c = configure_hdfs-Keeps h files kh c
      by_system s3a c = set_all-Keeps h files kh (s3a_read_settings c)

  read_file-Keeps :
      (a : FileAdapter T) → Keeps files (read_file repr h f d stores list_status path_exists a)
  unfolding read_file File.read
  read_file-Keeps a =
      let column = a.source_config.checkpoint_column in
      let path = some a.source_config.path in
      bind-Keeps files (File.read repr h f list_status path_exists a) _
        (bind-Keeps files (File.configure repr h f list_status path_exists a) _ (configure-Keeps a)
          λ _. after_lift (format_value a.source_config.file_format) _ λ format.
            bind-Keeps files (f.load format [] (given a.schema) path) _
              (kf.by_load format [] (given a.schema) path)
              λ df. after_lift (above repr f column a.checkpoint_from df) _ λ bounded.
                bind-Keeps files
                  (filter_all repr h f list_status path_exists a.post_filters bounded) _
                  (filter_all-Keeps a.post_filters bounded)
                  λ filtered.
                    bind-Keeps files (updated repr f column a.checkpoint_to filtered) _
                      (updated-Keeps column a.checkpoint_to filtered) (λ to t. refl))
        (λ r t. refl)

  read_sql-Keeps :
      (a : SqlAdapter) → Keeps files (read_sql repr h f d stores list_status path_exists a)
  unfolding read_sql
  read_sql-Keeps a =
      after_lift (read_options_of repr a) _ λ options. kf.by_load (str_val "jdbc") options none none

  read_kafka-Keeps : (a : KafkaAdapter T) → Keeps files (Kafka.read repr f d a)
  unfolding Kafka.read
  read_kafka-Keeps a = after_lift (Kafka.options_of repr a) _ λ options.
      bind-Keeps files (f.load (str_val "kafka") options none none) _
        (kf.by_load (str_val "kafka") options none none)
        (λ raw.
          lift-Keeps files (Kafka.decode_value repr f d a.source_config.value_format a.schema raw))

  read_as-Keeps :
      (c : ReadClass) (a : ReadAdapter)
      → Keeps files (read_as repr h f d stores list_status path_exists c a)
  unfolding read_as
  read_as-Keeps (sql_class dialect) a =
      after_lift (as_sql dialect a) (read_sql repr h f d stores list_status path_exists)
        read_sql-Keeps
  read_as-Keeps (nosql_class store) a =
      after_lift (as_nosql store a) (read_nosql repr h f d stores list_status path_exists)
        read_nosql-Keeps
  read_as-Keeps (file_class file_system) a =
      after_lift (as_file file_system a) (read_file repr h f d stores list_status path_exists)
        read_file-Keeps
  read_as-Keeps kafka_class a = after_lift (as_kafka a) (Kafka.read repr f d) read_kafka-Keeps

  pub read-Keeps :
      (a : ReadAdapter) → Keeps files (read repr h f d stores list_status path_exists a)
  unfolding read
  read-Keeps a = read_as-Keeps a.cls a
