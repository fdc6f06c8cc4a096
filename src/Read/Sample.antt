-- ===== src/Read/Sample.antt =====
-- `infer_schema` and `get_record_count` of the read adapters of adapters/source. No task of the pipeline
-- calls them; that of a file's count is with its adapter, and so is that of DynamoDB.
use batch_ingestion_service.Prelude.{ℕ, Bool, String, ◌<>◌, none, some, List, [], ◌∷◌}
use batch_ingestion_service.Prelude.Int.{pos}
use batch_ingestion_service.Py.Exc.{Result, ok, err, raise, index_error}
use batch_ingestion_service.Py.Exec.{Exec, pure, lift, ◌>>=◌}
use batch_ingestion_service.Py.Value.{
  Value, none_val, int_val, str_val, Dict, str_of, get_or, get_item, insert, method_dict,
}
use batch_ingestion_service.Config.Source.{TableSourceConfig}
use batch_ingestion_service.Write.Hadoop.{Hadoop}
use batch_ingestion_service.Read.Frames.{Frames}
use batch_ingestion_service.Read.Sql.{SqlAdapter, driver, build_jdbc_url}
use batch_ingestion_service.Read.NoSql.{
  NoSqlAdapter, mongodb, dynamodb, cassandra, Stores, pipeline_key, connection_options, format_of,
  dynamodb_record_count,
}
use batch_ingestion_service.Read.File
use batch_ingestion_service.Read.File.{FileAdapter, FileStatus, format_value}
use batch_ingestion_service.Read.Kafka
use batch_ingestion_service.Read.Kafka.{KafkaAdapter, Decoder}

-- the cell of the first row
first_cell : String → List (Dict Value) → Result Value
unfolding get_item
first_cell column [] = raise index_error "list index out of range"
first_cell column (row ∷ rows) = get_item column row

-- `rows[0]["count"] if rows else 0`
first_count : List (Dict Value) → Result Value
unfolding get_item
first_count [] = ok (int_val (pos 0))
first_count (row ∷ rows) = get_item "count" row

module _ (repr : Value → String) where
  table_name : TableSourceConfig → String
  unfolding str_of
  table_name c = str_of repr c.schema <> "." <> str_of repr c.table

  -- the options of a JDBC read of a query
  query_options : SqlAdapter → String → Result (List (String × Value))
  unfolding build_jdbc_url driver get_or method_dict
  query_options a query = elim (method_dict a.credentials) [
    | ok credentials ↦ ok (
        ("url", str_val (build_jdbc_url repr a.dialect a.source_config))
        ∷ ("dbtable", str_val query)
        ∷ ("driver", str_val (driver a.dialect))
        ∷ ("user", get_or credentials "username" none_val)
        ∷ ("password", get_or credentials "password" none_val)
        ∷ [])
    | err e ↦ err e
  ]

  module _ {S D T : Type 0} (f : Frames S D T) where
    -- `SQLAdapter.infer_schema`
    infer_schema_sql : SqlAdapter → Exec S (Dict T)
    unfolding query_options table_name
    infer_schema_sql a = do
      options ← lift (
          query_options a
            ("(SELECT * FROM " <> table_name a.source_config <> " LIMIT 1) AS sample"))
      sample_df ← f.load (str_val "jdbc") options none none
      pure (f.schema sample_df)

    -- `SQLAdapter.get_record_count`
    record_count_sql : SqlAdapter → Exec S Value
    unfolding query_options table_name first_cell
    record_count_sql a = do
      options ← lift (
          query_options a
            ("(SELECT COUNT(*) AS cnt FROM " <> table_name a.source_config <> ") AS count_q"))
      count_df ← f.load (str_val "jdbc") options none none
      rows ← f.collect count_df
      lift (first_cell "cnt" rows)

    -- `NoSQLAdapter.infer_schema`
    infer_schema_nosql : NoSqlAdapter T → Exec S (Dict T)
    unfolding connection_options format_of insert
    infer_schema_nosql a = do
      options ← lift (connection_options repr a)
      df ← f.load (format_of repr f a) (insert "sampleSize" (str_val "1") options) none none
      pure (f.schema df)

    record_count_mongodb : NoSqlAdapter T → Exec S Value
    unfolding connection_options format_of insert first_count
    record_count_mongodb a = do
      options ← lift (connection_options repr a)
      count_df ←
          f.load (format_of repr f a)
            (insert pipeline_key
              (str_val
                "[{\"$collStats\": {\"count\": {}}}, {\"$group\": {\"_id\": null, \"count\": {\"$sum\": \"$count\"}}}]")
              options)
            none none
      rows ← f.collect count_df
      lift (first_count rows)

    record_count_cassandra : NoSqlAdapter T → Exec S Value
    unfolding connection_options format_of first_cell
    record_count_cassandra a = do
      options ← lift (connection_options repr a)
      df ← f.load (format_of repr f a) options none none
      count_df ← lift (f.select_expr "count(*) as cnt" df)
      rows ← f.collect count_df
      lift (first_cell "cnt" rows)

    -- `get_record_count` of a NoSQL adapter
    record_count_nosql : {K : Type 0} → Stores S K → NoSqlAdapter T → Exec S Value
    unfolding record_count_mongodb record_count_cassandra dynamodb_record_count
    record_count_nosql stores a = elim a.store [
      | mongodb ↦ record_count_mongodb a
      | dynamodb ↦ dynamodb_record_count repr f stores a
      | cassandra ↦ record_count_cassandra a
    ]

    -- `SourceKafkaAdapter.infer_schema`
    infer_schema_kafka : Decoder D T → KafkaAdapter T → Exec S (Dict T)
    unfolding Kafka.read
    infer_schema_kafka d a = do df ← Kafka.read repr f d a; pure (f.schema (f.limit 1 df))

    -- `SourceKafkaAdapter.get_record_count`
    record_count_kafka : Decoder D T → KafkaAdapter T → Exec S ℕ
    unfolding Kafka.read
    record_count_kafka d a = do df ← Kafka.read repr f d a; f.count df

    -- `FileAdapter.infer_schema`
    infer_schema_file :
        Hadoop S D T
        → (Value → Exec S (List FileStatus))
        → (Value → Exec S Bool)
        → FileAdapter T
        → Exec S (Dict T)
    unfolding File.configure format_value
    infer_schema_file h list_status path_exists a = do
      configured ← File.configure repr h f list_status path_exists a
      fmt ← lift (format_value a.source_config.file_format)
      df ← f.load fmt [] none (some a.source_config.path)
      pure (f.schema df)
