-- ===== src/Read/NoSql.antt =====
-- adapters/source/nosql_adapter.py with its three stores of adapters/source/nosql.
pub mod Laws
use batch_ingestion_service.Prelude.{
  String, ◌<>◌, Bool, true, ◌&&◌, Option, none, some, List, [], ◌∷◌, if◌then◌else◌,
}
use batch_ingestion_service.Prelude.Int.{pos}
use batch_ingestion_service.Py.Exc.{Result, ok, err, key_error}
use batch_ingestion_service.Py.Exec.{Exec, pure, lift, continue, ◌>>=◌, ◌>>◌}
use batch_ingestion_service.Py.Value.{
  Value, none_val, bool_val, str_val, int_val, Dict, dict, truthy, str_of, get_or, get_item,
  as_dict, insert, update, method_dict,
}
use batch_ingestion_service.Config.Source.{TableSourceConfig}
use batch_ingestion_service.Checkpoint.{Checkpoint, is_text}
use batch_ingestion_service.Read.Frames.{Frames, given, is_set, shown, above, updated}
use batch_ingestion_service.Read.Sql.{predicates}

-- `SourceMongoDBAdapter`, `SourceDynamoDBAdapter` and `SourceCassandraAdapter`
pub data Store : Type 0 where
  mongodb dynamodb cassandra : Store

pub record NoSqlAdapter (T : Type 0) : Type 0 where
  pub store : Store
  pub source_config : TableSourceConfig
  pub credentials : Value
  pub batch_size : Value
  pub schema : Option (Dict T)
  pub filters : Dict Value
  pub checkpoint_from : Option Checkpoint
  pub checkpoint_to : Option Checkpoint
  pub read_options : Dict Value

-- `spark_format`
unfoldable pub spark_format : Store → String
spark_format mongodb = "mongodb"
spark_format dynamodb = "dynamodb"
spark_format cassandra = "org.apache.spark.sql.cassandra"

abbrev pub pipeline_key : String
pipeline_key = "spark.mongodb.read.aggregation.pipeline"

-- boto3's `describe_table` by a client of a region and two keys, and the Cassandra driver
pub record Stores (S K : Type 0) : Type 0 where
  pub describe_table : Value → Value → Value → Value → Exec S (Dict Value)
  -- a cluster by its hosts, its port and the two parts of a login
  pub cluster : Value → Value → Value → Value → Exec S K
  -- whether `connect` gives a session
  pub connect : K → Exec S Bool
  pub shutdown : K → Exec S Unit

module _ (repr : Value → String) where
  unfoldable pub mongodb_uri : TableSourceConfig → Dict Value → String
  unfolding str_of get_or
  mongodb_uri c credentials =
      "mongodb://"
      <> str_of repr (get_or credentials "username" none_val)
      <> ":"
      <> str_of repr (get_or credentials "password" none_val)
      <> "@"
      <> str_of repr c.host
      <> ":"
      <> str_of repr c.port
      <> "/"
      <> str_of repr c.database
      <> "?authSource=admin"

  -- the pipeline that starts a read after the last checkpoint
  match_after : Value → Option Checkpoint → String
  unfolding str_of shown
  match_after column from =
      "[{\"$match\": {\"" <> str_of repr column <> "\": {\"$gt\": \"" <> shown repr from <> "\"}}}]"

  -- the pipeline of a read, where it has one
  unfoldable pub with_pipeline : TableSourceConfig → Option Checkpoint → Dict Value → Dict Value
  unfolding truthy is_set insert match_after
  with_pipeline c from options =
      let bounded =
        (if truthy c.checkpoint_column && is_set from
          then insert pipeline_key (str_val (match_after c.checkpoint_column from)) options
          else options) in
      if truthy c.query then insert pipeline_key c.query bounded else bounded

  mongodb_options : TableSourceConfig → Option Checkpoint → Dict Value → Dict Value
  unfolding mongodb_uri with_pipeline
  mongodb_options c from credentials = with_pipeline c from (
      ("spark.mongodb.read.connection.uri", str_val (mongodb_uri c credentials))
      ∷ ("spark.mongodb.read.database", c.database)
      ∷ ("spark.mongodb.read.collection", c.table)
      ∷ [])

  dynamodb_options : TableSourceConfig → Value → Dict Value → Dict Value
  unfolding get_or str_of
  dynamodb_options c batch_size credentials =
      ("tableName", c.table)
      ∷ ("region", get_or credentials "aws_region" none_val)
      ∷ ("accessKey", get_or credentials "aws_access_key_id" none_val)
      ∷ ("secretKey", get_or credentials "aws_secret_access_key" none_val)
      ∷ ("readThroughput", str_val (str_of repr batch_size))
      ∷ []

  cassandra_options : TableSourceConfig → Value → Dict Value → Dict Value
  unfolding get_or str_of
  cassandra_options c batch_size credentials =
      ("keyspace", c.database)
      ∷ ("table", c.table)
      ∷ ("spark.cassandra.connection.host", c.host)
      ∷ ("spark.cassandra.connection.port", str_val (str_of repr c.port))
      ∷ ("spark.cassandra.auth.username", get_or credentials "username" none_val)
      ∷ ("spark.cassandra.auth.password", get_or credentials "password" none_val)
      ∷ ("spark.cassandra.input.fetch.size_in_rows", str_val (str_of repr batch_size))
      ∷ []

  filter_options : Store → Dict Value → Dict Value → Dict Value
  unfolding insert predicates
  filter_options cassandra filters options =
      insert "where" (str_val (predicates repr filters))
        (insert "pushdown" (str_val "true") options)
  filter_options _ filters options = insert "filters" (dict filters) options

  module _ {T : Type 0} where
    options_by : Store → NoSqlAdapter T → Dict Value → Dict Value
    unfolding mongodb_options dynamodb_options cassandra_options
    options_by mongodb a credentials = mongodb_options a.source_config a.checkpoint_from credentials
    options_by dynamodb a credentials = dynamodb_options a.source_config a.batch_size credentials
    options_by cassandra a credentials = cassandra_options a.source_config a.batch_size credentials

    -- `_build_connection_options`
    unfoldable pub connection_options : NoSqlAdapter T → Result (Dict Value)
    unfolding method_dict options_by
    connection_options a = elim (method_dict a.credentials) [
      | ok credentials ↦ ok (options_by a.store a credentials)
      | err e ↦ err e
    ]

    -- `apply_filters`
    unfoldable pub apply_filters : NoSqlAdapter T → NoSqlAdapter T
    unfolding filter_options
    apply_filters a = elim a.filters [
      | [] ↦ a
      | kv ∷ fs ↦ record a { read_options = filter_options a.store (kv ∷ fs) a.read_options }
    ]

    module _ {S D : Type 0} (f : Frames S D T) where
      unfoldable pub format_of : NoSqlAdapter T → Value
      unfolding spark_format
      format_of a = str_val (spark_format a.store)

      -- `read`, with the adapter that it leaves
      unfoldable pub read : NoSqlAdapter T → Exec S (D × NoSqlAdapter T)
      unfolding connection_options format_of update above updated
      read a = do
        options ← lift (connection_options a)
        df ← f.load (format_of a) (update options a.read_options) (given a.schema) none
        bounded ← lift (above repr f a.source_config.checkpoint_column a.checkpoint_from df)
        to ← updated repr f a.source_config.checkpoint_column a.checkpoint_to bounded
        pure (bounded, record a { checkpoint_to = to })

      -- `SourceMongoDBAdapter.validate_connection`
      unfoldable pub validate_mongodb : NoSqlAdapter T → Exec S Bool
      unfolding connection_options format_of insert
      validate_mongodb a = do
        options ← lift (connection_options a)
        df ←
            f.load (format_of a) (insert pipeline_key (str_val "[{\"$limit\": 1}]") options) none
              none
        pure true

      module _ {K : Type 0} (stores : Stores S K) where
        unfoldable pub described : NoSqlAdapter T → Exec S (Dict Value)
        unfolding method_dict get_or get_item as_dict
        described a = do
          credentials ← lift (method_dict a.credentials)
          response ←
              stores.describe_table (get_or credentials "aws_region" none_val)
                (get_or credentials "aws_access_key_id" none_val)
                (get_or credentials "aws_secret_access_key" none_val) a.source_config.table
          entry ← lift (get_item "Table" response)
          lift (as_dict entry)

        -- `SourceDynamoDBAdapter.validate_connection`
        unfoldable pub validate_dynamodb : NoSqlAdapter T → Exec S Bool
        unfolding described get_item is_text
        validate_dynamodb a = do
          entry ← described a
          status ← lift (get_item "TableStatus" entry)
          pure (is_text "ACTIVE" (some status))

        -- `SourceDynamoDBAdapter.get_record_count`
        unfoldable pub dynamodb_record_count : NoSqlAdapter T → Exec S Value
        unfolding described get_or
        dynamodb_record_count a = do
          entry ← described a
          pure (get_or entry "ItemCount" (int_val (pos 0)))

        -- `SourceCassandraAdapter.validate_connection`
        unfoldable pub validate_cassandra : NoSqlAdapter T → Exec S Bool
        unfolding method_dict get_or
        validate_cassandra a = do
          credentials ← lift (method_dict a.credentials)
          cluster ←
              stores.cluster a.source_config.host a.source_config.port
                (get_or credentials "username" none_val) (get_or credentials "password" none_val)
          is_connected ← stores.connect cluster
          stores.shutdown cluster
          pure is_connected

        -- `validate_connection`
        unfoldable pub validate_connection : NoSqlAdapter T → Exec S Bool
        unfolding validate_mongodb validate_dynamodb validate_cassandra
        validate_connection a = elim a.store [
          | mongodb ↦ validate_mongodb a
          | dynamodb ↦ validate_dynamodb a
          | cassandra ↦ validate_cassandra a
        ]
