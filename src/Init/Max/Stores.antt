-- ===== src/Init/Max/Stores.antt =====
-- `_max_mongodb`, `_max_dynamodb` and `_max_cassandra`: the clients are parameters.
use batch_ingestion_service.Prelude.{String, ◌<>◌, Option, none, some, List, [], ◌∷◌}
use batch_ingestion_service.Py.Exc.{Result, ok}
use batch_ingestion_service.Py.Exec.{Exec, lift, ensure, ◌>>=◌}
use batch_ingestion_service.Py.Value.{Value, none_val, str_val, Dict, str_of, get_or, as_text}
use batch_ingestion_service.Config.Source.{TableSourceConfig}
use batch_ingestion_service.Checkpoint.{Checkpoint, parse_checkpoint}
use batch_ingestion_service.Init.Dynamo.{scan}
use batch_ingestion_service.Read.NoSql.{mongodb_uri}

-- pymongo, boto3 and the Cassandra driver. `M` is a client of MongoDB or a cluster of Cassandra, `E` a
-- session of Cassandra.
pub record StoreClients (S M E : Type 0) : Type 0 where
  pub mongo_client : String → Exec S M
  -- the `max_val` of each document of the aggregation, in a database and a collection
  pub mongo_max : M → Value → Value → String → Exec S (List Value)
  pub mongo_close : M → Exec S Unit
  -- the items of a scan, by a client of a region and two keys, a table and a projection
  pub dynamo_items : Value → Value → Value → Value → Value → Exec S (List (Dict Value))
  -- a cluster by its host, its port and the two parts of a login
  pub cluster : Value → Value → Value → Value → Exec S M
  pub cluster_connect : M → Exec S E
  -- the first column of the only row of a statement
  pub session_one : E → String → Exec S (Option Value)
  pub shutdown : M → Exec S Unit

module _ (repr : Value → String) where
  -- `_parse_checkpoint` of a value that is there
  parse_value : Value → Result (Option Checkpoint)
  parse_value none_val = ok none
  parse_value v = parse_checkpoint repr v

  first_max : List Value → Result (Option Checkpoint)
  unfolding parse_value
  first_max [] = ok none
  first_max (v ∷ _) = parse_value v

  row_max : Option Value → Result (Option Checkpoint)
  unfolding parse_value
  row_max none = ok none
  row_max (some v) = parse_value v

  module _ {S M E : Type 0} (clients : StoreClients S M E) where
    unfoldable pub aggregate_max : TableSourceConfig → Value → M → Exec S (Option Checkpoint)
    unfolding str_of first_max
    aggregate_max c column client = do
      rows ← clients.mongo_max client c.database c.table ("$" <> str_of repr column)
      lift (first_max rows)

    -- `_max_mongodb`
    unfoldable pub max_mongodb : TableSourceConfig → Dict Value → Value → Exec S (Option Checkpoint)
    unfolding mongodb_uri aggregate_max
    max_mongodb c credentials column = do
      client ← clients.mongo_client (mongodb_uri repr c credentials)
      ensure (aggregate_max c column client) (clients.mongo_close client)

    -- `_max_dynamodb`
    unfoldable pub max_dynamodb :
        TableSourceConfig → Dict Value → Value → Exec S (Option Checkpoint)
    unfolding get_or as_text scan
    max_dynamodb c credentials column = do
      items ←
          clients.dynamo_items (get_or credentials "aws_region" (str_val "us-east-1"))
            (get_or credentials "aws_access_key_id" none_val)
            (get_or credentials "aws_secret_access_key" none_val) c.table column
      name ← lift (as_text column)
      lift (scan repr name none items)

    unfoldable pub session_max : TableSourceConfig → Value → E → Exec S (Option Checkpoint)
    unfolding str_of row_max
    session_max c column session = do
      row ← clients.session_one session (
          "SELECT MAX("
          <> str_of repr column
          <> ") FROM "
          <> str_of repr c.database
          <> "."
          <> str_of repr c.table)
      lift (row_max row)

    -- `_max_cassandra`: the `try` begins when the session is there
    unfoldable pub max_cassandra :
        TableSourceConfig → Dict Value → Value → Exec S (Option Checkpoint)
    unfolding get_or session_max
    max_cassandra c credentials column = do
      cluster ←
          clients.cluster c.host c.port (get_or credentials "username" none_val)
            (get_or credentials "password" none_val)
      session ← clients.cluster_connect cluster
      ensure (session_max c column session) (clients.shutdown cluster)
