-- ===== src/Read/Sql.antt =====
-- adapters/source/sql_adapter.py with its two dialects of adapters/source/sql: the query and the
-- options of a JDBC read.
pub mod Laws
use batch_ingestion_service.Prelude.{
  String, ◌<>◌, ◌&&◌, Option, none, some, List, [], ◌∷◌, ◌++◌, if◌then◌else◌,
}
use batch_ingestion_service.Prelude.Int.{pos}
use batch_ingestion_service.Py.Exc.{Result, ok, ◌>>=◌}
use batch_ingestion_service.Py.Number.{str_of_int}
use batch_ingestion_service.Py.Time.{isoformat}
use batch_ingestion_service.Py.Value.{
  Value, none_val, str_val, int_val, Dict, truthy, str_of, get_or, insert, method_dict,
}
use batch_ingestion_service.Config.Source.{TableSourceConfig}
use batch_ingestion_service.Checkpoint.{Checkpoint, number, stamp, text}

-- `SourcePostgresAdapter` and `SourceMySQLAdapter`
pub data Dialect : Type 0 where
  postgres mysql : Dialect

-- the fields of an adapter that a read uses
pub record SqlAdapter : Type 0 where
  pub dialect : Dialect
  pub source_config : TableSourceConfig
  pub credentials : Value
  pub batch_size : Value
  pub filters : Dict Value
  pub checkpoint_from : Option Checkpoint
  pub checkpoint_to : Option Checkpoint
  pub jdbc_options : Dict Value

-- `driver`
unfoldable pub driver : Dialect → String
driver postgres = "org.postgresql.Driver"
driver mysql = "com.mysql.cj.jdbc.Driver"

-- `_format_checkpoint`
unfoldable pub format_checkpoint : Checkpoint → String
unfolding str_of_int isoformat
format_checkpoint (stamp t) = "'" <> isoformat " " t <> "'"
format_checkpoint (number z) = str_of_int z
format_checkpoint (text s) = s

module _ (repr : Value → String) where
  address : TableSourceConfig → String
  unfolding str_of
  address c = str_of repr c.host <> ":" <> str_of repr c.port <> "/" <> str_of repr c.database

  -- `_build_jdbc_url`
  unfoldable pub build_jdbc_url : Dialect → TableSourceConfig → String
  unfolding address
  build_jdbc_url postgres c = "jdbc:postgresql://" <> address c
  build_jdbc_url mysql c =
      "jdbc:mysql://" <> address c <> "?useSSL=false&allowPublicKeyRetrieval=true"

  -- the condition of a read between two checkpoints
  unfoldable pub window : Value → Option Checkpoint → Option Checkpoint → String
  unfolding format_checkpoint str_of truthy
  window column (some from) (some to) =
      let name = str_of repr column in
      let from_val = format_checkpoint from in
      let to_val = format_checkpoint to in
      if truthy column
      then " WHERE " <> from_val <> " < " <> to_val <> " AND " <> name <> " > " <> from_val
        <> " AND " <> name <> " <= " <> to_val
      else ""
  window column _ _ = ""

  -- `_build_read_query`
  unfoldable pub build_read_query :
      TableSourceConfig → Option Checkpoint → Option Checkpoint → String
  unfolding truthy window str_of
  build_read_query c from to =
      if truthy c.query
      then "(" <> str_of repr c.query <> ") AS subq"
      else "(SELECT * FROM "
        <> str_of repr c.schema
        <> "."
        <> str_of repr c.table
        <> window c.checkpoint_column from to
        <> ") AS subq"

  unfoldable pub predicates : Dict Value → String
  unfolding str_of
  predicates [] = ""
  predicates ((col, expr) ∷ []) = col <> " " <> str_of repr expr
  predicates ((col, expr) ∷ kv ∷ fs) =
      col <> " " <> str_of repr expr <> " AND " <> predicates (kv ∷ fs)

  -- `apply_filters`
  unfoldable pub apply_filters : SqlAdapter → SqlAdapter
  unfolding predicates insert
  apply_filters a = elim a.filters [
    | [] ↦ a
    | kv ∷ fs ↦ record a {
      jdbc_options = insert "pushDownPredicate" (str_val (predicates (kv ∷ fs))) a.jdbc_options;
    }
  ]

  -- the options that every read sets
  unfoldable pub base_options : SqlAdapter → Dict Value → List (String × Value)
  unfolding build_jdbc_url build_read_query driver get_or
  base_options a credentials =
      ("url", str_val (build_jdbc_url a.dialect a.source_config))
      ∷ ("dbtable", str_val (build_read_query a.source_config a.checkpoint_from a.checkpoint_to))
      ∷ ("driver", str_val (driver a.dialect))
      ∷ ("user", get_or credentials "username" none_val)
      ∷ ("password", get_or credentials "password" none_val)
      ∷ ("fetchsize", a.batch_size)
      ∷ []

  -- The options that `read` sets on Spark's reader, in their order.
  unfoldable pub read_options_of : SqlAdapter → Result (List (String × Value))
  unfolding method_dict
  read_options_of a = do
    credentials ← method_dict a.credentials
    read_options ← method_dict a.source_config.read_options
    ok ((base_options a credentials ++ a.jdbc_options) ++ read_options)
