-- ===== src/Init/MaxSql.antt =====
-- `_max_sql` of orchestration/operators/init_operator.py. The database drivers are parameters.
pub mod Laws
use batch_ingestion_service.Prelude.{String, ◌<>◌, Option}
use batch_ingestion_service.Py.Exc.{Result}
use batch_ingestion_service.Py.Exec.{Exec, lift, ensure, ◌>>=◌}
use batch_ingestion_service.Py.Value.{Value, none_val, str_val, Dict, or_else, str_of, get_or}
use batch_ingestion_service.Config.Kinds.{ReadAdapterType}
use batch_ingestion_service.Config.Source.{TableSourceConfig}
use batch_ingestion_service.Checkpoint.{Checkpoint}
use batch_ingestion_service.Init.{parse_row}

-- psycopg2 and pymysql: a connection is a value of `K`, from a host, a port, a database, a user and a
-- password. `fetch_one` executes a query and gives the first column of its first row.
pub record Drivers (S K : Type 0) : Type 0 where
  pub connect_postgres : Value → Value → Value → Value → Value → Exec S K
  pub connect_mysql : Value → Value → Value → Value → Value → Exec S K
  pub fetch_one : K → String → Exec S (Option Value)
  pub close : K → Exec S (Unit {0})

module _ {S K : Type 0} (repr : Value → String) (drivers : Drivers S K) where
  unfoldable pub max_query : TableSourceConfig → Value → String
  unfolding or_else str_of
  max_query c column =
      "SELECT MAX("
      <> str_of repr column
      <> ") FROM "
      <> str_of repr (or_else c.schema (str_val "public"))
      <> "."
      <> str_of repr c.table

  unfoldable pub open_connection : ReadAdapterType → TableSourceConfig → Dict Value → Exec S K
  unfolding get_or
  open_connection ReadAdapterType.sql c credentials =
      drivers.connect_postgres c.host c.port c.database (get_or credentials "username" none_val)
        (get_or credentials "password" none_val)
  open_connection _ c credentials =
      drivers.connect_mysql c.host c.port c.database (get_or credentials "username" none_val)
        (get_or credentials "password" none_val)

  unfoldable pub query_max : String → K → Exec S (Option Checkpoint)
  query_max sql conn = do row ← drivers.fetch_one conn sql; lift (parse_row repr row)

  -- `_max_sql`
  unfoldable pub max_sql :
      ReadAdapterType → TableSourceConfig → Dict Value → Value → Exec S (Option Checkpoint)
  max_sql read_type c credentials column = do
    conn ← open_connection read_type c credentials
    ensure (query_max (max_query c column) conn) (drivers.close conn)
