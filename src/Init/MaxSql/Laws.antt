-- ===== src/Init/MaxSql/Laws.antt =====
-- `_max_sql` leaves no connection open.
use batch_ingestion_service.Prelude.{ℕ, ◌-◌, String, ◌≡◌}
use batch_ingestion_service.Py.Exec.{Keeps, bind-Keeps, lift-Keeps}
use batch_ingestion_service.Py.Exec.Resource.{opened, bracket_closes}
use batch_ingestion_service.Py.Value.{Value, Dict}
use batch_ingestion_service.Config.Kinds.{ReadAdapterType}
use batch_ingestion_service.Config.Source.{TableSourceConfig}
use batch_ingestion_service.Init.{parse_row}
use batch_ingestion_service.Init.MaxSql.{Drivers, max_query, open_connection, query_max, max_sql}

-- What the drivers do to the number of open connections.
pub record IsCounted {S K : Type 0} (drivers : Drivers S K) (count : S → ℕ) : Type 0 where
  pub postgres :
      (h p d u w : Value) (s : S)
      → count (drivers.connect_postgres h p d u w s).1
        ≡ opened (drivers.connect_postgres h p d u w s).0 (count s)
  pub mysql :
      (h p d u w : Value) (s : S)
      → count (drivers.connect_mysql h p d u w s).1
        ≡ opened (drivers.connect_mysql h p d u w s).0 (count s)
  pub fetch : (k : K) (q : String) (s : S) → count (drivers.fetch_one k q s).1 ≡ count s
  pub closed : (k : K) (s : S) → count (drivers.close k s).1 ≡ count s - 1

module _ {S K : Type 0} (repr : Value → String) (drivers : Drivers S K) (count : S → ℕ)
    (h : IsCounted drivers count) where
  open_connection_counted :
      (t : ReadAdapterType) (c : TableSourceConfig) (credentials : Dict Value) (s : S)
      → count (open_connection repr drivers t c credentials s).1
        ≡ opened (open_connection repr drivers t c credentials s).0 (count s)
  unfolding open_connection
  open_connection_counted ReadAdapterType.sql c credentials s = h.postgres _ _ _ _ _ s
  open_connection_counted _ c credentials s = h.mysql _ _ _ _ _ s

  query_max-Keeps : (sql : String) (k : K) → Keeps count (query_max repr drivers sql k)
  unfolding query_max
  query_max-Keeps sql k =
      bind-Keeps count (drivers.fetch_one k sql) _ (h.fetch k sql)
        (λ row. lift-Keeps count (parse_row repr row))

  -- `_max_sql` leaves as many connections open as there were, whether it returns or raises, given that
  -- the drivers' calls open and close a connection each.
  pub max_sql_closes :
      (t : ReadAdapterType) (c : TableSourceConfig) (credentials : Dict Value) (column : Value)
      (s : S)
      → count (max_sql repr drivers t c credentials column s).1 ≡ count s
  unfolding max_sql
  max_sql_closes t c credentials column s =
      bracket_closes count (open_connection repr drivers t c credentials)
        (query_max repr drivers (max_query repr drivers c column)) drivers.close
        (open_connection_counted t c credentials)
        (query_max-Keeps (max_query repr drivers c column)) h.closed s
