-- ===== src/Tests/Sources.antt =====
-- The reading of a source.
use batch_ingestion_service.Prelude.{
  String, ◌≡◌, refl, none, some, List, [], ◌∷◌, inl, inr, All, ℕ, suc, ◌-◌,
}
use batch_ingestion_service.Prelude.Int.{pos}
use batch_ingestion_service.Py.Exc.{ok}
use batch_ingestion_service.Py.Value.{
  Value, none_val, str_val, int_val, Dict, dict, truthy, str_of, lookup, method_dict,
}
use batch_ingestion_service.Checkpoint.{Checkpoint, number, parse_checkpoint, parse_text}
use batch_ingestion_service.Config.Kinds.{ReadAdapterType}
use batch_ingestion_service.Init.MaxSql.{Drivers, max_sql}
use batch_ingestion_service.Init.MaxSql.Laws.{IsCounted, max_sql_closes}
use batch_ingestion_service.Init.Dynamo.{greater, larger, scan}
use batch_ingestion_service.Init.Dynamo.Order.{AtMost}
use batch_ingestion_service.Init.Dynamo.Laws.{Any, candidate, scan_largest}
use batch_ingestion_service.Metric.Adapter.Laws.{IsUnique}
use batch_ingestion_service.Read.Sql.{
  postgres, SqlAdapter, driver, format_checkpoint, build_jdbc_url, build_read_query, base_options,
  read_options_of,
}
use batch_ingestion_service.Read.Sql.Laws.{build_read_query_unbounded, last_of, read_option_wins}
use batch_ingestion_service.Tests.Data.{repr, orders_table}

abbrev item : String → Dict Value
item s = ("id", dict (("N", str_val s) ∷ [])) ∷ []

abbrev items : List (Dict Value)
items = item "3" ∷ item "17" ∷ [] ∷ item "5" ∷ []

scanned : scan repr "id" none items ≡ ok (some (number (pos 17)))
unfolding scan larger greater parse_checkpoint parse_text
scanned = refl

scan_largest_example :
    All
      (λ i. (c : Checkpoint) → candidate repr "id" i ≡ ok (some c) → AtMost c (number (pos 17)))
      items
    × Any (λ i. candidate repr "id" i ≡ ok (some (number (pos 17)))) items
scan_largest_example = scan_largest repr "id" items (number (pos 17)) scanned

abbrev orders_adapter : SqlAdapter
orders_adapter = record {
  dialect = postgres;
  source_config = record orders_table { read_options = dict (("fetchsize", str_val "500") ∷ []) };
  credentials = dict (("username", str_val "u") ∷ []);
  batch_size = int_val (pos 10000);
  filters = [];
  checkpoint_from = some (number (pos 10));
  checkpoint_to = some (number (pos 20));
  jdbc_options = [];
}

orders_query :
    build_read_query repr orders_table (some (number (pos 10))) (some (number (pos 20)))
    ≡ "(SELECT * FROM default.orders WHERE 10 < 20 AND id > 10 AND id <= 20) AS subq"
unfolding build_read_query format_checkpoint str_of truthy
orders_query = refl

build_read_query_unbounded_example :
    build_read_query repr orders_table none (some (number (pos 20)))
    ≡ build_read_query repr orders_table none none
build_read_query_unbounded_example =
    build_read_query_unbounded repr orders_table none (some (number (pos 20)))
      (inr (inr (inl refl)))

abbrev orders_options : List (String × Value)
orders_options =
    ("url", str_val "jdbc:postgresql://db1:5432/shop")
    ∷ (
      "dbtable",
      str_val "(SELECT * FROM default.orders WHERE 10 < 20 AND id > 10 AND id <= 20) AS subq",
    )
    ∷ ("driver", str_val "org.postgresql.Driver")
    ∷ ("user", str_val "u")
    ∷ ("password", none_val)
    ∷ ("fetchsize", int_val (pos 10000))
    ∷ ("fetchsize", str_val "500")
    ∷ []

options_read : read_options_of repr orders_adapter ≡ ok orders_options
unfolding read_options_of base_options build_jdbc_url driver build_read_query format_checkpoint
    str_of truthy
options_read = refl

abbrev fetch_500 : Dict Value
fetch_500 = ("fetchsize", str_val "500") ∷ []

configured : method_dict (dict fetch_500) ≡ ok fetch_500
unfolding method_dict
configured = refl

fetch_500-IsUnique : IsUnique fetch_500
unfolding lookup
fetch_500-IsUnique = (refl, tt)

asked : lookup "fetchsize" fetch_500 ≡ some (str_val "500")
unfolding lookup
asked = refl

read_option_wins_example : last_of "fetchsize" orders_options ≡ some (str_val "500")
read_option_wins_example =
    read_option_wins repr orders_adapter orders_options fetch_500 "fetchsize" (str_val "500")
      options_read configured fetch_500-IsUnique asked

-- a database that counts its connections and has one row
abbrev one_row : Drivers ℕ Unit
one_row = record {
  connect_postgres = λ h p d u w n. (ok tt, suc n);
  connect_mysql = λ h p d u w n. (ok tt, suc n);
  fetch_one = λ k q n. (ok (some (str_val "20")), n);
  close = λ k n. (ok tt, n - 1);
}

one_row-IsCounted : IsCounted one_row (λ n. n)
one_row-IsCounted = record {
  postgres = λ h p d u w s. refl;
  mysql = λ h p d u w s. refl;
  fetch = λ k q s. refl;
  closed = λ k s. refl;
}

max_sql_closes_example :
    (max_sql repr one_row ReadAdapterType.sql orders_table [] (str_val "id") 2).1 ≡ 2
max_sql_closes_example =
    max_sql_closes repr one_row (λ n. n) one_row-IsCounted ReadAdapterType.sql orders_table []
      (str_val "id") 2
