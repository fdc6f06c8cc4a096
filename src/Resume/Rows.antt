-- ===== src/Resume/Rows.antt =====
-- The rows that a read takes by their checkpoint column, and the query of _build_read_query in
-- adapters/source/sql_adapter.py that asks for them.
use batch_ingestion_service.Prelude.{
  refl, String, ◌<>◌, is_empty, ◌≡◌, Bool, true, false, Option, none, some, List, [], ◌∷◌, ◌⊎◌,
}
use batch_ingestion_service.Py.Exc.{ok}
use batch_ingestion_service.Py.Value.{Value, str_val, truthy, str_of}
use batch_ingestion_service.Py.Number.{str_of_int}
use batch_ingestion_service.Py.Time.{isoformat}
use batch_ingestion_service.Config.Source.{TableSourceConfig}
use batch_ingestion_service.Read.Sql.{format_checkpoint, window, build_read_query}
use batch_ingestion_service.Checkpoint.{Checkpoint, number, stamp, text}
use batch_ingestion_service.Init.Dynamo.{greater}
use batch_ingestion_service.Init.Dynamo.Order.{AtMost}
use batch_ingestion_service.Resume.History.{Window}

-- the rows that a read takes, by their checkpoint column: all of them, or those between two checkpoints
pub data Rows : Type 0 where
  everything : Rows
  between : Checkpoint → Checkpoint → Rows

-- what the database does with a condition `from < to AND column > from AND column <= to`, for a row with
-- `v` in the column
abbrev pub Takes : Rows → Checkpoint → Type 0
Takes everything v = Unit
Takes (between from to) v = (greater to from ≡ ok true) × ((greater v from ≡ ok true) × AtMost v to)

-- the literal of a number or a time in SQL
abbrev pub literal : Checkpoint → String
literal (number z) = str_of_int z
literal (stamp t) = "'" <> isoformat " " t <> "'"
literal (text s) = s

abbrev pub IsLiteral : Checkpoint → Type 0
IsLiteral (number z) = Unit
IsLiteral (stamp t) = Unit
IsLiteral (text s) = ⊥

abbrev pub condition : String → Rows → String
condition column everything = ""
condition column (between from to) =
    " WHERE "
    <> literal from
    <> " < "
    <> literal to
    <> " AND "
    <> column
    <> " > "
    <> literal from
    <> " AND "
    <> column
    <> " <= "
    <> literal to

-- the query that takes some rows of a table
abbrev pub query_of : String → String → String → Rows → String
query_of schema name column rows =
    "(SELECT * FROM " <> schema <> "." <> name <> condition column rows <> ") AS subq"

abbrev pub rows_from : Option Checkpoint → Checkpoint → Rows
rows_from none to = everything
rows_from (some from) to = between from to

abbrev pub rows_of : Window → Rows
rows_of w = rows_from w.from w.to

abbrev pub NoneTakes : Checkpoint → List Rows → Type 0
NoneTakes v [] = Unit
NoneTakes v (q ∷ qs) = (¬ Takes q v) × NoneTakes v qs

-- One read takes the row, and no other does.
abbrev pub ExactlyOne : Checkpoint → List Rows → Type 0
ExactlyOne v [] = ⊥
ExactlyOne v (q ∷ qs) = (Takes q v × NoneTakes v qs) ⊎ ((¬ Takes q v) × ExactlyOne v qs)

-- A value and a lower bound can be compared, and the upper bound is not below the lower one.
abbrev pub Bounds : Checkpoint → Option Checkpoint → Checkpoint → Type 0
Bounds v none to = Unit
Bounds v (some from) to = ((b : Bool) × (greater v from ≡ ok b)) × AtMost from to

abbrev pub Rises : Checkpoint → List Window → Type 0
Rises v [] = Unit
Rises v (w ∷ ws) = Bounds v w.from w.to × Rises v ws

-- Each window's query, as `_build_read_query` writes it, is that of the rows of the window.
abbrev pub AreQueried :
    (Value → String) → TableSourceConfig → String → String → String → List Window → Type 0
AreQueried repr c schema name column [] = Unit
AreQueried repr c schema name column (w ∷ ws) =
    (build_read_query repr c w.from (some w.to) ≡ query_of schema name column (rows_of w))
    × AreQueried repr c schema name column ws

literal_lem : (k : Checkpoint) → format_checkpoint k ≡ literal k
unfolding format_checkpoint
literal_lem (number z) = refl
literal_lem (stamp t) = refl
literal_lem (text s) = refl

-- the query of a read
query_of_rows :
    (repr : Value → String) (c : TableSourceConfig) (schema name column : String)
    (from : Option Checkpoint) (to : Checkpoint)
    → truthy c.query ≡ false
    → c.schema ≡ str_val schema
    → c.table ≡ str_val name
    → c.checkpoint_column ≡ str_val column
    → is_empty column ≡ false
    → build_read_query repr c from (some to) ≡ query_of schema name column (rows_from from to)
unfolding build_read_query window format_checkpoint str_of truthy
query_of_rows repr c schema name column none to no_query e1 e2 e3 named = rw (no_query, e1, e2) refl
query_of_rows repr c schema name column (some from) to no_query e1 e2 e3 named =
    rw (no_query, e1, e2, e3, named, literal_lem from, literal_lem to) refl

pub are_queried :
    (repr : Value → String) (c : TableSourceConfig) (schema name column : String) (ws : List Window)
    → truthy c.query ≡ false
    → c.schema ≡ str_val schema
    → c.table ≡ str_val name
    → c.checkpoint_column ≡ str_val column
    → is_empty column ≡ false
    → AreQueried repr c schema name column ws
are_queried repr c schema name column [] h e1 e2 e3 named = tt
are_queried repr c schema name column (w ∷ ws) h e1 e2 e3 named = (
  query_of_rows repr c schema name column w.from w.to h e1 e2 e3 named,
  are_queried repr c schema name column ws h e1 e2 e3 named,
)
