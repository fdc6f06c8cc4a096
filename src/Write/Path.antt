-- ===== src/Write/Path.antt =====
-- `BaseWriteAdapter.build_write_path` of adapters/write/base_write_adapter.py.
pub mod Segments
pub mod Laws
use Prim.Native.String
use batch_ingestion_service.Prelude.{
  Char, code, String, ◌<>◌, Bool, ◌&&◌, ◌||◌, Option, none, some, [], ◌∷◌, leb, if◌then◌else◌,
}
use batch_ingestion_service.Py.Exc.{Result, ok, raise, type_error, ◌>>=◌, ◌>>◌}
use batch_ingestion_service.Py.Time.{isoformat_date, strftime_hms}
use batch_ingestion_service.Py.Value.{Value, str_val, or_else, as_text, method_text}
use batch_ingestion_service.Py.Path.{
  PurePath, path_of, join, path_text, split_scheme, after_mark, lstrip_slash, parse_path,
}
use batch_ingestion_service.Config.Source.{SourceConfig, table, path, kafka}
use batch_ingestion_service.Config.Sink.{SinkConfig}

-- `[a-zA-Z0-9]`
abbrev pub is_alnum : Char → Bool
is_alnum c =
    let n = code c in (leb 97 n && leb n 122) || (leb 65 n && leb n 90) || (leb 48 n && leb n 57)

-- `re.sub(r"[^a-zA-Z0-9]", "_", s)`
unfoldable pub safe_run_id : String → String
safe_run_id String.[] = ""
safe_run_id (String.◌∷◌ c s) = String.◌∷◌ (if is_alnum c then c else "_") (safe_run_id s)

-- the part of the path that the source names
unfoldable pub base_path : SinkConfig → Result PurePath
unfolding as_text method_text
base_path cfg = elim cfg.source_config [
  | table c ↦ do
    name ← as_text cfg.source_system_name
    database ← as_text c.database
    schema ← as_text (or_else c.schema (str_val "default"))
    tbl ← as_text c.table
    ok (path_of (name ∷ database ∷ schema ∷ tbl ∷ []))
  | path c ↦ do
    p ← method_text c.path
    name ← as_text cfg.source_system_name
    ok (path_of (name ∷ lstrip_slash p ∷ []))
  | kafka c ↦ raise type_error "Unsupported source_config type: KafkaSourceConfig"
]

unfoldable pub date_part : SinkConfig → String
unfolding isoformat_date
date_part cfg = "ingestion_date=" <> isoformat_date cfg.ingestion_date

unfoldable pub time_part : SinkConfig → String
unfolding strftime_hms
time_part cfg = "ingestion_time=" <> strftime_hms cfg.ingestion_time

unfoldable pub run_part : String → String
unfolding safe_run_id
run_part run_id = "run_id=" <> safe_run_id run_id

-- the scheme, with its mark, and the rest of the endpoint
unfoldable pub split_endpoint : String → String × String
split_endpoint s = elim (split_scheme s) [
  | some (scheme, rest) ↦ (scheme <> "://", rest)
  | none ↦ ("", s)
]

unfoldable pub place : String × String → PurePath → PurePath → String
place (scheme, endpoint) base partitions =
    scheme <> path_text (join (join (parse_path endpoint) base) partitions)

unfoldable pub build_write_path : SinkConfig → Result String
unfolding as_text
build_write_path cfg = do
  base ← base_path cfg
  run_id ← as_text cfg.run_id
  let partitions = path_of (date_part cfg ∷ time_part cfg ∷ run_part run_id ∷ [])
  endpoint ← as_text cfg.endpoint
  ok (place (split_endpoint endpoint) base partitions)
