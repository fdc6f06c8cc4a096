-- ===== src/Write/Path/Laws.antt =====
-- Where a run writes: the path, its last three parts, and the run id in it.
use text.Mathlib.TextLemmas.{nil-append, append_assoc}
use batch_ingestion_service.Prelude.{
  String, ◌<>◌, ◌≡◌, ap, ◌∙◌, false, List, [], ◌∷◌, ◌++◌, arith, is_empty, All,
}
use batch_ingestion_service.Py.Exc.{ok}
use batch_ingestion_service.Py.Time.{isoformat_date, strftime_hms}
use batch_ingestion_service.Py.Value.{str_val, or_else}
use batch_ingestion_service.Py.Path.{PurePath, path_of, path_text, join, join_slash}
use batch_ingestion_service.Py.Path.Laws.{
  Lacks, is_empty-append_left, IsSegment, parse_path_of_IsSegment, path_of_of_IsSegment,
  split_scheme-append,
}
use batch_ingestion_service.Config.Source.{table, TableSourceConfig}
use batch_ingestion_service.Config.Sink.{SinkConfig}
use batch_ingestion_service.Write.Path.{
  base_path, split_endpoint, place, build_write_path, date_part, time_part, run_part, safe_run_id,
}
use batch_ingestion_service.Write.Path.Segments.{
  partitions, IsDated, partitions-IsSegment, Sanitises, safe_run_id-Sanitises,
}

pub split_endpoint-append :
    (scheme rest : String)
    → Lacks b':' scheme
    → split_endpoint (scheme <> "://" <> rest) ≡ (scheme <> "://", rest)
unfolding split_endpoint
split_endpoint-append scheme rest h = ground (arith, split_scheme-append scheme rest h)

abbrev relative : List String → PurePath
relative xs = record { root = ""; parts = xs }

-- the base path of a table, when its names are plain
base_path_of_table :
    (cfg : SinkConfig) (c : TableSourceConfig) (name db schema tbl : String)
    → cfg.source_config ≡ table c
    → cfg.source_system_name ≡ str_val name
    → c.database ≡ str_val db
    → or_else c.schema (str_val "default") ≡ str_val schema
    → c.table ≡ str_val tbl
    → base_path cfg ≡ ok (path_of (name ∷ db ∷ schema ∷ tbl ∷ []))
unfolding base_path
base_path_of_table cfg c name db schema tbl h1 h2 h3 h4 h5 = ground arith

-- a path below a plain root, in front of the partitions of the run
place_of_IsSegment :
    (scheme rest : String) (names last : List String)
    → IsSegment rest
    → place (scheme, rest) (relative names) (relative last)
      ≡ scheme <> path_text (relative ((rest ∷ names) ++ last))
unfolding place join
place_of_IsSegment scheme rest names last h = rw (parse_path_of_IsSegment rest h)

join_slash-nonempty :
    (x : String) (xs : List String) → is_empty x ≡ false → is_empty (join_slash (x ∷ xs)) ≡ false
unfolding join_slash
join_slash-nonempty x [] h = h
join_slash-nonempty x (y ∷ xs) h = is_empty-append_left x _ h

path_text_of_relative :
    (x : String) (xs : List String)
    → is_empty x ≡ false
    → path_text (relative (x ∷ xs)) ≡ join_slash (x ∷ xs)
unfolding path_text
path_text_of_relative x xs h =
    rw (nil-append (join_slash (x ∷ xs))) (rw (join_slash-nonempty x xs h))

-- A sink for a table: an endpoint `scheme://rest`, and plain names.
pub record IsTableSink (cfg : SinkConfig) : Type 0 where
  pub source : TableSourceConfig
  pub scheme : String
  pub rest : String
  pub name : String
  pub database : String
  pub schema : String
  pub tbl : String
  pub run_id : String
  pub source_eq : cfg.source_config ≡ table source
  pub endpoint_eq : cfg.endpoint ≡ str_val (scheme <> "://" <> rest)
  pub name_eq : cfg.source_system_name ≡ str_val name
  pub database_eq : source.database ≡ str_val database
  pub schema_eq : or_else source.schema (str_val "default") ≡ str_val schema
  pub table_eq : source.table ≡ str_val tbl
  pub run_eq : cfg.run_id ≡ str_val run_id
  pub scheme_plain : Lacks b':' scheme
  pub names_plain : All IsSegment (rest ∷ name ∷ database ∷ schema ∷ tbl ∷ [])

build_write_path_steps :
    (cfg : SinkConfig) (base : PurePath) (run_id endpoint : String)
    → base_path cfg ≡ ok base
    → cfg.run_id ≡ str_val run_id
    → cfg.endpoint ≡ str_val endpoint
    → build_write_path cfg
      ≡ ok (place (split_endpoint endpoint) base (path_of (partitions cfg run_id)))
unfolding build_write_path
build_write_path_steps cfg base run_id endpoint h1 h2 h3 = rw (h1, h2, h3)

placed_table :
    (cfg : SinkConfig) (t : IsTableSink cfg)
    → IsDated cfg
    → place
        (split_endpoint (t.scheme <> "://" <> t.rest))
        (path_of (t.name ∷ t.database ∷ t.schema ∷ t.tbl ∷ []))
        (path_of (partitions cfg t.run_id))
      ≡ t.scheme
        <> "://"
        <> join_slash (t.rest ∷ t.name ∷ t.database ∷ t.schema ∷ t.tbl ∷ partitions cfg t.run_id)
placed_table cfg t d =
    let (root, plain) = t.names_plain in
    let names : List String = t.name ∷ t.database ∷ t.schema ∷ t.tbl ∷ [] in
    let last : List String = partitions cfg t.run_id in
    rw
      (
        split_endpoint-append t.scheme t.rest t.scheme_plain,
        path_of_of_IsSegment names plain,
        path_of_of_IsSegment last (partitions-IsSegment cfg t.run_id d),
      )
      (place_of_IsSegment (t.scheme <> "://") t.rest names last root
        ∙ ap (λ x. (t.scheme <> "://") <> x)
            (path_text_of_relative t.rest (names ++ last) root.nonempty)
        ∙ append_assoc t.scheme "://" _)

-- When the endpoint has a scheme and the names of the table are plain, so that no name has a slash and
-- none is empty or ".", `build_write_path` is
-- scheme://rest/source_system_name/database/schema/table/ingestion_date=D/ingestion_time=T/run_id=R with
-- no slash at the end: D is the ISO date, T the time with dashes, and R the run id with an underscore in
-- the place of each character that is no ASCII letter and no digit.
pub build_write_path-table :
    (cfg : SinkConfig) (t : IsTableSink cfg)
    → IsDated cfg
    → (safe : String) × Sanitises t.run_id safe
      × (build_write_path cfg
          ≡ ok (
              t.scheme
              <> "://"
              <> join_slash (
                  t.rest
                  ∷ t.name
                  ∷ t.database
                  ∷ t.schema
                  ∷ t.tbl
                  ∷ ("ingestion_date=" <> isoformat_date cfg.ingestion_date)
                  ∷ ("ingestion_time=" <> strftime_hms cfg.ingestion_time)
                  ∷ ("run_id=" <> safe)
                  ∷ [])))
unfolding date_part time_part run_part
build_write_path-table cfg t d =
    let names : List String = t.name ∷ t.database ∷ t.schema ∷ t.tbl ∷ [] in
    let base =
      base_path_of_table cfg t.source t.name t.database t.schema t.tbl t.source_eq t.name_eq
        t.database_eq t.schema_eq t.table_eq in
    (
      safe_run_id t.run_id,
      safe_run_id-Sanitises t.run_id,
      build_write_path_steps cfg (path_of names) t.run_id (t.scheme <> "://" <> t.rest) base
            t.run_eq t.endpoint_eq
          ∙ ap ok (placed_table cfg t d),
    )
