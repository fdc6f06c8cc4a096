-- ===== src/Spark/Sources.antt =====
-- The Spark task with the adapters of the read factory as its sources, and its sinks.
use batch_ingestion_service.Prelude.{ℕ, String, ◌≡◌, refl, Bool, none, List}
use batch_ingestion_service.Py.Exc.{ok}
use batch_ingestion_service.Py.Exec.{Exec, pure, lift, ◌>>=◌, Keeps, >>=-step}
use batch_ingestion_service.Py.Value.{Value, str_val, Dict}
use batch_ingestion_service.Config.Source.{SourceConfig, TableSourceConfig, table, path, kafka}
use batch_ingestion_service.Write.Hadoop.{Hadoop}
use batch_ingestion_service.Write.Sink.Laws.{KeepsFiles, Saved}
use batch_ingestion_service.Metric.Adapter.{Formats, Clients}
use batch_ingestion_service.Metric.Operator.Build.{Secrets}
use batch_ingestion_service.Read.Frames.{Frames}
use batch_ingestion_service.Read.Sql.{Dialect, read_options_of}
use batch_ingestion_service.Read.NoSql.{Stores}
use batch_ingestion_service.Read.File.{FileStatus}
use batch_ingestion_service.Read.Kafka.{Decoder}
use batch_ingestion_service.Read.Factory
use batch_ingestion_service.Read.Factory.Files.{LoadsOnly, read-Keeps}
use batch_ingestion_service.Read.Factory.{
  ReadAdapter, ReadClass, sql_class, registry, adapter_of, sql_adapter, missing, as_sql, read_sql,
  read_as,
}
use batch_ingestion_service.Spark.{SourceAdapter, SinkAdapter, World, transfer}
use batch_ingestion_service.Spark.Sinks.{
  Reader, ReadsOnly, with_sinks, sink_of, table_transfer_saves,
}

-- the session and what is asked of a frame that was read
pub record Session (S D : Type 0) : Type 0 where
  pub build_session : Value → Dict Value → Exec S Unit
  pub cache : D → Exec S Unit
  pub count : D → Exec S ℕ
  pub unpersist : D → Exec S Unit

-- The session and Spark's reads leave the files alone.
pub record SessionOnly {S D T F : Type 0} (session : Session S D) (f : Frames S D T) (files : S → F)
    : Type 0 where
  pub by_frames : LoadsOnly f files
  pub by_build :
      (name : Value) (config : Dict Value) → Keeps files (session.build_session name config)
  pub by_cache : (df : D) → Keeps files (session.cache df)
  pub by_count : (df : D) → Keeps files (session.count df)
  pub by_unpersist : (df : D) → Keeps files (session.unpersist df)

-- the source adapter with what the operator sets on it
abbrev pub source_of : SourceAdapter → ReadAdapter
source_of a = record (adapter_of a.read_type a.source_config) {
  credentials = a.credentials;
  checkpoint_from = a.checkpoint_from;
  checkpoint_to = a.checkpoint_to;
}

module _ (repr : Value → String) {S D T K : Type 0} (h : Hadoop S D T) (f : Frames S D T)
    (d : Decoder D T) (stores : Stores S K) (list_status : Value → Exec S (List FileStatus))
    (path_exists : Value → Exec S Bool) (session : Session S D) where
  -- The adapters of the factory have no filters, so `apply_filters` changes nothing; what
  -- `validate_connection` returns is not looked at.
  abbrev pub with_sources : Reader S D
  with_sources = record {
    build_session = session.build_session;
    validate_source = λ a.
        Factory.validate_connection repr h f d stores list_status path_exists (source_of a)
        >>= λ healthy. pure tt;
    apply_filters = λ a. pure tt;
    read = λ a. Factory.read repr h f d stores list_status path_exists (source_of a);
    cache = session.cache;
    count = session.count;
    unpersist = session.unpersist;
  }

  as_sql_of_table :
      (dialect : Dialect) (a : ReadAdapter) (c : TableSourceConfig)
      → a.source_config ≡ table c
      → as_sql dialect a ≡ ok (sql_adapter dialect a c)
  unfolding as_sql
  as_sql_of_table dialect a c e = of_config a.source_config e
    where
      of_config :
          (k : SourceConfig)
          → k ≡ table c
          → (elim k [
            | table d ↦ ok (sql_adapter dialect a d)
            | path d ↦ missing "host"
            | kafka d ↦ missing "host"
          ])
            ≡ ok (sql_adapter dialect a c)
      of_config (table d) q = cc
      of_config (path d) q = cc
      of_config (kafka d) q = cc

  sql_class_loads :
      (dialect : Dialect) (a : ReadAdapter) (c : TableSourceConfig) (df : D) (t : S)
      → a.source_config ≡ table c
      → (read_as repr h f d stores list_status path_exists (sql_class dialect) a t).0 ≡ ok df
      → (opts : List (String × Value)) × (read_options_of repr (sql_adapter dialect a c) ≡ ok opts)
        × ((f.load (str_val "jdbc") opts none none t).0 ≡ ok df)
  unfolding read_as read_sql
  sql_class_loads dialect a c df t same got =
      let read : (read_sql repr h f d stores list_status path_exists (sql_adapter dialect a c) t).0
          ≡ ok df =
        (rw (as_sql_of_table dialect a c same) at got) in
      let (opts, built, _, loaded) =
        >>=-step (lift (read_options_of repr (sql_adapter dialect a c))) _ t read in
      (opts, built, loaded)

  module _ {W KQ F : Type 0} (formats : Formats) (clients : Clients W KQ) (secrets : Secrets)
      (files : S → F) (kh : KeepsFiles h files) (ks : SessionOnly session f files) where
    pub with_sources-ReadsOnly : ReadsOnly with_sources files
    with_sources-ReadsOnly = record {
      by_filters = λ a s. refl;
      by_read = λ a.
          read-Keeps repr h f d stores list_status path_exists files kh ks.by_frames (source_of a);
      by_cache = ks.by_cache;
      by_count = ks.by_count;
      by_unpersist = ks.by_unpersist;
    }

    -- When Spark's reads, the session and the calls that configure and report leave the files alone
    -- and the transfer of a SQL table returns, Spark loaded by JDBC what the query of the run's two
    -- checkpoints selects, and saved exactly that frame once at the path of the run; nothing else
    -- changed the files.
    pub sql_transfer_saves :
        (v : Value) (source : SourceAdapter) (c : TableSourceConfig) (dialect : Dialect)
        (sink : SinkAdapter) (s : World S W)
        → registry source.read_type ≡ sql_class dialect
        → source.source_config ≡ table c
        → (transfer repr
            (with_sinks h with_sources)
            formats
            clients
            secrets
            v
            source
            (table c)
            sink
            s).0
          ≡ ok tt
        → (opts : List (String × Value)) × (df : D) × (t : S) × (read_options_of repr
              (sql_adapter dialect (source_of source) c)
            ≡ ok opts)
          × ((f.load (str_val "jdbc") opts none none t).0 ≡ ok df)
          × Saved h files (sink_of sink) df (files s.cluster) (
              files
                (transfer repr
                  (with_sinks h with_sources)
                  formats
                  clients
                  secrets
                  v
                  source
                  (table c)
                  sink
                  s).1.cluster)
    unfolding Factory.read
    sql_transfer_saves v source c dialect sink s class same returned =
        let (df, t, got, saved) =
          table_transfer_saves repr h with_sources formats clients secrets files kh
            with_sources-ReadsOnly v source c sink s returned in
        let (opts, built, loaded) =
          sql_class_loads dialect (source_of source) c df t same (rw class at got) in
        (opts, df, t, built, loaded, saved)
