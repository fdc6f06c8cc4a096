-- ===== src/Spark/Outcome.antt =====
-- What a Spark task that returned has done: orchestration/operators/spark_run_operator.py with the read
-- and write adapters.
use batch_ingestion_service.Prelude.{String, ◌≡◌, ◌∙◌, refl, sym, ap, Bool, none, List}
use batch_ingestion_service.Py.Exc.{ok, ok-injective, >>=-eq-ok}
use batch_ingestion_service.Py.Exec.{Exec, bind-Keeps}
use batch_ingestion_service.Py.Value.{Value, str_val, method_text}
use batch_ingestion_service.Config.Source.{
  SourceConfig, TableSourceConfig, PathSourceConfig, table, path,
}
use batch_ingestion_service.Config.Sink.{SinkConfig}
use batch_ingestion_service.Config.Kinds.{ReadAdapterType}
use batch_ingestion_service.Context.{RunContext}
use batch_ingestion_service.Write.Path.{build_write_path}
use batch_ingestion_service.Metric.Adapter.{Formats, Clients}
use batch_ingestion_service.Metric.Operator.Build.{Secrets}
use batch_ingestion_service.Write.Hadoop.{Hadoop}
use batch_ingestion_service.Write.Sink
use batch_ingestion_service.Write.Sink.{sink_config_of}
use batch_ingestion_service.Write.Sink.Laws.{KeepsFiles, Saved, Saved-along, Copied, Copied-along}
use batch_ingestion_service.Write.Sink.Probes as SinkProbes
use batch_ingestion_service.Write.Sink.Probes.{ProbesOnly}
use batch_ingestion_service.Read.Frames.{Frames}
use batch_ingestion_service.Read.Sql.{Dialect, read_options_of}
use batch_ingestion_service.Read.NoSql.{Stores}
use batch_ingestion_service.Read.File.{FileStatus}
use batch_ingestion_service.Read.Kafka.{Decoder}
use batch_ingestion_service.Read.Factory
use batch_ingestion_service.Read.Factory.{sql_class, registry, sql_adapter}
use batch_ingestion_service.Read.Factory.Laws.{normalised-table}
use batch_ingestion_service.Read.Factory.Probes as ReadProbes
use batch_ingestion_service.Read.Factory.Probes.{LooksOnly}
use batch_ingestion_service.Spark.{SparkRunOperator, SparkRun, World, pulled, execute}
use batch_ingestion_service.Spark.Source.{normalised}
use batch_ingestion_service.Spark.Sinks.{Reader, with_sinks, sink_of, file_transfer_copies}
use batch_ingestion_service.Spark.Sources.{
  Session, SessionOnly, source_of, with_sources, with_sources-ReadsOnly, sql_transfer_saves,
}
use batch_ingestion_service.Spark.Task.{
  PreparesOnly, source_adapter, sink_adapter, execute_transfers,
}

normalised-path :
    (t : ReadAdapterType) (c : PathSourceConfig) (k : SourceConfig)
    → normalised t (path c) ≡ ok k
    → (c' : PathSourceConfig) × (k ≡ path c')
unfolding normalised
normalised-path ReadAdapterType.s3 c k e =
    let (s, _, built) = >>=-eq-ok (method_text c.path) _ e in (_, ok-injective (sym built))
normalised-path ReadAdapterType.sql c k e = (c, ok-injective (sym e))
normalised-path ReadAdapterType.mysql c k e = (c, ok-injective (sym e))
normalised-path ReadAdapterType.nosql c k e = (c, ok-injective (sym e))
normalised-path ReadAdapterType.dynamodb c k e = (c, ok-injective (sym e))
normalised-path ReadAdapterType.cassandra c k e = (c, ok-injective (sym e))
normalised-path ReadAdapterType.file c k e = (c, ok-injective (sym e))
normalised-path ReadAdapterType.kafka c k e = (c, ok-injective (sym e))

module _ (repr : Value → String) {S D T K W KQ F : Type 0} (h : Hadoop S D T) (f : Frames S D T)
    (d : Decoder D T) (stores : Stores S K) (list_status : Value → Exec S (List FileStatus))
    (path_exists : Value → Exec S Bool) (session : Session S D) (formats : Formats)
    (clients : Clients W KQ) (secrets : Secrets) (files : S → F) (kh : KeepsFiles h files)
    (kp : ProbesOnly h files) (kl : LooksOnly stores path_exists files)
    (ks : SessionOnly session f files) where
  abbrev sources : Reader S D
  sources = with_sources repr h f d stores list_status path_exists session

  adapters-PreparesOnly : PreparesOnly (with_sinks h sources) files
  adapters-PreparesOnly = record {
    by_session = ks.by_build;
    by_source = λ a.
        bind-Keeps files
          (Factory.validate_connection repr h f d stores list_status path_exists (source_of a)) _
          (ReadProbes.validate_connection-Keeps repr h f d stores list_status path_exists files kh
            ks.by_frames kl (source_of a))
          (λ healthy s. refl);
    by_sink = λ a.
        bind-Keeps files (Sink.validate_connection h (sink_of a)) _
          (SinkProbes.validate_connection-Keeps h files kh kp (sink_of a)) (λ healthy s. refl);
  }

  -- When Spark, the probes of the source and of the sink, and the calls that configure and report leave
  -- the files alone, a Spark task that returned for a context of a SQL table has loaded by JDBC what
  -- the query of the context's two checkpoints selects, and saved exactly that frame once at the path
  -- of the context's sink; nothing else changed the files.
  pub execute_saves_table :
      (op : SparkRunOperator) (run : SparkRun) (c : RunContext) (tc : TableSourceConfig)
      (dialect : Dialect) (s : World S W)
      → pulled repr run.raw_context ≡ ok c
      → c.source_config ≡ table tc
      → registry c.read_type ≡ sql_class dialect
      → (execute repr (with_sinks h sources) formats clients secrets op run s).0 ≡ ok tt
      → (cfg : SinkConfig) × (opts : List (String × Value)) × (df : D) × (t : S) × (sink_config_of
            c.write_type
            (record c.sink_config { source_config = table tc })
          ≡ ok cfg)
        × (read_options_of repr (sql_adapter dialect (source_of (source_adapter c (table tc))) tc)
            ≡ ok opts)
        × ((f.load (str_val "jdbc") opts none none t).0 ≡ ok df)
        × Saved h files
            (sink_of (sink_adapter c cfg))
            df
            (files s.cluster)
            (files (execute repr (with_sinks h sources) formats clients secrets op run s).1.cluster)
  execute_saves_table op run c tc dialect s found is_table is_sql returned =
      let w =
        execute_transfers repr (with_sinks h sources) formats clients secrets files
          adapters-PreparesOnly op run c s found returned in
      let same : w.source_config ≡ table tc =
        ok-injective (
          sym w.normal
          ∙ (ap (normalised c.read_type) is_table ∙ normalised-table c.read_type tc)) in
      let (opts, df, t, built, loaded, saved) =
        sql_transfer_saves repr h f d stores list_status path_exists session formats clients secrets
          files kh ks c.count_records (source_adapter c (table tc)) tc dialect
          (sink_adapter c w.sink_config) w.state is_sql refl (rw same at w.returned) in
      (
        w.sink_config,
        opts,
        df,
        t,
        rw same at w.placed,
        built,
        loaded,
        Saved-along h files saved w.unchanged (ap (λ q. files q.cluster) (rw same at w.result)),
      )

  -- When Spark, the probes of the source and of the sink, and the calls that configure and report leave
  -- the files alone, a Spark task that returned for a context of a file source has copied its path, in
  -- the form of the source's connector, exactly once and without deletion to the path of the
  -- context's sink; nothing else changed the files.
  pub execute_copies_files :
      (op : SparkRunOperator) (run : SparkRun) (c : RunContext) (pc : PathSourceConfig)
      (s : World S W)
      → pulled repr run.raw_context ≡ ok c
      → c.source_config ≡ path pc
      → (execute repr (with_sinks h sources) formats clients secrets op run s).0 ≡ ok tt
      → (pc' : PathSourceConfig) × (cfg : SinkConfig) × (dest_path : String) × (normalised
            c.read_type
            (path pc)
          ≡ ok (path pc'))
        × (sink_config_of c.write_type (record c.sink_config { source_config = path pc' }) ≡ ok cfg)
        × (build_write_path cfg ≡ ok dest_path)
        × Copied h files pc'.path dest_path
            (files s.cluster)
            (files (execute repr (with_sinks h sources) formats clients secrets op run s).1.cluster)
  execute_copies_files op run c pc s found is_path returned =
      let w =
        execute_transfers repr (with_sinks h sources) formats clients secrets files
          adapters-PreparesOnly op run c s found returned in
      let normal = ap (normalised c.read_type) (sym is_path) ∙ w.normal in
      let (pc', same) = normalised-path c.read_type pc w.source_config normal in
      let (dest_path, built, copied) =
        file_transfer_copies repr h sources formats clients secrets files kh
          (with_sources-ReadsOnly repr h f d stores list_status path_exists session formats clients
            secrets files kh ks)
          c.count_records (source_adapter c (path pc')) pc' (sink_adapter c w.sink_config) w.state
          (rw same at w.returned) in
      (
        pc',
        w.sink_config,
        dest_path,
        rw same at normal,
        rw same at w.placed,
        built,
        Copied-along h files copied w.unchanged (ap (λ q. files q.cluster) (rw same at w.result)),
      )
