-- ===== src/Spark/Task.antt =====
-- The whole Spark task of a SQL table, with the adapters of the read factory and the sinks.
use batch_ingestion_service.Prelude.{String, ◌≡◌, ◌∙◌, refl, sym, ap}
use batch_ingestion_service.Py.Exc.{Result, ok, err}
use batch_ingestion_service.Py.Exec.{Exec, lift, Keeps, >>=-step}
use batch_ingestion_service.Py.Value.{Value, Dict, method_dict}
use batch_ingestion_service.Config.Source.{SourceConfig}
use batch_ingestion_service.Config.Sink.{SinkConfig}
use batch_ingestion_service.Context.{RunContext}
use batch_ingestion_service.Metric.Adapter.{Formats, Clients}
use batch_ingestion_service.Metric.Operator.Build.{Secrets}
use batch_ingestion_service.Write.Sink.{sink_config_of}
use batch_ingestion_service.Spark.Laws.{execute_reraises}
use batch_ingestion_service.Spark.Source.{normalised}
use batch_ingestion_service.Spark.Session.{session_config}
use batch_ingestion_service.Spark.{
  SparkRunOperator, SparkRun, SourceAdapter, SinkAdapter, Adapters, World, config_extra, on_cluster,
  app_name, pulled, transfer, run_adapters, run_pipeline, pipeline, failed, execute,
}

-- The session and the two validations leave the files alone.
pub record PreparesOnly {S D F : Type 0} (adapters : Adapters S D) (files : S → F) : Type 0 where
  pub by_session :
      (name : Value) (config : Dict Value) → Keeps files (adapters.build_session name config)
  pub by_source : (a : SourceAdapter) → Keeps files (adapters.validate_source a)
  pub by_sink : (a : SinkAdapter) → Keeps files (adapters.validate_sink a)

-- the adapters that the task makes of a context
abbrev pub source_adapter : RunContext → SourceConfig → SourceAdapter
source_adapter c source_config = record {
  read_type = c.read_type;
  source_config = source_config;
  credentials = c.source_credentials;
  checkpoint_from = c.checkpoint_from;
  checkpoint_to = c.checkpoint_to;
}

abbrev pub sink_adapter : RunContext → SinkConfig → SinkAdapter
sink_adapter c sink_config = record {
  write_type = c.write_type;
  sink_config = sink_config;
  credentials = c.sink_credentials;
}

module _ {S D W K : Type 0} (repr : Value → String) (adapters : Adapters S D) (f : Formats)
    (clients : Clients W K) (secrets : Secrets) where
  -- a task that returned is its pipeline
  execute-pipeline :
      (op : SparkRunOperator) (run : SparkRun) (s : World S W)
      → (execute repr adapters f clients secrets op run s).0 ≡ ok tt
      → ((pipeline repr adapters f clients secrets op run s).0 ≡ ok tt)
        × (execute repr adapters f clients secrets op run s
            ≡ pipeline repr adapters f clients secrets op run s)
  unfolding execute failed
  execute-pipeline op run s returned =
      let piped = sym (execute_reraises repr adapters f clients secrets op run s) ∙ returned in
      (piped, of_result _ _ piped)
    where
      of_result :
          (r : Result (Unit {0})) (t : World S W)
          → r ≡ ok tt
          → failed repr adapters f clients secrets op run r t ≡ (r, t)
      of_result (ok u) t e = refl
      of_result (err x) t e = cc

  -- the pipeline of a context that was found
  pub of_context :
      (op : SparkRunOperator) (run : SparkRun) (c : RunContext) (s : World S W)
      → pulled repr run.raw_context ≡ ok c
      → pipeline repr adapters f clients secrets op run s
        ≡ run_pipeline repr adapters f clients secrets op run c s
  unfolding pipeline
  of_context op run c s found = rw found refl

module _ {S D W K F : Type 0} (repr : Value → String) (adapters : Adapters S D) (f : Formats)
    (clients : Clients W K) (secrets : Secrets) (files : S → F)
    (h : PreparesOnly adapters files) where
  -- How the task comes to its transfer: in a state with the same files, from which it only transfers.
  pub record Transferred (c : RunContext) (s : World S W) (after : World S W) : Type 0 where
    pub source_config : SourceConfig
    pub sink_config : SinkConfig
    pub state : World S W
    pub normal : normalised c.read_type c.source_config ≡ ok source_config
    pub placed :
        sink_config_of c.write_type (record c.sink_config { source_config = source_config })
        ≡ ok sink_config
    pub unchanged : files state.cluster ≡ files s.cluster
    pub returned :
        (transfer repr adapters f clients secrets c.count_records
          (source_adapter c source_config)
          source_config
          (sink_adapter c sink_config)
          state).0
        ≡ ok tt
    pub result :
        after
        ≡ (transfer repr adapters f clients secrets c.count_records
            (source_adapter c source_config)
            source_config
            (sink_adapter c sink_config)
            state).1

  abbrev on : {A : Type 0} → Exec S A → Exec (World S W) A
  on m = on_cluster repr adapters f clients secrets m

  run_adapters_transfers :
      (v : Value) (source : SourceAdapter) (sink : SinkAdapter) (s : World S W)
      → (run_adapters repr adapters f clients secrets v source sink s).0 ≡ ok tt
      → (t : World S W) × (files t.cluster ≡ files s.cluster)
        × (run_adapters repr adapters f clients secrets v source sink s
            ≡ transfer repr adapters f clients secrets v source source.source_config sink t)
  unfolding run_adapters
  run_adapters_transfers v source sink s returned =
      let (_, _, e1, h1) = >>=-step (on (adapters.validate_source source)) _ s returned in
      let s1 = (on (adapters.validate_source source) s).1 in
      let (_, _, e2, h2) = >>=-step (on (adapters.validate_sink sink)) _ s1 h1 in
      (
        (on (adapters.validate_sink sink) s1).1,
        h.by_sink sink s1.cluster ∙ h.by_source source s.cluster,
        e1 ∙ e2,
      )

  run_pipeline_transfers :
      (op : SparkRunOperator) (run : SparkRun) (c : RunContext) (s : World S W)
      → (run_pipeline repr adapters f clients secrets op run c s).0 ≡ ok tt
      → Transferred c s (run_pipeline repr adapters f clients secrets op run c s).1
  unfolding run_pipeline
  run_pipeline_transfers op run c s returned =
      let (extra, _, e1, h1) =
        >>=-step (lift (method_dict (config_extra c.source_config))) _ s returned in
      let session = on (
        adapters.build_session (app_name repr adapters f clients secrets op run)
          (session_config op.spark_config extra)) in
      let (_, _, e2, h2) = >>=-step session _ s h1 in
      let s2 = (session s).1 in
      let (src, normal, e3, h3) =
        >>=-step (lift (normalised c.read_type c.source_config)) _ s2 h2 in
      let (cfg, placed, e4, h4) =
        >>=-step (lift (sink_config_of c.write_type (record c.sink_config { source_config = src })))
          _ s2 h3 in
      let (t, kept, e5) =
        run_adapters_transfers c.count_records (source_adapter c src) (sink_adapter c cfg) s2 h4 in
      record {
        source_config = src;
        sink_config = cfg;
        state = t;
        normal = normal;
        placed = placed;
        unchanged = kept ∙ h.by_session _ _ s.cluster;
        returned = ap (λ r. r.0) (sym e5) ∙ h4;
        result = ap (λ r. r.1) (e1 ∙ (e2 ∙ (e3 ∙ (e4 ∙ e5))));
      }

  pub execute_transfers :
      (op : SparkRunOperator) (run : SparkRun) (c : RunContext) (s : World S W)
      → pulled repr run.raw_context ≡ ok c
      → (execute repr adapters f clients secrets op run s).0 ≡ ok tt
      → Transferred c s (execute repr adapters f clients secrets op run s).1
  execute_transfers op run c s found returned =
      let (piped, same) = execute-pipeline repr adapters f clients secrets op run s returned in
      let whole = of_context repr adapters f clients secrets op run c s found in
      rw (same ∙ whole) (run_pipeline_transfers op run c s (ap (λ r. r.0) (sym whole) ∙ piped))
