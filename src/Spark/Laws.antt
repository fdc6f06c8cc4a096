-- ===== src/Spark/Laws.antt =====
-- What the Spark task leaves alone, and what it raises.
use batch_ingestion_service.Prelude.{
  String, ◌≡◌, refl, ap, ◌∙◌, Bool, true, false, Option, some, none, [], ◌∷◌, arith, Bool-cases,
  inl, inr,
}
use batch_ingestion_service.Py.Exc.{Exc, Result, ok, err}
use batch_ingestion_service.Py.Exec.{Exec, pure, lift, handled, ◌>>=◌, Keeps, bind-Keeps}
use batch_ingestion_service.Py.Value.{Value, Dict, str_val, dict, truthy, method_dict}
use batch_ingestion_service.Config.Kinds.{MetricAdapterType}
use batch_ingestion_service.Config.Source.{SourceConfig, table, path, kafka}
use batch_ingestion_service.Context.{RunContext, to_dict}
use batch_ingestion_service.Context.RoundTrip.{IsContext, without_sink_extra, from_dict-to_dict}
use batch_ingestion_service.Metric.Adapter.{Formats, Clients}
use batch_ingestion_service.Metric.Operator.Build.{Secrets}
use batch_ingestion_service.Metric.Operator.{send_event, push_metric_inline}
use batch_ingestion_service.Metric.Operator.Laws.{push_metric_inline_returns}
use batch_ingestion_service.Write.Path.{build_write_path}
use batch_ingestion_service.Write.Sink.{sink_config_of}
use batch_ingestion_service.Spark.Session.{session_config}
use batch_ingestion_service.Spark.Source.{normalised}
use batch_ingestion_service.Spark.{
  SparkRunOperator, SparkRun, SourceAdapter, SinkAdapter, Adapters, World, pulled, on_cluster,
  copy_file, count_frame, counted, released, read_and_write, transfer, run_adapters, app_name,
  config_extra, run_pipeline, failure_payload, push_failure_to, push_failure_metric, failed,
  pipeline, execute,
}

-- The Spark task reads back the context that the init task pushed, without the sink's `extra`.
pub pulled-to_dict :
    (repr : Value → String) (c : RunContext)
    → IsContext c
    → pulled repr (dict (to_dict c)) ≡ ok (without_sink_extra c)
unfolding pulled to_dict
pulled-to_dict repr c h = from_dict-to_dict repr c h

module _ {S D W K : Type 0} (repr : Value → String) (adapters : Adapters S D) (f : Formats)
    (clients : Clients W K) (secrets : Secrets) where
  abbrev KeepsQueues : {A : Type 0} → Exec (World S W) A → Type 0
  KeepsQueues m = Keeps (λ s. s.queues) m

  abbrev on : {A : Type 0} → Exec S A → Exec (World S W) A
  on m = on_cluster repr adapters f clients secrets m

  on-bind :
      {A B : Type 0} (m : Exec S A) (k : A → Exec (World S W) B)
      → ((a : A) → KeepsQueues (k a))
      → KeepsQueues (on m >>= k)
  on-bind m k h = bind-Keeps _ (on m) k (λ s. refl) h

  lift-bind :
      {A B : Type 0} (r : Result A) (k : A → Exec (World S W) B)
      → ((a : A) → KeepsQueues (k a))
      → KeepsQueues (lift r >>= k)
  lift-bind r k h = bind-Keeps _ (lift r) k (λ s. refl) h

  copy_file-KeepsQueues :
      (v : Value) (sink : SinkAdapter)
      → KeepsQueues (copy_file repr adapters f clients secrets v sink)
  unfolding copy_file
  copy_file-KeepsQueues v sink = bind-Keeps _ _ _ (λ s. refl) (λ a s. refl)

  push_failure_to_returns :
      (t : Option MetricAdapterType) (op : SparkRunOperator) (run : SparkRun) (e : Exc) (s : W)
      → (push_failure_to repr adapters f clients secrets t op run e s).0 ≡ ok tt
  unfolding push_failure_to
  push_failure_to_returns none op run e s = refl
  push_failure_to_returns (some t) op run e s = ground (
    arith,
    push_metric_inline_returns f clients secrets
        (failure_payload repr adapters f clients secrets run e) t op.metric_config_raw
        op.openbao_conn_id s,
  )

  count_frame-KeepsQueues : (df : D) → KeepsQueues (count_frame repr adapters f clients secrets df)
  unfolding count_frame
  count_frame-KeepsQueues df =
      on-bind (adapters.cache df) _ (λ _. on-bind (adapters.count df) _ (λ n s. refl))

  counted-KeepsQueues :
      (v : Value) (df : D) → KeepsQueues (counted repr adapters f clients secrets v df)
  unfolding counted
  counted-KeepsQueues v df s = elim (Bool-cases (truthy v)) [
    | inl on ↦ rw on (count_frame-KeepsQueues df s)
    | inr off ↦ rw off
  ]

  released-KeepsQueues :
      (v : Value) (df : D) → KeepsQueues (released repr adapters f clients secrets v df)
  unfolding released
  released-KeepsQueues v df s = elim (Bool-cases (truthy v)) [ inl on ↦ rw on | inr off ↦ rw off ]

  read_and_write-KeepsQueues :
      (v : Value) (source : SourceAdapter) (sink : SinkAdapter)
      → KeepsQueues (read_and_write repr adapters f clients secrets v source sink)
  unfolding read_and_write
  read_and_write-KeepsQueues v source sink = on-bind (adapters.apply_filters source) _ (λ _.
      on-bind (adapters.read source) _ (λ df.
        bind-Keeps _ (counted repr adapters f clients secrets v df) _ (counted-KeepsQueues v df)
          (λ _.
            lift-bind (build_write_path sink.sink_config) _
              (λ _. on-bind (adapters.write sink df) _ (λ _. released-KeepsQueues v df)))))

  transfer-KeepsQueues :
      (v : Value) (source : SourceAdapter) (c : SourceConfig) (sink : SinkAdapter)
      → KeepsQueues (transfer repr adapters f clients secrets v source c sink)
  unfolding transfer
  transfer-KeepsQueues v source (path c) sink = copy_file-KeepsQueues c.path sink
  transfer-KeepsQueues v source (table c) sink = read_and_write-KeepsQueues v source sink
  transfer-KeepsQueues v source (kafka c) sink = read_and_write-KeepsQueues v source sink

  run_adapters-KeepsQueues :
      (v : Value) (source : SourceAdapter) (sink : SinkAdapter)
      → KeepsQueues (run_adapters repr adapters f clients secrets v source sink)
  unfolding run_adapters
  run_adapters-KeepsQueues v source sink = on-bind (adapters.validate_source source) _ (λ _.
      on-bind (adapters.validate_sink sink) _
        (λ _. transfer-KeepsQueues v source source.source_config sink))

  run_pipeline-KeepsQueues :
      (op : SparkRunOperator) (run : SparkRun) (c : RunContext)
      → KeepsQueues (run_pipeline repr adapters f clients secrets op run c)
  unfolding run_pipeline
  run_pipeline-KeepsQueues op run c =
      lift-bind (method_dict (config_extra c.source_config)) _ (λ extra.
        on-bind
          (adapters.build_session (app_name repr adapters f clients secrets op run)
            (session_config op.spark_config extra))
          _
          (λ _. lift-bind (normalised c.read_type c.source_config) _ (λ src.
            lift-bind (sink_config_of c.write_type (record c.sink_config { source_config = src })) _
              (λ cfg. run_adapters-KeepsQueues c.count_records _ _))))

  pipeline-KeepsQueues :
      (op : SparkRunOperator) (run : SparkRun)
      → KeepsQueues (pipeline repr adapters f clients secrets op run)
  unfolding pipeline
  pipeline-KeepsQueues op run =
      lift-bind (pulled repr run.raw_context) _ (λ c. run_pipeline-KeepsQueues op run c)

  push_failure_metric_returns :
      (op : SparkRunOperator) (run : SparkRun) (e : Exc) (s : W)
      → (push_failure_metric repr adapters f clients secrets op run e s).0 ≡ ok tt
  unfolding push_failure_metric
  push_failure_metric_returns op run e s = push_failure_to_returns op.metric_type op run e s

  -- The task raises what the pipeline raised, and returns when it returned: the push of the failure
  -- event never hides or replaces an error.
  pub execute_reraises :
      (op : SparkRunOperator) (run : SparkRun) (s : World S W)
      → (execute repr adapters f clients secrets op run s).0
        ≡ (pipeline repr adapters f clients secrets op run s).0
  unfolding execute failed
  execute_reraises op run s =
      of_result (pipeline repr adapters f clients secrets op run s).0
        (pipeline repr adapters f clients secrets op run s).1
    where
      of_result :
          (r : Result (Unit {0})) (t : World S W)
          → (failed repr adapters f clients secrets op run r t).0 ≡ r
      of_result (ok tt) t = refl
      of_result (err e) t = rw (push_failure_metric_returns op run e t.queues) refl

  -- the event of a task that raised
  abbrev pub failed_event : SparkRun → Exc → Dict Value
  failed_event run e =
      ("status", str_val "failed")
      ∷ ("dag_id", str_val run.dag_id)
      ∷ ("run_id", str_val run.run_id)
      ∷ ("error", str_val e.message)
      ∷ []

  -- what sending an event leaves in the queues, when the operator has a metric type and a configuration
  abbrev pub queues_with : Option MetricAdapterType → Bool → SparkRunOperator → Dict Value → W → W
  queues_with (some t) true op event q =
      (send_event f clients secrets t op.metric_config_raw op.openbao_conn_id event q).1
  queues_with (some t) false op event q = q
  queues_with none b op event q = q

  -- the metric queues after the task, by its outcome
  abbrev pub queues_after : Result (Unit {0}) → SparkRunOperator → SparkRun → W → W
  queues_after (ok _) op run q = q
  queues_after (err e) op run q =
      queues_with op.metric_type (truthy op.metric_config_raw) op (failed_event run e) q

  caught : (r : Result (Unit {0})) (q : W) → (handled r (λ e. pure tt) q).1 ≡ q
  caught (ok u) q = refl
  caught (err e) q = refl

  push_failure_to-queues :
      (t : Option MetricAdapterType) (op : SparkRunOperator) (run : SparkRun) (e : Exc) (q : W)
      → (push_failure_to repr adapters f clients secrets t op run e q).1
        ≡ queues_with t (truthy op.metric_config_raw) op (failed_event run e) q
  unfolding push_failure_to push_metric_inline
  push_failure_to-queues none op run e q = refl
  push_failure_to-queues (some t) op run e q = elim (Bool-cases (truthy op.metric_config_raw)) [
    | inl here ↦
        let sent =
          send_event f clients secrets t op.metric_config_raw op.openbao_conn_id
            (failed_event run e) q in
        rw here (caught sent.0 sent.1)
    | inr off ↦ rw off refl
  ]

  push_failure_metric-queues :
      (op : SparkRunOperator) (run : SparkRun) (e : Exc) (q : W)
      → (push_failure_metric repr adapters f clients secrets op run e q).1
        ≡ queues_after (err e) op run q
  unfolding push_failure_metric
  push_failure_metric-queues op run e q = push_failure_to-queues op.metric_type op run e q

  -- When the task returns, the queues are as they were. When it raises and the operator has a metric
  -- type and a configuration, they are as the one event {status: failed, dag_id, run_id, error} with the
  -- task's ids and the error's text leaves them when it is sent; without a metric type or a
  -- configuration they are as they were.
  pub execute_queues :
      (op : SparkRunOperator) (run : SparkRun) (s : World S W)
      → (execute repr adapters f clients secrets op run s).1.queues
        ≡ queues_after (execute repr adapters f clients secrets op run s).0 op run s.queues
  unfolding execute failed
  execute_queues op run s =
      of_result (pipeline repr adapters f clients secrets op run s).0
        (pipeline repr adapters f clients secrets op run s).1 (pipeline-KeepsQueues op run s)
    where
      of_result :
          (r : Result (Unit {0})) (t : World S W)
          → t.queues ≡ s.queues
          → (failed repr adapters f clients secrets op run r t).1.queues
            ≡ queues_after (failed repr adapters f clients secrets op run r t).0 op run s.queues
      of_result (ok tt) t k = k
      of_result (err e) t k =
          rw (push_failure_metric_returns op run e t.queues)
            (push_failure_metric-queues op run e t.queues ∙ ap (queues_after (err e) op run) k)
