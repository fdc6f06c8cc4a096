-- ===== src/Metric/Operator/Laws.antt =====
-- When the checkpoint of a run is saved, and that the pushes beside the main one never raise.
use batch_ingestion_service.Prelude.{
  String, ◌≡◌, refl, ap, false, some, ◌&&◌, arith, is_empty, if◌then◌else◌,
}
use batch_ingestion_service.Py.Exc.{Result, ok, err, ok-injective}
use batch_ingestion_service.Py.Exec.{Exec, continue, catch-pure}
use batch_ingestion_service.Py.Value.{Value, none_val, str_val, Dict, dict, truthy, insert}
use batch_ingestion_service.Config.Kinds.{MetricAdapterType}
use batch_ingestion_service.Checkpoint.{Checkpoint, number, stamp, text, serialise, stored_text}
use batch_ingestion_service.Context.{RunContext, to_dict}
use batch_ingestion_service.Metric.Adapter.{Formats, Clients}
use batch_ingestion_service.Metric.Operator.{
  World, on_queues, push_metric_inline, send_event, push_secondary, put_row, upsert_row,
  commit_rows, save_checkpoint, report, report_event, execute,
}
use batch_ingestion_service.Metric.Operator.Event.{
  MetricPushOperator, MetricRun, Pulled, pull, shown_checkpoint, count_of, payload_of,
}
use batch_ingestion_service.Metric.Operator.Build.{Secrets}

-- the table of checkpoints that a run should leave, by its outcome
abbrev pub table_after :
    Result (Unit {0}) → MetricPushOperator → MetricRun → Value → Dict Value → Dict Value
table_after (err e) op run checkpoint_to table = table
table_after (ok _) op run checkpoint_to table =
    if truthy checkpoint_to && truthy op.checkpoint_conn_id
    then insert run.dag_id checkpoint_to table
    else table

-- the checkpoint that the task found in the run context
abbrev pub checkpoint_of : Result Pulled → Value
checkpoint_of (ok p) = p.checkpoint_to
checkpoint_of (err e) = none_val

module _ {W K : Type 0} (f : Formats) (clients : Clients W K) (secrets : Secrets) where
  -- The inline push returns, whatever the secrets, the adapters and the clients do.
  pub push_metric_inline_returns :
      (payload : Dict Value) (t : MetricAdapterType) (raw : Value) (conn_id : String) (s : W)
      → (push_metric_inline f clients secrets payload t raw conn_id s).0 ≡ ok tt
  unfolding push_metric_inline
  push_metric_inline_returns payload t raw conn_id s =
      (catch-pure (send_event f clients secrets t raw conn_id payload) tt s).1

  put_row_lem :
      (run : MetricRun) (dag_id : String) (v : Value) (r : Result (Unit {0})) (s : World W)
      → (put_row f clients secrets run dag_id v r s).1.checkpoints
        ≡ (elim (put_row f clients secrets run dag_id v r s).0 [
          | ok _ ↦ insert dag_id v s.checkpoints
          | err _ ↦ s.checkpoints
        ])
  unfolding put_row upsert_row commit_rows
  put_row_lem run dag_id v (ok tt) s = ground (arith, run.upsert dag_id v, run.commit)
  put_row_lem run dag_id v (err e) s = refl

  save_checkpoint_lem :
      (op : MetricPushOperator) (run : MetricRun) (v : Value) (s : World W)
      → (save_checkpoint f clients secrets op run v s).1.checkpoints
        ≡ table_after (save_checkpoint f clients secrets op run v s).0 op run v s.checkpoints
  unfolding save_checkpoint
  save_checkpoint_lem op run v s =
      ground (arith, put_row_lem run run.dag_id v (run.connect op.checkpoint_conn_id) s)

  -- what the pushes leave alone
  continue-checkpoints :
      (r : Result (Unit {0})) (m : Exec W (Unit {0})) (s : World W)
      → (continue r (λ u. on_queues f clients secrets m) s).1.checkpoints ≡ s.checkpoints
  continue-checkpoints (ok tt) m s = refl
  continue-checkpoints (err e) m s = refl

  saved_last :
      (r : Result (Unit {0})) (op : MetricPushOperator) (run : MetricRun) (v : Value) (s : World W)
      (table : Dict Value)
      → s.checkpoints ≡ table
      → (continue r (λ u. save_checkpoint f clients secrets op run v) s).1.checkpoints
        ≡ table_after
            (continue r (λ u. save_checkpoint f clients secrets op run v) s).0
            op
            run
            v
            table
  saved_last (ok tt) op run v s table e = rw (← e) (save_checkpoint_lem op run v s)
  saved_last (err x) op run v s table e = e

  report_lem :
      (op : MetricPushOperator) (run : MetricRun) (p : Pulled) (payload : Dict Value) (s : World W)
      → (report f clients secrets op run p payload s).1.checkpoints
        ≡ table_after
            (report f clients secrets op run p payload s).0
            op
            run
            p.checkpoint_to
            s.checkpoints
  unfolding report
  report_lem op run p payload s =
      let sent =
        send_event f clients secrets op.metric_type op.metric_config_raw op.openbao_conn_id payload
          s.queues in
      let after_event : World W = record s { queues = sent.1 } in
      let pushed =
        continue sent.0
          (λ u. on_queues f clients secrets (push_secondary f clients secrets p payload))
          after_event in
      saved_last pushed.0 op run p.checkpoint_to pushed.1 s.checkpoints
        (continue-checkpoints sent.0 (push_secondary f clients secrets p payload) after_event)

  counted :
      (r : Result Value) (op : MetricPushOperator) (run : MetricRun) (p : Pulled) (s : World W)
      → (continue r
          (λ n. report f clients secrets op run p (payload_of op run p n))
          s).1.checkpoints
        ≡ table_after
            (continue r (λ n. report f clients secrets op run p (payload_of op run p n)) s).0
            op
            run
            p.checkpoint_to
            s.checkpoints
  counted (ok n) op run p s = report_lem op run p (payload_of op run p n) s
  counted (err e) op run p s = refl

  report_event_lem :
      (r : Result Pulled) (op : MetricPushOperator) (run : MetricRun) (s : World W)
      → (report_event f clients secrets op run r s).1.checkpoints
        ≡ table_after
            (report_event f clients secrets op run r s).0
            op
            run
            (checkpoint_of r)
            s.checkpoints
  unfolding report_event
  report_event_lem (ok p) op run s = counted (count_of op run) op run p s
  report_event_lem (err e) op run s = refl

  -- The task changes the table of checkpoints exactly when it does not raise, the run context has a
  -- checkpoint and a connection is set: then its DAG's row is the checkpoint.
  pub execute_checkpoints :
      (op : MetricPushOperator) (run : MetricRun) (s : World W)
      → (execute f clients secrets op run s).1.checkpoints
        ≡ table_after
            (execute f clients secrets op run s).0
            op
            run
            (checkpoint_of (pull f.repr run.run_context))
            s.checkpoints
  unfolding execute
  execute_checkpoints op run s = report_event_lem (pull f.repr run.run_context) op run s

shown_checkpoint-serialise :
    (repr : Value → String) (k : Checkpoint)
    → is_empty (stored_text k) ≡ false
    → shown_checkpoint repr (serialise (some k)) ≡ str_val (stored_text k)
unfolding shown_checkpoint serialise stored_text
shown_checkpoint-serialise repr (number z) h = ground (arith, h)
shown_checkpoint-serialise repr (stamp t) h = ground (arith, h)
shown_checkpoint-serialise repr (text s) h = ground (arith, h)

-- What the task finds in a context that the init task pushed.
pub pull-to_dict :
    (repr : Value → String) (c : RunContext) (k : Checkpoint)
    → c.checkpoint_to ≡ some k
    → is_empty (stored_text k) ≡ false
    → checkpoint_of (pull repr (dict (to_dict c))) ≡ str_val (stored_text k)
unfolding pull to_dict
pull-to_dict repr c k e h = rw e (shown_checkpoint-serialise repr k h)

module _ {W K : Type 0} (f : Formats) (clients : Clients W K) (secrets : Secrets) where
  -- Of a context that the init task pushed, the task never makes the secondary Redis push: the
  -- dictionary has no Redis configuration.
  pub secondary_is_skipped :
      (c : RunContext) (p : Pulled) (payload : Dict Value) (s : W)
      → pull f.repr (dict (to_dict c)) ≡ ok p
      → push_secondary f clients secrets p payload s ≡ (ok tt, s)
  unfolding push_secondary pull to_dict
  secondary_is_skipped c p payload s h =
      let e = ok-injective h in rw (← (ap (λ q. q.redis_metric_config_raw) e)) refl
