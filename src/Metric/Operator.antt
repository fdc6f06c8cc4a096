-- ===== src/Metric/Operator.antt =====
-- orchestration/operators/metric_operator.py: the push of a pipeline's event and the checkpoint table.
pub mod Event
pub mod Build
pub mod Laws
use batch_ingestion_service.Prelude.{String, ◌&&◌, if◌then◌else◌}
use batch_ingestion_service.Py.Exc.{Exc, Result, ok, err}
use batch_ingestion_service.Py.Exec.{Exec, pure, lift, catch, continue, ◌>>=◌, ◌>>◌}
use batch_ingestion_service.Py.Value.{Value, Dict, truthy, insert}
use batch_ingestion_service.Config.Kinds.{MetricAdapterType}
use batch_ingestion_service.Metric.Adapter.{Adapter, Formats, Clients}
use batch_ingestion_service.Metric.Adapter.Publish.{publish, validate_connection}
use Event.{MetricPushOperator, MetricRun, Pulled, pull, count_of, payload_of}
use Build.{Secrets, build_metric_adapter, secondary_adapter}

-- the state outside: what the metric queues hold, and the table of checkpoints by DAG
pub record World (W : Type 0) : Type 0 where
  pub queues : W
  pub checkpoints : Dict Value

-- a connection to the checkpoint database: the table as others see it, and as the open transaction
-- leaves it
pub record Session : Type 0 where
  pub committed : Dict Value
  pub pending : Dict Value

-- the `INSERT … ON CONFLICT (dag_id) DO UPDATE`
unfoldable pub upsert_row : MetricRun → String → Value → Exec Session Unit
unfolding insert
upsert_row run dag_id checkpoint_to s = elim (run.upsert dag_id checkpoint_to) [
  | ok _ ↦ (ok tt, record s { pending = insert dag_id checkpoint_to s.pending })
  | err e ↦ (err e, s)
]

-- `conn.commit()`
unfoldable pub commit_rows : MetricRun → Exec Session Unit
commit_rows run s = elim run.commit [
  | ok _ ↦ (ok tt, record s { committed = s.pending })
  | err e ↦ (err e, s)
]

module _ {W K : Type 0} (f : Formats) (clients : Clients W K) (secrets : Secrets) where
  -- the three steps that both pushes share
  unfoldable pub send_event : MetricAdapterType → Value → String → Dict Value → Exec W Unit
  unfolding build_metric_adapter validate_connection publish
  send_event metric_type metric_config_raw openbao_conn_id payload =
      push_with (build_metric_adapter secrets metric_type metric_config_raw openbao_conn_id)
    where
      push_with : Result Adapter → Exec W Unit
      push_with r s =
          continue r (λ a. validate_connection f clients a >> publish f clients a payload) s

  abbrev ignore : Exc → Exec W Unit
  ignore e = pure tt

  -- `push_metric_inline`
  unfoldable pub push_metric_inline : Dict Value → MetricAdapterType → Value → String → Exec W Unit
  unfolding send_event
  push_metric_inline payload metric_type metric_config_raw openbao_conn_id =
      catch (send_event metric_type metric_config_raw openbao_conn_id payload) ignore

  -- `_push_redis_metric`
  unfoldable pub push_redis_metric : Dict Value → Value → Value → Exec W Unit
  unfolding secondary_adapter validate_connection publish
  push_redis_metric payload redis_metric_config_raw redis_metric_credentials =
      catch (push_with (secondary_adapter redis_metric_config_raw redis_metric_credentials)) ignore
    where
      push_with : Result Adapter → Exec W Unit
      push_with r s =
          continue r (λ a. validate_connection f clients a >> publish f clients a payload) s

  abbrev on_queues : Exec W Unit → Exec (World W) Unit
  on_queues m s = let r = m s.queues in (r.0, record s { queues = r.1 })

  -- step 2b
  unfoldable pub push_secondary : Pulled → Dict Value → Exec W Unit
  unfolding truthy
  push_secondary p payload =
      if truthy p.redis_metric_config_raw && truthy p.redis_metric_credentials
      then push_redis_metric payload p.redis_metric_config_raw p.redis_metric_credentials
      else pure tt

  -- What is done on a connection that is then closed in the `finally`: the close does not raise, and
  -- only what was committed stays.
  abbrev in_session : Exec Session Unit → Exec (World W) Unit
  in_session m s =
      let r = m (record { committed = s.checkpoints; pending = s.checkpoints }) in
      (r.0, record s { checkpoints = r.1.committed })

  -- `_save_checkpoint`, of the connection
  unfoldable pub put_row : MetricRun → String → Value → Result (Unit {0}) → Exec (World W) Unit
  unfolding upsert_row commit_rows
  put_row run dag_id checkpoint_to (ok _) s =
      in_session (upsert_row run dag_id checkpoint_to >> commit_rows run) s
  put_row run dag_id checkpoint_to (err e) s = (err e, s)

  -- step 3
  unfoldable pub save_checkpoint : MetricPushOperator → MetricRun → Value → Exec (World W) Unit
  unfolding truthy put_row
  save_checkpoint op run checkpoint_to =
      if truthy checkpoint_to && truthy op.checkpoint_conn_id
      then put_row run run.dag_id checkpoint_to (run.connect op.checkpoint_conn_id)
      else pure tt

  -- steps 2 and 3
  unfoldable pub report : MetricPushOperator → MetricRun → Pulled → Dict Value → Exec (World W) Unit
  report op run p payload =
      on_queues (send_event op.metric_type op.metric_config_raw op.openbao_conn_id payload)
      >> on_queues (push_secondary p payload)
      >> save_checkpoint op run p.checkpoint_to

  report_event : MetricPushOperator → MetricRun → Result Pulled → Exec (World W) Unit
  report_event op run pulled = lift pulled >>= λ p.
      lift (count_of op run) >>= λ count. report op run p (payload_of op run p count)

  -- `execute`
  unfoldable pub execute : MetricPushOperator → MetricRun → Exec (World W) Unit
  unfolding report_event
  execute op run = report_event op run (pull f.repr run.run_context)
