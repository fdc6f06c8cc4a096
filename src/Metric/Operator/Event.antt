-- ===== src/Metric/Operator/Event.antt =====
-- The event of `MetricPushOperator.execute`, from the run context and the record count.
use batch_ingestion_service.Prelude.{String, [], ◌∷◌, if◌then◌else◌}
use batch_ingestion_service.Py.Exc.{Result, ok, ◌>>=◌}
use batch_ingestion_service.Py.Time.{Datetime, isoformat}
use batch_ingestion_service.Py.Value.{
  Value, none_val, str_val, int_val, dict_val, Dict, entries, truthy, or_else, str_of, get_or,
  insert, update, method_dict, py_int,
}
use batch_ingestion_service.Config.Kinds.{MetricAdapterType}

-- the operator's own fields; an absent text is `none_val`
pub record MetricPushOperator : Type 0 where
  pub metric_type : MetricAdapterType
  pub metric_config_raw : Value
  pub status : Value
  pub extra_payload : Dict Value
  pub checkpoint_conn_id : Value
  pub spark_task_id : Value
  pub openbao_conn_id : String

-- What the task finds: its DAG and run, the moment it starts, the values of the two tasks before it
-- (`none_val` where there is none), and how the checkpoint database answers: the lookup and the opening
-- of a connection, the upsert of a row in it, and the commit.
pub record MetricRun : Type 0 where
  pub dag_id : String
  pub run_id : String
  pub start_date : Datetime
  pub stop_time : Datetime
  pub run_context : Value
  pub record_count : Value
  pub connect : Value → Result (Unit {0})
  pub upsert : String → Value → Result (Unit {0})
  pub commit : Result (Unit {0})

-- what `execute` reads of the run context
pub record Pulled : Type 0 where
  pub checkpoint_from : Value
  pub checkpoint_to : Value
  pub read_type : Value
  pub ingestion_date : Value
  pub redis_metric_config_raw : Value
  pub redis_metric_credentials : Value

abbrev nothing_pulled : Pulled
nothing_pulled = record {
  checkpoint_from = none_val;
  checkpoint_to = none_val;
  read_type = none_val;
  ingestion_date = none_val;
  redis_metric_config_raw = none_val;
  redis_metric_credentials = none_val;
}

-- `str(raw.get("v", "")) or None` of a serialised checkpoint, `None` for anything else
unfoldable pub shown_checkpoint : (Value → String) → Value → Value
unfolding or_else str_of get_or
shown_checkpoint repr (dict_val fs) =
    or_else (str_val (str_of repr (get_or (entries fs) "v" (str_val "")))) none_val
shown_checkpoint repr _ = none_val

unfoldable pub pulled_from : (Value → String) → Dict Value → Pulled
unfolding shown_checkpoint get_or
pulled_from repr raw = record {
  checkpoint_from = shown_checkpoint repr (get_or raw "checkpoint_from" none_val);
  checkpoint_to = shown_checkpoint repr (get_or raw "checkpoint_to" none_val);
  read_type = get_or raw "read_type" none_val;
  ingestion_date = get_or raw "ingestion_date" none_val;
  redis_metric_config_raw = get_or raw "redis_metric_config_raw" none_val;
  redis_metric_credentials = get_or raw "redis_metric_credentials" none_val;
}

-- the first part of `execute`: what there is of the run context
unfoldable pub pull : (Value → String) → Value → Result Pulled
unfolding pulled_from method_dict
pull repr raw_context =
    if truthy raw_context
    then (do raw ← method_dict raw_context; ok (pulled_from repr raw))
    else ok nothing_pulled

-- `record_count`, an `int` or `None`
unfoldable pub count_of : MetricPushOperator → MetricRun → Result Value
unfolding py_int
count_of op run = if truthy op.spark_task_id then read_count run.record_count else ok none_val
  where
    read_count : Value → Result Value
    read_count none_val = ok none_val
    read_count v = do z ← py_int v; ok (int_val z)

-- `if v is not None: payload[k] = v`
unfoldable pub with_value : String → Value → Dict Value → Dict Value
unfolding insert
with_value k none_val payload = payload
with_value k v payload = insert k v payload

-- the event
unfoldable pub payload_of : MetricPushOperator → MetricRun → Pulled → Value → Dict Value
unfolding with_value update
payload_of op run p count =
    let base =
      ("dag_id", str_val run.dag_id)
      ∷ ("run_id", str_val run.run_id)
      ∷ ("status", op.status)
      ∷ ("start_time", str_val (isoformat "T" run.start_date))
      ∷ ("stop_time", str_val (isoformat "T" run.stop_time))
      ∷ ("checkpoint_from", p.checkpoint_from)
      ∷ ("checkpoint_to", p.checkpoint_to)
      ∷ [] in
    let typed = with_value "read_type" p.read_type base in
    let dated = with_value "ingestion_date" p.ingestion_date typed in
    update (with_value "record_count" count dated) op.extra_payload
