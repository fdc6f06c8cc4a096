-- ===== src/Tests/Tasks.antt =====
-- The metric task and the run after it.
use mathlib.Core.Option
use batch_ingestion_service.Prelude.{
  ℕ, suc, ◌≡◌, refl, true, none, some, [], ◌∷◌, ◌==◌, if◌then◌else◌,
}
use batch_ingestion_service.Prelude.Int.{pos}
use batch_ingestion_service.Py.Exc.{Exc, ok, err, external}
use batch_ingestion_service.Py.Exec.{pure}
use batch_ingestion_service.Py.Number.{str_of_int}
use batch_ingestion_service.Py.Time.{isoformat, isoformat_date}
use batch_ingestion_service.Py.Value.{
  Value, none_val, str_val, Dict, dict, lookup, method_dict, get_or, py_int, str_of, truthy,
}
use batch_ingestion_service.Config.Kinds.{MetricAdapterType, read_value}
use batch_ingestion_service.Checkpoint.{number, serialise, stored_text}
use batch_ingestion_service.Context.{to_dict}
use batch_ingestion_service.Init.{fetch_checkpoint_from}
use batch_ingestion_service.Metric.Adapter.{Formats, Clients, create, registry}
use batch_ingestion_service.Metric.Adapter.Publish.{publish, validate_connection}
use batch_ingestion_service.Metric.Adapter.Message.{field_texts, redis_message}
use batch_ingestion_service.Metric.Adapter.Laws.{IsUnique, later, lookup-redis_message}
use batch_ingestion_service.Metric.Operator
use batch_ingestion_service.Metric.Operator.{World, push_metric_inline, push_secondary}
use batch_ingestion_service.Metric.Operator.Event.{
  MetricPushOperator, MetricRun, Pulled, pull, count_of, payload_of,
}
use batch_ingestion_service.Metric.Operator.Build.{Secrets, build_metric_adapter, metric_config_of}
use batch_ingestion_service.Metric.Operator.Laws.{
  table_after, checkpoint_of, execute_checkpoints, secondary_is_skipped,
}
use batch_ingestion_service.Resume.{next_run_starts_at_checkpoint_to, failed_run_starts_again}
use batch_ingestion_service.Tests.Data.{start, orders_context, metric_raw, repr}
use batch_ingestion_service.Tests.Pipeline.{surroundings_with}

abbrev pub formats : Formats
formats = record {
  json = λ v. ok "{}";
  json_or_str = λ v. ok "{}";
  repr = repr;
  published_at = "2024-01-05T07:00:00+00:00";
}

-- a queue that counts its messages; a client is nothing
abbrev pub counting : Clients ℕ Unit
counting = record {
  redis_client = λ h p w. pure tt;
  sqs_client = λ r k s. pure tt;
  kafka_producer = λ d. pure tt;
  ping = λ k. pure true;
  get_queue_attributes = λ k u. pure [];
  partitions_for = λ k t. pure none;
  xadd = λ k s m n. (λ q. (ok tt, suc q));
  send_message = λ k u b a. (λ q. (ok tt, suc q));
  send = λ k t v key. (λ q. (ok tt, suc q));
  flush = λ k. pure tt;
  close = λ k. pure tt;
}

abbrev pub no_secrets : Secrets
no_secrets conn ref = ok (dict [])

abbrev pub push_op : MetricPushOperator
push_op = record {
  metric_type = MetricAdapterType.onprem_queue;
  metric_config_raw = dict metric_raw;
  status = str_val "success";
  extra_payload = [];
  checkpoint_conn_id = str_val "pg";
  spark_task_id = none_val;
  openbao_conn_id = "bao";
}

abbrev pub push_run : MetricRun
push_run = record {
  dag_id = "orders";
  run_id = "manual__2024-01";
  start_date = start;
  stop_time = start;
  run_context = dict (to_dict orders_context);
  record_count = none_val;
  connect = λ c. ok tt;
  upsert = λ k v. ok tt;
  commit = ok tt;
}

abbrev before : World ℕ
before = record { queues = 0; checkpoints = [] }

pushed : (Operator.execute formats counting no_secrets push_op push_run before).0 ≡ ok tt
unfolding Operator.execute pull to_dict serialise count_of payload_of Operator.report
    Operator.send_event build_metric_adapter metric_config_of py_int create registry
    validate_connection publish redis_message field_texts push_secondary Operator.save_checkpoint
    str_of_int isoformat isoformat_date read_value truthy method_dict get_or
pushed = refl

saved :
    (Operator.execute formats counting no_secrets push_op push_run before).1.checkpoints
    ≡ ("orders", str_val "20") ∷ []
unfolding Operator.execute pull to_dict serialise count_of payload_of Operator.report
    Operator.send_event build_metric_adapter metric_config_of py_int create registry
    validate_connection publish redis_message field_texts push_secondary Operator.save_checkpoint
    str_of_int isoformat isoformat_date read_value truthy method_dict get_or
saved = refl

execute_checkpoints_example :
    (Operator.execute formats counting no_secrets push_op push_run before).1.checkpoints
    ≡ table_after
        (Operator.execute formats counting no_secrets push_op push_run before).0
        push_op
        push_run
        (checkpoint_of (pull repr (dict (to_dict orders_context))))
        []
execute_checkpoints_example =
    execute_checkpoints formats counting no_secrets push_op push_run before

read_back :
    (surroundings_with "sql" (
        lookup "orders"
          (Operator.execute formats counting no_secrets push_op push_run
            before).1.checkpoints)).checkpoint_row
      "pg" "orders"
    ≡ ok (
        lookup "orders"
          (Operator.execute formats counting no_secrets push_op push_run before).1.checkpoints)
read_back = refl

upper_shown : stored_text (number (pos 20)) ≡ "20"
unfolding stored_text str_of_int
upper_shown = refl

next_run_starts_at_checkpoint_to_example :
    fetch_checkpoint_from
      (surroundings_with "sql" (
        lookup "orders"
          (Operator.execute formats counting no_secrets push_op push_run before).1.checkpoints))
      "orders"
      "pg"
    ≡ ok (some (number (pos 20)))
unfolding stored_text str_of_int truthy
next_run_starts_at_checkpoint_to_example =
    next_run_starts_at_checkpoint_to formats counting no_secrets
      (surroundings_with "sql" (
        lookup "orders"
          (Operator.execute formats counting no_secrets push_op push_run before).1.checkpoints))
      push_op push_run before orders_context (number (pos 20)) "pg" refl refl tt refl refl pushed
      refl

-- a database that takes no row
abbrev refused : Exc
refused = record { cls = external; message = "read-only database" }

abbrev refused_run : MetricRun
refused_run = record push_run { commit = err refused }

refused_push :
    (Operator.execute formats counting no_secrets push_op refused_run before).0 ≡ err refused
unfolding Operator.execute pull to_dict serialise count_of payload_of Operator.report
    Operator.send_event build_metric_adapter metric_config_of py_int create registry
    validate_connection publish redis_message field_texts push_secondary Operator.save_checkpoint
    str_of_int isoformat isoformat_date read_value truthy method_dict get_or
refused_push = refl

failed_run_starts_again_example :
    fetch_checkpoint_from
      (surroundings_with "sql" (
        lookup "orders"
          (Operator.execute formats counting no_secrets push_op refused_run before).1.checkpoints))
      "orders"
      "pg"
    ≡ fetch_checkpoint_from
        (surroundings_with "sql" (lookup "orders" before.checkpoints))
        "orders"
        "pg"
failed_run_starts_again_example =
    failed_run_starts_again formats counting no_secrets
      (surroundings_with "sql" (lookup "orders" before.checkpoints))
      (surroundings_with "sql" (
        lookup "orders"
          (Operator.execute formats counting no_secrets push_op refused_run before).1.checkpoints))
      push_op refused_run before refused "pg" refused_push refl refl refl

abbrev pulled_orders : Pulled
pulled_orders = record {
  checkpoint_from = str_val "10";
  checkpoint_to = str_val "20";
  read_type = str_val "sql";
  ingestion_date = str_val "2024-01-05";
  redis_metric_config_raw = none_val;
  redis_metric_credentials = none_val;
}

pulled_value : pull repr (dict (to_dict orders_context)) ≡ ok pulled_orders
unfolding pull to_dict serialise isoformat_date str_of_int read_value
pulled_value = refl

secondary_is_skipped_example :
    push_secondary formats counting no_secrets pulled_orders [] 0 ≡ (ok tt, 0)
secondary_is_skipped_example =
    secondary_is_skipped formats counting no_secrets orders_context pulled_orders [] 0 pulled_value

abbrev attributes : Dict Value
attributes = ("env", str_val "prod") ∷ []

abbrev payload : Dict Value
payload = ("status", str_val "success") ∷ ("env", none_val) ∷ []

without_env : lookup {V = Value} "env" [] ≡ none
unfolding lookup
without_env = refl

attributes-IsUnique : IsUnique attributes
attributes-IsUnique = (without_env, tt)

dict_of : method_dict (dict attributes) ≡ ok attributes
unfolding method_dict
dict_of = refl

texts_of : field_texts formats payload ≡ ok (("status", "success") ∷ ("env", "None") ∷ [])
unfolding field_texts
texts_of = refl

message_of :
    redis_message formats (dict attributes) payload
    ≡ ok (
        ("status", "success")
        ∷ ("env", "prod")
        ∷ ("published_at", "2024-01-05T07:00:00+00:00")
        ∷ [])
unfolding redis_message field_texts
message_of = refl

lookup-redis_message_example :
    lookup "env"
      (("status", "success") ∷ ("env", "prod") ∷ ("published_at", "2024-01-05T07:00:00+00:00") ∷ [])
    ≡ (if "published_at" == "env"
        then some formats.published_at
        else later
            (Option.map (str_of repr) (lookup "env" attributes))
            (lookup "env" (("status", "success") ∷ ("env", "None") ∷ [])))
lookup-redis_message_example =
    lookup-redis_message formats "env" (dict attributes) attributes payload
      (("status", "success") ∷ ("env", "None") ∷ [])
      (("status", "success") ∷ ("env", "prod") ∷ ("published_at", "2024-01-05T07:00:00+00:00") ∷ [])
      dict_of attributes-IsUnique texts_of message_of
