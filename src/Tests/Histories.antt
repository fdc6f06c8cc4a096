-- ===== src/Tests/Histories.antt =====
-- Runs of a DAG one after another, the registration of DAGs, and the demo.
use batch_ingestion_service.Prelude.{
  ℕ, suc, ◌-◌, String, ◌≡◌, refl, false, true, none, some, List, [], ◌∷◌, ◌==◌, if◌then◌else◌,
}
use batch_ingestion_service.Prelude.Int.{pos}
use batch_ingestion_service.Py.Exc.{Exc, ok, err, raise, value_error}
use batch_ingestion_service.Py.Exec.{pure}
use batch_ingestion_service.Py.Number.{str_of_int}
use batch_ingestion_service.Py.Time.{isoformat, isoformat_date}
use batch_ingestion_service.Py.Value.{
  Value, str_val, Dict, dict, lookup, method_dict, get_or, py_int, truthy,
}
use batch_ingestion_service.Config.Kinds.{read_value}
use batch_ingestion_service.Checkpoint.{
  number, serialise, stored_text, parse_checkpoint, parse_text,
}
use batch_ingestion_service.Context.{to_dict}
use batch_ingestion_service.Init.{Surroundings, fetch_checkpoint_from}
use batch_ingestion_service.Init.Demo.{DemoInitOperator, Producers, execute_demo}
use batch_ingestion_service.Init.Demo.Laws.{IsCounted, execute_demo_refuses_kafka}
use batch_ingestion_service.Metric.Adapter.{create, registry}
use batch_ingestion_service.Metric.Adapter.Publish.{publish, validate_connection}
use batch_ingestion_service.Metric.Adapter.Message.{field_texts, redis_message}
use batch_ingestion_service.Metric.Operator
use batch_ingestion_service.Metric.Operator.{World, push_secondary}
use batch_ingestion_service.Metric.Operator.Event.{pull, count_of, payload_of}
use batch_ingestion_service.Metric.Operator.Build.{build_metric_adapter, metric_config_of}
use batch_ingestion_service.Metric.Adapter.Laws.{later}
use batch_ingestion_service.Resume.History.{
  Window, Joined, start_at, stopped, finished, History, begin, idle, success, ReadsTable,
  History-Joined,
}
use batch_ingestion_service.Init.Dynamo.{greater}
use batch_ingestion_service.Init.Dynamo.Order.{AtMost}
use batch_ingestion_service.Resume.Rows.{between, Rises, ExactlyOne, AreQueried}
use batch_ingestion_service.Resume.Once.{History-ExactlyOne}
use batch_ingestion_service.Dag.{Dag, Deployment, register}
use batch_ingestion_service.Dag.Files.{stem_of}
use batch_ingestion_service.Dag.Names.{used, IsPlain, ArePlain, NoneIn-empty}
use batch_ingestion_service.Write.Schema.{is_in}
use batch_ingestion_service.Dag.Laws.{dag_for, lookup-register}
use batch_ingestion_service.Tests.Data.{orders_context, orders_table, repr}
use batch_ingestion_service.Tests.Pipeline.{surroundings_with, config_with, kafka_asked, op, ctx}
use batch_ingestion_service.Tests.Tasks.{formats, counting, no_secrets, push_op, push_run}

-- the init task reads the row of the table
abbrev around : Dict Value → Surroundings String
around table = surroundings_with "sql" (lookup "orders" table)

abbrev up_to_10 : World ℕ
up_to_10 = record { queues = 0; checkpoints = ("orders", str_val "10") ∷ [] }

abbrev after_push : World ℕ
after_push = (Operator.execute formats counting no_secrets push_op push_run up_to_10).1

from_10 :
    start_at formats counting no_secrets "orders" "pg" around up_to_10.checkpoints
    ≡ ok (some (number (pos 10)))
unfolding fetch_checkpoint_from parse_checkpoint parse_text lookup
from_10 = refl

pushed_again : (Operator.execute formats counting no_secrets push_op push_run up_to_10).0 ≡ ok tt
unfolding Operator.execute pull to_dict serialise count_of payload_of Operator.report
    Operator.send_event build_metric_adapter metric_config_of py_int create registry
    validate_connection publish redis_message field_texts push_secondary Operator.save_checkpoint
    str_of_int isoformat isoformat_date read_value truthy method_dict get_or
pushed_again = refl

shown_20 : stored_text (number (pos 20)) ≡ "20"
unfolding stored_text str_of_int
shown_20 = refl

abbrev ten_to_twenty : Window
ten_to_twenty = record { from = some (number (pos 10)); to = number (pos 20) }

-- a run that succeeds, and one whose Spark task raises
abbrev two_runs :
    History formats counting no_secrets "orders" "pg" around up_to_10
      (ten_to_twenty ∷ [])
      after_push
unfolding stored_text str_of_int truthy
two_runs =
    idle
      (success begin (
        finished push_op push_run orders_context (number (pos 20)) refl refl from_10 refl tt refl
          refl pushed_again))
      (stopped after_push refl)

reads_table : ReadsTable formats counting no_secrets "orders" "pg" around
reads_table = record { row = λ table. refl; shown = λ table. refl }

History-Joined_example :
    Joined (some (number (pos 10))) (ten_to_twenty ∷ [])
    × (start_at formats counting no_secrets "orders" "pg" around after_push.checkpoints
        ≡ ok (some (number (pos 20))))
History-Joined_example =
    History-Joined formats counting no_secrets "orders" "pg" around reads_table up_to_10 after_push
      (ten_to_twenty ∷ []) (some (number (pos 10))) from_10 two_runs

at_20 :
    start_at formats counting no_secrets "orders" "pg" around after_push.checkpoints
    ≡ ok (some (number (pos 20)))
unfolding Operator.execute pull to_dict serialise count_of payload_of Operator.report
    Operator.send_event build_metric_adapter metric_config_of py_int create registry
    validate_connection publish redis_message field_texts push_secondary Operator.save_checkpoint
    str_of_int isoformat isoformat_date read_value truthy method_dict get_or fetch_checkpoint_from
    parse_checkpoint parse_text lookup
at_20 = refl

compared : Rises (number (pos 15)) (ten_to_twenty ∷ [])
unfolding greater
compared = (((true, refl), refl), tt)

above_10 : greater (number (pos 15)) (number (pos 10)) ≡ ok true
unfolding greater
above_10 = refl

most_20 : AtMost (number (pos 15)) (number (pos 20))
unfolding greater
most_20 = refl

not_configured : truthy orders_table.query ≡ false
unfolding truthy
not_configured = refl

History-ExactlyOne_example :
    ExactlyOne (number (pos 15)) (between (number (pos 10)) (number (pos 20)) ∷ [])
    × AreQueried repr orders_table "default" "orders" "id" (ten_to_twenty ∷ [])
unfolding two_runs
History-ExactlyOne_example =
    History-ExactlyOne formats counting no_secrets "orders" "pg" around reads_table repr
      orders_table "default" "orders" "id" up_to_10 after_push (ten_to_twenty ∷ [])
      (number (pos 10)) (number (pos 20)) (number (pos 15)) two_runs not_configured refl refl refl
      refl from_10 at_20 (tt, tt) tt compared above_10 most_20

-- a directory with a file that is no YAML
abbrev deployment : Deployment
deployment = record {
  config_dir = "/config";
  load_yaml = λ p.
      if p == "/config/broken.yaml"
      then raise value_error "no YAML"
      else ok (dict (("metric_type", str_val "onprem_queue") ∷ ("metric", dict []) ∷ []));
  accepts = λ dag. ok tt;
}

abbrev names : List String
names = "broken.yaml" ∷ "orders.yaml" ∷ []

ArePlain-names : ArePlain names
unfolding is_in stem_of
ArePlain-names = ((refl, refl), ((refl, refl), tt))

IsPlain-orders : IsPlain "orders"
unfolding is_in
IsPlain-orders = (refl, refl)

lookup-register_example :
    (after : Dict Dag) × (register deployment names [] ≡ ok after)
    × (lookup "orders" after ≡ later (dag_for deployment "orders" names) (lookup "orders" []))
lookup-register_example =
    lookup-register deployment "orders" names [] IsPlain-orders ArePlain-names (NoneIn-empty used)

-- producers that are counted
abbrev counted_producers : Producers ℕ Unit
counted_producers = record {
  producer = λ kwargs. (λ n. (ok tt, suc n));
  send = λ k t v. pure tt;
  flush = λ k. pure tt;
  close = λ k. (λ n. (ok tt, n - 1));
}

abbrev secret : Dict Value
secret = ("bootstrap_servers", str_val "b1:9092,b2:9092") ∷ []

counted_producers-IsCounted :
    IsCounted counted_producers (λ conn ref. pure (dict secret)) (λ n. pure []) (λ n. n)
counted_producers-IsCounted = record {
  opens = λ kwargs s. refl;
  sends = λ k t v s. refl;
  flushes = λ k s. refl;
  closed = λ k s. refl;
  secret = λ conn ref s. refl;
  generated = λ n s. refl;
}

abbrev demo : DemoInitOperator
demo = record { base = op; num_records = 2; demo_records = str_val "r" ∷ [] }

execute_demo_refuses_kafka_example :
    (e : Exc) × ((execute_demo
        (surroundings_with "kafka" none)
        counted_producers
        (λ conn ref. pure (dict secret))
        (λ n. pure [])
        demo
        ctx
        (0, [])).0
      ≡ err e)
    × ((execute_demo
          (surroundings_with "kafka" none)
          counted_producers
          (λ conn ref. pure (dict secret))
          (λ n. pure [])
          demo
          ctx
          (0, [])).1.1
        ≡ [])
    × ((execute_demo
          (surroundings_with "kafka" none)
          counted_producers
          (λ conn ref. pure (dict secret))
          (λ n. pure [])
          demo
          ctx
          (0, [])).1.0
        ≡ 0)
execute_demo_refuses_kafka_example =
    execute_demo_refuses_kafka (surroundings_with "kafka" none) counted_producers
      (λ conn ref. pure (dict secret)) (λ n. pure []) (λ n. n) counted_producers-IsCounted demo ctx
      (config_with "kafka") 0 [] refl kafka_asked
