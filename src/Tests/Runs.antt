-- ===== src/Tests/Runs.antt =====
-- The Spark task and the secrets.
use batch_ingestion_service.Prelude.{ℕ, suc, String, ◌≡◌, refl, true, none, some, []}
use batch_ingestion_service.Py.Exc.{Exc, ok, err, raise, external, runtime_error}
use batch_ingestion_service.Py.Exec.{pure, lift}
use batch_ingestion_service.Py.Value.{none_val, dict}
use batch_ingestion_service.Config.Kinds.{MetricAdapterType}
use batch_ingestion_service.Context.{to_dict}
use batch_ingestion_service.Secrets.{
  Api, Hook, get_conn, authenticate, renewed, resolve_url, url_of, resolve_auth_method, auth_token,
  get_var,
}
use batch_ingestion_service.Secrets.Laws.{get_conn_sound, get_conn_again}
use batch_ingestion_service.Spark
use batch_ingestion_service.Spark.{SparkRunOperator, SparkRun, Adapters, pipeline}
use batch_ingestion_service.Spark.Laws.{queues_after, execute_reraises, execute_queues}
use batch_ingestion_service.Tests.Data.{orders_context, metric_raw, repr}
use batch_ingestion_service.Tests.Pipeline.{vault}
use batch_ingestion_service.Tests.Tasks.{formats, counting, no_secrets}

-- a cluster that counts the calls, and whose sink is out of reach
abbrev unreachable_sink : Adapters ℕ Unit
unreachable_sink = record {
  build_session = λ n c. (λ q. (ok tt, suc q));
  validate_source = λ s. (λ q. (ok tt, suc q));
  validate_sink = λ s. lift (raise external "connection refused");
  copy_from = λ s p d. (λ q. (ok tt, suc q));
  apply_filters = λ s. (λ q. (ok tt, suc q));
  read = λ s. (λ q. (ok tt, suc q));
  cache = λ d. (λ q. (ok tt, suc q));
  count = λ d. pure 3;
  write = λ s d. (λ q. (ok tt, suc q));
  unpersist = λ d. (λ q. (ok tt, suc q));
}

abbrev spark_op : SparkRunOperator
spark_op = record {
  spark_app_name = none_val;
  spark_config = [];
  metric_type = some MetricAdapterType.onprem_queue;
  metric_config_raw = dict metric_raw;
  openbao_conn_id = "bao";
}

abbrev spark_run : SparkRun
spark_run = record {
  dag_id = "orders";
  run_id = "manual__2024-01";
  raw_context = dict (to_dict orders_context);
}

abbrev spark_before : Spark.World ℕ ℕ
spark_before = record { cluster = 0; queues = 0; xcom = [] }

execute_reraises_example :
    (Spark.execute repr unreachable_sink formats counting no_secrets spark_op spark_run
      spark_before).0
    ≡ (pipeline repr unreachable_sink formats counting no_secrets spark_op spark_run spark_before).0
execute_reraises_example =
    execute_reraises repr unreachable_sink formats counting no_secrets spark_op spark_run
      spark_before

execute_queues_example :
    (Spark.execute repr unreachable_sink formats counting no_secrets spark_op spark_run
      spark_before).1.queues
    ≡ queues_after repr unreachable_sink formats counting no_secrets
        (Spark.execute repr unreachable_sink formats counting no_secrets spark_op spark_run
          spark_before).0
        spark_op
        spark_run
        0
execute_queues_example =
    execute_queues repr unreachable_sink formats counting no_secrets spark_op spark_run spark_before

abbrev fresh : Hook String
fresh = record { openbao_conn_id = "bao"; client = none }

logs_in : (get_conn vault 0 fresh).0 ≡ ok "root"
unfolding get_conn renewed authenticate resolve_url url_of resolve_auth_method auth_token get_var
logs_in = refl

get_conn_sound_example :
    (vault.is_authenticated 0 "root" ≡ ok true) × ((get_conn vault 0 fresh).1.client ≡ some "root")
get_conn_sound_example = get_conn_sound vault 0 fresh "root" logs_in

get_conn_again_example :
    get_conn vault 5 (get_conn vault 0 fresh).1 ≡ (ok "root", (get_conn vault 0 fresh).1)
get_conn_again_example = get_conn_again vault 0 5 fresh "root" logs_in refl

-- a server with no token to give
abbrev locked : Api String
locked = record vault { environ = λ k. none }

abbrev no_token : Exc
no_token = record {
  cls = runtime_error;
  message =
      "Token auth requires the Airflow Variable 'openbao_token' or the OPENBAO_TOKEN environment variable to be set.";
}

no_login : (get_conn locked 0 fresh).0 ≡ err no_token
unfolding get_conn renewed authenticate resolve_url url_of resolve_auth_method auth_token get_var
no_login = refl
