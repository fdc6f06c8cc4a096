-- ===== src/Metric/Operator/Build.antt =====
-- `_build_metric_adapter` and the adapter of the secondary push, of orchestration/operators/metric_operator.py.
use batch_ingestion_service.Prelude.{String, [], if◌then◌else◌}
use batch_ingestion_service.Prelude.Int.{pos}
use batch_ingestion_service.Py.Exc.{Result, ok, ◌>>=◌}
use batch_ingestion_service.Py.Value.{
  Value, none_val, str_val, int_val, Dict, dict, truthy, or_else, get_or, method_dict, py_int,
}
use batch_ingestion_service.Config.Kinds.{MetricAdapterType}
use batch_ingestion_service.Metric.Adapter.{
  MetricConfig, RedisMetricConfig, redis, sqs, kafka, redis_queue, Adapter, create,
}

-- `OpenBaoHook(openbao_conn_id).get_secret(ref)`, with a hook of its own
abbrev pub Secrets : Type 0
Secrets = String → Value → Result Value

-- the credentials' entry, else the configuration's
abbrev first_of : Dict Value → Dict Value → String → Value → Value
first_of credentials raw k v = get_or credentials k (get_or raw k v)

unfoldable pub metric_config_of :
    MetricAdapterType → Value → Dict Value → Dict Value → Result MetricConfig
unfolding get_or py_int
metric_config_of MetricAdapterType.cloud_queue ref raw credentials = ok (
    sqs (record {
      credential_ref = ref;
      extra = get_or raw "extra" (dict []);
      queue_url = first_of credentials raw "queue_url" (str_val "");
      aws_region = first_of credentials raw "aws_region" (str_val "");
    }))
metric_config_of MetricAdapterType.onprem_queue ref raw credentials = do
  port ← py_int (first_of credentials raw "port" (int_val (pos 6379)))
  ok (
      redis (record {
        credential_ref = ref;
        extra = get_or raw "extra" (dict []);
        host = first_of credentials raw "host" (str_val "");
        port = port;
        stream_name = get_or raw "stream_name" (str_val "");
        max_len = get_or raw "max_len" (int_val (pos 1000));
      }))
metric_config_of MetricAdapterType.kafka_queue ref raw credentials = ok (
    kafka (record {
      credential_ref = ref;
      extra = dict [];
      bootstrap_servers = first_of credentials raw "bootstrap_servers" (str_val "");
      topic = get_or raw "topic" (str_val "");
      key = get_or raw "key" none_val;
    }))

-- `_build_metric_adapter`
unfoldable pub build_metric_adapter : Secrets → MetricAdapterType → Value → String → Result Adapter
unfolding metric_config_of get_or method_dict create
build_metric_adapter get_secret metric_type metric_config_raw openbao_conn_id = do
  raw ← method_dict metric_config_raw
  let credential_ref = get_or raw "credential_ref" (str_val "")
  secret ←
      (if truthy credential_ref then get_secret openbao_conn_id credential_ref else ok (dict []))
  credentials ← method_dict secret
  metric_config ← metric_config_of metric_type credential_ref raw credentials
  ok (create metric_type metric_config credentials (get_or raw "message_attributes" (dict [])))

secondary_config : Dict Value → Dict Value → Result RedisMetricConfig
unfolding get_or py_int
secondary_config raw credentials = do
  port ← py_int (first_of credentials raw "port" (int_val (pos 6379)))
  ok (record {
    credential_ref = get_or raw "credential_ref" (str_val "");
    extra = dict [];
    host = first_of credentials raw "host" (str_val "");
    port = port;
    stream_name = get_or raw "stream_name" (str_val "");
    max_len = get_or raw "max_len" (int_val (pos 1000));
  })

-- the adapter of `_push_redis_metric`
unfoldable pub secondary_adapter : Value → Value → Result Adapter
unfolding secondary_config get_or or_else method_dict
secondary_adapter redis_metric_config_raw redis_metric_credentials = do
  raw ← method_dict redis_metric_config_raw
  credentials ← method_dict redis_metric_credentials
  config ← secondary_config raw credentials
  ok (record {
    cls = redis_queue;
    config = redis config;
    credentials = credentials;
    message_attributes = or_else (get_or raw "message_attributes" (dict [])) (dict []);
  })
