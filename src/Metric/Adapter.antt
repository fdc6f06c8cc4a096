-- ===== src/Metric/Adapter.antt =====
-- The metric adapters of adapters/metric and their factory. The clients of Redis, SQS and Kafka and
-- `json.dumps` are parameters.
pub mod Message
pub mod Publish
pub mod Laws
use batch_ingestion_service.Prelude.{
  String, Bool, true, false, not, ◌&&◌, Option, none, some, List, [], ◌∷◌, if◌then◌else◌,
}
use batch_ingestion_service.Prelude.Int.{ℤ}
use batch_ingestion_service.Py.Exc.{Result, ok, err, raise, attribute_error}
use batch_ingestion_service.Py.Exec.{Exec, pure, lift, ensure, ◌>>=◌, ◌>>◌}
use batch_ingestion_service.Py.Value.{
  Value, none_val, bool_val, str_val, int_val, list_val, dict_val, Dict, dict, truthy, or_else,
  str_of, get_or, lookup, insert, update, method_dict, method_text,
}
use batch_ingestion_service.Config.Kinds.{MetricAdapterType}

pub record RedisMetricConfig : Type 0 where
  pub credential_ref : Value
  pub extra : Value
  pub host : Value
  pub port : ℤ
  pub stream_name : Value
  pub max_len : Value

pub record SqsMetricConfig : Type 0 where
  pub credential_ref : Value
  pub extra : Value
  pub queue_url : Value
  pub aws_region : Value

pub record KafkaMetricConfig : Type 0 where
  pub credential_ref : Value
  pub extra : Value
  pub bootstrap_servers : Value
  pub topic : Value
  pub key : Value

pub data MetricConfig : Type 0 where
  redis : RedisMetricConfig → MetricConfig
  sqs : SqsMetricConfig → MetricConfig
  kafka : KafkaMetricConfig → MetricConfig

-- the classes that the factory knows
pub data AdapterClass : Type 0 where
  sqs_queue redis_queue kafka_queue : AdapterClass

pub record Adapter : Type 0 where
  pub cls : AdapterClass
  pub config : MetricConfig
  pub credentials : Dict Value
  pub message_attributes : Value

-- `MetricAdapterFactory._registry`
unfoldable pub registry : MetricAdapterType → AdapterClass
registry MetricAdapterType.cloud_queue = sqs_queue
registry MetricAdapterType.onprem_queue = redis_queue
registry MetricAdapterType.kafka_queue = kafka_queue

-- `MetricAdapterFactory.create`
unfoldable pub create : MetricAdapterType → MetricConfig → Dict Value → Value → Adapter
unfolding registry or_else
create metric_type config credentials message_attributes = record {
  cls = registry metric_type;
  config = config;
  credentials = credentials;
  message_attributes = or_else message_attributes (dict []);
}

-- What the adapters ask of `json`, of `str` of a container, and of the clock.
pub record Formats : Type 0 where
  pub json : Value → Result String
  pub json_or_str : Value → Result String
  pub repr : Value → String
  pub published_at : String

-- The client libraries: a client is a value of `K`, and a call may change the state `W`. The
-- last argument of `xadd` is the length to which it trims, `none_val` for no trimming.
pub record Clients (W K : Type 0) : Type 0 where
  pub redis_client : Value → ℤ → Value → Exec W K
  pub sqs_client : Value → Value → Value → Exec W K
  pub kafka_producer : Dict Value → Exec W K
  pub ping : K → Exec W Bool
  pub get_queue_attributes : K → Value → Exec W (Dict Value)
  pub partitions_for : K → Value → Exec W (Option Value)
  pub xadd : K → Value → Dict String → Value → Exec W Unit
  pub send_message : K → Value → String → Dict Value → Exec W Unit
  pub send : K → Value → String → Option String → Exec W Unit
  pub flush : K → Exec W Unit
  pub close : K → Exec W Unit
