-- ===== src/Metric/Adapter/Publish.antt =====
-- `publish` and `validate_connection` of the three metric adapters.
use batch_ingestion_service.Prelude.{
  String, Bool, true, false, ◌&&◌, Option, none, some, [], ◌∷◌, if◌then◌else◌,
}
use batch_ingestion_service.Py.Exc.{Result, ok, err, raise, attribute_error}
use batch_ingestion_service.Py.Exec.{Exec, pure, lift, ensure, ◌>>=◌, ◌>>◌}
use batch_ingestion_service.Py.Value.{
  Value, none_val, str_val, Dict, truthy, get_or, lookup, method_text,
}
use batch_ingestion_service.Metric.Adapter.{
  RedisMetricConfig, SqsMetricConfig, KafkaMetricConfig, redis, sqs, kafka, redis_queue, sqs_queue,
  kafka_queue, AdapterClass, MetricConfig, Adapter, Formats, Clients,
}
use batch_ingestion_service.Metric.Adapter.Message.{redis_message, sqs_message, kafka_message}

-- `_get_producer`'s keywords
unfoldable pub producer_kwargs : Value → Dict Value → Dict Value
unfolding get_or truthy
producer_kwargs bootstrap_servers credentials =
    let username = get_or credentials "sasl_username" none_val in
    let password = get_or credentials "sasl_password" none_val in
    ("bootstrap_servers", bootstrap_servers)
    ∷ (if truthy username && truthy password
        then ("security_protocol", str_val "SASL_PLAINTEXT")
          ∷ ("sasl_mechanism", str_val "PLAIN")
          ∷ ("sasl_plain_username", username)
          ∷ ("sasl_plain_password", password)
          ∷ []
        else [])

message_key : Value → Result (Option String)
unfolding truthy method_text
message_key key = if truthy key then key_text (method_text key) else ok none
  where
    key_text : Result String → Result (Option String)
    key_text (ok s) = ok (some s)
    key_text (err e) = err e

abbrev is_some : Option Value → Bool
is_some none = false
is_some (some _) = true

module _ {W K : Type 0} (f : Formats) (clients : Clients W K) where
  redis_open : RedisMetricConfig → Dict Value → Exec W K
  unfolding get_or
  redis_open c credentials =
      clients.redis_client c.host c.port (get_or credentials "password" none_val)

  sqs_open : SqsMetricConfig → Dict Value → Exec W K
  unfolding get_or
  sqs_open c credentials =
      clients.sqs_client c.aws_region (get_or credentials "aws_access_key_id" none_val)
        (get_or credentials "aws_secret_access_key" none_val)

  kafka_open : KafkaMetricConfig → Dict Value → Exec W K
  unfolding producer_kwargs
  kafka_open c credentials =
      clients.kafka_producer (producer_kwargs c.bootstrap_servers credentials)

  publish_redis : RedisMetricConfig → Adapter → Dict Value → Exec W Unit
  unfolding redis_message redis_open
  publish_redis c a payload = do
    message ← lift (redis_message f a.message_attributes payload)
    client ← redis_open c a.credentials
    clients.xadd client c.stream_name message c.max_len

  publish_sqs : SqsMetricConfig → Adapter → Dict Value → Exec W Unit
  unfolding sqs_message sqs_open
  publish_sqs c a payload = do
    message ← lift (sqs_message f a.message_attributes payload)
    client ← sqs_open c a.credentials
    clients.send_message client c.queue_url message.0 message.1

  send_kafka : KafkaMetricConfig → Adapter → Dict Value → K → Exec W Unit
  unfolding kafka_message message_key
  send_kafka c a payload producer = do
    message ← lift (kafka_message f a.message_attributes payload)
    key ← lift (message_key c.key)
    clients.send producer c.topic message key
    clients.flush producer

  publish_kafka : KafkaMetricConfig → Adapter → Dict Value → Exec W Unit
  unfolding kafka_open send_kafka
  publish_kafka c a payload = do
    producer ← kafka_open c a.credentials
    ensure (send_kafka c a payload producer) (clients.close producer)

  -- `publish`. The error hooks only print. A class that has the config of another class finds none
  -- of its fields.
  unfoldable pub publish : Adapter → Dict Value → Exec W Unit
  unfolding publish_redis publish_sqs publish_kafka
  publish a payload = by_class a.cls a.config
    where
      by_class : AdapterClass → MetricConfig → Exec W Unit
      by_class redis_queue (redis c) = publish_redis c a payload
      by_class sqs_queue (sqs c) = publish_sqs c a payload
      by_class kafka_queue (kafka c) = publish_kafka c a payload
      by_class _ _ = lift (raise attribute_error "object has no such attribute")

  validate_redis : RedisMetricConfig → Adapter → Exec W Bool
  unfolding redis_open
  validate_redis c a = do client ← redis_open c a.credentials; clients.ping client

  validate_sqs : SqsMetricConfig → Adapter → Exec W Bool
  unfolding sqs_open lookup
  validate_sqs c a = do
    client ← sqs_open c a.credentials
    attributes ← clients.get_queue_attributes client c.queue_url
    pure (is_some (lookup "QueueArn" attributes))

  validate_kafka : KafkaMetricConfig → Adapter → Exec W Bool
  unfolding kafka_open
  validate_kafka c a = do
    producer ← kafka_open c a.credentials
    ensure (do p ← clients.partitions_for producer c.topic; pure (is_some p))
        (clients.close producer)

  -- `validate_connection`
  unfoldable pub validate_connection : Adapter → Exec W Bool
  unfolding validate_redis validate_sqs validate_kafka
  validate_connection a = by_class a.cls a.config
    where
      by_class : AdapterClass → MetricConfig → Exec W Bool
      by_class redis_queue (redis c) = validate_redis c a
      by_class sqs_queue (sqs c) = validate_sqs c a
      by_class kafka_queue (kafka c) = validate_kafka c a
      by_class _ _ = lift (raise attribute_error "object has no such attribute")
