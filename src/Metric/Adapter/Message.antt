-- ===== src/Metric/Adapter/Message.antt =====
-- `build_message` of the three metric adapters.
use batch_ingestion_service.Prelude.{String, [], ◌∷◌}
use batch_ingestion_service.Py.Exc.{Result, ok, ◌>>=◌}
use batch_ingestion_service.Py.Value.{
  Value, str_val, list_val, dict_val, Dict, dict, str_of, insert, update, method_dict,
}
use batch_ingestion_service.Metric.Adapter.{Formats}

module _ (f : Formats) where
  -- a container as JSON, anything else as its `str`
  unfoldable pub field_text : Value → Result String
  unfolding str_of
  field_text (dict_val fs) = f.json (dict_val fs)
  field_text (list_val xs) = f.json (list_val xs)
  field_text v = ok (str_of f.repr v)

  unfoldable pub field_texts : Dict Value → Result (Dict String)
  unfolding field_text
  field_texts [] = ok []
  field_texts ((k, v) ∷ d) = do s ← field_text v; rest ← field_texts d; ok ((k, s) ∷ rest)

  unfoldable pub plain_texts : Dict Value → Dict String
  unfolding str_of
  plain_texts [] = []
  plain_texts ((k, v) ∷ d) = (k, str_of f.repr v) ∷ plain_texts d

  -- `RedisQueueAdapter.build_message`
  unfoldable pub redis_message : Value → Dict Value → Result (Dict String)
  unfolding field_texts plain_texts update insert method_dict
  redis_message message_attributes payload = do
    message ← field_texts payload
    attributes ← method_dict message_attributes
    ok (insert "published_at" f.published_at (update message (plain_texts attributes)))

  abbrev attribute : String → Value
  attribute s = dict (("DataType", str_val "String") ∷ ("StringValue", str_val s) ∷ [])

  attributes_of : Dict Value → Dict Value
  unfolding str_of
  attributes_of [] = []
  attributes_of ((k, v) ∷ d) = (k, attribute (str_of f.repr v)) ∷ attributes_of d

  -- `SQSQueueAdapter.build_message`, without the address of the queue
  unfoldable pub sqs_message : Value → Dict Value → Result (String × Dict Value)
  unfolding attributes_of insert method_dict
  sqs_message message_attributes payload = do
    attributes ← method_dict message_attributes
    body ← f.json (dict payload)
    ok (body, insert "published_at" (attribute f.published_at) (attributes_of attributes))

  -- `KafkaQueueAdapter.build_message`, before the encoding
  unfoldable pub kafka_envelope : Dict Value → Dict Value → Dict Value
  unfolding insert update
  kafka_envelope attributes payload =
      insert "published_at" (str_val f.published_at) (update payload attributes)

  unfoldable pub kafka_message : Value → Dict Value → Result String
  unfolding kafka_envelope method_dict
  kafka_message message_attributes payload = do
    attributes ← method_dict message_attributes
    f.json_or_str (dict (kafka_envelope attributes payload))
