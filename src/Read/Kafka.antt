-- ===== src/Read/Kafka.antt =====
-- adapters/source/stream/source_kafka_adapter.py.
pub mod Laws
use batch_ingestion_service.Prelude.{
  String, ◌<>◌, Bool, ◌&&◌, Option, none, some, List, [], ◌∷◌, ◌++◌, if◌then◌else◌,
}
use batch_ingestion_service.Py.Exc.{Result, ok, ◌>>=◌}
use batch_ingestion_service.Py.Exec
use batch_ingestion_service.Py.Exec.{Exec, lift, continue}
use batch_ingestion_service.Py.Value.{
  Value, none_val, str_val, Dict, truthy, str_of, get_or, method_dict,
}
use batch_ingestion_service.Config.Source.{KafkaSourceConfig}
use batch_ingestion_service.Checkpoint.{Checkpoint, is_text}
use batch_ingestion_service.Read.Frames.{Frames, given, shown}

pub record KafkaAdapter (T : Type 0) : Type 0 where
  pub source_config : KafkaSourceConfig
  pub credentials : Value
  pub schema : Option (Dict T)
  pub checkpoint_from : Option Checkpoint
  pub checkpoint_to : Option Checkpoint

-- what `_decode_value` asks of Spark: the casts of the value and the key, and the columns of a JSON
-- value with Kafka's own
pub record Decoder (D T : Type 0) : Type 0 where
  pub as_strings : D → Result D
  pub expand : Dict T → D → Result D

module _ (repr : Value → String) where
  -- where a read starts: at the last checkpoint, else where the configuration says
  unfoldable pub starting : KafkaSourceConfig → Option Checkpoint → Value
  unfolding shown
  starting c none = c.starting_offsets
  starting c (some from) = str_val (shown repr (some from))

  -- where a read ends
  unfoldable pub ending : Option Checkpoint → Value
  unfolding shown
  ending none = str_val "latest"
  ending (some to) = str_val (shown repr (some to))

  jaas : Value → Value → String
  unfolding str_of
  jaas username password =
      "org.apache.kafka.common.security.plain.PlainLoginModule required username=\""
      <> str_of repr username
      <> "\" password=\""
      <> str_of repr password
      <> "\";"

  sasl_options : Value → Value → List (String × Value)
  unfolding truthy jaas
  sasl_options username password =
      if truthy username && truthy password
      then ("kafka.security.protocol", str_val "SASL_PLAINTEXT")
        ∷ ("kafka.sasl.mechanism", str_val "PLAIN")
        ∷ ("kafka.sasl.jaas.config", str_val (jaas username password))
        ∷ []
      else []

  group_options : Value → List (String × Value)
  unfolding truthy
  group_options group_id = if truthy group_id then ("kafka.group.id", group_id) ∷ [] else []

  module _ {T : Type 0} where
    window_options : KafkaAdapter T → List (String × Value)
    unfolding starting ending
    window_options a =
        ("kafka.bootstrap.servers", a.source_config.bootstrap_servers)
        ∷ ("subscribe", a.source_config.topic)
        ∷ ("startingOffsets", starting a.source_config a.checkpoint_from)
        ∷ ("endingOffsets", ending a.checkpoint_to)
        ∷ ("failOnDataLoss", str_val "false")
        ∷ []

    own_options : KafkaAdapter T → Dict Value → List (String × Value)
    unfolding window_options group_options sasl_options get_or
    own_options a credentials =
        window_options a
        ++ (group_options a.source_config.group_id
            ++ sasl_options (get_or credentials "sasl_username" none_val)
                (get_or credentials "sasl_password" none_val))

    -- The options that `read` sets on Spark's reader, in their order.
    unfoldable pub options_of : KafkaAdapter T → Result (List (String × Value))
    unfolding method_dict own_options
    options_of a = do
      credentials ← method_dict a.credentials
      read_options ← method_dict a.source_config.read_options
      ok (own_options a credentials ++ read_options)

    module _ {S D : Type 0} (f : Frames S D T) (d : Decoder D T) where
      expanded : Option (Dict T) → D → Result D
      expanded none df = ok df
      expanded (some schema) df = d.expand schema df

      -- the frame with its value and key as texts
      decoded : Value → Option (Dict T) → D → Result D
      unfolding is_text expanded
      decoded value_format schema str_df =
          if is_text "string" (some value_format)
          then ok str_df
          else if is_text "json" (some value_format)
          then expanded (given schema) str_df
          else ok str_df

      -- `_decode_value`
      unfoldable pub decode_value : Value → Option (Dict T) → D → Result D
      unfolding is_text decoded
      decode_value value_format schema df =
          if is_text "binary" (some value_format)
          then ok df
          else (d.as_strings df >>= decoded value_format schema)

      -- `read`
      unfoldable pub read : KafkaAdapter T → Exec S D
      unfolding options_of decode_value
      read a = Exec.◌>>=◌ (lift (options_of a)) λ options.
          Exec.◌>>=◌ (f.load (str_val "kafka") options none none)
            λ raw_df. lift (decode_value a.source_config.value_format a.schema raw_df)
