-- ===== src/Init/Max/Offsets.antt =====
-- `_max_kafka`: the end offsets of the topics' partitions, as the JSON text that Spark reads. The
-- Kafka client and `json.dumps` with sorted keys are parameters.
use batch_ingestion_service.Prelude.{
  ℕ, code, String, false, ◌<>◌, ◌&&◌, Option, none, some, List, [], ◌∷◌, ◌++◌, map, leb, nat_eq,
  if◌then◌else◌,
}
use batch_ingestion_service.Prelude.Int.{pos}
use batch_ingestion_service.Py.Exc.{Result, ok, err, raise, runtime_error}
use batch_ingestion_service.Py.Exec.{Exec, pure, lift, ensure, ◌>>=◌}
use batch_ingestion_service.Py.Number.{strip, str_of_int}
use batch_ingestion_service.Py.Path.{push_head}
use batch_ingestion_service.Py.Value.{
  Value, none_val, bool_val, str_val, int_val, list_val, nil, cons, Items, Dict, dict, truthy,
  or_else, insert, update, get_or, method_text, list_text,
}
use batch_ingestion_service.Config.Source.{KafkaSourceConfig}
use batch_ingestion_service.Checkpoint.{Checkpoint, text}

-- a topic and the number of a partition
abbrev pub TopicPartition : Type 0
TopicPartition = String × ℕ

pub record Consumers (S K : Type 0) : Type 0 where
  pub consumer : Dict Value → Exec S K
  pub partitions_for_topic : K → String → Exec S (Option (List ℕ))
  -- a dictionary, in insertion order
  pub end_offsets : K → List TopicPartition → Exec S (List (TopicPartition × ℕ))
  pub close : K → Exec S Unit

-- `s.split(",")`
unfoldable pub split_comma : String → List String
unfolding push_head
split_comma String.[] = "" ∷ []
split_comma (String.◌∷◌ c s) =
    let rest = split_comma s in if nat_eq (code c) b',' then "" ∷ rest else push_head c rest

unfoldable pub insert_sorted : ℕ → List ℕ → List ℕ
insert_sorted n [] = n ∷ []
insert_sorted n (m ∷ ms) = let rest = insert_sorted n ms in if leb n m then n ∷ m ∷ ms else m ∷ rest

-- `sorted(partitions)`
unfoldable pub sorted : List ℕ → List ℕ
unfolding insert_sorted
sorted [] = []
sorted (n ∷ ns) = insert_sorted n (sorted ns)

unfoldable pub texts : List String → Items
texts [] = nil
texts (s ∷ ss) = cons (str_val s) (texts ss)

unfoldable pub sasl_kwargs : Value → Value → Dict Value
unfolding truthy
sasl_kwargs username password =
    if truthy username && truthy password
    then ("security_protocol", str_val "SASL_PLAINTEXT")
      ∷ ("sasl_mechanism", str_val "PLAIN")
      ∷ ("sasl_plain_username", username)
      ∷ ("sasl_plain_password", password)
      ∷ []
    else []

-- the keywords of the consumer
unfoldable pub consumer_kwargs : KafkaSourceConfig → List String → Dict Value → Dict Value
unfolding texts sasl_kwargs or_else get_or update
consumer_kwargs c bootstrap_servers credentials =
    update
      (("bootstrap_servers", list_val (texts bootstrap_servers))
        ∷ ("group_id", or_else c.group_id none_val)
        ∷ ("enable_auto_commit", bool_val false)
        ∷ [])
      (sasl_kwargs (get_or credentials "sasl_username" none_val)
        (get_or credentials "sasl_password" none_val))

-- `offset_map.setdefault(tp.topic, {})[str(tp.partition)] = offset`
unfoldable pub put_offset : TopicPartition → ℕ → Dict (Dict ℕ) → Dict (Dict ℕ)
unfolding insert get_or str_of_int
put_offset (topic, p) offset offsets =
    insert topic (insert (str_of_int (pos p)) offset (get_or offsets topic [])) offsets

-- the offsets by topic and partition
unfoldable pub offset_map : Dict (Dict ℕ) → List (TopicPartition × ℕ) → Dict (Dict ℕ)
unfolding put_offset
offset_map offsets [] = offsets
offset_map offsets ((tp, offset) ∷ rest) = offset_map (put_offset tp offset offsets) rest

offsets_val : Dict ℕ → Dict Value
offsets_val [] = []
offsets_val ((k, n) ∷ d) = (k, int_val (pos n)) ∷ offsets_val d

unfoldable pub map_val : Dict (Dict ℕ) → Dict Value
unfolding offsets_val
map_val [] = []
map_val ((k, e) ∷ d) = (k, dict (offsets_val e)) ∷ map_val d

or_empty : Option (List ℕ) → List ℕ
or_empty none = []
or_empty (some ps) = ps

module _ (repr : Value → String) (json_sorted : Value → Result String) {S K : Type 0}
    (consumers : Consumers S K) where
  unfoldable pub topic_partitions : K → List String → Exec S (List TopicPartition)
  unfolding sorted or_empty
  topic_partitions k [] = pure []
  topic_partitions k (topic ∷ topics) = do
    partitions ← consumers.partitions_for_topic k topic
    rest ← topic_partitions k topics
    pure (map (λ p. (topic, p)) (sorted (or_empty partitions)) ++ rest)

  unfoldable pub require_partitions : List String → List TopicPartition → Result (Unit {0})
  unfolding list_text
  require_partitions topics [] =
      raise runtime_error ("No partitions found for topics: " <> list_text topics)
  require_partitions topics (tp ∷ tps) = ok tt

  shown_offsets : List (TopicPartition × ℕ) → Result (Option Checkpoint)
  unfolding map_val offset_map
  shown_offsets end_offsets = elim (json_sorted (dict (map_val (offset_map [] end_offsets)))) [
    | ok s ↦ ok (some (text s))
    | err e ↦ err e
  ]

  -- the body of the `try`
  unfoldable pub read_offsets : List String → K → Exec S (Option Checkpoint)
  unfolding topic_partitions require_partitions shown_offsets
  read_offsets topics k = do
    tps ← topic_partitions k topics
    found ← lift (require_partitions topics tps)
    end_offsets ← consumers.end_offsets k tps
    lift (shown_offsets end_offsets)

  -- `_max_kafka`
  unfoldable pub max_kafka : KafkaSourceConfig → Dict Value → Exec S (Option Checkpoint)
  unfolding method_text split_comma strip consumer_kwargs read_offsets
  max_kafka c credentials = do
    servers ← lift (method_text c.bootstrap_servers)
    topic ← lift (method_text c.topic)
    consumer ← consumers.consumer (consumer_kwargs c (split_comma servers) credentials)
    ensure (read_offsets (map strip (split_comma topic)) consumer) (consumers.close consumer)
