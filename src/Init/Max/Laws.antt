-- ===== src/Init/Max/Laws.antt =====
-- The offsets that a Kafka checkpoint holds, and the clients that the queries leave open.
use batch_ingestion_service.Prelude.{
  ℕ, String, ◌≡◌, refl, ◌∙◌, ◌&&◌, inl, inr, Option, none, some, List, [], ◌∷◌, ◌==◌, eq_iff,
  eq_refl, nat_eq, arith, if◌then◌else◌, Bool-cases, map,
}
use batch_ingestion_service.Prelude.Int.{pos}
use batch_ingestion_service.Py.Exc.{Result}
use batch_ingestion_service.Py.Exec.{lift, Keeps, bind-Keeps}
use batch_ingestion_service.Py.Exec.Resource.{Opens, Closes, bracket_closes}
use batch_ingestion_service.Py.Number.{str_of_int, strip}
use batch_ingestion_service.Py.Number.Laws.{int_of_text-str_of_int}
use batch_ingestion_service.Py.Value.{Value, Dict, lookup, get_or, insert, method_text}
use batch_ingestion_service.Py.Value.Laws.{lookup-insert}
use batch_ingestion_service.Config.Source.{KafkaSourceConfig}
use batch_ingestion_service.Metric.Adapter.Laws.{later}
use batch_ingestion_service.Init.Max.Offsets.{
  TopicPartition, Consumers, put_offset, offset_map, topic_partitions, require_partitions,
  read_offsets, max_kafka, split_comma, consumer_kwargs,
}

-- the offset of a partition in the map of a checkpoint
abbrev pub offset_in : Dict (Dict ℕ) → String → ℕ → Option ℕ
offset_in m topic p = lookup (str_of_int (pos p)) (get_or m topic [])

-- the offset that Kafka gives for a partition: the last one, of a list with several
abbrev pub end_offset : List (TopicPartition × ℕ) → String → ℕ → Option ℕ
end_offset [] topic p = none
end_offset (((u, q), n) ∷ rest) topic p =
    later (end_offset rest topic p) (if u == topic && nat_eq q p then some n else none)

str_of_int-pos : (p q : ℕ) → str_of_int (pos p) ≡ str_of_int (pos q) → p ≡ q
str_of_int-pos p q h =
    ground (arith, int_of_text-str_of_int (pos p), int_of_text-str_of_int (pos q))

get_or-insert :
    (u topic : String) (x : Dict ℕ) (m : Dict (Dict ℕ))
    → get_or (insert u x m) topic [] ≡ (if u == topic then x else get_or m topic [])
unfolding get_or
get_or-insert u topic x m = ground (arith, lookup-insert u topic x m)

-- two partitions have the same name exactly when they have the same number
str_of_int-same : (q p : ℕ) → (str_of_int (pos q) == str_of_int (pos p)) ≡ nat_eq q p
str_of_int-same q p = elim (Bool-cases (nat_eq q p)) [
  | inl same ↦ let e : q ≡ p = ground (arith) in rw (same, e) (eq_refl (str_of_int (pos p)))
  | inr other ↦ elim (Bool-cases (str_of_int (pos q) == str_of_int (pos p))) [
    | inr apart ↦ rw (other, apart) refl
    | inl same ↦ let e = str_of_int-pos q p ((eq_iff _ _).0 same) in absurd (ground (arith))
  ]
]

offset_in-put :
    (m : Dict (Dict ℕ)) (topic u : String) (p q n : ℕ)
    → offset_in (put_offset (u, q) n m) topic p
      ≡ (if u == topic && nat_eq q p then some n else offset_in m topic p)
unfolding put_offset
offset_in-put m topic u p q n =
    rw (get_or-insert u topic (insert (str_of_int (pos q)) n (get_or m u [])) m)
      (elim (Bool-cases (u == topic)) [
        | inr other ↦ rw other refl
        | inl same ↦
            rw
              (
                same,
                lookup-insert (str_of_int (pos q)) (str_of_int (pos p)) n (get_or m u []),
                str_of_int-same q p,
                (eq_iff u topic).0 same,
              )
              refl
      ])

offset_in-offset_map :
    (m : Dict (Dict ℕ)) (ends : List (TopicPartition × ℕ)) (topic : String) (p : ℕ)
    → offset_in (offset_map m ends) topic p ≡ later (end_offset ends topic p) (offset_in m topic p)
unfolding offset_map
offset_in-offset_map m [] topic p = refl
offset_in-offset_map m (((u, q), n) ∷ ends) topic p =
    offset_in-offset_map (put_offset (u, q) n m) ends topic p
    ∙ ground (arith, offset_in-put m topic u p q n)

-- The offset map of a Kafka checkpoint has under a topic and a partition's number exactly the end
-- offset that Kafka gave for that partition, and nothing for any other.
pub offset_map_reads :
    (ends : List (TopicPartition × ℕ)) (topic : String) (p : ℕ)
    → offset_in (offset_map [] ends) topic p ≡ end_offset ends topic p
unfolding lookup get_or
offset_map_reads ends topic p =
    offset_in-offset_map [] ends topic p ∙ later-none (end_offset ends topic p)
  where
    later-none : (o : Option ℕ) → later o none ≡ o
    later-none none = refl
    later-none (some n) = refl

-- What the calls of a Kafka consumer do to the number of open consumers.
pub record IsCounted {S K : Type 0} (consumers : Consumers S K) (count : S → ℕ) : Type 0 where
  pub opens : (kwargs : Dict Value) → Opens count (consumers.consumer kwargs)
  pub partitions : (k : K) (t : String) → Keeps count (consumers.partitions_for_topic k t)
  pub offsets : (k : K) (tps : List TopicPartition) → Keeps count (consumers.end_offsets k tps)
  pub closed : Closes count consumers.close

module _ {S K : Type 0} (repr : Value → String) (json_sorted : Value → Result String)
    (consumers : Consumers S K) (count : S → ℕ) (h : IsCounted consumers count) where
  topic_partitions-Keeps :
      (k : K) (topics : List String)
      → Keeps count (topic_partitions repr json_sorted consumers k topics)
  unfolding topic_partitions
  topic_partitions-Keeps k [] = λ s. refl
  topic_partitions-Keeps k (t ∷ topics) =
      bind-Keeps count (consumers.partitions_for_topic k t) _ (h.partitions k t) (λ ps.
        bind-Keeps count (topic_partitions repr json_sorted consumers k topics) _
          (topic_partitions-Keeps k topics) (λ rest s. refl))

  read_offsets-Keeps :
      (topics : List String) (k : K)
      → Keeps count (read_offsets repr json_sorted consumers topics k)
  unfolding read_offsets
  read_offsets-Keeps topics k =
      bind-Keeps count (topic_partitions repr json_sorted consumers k topics) _
        (topic_partitions-Keeps k topics)
        (λ tps.
          bind-Keeps count (lift (require_partitions repr json_sorted consumers topics tps)) _
            (λ s. refl)
            (λ _. bind-Keeps count (consumers.end_offsets k tps) _ (h.offsets k tps) (λ e s. refl)))

  -- `_max_kafka` leaves as many consumers open as there were, whether it returns or raises.
  pub max_kafka_closes :
      (c : KafkaSourceConfig) (credentials : Dict Value)
      → Keeps count (max_kafka repr json_sorted consumers c credentials)
  unfolding max_kafka
  max_kafka_closes c credentials =
      bind-Keeps count (lift (method_text c.bootstrap_servers)) _ (λ s. refl)
        (λ servers.
          bind-Keeps count (lift (method_text c.topic)) _ (λ s. refl)
            (λ topic.
              bracket_closes count
                (consumers.consumer (consumer_kwargs c (split_comma servers) credentials))
                (read_offsets repr json_sorted consumers (map strip (split_comma topic)))
                consumers.close (h.opens _) (read_offsets-Keeps _) h.closed))
