-- ===== src/Tests/Reads.antt =====
-- The read adapters and their factory.
use batch_ingestion_service.Prelude.{ℕ, String, ◌≡◌, refl, none, some, List, [], ◌∷◌}
use batch_ingestion_service.Prelude.Int.{pos}
use batch_ingestion_service.Py.Exc.{ok, ok-injective}
use batch_ingestion_service.Py.Exec.{pure}
use batch_ingestion_service.Py.Value.{Value, str_val, int_val, Dict, dict, lookup, method_dict}
use batch_ingestion_service.Config.Kinds.{ReadAdapterType}
use batch_ingestion_service.Config.Source
use batch_ingestion_service.Config.Source.{SourceConfig, KafkaSourceConfig, kafka}
use batch_ingestion_service.Checkpoint.{Checkpoint, number, text}
use batch_ingestion_service.Init.Max.Offsets.{TopicPartition, offset_map}
use batch_ingestion_service.Init.Max.Laws.{offset_in, end_offset, offset_map_reads}
use batch_ingestion_service.Read.Frames.{Frames, shown}
use batch_ingestion_service.Read.NoSql.{NoSqlAdapter, Store, mongodb}
use batch_ingestion_service.Read.NoSql
use batch_ingestion_service.Read.NoSql.Laws.{seen, until, read_ignores_checkpoint_to}
use batch_ingestion_service.Read.Kafka.{KafkaAdapter, options_of}
use batch_ingestion_service.Read.Kafka.Laws.{Unset, windows_join}
use batch_ingestion_service.Read.Sql.Laws.{last_of}
use batch_ingestion_service.Read.Factory.{ReadAdapter, adapter_of, create}
use batch_ingestion_service.Read.Factory.Laws.{IsTyped, create-IsTyped}
use batch_ingestion_service.Tests.Data.{repr, orders_table}

-- a cluster that counts the reads; a frame is the list of its filters
abbrev frames : Frames ℕ (List String) Unit
frames = record {
  load = λ f o s p. (λ n. (ok [], ℕ.suc n));
  filter = λ c df. ok (c ∷ df);
  schema = λ df. [];
  limit = λ n df. df;
  select_expr = λ e df. ok df;
  count = λ df. pure 0;
  collect = λ df. pure [];
  max_of = λ c df. pure (str_val "99" ∷ []);
}

abbrev orders_nosql : NoSqlAdapter Unit
orders_nosql = record {
  store = mongodb;
  source_config = orders_table;
  credentials = dict [];
  batch_size = int_val (pos 10000);
  schema = none;
  filters = [];
  checkpoint_from = some (number (pos 10));
  checkpoint_to = none;
  read_options = [];
}

read_ignores_checkpoint_to_example :
    seen (NoSql.read repr frames (until repr frames orders_nosql (some (number (pos 20)))) 0)
    ≡ seen (NoSql.read repr frames (until repr frames orders_nosql none) 0)
read_ignores_checkpoint_to_example =
    read_ignores_checkpoint_to repr frames orders_nosql (some (number (pos 20))) none 0

abbrev topic : KafkaSourceConfig
topic = record {
  credential_ref = str_val "kafka/prod";
  extra = dict [];
  read_options = dict [];
  bootstrap_servers = str_val "b1:9092";
  topic = str_val "orders";
  group_id = str_val "";
  starting_offsets = str_val "earliest";
  value_format = str_val "json";
}

abbrev offsets : Checkpoint
offsets = text "{\"orders\": {\"0\": 1000}}"

abbrev first_read : KafkaAdapter Unit
first_read = record {
  source_config = topic;
  credentials = dict [];
  schema = none;
  checkpoint_from = none;
  checkpoint_to = some offsets;
}

abbrev second_read : KafkaAdapter Unit
second_read = record first_read { checkpoint_from = some offsets; checkpoint_to = none }

abbrev options : Value → Value → List (String × Value)
options start end =
    ("kafka.bootstrap.servers", str_val "b1:9092")
    ∷ ("subscribe", str_val "orders")
    ∷ ("startingOffsets", start)
    ∷ ("endingOffsets", end)
    ∷ ("failOnDataLoss", str_val "false")
    ∷ []

abbrev offsets_val : Value
offsets_val = str_val "{\"orders\": {\"0\": 1000}}"

first_options : options_of repr first_read ≡ ok (options (str_val "earliest") offsets_val)
unfolding options_of shown
first_options = refl

second_options : options_of repr second_read ≡ ok (options offsets_val (str_val "latest"))
unfolding options_of shown
second_options = refl

no_options : (k : String) → Unset k first_read
unfolding method_dict lookup
no_options k ro e = rw (← (ok-injective e)) refl

windows_join_example :
    (last_of "endingOffsets" (options (str_val "earliest") offsets_val)
      ≡ some (str_val (shown repr (some offsets))))
    × (last_of "startingOffsets" (options offsets_val (str_val "latest"))
        ≡ last_of "endingOffsets" (options (str_val "earliest") offsets_val))
windows_join_example =
    windows_join repr first_read second_read offsets _ _ refl refl (no_options "endingOffsets")
      (no_options "startingOffsets") first_options second_options

abbrev ends : List (TopicPartition × ℕ)
ends = (("orders", 0), 1000) ∷ (("orders", 1), 2000) ∷ []

offset_map_reads_example : offset_in (offset_map [] ends) "orders" 1 ≡ end_offset ends "orders" 1
offset_map_reads_example = offset_map_reads ends "orders" 1

abbrev kwargs : Dict Value
kwargs = ("credential_ref", str_val "kafka/prod") ∷ ("topic", str_val "orders") ∷ []

abbrev built : SourceConfig
built = kafka (record topic { bootstrap_servers = str_val "" })

made : Source.create ReadAdapterType.kafka kwargs ≡ ok built
unfolding Source.create
made = refl

abbrev adapter : ReadAdapter
adapter = adapter_of ReadAdapterType.kafka built

created : create ReadAdapterType.kafka built ≡ ok adapter
unfolding create
created = refl

create-IsTyped_example : IsTyped adapter.cls adapter
create-IsTyped_example = create-IsTyped ReadAdapterType.kafka kwargs built adapter made created
