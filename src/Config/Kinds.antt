-- ===== src/Config/Kinds.antt =====
-- adapters/factory/adapter_config.py: the three enumerations of adapter types.
pub mod Laws
use batch_ingestion_service.Prelude.{
  String, Option, none, some, List, [], ◌∷◌, ◌==◌, if◌then◌else◌, ◌<>◌,
}
use batch_ingestion_service.Py.Exc.{Result, ok, raise, value_error}
use batch_ingestion_service.Py.Value.{Value, str_val, enum_val, none_val}

pub data ReadAdapterType : Type 0 where
  sql mysql nosql dynamodb cassandra file s3 kafka : ReadAdapterType

pub data WriteAdapterType : Type 0 where
  hadoop s3 : WriteAdapterType

pub data MetricAdapterType : Type 0 where
  cloud_queue onprem_queue kafka_queue : MetricAdapterType

-- `member.value`
unfoldable pub read_value : ReadAdapterType → String
read_value ReadAdapterType.sql = "sql"
read_value ReadAdapterType.mysql = "mysql"
read_value ReadAdapterType.nosql = "nosql"
read_value ReadAdapterType.dynamodb = "dynamodb"
read_value ReadAdapterType.cassandra = "cassandra"
read_value ReadAdapterType.file = "file"
read_value ReadAdapterType.s3 = "s3"
read_value ReadAdapterType.kafka = "kafka"

unfoldable pub write_value : WriteAdapterType → String
write_value WriteAdapterType.hadoop = "hadoop"
write_value WriteAdapterType.s3 = "s3"

unfoldable pub metric_value : MetricAdapterType → String
metric_value MetricAdapterType.cloud_queue = "cloud_queue"
metric_value MetricAdapterType.onprem_queue = "onprem_queue"
metric_value MetricAdapterType.kafka_queue = "kafka_queue"

abbrev read_members : List ReadAdapterType
read_members =
    ReadAdapterType.sql ∷ ReadAdapterType.mysql ∷ ReadAdapterType.nosql ∷ ReadAdapterType.dynamodb
    ∷ ReadAdapterType.cassandra ∷ ReadAdapterType.file ∷ ReadAdapterType.s3 ∷ ReadAdapterType.kafka
    ∷ []

abbrev write_members : List WriteAdapterType
write_members = WriteAdapterType.hadoop ∷ WriteAdapterType.s3 ∷ []

abbrev metric_members : List MetricAdapterType
metric_members =
    MetricAdapterType.cloud_queue ∷ MetricAdapterType.onprem_queue ∷ MetricAdapterType.kafka_queue
    ∷ []

-- the member whose value is the text
find_member : {A : Type 0} → String → (A → String) → String → List A → Result A
find_member name value s [] = raise value_error ("'" <> s <> "' is not a valid " <> name)
find_member name value s (m ∷ ms) = if value m == s then ok m else find_member name value s ms

-- A call of the enumeration: a text, or a member of a `str` enumeration, that equals a value.
member_of : {A : Type 0} → String → (A → String) → List A → Value → Result A
unfolding find_member
member_of name value ms (str_val s) = find_member name value s ms
member_of name value ms (enum_val _ s) = find_member name value s ms
member_of name value ms _ = raise value_error ("not a valid " <> name)

unfoldable pub read_type_of : Value → Result ReadAdapterType
unfolding member_of read_value
read_type_of = member_of "ReadAdapterType" read_value read_members

unfoldable pub write_type_of : Value → Result WriteAdapterType
unfolding member_of write_value
write_type_of = member_of "WriteAdapterType" write_value write_members

unfoldable pub metric_type_of : Value → Result MetricAdapterType
unfolding member_of metric_value
metric_type_of = member_of "MetricAdapterType" metric_value metric_members
