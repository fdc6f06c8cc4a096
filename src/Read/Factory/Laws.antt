-- ===== src/Read/Factory/Laws.antt =====
-- The adapters of the read factory fit their configs.
use batch_ingestion_service.Prelude.{◌≡◌, refl, ◌∙◌, sym}
use batch_ingestion_service.Py.Exc.{Result, ok, err, >>=-eq-ok, ok-injective}
use batch_ingestion_service.Py.Value.{Value, Dict, method_text}
use batch_ingestion_service.Config.Kinds.{ReadAdapterType}
use batch_ingestion_service.Config.Source
use batch_ingestion_service.Config.Source.{
  SourceConfig, TableSourceConfig, PathSourceConfig, KafkaSourceConfig, Family, tables, paths,
  topics, family, table, path, kafka,
}
use batch_ingestion_service.Config.Source.Laws.{IsSource, create-IsSource}
use batch_ingestion_service.Spark.Source.{normalised}
use batch_ingestion_service.Read.Sql.{SqlAdapter}
use batch_ingestion_service.Read.NoSql.{NoSqlAdapter}
use batch_ingestion_service.Read.File.{FileAdapter}
use batch_ingestion_service.Read.Kafka.{KafkaAdapter}
use batch_ingestion_service.Read.Factory.{
  ReadClass, sql_class, nosql_class, file_class, kafka_class, ReadAdapter, adapter_of, registry,
  create, as_sql, as_nosql, as_file, as_kafka,
}

-- The adapter's methods find the attributes of the config that they read.
abbrev pub IsTyped : ReadClass → ReadAdapter → Type 0
IsTyped (sql_class dialect) a = (b : SqlAdapter) × (as_sql dialect a ≡ ok b)
IsTyped (nosql_class store) a = (b : NoSqlAdapter Unit) × (as_nosql store a ≡ ok b)
IsTyped (file_class fs) a = (b : FileAdapter Unit) × (as_file fs a ≡ ok b)
IsTyped kafka_class a = (b : KafkaAdapter Unit) × (as_kafka a ≡ ok b)

-- a constructor keeps the class of the config
pub normalised-table :
    (t : ReadAdapterType) (c : TableSourceConfig) → normalised t (table c) ≡ ok (table c)
unfolding normalised
normalised-table ReadAdapterType.sql c = refl
normalised-table ReadAdapterType.mysql c = refl
normalised-table ReadAdapterType.nosql c = refl
normalised-table ReadAdapterType.dynamodb c = refl
normalised-table ReadAdapterType.cassandra c = refl
normalised-table ReadAdapterType.file c = refl
normalised-table ReadAdapterType.s3 c = refl
normalised-table ReadAdapterType.kafka c = refl

table-IsTyped :
    (t : ReadAdapterType) (c : TableSourceConfig)
    → family t ≡ tables
    → IsTyped (registry t) (adapter_of t (table c))
unfolding registry family as_sql as_nosql
table-IsTyped ReadAdapterType.sql c h = (_, refl)
table-IsTyped ReadAdapterType.mysql c h = (_, refl)
table-IsTyped ReadAdapterType.nosql c h = (_, refl)
table-IsTyped ReadAdapterType.dynamodb c h = (_, refl)
table-IsTyped ReadAdapterType.cassandra c h = (_, refl)
table-IsTyped ReadAdapterType.file c h = absurd (cc)
table-IsTyped ReadAdapterType.s3 c h = absurd (cc)
table-IsTyped ReadAdapterType.kafka c h = absurd (cc)

path-IsTyped :
    (t : ReadAdapterType) (c : PathSourceConfig)
    → family t ≡ paths
    → (c' : SourceConfig) → normalised t (path c) ≡ ok c'
    → IsTyped (registry t) (adapter_of t c')
unfolding registry family as_file normalised
path-IsTyped ReadAdapterType.file c h c' e = rw (← (ok-injective e)) (_, refl)
path-IsTyped ReadAdapterType.s3 c h c' e =
    let (s, _, built) = >>=-eq-ok (method_text c.path) _ e in rw (← (ok-injective built)) (_, refl)
path-IsTyped ReadAdapterType.sql c h c' e = absurd (cc)
path-IsTyped ReadAdapterType.mysql c h c' e = absurd (cc)
path-IsTyped ReadAdapterType.nosql c h c' e = absurd (cc)
path-IsTyped ReadAdapterType.dynamodb c h c' e = absurd (cc)
path-IsTyped ReadAdapterType.cassandra c h c' e = absurd (cc)
path-IsTyped ReadAdapterType.kafka c h c' e = absurd (cc)

kafka-IsTyped :
    (t : ReadAdapterType) (c : KafkaSourceConfig)
    → family t ≡ topics
    → (c' : SourceConfig) → normalised t (kafka c) ≡ ok c'
    → IsTyped (registry t) (adapter_of t c')
unfolding registry family as_kafka normalised
kafka-IsTyped ReadAdapterType.kafka c h c' e = rw (← (ok-injective e)) (_, refl)
kafka-IsTyped ReadAdapterType.file c h c' e = absurd (cc)
kafka-IsTyped ReadAdapterType.s3 c h c' e = absurd (cc)
kafka-IsTyped ReadAdapterType.sql c h c' e = absurd (cc)
kafka-IsTyped ReadAdapterType.mysql c h c' e = absurd (cc)
kafka-IsTyped ReadAdapterType.nosql c h c' e = absurd (cc)
kafka-IsTyped ReadAdapterType.dynamodb c h c' e = absurd (cc)
kafka-IsTyped ReadAdapterType.cassandra c h c' e = absurd (cc)

source-IsTyped :
    (t : ReadAdapterType) (c c' : SourceConfig)
    → IsSource t c
    → normalised t c ≡ ok c'
    → IsTyped (registry t) (adapter_of t c')
source-IsTyped t (table c) c' h e =
    rw (ok-injective (sym e ∙ normalised-table t c)) (table-IsTyped t c h.typed)
source-IsTyped t (path c) c' h e = path-IsTyped t c h.typed c' e
source-IsTyped t (kafka c) c' h e = kafka-IsTyped t c h.typed c' e

-- An adapter that the read factory makes from a config of the source factory finds in the config every
-- attribute that its class reads: the two factories agree on the class of configs of each type.
pub create-IsTyped :
    (t : ReadAdapterType) (kwargs : Dict Value) (c : SourceConfig) (a : ReadAdapter)
    → Source.create t kwargs ≡ ok c
    → create t c ≡ ok a
    → IsTyped a.cls a
unfolding create
create-IsTyped t kwargs c a made built = of_config (normalised t c) refl built
  where
    of_config :
        (r : Result SourceConfig)
        → normalised t c ≡ r
        → (elim r [ ok c' ↦ ok (adapter_of t c') | err e ↦ err e ]) ≡ ok a
        → IsTyped a.cls a
    of_config (ok c') e h =
        rw (← (ok-injective h)) (source-IsTyped t c c' (create-IsSource t kwargs c made) e)
    of_config (err x) e h = cc
