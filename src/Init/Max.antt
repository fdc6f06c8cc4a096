-- ===== src/Init/Max.antt =====
-- The other native queries for the largest checkpoint in orchestration/operators/init_operator.py, and
-- all of them as the queries of `_fetch_checkpoint_to`.
pub mod Stores
pub mod Files
pub mod Offsets
pub mod Laws
use batch_ingestion_service.Prelude.{String, Option, none, some, List}
use batch_ingestion_service.Py.Exc.{Result, ok, err, raise, attribute_error}
use batch_ingestion_service.Py.Exec.{Exec, lift}
use batch_ingestion_service.Py.Value.{Value, Dict}
use batch_ingestion_service.Config.Kinds.{ReadAdapterType}
use batch_ingestion_service.Config.Source.{
  SourceConfig, TableSourceConfig, PathSourceConfig, KafkaSourceConfig, table, path, kafka,
}
use batch_ingestion_service.Checkpoint.{Checkpoint}
use batch_ingestion_service.Init.Upper.{MaxQueries}
use batch_ingestion_service.Init.MaxSql.{Drivers, max_sql}
use Stores.{StoreClients, max_mongodb, max_dynamodb, max_cassandra}
use Files.{FileClients, max_file}
use Offsets.{Consumers, max_kafka}

-- an attribute that the config's class does not have
of_table : {S A : Type 0} → SourceConfig → (TableSourceConfig → Exec S A) → Exec S A
of_table (table c) k = k c
of_table _ k = lift (raise attribute_error "object has no attribute 'host'")

of_path : {S A : Type 0} → SourceConfig → (PathSourceConfig → Exec S A) → Exec S A
of_path (path c) k = k c
of_path _ k = lift (raise attribute_error "object has no attribute 'path'")

of_kafka : {S A : Type 0} → SourceConfig → (KafkaSourceConfig → Exec S A) → Exec S A
of_kafka (kafka c) k = k c
of_kafka _ k = lift (raise attribute_error "object has no attribute 'bootstrap_servers'")

module _ {S K M E C : Type 0} (repr : Value → String) (json_sorted : Value → Result String)
    (drivers : Drivers S K) (stores : StoreClients S M E) (files : FileClients S)
    (consumers : Consumers S C) where
  -- the queries, each on the source systems in the state `s`
  unfoldable pub native_queries : S → MaxQueries
  unfolding of_table of_path of_kafka
  native_queries s = record {
    max_sql = λ t c creds col. (of_table c (λ d. max_sql repr drivers t d creds col) s).0;
    max_mongodb = λ c creds col. (of_table c (λ d. max_mongodb repr stores d creds col) s).0;
    max_dynamodb = λ c creds col. (of_table c (λ d. max_dynamodb repr stores d creds col) s).0;
    max_cassandra = λ c creds col. (of_table c (λ d. max_cassandra repr stores d creds col) s).0;
    max_file = λ t c creds. (of_path c (λ d. max_file files repr t d creds) s).0;
    max_kafka = λ c creds. (of_kafka c (λ d. max_kafka repr json_sorted consumers d creds) s).0;
  }
