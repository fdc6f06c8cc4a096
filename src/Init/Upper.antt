-- ===== src/Init/Upper.antt =====
-- `_fetch_checkpoint_to` of orchestration/operators/init_operator.py and the query of SQL sources.
use batch_ingestion_service.Prelude.{Option, none, if◌then◌else◌}
use batch_ingestion_service.Py.Exc.{Result, ok, err}
use batch_ingestion_service.Py.Value.{Value, none_val, Dict, truthy}
use batch_ingestion_service.Config.Kinds.{ReadAdapterType}
use batch_ingestion_service.Config.Source.{SourceConfig, table, path, kafka}
use batch_ingestion_service.Checkpoint.{Checkpoint}

-- the native queries for the largest checkpoint of a source
pub record MaxQueries : Type 0 where
  pub max_sql : ReadAdapterType → SourceConfig → Dict Value → Value → Result (Option Checkpoint)
  pub max_mongodb : SourceConfig → Dict Value → Value → Result (Option Checkpoint)
  pub max_dynamodb : SourceConfig → Dict Value → Value → Result (Option Checkpoint)
  pub max_cassandra : SourceConfig → Dict Value → Value → Result (Option Checkpoint)
  pub max_file : ReadAdapterType → SourceConfig → Dict Value → Result (Option Checkpoint)
  pub max_kafka : SourceConfig → Dict Value → Result (Option Checkpoint)

-- `getattr(source_config, "checkpoint_column", None)`
unfoldable pub checkpoint_column : SourceConfig → Value
checkpoint_column (table c) = c.checkpoint_column
checkpoint_column (path c) = c.checkpoint_column
checkpoint_column (kafka c) = none_val

-- `except Exception`: log, and go on without an upper bound
abbrev pub or_none : Result (Option Checkpoint) → Option Checkpoint
or_none (ok c) = c
or_none (err e) = none

module _ (q : MaxQueries) where
  query_by_type : ReadAdapterType → SourceConfig → Dict Value → Value → Result (Option Checkpoint)
  query_by_type ReadAdapterType.sql c creds col = q.max_sql ReadAdapterType.sql c creds col
  query_by_type ReadAdapterType.mysql c creds col = q.max_sql ReadAdapterType.mysql c creds col
  query_by_type ReadAdapterType.nosql c creds col = q.max_mongodb c creds col
  query_by_type ReadAdapterType.dynamodb c creds col = q.max_dynamodb c creds col
  query_by_type ReadAdapterType.cassandra c creds col = q.max_cassandra c creds col
  query_by_type ReadAdapterType.file c creds col = q.max_file ReadAdapterType.file c creds
  query_by_type ReadAdapterType.s3 c creds col = q.max_file ReadAdapterType.s3 c creds
  query_by_type ReadAdapterType.kafka c creds col = ok none

  bounded_by_column : ReadAdapterType → SourceConfig → Dict Value → Value → Option Checkpoint
  unfolding query_by_type
  bounded_by_column t c creds col =
      if truthy col then or_none (query_by_type t c creds col) else none

  -- `_fetch_checkpoint_to`
  unfoldable pub fetch_checkpoint_to :
      ReadAdapterType → SourceConfig → Dict Value → Option Checkpoint
  unfolding bounded_by_column checkpoint_column
  fetch_checkpoint_to ReadAdapterType.kafka c creds = or_none (q.max_kafka c creds)
  fetch_checkpoint_to t c creds = bounded_by_column t c creds (checkpoint_column c)
