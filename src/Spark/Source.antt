-- ===== src/Spark/Source.antt =====
-- The source config that `SourceS3Adapter.__init__` of adapters/source/file/source_s3_adapter.py
-- leaves, in the place of the one that it was given.
use batch_ingestion_service.Prelude.{String, ◌<>◌, Option, none, some, code, nat_eq, if◌then◌else◌}
use batch_ingestion_service.Py.Exc.{Result, ok, ◌>>=◌}
use batch_ingestion_service.Py.Value.{Value, str_val, method_text}
use batch_ingestion_service.Config.Kinds.{ReadAdapterType}
use batch_ingestion_service.Config.Source.{SourceConfig, path}

-- what follows a prefix
unfoldable pub cut_prefix : String → String → Option String
cut_prefix String.[] s = some s
cut_prefix (String.◌∷◌ c p) String.[] = none
cut_prefix (String.◌∷◌ c p) (String.◌∷◌ d s) =
    let rest = cut_prefix p s in if nat_eq (code c) (code d) then rest else none

unfoldable pub s3a_path : Value → String → Value
unfolding cut_prefix
s3a_path v s = elim (cut_prefix "s3://" s) [ none ↦ v | some rest ↦ str_val ("s3a://" <> rest) ]

-- An S3 source gets its path for the S3A connector; any other source stays as it is.
unfoldable pub normalised : ReadAdapterType → SourceConfig → Result SourceConfig
unfolding s3a_path method_text
normalised ReadAdapterType.s3 (path c) = do
  s ← method_text c.path
  ok (path (record c { path = s3a_path c.path s }))
normalised t c = ok c
