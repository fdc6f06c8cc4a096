-- ===== src/Read/File.antt =====
-- adapters/source/file_adapter.py with its two file systems of adapters/source/file. The Spark task
-- copies the files of such a source; these reads are for other callers.
use batch_ingestion_service.Prelude.{
  ℕ, String, ◌<>◌, Bool, Option, some, List, [], ◌∷◌, ◌++◌, if◌then◌else◌, length,
}
use batch_ingestion_service.Py.Exc.{Result, ok, raise, attribute_error}
use batch_ingestion_service.Py.Exec.{Exec, pure, lift, ◌>>=◌, ◌>>◌}
use batch_ingestion_service.Py.Value.{
  Value, none_val, str_val, enum_val, Dict, truthy, str_of, get_or, method_dict,
}
use batch_ingestion_service.Config.Source.{PathSourceConfig}
use batch_ingestion_service.Checkpoint.{Checkpoint}
use batch_ingestion_service.Write.Hadoop.{Hadoop}
use batch_ingestion_service.Write.Sink.{set_all, configure_hdfs}
use batch_ingestion_service.Read.Frames.{Frames, given, above, updated}

-- `SourceHadoopAdapter` and `SourceS3Adapter`
pub data FileSystem : Type 0 where
  hdfs s3a : FileSystem

-- `post_filters` is the entry of that name in the adapter's read options.
pub record FileAdapter (T : Type 0) : Type 0 where
  pub file_system : FileSystem
  pub source_config : PathSourceConfig
  pub credentials : Value
  pub schema : Option (Dict T)
  pub filters : Dict Value
  pub checkpoint_from : Option Checkpoint
  pub checkpoint_to : Option Checkpoint
  pub post_filters : Dict Value

-- the settings of the S3A connector for a read
unfoldable pub s3a_read_settings : Dict Value → Dict Value
unfolding get_or truthy
s3a_read_settings credentials =
    let aws_endpoint = get_or credentials "aws_endpoint" none_val in
    (("fs.s3a.access.key", get_or credentials "aws_access_key_id" (str_val ""))
      ∷ ("fs.s3a.secret.key", get_or credentials "aws_secret_access_key" (str_val ""))
      ∷ ("fs.s3a.endpoint.region", get_or credentials "aws_region" (str_val "us-east-1"))
      ∷ ("fs.s3a.impl", str_val "org.apache.hadoop.fs.s3a.S3AFileSystem")
      ∷ (
        "fs.s3a.aws.credentials.provider",
        str_val "org.apache.hadoop.fs.s3a.SimpleAWSCredentialsProvider",
      )
      ∷ [])
    ++ (if truthy aws_endpoint
        then ("fs.s3a.endpoint", aws_endpoint) ∷ ("fs.s3a.path.style.access", str_val "true") ∷ []
        else [])

-- `file_format.value`: a `str` of the YAML file has no such attribute
unfoldable pub format_value : Value → Result Value
format_value (enum_val _ v) = ok (str_val v)
format_value _ = raise attribute_error "object has no attribute 'value'"

-- `apply_filters`
unfoldable pub apply_filters : {T : Type 0} → FileAdapter T → FileAdapter T
apply_filters a = elim a.filters [ [] ↦ a | kv ∷ fs ↦ record a { post_filters = kv ∷ fs } ]

-- an entry of `listStatus`
pub record FileStatus : Type 0 where
  pub path : String
  pub is_directory : Bool

-- `_list_files`, of the entries below the path
unfoldable pub list_files : List FileStatus → List String
list_files [] = []
list_files (s ∷ statuses) =
    let rest = list_files statuses in if s.is_directory then rest else s.path ∷ rest

module _ (repr : Value → String) {S D T : Type 0} (h : Hadoop S D T) (f : Frames S D T)
    (list_status : Value → Exec S (List FileStatus)) (path_exists : Value → Exec S Bool) where
  -- `_configure_spark_for_filesystem`
  unfoldable pub configure : FileAdapter T → Exec S Unit
  unfolding method_dict configure_hdfs set_all s3a_read_settings
  configure a = do
    credentials ← lift (method_dict a.credentials)
    elim a.file_system [
      | hdfs ↦ configure_hdfs h credentials
      | s3a ↦ set_all h (s3a_read_settings credentials)
    ]

  -- the filters of the adapter, each on the frame that the last one left
  unfoldable pub filter_all : Dict Value → D → Exec S D
  unfolding str_of
  filter_all [] df = pure df
  filter_all ((col, expr) ∷ filters) df =
      lift (f.filter (col <> " " <> str_of repr expr) df) >>= filter_all filters

  -- `read`, with the adapter that it leaves
  unfoldable pub read : FileAdapter T → Exec S (D × FileAdapter T)
  unfolding configure format_value above filter_all updated
  read a = do
    configure a
    fmt ← lift (format_value a.source_config.file_format)
    df ← f.load fmt [] (given a.schema) (some a.source_config.path)
    bounded ← lift (above repr f a.source_config.checkpoint_column a.checkpoint_from df)
    filtered ← filter_all a.post_filters bounded
    to ← updated repr f a.source_config.checkpoint_column a.checkpoint_to filtered
    pure (filtered, record a { checkpoint_to = to })

  -- `validate_connection`
  unfoldable pub validate_connection : FileAdapter T → Exec S Bool
  unfolding configure
  validate_connection a = do configure a; path_exists a.source_config.path

  -- `get_record_count`
  unfoldable pub get_record_count : FileAdapter T → Exec S ℕ
  unfolding configure list_files
  get_record_count a = do
    configure a
    statuses ← list_status a.source_config.path
    pure (length (list_files statuses))
