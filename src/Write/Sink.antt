-- ===== src/Write/Sink.antt =====
-- adapters/write/hadoop_adapter.py with its sinks of adapters/write/sink, and
-- adapters/factory/write_adapter_factory.py.
pub mod Laws
pub mod Endpoint
pub mod Probes
use Prim.Native.String
use batch_ingestion_service.Prelude.{
  ℕ, code, String, ◌<>◌, Bool, true, false, ◌&&◌, Option, none, some, List, [], ◌∷◌, ◌++◌, nat_eq,
  is_empty, if◌then◌else◌,
}
use mathlib.Core.Bool.{cond}
use batch_ingestion_service.Prelude.Int.{pos}
use batch_ingestion_service.Py.Exc.{Exc, Result, ok, err, raise, runtime_error}
use batch_ingestion_service.Py.Exec.{Exec, pure, lift, continue, ◌>>=◌, ◌>>◌, catch}
use batch_ingestion_service.Py.Value.{
  Value, none_val, str_val, int_val, Dict, truthy, str_of, get_or, as_text, method_text,
  method_dict,
}
use batch_ingestion_service.Py.Path.{split_slash}
use batch_ingestion_service.Config.Kinds.{WriteAdapterType}
use batch_ingestion_service.Config.Sink.{SinkConfig}
use batch_ingestion_service.Write.Path.{build_write_path}
use batch_ingestion_service.Write.Hadoop.{WriteMode, append, mode_value, Writer, Hadoop}
use batch_ingestion_service.Write.Schema.{validate_schema, pre_write}
use batch_ingestion_service.Spark.Source.{cut_prefix, s3a_path}

-- The attributes of `SinkHadoopAdapter` and of `SinkS3Adapter`.
pub record Sink (T : Type 0) : Type 0 where
  pub write_type : WriteAdapterType
  pub sink_config : SinkConfig
  pub credentials : Value
  pub write_mode : WriteMode
  pub partition_by : List String
  pub batch_size : Value
  pub schema : Option (Dict T)
  pub file_format : Value

-- the sink config that the constructor leaves: `SinkS3Adapter` rewrites the endpoint
unfoldable pub sink_config_of : WriteAdapterType → SinkConfig → Result SinkConfig
unfolding method_text s3a_path
sink_config_of WriteAdapterType.hadoop cfg = ok cfg
sink_config_of WriteAdapterType.s3 cfg = elim (method_text cfg.endpoint) [
  | ok s ↦ ok (record cfg { endpoint = s3a_path cfg.endpoint s })
  | err e ↦ err e
]

abbrev pub sink_with : {T : Type 0} → WriteAdapterType → Value → Value → SinkConfig → Sink T
sink_with t credentials file_format cfg = record {
  write_type = t;
  sink_config = cfg;
  credentials = credentials;
  write_mode = append;
  partition_by = [];
  batch_size = int_val (pos 10_000);
  schema = none;
  file_format = file_format;
}

abbrev built : {T : Type 0} → WriteAdapterType → Value → Value → Result SinkConfig → Result (Sink T)
built t credentials file_format (ok cfg) = ok (sink_with t credentials file_format cfg)
built t credentials file_format (err e) = err e

-- `WriteAdapterFactory.create`
unfoldable pub create : {T : Type 0} → WriteAdapterType → SinkConfig → Value → Result (Sink T)
unfolding sink_config_of
create t cfg credentials = built t credentials cfg.file_format (sink_config_of t cfg)

-- `s.rstrip("/")`
unfoldable pub rstrip_slash : String → String
rstrip_slash String.[] = ""
rstrip_slash (String.◌∷◌ c s) =
    let rest = rstrip_slash s in
    if nat_eq (code c) b'/' && is_empty rest then "" else String.◌∷◌ c rest

-- `s.replace("s3a://", by)`: in `s`, of which the first `n` characters are dropped
unfoldable pub replace_s3a : String → ℕ → String → String
unfolding cut_prefix
replace_s3a by n String.[] = ""
replace_s3a by (ℕ.suc n) (String.◌∷◌ c s) = replace_s3a by n s
replace_s3a by ℕ.zero (String.◌∷◌ c s) =
    let kept = String.◌∷◌ c (replace_s3a by 0 s) in
    let cut = by <> replace_s3a by 5 s in
    elim (cut_prefix "s3a://" (String.◌∷◌ c s)) [ none ↦ kept | some _ ↦ cut ]

first_of : List String → String
first_of [] = ""
first_of (x ∷ xs) = x

-- the bucket of an endpoint
unfoldable pub bucket_of : String → String
unfolding replace_s3a split_slash first_of
bucket_of endpoint = first_of (split_slash (replace_s3a "" 0 endpoint))

-- the settings of the S3A connector
unfoldable pub s3a_settings : Dict Value → Dict Value
unfolding get_or truthy
s3a_settings credentials =
    let aws_endpoint = get_or credentials "aws_endpoint" none_val in
    (("fs.s3a.access.key", get_or credentials "aws_access_key_id" (str_val ""))
      ∷ ("fs.s3a.secret.key", get_or credentials "aws_secret_access_key" (str_val ""))
      ∷ ("fs.s3a.endpoint.region", get_or credentials "aws_region" (str_val "us-east-1"))
      ∷ ("fs.s3a.impl", str_val "org.apache.hadoop.fs.s3a.S3AFileSystem")
      ∷ (
        "fs.s3a.aws.credentials.provider",
        str_val "org.apache.hadoop.fs.s3a.SimpleAWSCredentialsProvider",
      )
      ∷ ("fs.s3a.fast.upload", str_val "true")
      ∷ ("fs.s3a.fast.upload.buffer", str_val "bytebuffer")
      ∷ [])
    ++ (if truthy aws_endpoint
        then ("fs.s3a.endpoint", aws_endpoint) ∷ ("fs.s3a.path.style.access", str_val "true") ∷ []
        else [])

module _ {S D T : Type 0} (h : Hadoop S D T) where
  unfoldable pub set_all : Dict Value → Exec S Unit
  set_all [] = pure tt
  set_all ((k, v) ∷ settings) = h.set_conf k v >> set_all settings

  put_user : Value → Exec S Unit
  unfolding as_text
  put_user user = do name ← lift (as_text user); h.set_env "HADOOP_USER_NAME" name

  set_user : Value → Exec S Unit
  unfolding truthy put_user
  set_user user = if truthy user then put_user user else pure tt

  kerberos : Value → Value → Exec S Unit
  kerberos principal keytab = do
    h.set_conf "hadoop.security.authentication" (str_val "kerberos")
    h.set_conf "dfs.namenode.kerberos.principal" principal
    h.login_from_keytab principal keytab

  login : Value → Value → Exec S Unit
  unfolding truthy kerberos
  login principal keytab =
      if truthy principal && truthy keytab then kerberos principal keytab else pure tt

  unfoldable pub configure_hdfs : Dict Value → Exec S Unit
  unfolding get_or set_user login
  configure_hdfs credentials = do
    set_user (get_or credentials "hdfs_user" none_val)
    login (get_or credentials "kerberos_principal" none_val)
        (get_or credentials "kerberos_keytab" none_val)

  -- `_configure_spark_for_filesystem`
  unfoldable pub configure : Sink T → Exec S Unit
  unfolding method_dict configure_hdfs set_all s3a_settings
  configure a = do
    credentials ← lift (method_dict a.credentials)
    elim a.write_type [
      | WriteAdapterType.hadoop ↦ configure_hdfs credentials
      | WriteAdapterType.s3 ↦ set_all (s3a_settings credentials)
    ]

  class_name : WriteAdapterType → String
  class_name WriteAdapterType.hadoop = "SinkHadoopAdapter"
  class_name WriteAdapterType.s3 = "SinkS3Adapter"

  -- `post_write`
  unfoldable pub post_write : Sink T → Exec S Unit
  unfolding build_write_path class_name
  post_write a = do
    write_path ← lift (build_write_path a.sink_config)
    h.print ("[" <> class_name a.write_type <> "] Write complete → " <> write_path)

  -- `on_error`
  unfoldable pub on_error : Sink T → Exc → Exec S Unit
  unfolding build_write_path class_name
  on_error a e = do
    write_path ← lift (build_write_path a.sink_config)
    h.print (
        "["
        <> class_name a.write_type
        <> "] Write failed → "
        <> write_path
        <> " | error: "
        <> e.message)

  -- `except Exception as exc: self.on_error(exc); raise`
  unfoldable pub reraised : Sink T → Exc → {A : Type 0} → Exec S A
  unfolding on_error
  reraised a e = on_error a e >> lift (err e)

  abbrev pub writer_of : Sink T → Writer
  writer_of a = record {
    format = a.file_format;
    mode = mode_value a.write_mode;
    partition_by = a.partition_by;
  }

  -- the `try` of `write`
  unfoldable pub write_body : Sink T → D → Exec S Unit
  unfolding configure validate_schema pre_write build_write_path mode_value post_write
  write_body a df = do
    configure a
    valid ← lift (validate_schema h a.schema df)
    frame ← lift (pre_write h a.schema df)
    write_path ← lift (build_write_path a.sink_config)
    h.check_mode (mode_value a.write_mode)
    h.save (writer_of a) write_path frame
    post_write a

  -- `write`
  unfoldable pub write : Sink T → D → Exec S Unit
  unfolding write_body reraised
  write a df = catch (write_body a df) (λ e. reraised a e)

  copied : Value → String → Bool → Result (Unit {0})
  unfolding str_of
  copied source_path dest_path true = ok tt
  copied source_path dest_path false =
      raise runtime_error
        ("Hadoop FileUtil.copy returned false: " <> str_of h.repr source_path <> " → " <> dest_path)

  -- the `try` of `copy_from`
  unfoldable pub copy_body : Sink T → Value → String → Exec S Unit
  unfolding configure copied post_write
  copy_body a source_path dest_path = do
    configure a
    done ← h.copy source_path dest_path false true
    lift (copied source_path dest_path done)
    post_write a

  -- `copy_from`
  unfoldable pub copy_from : Sink T → Value → String → Exec S Unit
  unfolding copy_body reraised
  copy_from a source_path dest_path = catch (copy_body a source_path dest_path) (λ e. reraised a e)

  -- `HadoopAdapter.validate_connection`
  unfoldable pub root_exists : Sink T → Exec S Bool
  unfolding configure method_text rstrip_slash
  root_exists a = do
    configure a
    endpoint ← lift (method_text a.sink_config.endpoint)
    h.exists (rstrip_slash endpoint <> "/")

  unfoldable pub bucket_answers : Sink T → Dict Value → Exec S Bool
  unfolding get_or method_text bucket_of
  bucket_answers a credentials = do
    endpoint ← lift (method_text a.sink_config.endpoint)
    status ←
        h.head_bucket (get_or credentials "aws_region" none_val)
          (get_or credentials "aws_access_key_id" none_val)
          (get_or credentials "aws_secret_access_key" none_val) (bucket_of endpoint)
    pure (nat_eq status 200)

  -- `SinkS3Adapter.validate_connection`
  unfoldable pub s3_answers : Sink T → Exec S Bool
  unfolding method_dict get_or truthy root_exists bucket_answers
  s3_answers a = do
    credentials ← lift (method_dict a.credentials)
    cond (truthy (get_or credentials "aws_endpoint" none_val)) (root_exists a)
        (bucket_answers a credentials)

  -- `validate_connection`
  unfoldable pub validate_connection : Sink T → Exec S Bool
  unfolding root_exists s3_answers
  validate_connection a = elim a.write_type [
    | WriteAdapterType.hadoop ↦ root_exists a
    | WriteAdapterType.s3 ↦ s3_answers a
  ]
