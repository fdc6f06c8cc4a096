-- ===== src/Write/Hadoop.antt =====
-- What adapters/write/hadoop_adapter.py and its two sinks ask of Spark, Hadoop, boto3 and the process.
use batch_ingestion_service.Prelude.{ℕ, String, Bool, List}
use batch_ingestion_service.Py.Exc.{Result}
use batch_ingestion_service.Py.Exec.{Exec}
use batch_ingestion_service.Py.Value.{Value, Dict}

-- `WriteMode` of adapters/write/base_write_adapter.py
pub data WriteMode : Type 0 where
  append overwrite upsert merge : WriteMode

-- `member.value`
unfoldable pub mode_value : WriteMode → String
mode_value append = "append"
mode_value overwrite = "overwrite"
mode_value upsert = "upsert"
mode_value merge = "merge"

-- a `DataFrameWriter` of PySpark, with what is set on it
pub record Writer : Type 0 where
  pub format : Value
  pub mode : String
  pub partition_by : List String

-- `S` is the state of the cluster, the file systems and the process, `D` the type of data frames and
-- `T` that of Spark's data types.
pub record Hadoop (S D T : Type 0) : Type 0 where
  -- the fields of a frame's schema, in their order
  pub fields : D → Dict T
  pub same_type : T → T → Bool
  pub type_text : T → String
  pub select : List String → D → Result D
  -- `df.withColumn(name, df[name].cast(type))`
  pub cast : String → T → D → Result D
  -- the call of `mode`, which refuses a mode that Spark does not know
  pub check_mode : String → Exec S Unit
  pub save : Writer → String → D → Exec S Unit
  pub set_env : String → String → Exec S Unit
  pub set_conf : String → Value → Exec S Unit
  pub login_from_keytab : Value → Value → Exec S Unit
  -- `FileUtil.copy` with `deleteSource` and `overwrite`
  pub copy : Value → String → Bool → Bool → Exec S Bool
  pub exists : String → Exec S Bool
  -- the status of `head_bucket`, by a client of a region and two keys
  pub head_bucket : Value → Value → Value → String → Exec S ℕ
  -- the text of a container
  pub repr : Value → String
  pub print : String → Exec S Unit
