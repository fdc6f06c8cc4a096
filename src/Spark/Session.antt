-- ===== src/Spark/Session.antt =====
-- The configuration of the Spark session in orchestration/operators/spark_run_operator.py.
use batch_ingestion_service.Prelude.{String, none, some, [], ◌∷◌, if◌then◌else◌}
use batch_ingestion_service.Py.Value.{
  Value, none_val, str_val, Dict, truthy, get_or, lookup, insert, update,
}

-- the defaults of `_build_spark_session`
abbrev pub session_defaults : Dict Value
session_defaults =
    ("spark.sql.adaptive.enabled", str_val "true")
    ∷ ("spark.sql.adaptive.coalescePartitions.enabled", str_val "true")
    ∷ ("spark.serializer", str_val "org.apache.spark.serializer.KryoSerializer")
    ∷ []

set_default : String → Value → Dict Value → Dict Value
unfolding lookup insert
set_default k v d = elim (lookup k d) [ none ↦ insert k v d | some _ ↦ d ]

-- the operator's settings, with the source's jars where it sets none
unfoldable pub extra_config : Dict Value → Dict Value → Dict Value
unfolding set_default get_or truthy
extra_config spark_config source_extra =
    let jars = get_or source_extra "jars" none_val in
    if truthy jars then set_default "spark.jars" jars spark_config else spark_config

-- `{**defaults, **extra_config}`
unfoldable pub session_config : Dict Value → Dict Value → Dict Value
unfolding extra_config update
session_config spark_config source_extra =
    update session_defaults (extra_config spark_config source_extra)
