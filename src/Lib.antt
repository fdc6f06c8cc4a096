-- ===== src/Lib.antt =====
-- Verification library of the batch ingestion service: a pipeline of three Airflow tasks that copies
-- a table, a topic or files from a source system to a data lake.
--
-- The parts and how they interact. `InitOperator` (orchestration/operators/init_operator.py) reads the
-- configuration, builds a source and a sink config with the factories of adapters/factory, fetches
-- secrets with `OpenBaoHook` (orchestration/plugins/openbao_hook.py), reads the last checkpoint and
-- the largest value of the source, and pushes a `RunContext` (orchestration/operators/run_context.py)
-- as a dictionary. `SparkRunOperator` (orchestration/operators/spark_run_operator.py) reads it back,
-- makes the adapters and copies the data to the path of `build_write_path`
-- (adapters/write/base_write_adapter.py). `MetricPushOperator`
-- (orchestration/operators/metric_operator.py) publishes an event with an adapter of adapters/metric
-- and saves the upper checkpoint, from which the next run starts.
--
-- Files and code.
--   Prelude        shared names and tests over native numbers and texts.
--   Py             what the code uses of Python: exceptions as values (Exc), methods that change a
--                  state and may raise (Exec), `int` and `str` of numbers (Number), dates, `isoformat`
--                  and `fromisoformat` (Time), dynamic values and dictionaries (Value) and
--                  `PurePosixPath` (Path).
--   Config         the enumerations of adapters/factory/adapter_config.py (Kinds), the config classes of
--                  adapters/source/base_read_adapter.py with source_config_factory.py (Source), and
--                  `SinkConfig` with sink_config_factory.py (Sink).
--   Checkpoint     `_serialise_checkpoint`, `_deserialise_checkpoint` and `_parse_checkpoint`.
--   Context        `RunContext`, `to_dict` and `from_dict`.
--   Write          `build_write_path` (Path), and adapters/write: the schema check (Schema), `HadoopAdapter`
--                  with its two sinks and their factory (Sink), on an interface of Spark and Hadoop (Hadoop).
--   Secrets        `OpenBaoHook`: the state is the kept client.
--   Init           `InitOperator.execute`: Planning is its steps 1 to 3, Upper `_fetch_checkpoint_to`,
--                  Dynamo the loop of `_max_dynamodb`, MaxSql `_max_sql`, Max the other queries for
--                  the largest checkpoint; the state is the dictionary of pushed values. Demo is
--                  orchestration/operators/demo_init_operator.py.
--   Metric         the metric adapters and their factory (Adapter), and `MetricPushOperator`, whose state
--                  is that of the queues and the table of checkpoints by DAG (Operator).
--   Spark          `SparkRunOperator.execute` against an interface of the adapters, which Sinks fills
--                  with the sinks of Write and Sources with the adapters of Read; Task and Outcome
--                  put the whole task together.
--   Read           adapters/source: the SQL adapters (Sql), what the others share (Frames), the stores
--                  of nosql_adapter.py (NoSql), file_adapter.py (File), stream/source_kafka_adapter.py
--                  (Kafka), adapters/factory/read_adapter_factory.py (Factory), and the samples and
--                  counts of all of them (Sample).
--   Factory        adapters/factory/adapter_factory.py.
--   Dag            demo/airflow/dags/dag_factory.py: the DAGs of the configuration files, and the files
--                  that git says have changed (Files); orchestration/template_dags
--                  (Template), and the two demo DAGs (Demos).
--   Resume         a run and the run after it; History is any sequence of runs on one table, Rows the rows
--                  that the query of a read asks for, Windows the windows of such a sequence, and Once
--                  which of the runs read a row.
--   Tests          runs on concrete data.
--
-- How the code is read. A field of a configuration is a dynamic value, so that a missing or odd entry
-- of the YAML file behaves as in Python; dates are typed, as Airflow gives them. A mutation of a
-- shared config is written where it happens: the sink config holds the source config that
-- `inject_connection` or the S3 adapter changes. A call that may raise returns a `Result`; a method
-- that also changes a state returns the state that it leaves. Logging is left out; what the DAG factory
-- does when a DAG has taken the place of its logger is not.
--
-- Bounds. Every loop is structural recursion on a list or a text, and no function takes fuel. `int` of a
-- text takes ASCII digits and has no limit on their number; `fromisoformat` takes the extended form of
-- calendar dates with an offset in hours, minutes and seconds, and no week dates; `str` of a list or a
-- dictionary is a parameter. The keywords of a call are read by name. In a history
-- of runs, two runs of the same DAG do not overlap. XCom hands on the pushed dictionary as it is: Airflow's
-- JSON text of it is not modelled. A connection to the checkpoint database has the table as it was
-- committed and as its transaction leaves it; closing it raises nothing and keeps what was committed.
-- Of the names of the DAG factory's module, its state has those that hold a DAG; a name that the loop
-- looks up has its first meaning while it is not among them.
--
-- Parameters: hvac, Airflow's variables, connections and XCom, the environment, `json.dumps`, the
-- clients of Redis, SQS and Kafka, the drivers of PostgreSQL, MySQL, MongoDB and Cassandra, boto3, the
-- `hdfs` command, Spark and Hadoop, git and the YAML parser. What a theorem asks of them, such as that a
-- read changes no file, is a record of hypotheses.
-- Not modelled: the command line of the DAG factory, which prints the changed files, and the random
-- records of the demo.
pub mod Prelude
pub mod Py
pub mod Config
pub mod Checkpoint
pub mod Context
pub mod Write
pub mod Secrets
pub mod Init
pub mod Metric
pub mod Resume
pub mod Spark
pub mod Tests
pub mod Read
pub mod Dag
pub mod Factory
