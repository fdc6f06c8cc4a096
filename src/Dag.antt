-- ===== src/Dag.antt =====
-- demo/airflow/dags/dag_factory.py: the DAG of each configuration file, and the files that changed.
-- Git, YAML and Airflow are parameters.
pub mod Files
pub mod Names
pub mod Laws
pub mod Template
pub mod Demos
use batch_ingestion_service.Prelude.{
  ℕ, String, ◌<>◌, ◌==◌, Bool, true, false, Option, none, some, List, [], ◌∷◌, if◌then◌else◌,
}
use batch_ingestion_service.Prelude.Int.{pos}
use batch_ingestion_service.Py.Exc.{
  Exc, Result, ok, err, raise, type_error, attribute_error, ◌>>=◌, ◌>>◌,
}
use batch_ingestion_service.Py.Value.{
  Value, none_val, bool_val, int_val, real_val, str_val, list_val, nil, cons, Dict, dict, get_or,
  get_item, insert, lookup, as_dict, method_dict,
}
use batch_ingestion_service.Config.Kinds.{MetricAdapterType, metric_type_of}
use batch_ingestion_service.Init.{InitOperator}
use batch_ingestion_service.Metric.Operator.Event.{MetricPushOperator}
use Files.{stem_of, sorted_names}

-- What `DAG` and the operators in it are given. The three tasks run one after another.
pub record Dag : Type 0 where
  pub dag_id : String
  pub description : Value
  pub schedule_interval : Value
  pub owner : Value
  pub retries : Value
  pub retry_delay_minutes : Value
  pub tags : Value
  pub init : InitOperator
  pub spark_config : Value
  pub metric_type : MetricAdapterType
  pub metric_config : Value

-- the last task of the DAG
unfoldable pub metric_push : Dag → MetricPushOperator
metric_push dag = record {
  metric_type = dag.metric_type;
  metric_config_raw = dag.metric_config;
  status = str_val "success";
  extra_payload = ("pipeline", str_val dag.dag_id) ∷ [];
  checkpoint_conn_id = str_val "postgres_checkpoint";
  spark_task_id = str_val "spark_run";
  openbao_conn_id = "openbao_default";
}

-- the first task of the DAG of a file
unfoldable pub init_of : String → InitOperator
init_of config_path = record {
  config_path = config_path;
  checkpoint_conn_id = "postgres_checkpoint";
  openbao_conn_id = "openbao_default";
  xcom_key = "run_context";
}

-- `timedelta(minutes=v)`
minutes_of : Value → Result Value
minutes_of (int_val z) = ok (int_val z)
minutes_of (bool_val b) = ok (bool_val b)
minutes_of (real_val r) = ok (real_val r)
minutes_of _ = raise type_error "unsupported type for timedelta minutes component"

-- `DAG(…)` of what a configuration says
unfoldable pub dag_of : String → String → Value → Result Dag
unfolding as_dict get_item get_or minutes_of init_of
dag_of config_path dag_id loaded = do
  cfg ← as_dict loaded
  metric_type ← metric_type_of (← get_item "metric_type" cfg)
  metric_config ← get_item "metric" cfg
  retry_delay ← minutes_of (get_or cfg "retry_delay_minutes" (int_val (pos 5)))
  ok (record {
    dag_id = dag_id;
    description = get_or cfg "description" (str_val ("Ingestion pipeline — " <> dag_id));
    schedule_interval = get_or cfg "schedule_interval" none_val;
    owner = get_or cfg "owner" (str_val "ingestion");
    retries = get_or cfg "retries" (int_val (pos 0));
    retry_delay_minutes = retry_delay;
    tags = get_or cfg "tags" (list_val (cons (str_val "ingestion") nil));
    init = init_of config_path;
    spark_config = get_or cfg "spark" (dict []);
    metric_type = metric_type;
    metric_config = metric_config;
  })

-- the dictionary without a key
unfoldable pub drop_key : String → Dict Dag → Dict Dag
drop_key k [] = []
drop_key k ((x, dag) ∷ globals) =
    let rest = drop_key k globals in if x == k then rest else (x, dag) ∷ rest

is_some : Option Dag → Bool
is_some none = false
is_some (some dag) = true

-- whether a DAG has taken the place of one of some names
unfoldable pub any_taken : List String → Dict Dag → Bool
unfolding lookup is_some
any_taken [] globals = false
any_taken (name ∷ names) globals =
    let rest = any_taken names globals in if is_some (lookup name globals) then true else rest

-- the names that the call of `_make_dag` looks up
abbrev pub made_with : List String
made_with =
    "_make_dag" ∷ "yaml" ∷ "_dag_id_from_path" ∷ "MetricAdapterType" ∷ "timedelta" ∷ "DAG"
    ∷ "days_ago" ∷ "InitOperator" ∷ "str" ∷ "SparkRunOperator" ∷ "MetricPushOperator" ∷ []

-- the names that the `except` clause looks up
abbrev pub reported_with : List String
reported_with = "Exception" ∷ "log" ∷ "_config_file" ∷ []

-- the names that the end of the `try` looks up
abbrev pub entered_with : List String
entered_with = "_config_file" ∷ "_recently_changed" ∷ "log" ∷ []

-- the `except` clause: it reports the file by two of the module's names and unbinds `exc`; when a DAG
-- has taken the place of a name that it needs, the import of the module ends
unfoldable pub reported : Dict Dag → Result (Dict Dag)
unfolding any_taken drop_key
reported globals =
    if any_taken reported_with globals
    then raise attribute_error "'DAG' object has no attribute 'error'"
    else ok (drop_key "exc" globals)

-- the rest of the `try`: the status and the report, and `_status` is a name of the module as well
unfoldable pub entered : Dict Dag → Result (Dict Dag)
unfolding any_taken drop_key reported
entered globals =
    if any_taken entered_with globals then reported globals else ok (drop_key "_status" globals)

unfoldable pub registered : Result Dag → Dict Dag → Result (Dict Dag)
unfolding insert any_taken reported entered
registered (ok dag) globals =
    let bound = insert "_dag" dag globals in
    if any_taken ("globals" ∷ []) bound
    then reported bound
    else entered (insert dag.dag_id dag bound)
registered (err e) globals = reported globals

-- The directory with its names, the text of a file parsed, and the tests of Airflow's constructors.
pub record Deployment : Type 0 where
  pub config_dir : String
  pub load_yaml : String → Result Value
  pub accepts : Dag → Result (Unit {0})

module _ (d : Deployment) where
  -- `str(config_path)` of a name in the directory
  abbrev pub path_to : String → String
  path_to name = d.config_dir <> "/" <> name

  -- `_make_dag`
  unfoldable pub make_dag : String → Result Dag
  unfolding stem_of dag_of
  make_dag name = do
    loaded ← d.load_yaml (path_to name)
    dag ← dag_of (path_to name) (stem_of name) loaded
    d.accepts dag
    ok dag

  -- `_make_dag(_config_file)` with the module's names as they are: a DAG that has taken the place of a
  -- function or a class cannot be called, and has no `safe_load`
  unfoldable pub made_in : Dict Dag → String → Result Dag
  unfolding any_taken make_dag
  made_in globals name =
      if any_taken made_with globals
      then raise type_error "'DAG' object is not callable"
      else make_dag name

  -- the loop of the registration, with the DAGs among the module's names
  unfoldable pub register : List String → Dict Dag → Result (Dict Dag)
  unfolding registered made_in
  register [] globals = ok globals
  register (name ∷ names) globals = registered (made_in globals name) globals >>= register names

  -- the module, of the names that `glob` gives
  unfoldable pub register_all : List String → Result (Dict Dag)
  unfolding register sorted_names
  register_all names = register (sorted_names names) []
