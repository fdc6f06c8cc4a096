-- ===== src/Dag/Demos.antt =====
-- demo/airflow/dags/demo_postgres_to_hadoop.py and demo_kafka_to_hadoop.py, of the configuration that each
-- of them loads.
use batch_ingestion_service.Prelude.{String, [], ◌∷◌}
use batch_ingestion_service.Prelude.Int.{pos}
use batch_ingestion_service.Py.Exc.{Result, ok, ◌>>=◌}
use batch_ingestion_service.Py.Value.{
  Value, none_val, int_val, str_val, list_val, Items, nil, cons, dict, get_or, get_item, as_dict,
}
use batch_ingestion_service.Config.Kinds.{metric_type_of}
use batch_ingestion_service.Init.Demo.{DemoInitOperator}
use batch_ingestion_service.Metric.Operator.Event.{MetricPushOperator}
use batch_ingestion_service.Dag.{Dag, init_of, metric_push}

-- the DAG of a demo, with what differs between the two
demo_dag : String → String → String → Items → Value → Result Dag
unfolding as_dict get_item get_or init_of
demo_dag config_path dag_id description tags loaded = do
  cfg ← as_dict loaded
  metric_type ← metric_type_of (← get_item "metric_type" cfg)
  metric_config ← get_item "metric" cfg
  ok (record {
    dag_id = dag_id;
    description = str_val description;
    schedule_interval = none_val;
    owner = str_val "demo";
    retries = int_val (pos 0);
    retry_delay_minutes = int_val (pos 1);
    tags = list_val tags;
    init = init_of config_path;
    spark_config = get_or cfg "spark" (dict []);
    metric_type = metric_type;
    metric_config = metric_config;
  })

-- the last task of a demo
demo_metric_push : String → Dag → MetricPushOperator
unfolding metric_push
demo_metric_push pipeline dag = record (metric_push dag) {
  extra_payload = ("pipeline", str_val pipeline) ∷ [];
}

unfoldable pub demo_postgres_dag : Value → Result Dag
unfolding demo_dag
demo_postgres_dag loaded =
    demo_dag "/opt/airflow/app/config/pipeline_config.yaml" "demo_postgres_to_hadoop"
      "Demo: reads orders from PostgreSQL, writes Parquet to Hadoop HDFS"
      (cons (str_val "demo") (cons (str_val "ingestion") nil)) loaded

unfoldable pub demo_postgres_push : Dag → MetricPushOperator
unfolding demo_metric_push
demo_postgres_push dag = demo_metric_push "postgres_to_hadoop" dag

-- The first task of this one is `demo_kafka_init`.
unfoldable pub demo_kafka_dag : Value → Result Dag
unfolding demo_dag
demo_kafka_dag loaded =
    demo_dag "/opt/airflow/app/config/pipeline_config_kafka_to_hadoop.yaml" "demo_kafka_to_hadoop"
      "Demo: seeds Kafka with orders, reads via Spark, writes Parquet to HDFS"
      (cons (str_val "demo") (cons (str_val "ingestion") (cons (str_val "kafka") nil))) loaded

unfoldable pub demo_kafka_init : Dag → DemoInitOperator
demo_kafka_init dag = record { base = dag.init; num_records = 200; demo_records = [] }

unfoldable pub demo_kafka_push : Dag → MetricPushOperator
unfolding demo_metric_push
demo_kafka_push dag = demo_metric_push "kafka_to_hadoop" dag
