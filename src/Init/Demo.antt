-- ===== src/Init/Demo.antt =====
-- orchestration/operators/demo_init_operator.py: the init task that first sends sample records to the
-- configured Kafka topic. The producer, the secret and the random records are parameters.
pub mod Laws
use batch_ingestion_service.Prelude.{
  ℕ, String, Bool, true, false, ◌&&◌, Option, none, some, List, [], ◌∷◌, if◌then◌else◌,
}
use batch_ingestion_service.Py.Exc.{Result, ok, err}
use batch_ingestion_service.Py.Exec.{Exec, pure, lift, continue, ensure, ◌>>=◌, ◌>>◌}
use batch_ingestion_service.Py.Value.{
  Value, none_val, str_val, list_val, Items, nil, cons, Dict, dict, truthy, get_or, get_item,
  insert, update, as_dict, method_text, method_dict,
}
use batch_ingestion_service.Config.Kinds.{ReadAdapterType, read_type_of}
use batch_ingestion_service.Init
use batch_ingestion_service.Init.{InitOperator, Surroundings}
use batch_ingestion_service.Init.Planning.{TaskContext}
use batch_ingestion_service.Init.Max.Offsets.{split_comma, texts, sasl_kwargs}

pub record DemoInitOperator : Type 0 where
  pub base : InitOperator
  pub num_records : ℕ
  pub demo_records : List Value

-- kafka-python's producer, whose `value_serializer` and `acks` the code always sets alike
pub record Producers (S K : Type 0) : Type 0 where
  pub producer : Dict Value → Exec S K
  pub send : K → Value → Value → Exec S Unit
  pub flush : K → Exec S Unit
  pub close : K → Exec S Unit

-- the keywords of the producer
unfoldable pub producer_kwargs : Dict Value → List String → Dict Value
unfolding texts sasl_kwargs get_or update
producer_kwargs credentials bootstrap_servers =
    update
      (("bootstrap_servers", list_val (texts bootstrap_servers)) ∷ ("acks", str_val "all") ∷ [])
      (sasl_kwargs (get_or credentials "sasl_username" none_val)
        (get_or credentials "sasl_password" none_val))

module _ {S K C : Type 0} (w : Surroundings C) (producers : Producers S K)
    (get_secret : String → Value → Exec S Value) (generate_orders : ℕ → Exec S (List Value)) where
  -- `self.demo_records or […]`
  unfoldable pub records_of : DemoInitOperator → Exec S (List Value)
  records_of op = elim op.demo_records [
    | [] ↦ generate_orders op.num_records
    | r ∷ rs ↦ pure (r ∷ rs)
  ]

  unfoldable pub send_all : Value → List Value → K → Exec S Unit
  send_all topic [] k = producers.flush k
  send_all topic (r ∷ rs) k = producers.send k topic r >> send_all topic rs k

  -- `_seed_kafka`
  unfoldable pub seed_kafka : DemoInitOperator → Dict Value → Exec S Unit
  unfolding get_item as_dict method_dict method_text get_or split_comma producer_kwargs records_of
      send_all
  seed_kafka op cfg = do
    source ← lift (get_item "source" cfg)
    source_cfg ← lift (as_dict source)
    topic ← lift (get_item "topic" source_cfg)
    credential_ref ← lift (get_item "credential_ref" source_cfg)
    secret ← get_secret op.base.openbao_conn_id credential_ref
    credentials ← lift (method_dict secret)
    servers ← lift (method_text (get_or credentials "bootstrap_servers" (str_val "")))
    records ← records_of op
    producer ← producers.producer (producer_kwargs credentials (split_comma servers))
    ensure (send_all topic records producer) (producers.close producer)

  seed : DemoInitOperator → ReadAdapterType → Dict Value → Exec S Unit
  unfolding seed_kafka
  seed op ReadAdapterType.kafka cfg = seed_kafka op cfg
  seed op _ cfg = pure tt

  -- the part of `execute` before that of `InitOperator`
  unfoldable pub prepare_demo : DemoInitOperator → Exec S Unit
  unfolding get_item as_dict seed
  prepare_demo op = do
    loaded ← lift (w.load_config op.base.config_path)
    cfg ← lift (as_dict loaded)
    raw_type ← lift (get_item "read_type" cfg)
    read_type ← lift (read_type_of raw_type)
    seed op read_type cfg

  -- `super().execute(context)`, when the part before it returned
  base_run :
      DemoInitOperator
      → TaskContext
      → Result (Unit {0})
      → Dict Value
      → Result (Dict Value) × Dict Value
  base_run op ctx (ok _) xcom = Init.execute w op.base ctx xcom
  base_run op ctx (err e) xcom = (err e, xcom)

  -- `execute`, on the state outside and on the values that the task has pushed
  unfoldable pub execute_demo : DemoInitOperator → TaskContext → Exec (S × Dict Value) (Dict Value)
  unfolding prepare_demo base_run
  execute_demo op ctx (s, xcom) =
      let seeded = prepare_demo op s in
      let r = base_run op ctx seeded.0 xcom in (r.0, (seeded.1, r.1))
