-- ===== src/Init/Demo/Laws.antt =====
-- What the demo's init task leaves behind.
use batch_ingestion_service.Prelude.{ℕ, String, ◌≡◌, refl, ap, some, List, [], ◌∷◌}
use batch_ingestion_service.Py.Exc.{Exc, Result, ok, err}
use batch_ingestion_service.Py.Exec.{Exec, lift, ◌>>=◌, Keeps, bind-Keeps}
use batch_ingestion_service.Py.Exec.Resource.{Opens, Closes, bracket_closes}
use batch_ingestion_service.Py.Value.{
  Value, str_val, Dict, dict, lookup, get_item, get_or, as_dict, method_dict, method_text,
}
use batch_ingestion_service.Config.Kinds.{ReadAdapterType, read_type_of}
use batch_ingestion_service.Init.{Surroundings}
use batch_ingestion_service.Init.Planning.{TaskContext}
use batch_ingestion_service.Init.Pushed.{execute_refuses_kafka}
use batch_ingestion_service.Init.Max.Offsets.{split_comma}
use batch_ingestion_service.Init.Demo.{
  DemoInitOperator, Producers, producer_kwargs, records_of, send_all, seed_kafka, seed,
  prepare_demo, base_run, execute_demo,
}

-- What the calls of the demo do to the number of open producers.
pub record IsCounted {S K : Type 0} (producers : Producers S K)
    (get_secret : String → Value → Exec S Value) (generate_orders : ℕ → Exec S (List Value))
    (count : S → ℕ) : Type 0 where
  pub opens : (kwargs : Dict Value) → Opens count (producers.producer kwargs)
  pub sends : (k : K) (t v : Value) → Keeps count (producers.send k t v)
  pub flushes : (k : K) → Keeps count (producers.flush k)
  pub closed : Closes count producers.close
  pub secret : (conn : String) (ref : Value) → Keeps count (get_secret conn ref)
  pub generated : (n : ℕ) → Keeps count (generate_orders n)

module _ {S K C : Type 0} (w : Surroundings C) (producers : Producers S K)
    (get_secret : String → Value → Exec S Value) (generate_orders : ℕ → Exec S (List Value))
    (count : S → ℕ) (h : IsCounted producers get_secret generate_orders count) where
  lift-bind :
      {A B : Type 0} (r : Result A) (k : A → Exec S B)
      → ((a : A) → Keeps count (k a))
      → Keeps count (lift r >>= k)
  lift-bind r k p = bind-Keeps count (lift r) k (λ s. refl) p

  send_all-Keeps :
      (topic : Value) (rs : List Value) (k : K)
      → Keeps count (send_all w producers get_secret generate_orders topic rs k)
  unfolding send_all
  send_all-Keeps topic [] k = h.flushes k
  send_all-Keeps topic (r ∷ rs) k =
      bind-Keeps count (producers.send k topic r) _ (h.sends k topic r)
        (λ _. send_all-Keeps topic rs k)

  records_of-Keeps :
      (op : DemoInitOperator) → Keeps count (records_of w producers get_secret generate_orders op)
  unfolding records_of
  records_of-Keeps op = of_list op.demo_records
    where
      of_list :
          (rs : List Value)
          → Keeps count (elim rs [
            | [] ↦ generate_orders op.num_records
            | r ∷ rest ↦ (λ s. (ok (r ∷ rest), s))
          ])
      of_list [] = h.generated op.num_records
      of_list (r ∷ rest) = λ s. refl

  -- The seeding leaves as many producers open as there were, whether it returns or raises.
  pub seed_kafka-Keeps :
      (op : DemoInitOperator) (cfg : Dict Value)
      → Keeps count (seed_kafka w producers get_secret generate_orders op cfg)
  unfolding seed_kafka
  seed_kafka-Keeps op cfg = lift-bind (get_item "source" cfg) _ (λ source.
      lift-bind (as_dict source) _ (λ source_cfg.
        lift-bind (get_item "topic" source_cfg) _ (λ topic.
          lift-bind (get_item "credential_ref" source_cfg) _ (λ ref.
            bind-Keeps count (get_secret op.base.openbao_conn_id ref) _ (h.secret _ ref) (λ secret.
              lift-bind (method_dict secret) _ (λ credentials.
                lift-bind (method_text (get_or credentials "bootstrap_servers" (str_val ""))) _
                  (λ servers.
                    bind-Keeps count (records_of w producers get_secret generate_orders op) _
                      (records_of-Keeps op)
                      (λ records.
                        bracket_closes count
                          (producers.producer (producer_kwargs credentials (split_comma servers)))
                          (send_all w producers get_secret generate_orders topic records)
                          producers.close (h.opens _) (send_all-Keeps topic records)
                          h.closed))))))))

  seed-Keeps :
      (op : DemoInitOperator) (t : ReadAdapterType) (cfg : Dict Value)
      → Keeps count (seed w producers get_secret generate_orders op t cfg)
  unfolding seed
  seed-Keeps op ReadAdapterType.kafka cfg = seed_kafka-Keeps op cfg
  seed-Keeps op _ cfg = λ s. refl

  prepare_demo-Keeps :
      (op : DemoInitOperator) → Keeps count (prepare_demo w producers get_secret generate_orders op)
  unfolding prepare_demo
  prepare_demo-Keeps op = lift-bind (w.load_config op.base.config_path) _ (λ loaded.
      lift-bind (as_dict loaded) _ (λ cfg.
        lift-bind (get_item "read_type" cfg) _
          (λ raw. lift-bind (read_type_of raw) _ (λ t. seed-Keeps op t cfg))))

  base_run_refuses :
      (op : DemoInitOperator) (ctx : TaskContext) (config : Dict Value) (xcom : Dict Value)
      (r : Result (Unit {0}))
      → w.load_config op.base.config_path ≡ ok (dict config)
      → lookup "read_type" config ≡ some (str_val "kafka")
      → (e : Exc) × ((base_run w producers get_secret generate_orders op ctx r xcom).0 ≡ err e)
        × ((base_run w producers get_secret generate_orders op ctx r xcom).1 ≡ xcom)
  unfolding base_run
  base_run_refuses op ctx config xcom (ok _) loaded kafka =
      let (e, both) = execute_refuses_kafka w op.base ctx xcom config loaded kafka in
      (e, ap (λ p. p.0) both, ap (λ p. p.1) both)
  base_run_refuses op ctx config xcom (err e) loaded kafka = (e, refl, refl)

  -- With a configuration of a Kafka pipeline the demo's init task always raises, whether or not it
  -- sent its records, and pushes no context. Where a producer that opens is counted until it is
  -- closed, and nothing else changes the count, it leaves no producer open.
  pub execute_demo_refuses_kafka :
      (op : DemoInitOperator) (ctx : TaskContext) (config : Dict Value) (s : S) (xcom : Dict Value)
      → w.load_config op.base.config_path ≡ ok (dict config)
      → lookup "read_type" config ≡ some (str_val "kafka")
      → (e : Exc) × ((execute_demo w producers get_secret generate_orders op ctx (s, xcom)).0
          ≡ err e)
        × ((execute_demo w producers get_secret generate_orders op ctx (s, xcom)).1.1 ≡ xcom)
        × (count (execute_demo w producers get_secret generate_orders op ctx (s, xcom)).1.0
            ≡ count s)
  unfolding execute_demo
  execute_demo_refuses_kafka op ctx config s xcom loaded kafka =
      let seeded = prepare_demo w producers get_secret generate_orders op s in
      let (e, raised, kept) = base_run_refuses op ctx config xcom seeded.0 loaded kafka in
      (e, raised, kept, prepare_demo-Keeps op s)
