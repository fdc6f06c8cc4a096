-- ===== src/Init/Pushed.antt =====
-- What the init task pushes for the tasks after it, and when it pushes nothing.
use batch_ingestion_service.Prelude.{◌≡◌, refl, sym, ◌∙◌, some, eq_refl}
use batch_ingestion_service.Py.Exc.{Exc, Result, ok, err, ok-injective}
use batch_ingestion_service.Py.Time.Laws.{IsTime}
use batch_ingestion_service.Py.Value.{Value, str_val, Dict, dict, lookup, get_item, as_dict}
use batch_ingestion_service.Py.Value.Laws.{lookup-insert, entries-fields}
use batch_ingestion_service.Config.Kinds.{ReadAdapterType, read_type_of}
use batch_ingestion_service.Config.Source.{SourceConfig, table, path, kafka, family}
use batch_ingestion_service.Config.Source.Laws.{IsSource}
use batch_ingestion_service.Config.Sink.Laws.{IsTableOrPath}
use batch_ingestion_service.Checkpoint.Laws.{CheckpointOk}
use batch_ingestion_service.Context.{RunContext, to_dict, from_dict}
use batch_ingestion_service.Context.RoundTrip.{without_sink_extra, from_dict-to_dict}
use batch_ingestion_service.Init.{
  InitOperator, Surroundings, connect_planned, prepare, push, execute,
}
use batch_ingestion_service.Init.Planning.{TaskContext, Plan, plan_of, load_plan}
use batch_ingestion_service.Init.Laws.{plan_of-IsPlan}
use batch_ingestion_service.Init.Context.{prepare-IsContext}

table_or_path_is_no_topic :
    (c : SourceConfig) → IsSource ReadAdapterType.kafka c → IsTableOrPath c → ⊥
unfolding family
table_or_path_is_no_topic (table c) s h = let e = s.typed in cc
table_or_path_is_no_topic (path c) s h = let e = s.typed in cc
table_or_path_is_no_topic (kafka c) s h = h

plan_of_refuses_kafka :
    (ctx : TaskContext) (config : Dict Value) (p : Plan)
    → lookup "read_type" config ≡ some (str_val "kafka")
    → plan_of ctx (dict config) ≡ ok p
    → ⊥
unfolding as_dict get_item read_type_of
plan_of_refuses_kafka ctx config p k h =
    let plan = plan_of-IsPlan ctx (dict config) p h in
    let same : plan.config ≡ config = sym (ok-injective plan.is_dict) ∙ entries-fields config in
    let given : ok (str_val "kafka") ≡ ok plan.given =
      (rw (same, get_item, k) at plan.read_type_given) in
    let typed : ok ReadAdapterType.kafka ≡ ok p.read_type =
      (rw (← (ok-injective given)) at plan.read_type_read) in
    table_or_path_is_no_topic p.source_config (rw (← (ok-injective typed)) at plan.source)
      plan.table_or_path

module _ {C : Type 0} (w : Surroundings C) where
  -- A task that prepares a context returns its dictionary and pushes it under its key, and what is
  -- found there reads back as that context without the sink's `extra`. The start of the data
  -- interval and the checkpoints that are times are valid times.
  pub execute_pushes_context :
      (op : InitOperator) (ctx : TaskContext) (xcom : Dict Value) (c : RunContext)
      → prepare w op ctx ≡ ok c
      → IsTime ctx.data_interval_start
      → CheckpointOk c.checkpoint_from
      → CheckpointOk c.checkpoint_to
      → ((execute w op ctx xcom).0 ≡ ok (to_dict c))
        × (lookup op.xcom_key (execute w op ctx xcom).1 ≡ some (dict (to_dict c)))
        × (from_dict w.repr (to_dict c) ≡ ok (without_sink_extra c))
  unfolding execute push
  execute_pushes_context op ctx xcom c h time from_ok to_ok = (
    rw h refl,
    rw (h, lookup-insert op.xcom_key op.xcom_key (dict (to_dict c)) xcom, eq_refl op.xcom_key) refl,
    from_dict-to_dict w.repr c (prepare-IsContext w op ctx c h time from_ok to_ok),
  )

  -- A configuration whose `read_type` is "kafka" makes the task raise, and nothing is pushed.
  pub execute_refuses_kafka :
      (op : InitOperator) (ctx : TaskContext) (xcom : Dict Value) (config : Dict Value)
      → w.load_config op.config_path ≡ ok (dict config)
      → lookup "read_type" config ≡ some (str_val "kafka")
      → (e : Exc) × (execute w op ctx xcom ≡ (err e, xcom))
  unfolding execute push prepare load_plan connect_planned
  execute_refuses_kafka op ctx xcom config h k = rw h (by_plan (plan_of ctx (dict config)) refl)
    where
      by_plan :
          (r : Result Plan)
          → plan_of ctx (dict config) ≡ r
          → (e : Exc) × (push w op (connect_planned w op ctx r) xcom ≡ (err e, xcom))
      by_plan (ok p) e = absurd (plan_of_refuses_kafka ctx config p k e)
      by_plan (err x) e = (x, refl)
