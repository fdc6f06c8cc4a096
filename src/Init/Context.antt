-- ===== src/Init/Context.antt =====
-- The context that the init task makes is one that survives its trip.
use batch_ingestion_service.Prelude.{◌≡◌, refl, none, Option, arith}
use batch_ingestion_service.Py.Exc.{Result, ok, err, >>=-eq-ok, ok-injective}
use batch_ingestion_service.Py.Exec.{continue-eq-ok}
use batch_ingestion_service.Py.Time.Laws.{IsTime}
use batch_ingestion_service.Py.Value.{Value, str_val, Dict, get_or, as_dict, method_dict}
use batch_ingestion_service.Config.Source
use batch_ingestion_service.Config.Source.{SourceConfig, table, path, kafka}
use batch_ingestion_service.Config.Source.Laws.{inject_connection-IsSource}
use batch_ingestion_service.Config.Sink
use batch_ingestion_service.Config.Sink.Laws.{IsTableOrPath}
use batch_ingestion_service.Checkpoint.{Checkpoint}
use batch_ingestion_service.Checkpoint.Laws.{CheckpointOk}
use batch_ingestion_service.Context.{RunContext}
use batch_ingestion_service.Context.RoundTrip.{IsContext}
use batch_ingestion_service.Secrets.{Hook, get_secret}
use batch_ingestion_service.Init.{
  InitOperator, Surroundings, source_ref, metric_secret, fetch_checkpoint_from, connect, context_of,
  connect_planned, prepare,
}
use batch_ingestion_service.Init.Planning.{TaskContext, Plan, plan_of, load_plan}
use batch_ingestion_service.Init.Laws.{IsPlan, plan_of-IsPlan}

inject_connection-IsTableOrPath :
    (c c' : SourceConfig) (credentials : Dict Value)
    → IsTableOrPath c
    → Source.inject_connection c credentials ≡ ok c'
    → IsTableOrPath c'
unfolding Source.inject_connection
inject_connection-IsTableOrPath (table c) c' credentials s h = ground arith
inject_connection-IsTableOrPath (path c) c' credentials s h = ground arith
inject_connection-IsTableOrPath (kafka c) c' credentials s h = absurd s

module _ {C : Type 0} (w : Surroundings C) where
  -- the values that the calls before the last step gave
  record Connected (op : InitOperator) (ctx : TaskContext) (p : Plan) (c : RunContext)
      : Type 0 where
    source_config : SourceConfig
    source_secret : Value
    source_credentials : Dict Value
    sink_secret : Value
    sink_credentials : Dict Value
    metric_credentials : Value
    checkpoint_from : Option Checkpoint
    injected : Source.inject_connection p.source_config source_credentials ≡ ok source_config
    fetched : fetch_checkpoint_from w ctx.dag_id op.checkpoint_conn_id ≡ ok checkpoint_from
    made :
        context_of w ctx p source_config source_secret source_credentials sink_secret
          sink_credentials metric_credentials checkpoint_from
        ≡ c

  connect_inverted :
      (op : InitOperator) (ctx : TaskContext) (p : Plan) (hook : Hook C) (c : RunContext)
      → (connect w op ctx p hook).0 ≡ ok c
      → Connected op ctx p c
  unfolding connect
  connect_inverted op ctx p hook c h =
      let (secret, _, h1) =
        continue-eq-ok (get_secret w.api w.source_moment (source_ref p.source_config) hook).0 _ _
          h in
      let (credentials, _, h2) = continue-eq-ok (as_dict secret) _ _ h1 in
      let (src, injected, h3) =
        continue-eq-ok (Source.inject_connection p.source_config credentials) _ _ h2 in
      let (sink_secret, _, h4) =
        continue-eq-ok (get_secret w.api w.sink_moment p.sink_config.credential_ref _).0 _ _ h3 in
      let (sink_credentials, _, h5) = continue-eq-ok (as_dict sink_secret) _ _ h4 in
      let (metric_raw, _, h6) = continue-eq-ok (method_dict p.metric_config_raw) _ _ h5 in
      let (metric_credentials, _, h7) =
        continue-eq-ok (metric_secret w (get_or metric_raw "credential_ref" (str_val "")) _).0 _ _
          h6 in
      let (lower, fetched, h8) =
        continue-eq-ok (fetch_checkpoint_from w ctx.dag_id op.checkpoint_conn_id) _ _ h7 in
      record {
        source_config = src;
        source_secret = secret;
        source_credentials = credentials;
        sink_secret = sink_secret;
        sink_credentials = sink_credentials;
        metric_credentials = metric_credentials;
        checkpoint_from = lower;
        injected = injected;
        fetched = fetched;
        made = ok-injective h8;
      }

  connect-IsContext :
      (op : InitOperator) (ctx : TaskContext) (loaded : Value) (p : Plan) (hook : Hook C)
      (c : RunContext)
      → IsPlan ctx loaded p
      → (connect w op ctx p hook).0 ≡ ok c
      → IsTime ctx.data_interval_start
      → CheckpointOk c.checkpoint_from
      → CheckpointOk c.checkpoint_to
      → IsContext c
  unfolding context_of Sink.inject_connection
  connect-IsContext op ctx loaded p hook c plan h time from_ok to_ok =
      let made = connect_inverted op ctx p hook c h in
      let src = made.source_config in
      let e = made.made in
      record {
        source = rw (← e) (
            inject_connection-IsSource p.read_type p.source_config src made.source_credentials
              plan.source made.injected);
        table_or_path = rw (← e) (
            inject_connection-IsTableOrPath p.source_config src made.source_credentials
              plan.table_or_path made.injected);
        sink = rw (← e) (record {
          credential_ref = plan.credential_ref;
          source_system_name = plan.source_system_name;
          run_id = plan.run_id;
          same_run = plan.same_run;
          same_date = plan.same_date;
          same_time = plan.same_time;
          same_source = refl;
        });
        date = rw (← e) (time.date);
        time = rw (← e) time;
        from_ok = from_ok;
        to_ok = to_ok;
      }

  pub prepare_inverted :
      (op : InitOperator) (ctx : TaskContext) (c : RunContext)
      → prepare w op ctx ≡ ok c
      → (loaded : Value) × (p : Plan) × (hook : Hook C) × (plan_of ctx loaded ≡ ok p)
        × ((connect w op ctx p hook).0 ≡ ok c)
  unfolding prepare load_plan connect_planned
  prepare_inverted op ctx c h = by_plan (load_plan w.load_config op.config_path ctx) refl h
    where
      by_plan :
          (r : Result Plan)
          → load_plan w.load_config op.config_path ctx ≡ r
          → connect_planned w op ctx r ≡ ok c
          → (loaded : Value) × (p : Plan) × (hook : Hook C) × (plan_of ctx loaded ≡ ok p)
            × ((connect w op ctx p hook).0 ≡ ok c)
      by_plan (err e) _ k = cc
      by_plan (ok p) e k =
          let (loaded, _, planned) = >>=-eq-ok (w.load_config op.config_path) _ e in
          (loaded, p, record { openbao_conn_id = op.openbao_conn_id; client = none }, planned, k)

  pub prepare-IsContext :
      (op : InitOperator) (ctx : TaskContext) (c : RunContext)
      → prepare w op ctx ≡ ok c
      → IsTime ctx.data_interval_start
      → CheckpointOk c.checkpoint_from
      → CheckpointOk c.checkpoint_to
      → IsContext c
  prepare-IsContext op ctx c h time from_ok to_ok =
      let (loaded, p, hook, planned, connected) = prepare_inverted op ctx c h in
      connect-IsContext op ctx loaded p hook c (plan_of-IsPlan ctx loaded p planned) connected time
        from_ok to_ok
