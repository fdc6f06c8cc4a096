-- ===== src/Init/Laws.antt =====
-- What the init task pushes, and when it pushes nothing.
use batch_ingestion_service.Prelude.{◌≡◌, true}
use batch_ingestion_service.Py.Exc.{ok, >>=-eq-ok, ok-injective}
use batch_ingestion_service.Py.Value.{Value, str_val, Dict, get_item, as_dict, truthy}
use batch_ingestion_service.Config.Kinds.{read_type_of, write_type_of, metric_type_of}
use batch_ingestion_service.Config.Source
use batch_ingestion_service.Config.Source.{SourceConfig}
use batch_ingestion_service.Config.Source.Laws.{IsSource, create-IsSource}
use batch_ingestion_service.Config.Sink
use batch_ingestion_service.Config.Sink.{SinkConfig}
use batch_ingestion_service.Config.Sink.Laws.{IsTableOrPath, create_sound}
use batch_ingestion_service.Init.Planning.{TaskContext, Plan, plan_of}

-- what a plan that was made satisfies
pub record IsPlan (ctx : TaskContext) (loaded : Value) (p : Plan) : Type 0 where
  pub config : Dict Value
  pub given : Value
  pub is_dict : as_dict loaded ≡ ok config
  pub read_type_given : get_item "read_type" config ≡ ok given
  pub read_type_read : read_type_of given ≡ ok p.read_type
  pub source : IsSource p.read_type p.source_config
  pub table_or_path : IsTableOrPath p.source_config
  pub credential_ref : truthy p.sink_config.credential_ref ≡ true
  pub source_system_name : truthy p.sink_config.source_system_name ≡ true
  pub run_id : truthy (str_val ctx.run_id) ≡ true
  pub same_run : p.sink_config.run_id ≡ str_val ctx.run_id
  pub same_date : p.sink_config.ingestion_date ≡ ctx.data_interval_start.date
  pub same_time : p.sink_config.ingestion_time ≡ ctx.data_interval_start

-- A plan that was made fits the configured read type, its source is a table or a path, and its sink
-- has the required fields and the run, the date and the time of the task.
pub plan_of-IsPlan :
    (ctx : TaskContext) (loaded : Value) (p : Plan)
    → plan_of ctx loaded ≡ ok p
    → IsPlan ctx loaded p
unfolding plan_of
plan_of-IsPlan ctx loaded p h =
    let (cfg, dict_of, h1) = >>=-eq-ok (as_dict loaded) _ h in
    let (v2, typed, h2) = >>=-eq-ok (get_item "read_type" cfg) _ h1 in
    let (read_type, read, h3) = >>=-eq-ok (read_type_of v2) _ h2 in
    let (v4, _, h4) = >>=-eq-ok (get_item "write_type" cfg) _ h3 in
    let (write_type, _, h5) = >>=-eq-ok (write_type_of v4) _ h4 in
    let (metric_type, _, h6) = >>=-eq-ok (metric_type_of _) _ h5 in
    let (v7, _, h7) = >>=-eq-ok (get_item "source" cfg) _ h6 in
    let (source_raw, _, h8) = >>=-eq-ok (as_dict v7) _ h7 in
    let (src, made, h9) = >>=-eq-ok (Source.create read_type source_raw) _ h8 in
    let (v10, _, h10) = >>=-eq-ok (get_item "sink" cfg) _ h9 in
    let (sink_raw, _, h11) = >>=-eq-ok (as_dict v10) _ h10 in
    let (ref, _, h12) = >>=-eq-ok (get_item "credential_ref" sink_raw) _ h11 in
    let (name, _, h13) = >>=-eq-ok (get_item "source_system_name" sink_raw) _ h12 in
    let (sink, built, h14) = >>=-eq-ok (Sink.create ref name src _ _ _ _ _) _ h13 in
    let (c, e) = create_sound ref name src _ _ _ _ _ sink built in
    rw (← (ok-injective h14)) (record {
      config = cfg;
      given = v2;
      is_dict = dict_of;
      read_type_given = typed;
      read_type_read = read;
      source = create-IsSource read_type source_raw src made;
      table_or_path = c.source;
      credential_ref = rw e c.credential_ref;
      source_system_name = rw e c.source_system_name;
      run_id = c.run_id;
      same_run = rw e;
      same_date = rw e;
      same_time = rw e;
    })
