-- ===== src/Dag/Laws.antt =====
-- Which DAGs are registered.
use batch_ingestion_service.Prelude.{
  String, ◌≡◌, refl, sym, ap, ◌∙◌, Option, none, some, List, [], ◌∷◌, ◌==◌, false, arith,
  if◌then◌else◌,
}
use batch_ingestion_service.Py.Exc.{Result, ok, err, >>=-eq-ok, ok-injective}
use batch_ingestion_service.Py.Value.{
  Value, int_val, Dict, lookup, insert, get_item, get_or, as_dict,
}
use batch_ingestion_service.Prelude.Int.{pos}
use batch_ingestion_service.Config.Kinds.{metric_type_of}
use batch_ingestion_service.Metric.Adapter.Laws.{later}
use batch_ingestion_service.Dag.{
  Dag, Deployment, made_with, minutes_of, dag_of, path_to, make_dag, made_in, drop_key, registered,
  register,
}
use batch_ingestion_service.Dag.Files.{stem_of}
use batch_ingestion_service.Write.Schema.{is_in}
use batch_ingestion_service.Dag.Names.{
  NoneIn, used, IsPlain, ArePlain, NoneIn-insert, lookup-drop_key, NoneIn-drop_key, none_taken,
  not_used, not_bound, entered-lookup, registered_ok, failed_turn,
}

dag_of-dag_id :
    (config_path dag_id : String) (v : Value) (dag : Dag)
    → dag_of config_path dag_id v ≡ ok dag
    → dag.dag_id ≡ dag_id
unfolding dag_of
dag_of-dag_id config_path dag_id v dag h =
    let (cfg, _, h1) = >>=-eq-ok (as_dict v) _ h in
    let (raw_type, _, h2) = >>=-eq-ok (get_item "metric_type" cfg) _ h1 in
    let (metric_type, _, h3) = >>=-eq-ok (metric_type_of raw_type) _ h2 in
    let (metric_config, _, h4) = >>=-eq-ok (get_item "metric" cfg) _ h3 in
    let delay = minutes_of (get_or cfg "retry_delay_minutes" (int_val (pos 5))) in
    let (_, _, h5) = >>=-eq-ok delay _ h4 in sym (ap (λ made. made.dag_id) (ok-injective h5))

module _ (d : Deployment) where
  make_dag-dag_id :
      (name : String) (dag : Dag) → make_dag d name ≡ ok dag → dag.dag_id ≡ stem_of name
  unfolding make_dag
  make_dag-dag_id name dag h =
      let (loaded, _, h1) = >>=-eq-ok (d.load_yaml (path_to d name)) _ h in
      let (made, e2, h2) = >>=-eq-ok (dag_of (path_to d name) (stem_of name) loaded) _ h1 in
      let (_, _, h3) = >>=-eq-ok (d.accepts made) _ h2 in
      sym (ap (λ x. x.dag_id) (ok-injective h3))
      ∙ dag_of-dag_id (path_to d name) (stem_of name) loaded made e2

  -- the DAG that a file gives
  abbrev pub given_by : Result Dag → Option Dag
  given_by (ok dag) = some dag
  given_by (err e) = none

  -- the DAG that some files give under an id: that of the last file with the id for its stem that can
  -- be read
  abbrev pub dag_for : String → List String → Option Dag
  dag_for id [] = none
  dag_for id (name ∷ names) =
      later (dag_for id names) (if stem_of name == id then given_by (make_dag d name) else none)

  made_in_lem :
      (name : String) (globals : Dict Dag)
      → NoneIn used globals
      → made_in d globals name ≡ make_dag d name
  unfolding made_in is_in
  made_in_lem name globals free =
      rw
        (none_taken made_with used globals
          (refl, (refl, (refl, (refl, (refl, (refl, (refl, (refl, (refl, (refl, (refl, tt)))))))))))
          free)
        refl

  -- one turn of the loop, of a file with a plain name
  registered_lem :
      (id name : String) (r : Result Dag) (globals : Dict Dag)
      → ((dag : Dag) → r ≡ ok dag → dag.dag_id ≡ stem_of name)
      → IsPlain id
      → IsPlain (stem_of name)
      → NoneIn used globals
      → (after : Dict Dag) × (registered r globals ≡ ok after)
        × NoneIn used after
        × (lookup id after
            ≡ later (if stem_of name == id then given_by r else none) (lookup id globals))
  registered_lem id name (ok dag) globals h plain plain_name free =
      let named = h dag refl in
      let apart : is_in dag.dag_id used ≡ false = (rw named plain_name.0) in
      (
        drop_key "_status" (insert dag.dag_id dag (insert "_dag" dag globals)),
        registered_ok dag globals apart free,
        NoneIn-drop_key used "_status" (insert dag.dag_id dag (insert "_dag" dag globals)) (
            NoneIn-insert used dag.dag_id dag (insert "_dag" dag globals) apart
              (NoneIn-insert used "_dag" dag globals not_used free)),
        entered-lookup id dag globals plain.1
            ∙ ap (λ k. later (if k == id then some dag else none) (lookup id globals)) named,
      )
  registered_lem id name (err e) globals h plain plain_name free =
      let (not_dag, not_status, not_exc) = not_bound id plain.1 in
      (
        drop_key "exc" globals,
        failed_turn e globals free,
        NoneIn-drop_key used "exc" globals free,
        lookup-drop_key "exc" id globals not_exc ∙ ground (arith),
      )

  later_assoc : (a b c : Option Dag) → later a (later b c) ≡ later (later a b) c
  later_assoc none b c = refl
  later_assoc (some x) b c = refl

  -- When no file's stem is a name that the loop itself looks up or binds, the import of the module goes
  -- through all files, and under every other id the module then has the DAG of the last file with that
  -- stem that could be made, else what it had before: a file that fails keeps no other DAG from being
  -- registered and replaces none.
  pub lookup-register :
      (id : String) (names : List String) (globals : Dict Dag)
      → IsPlain id
      → ArePlain names
      → NoneIn used globals
      → (after : Dict Dag) × (register d names globals ≡ ok after)
        × (lookup id after ≡ later (dag_for id names) (lookup id globals))
  unfolding register
  lookup-register id [] globals plain names_plain free = (globals, refl, refl)
  lookup-register id (name ∷ names) globals plain (name_plain, names_plain) free =
      let (next, turned, next_free, here) =
        registered_lem id name (make_dag d name) globals (make_dag-dag_id name) plain name_plain
          free in
      let (after, rest, there) = lookup-register id names next plain names_plain next_free in
      (
        after,
        rw (made_in_lem name globals free, turned) rest,
        there
            ∙ (ap (later (dag_for id names)) here
                ∙ later_assoc (dag_for id names) _ (lookup id globals)),
      )
