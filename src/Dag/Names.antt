-- ===== src/Dag/Names.antt =====
-- The names of the module in demo/airflow/dags/dag_factory.py that its loop looks up and binds.
use batch_ingestion_service.Prelude.{
  String, ◌≡◌, refl, ap, ◌∙◌, none, some, List, [], ◌∷◌, ◌==◌, eq_iff, true, false, Bool-cases, inl,
  inr, arith, if◌then◌else◌,
}
use batch_ingestion_service.Py.Exc.{Exc, ok, err}
use batch_ingestion_service.Py.Value.{Dict, lookup, insert}
use batch_ingestion_service.Py.Value.Laws.{lookup-insert}
use batch_ingestion_service.Metric.Adapter.Laws.{later}
use batch_ingestion_service.Dag.{
  Dag, reported_with, entered_with, any_taken, drop_key, reported, entered, registered,
}
use batch_ingestion_service.Dag.Files.{stem_of}
use batch_ingestion_service.Write.Schema.{is_in}

-- no DAG has taken the place of one of some names
abbrev pub NoneIn : List String → Dict Dag → Type 0
NoneIn [] globals = Unit
NoneIn (name ∷ names) globals = (lookup name globals ≡ none) × NoneIn names globals

-- the names that the loop looks up
abbrev pub used : List String
used =
    "_make_dag" ∷ "yaml" ∷ "_dag_id_from_path" ∷ "MetricAdapterType" ∷ "timedelta" ∷ "DAG"
    ∷ "days_ago" ∷ "InitOperator" ∷ "str" ∷ "SparkRunOperator" ∷ "MetricPushOperator" ∷ "Exception"
    ∷ "log" ∷ "_config_file" ∷ "_recently_changed" ∷ "globals" ∷ []

-- the names that it binds
abbrev pub bound : List String
bound = "_dag" ∷ "_status" ∷ "exc" ∷ []

-- an id that is none of the names that the loop looks up or binds
abbrev pub IsPlain : String → Type 0
IsPlain id = (is_in id used ≡ false) × (is_in id bound ≡ false)

abbrev pub ArePlain : List String → Type 0
ArePlain [] = Unit
ArePlain (name ∷ names) = IsPlain (stem_of name) × ArePlain names

pub NoneIn-empty : (names : List String) → NoneIn names []
unfolding lookup
NoneIn-empty [] = tt
NoneIn-empty (name ∷ names) = (refl, NoneIn-empty names)

pub NoneIn-insert :
    (names : List String) (k : String) (dag : Dag) (globals : Dict Dag)
    → is_in k names ≡ false
    → NoneIn names globals
    → NoneIn names (insert k dag globals)
unfolding is_in
NoneIn-insert [] k dag globals apart free = tt
NoneIn-insert (name ∷ names) k dag globals apart (here, free) = elim (Bool-cases (name == k)) [
  | inl same ↦ absurd (cc)
  | inr other ↦ (
    ground (arith, eq_iff name k, eq_iff k name, lookup-insert k name dag globals),
    NoneIn-insert names k dag globals (rw other at apart) free,
  )
]

pub lookup-drop_key :
    (k x : String) (globals : Dict Dag)
    → k == x ≡ false
    → lookup x (drop_key k globals) ≡ lookup x globals
unfolding lookup drop_key
lookup-drop_key k x [] apart = refl
lookup-drop_key k x ((y, dag) ∷ globals) apart =
    ground (arith, eq_iff y k, eq_iff y x, eq_iff k x, lookup-drop_key k x globals apart)

lookup-drop_key-none :
    (k x : String) (globals : Dict Dag)
    → lookup x globals ≡ none
    → lookup x (drop_key k globals) ≡ none
unfolding lookup drop_key
lookup-drop_key-none k x [] e = refl
lookup-drop_key-none k x ((y, dag) ∷ globals) e = ground (arith, lookup-drop_key-none k x globals)

pub NoneIn-drop_key :
    (names : List String) (k : String) (globals : Dict Dag)
    → NoneIn names globals
    → NoneIn names (drop_key k globals)
NoneIn-drop_key [] k globals free = tt
NoneIn-drop_key (name ∷ names) k globals (here, free) =
    (lookup-drop_key-none k name globals here, NoneIn-drop_key names k globals free)

any_taken_lem :
    (names : List String) (globals : Dict Dag)
    → NoneIn names globals
    → any_taken names globals ≡ false
unfolding any_taken
any_taken_lem [] globals free = refl
any_taken_lem (name ∷ names) globals (here, free) = rw here (any_taken_lem names globals free)

lookup_among :
    (x : String) (names : List String) (globals : Dict Dag)
    → is_in x names ≡ true
    → NoneIn names globals
    → lookup x globals ≡ none
unfolding is_in
lookup_among x [] globals e free = cc
lookup_among x (name ∷ names) globals e (here, free) = elim (Bool-cases (name == x)) [
  | inl same ↦ rw (← ((eq_iff name x).0 same)) here
  | inr other ↦ lookup_among x names globals (rw other at e) free
]

abbrev AreIn : List String → List String → Type 0
AreIn [] names = Unit
AreIn (x ∷ xs) names = (is_in x names ≡ true) × AreIn xs names

pub none_taken :
    (xs names : List String) (globals : Dict Dag)
    → AreIn xs names
    → NoneIn names globals
    → any_taken xs globals ≡ false
none_taken xs names globals among free = any_taken_lem xs globals (each xs among)
  where
    each : (ys : List String) → AreIn ys names → NoneIn ys globals
    each [] a = tt
    each (y ∷ ys) (here, rest) = (lookup_among y names globals here free, each ys rest)

lookup-put :
    (id k : String) (dag : Dag) (globals : Dict Dag)
    → lookup id (insert k dag globals)
      ≡ later (if k == id then some dag else none) (lookup id globals)
lookup-put id k dag globals = ground (arith, lookup-insert k id dag globals)

pub reported_lem :
    (globals : Dict Dag) → NoneIn used globals → reported globals ≡ ok (drop_key "exc" globals)
unfolding reported is_in
reported_lem globals free =
    rw (none_taken reported_with used globals (refl, (refl, (refl, tt))) free) refl

entered_lem :
    (globals : Dict Dag) → NoneIn used globals → entered globals ≡ ok (drop_key "_status" globals)
unfolding entered is_in
entered_lem globals free =
    rw (none_taken entered_with used globals (refl, (refl, (refl, tt))) free) refl

pub registered_ok :
    (dag : Dag) (globals : Dict Dag)
    → is_in dag.dag_id used ≡ false
    → NoneIn used globals
    → registered (ok dag) globals
      ≡ ok (drop_key "_status" (insert dag.dag_id dag (insert "_dag" dag globals)))
unfolding registered is_in
registered_ok dag globals apart free =
    let bound_free = NoneIn-insert used "_dag" dag globals refl free in
    rw (none_taken ("globals" ∷ []) used (insert "_dag" dag globals) (refl, tt) bound_free) (
      entered_lem (insert dag.dag_id dag (insert "_dag" dag globals))
        (NoneIn-insert used dag.dag_id dag (insert "_dag" dag globals) apart bound_free))

pub not_used : is_in "_dag" used ≡ false
unfolding is_in
not_used = refl

-- what a plain id is not
pub not_bound :
    (id : String)
    → is_in id bound ≡ false
    → ("_dag" == id ≡ false) × ("_status" == id ≡ false) × ("exc" == id ≡ false)
unfolding is_in
not_bound id e = (ground (arith), ground (arith), ground (arith))

pub entered-lookup :
    (id : String) (dag : Dag) (globals : Dict Dag)
    → is_in id bound ≡ false
    → lookup id (drop_key "_status" (insert dag.dag_id dag (insert "_dag" dag globals)))
      ≡ later (if dag.dag_id == id then some dag else none) (lookup id globals)
entered-lookup id dag globals apart =
    let (not_dag, not_status, not_exc) = not_bound id apart in
    lookup-drop_key "_status" id (insert dag.dag_id dag (insert "_dag" dag globals)) not_status
    ∙ (lookup-put id dag.dag_id dag (insert "_dag" dag globals)
        ∙ ap (later (if dag.dag_id == id then some dag else none))
            (lookup-insert "_dag" id dag globals ∙ (rw not_dag refl)))

pub failed_turn :
    (e : Exc) (globals : Dict Dag)
    → NoneIn used globals
    → registered (err e) globals ≡ ok (drop_key "exc" globals)
unfolding registered
failed_turn e globals free = reported_lem globals free
