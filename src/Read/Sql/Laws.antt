-- ===== src/Read/Sql/Laws.antt =====
-- When the bounds of a SQL read count, and which of two settings of an option does.
use batch_ingestion_service.Prelude.{
  String, ◌≡◌, refl, sym, ◌∙◌, true, false, ◌⊎◌, inl, inr, Option, none, some, List, [], ◌∷◌, ◌++◌,
  ◌==◌, eq_iff, arith, if◌then◌else◌, Bool-cases,
}
use batch_ingestion_service.Py.Exc.{ok, >>=-eq-ok, ok-injective}
use batch_ingestion_service.Py.Value.{Value, Dict, truthy, lookup, method_dict}
use batch_ingestion_service.Config.Source.{TableSourceConfig}
use batch_ingestion_service.Checkpoint.{Checkpoint}
use batch_ingestion_service.Metric.Adapter.Laws.{IsUnique, later}
use batch_ingestion_service.Read.Sql.{
  SqlAdapter, window, build_read_query, base_options, read_options_of,
}

window_unbounded :
    (repr : Value → String) (column : Value) (from to : Option Checkpoint)
    → (truthy column ≡ false) ⊎ ((from ≡ none) ⊎ (to ≡ none))
    → window repr column from to ≡ ""
unfolding window
window_unbounded repr column none to h = refl
window_unbounded repr column (some a) none h = refl
window_unbounded repr column (some a) (some b) (inl off) = rw off
window_unbounded repr column (some a) (some b) (inr (inl e)) = absurd (cc)
window_unbounded repr column (some a) (some b) (inr (inr e)) = absurd (cc)

-- The bounds change nothing unless both are given: the first run of a DAG, which has no lower bound,
-- reads the whole table however large its upper bound. A query of the configuration ignores them
-- too, and so does a source without a checkpoint column.
pub build_read_query_unbounded :
    (repr : Value → String) (c : TableSourceConfig) (from to : Option Checkpoint)
    → (truthy c.query ≡ true)
      ⊎ ((truthy c.checkpoint_column ≡ false) ⊎ ((from ≡ none) ⊎ (to ≡ none)))
    → build_read_query repr c from to ≡ build_read_query repr c none none
unfolding build_read_query
build_read_query_unbounded repr c from to (inl own) = rw own refl
build_read_query_unbounded repr c from to (inr h) =
    rw (window_unbounded repr c.checkpoint_column from to h) refl

-- the value of an option that may be set several times: the last one
abbrev pub last_of : String → List (String × Value) → Option Value
last_of k [] = none
last_of k ((j, v) ∷ d) = later (last_of k d) (if j == k then some v else none)

later_assoc : (a b c : Option Value) → later (later a b) c ≡ later a (later b c)
later_assoc none b c = refl
later_assoc (some v) b c = refl

later-none : (a : Option Value) → a ≡ later a none
later-none none = refl
later-none (some v) = refl

pub last_of-append :
    (k : String) (d e : List (String × Value))
    → last_of k (d ++ e) ≡ later (last_of k e) (last_of k d)
last_of-append k [] e = later-none (last_of k e)
last_of-append k ((j, v) ∷ d) e =
    rw (last_of-append k d e)
      (later_assoc (last_of k e) (last_of k d) (if j == k then some v else none))

pub last_of-absent : (k : String) (d : Dict Value) → lookup k d ≡ none → last_of k d ≡ none
unfolding lookup
last_of-absent k [] h = refl
last_of-absent k ((j, v) ∷ d) h = ground (arith, last_of-absent k d)

last_of-lookup :
    (k : String) (v : Value) (d : Dict Value)
    → IsUnique d
    → lookup k d ≡ some v
    → last_of k d ≡ some v
unfolding lookup
last_of-lookup k v [] u h = cc
last_of-lookup k v ((j, w) ∷ d) (fresh, u) h = elim (Bool-cases (j == k)) [
  | inr other ↦ rw (last_of-lookup k v d u (rw other at h)) refl
  | inl same ↦
      let e = (eq_iff j k).0 same in rw (last_of-absent k d (rw e at fresh), same) (rw same at h)
]

last_of-appended :
    (k : String) (v : Value) (d e : List (String × Value))
    → last_of k e ≡ some v
    → last_of k (d ++ e) ≡ some v
last_of-appended k v d e h = rw (last_of-append k d e, h) refl

-- An option that the configuration sets for the read reaches Spark with the configured value, after
-- any other setting of it.
pub read_option_wins :
    (repr : Value → String) (a : SqlAdapter) (opts : List (String × Value)) (ro : Dict Value)
    (k : String) (v : Value)
    → read_options_of repr a ≡ ok opts
    → method_dict a.source_config.read_options ≡ ok ro
    → IsUnique ro
    → lookup k ro ≡ some v
    → last_of k opts ≡ some v
unfolding read_options_of
read_option_wins repr a opts ro k v h kept u found =
    let (credentials, _, h1) = >>=-eq-ok (method_dict a.credentials) _ h in
    let (ro', ro_eq, h2) = >>=-eq-ok (method_dict a.source_config.read_options) _ h1 in
    let same : ro' ≡ ro = ok-injective (sym ro_eq ∙ kept) in
    rw (← (ok-injective h2)) (
      last_of-appended k v (base_options repr a credentials ++ a.jdbc_options) ro'
        (rw same (last_of-lookup k v ro u found)))
