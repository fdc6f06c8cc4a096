-- ===== src/Write/Schema/Laws.antt =====
-- What the check of a frame's schema accepts, and which columns are written.
use batch_ingestion_service.Prelude.{
  String, ◌≡◌, refl, sym, ap, ◌∙◌, true, false, ◌⊎◌, inl, inr, ◌↔◌, Option, none, some, List, [],
  ◌∷◌, ◌==◌, eq_iff, eq_refl, arith, Bool-cases,
}
use batch_ingestion_service.Py.Exc.{ok, >>=-eq-ok, ok-injective}
use batch_ingestion_service.Py.Value.{Dict, lookup, insert, update}
use batch_ingestion_service.Py.Value.Laws.{lookup-insert}
use batch_ingestion_service.Metric.Adapter.Laws.{IsUnique}
use batch_ingestion_service.Write.Hadoop.{Hadoop}
use batch_ingestion_service.Write.Schema.{
  is_in, kept, names_of, differs, mismatches, refused, validate_schema, cast_all, pre_write,
}

insert-IsUnique :
    {V : Type 0} (k : String) (v : V) (d : Dict V) → IsUnique d → IsUnique (insert k v d)
unfolding insert lookup
insert-IsUnique k v [] u = (refl, tt)
insert-IsUnique k v ((j, w) ∷ d) (fresh, u) =
    ground (arith, insert-IsUnique k v d u, lookup-insert k j v d, eq_iff j k, eq_iff k j)

update-IsUnique : {V : Type 0} (d e : Dict V) → IsUnique d → IsUnique (update d e)
unfolding update
update-IsUnique d [] u = u
update-IsUnique d ((k, v) ∷ e) u = update-IsUnique (insert k v d) e (insert-IsUnique k v d u)

-- a key of a merged dictionary comes from one of the two
is_in-update :
    {V : Type 0} (k : String) (v : V) (d e : Dict V)
    → lookup k (update d e) ≡ some v
    → (is_in k (names_of e) ≡ true) ⊎ (lookup k d ≡ some v)
unfolding update is_in
is_in-update k v d [] h = inr h
is_in-update k v d ((j, w) ∷ e) h =
    ground (arith, is_in-update k v (insert j w d) e h, lookup-insert j k w d)

update-is_in :
    {V : Type 0} (k : String) (d e : Dict V)
    → (is_in k (names_of e) ≡ true) ⊎ ((v : V) × (lookup k d ≡ some v))
    → (v : V) × (lookup k (update d e) ≡ some v)
unfolding update is_in
update-is_in k d [] (inl h) = cc
update-is_in k d [] (inr h) = h
update-is_in k d ((j, w) ∷ e) (inr (v, h)) = update-is_in k (insert j w d) e (
    inr (elim (Bool-cases (j == k)) [
      | inl same ↦ (w, rw (lookup-insert j k w d, same) refl)
      | inr other ↦ (v, rw (lookup-insert j k w d, other) h)
    ]))
update-is_in k d ((j, w) ∷ e) (inl h) =
    update-is_in k (insert j w d) e (elim (Bool-cases (j == k)) [
      | inl same ↦ inr (w, rw (lookup-insert j k w d, same) refl)
      | inr other ↦ inl (rw other at h)
    ])

kept_all :
    (columns names : List String)
    → ((c : String) → is_in c names ≡ true → is_in c columns ≡ true)
    → kept columns names ≡ names
unfolding kept is_in
kept_all columns [] h = refl
kept_all columns (c ∷ names) h =
    let first : is_in c columns ≡ true = h c (rw (eq_refl c) refl) in
    let rest : kept columns names ≡ names = kept_all columns names (λ x p. h x (ground (arith))) in
    rw (first, rest) refl

module _ {S D T : Type 0} (h : Hadoop S D T) where
  -- a dictionary of fields, by name
  abbrev pub fields_of : Dict T → Dict T
  fields_of fs = update [] fs

  -- the frame has a field of the name, and of that type
  abbrev pub Has : D → String → T → Type 0
  Has df name t =
      (u : T) × (lookup name (fields_of (h.fields df)) ≡ some u) × (h.same_type u t ≡ true)

  -- the frame has every field that is expected
  abbrev pub Agrees : Dict T → D → Type 0
  Agrees expected df =
      (name : String) (t : T) → lookup name (fields_of expected) ≡ some t → Has df name t

  differs-none :
      (got : Dict T) (name : String) (t : T)
      → differs h (lookup name got) t ≡ false
      → (u : T) × (lookup name got ≡ some u) × (h.same_type u t ≡ true)
  unfolding differs
  differs-none got name t p = of_field (lookup name got) refl p
    where
      of_field :
          (o : Option T)
          → lookup name got ≡ o
          → differs h o t ≡ false
          → (u : T) × (lookup name got ≡ some u) × (h.same_type u t ≡ true)
      of_field none e q = cc
      of_field (some u) e q = (u, e, ground (arith))

  mismatches_sound :
      (got expected : Dict T) (name : String) (t : T)
      → mismatches h got expected ≡ []
      → lookup name expected ≡ some t
      → differs h (lookup name got) t ≡ false
  unfolding mismatches lookup
  mismatches_sound got [] name t e p = cc
  mismatches_sound got ((j, w) ∷ rest) name t e p =
      ground (arith, eq_iff j name, mismatches_sound got rest name t)

  mismatches_complete :
      (got expected : Dict T)
      → IsUnique expected
      → ((name : String) (t : T)
          → lookup name expected ≡ some t
          → differs h (lookup name got) t ≡ false)
      → mismatches h got expected ≡ []
  unfolding mismatches lookup
  mismatches_complete got [] u k = refl
  mismatches_complete got ((j, w) ∷ rest) (fresh, u) k =
      let first : differs h (lookup j got) w ≡ false = k j w (rw (eq_refl j) refl) in
      rw first
        (mismatches_complete got rest u (λ name t p. k name t (ground (arith, eq_iff j name))))

  refused-ok : (ms : _) → refused h ms ≡ ok true → ms ≡ []
  unfolding refused
  refused-ok [] e = refl
  refused-ok (m ∷ ms) e = cc

  -- The check accepts a frame exactly when the frame has every expected field with the expected type;
  -- other fields of the frame do not matter.
  pub validate_schema_iff :
      (expected : Dict T) (df : D)
      → (validate_schema h (some expected) df ≡ ok true) ↔ Agrees expected df
  unfolding validate_schema refused differs
  validate_schema_iff expected df = (sound, complete)
    where
      got : Dict T
      got = fields_of (h.fields df)

      sound : validate_schema h (some expected) df ≡ ok true → Agrees expected df
      sound e name t p =
          differs-none got name t
            (mismatches_sound got (fields_of expected) name t (refused-ok _ e) p)

      complete : Agrees expected df → validate_schema h (some expected) df ≡ ok true
      complete k =
          rw
            (mismatches_complete got (fields_of expected) (update-IsUnique [] expected tt)
              (λ name t p. let (u, e, q) = k name t p in rw (e, q) refl))
            refl

  abbrev columns_of : D → List String
  columns_of df = names_of (h.fields df)

  cast_all_columns :
      (expected : Dict T) (df out : D)
      → ((name : String) (t : T) (d e : D) → h.cast name t d ≡ ok e → columns_of e ≡ columns_of d)
      → cast_all h expected df ≡ ok out
      → columns_of out ≡ columns_of df
  unfolding cast_all
  cast_all_columns [] df out keep e = ap columns_of (sym (ok-injective e))
  cast_all_columns ((name, t) ∷ rest) df out keep e =
      elim (Bool-cases (is_in name (columns_of df))) [
        | inl there ↦
            let (mid, one, more) = >>=-eq-ok (h.cast name t df) _ (rw there at e) in
            cast_all_columns rest mid out keep more ∙ keep name t df mid one
        | inr absent ↦ cast_all_columns rest df out keep (rw absent at e)
      ]

  -- A frame that the check accepts is written with exactly the expected columns, in the expected
  -- order, when `select` gives the columns that it is asked for and a cast keeps the columns.
  pub pre_write_columns :
      (expected : Dict T) (df out : D)
      → ((names : List String) (d e : D) → h.select names d ≡ ok e → names_of (h.fields e) ≡ names)
      → ((name : String) (t : T) (d e : D)
          → h.cast name t d ≡ ok e
          → names_of (h.fields e) ≡ names_of (h.fields d))
      → validate_schema h (some expected) df ≡ ok true
      → pre_write h (some expected) df ≡ ok out
      → names_of (h.fields out) ≡ names_of expected
  unfolding pre_write lookup
  pre_write_columns expected df out chosen keep valid e =
      let (mid, one, more) = >>=-eq-ok (h.select _ df) _ e in
      cast_all_columns expected mid out keep more
      ∙ (chosen _ df mid one ∙ kept_all (columns_of df) (names_of expected) present)
    where
      present : (c : String) → is_in c (names_of expected) ≡ true → is_in c (columns_of df) ≡ true
      present c p =
          let (t, found) = update-is_in c [] expected (inl p) in
          let (u, has, _) = (validate_schema_iff expected df).0 valid c t found in
          elim (is_in-update c u [] (h.fields df) has) [
            | inl there ↦ there
            | inr none_there ↦ absent none_there
          ]
        where
          absent : {u : T} → lookup c [] ≡ some u → is_in c (columns_of df) ≡ true
          absent q = cc
