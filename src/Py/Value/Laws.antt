-- ===== src/Py/Value/Laws.antt =====
-- Laws of dictionaries.
use batch_ingestion_service.Prelude.{
  String, ◌≡◌, refl, ap, some, [], ◌∷◌, arith, ◌==◌, eq_iff, if◌then◌else◌,
}
use batch_ingestion_service.Py.Value.{
  Value, Fields, end, field, Dict, entries, fields, lookup, insert,
}

pub entries-fields : (d : Dict Value) → entries (fields d) ≡ d
entries-fields [] = refl
entries-fields ((k, v) ∷ d) = ap (λ e. (k, v) ∷ e) (entries-fields d)

pub fields-entries : (fs : Fields) → fields (entries fs) ≡ fs
fields-entries end = refl
fields-entries (field k v fs) = ap (field k v) (fields-entries fs)

module _ {ℓ} {V : Type ℓ} where
  pub lookup-insert :
      (k j : String) (v : V) (d : Dict V)
      → lookup j (insert k v d) ≡ (if k == j then some v else lookup j d)
  unfolding lookup insert
  lookup-insert k j v [] = refl
  lookup-insert k j v ((i, w) ∷ d) =
      ground (arith, eq_iff k j, eq_iff i k, eq_iff i j, lookup-insert k j v d)
