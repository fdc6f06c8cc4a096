-- ===== src/Metric/Adapter/Laws.antt =====
-- What a Redis message and a Kafka envelope hold, and that an adapter has a config of its class.
use mathlib.Core.Option
use mathlib.Core.Option.{Option}
use batch_ingestion_service.Prelude.{
  String, ◌≡◌, refl, some, none, [], ◌∷◌, arith, ◌==◌, eq_iff, if◌then◌else◌,
}
use batch_ingestion_service.Py.Exc.{ok, ok-injective}
use batch_ingestion_service.Py.Value.{
  Value, str_val, Dict, lookup, insert, update, str_of, method_dict,
}
use batch_ingestion_service.Py.Value.Laws.{lookup-insert}
use batch_ingestion_service.Metric.Adapter.{Formats}
use batch_ingestion_service.Metric.Adapter.Message.{
  field_texts, plain_texts, redis_message, kafka_envelope,
}

-- no two entries have the same key, as in every Python dictionary
abbrev pub IsUnique : {V : Type 0} → Dict V → Type 0
IsUnique [] = Unit
IsUnique ((k, v) ∷ d) = (lookup k d ≡ none) × IsUnique d

-- the value that a merged dictionary has for a key: the later one's, else the earlier one's
abbrev pub later {ℓ} : {V : Type ℓ} → Option V → Option V → Option V
later (some v) o = some v
later none o = o

pub lookup-update :
    {V : Type 0} (j : String) (d e : Dict V)
    → IsUnique e
    → lookup j (update d e) ≡ later (lookup j e) (lookup j d)
unfolding lookup update
lookup-update j d [] u = refl
lookup-update j d ((k, v) ∷ e) (fresh, u) =
    ground (arith, eq_iff k j, lookup-insert k j v d, lookup-update j (insert k v d) e u, fresh)

module _ (f : Formats) where
  lookup-plain_texts :
      (k : String) (d : Dict Value)
      → lookup k (plain_texts f d) ≡ Option.map (str_of f.repr) (lookup k d)
  unfolding plain_texts lookup
  lookup-plain_texts k [] = refl
  lookup-plain_texts k ((j, v) ∷ d) = ground (arith, lookup-plain_texts k d)

  plain_texts-IsUnique : (d : Dict Value) → IsUnique d → IsUnique (plain_texts f d)
  unfolding plain_texts
  plain_texts-IsUnique [] u = tt
  plain_texts-IsUnique ((k, v) ∷ d) (fresh, u) =
      (rw (lookup-plain_texts k d, fresh) refl, plain_texts-IsUnique d u)

  -- Under any key, a Kafka envelope has the time under "published_at", else the adapter's attribute,
  -- else the payload's value. The attributes have no key twice.
  pub lookup-kafka_envelope :
      (k : String) (attributes payload : Dict Value)
      → IsUnique attributes
      → lookup k (kafka_envelope f attributes payload) ≡ (
          if "published_at" == k
          then some (str_val f.published_at)
          else later (lookup k attributes) (lookup k payload))
  unfolding kafka_envelope
  lookup-kafka_envelope k attributes payload u =
      rw
        (
          lookup-insert "published_at" k (str_val f.published_at) (update payload attributes),
          lookup-update k payload attributes u,
        )
        refl

  -- The same of a Redis message, whose payload fields and attributes became texts.
  pub lookup-redis_message :
      (k : String) (raw : Value) (attributes payload : Dict Value) (texts message : Dict String)
      → method_dict raw ≡ ok attributes
      → IsUnique attributes
      → field_texts f payload ≡ ok texts
      → redis_message f raw payload ≡ ok message
      → lookup k message ≡ (
          if "published_at" == k
          then some f.published_at
          else later (Option.map (str_of f.repr) (lookup k attributes)) (lookup k texts))
  unfolding redis_message
  lookup-redis_message k raw attributes payload texts message h u ht hm =
      let e : ok (insert "published_at" f.published_at (update texts (plain_texts f attributes)))
          ≡ ok message =
        (rw (ht, h) at hm) in
      rw (← (ok-injective e)) (
        rw
          (
            lookup-insert "published_at" k f.published_at (update texts (plain_texts f attributes)),
            lookup-update k texts (plain_texts f attributes) (plain_texts-IsUnique attributes u),
            lookup-plain_texts k attributes,
          )
          refl)
