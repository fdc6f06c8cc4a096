-- ===== src/Read/Kafka/Laws.antt =====
-- The offsets of successive Kafka reads.
use batch_ingestion_service.Prelude.{
  String, ◌≡◌, refl, ◌&&◌, inl, inr, ◌⊎◌, none, some, List, [], ◌∷◌, Bool-cases,
}
use batch_ingestion_service.Py.Exc.{ok, >>=-eq-ok, ok-injective}
use batch_ingestion_service.Py.Value.{Value, str_val, Dict, truthy, lookup, method_dict}
use batch_ingestion_service.Checkpoint.{Checkpoint}
use batch_ingestion_service.Read.Sql.Laws.{last_of, last_of-append, last_of-absent}
use batch_ingestion_service.Read.Frames.{shown}
use batch_ingestion_service.Read.Kafka.{
  KafkaAdapter, starting, ending, sasl_options, group_options, window_options, own_options,
  options_of,
}

-- the two options that bound a read
abbrev IsBound : String → Type 0
IsBound k = (k ≡ "startingOffsets") ⊎ (k ≡ "endingOffsets")

-- An option of a read that its configuration does not set.
abbrev pub Unset : {T : Type 0} → String → KafkaAdapter T → Type 0
Unset k a =
    (ro : Dict Value) → method_dict a.source_config.read_options ≡ ok ro → lookup k ro ≡ none

module _ (repr : Value → String) where
  group_options-bound :
      (k : String) (v : Value) → IsBound k → last_of k (group_options repr v) ≡ none
  unfolding group_options
  group_options-bound k v b = elim (Bool-cases (truthy v)) [
    | inl here ↦ rw here (of_key b)
    | inr off ↦ rw off
  ]
    where
      of_key : IsBound k → last_of k (("kafka.group.id", v) ∷ []) ≡ none
      of_key (inl e) = rw e refl
      of_key (inr e) = rw e refl

  sasl_options-bound :
      (k : String) (u p : Value) → IsBound k → last_of k (sasl_options repr u p) ≡ none
  unfolding sasl_options
  sasl_options-bound k u p (inl e) = elim (Bool-cases (truthy u && truthy p)) [
    | inl here ↦ rw (e, here) refl
    | inr off ↦ rw off
  ]
  sasl_options-bound k u p (inr e) = elim (Bool-cases (truthy u && truthy p)) [
    | inl here ↦ rw (e, here) refl
    | inr off ↦ rw off
  ]

  module _ {T : Type 0} where
    -- a bound of the window is the last setting of its option
    bound_of :
        (k : String) (a : KafkaAdapter T) (opts : List (String × Value)) (v : Value)
        → IsBound k
        → last_of k (window_options repr a) ≡ some v
        → Unset k a
        → options_of repr a ≡ ok opts
        → last_of k opts ≡ some v
    unfolding options_of own_options
    bound_of k a opts v b w unset h =
        let (c, _, h1) = >>=-eq-ok (method_dict a.credentials) _ h in
        let (ro, e, h2) = >>=-eq-ok (method_dict a.source_config.read_options) _ h1 in
        rw
          (
            ← (ok-injective h2),
            last_of-append k (own_options repr a c) ro,
            last_of-absent k ro (unset ro e),
            last_of-append k (window_options repr a) _,
            last_of-append k (group_options repr a.source_config.group_id) _,
            sasl_options-bound k _ _ b,
            group_options-bound k _ b,
          )
          w

    -- The windows of successive reads join: a read that starts at the checkpoint up to which an earlier
    -- one read asks Kafka for the offsets from exactly where that one ended, unless the configuration
    -- sets the offsets itself.
    pub windows_join :
        (a b : KafkaAdapter T) (c : Checkpoint) (opts_a opts_b : List (String × Value))
        → a.checkpoint_to ≡ some c
        → b.checkpoint_from ≡ some c
        → Unset "endingOffsets" a
        → Unset "startingOffsets" b
        → options_of repr a ≡ ok opts_a
        → options_of repr b ≡ ok opts_b
        → (last_of "endingOffsets" opts_a ≡ some (str_val (shown repr (some c))))
          × (last_of "startingOffsets" opts_b ≡ last_of "endingOffsets" opts_a)
    unfolding window_options starting ending
    windows_join a b c opts_a opts_b ta fb ua ub ha hb =
        let v = str_val (shown repr (some c)) in
        let end : last_of "endingOffsets" opts_a ≡ some v =
          bound_of "endingOffsets" a opts_a v (inr refl) (rw ta refl) ua ha in
        let start : last_of "startingOffsets" opts_b ≡ some v =
          bound_of "startingOffsets" b opts_b v (inl refl) (rw fb refl) ub hb in
        (end, cc (end, start))
