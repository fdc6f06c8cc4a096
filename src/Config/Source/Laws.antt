-- ===== src/Config/Source/Laws.antt =====
-- What the source config factory builds and what an injection changes.
use batch_ingestion_service.Prelude.{
  String, ◌≡◌, refl, sym, true, none, some, Option, [], ◌∷◌, arith, Bool-cases, Option-cases, inl,
  inr,
}
use batch_ingestion_service.Prelude.Int.{ℤ, pos}
use batch_ingestion_service.Py.Exc.{ok, >>=-eq-ok, ok-injective}
use batch_ingestion_service.Py.Value.{
  Value, int_val, none_val, dict_val, Dict, dict, truthy, or_else, get_or, lookup, set_item, insert,
  entries, py_int,
}
use batch_ingestion_service.Config.Kinds.{ReadAdapterType}
use batch_ingestion_service.Config.Source.{
  TableSourceConfig, PathSourceConfig, KafkaSourceConfig, SourceConfig, table, path, kafka, Family,
  tables, paths, topics, family, build_table_config, build_path_config, build_kafka_config,
  build_config, create, inject_connection, inject_port, inject_jars,
}

-- `x or {}` is `x`
abbrev pub IsKept : Value → Type 0
IsKept v = or_else v (dict []) ≡ v

-- What `SourceConfigFactory` makes for an adapter type, after the injection.
pub record IsTable (t : ReadAdapterType) (c : TableSourceConfig) : Type 0 where
  pub typed : family t ≡ tables
  pub database : truthy c.database ≡ true
  pub table : truthy c.table ≡ true
  pub port_number : ℤ
  pub port : c.port ≡ int_val port_number
  pub extra : IsKept c.extra
  pub read_options : IsKept c.read_options

pub record IsPath (t : ReadAdapterType) (c : PathSourceConfig) : Type 0 where
  pub typed : family t ≡ paths
  pub extra : IsKept c.extra
  pub read_options : IsKept c.read_options

pub record IsTopic (t : ReadAdapterType) (c : KafkaSourceConfig) : Type 0 where
  pub typed : family t ≡ topics
  pub topic : truthy c.topic ≡ true
  pub extra : IsKept c.extra
  pub read_options : IsKept c.read_options

abbrev pub IsSource : ReadAdapterType → SourceConfig → Type 0
IsSource t (table c) = IsTable t c
IsSource t (path c) = IsPath t c
IsSource t (kafka c) = IsTopic t c

or_else-IsKept : (v : Value) → IsKept (or_else v (dict []))
unfolding or_else
or_else-IsKept v = elim (Bool-cases (truthy v)) [
  | inl kept ↦ rw kept (rw kept)
  | inr dropped ↦ rw dropped
]

build_table_config-IsSource :
    (t : ReadAdapterType) (ref : Value) (kwargs : Dict Value) (c : SourceConfig)
    → family t ≡ tables
    → build_table_config ref kwargs ≡ ok c
    → IsSource t c
unfolding build_table_config
build_table_config-IsSource t ref kwargs (table c) e h = record {
  typed = e;
  database = ground arith;
  table = ground arith;
  port_number = pos 0;
  port = ground arith;
  extra = ground (arith, or_else-IsKept (get_or kwargs "extra" none_val));
  read_options = ground (arith, or_else-IsKept (get_or kwargs "read_options" none_val));
}
build_table_config-IsSource t ref kwargs _ e h = ground arith

build_path_config-IsSource :
    (t : ReadAdapterType) (ref : Value) (kwargs : Dict Value) (c : SourceConfig)
    → family t ≡ paths
    → build_path_config ref kwargs ≡ ok c
    → IsSource t c
unfolding build_path_config
build_path_config-IsSource t ref kwargs (path c) e h = record {
  typed = e;
  extra = ground (arith, or_else-IsKept (get_or kwargs "extra" none_val));
  read_options = ground (arith, or_else-IsKept (get_or kwargs "read_options" none_val));
}
build_path_config-IsSource t ref kwargs _ e h = cc

build_kafka_config-IsSource :
    (t : ReadAdapterType) (ref : Value) (kwargs : Dict Value) (c : SourceConfig)
    → family t ≡ topics
    → build_kafka_config ref kwargs ≡ ok c
    → IsSource t c
unfolding build_kafka_config
build_kafka_config-IsSource t ref kwargs (kafka c) e h = record {
  typed = e;
  topic = ground arith;
  extra = ground (arith, or_else-IsKept (get_or kwargs "extra" none_val));
  read_options = ground (arith, or_else-IsKept (get_or kwargs "read_options" none_val));
}
build_kafka_config-IsSource t ref kwargs _ e h = ground arith

build_config-IsSource :
    (t : ReadAdapterType) (f : Family) (ref : Value) (kwargs : Dict Value) (c : SourceConfig)
    → family t ≡ f
    → build_config f ref kwargs ≡ ok c
    → IsSource t c
build_config-IsSource t tables ref kwargs c e h =
    build_table_config-IsSource t ref kwargs c e (unfold build_config in h)
build_config-IsSource t paths ref kwargs c e h =
    build_path_config-IsSource t ref kwargs c e (unfold build_config in h)
build_config-IsSource t topics ref kwargs c e h =
    build_kafka_config-IsSource t ref kwargs c e (unfold build_config in h)

-- `create` returned a config, so it had no `adapter_type` keyword, and it had a `credential_ref`.
create_inverted :
    (t : ReadAdapterType) (kwargs : Dict Value) (c : SourceConfig)
    → create t kwargs ≡ ok c
    → (ref : Value) × (lookup "credential_ref" kwargs ≡ some ref)
      × (build_config (family t) ref kwargs ≡ ok c)
unfolding create
create_inverted t kwargs c h = elim (Option-cases (lookup "adapter_type" kwargs)) [
  | inr (v, twice) ↦ absurd (ground arith)
  | inl once ↦ elim (Option-cases (lookup "credential_ref" kwargs)) [
    | inl without ↦ absurd (ground arith)
    | inr (ref, given) ↦ (ref, given, ground arith)
  ]
]

-- A config that the factory returns is of the adapter type's class, and its required fields are set.
pub create-IsSource :
    (t : ReadAdapterType) (kwargs : Dict Value) (c : SourceConfig)
    → create t kwargs ≡ ok c
    → IsSource t c
create-IsSource t kwargs c h =
    let (ref, _, built) = create_inverted t kwargs c h in
    build_config-IsSource t (family t) ref kwargs c refl built

-- a dictionary with an entry is kept by `x or {}`
IsKept-insert : (k : String) (v : Value) (d : Dict Value) → IsKept (dict (insert k v d))
unfolding insert or_else
IsKept-insert k v [] = refl
IsKept-insert k v ((j, w) ∷ d) = ground arith

set_item-IsKept : (k : String) (v w w' : Value) → set_item k v w ≡ ok w' → IsKept w'
unfolding set_item
set_item-IsKept k v (dict_val fs) w' h =
    let e : dict (insert k v (entries fs)) ≡ w' = cc in rw (← e) (IsKept-insert k v (entries fs))
set_item-IsKept k v _ w' h = cc

inject_jars-IsKept :
    (jars : Option Value) (extra extra' : Value)
    → inject_jars jars extra ≡ ok extra'
    → IsKept extra
    → IsKept extra'
unfolding inject_jars
inject_jars-IsKept none extra extra' h k = let e : extra ≡ extra' = cc in rw (← e) k
inject_jars-IsKept (some v) extra extra' h k = set_item-IsKept "jars" v extra extra' h

inject_port_is_int :
    (given : Option Value) (old port : Value)
    → inject_port given old ≡ ok port
    → (z : ℤ) × (old ≡ int_val z)
    → (z : ℤ) × (port ≡ int_val z)
unfolding inject_port
inject_port_is_int none old port h (z, e) = (z, cc)
inject_port_is_int (some v) old port h _ =
    let (z, _, e) = >>=-eq-ok (py_int v) (λ n. ok (int_val n)) h in (z, sym (ok-injective e))

inject_table :
    (c : TableSourceConfig) (credentials : Dict Value) (c' : SourceConfig)
    → inject_connection (table c) credentials ≡ ok c'
    → (port : Value) × (extra : Value) × (inject_port (lookup "port" credentials) c.port ≡ ok port)
      × (inject_jars (lookup "jars" credentials) c.extra ≡ ok extra)
      × (c'
          ≡ table
              (record c { host = get_or credentials "host" c.host; port = port; extra = extra }))
unfolding inject_connection
inject_table c credentials c' h =
    let (port, hp, rest) = >>=-eq-ok (inject_port (lookup "port" credentials) c.port) _ h in
    let (extra, he, e) = >>=-eq-ok (inject_jars (lookup "jars" credentials) c.extra) _ rest in
    (port, extra, hp, he, sym (ok-injective e))

-- An injection that succeeds keeps what the factory made fit for the adapter type.
pub inject_connection-IsSource :
    (t : ReadAdapterType) (c c' : SourceConfig) (credentials : Dict Value)
    → IsSource t c
    → inject_connection c credentials ≡ ok c'
    → IsSource t c'
unfolding inject_connection
inject_connection-IsSource t (table c) c' credentials s h =
    let (port, extra, hp, he, e) = inject_table c credentials c' h in
    let (z, ez) =
      inject_port_is_int (lookup "port" credentials) c.port port hp (s.port_number, s.port) in
    rw e (record {
      typed = s.typed;
      database = s.database;
      table = s.table;
      port_number = z;
      port = ez;
      extra = inject_jars-IsKept (lookup "jars" credentials) c.extra extra he s.extra;
      read_options = s.read_options;
    })
inject_connection-IsSource t (path c) c' credentials s h =
    rw (← (ok-injective h))
      (record { typed = s.typed; extra = s.extra; read_options = s.read_options })
inject_connection-IsSource t (kafka c) c' credentials s h =
    rw (← (ok-injective h))
      (record { typed = s.typed; topic = s.topic; extra = s.extra; read_options = s.read_options })
