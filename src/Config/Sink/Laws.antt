-- ===== src/Config/Sink/Laws.antt =====
-- What the sink config factory accepts, and what it builds.
use batch_ingestion_service.Prelude.{◌≡◌, sym, true, [], arith}
use batch_ingestion_service.Py.Exc.{ok, >>=-eq-ok, ok-injective}
use batch_ingestion_service.Py.Time.{Date, Datetime}
use batch_ingestion_service.Py.Value.{Value, str_val, dict, truthy, or_else}
use batch_ingestion_service.Config.Source.{SourceConfig, table, path, kafka}
use batch_ingestion_service.Config.Sink.{SinkConfig, validate, create}

abbrev pub IsTableOrPath : SourceConfig → Type 0
IsTableOrPath (kafka _) = ⊥
IsTableOrPath _ = Unit

-- what `create` has found out when it returns
pub record IsCreated (ref name : Value) (src : SourceConfig) (run : Value) : Type 0 where
  pub credential_ref : truthy ref ≡ true
  pub source_system_name : truthy name ≡ true
  pub run_id : truthy run ≡ true
  pub source : IsTableOrPath src

validate_sound :
    (ref name : Value) (src : SourceConfig) (run : Value)
    → validate ref name src run ≡ ok tt
    → IsCreated ref name src run
unfolding validate
validate_sound ref name (table c) run h = ground arith
validate_sound ref name (path c) run h = ground arith
validate_sound ref name (kafka c) run h = absurd (ground arith)

-- When `create` returns, the required fields are set and the source is a table or a path, and the
-- config holds the arguments, with an empty endpoint.
pub create_sound :
    (ref name : Value) (src : SourceConfig) (d : Date) (t : Datetime) (run extra ff : Value)
    (s : SinkConfig)
    → create ref name src d t run extra ff ≡ ok s
    → IsCreated ref name src run
      × (s ≡ record {
        endpoint = str_val "";
        credential_ref = ref;
        source_system_name = name;
        ingestion_date = d;
        ingestion_time = t;
        run_id = run;
        source_config = src;
        extra = or_else extra (dict []);
        file_format = ff;
      })
unfolding create
create_sound ref name src d t run extra ff s h =
    let (u, hv, e) = >>=-eq-ok (validate ref name src run) _ h in
    (validate_sound ref name src run hv, sym (ok-injective e))
