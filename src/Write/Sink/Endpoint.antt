-- ===== src/Write/Sink/Endpoint.antt =====
-- The endpoint of an S3 sink: the path below it, and the bucket that the sink checks.
use text.Mathlib.TextLemmas.{nil-append, cons-append, append_assoc}
use batch_ingestion_service.Prelude.{
  Char, String, ◌<>◌, ◌≡◌, refl, sym, ap, ◌∙◌, none, some, [], ◌∷◌, arith,
}
use batch_ingestion_service.Py.Exc.{ok, >>=-eq-ok, ok-injective}
use batch_ingestion_service.Py.Value.{str_val, as_text, method_text}
use batch_ingestion_service.Py.Path.{
  PurePath, parse_path, join, path_of, path_text, split_slash, push_head,
}
use batch_ingestion_service.Py.Path.Laws.{Lacks}
use batch_ingestion_service.Config.Kinds.{WriteAdapterType}
use batch_ingestion_service.Config.Sink.{SinkConfig}
use batch_ingestion_service.Spark.Source.{cut_prefix, s3a_path}
use batch_ingestion_service.Write.Path.{
  base_path, split_endpoint, place, date_part, time_part, run_part, build_write_path,
}
use batch_ingestion_service.Write.Path.Laws.{split_endpoint-append}
use batch_ingestion_service.Write.Sink.{sink_config_of, replace_s3a, first_of, bucket_of}

cut_prefix-append : (p s : String) → cut_prefix p (p <> s) ≡ some s
unfolding cut_prefix
cut_prefix-append String.[] s = ap some (nil-append s)
cut_prefix-append (String.◌∷◌ c p) s = rw cons-append (ground (arith, cut_prefix-append p s))

s3a_path_of_s3 :
    (rest : String)
    → s3a_path (str_val ("s3://" <> rest)) ("s3://" <> rest) ≡ str_val ("s3a://" <> rest)
unfolding s3a_path
s3a_path_of_s3 rest = rw (s3a_path, cut_prefix-append "s3://" rest) refl

-- the sink config with another endpoint
abbrev at : SinkConfig → String → SinkConfig
at cfg endpoint = record cfg { endpoint = str_val endpoint }

sink_config_of_s3 :
    (cfg : SinkConfig) (rest : String)
    → cfg.endpoint ≡ str_val ("s3://" <> rest)
    → sink_config_of WriteAdapterType.s3 cfg ≡ ok (at cfg ("s3a://" <> rest))
unfolding sink_config_of method_text
sink_config_of_s3 cfg rest at_s3 = rw (at_s3, s3a_path_of_s3 rest) refl

base_path-at : (cfg : SinkConfig) (endpoint : String) → base_path (at cfg endpoint) ≡ base_path cfg
unfolding base_path
base_path-at cfg endpoint = refl

-- what follows the mark of the scheme in the path of a run
tail_of : SinkConfig → String → PurePath → String → String
tail_of cfg rest base run = path_text (
    join (join (parse_path rest) base)
      (path_of (date_part cfg ∷ time_part cfg ∷ run_part run ∷ [])))

build_write_path_below :
    (cfg : SinkConfig) (endpoint mark rest : String) (base : PurePath) (run : String)
    → cfg.endpoint ≡ str_val endpoint
    → split_endpoint endpoint ≡ (mark, rest)
    → base_path cfg ≡ ok base
    → as_text cfg.run_id ≡ ok run
    → build_write_path cfg ≡ ok (mark <> tail_of cfg rest base run)
unfolding build_write_path as_text place tail_of
build_write_path_below cfg endpoint mark rest base run e1 e2 e3 e4 = rw (e3, e4, e1, e2) refl

split_endpoint_of_s3 : (rest : String) → split_endpoint ("s3://" <> rest) ≡ ("s3://", rest)
split_endpoint_of_s3 rest =
    rw (append_assoc "s3" "://" rest) (split_endpoint-append "s3" rest (refl, (refl, tt)))

split_endpoint_of_s3a : (rest : String) → split_endpoint ("s3a://" <> rest) ≡ ("s3a://", rest)
split_endpoint_of_s3a rest =
    rw (append_assoc "s3a" "://" rest) (split_endpoint-append "s3a" rest (refl, (refl, (refl, tt))))

-- A sink with an endpoint "s3://…" writes below "s3a://…", and to the path that the endpoint of the
-- configuration gives otherwise.
pub build_write_path_s3 :
    (cfg : SinkConfig) (rest path : String)
    → cfg.endpoint ≡ str_val ("s3://" <> rest)
    → build_write_path cfg ≡ ok path
    → (cfg' : SinkConfig) × (tail : String) × (sink_config_of WriteAdapterType.s3 cfg ≡ ok cfg')
      × (path ≡ "s3://" <> tail)
      × (build_write_path cfg' ≡ ok ("s3a://" <> tail))
unfolding build_write_path tail_of date_part time_part
build_write_path_s3 cfg rest path at_s3 built =
    let (base, e1, h1) = >>=-eq-ok (base_path cfg) _ built in
    let (run, e2, h2) = >>=-eq-ok (as_text cfg.run_id) _ h1 in
    let moved = at cfg ("s3a://" <> rest) in
    let old =
      build_write_path_below cfg ("s3://" <> rest) "s3://" rest base run at_s3
        (split_endpoint_of_s3 rest) e1 e2 in
    (
      moved,
      tail_of cfg rest base run,
      sink_config_of_s3 cfg rest at_s3,
      ok-injective (sym built ∙ old),
      build_write_path_below moved ("s3a://" <> rest) "s3a://" rest base run refl
          (split_endpoint_of_s3a rest) (base_path-at cfg ("s3a://" <> rest) ∙ e1) e2,
    )

-- a text that has a slash, and no colon before it, does not begin with the mark
cut_prefix_of_Lacks :
    (b rest : String) → Lacks b':' b → cut_prefix "s3a://" (b <> String.◌∷◌ "/" rest) ≡ none
unfolding cut_prefix
cut_prefix_of_Lacks String.[] rest h = rw nil-append refl
cut_prefix_of_Lacks (String.◌∷◌ c String.[]) rest h = rw (cons-append, nil-append) (ground arith)
cut_prefix_of_Lacks (String.◌∷◌ c (String.◌∷◌ d String.[])) rest h =
    rw (cons-append, cons-append, nil-append) (ground arith)
cut_prefix_of_Lacks (String.◌∷◌ c (String.◌∷◌ d (String.◌∷◌ e String.[]))) rest h =
    rw (cons-append, cons-append, cons-append, nil-append) (ground arith)
cut_prefix_of_Lacks (String.◌∷◌ c (String.◌∷◌ d (String.◌∷◌ e (String.◌∷◌ f b)))) rest h =
    rw (cons-append, cons-append, cons-append, cons-append) (ground arith)

replace_s3a-cons :
    (c : Char) (s : String)
    → cut_prefix "s3a://" (String.◌∷◌ c s) ≡ none
    → replace_s3a "" 0 (String.◌∷◌ c s) ≡ String.◌∷◌ c (replace_s3a "" 0 s)
unfolding replace_s3a
replace_s3a-cons c s h = rw (replace_s3a, h) refl

replace_s3a_of_Lacks :
    (b rest : String)
    → Lacks b':' b
    → replace_s3a "" 0 (b <> String.◌∷◌ "/" rest) ≡ b <> String.◌∷◌ "/" (replace_s3a "" 0 rest)
replace_s3a_of_Lacks String.[] rest h =
    rw (nil-append, nil-append)
      (replace_s3a-cons "/" rest
        (rw (← (nil-append (String.◌∷◌ "/" rest))) (cut_prefix_of_Lacks "" rest tt)))
replace_s3a_of_Lacks (String.◌∷◌ c b) rest (hc, hb) =
    rw (cons-append, cons-append)
      (replace_s3a-cons c (b <> String.◌∷◌ "/" rest) (
          rw (← (cons-append c b (String.◌∷◌ "/" rest)))
            (cut_prefix_of_Lacks (String.◌∷◌ c b) rest (hc, hb)))
        ∙ ap (String.◌∷◌ c) (replace_s3a_of_Lacks b rest hb))

replace_s3a-mark : (s : String) → replace_s3a "" 0 ("s3a://" <> s) ≡ replace_s3a "" 0 s
unfolding replace_s3a cut_prefix
replace_s3a-mark s =
    rw
      (
        cons-append "s" "3a://" s,
        cons-append "3" "a://" s,
        cons-append "a" "://" s,
        cons-append ":" "//" s,
        cons-append "/" "/" s,
        cons-append "/" "" s,
        nil-append s,
      )
      (nil-append (replace_s3a "" 0 s))

split_slash-append :
    (b rest : String) → Lacks b'/' b → split_slash (b <> String.◌∷◌ "/" rest) ≡ b ∷ split_slash rest
unfolding split_slash
split_slash-append String.[] rest h = rw nil-append refl
split_slash-append (String.◌∷◌ c b) rest (hc, hb) =
    rw (cons-append, hc) (ap (push_head c) (split_slash-append b rest hb))

-- The bucket that an S3 sink asks AWS for is the one that its endpoint names.
pub bucket_of_endpoint :
    (b rest : String)
    → Lacks b'/' b
    → Lacks b':' b
    → bucket_of ("s3a://" <> b <> String.◌∷◌ "/" rest) ≡ b
unfolding bucket_of first_of
bucket_of_endpoint b rest no_slash no_colon =
    rw (replace_s3a-mark (b <> String.◌∷◌ "/" rest), replace_s3a_of_Lacks b rest no_colon)
      (ap first_of (split_slash-append b (replace_s3a "" 0 rest) no_slash))
