-- ===== src/Write/Schema.antt =====
-- `validate_schema` and `pre_write` of adapters/write/hadoop_adapter.py.
pub mod Laws
use batch_ingestion_service.Prelude.{
  String, ◌<>◌, Bool, true, false, Option, none, some, List, [], ◌∷◌, ◌==◌, map, if◌then◌else◌,
}
use batch_ingestion_service.Py.Exc.{Result, ok, raise, value_error, ◌>>=◌}
use batch_ingestion_service.Py.Value.{Dict, lookup, update}
use batch_ingestion_service.Write.Hadoop.{Hadoop}

-- `x in names`
unfoldable pub is_in : String → List String → Bool
is_in x [] = false
is_in x (y ∷ ys) = if y == x then true else is_in x ys

-- `[c for c in names if c in columns]`
unfoldable pub kept : List String → List String → List String
unfolding is_in
kept columns [] = []
kept columns (c ∷ names) =
    let rest = kept columns names in if is_in c columns then c ∷ rest else rest

-- `"\n".join(lines)`
unfoldable pub join_lines : List String → String
join_lines [] = ""
join_lines (x ∷ []) = x
join_lines (x ∷ y ∷ xs) = x <> "\n" <> join_lines (y ∷ xs)

-- the first items of pairs
abbrev pub names_of {ℓ} : {V : Type ℓ} → Dict V → List String
names_of d = map (λ kv. kv.0) d

module _ {S D T : Type 0} (h : Hadoop S D T) where
  type_text_of : Option T → String
  type_text_of none = "None"
  type_text_of (some t) = h.type_text t

  -- `df_fields.get(name) != expected_fields[name]`
  unfoldable pub differs : Option T → T → Bool
  differs none want = true
  differs (some got) want = if h.same_type got want then false else true

  mismatch : String → T → Option T → String
  unfolding type_text_of
  mismatch name want got =
      "Column '" <> name <> "': expected " <> h.type_text want <> ", got " <> type_text_of got

  -- the mismatches of the expected fields, against the fields of the frame
  unfoldable pub mismatches : Dict T → Dict T → List String
  unfolding differs mismatch lookup
  mismatches got [] = []
  mismatches got ((name, want) ∷ rest) =
      let later = mismatches got rest in
      if differs (lookup name got) want then mismatch name want (lookup name got) ∷ later else later

  refused : List String → Result Bool
  unfolding join_lines
  refused [] = ok true
  refused (m ∷ ms) = raise value_error ("Schema validation failed:\n" <> join_lines (m ∷ ms))

  -- `validate_schema`; a dictionary of fields keeps the last one of a name
  unfoldable pub validate_schema : Option (Dict T) → D → Result Bool
  unfolding refused mismatches update
  validate_schema none df = ok true
  validate_schema (some expected) df =
      refused (mismatches (update [] (h.fields df)) (update [] expected))

  -- the casts of the expected fields, each on the frame that the last one left
  unfoldable pub cast_all : Dict T → D → Result D
  unfolding is_in
  cast_all [] df = ok df
  cast_all ((name, t) ∷ rest) df =
      if is_in name (names_of (h.fields df))
      then h.cast name t df >>= cast_all rest
      else cast_all rest df

  -- `pre_write`
  unfoldable pub pre_write : Option (Dict T) → D → Result D
  unfolding cast_all kept
  pre_write none df = ok df
  pre_write (some expected) df =
      h.select (kept (names_of (h.fields df)) (names_of expected)) df >>= cast_all expected
