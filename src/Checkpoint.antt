-- ===== src/Checkpoint.antt =====
-- Checkpoint values: their tagged form of orchestration/operators/run_context.py, and
-- `_parse_checkpoint` of orchestration/operators/init_operator.py.
pub mod Laws
use batch_ingestion_service.Prelude.{
  String, Bool, true, false, Option, none, some, List, [], ◌∷◌, ◌==◌, if◌then◌else◌, ◌≡◌, refl, ap,
  ◌∙◌,
}
use batch_ingestion_service.Prelude.Int.{ℤ}
use batch_ingestion_service.Py.Exc.{Result, ok, raise, value_error, type_error, ◌>>=◌}
use batch_ingestion_service.Py.Number.{int_of_text, str_of_int, strip}
use batch_ingestion_service.Py.Number.Laws.{int_of_text-str_of_int, strip_of_NoSpace}
use batch_ingestion_service.Py.Time.{Datetime, isoformat, fromisoformat}
use batch_ingestion_service.Py.Time.Laws.{IsTime, fromisoformat-isoformat}
use batch_ingestion_service.Py.Time.NotInt.{isoformat-NoSpace, int_of_text-isoformat}
use batch_ingestion_service.Py.Value.{
  Value, none_val, bool_val, int_val, real_val, str_val, enum_val, stamp_val, list_val, dict_val,
  Dict, dict, entries, lookup, get_item, py_int, str_of,
}

-- `CheckpointValue`
pub data Checkpoint : Type 0 where
  number : ℤ → Checkpoint
  stamp : Datetime → Checkpoint
  text : String → Checkpoint

abbrev tagged : String → Value → Value
tagged t v = dict (("t", str_val t) ∷ ("v", v) ∷ [])

-- `_serialise_checkpoint`
unfoldable pub serialise : Option Checkpoint → Value
serialise none = none_val
serialise (some (stamp t)) = tagged "ts" (str_val (isoformat "T" t))
serialise (some (text s)) = tagged "str" (str_val s)
serialise (some (number z)) = tagged "int" (int_val z)

-- `v == s`, for a text `s`
unfoldable pub is_text : String → Option Value → Bool
is_text s (some (str_val r)) = r == s
is_text s (some (enum_val _ r)) = r == s
is_text s _ = false

datetime_of_text : String → Result Datetime
datetime_of_text s = elim (fromisoformat s) [
  | some t ↦ ok t
  | none ↦ raise value_error "Invalid isoformat string"
]

-- `datetime.fromisoformat(v)`
unfoldable pub datetime_of : Value → Result Datetime
unfolding datetime_of_text
datetime_of (str_val s) = datetime_of_text s
datetime_of (enum_val _ s) = datetime_of_text s
datetime_of _ = raise type_error "fromisoformat: argument must be str"

-- `str(raw["v"])` of a serialised checkpoint: what orchestration/operators/metric_operator.py stores
unfoldable pub stored_text : Checkpoint → String
stored_text (number z) = str_of_int z
stored_text (stamp t) = isoformat "T" t
stored_text (text s) = s

-- a text: an integer, else an ISO time, else the text itself
unfoldable pub parse_text : String → Checkpoint
unfolding int_of_text strip
parse_text s = elim (int_of_text s) [
  | some z ↦ number z
  | none ↦ elim (fromisoformat (strip s)) [ some t ↦ stamp t | none ↦ text (strip s) ]
]

module _ (repr : Value → String) where
  deserialise_dict : Dict Value → Result (Option Checkpoint)
  unfolding lookup is_text get_item datetime_of py_int str_of
  deserialise_dict raw =
      let tag = lookup "t" raw in
      if is_text "ts" tag
      then (do t ← datetime_of (← get_item "v" raw); ok (some (stamp t)))
      else if is_text "int" tag
      then (do z ← py_int (← get_item "v" raw); ok (some (number z)))
      else if is_text "str" tag
      then (do v ← get_item "v" raw; ok (some (text (str_of repr v))))
      else ok none

  -- `_deserialise_checkpoint`
  unfoldable pub deserialise : Value → Result (Option Checkpoint)
  unfolding deserialise_dict
  deserialise (dict_val fs) = deserialise_dict (entries fs)
  deserialise _ = ok none

  -- `_parse_checkpoint`
  unfoldable pub parse_checkpoint : Value → Result (Option Checkpoint)
  unfolding parse_text str_of py_int
  parse_checkpoint none_val = ok none
  parse_checkpoint (stamp_val t) = ok (some (stamp t))
  parse_checkpoint (bool_val b) = raise type_error "Boolean is not a valid checkpoint value"
  parse_checkpoint (int_val z) = ok (some (number z))
  parse_checkpoint (real_val r) = do z ← py_int (real_val r); ok (some (number z))
  parse_checkpoint v = ok (some (parse_text (str_of repr v)))
