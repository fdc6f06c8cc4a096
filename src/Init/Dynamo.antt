-- ===== src/Init/Dynamo.antt =====
-- `_max_dynamodb` of orchestration/operators/init_operator.py, on the items of the scanned pages, and
-- Python's `>` on checkpoints.
pub mod Order
pub mod Laws
use Prim.Native.String
use batch_ingestion_service.Prelude.{
  ℕ, zero, suc, ◌+◌, ◌-◌, ◌*◌, ◌/◌, code, String, Bool, true, false, ◌&&◌, ◌||◌, Option, none, some,
  List, [], ◌∷◌, ltb, nat_eq, if◌then◌else◌,
}
use batch_ingestion_service.Prelude.Int.{ℤ, pos, pos_part, neg_part, ltb_ℤ}
use batch_ingestion_service.Py.Exc.{Result, ok, raise, type_error, ◌>>=◌}
use batch_ingestion_service.Py.Time.{Date, Datetime, days_in_month}
use batch_ingestion_service.Py.Value.{Value, none_val, Dict, dict, or_else, get_or, method_dict}
use batch_ingestion_service.Checkpoint.{Checkpoint, number, stamp, text, parse_checkpoint}

-- the days of a year before a month
unfoldable pub days_before_month : ℕ → ℕ → ℕ
unfolding days_in_month
days_before_month year zero = 0
days_before_month year (suc m) =
    if nat_eq m 0 then 0 else days_before_month year m + days_in_month year m

-- `date.toordinal`
unfoldable pub ordinal : Date → ℕ
unfolding days_before_month
ordinal d =
    let y = d.year - 1 in
    365 * y + y / 4 - y / 100 + y / 400 + days_before_month d.year d.month + d.day

-- the local time, in microseconds
unfoldable pub micros : Datetime → ℕ
unfolding ordinal
micros t = (((ordinal t.date * 24 + t.hour) * 60 + t.minute) * 60 + t.second) * 1000000 + t.micro

-- `a > b` of the instants of two aware times
unfoldable pub later_instant : Datetime → ℤ → Datetime → ℤ → Bool
unfolding micros
later_instant a x b y =
    ltb (micros b + 1000000 * (neg_part y + pos_part x))
      (micros a + 1000000 * (neg_part x + pos_part y))

unfoldable pub later_time : Datetime → Option ℤ → Datetime → Option ℤ → Result Bool
unfolding micros later_instant
later_time a none b none = ok (ltb (micros b) (micros a))
later_time a (some x) b (some y) = ok (later_instant a x b y)
later_time _ _ _ _ = raise type_error "can't compare offset-naive and offset-aware datetimes"

-- `s > t` of two texts
unfoldable pub text_gt : String → String → Bool
text_gt String.[] t = false
text_gt (String.◌∷◌ c s) String.[] = true
text_gt (String.◌∷◌ c s) (String.◌∷◌ d t) =
    let rest = text_gt s t in ltb (code d) (code c) || nat_eq (code c) (code d) && rest

-- `a > b`
unfoldable pub greater : Checkpoint → Checkpoint → Result Bool
unfolding text_gt later_time
greater (number a) (number b) = ok (ltb_ℤ b a)
greater (stamp a) (stamp b) = later_time a a.offset b b.offset
greater (text a) (text b) = ok (text_gt a b)
greater _ _ = raise type_error "'>' not supported between instances"

-- `max_val` after a candidate
unfoldable pub larger : Option Checkpoint → Option Checkpoint → Result (Option Checkpoint)
larger none c = ok c
larger (some m) none = raise type_error "'>' not supported between instances"
larger (some m) (some c) = do more ← greater c m; ok (some (if more then c else m))

module _ (repr : Value → String) (column : String) where
  -- `attr.get("N") or attr.get("S")` of an item
  unfoldable pub raw_of : Dict Value → Result Value
  unfolding get_or method_dict or_else
  raw_of item = do
    attr ← method_dict (get_or item column (dict []))
    ok (or_else (get_or attr "N" none_val) (get_or attr "S" none_val))

  -- `_parse_checkpoint` of a value that is there, and the comparison
  unfoldable pub after_raw : Option Checkpoint → Value → Result (Option Checkpoint)
  after_raw max_val none_val = ok max_val
  after_raw max_val raw = do candidate ← parse_checkpoint repr raw; larger max_val candidate

  -- the loop over the items, with `max_val`
  unfoldable pub scan : Option Checkpoint → List (Dict Value) → Result (Option Checkpoint)
  unfolding raw_of after_raw
  scan max_val [] = ok max_val
  scan max_val (item ∷ items) = do raw ← raw_of item; next ← after_raw max_val raw; scan next items
