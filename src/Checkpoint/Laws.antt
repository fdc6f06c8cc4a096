-- ===== src/Checkpoint/Laws.antt =====
-- Checkpoints that are written and read back.
use batch_ingestion_service.Prelude.{String, Option, none, some, ◌≡◌, refl, arith}
use batch_ingestion_service.Py.Exc.{ok}
use batch_ingestion_service.Py.Number.{int_of_text, strip}
use batch_ingestion_service.Py.Number.Laws.{int_of_text-str_of_int, strip_of_NoSpace}
use batch_ingestion_service.Py.Time.{isoformat, fromisoformat}
use batch_ingestion_service.Py.Time.Laws.{IsTime, fromisoformat-isoformat}
use batch_ingestion_service.Py.Time.NotInt.{isoformat-NoSpace, int_of_text-isoformat}
use batch_ingestion_service.Py.Value.{Value}
use batch_ingestion_service.Checkpoint.{
  Checkpoint, number, stamp, text, serialise, deserialise, parse_text, stored_text,
}

abbrev pub CheckpointOk : Option Checkpoint → Type 0
CheckpointOk (some (stamp t)) = IsTime t
CheckpointOk _ = Unit

-- What `_serialise_checkpoint` writes, `_deserialise_checkpoint` reads back.
pub deserialise-serialise :
    (repr : Value → String) (c : Option Checkpoint)
    → CheckpointOk c
    → deserialise repr (serialise c) ≡ ok c
unfolding deserialise serialise
deserialise-serialise repr none h = refl
deserialise-serialise repr (some (number z)) h = refl
deserialise-serialise repr (some (text s)) h = refl
deserialise-serialise repr (some (stamp t)) h = ground (arith, fromisoformat-isoformat "T" t h)

-- A text that is read as itself: no white space around it, no integer and no ISO time.
pub record IsPlainText (s : String) : Type 0 where
  pub stripped : strip s ≡ s
  pub not_int : int_of_text s ≡ none
  pub not_time : fromisoformat s ≡ none

abbrev pub IsStorable : Checkpoint → Type 0
IsStorable (number z) = Unit
IsStorable (stamp t) = IsTime t
IsStorable (text s) = IsPlainText s

-- A checkpoint that is stored as text is parsed as itself.
pub parse_text-stored_text : (c : Checkpoint) → IsStorable c → parse_text (stored_text c) ≡ c
unfolding parse_text stored_text
parse_text-stored_text (number z) h = ground (arith, int_of_text-str_of_int z)
parse_text-stored_text (stamp t) h = ground (
  arith,
  int_of_text-isoformat t h,
  strip_of_NoSpace (isoformat "T" t) (isoformat-NoSpace t h),
  fromisoformat-isoformat "T" t h,
)
parse_text-stored_text (text s) h = ground (arith, h.stripped, h.not_int, h.not_time)
