-- ===== src/Py/Time.antt =====
-- Dates and times: `date`, `datetime`, `isoformat` and `fromisoformat` on the extended calendar form.
pub mod Laws
pub mod NotInt
use Prim.Native.String
use batch_ingestion_service.Prelude.{
  ℕ, zero, suc, ◌+◌, ◌-◌, ◌*◌, ◌/◌, ◌%◌, Char, code, String, Bool, ◌&&◌, ◌||◌, true, false, not,
  Option, none, some, ltb, leb, nat_eq, if◌then◌else◌, ◌==◌,
}
use batch_ingestion_service.Prelude.Int.{ℤ, pos, negsuc}
use batch_ingestion_service.Py.Number.{digit_char, is_digit}

pub record Date : Type 0 where
  pub year : ℕ
  pub month : ℕ
  pub day : ℕ

-- The offset from UTC, in seconds; `none` is a naive time.
pub record Datetime : Type 0 where
  pub date : Date
  pub hour : ℕ
  pub minute : ℕ
  pub second : ℕ
  pub micro : ℕ
  pub offset : Option ℤ

infixr 67 ◌▹◌
abbrev ◌▹◌ : Char → String → String
c ▹ s = String.◌∷◌ c s

-- two, four and six digits in front of a text
unfoldable pub two : ℕ → String → String
unfolding digit_char
two n rest = digit_char (n / 10) ▹ digit_char (n % 10) ▹ rest

unfoldable pub four : ℕ → String → String
unfolding two
four n rest = two (n / 100) (two (n % 100) rest)

unfoldable pub six : ℕ → String → String
unfolding two four
six n rest = two (n / 10000) (four (n % 10000) rest)

unfoldable pub date_onto : Date → String → String
unfolding two four
date_onto d rest = four d.year ("-" ▹ two d.month ("-" ▹ two d.day rest))

-- `date.isoformat()`
unfoldable pub isoformat_date : Date → String
unfolding date_onto
isoformat_date d = date_onto d ""

unfoldable pub offset_seconds : ℕ → String
unfolding two
offset_seconds s =
    two (s / 3600)
      (":" ▹ two (s / 60 % 60) (if nat_eq (s % 60) 0 then "" else ":" ▹ two (s % 60) ""))

unfoldable pub show_offset : Option ℤ → String
unfolding offset_seconds
show_offset none = ""
show_offset (some (pos s)) = "+" ▹ offset_seconds s
show_offset (some (negsuc s)) = "-" ▹ offset_seconds (suc s)

unfoldable pub show_micro : ℕ → String → String
unfolding six
show_micro u rest = if nat_eq u 0 then rest else "." ▹ six u rest

unfoldable pub time_onto : Datetime → String
unfolding two show_micro show_offset
time_onto t =
    two t.hour (":" ▹ two t.minute (":" ▹ two t.second (show_micro t.micro (show_offset t.offset))))

-- `datetime.isoformat(sep=…)`
unfoldable pub isoformat : Char → Datetime → String
unfolding date_onto time_onto
isoformat sep t = date_onto t.date (sep ▹ time_onto t)

-- `datetime.strftime('%H-%M-%S')`
unfoldable pub strftime_hms : Datetime → String
unfolding two
strftime_hms t = two t.hour ("-" ▹ two t.minute ("-" ▹ two t.second ""))

infixl 5 ◌>>=◌
abbrev ◌>>=◌ {ℓ κ} : {A : Type ℓ} {B : Type κ} → Option A → (A → Option B) → Option B
none >>= k = none
some a >>= k = k a

-- `k` digits, read after `acc`
unfoldable pub read_fixed : ℕ → ℕ → String → Option (ℕ × String)
read_fixed zero acc s = some (acc, s)
read_fixed (suc k) acc String.[] = none
read_fixed (suc k) acc (String.◌∷◌ c s) =
    let rest = read_fixed k (acc * 10 + (code c - 48)) s in if is_digit c then rest else none

unfoldable pub expect : Char → String → Option String
expect c String.[] = none
expect c (String.◌∷◌ d s) = if nat_eq (code d) (code c) then some s else none

unfoldable pub is_leap : ℕ → Bool
is_leap y = nat_eq (y % 4) 0 && (not (nat_eq (y % 100) 0) || nat_eq (y % 400) 0)

unfoldable pub days_in_month : ℕ → ℕ → ℕ
unfolding is_leap
days_in_month y m =
    if nat_eq m 2
    then (if is_leap y then 29 else 28)
    else if nat_eq m 4 || nat_eq m 6 || nat_eq m 9 || nat_eq m 11
    then 30
    else 31

unfoldable pub date_ok : Date → Bool
unfolding days_in_month
date_ok d =
    leb 1 d.year
    && leb d.year 9999
    && leb 1 d.month
    && leb d.month 12
    && leb 1 d.day
    && leb d.day (days_in_month d.year d.month)

unfoldable pub read_date : String → Option (Date × String)
unfolding read_fixed expect date_ok
read_date s = do
  (y, s1) ← read_fixed 4 0 s
  s2 ← expect "-" s1
  (m, s3) ← read_fixed 2 0 s2
  s4 ← expect "-" s3
  (d, s5) ← read_fixed 2 0 s4
  let date : Date = record { year = y; month = m; day = d }
  if date_ok date then some (date, s5) else none

-- The digits after the point: `scale` is the weight of the digit before, so that six count.
unfoldable pub read_fraction : ℕ → ℕ → String → ℕ × String
read_fraction scale acc String.[] = (acc, "")
read_fraction scale acc (String.◌∷◌ c s) =
    let kept = read_fraction (scale / 10) (acc + (code c - 48) * (scale / 10)) s in
    if is_digit c then kept else (acc, String.◌∷◌ c s)

starts_with_digit : String → Bool
starts_with_digit String.[] = false
starts_with_digit (String.◌∷◌ c s) = is_digit c

unfoldable pub read_micro : String → Option (ℕ × String)
unfolding read_fraction starts_with_digit
read_micro String.[] = some (0, "")
read_micro (String.◌∷◌ c s) =
    if nat_eq (code c) b'.' || nat_eq (code c) b','
    then (if starts_with_digit s then some (read_fraction 1000000 0 s) else none)
    else some (0, String.◌∷◌ c s)

-- `:NN`, or nothing for 0
unfoldable pub read_colon_two : String → Option (ℕ × String)
unfolding expect read_fixed
read_colon_two s = elim (expect ":" s) [ none ↦ some (0, s) | some r ↦ read_fixed 2 0 r ]

-- `:SS[.ffffff]`, or nothing
unfoldable pub read_seconds : String → Option (ℕ × ℕ × String)
unfolding expect read_fixed read_micro
read_seconds s = elim (expect ":" s) [
  | none ↦ some (0, 0, s)
  | some r ↦ do (ss, r1) ← read_fixed 2 0 r; (u, r2) ← read_micro r1; some (ss, u, r2)
]

signed : Bool → ℕ → ℤ
signed west zero = pos 0
signed west (suc n) = if west then negsuc n else pos (suc n)

-- the offset, which ends the text
read_signed_offset : Bool → String → Option (Option ℤ)
unfolding read_fixed read_colon_two signed
read_signed_offset west s = do
  (h, s1) ← read_fixed 2 0 s
  (m, s2) ← read_colon_two s1
  (x, s3) ← read_colon_two s2
  let total = h * 3600 + m * 60 + x
  if ltb total 86400 && s3 == "" then some (some (signed west total)) else none

unfoldable pub read_offset : String → Option (Option ℤ)
unfolding read_signed_offset
read_offset String.[] = some none
read_offset (String.◌∷◌ c s) =
    if nat_eq (code c) b'Z'
    then (if s == "" then some (some (pos 0)) else none)
    else if nat_eq (code c) b'+'
    then read_signed_offset false s
    else if nat_eq (code c) b'-'
    then read_signed_offset true s
    else none

abbrev clock_ok : ℕ → ℕ → ℕ → Bool
clock_ok h m s = ltb h 24 && ltb m 60 && ltb s 60

unfoldable pub read_time : Date → String → Option Datetime
unfolding read_fixed read_colon_two read_seconds read_offset
read_time d s = do
  (h, s1) ← read_fixed 2 0 s
  (m, s2) ← read_colon_two s1
  (x, u, s3) ← read_seconds s2
  off ← read_offset s3
  let t : Datetime = record { date = d; hour = h; minute = m; second = x; micro = u; offset = off }
  if clock_ok h m x then some t else none

-- after the date: nothing for midnight, or a separator and the time
read_after_date : Date → String → Option Datetime
unfolding read_time
read_after_date d String.[] =
    some (record { date = d; hour = 0; minute = 0; second = 0; micro = 0; offset = none })
read_after_date d (String.◌∷◌ sep s) = read_time d s

-- `datetime.fromisoformat(s)`; `none` is its `ValueError`
unfoldable pub fromisoformat : String → Option Datetime
unfolding read_date read_after_date
fromisoformat s = do (d, rest) ← read_date s; read_after_date d rest

ends_here : Date × String → Option Date
ends_here (d, rest) = if rest == "" then some d else none

-- `date.fromisoformat(s)`
unfoldable pub date_fromisoformat : String → Option Date
unfolding read_date ends_here
date_fromisoformat s = do r ← read_date s; ends_here r
