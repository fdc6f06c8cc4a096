-- ===== src/Py/Time/Laws.antt =====
-- Printing a time in ISO form and reading it back.
use batch_ingestion_service.Prelude.{
  ℕ, zero, suc, ◌+◌, ◌*◌, ◌/◌, ◌%◌, ◌<◌, Char, String, Bool, ◌≡◌, refl, ◌∙◌, ap, true, false, some,
  none, Option, arith, nat_eq, Bool-cases, inl, inr, if◌then◌else◌,
}
use batch_ingestion_service.Prelude.Int.{ℤ, pos, negsuc, pos_part, neg_part}
use batch_ingestion_service.Py.Number.{digit_char}
use batch_ingestion_service.Py.Number.Laws.{code-digit_char, is_digit-digit_char}
use batch_ingestion_service.Py.Time.{
  Date, Datetime, two, four, six, date_onto, date_ok, isoformat_date, isoformat, time_onto,
  show_micro, show_offset, offset_seconds, read_fixed, expect, read_date, read_fraction,
  starts_with_digit, read_micro, read_colon_two, read_seconds, signed, read_signed_offset,
  read_offset, read_time, fromisoformat, date_fromisoformat,
}

read_fixed-cons :
    (k acc d : ℕ) (s : String)
    → d < 10
    → read_fixed (suc k) acc (String.◌∷◌ (digit_char d) s) ≡ read_fixed k (acc * 10 + d) s
unfolding read_fixed
read_fixed-cons k acc d s h =
    rw is_digit-digit_char
      (rw (code-digit_char d h) (ap (λ j. read_fixed k (acc * 10 + j) s) (omega arith)))

read_fixed-two :
    (k acc n : ℕ) (s : String)
    → n < 100
    → read_fixed (suc (suc k)) acc (two n s) ≡ read_fixed k (acc * 100 + n) s
unfolding two
read_fixed-two k acc n s h =
    read_fixed-cons (suc k) acc (n / 10) _ (omega arith)
    ∙ read_fixed-cons k (acc * 10 + n / 10) (n % 10) s (omega arith)
    ∙ ap (λ j. read_fixed k j s) (omega arith)

pub read_two : (n : ℕ) (s : String) → n < 100 → read_fixed 2 0 (two n s) ≡ some (n, s)
unfolding read_fixed
read_two n s h = read_fixed-two 0 0 n s h ∙ ap (λ j. some (j, s)) (omega arith)

pub read_four : (n : ℕ) (s : String) → n < 10000 → read_fixed 4 0 (four n s) ≡ some (n, s)
unfolding read_fixed four
read_four n s h =
    read_fixed-two 2 0 (n / 100) (two (n % 100) s) (omega arith)
    ∙ read_fixed-two 0 (0 * 100 + n / 100) (n % 100) s (omega arith)
    ∙ ap (λ j. some (j, s)) (omega arith)

read_fraction-cons :
    (scale acc d : ℕ) (s : String)
    → d < 10
    → read_fraction scale acc (String.◌∷◌ (digit_char d) s)
      ≡ read_fraction (scale / 10) (acc + d * (scale / 10)) s
unfolding read_fraction
read_fraction-cons scale acc d s h = rw is_digit-digit_char (
    rw (code-digit_char d h)
      (ap (λ j. read_fraction (scale / 10) (acc + j * (scale / 10)) s) (omega arith)))

read_fraction-end :
    (scale acc : ℕ) (s : String)
    → starts_with_digit s ≡ false
    → read_fraction scale acc s ≡ (acc, s)
unfolding read_fraction starts_with_digit
read_fraction-end scale acc String.[] h = refl
read_fraction-end scale acc (String.◌∷◌ c s) h = rw h

read_fraction-two :
    (scale acc n : ℕ) (s : String)
    → n < 100
    → read_fraction scale acc (two n s)
      ≡ read_fraction (scale / 10 / 10) (acc + n / 10 * (scale / 10) + n % 10 * (scale / 10 / 10)) s
unfolding two
read_fraction-two scale acc n s h =
    read_fraction-cons scale acc (n / 10) _ (omega arith)
    ∙ read_fraction-cons (scale / 10) (acc + n / 10 * (scale / 10)) (n % 10) s (omega arith)

read_fraction-six :
    (u : ℕ) (s : String)
    → u < 1000000
    → starts_with_digit s ≡ false
    → read_fraction 1000000 0 (six u s) ≡ (u, s)
unfolding six four
read_fraction-six u s h e =
    read_fraction-two 1000000 0 (u / 10000) _ (omega arith)
    ∙ read_fraction-two 10000 _ (u % 10000 / 100) _ (omega arith)
    ∙ read_fraction-two 100 _ (u % 10000 % 100) s (omega arith)
    ∙ read_fraction-end 1 _ s e
    ∙ ap (λ j. (j, s)) (omega arith)

starts_with_digit-two : (n : ℕ) (s : String) → n < 100 → starts_with_digit (two n s) ≡ true
unfolding two starts_with_digit
starts_with_digit-two n s h = is_digit-digit_char (n / 10) (omega arith)

-- an offset in seconds is less than a day either way
abbrev pub OffsetOk : Option ℤ → Type 0
OffsetOk none = Unit
OffsetOk (some z) = pos_part z + neg_part z < 86400

starts_with_digit-show_offset : (o : Option ℤ) → starts_with_digit (show_offset o) ≡ false
unfolding starts_with_digit show_offset
starts_with_digit-show_offset none = refl
starts_with_digit-show_offset (some (pos s)) = refl
starts_with_digit-show_offset (some (negsuc s)) = refl

read_micro-show_offset : (o : Option ℤ) → read_micro (show_offset o) ≡ some (0, show_offset o)
unfolding show_offset read_micro
read_micro-show_offset none = refl
read_micro-show_offset (some (pos s)) = refl
read_micro-show_offset (some (negsuc s)) = refl

starts_with_digit-six : (u : ℕ) (s : String) → u < 1000000 → starts_with_digit (six u s) ≡ true
unfolding six
starts_with_digit-six u s h = starts_with_digit-two (u / 10000) _ (omega arith)

read_micro-point :
    (s : String)
    → starts_with_digit s ≡ true
    → read_micro (String.◌∷◌ "." s) ≡ some (read_fraction 1000000 0 s)
unfolding read_micro
read_micro-point s h = rw h

show_micro_of_pos :
    (u : ℕ) (rest : String) → nat_eq u 0 ≡ false → show_micro u rest ≡ String.◌∷◌ "." (six u rest)
unfolding show_micro
show_micro_of_pos u rest h = rw h

show_micro_of_zero : (u : ℕ) (rest : String) → nat_eq u 0 ≡ true → show_micro u rest ≡ rest
unfolding show_micro
show_micro_of_zero u rest h = rw h

read_micro-show_micro :
    (u : ℕ) (o : Option ℤ)
    → u < 1000000
    → read_micro (show_micro u (show_offset o)) ≡ some (u, show_offset o)
read_micro-show_micro u o h = elim (Bool-cases (nat_eq u 0)) [
  | inl zeroed ↦
      ap read_micro (show_micro_of_zero u (show_offset o) zeroed)
      ∙ read_micro-show_offset o
      ∙ ap (λ j. some (j, show_offset o)) (ground arith)
  | inr there ↦
      ap read_micro (show_micro_of_pos u (show_offset o) there)
      ∙ read_micro-point (six u (show_offset o)) (starts_with_digit-six u (show_offset o) h)
      ∙ ap some (read_fraction-six u (show_offset o) h (starts_with_digit-show_offset o))
]

read_colon_two-two :
    (n : ℕ) (s : String) → n < 100 → read_colon_two (String.◌∷◌ ":" (two n s)) ≡ some (n, s)
unfolding read_colon_two
read_colon_two-two n s h = read_two n s h

read_tail :
    (n : ℕ)
    → n < 60
    → read_colon_two (if nat_eq n 0 then "" else String.◌∷◌ ":" (two n "")) ≡ some (n, "")
unfolding read_colon_two
read_tail n h = elim (Bool-cases (nat_eq n 0)) [
  | inl zeroed ↦ rw zeroed (ap (λ j. some (j, "")) (ground arith))
  | inr there ↦ rw there (read_two n "" (omega arith))
]

read_signed_offset-offset_seconds :
    (west : Bool) (n : ℕ)
    → n < 86400
    → read_signed_offset west (offset_seconds n) ≡ some (some (signed west n))
unfolding read_signed_offset offset_seconds
read_signed_offset-offset_seconds west n h = rw (read_two (n / 3600) _ (omega arith)) (
    rw (read_colon_two-two (n / 60 % 60) _ (omega arith)) (
      rw (read_tail (n % 60) (omega arith)) (
        let total : n / 3600 * 3600 + n / 60 % 60 * 60 + n % 60 ≡ n = omega arith in
        rw total (ground arith))))

signed-pos : (n : ℕ) → signed false n ≡ pos n
unfolding signed
signed-pos zero = refl
signed-pos (suc n) = refl

read_offset-show_offset : (o : Option ℤ) → OffsetOk o → read_offset (show_offset o) ≡ some o
unfolding read_offset show_offset
read_offset-show_offset none h = refl
read_offset-show_offset (some (pos n)) h =
    read_signed_offset-offset_seconds false n (omega arith) ∙ ap (λ z. some (some z)) (signed-pos n)
read_offset-show_offset (some (negsuc n)) h =
    read_signed_offset-offset_seconds true (suc n) (omega arith) ∙ (unfold signed in refl)

-- The values that Python's constructors accept.
pub record IsTime (t : Datetime) : Type 0 where
  pub date : date_ok t.date ≡ true
  pub hour : t.hour < 24
  pub minute : t.minute < 60
  pub second : t.second < 60
  pub micro : t.micro < 1000000
  pub offset : OffsetOk t.offset

pub date_ok_bounds :
    (d : Date) → date_ok d ≡ true → (d.year < 10000) × (d.month < 100) × (d.day < 100)
unfolding date_ok
date_ok_bounds d h = ground arith

read_date-date_onto :
    (d : Date) (rest : String) → date_ok d ≡ true → read_date (date_onto d rest) ≡ some (d, rest)
unfolding read_date date_onto expect
read_date-date_onto d rest h =
    let (y, m, x) = date_ok_bounds d h in
    rw (read_four d.year _ y) (rw (read_two d.month _ m) (rw (read_two d.day rest x) (rw h)))

read_seconds-show :
    (n u : ℕ) (o : Option ℤ)
    → n < 60
    → u < 1000000
    → read_seconds (String.◌∷◌ ":" (two n (show_micro u (show_offset o))))
      ≡ some (n, u, show_offset o)
unfolding read_seconds
read_seconds-show n u o h k =
    rw (read_two n (show_micro u (show_offset o)) (omega arith)) (rw (read_micro-show_micro u o k))

read_time-time_onto : (t : Datetime) → IsTime t → read_time t.date (time_onto t) ≡ some t
unfolding read_time time_onto
read_time-time_onto t v = rw (read_two t.hour _ (omega arith)) (
    rw (read_colon_two-two t.minute _ (omega arith)) (
      rw (read_seconds-show t.second t.micro t.offset v.second v.micro)
        (rw (read_offset-show_offset t.offset v.offset) (ground arith))))

-- `datetime.fromisoformat(t.isoformat(sep))` is `t`, whatever the separator.
pub fromisoformat-isoformat :
    (sep : Char) (t : Datetime) → IsTime t → fromisoformat (isoformat sep t) ≡ some t
unfolding fromisoformat isoformat
fromisoformat-isoformat sep t v = rw (read_date-date_onto t.date _ v.date) (read_time-time_onto t v)

-- `date.fromisoformat(d.isoformat())` is `d`.
pub date_fromisoformat-isoformat_date :
    (d : Date) → date_ok d ≡ true → date_fromisoformat (isoformat_date d) ≡ some d
unfolding date_fromisoformat isoformat_date
date_fromisoformat-isoformat_date d h = rw (read_date-date_onto d "" h)
