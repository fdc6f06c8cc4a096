-- ===== src/Py/Time/NotInt.antt =====
-- The ISO form of a time is not the text of an integer, and holds no white space.
use batch_ingestion_service.Prelude.{
  ℕ, suc, ◌+◌, ◌*◌, ◌/◌, ◌%◌, ◌<◌, String, ◌≡◌, refl, ◌∙◌, ap, true, false, some, none, Option,
  arith, nat_eq, Bool-cases, inl, inr, if◌then◌else◌,
}
use batch_ingestion_service.Prelude.Int.{ℤ, pos, negsuc}
use batch_ingestion_service.Py.Number.{
  digit_char, is_space, read_digits, read_int, int_of_text, map_sign,
}
use batch_ingestion_service.Py.Number.Laws.{
  code-digit_char, is_digit-digit_char, NoSpace, strip_of_NoSpace, read_digits-cons, read_int-digit,
}
use batch_ingestion_service.Py.Time.{
  Date, Datetime, two, four, six, date_onto, date_ok, isoformat, time_onto, show_micro, show_offset,
  offset_seconds,
}
use batch_ingestion_service.Py.Time.Laws.{IsTime, OffsetOk, date_ok_bounds}

NoSpace-digit_char : (d : ℕ) → d < 10 → is_space (digit_char d) ≡ false
NoSpace-digit_char d h = ground (arith, code-digit_char d h)

NoSpace-two : (n : ℕ) (s : String) → n < 100 → NoSpace s → NoSpace (two n s)
unfolding two
NoSpace-two n s h k =
    (NoSpace-digit_char (n / 10) (omega arith), (NoSpace-digit_char (n % 10) (omega arith), k))

NoSpace-four : (n : ℕ) (s : String) → n < 10000 → NoSpace s → NoSpace (four n s)
unfolding four
NoSpace-four n s h k =
    NoSpace-two (n / 100) (two (n % 100) s) (omega arith) (NoSpace-two (n % 100) s (omega arith) k)

NoSpace-six : (n : ℕ) (s : String) → n < 1000000 → NoSpace s → NoSpace (six n s)
unfolding six
NoSpace-six n s h k =
    NoSpace-two (n / 10000) (four (n % 10000) s) (omega arith)
      (NoSpace-four (n % 10000) s (omega arith) k)

NoSpace-tail : (n : ℕ) → n < 60 → NoSpace (if nat_eq n 0 then "" else String.◌∷◌ ":" (two n ""))
NoSpace-tail n h = elim (Bool-cases (nat_eq n 0)) [
  | inl zeroed ↦ rw zeroed tt
  | inr there ↦ rw there (refl, NoSpace-two n "" (omega arith) tt)
]

NoSpace-offset_seconds : (n : ℕ) → n < 86400 → NoSpace (offset_seconds n)
unfolding offset_seconds
NoSpace-offset_seconds n h =
    let last : String = if nat_eq (n % 60) 0 then "" else String.◌∷◌ ":" (two (n % 60) "") in
    NoSpace-two (n / 3600) (String.◌∷◌ ":" (two (n / 60 % 60) last)) (omega arith)
      (refl, NoSpace-two (n / 60 % 60) last (omega arith) (NoSpace-tail (n % 60) (omega arith)))

NoSpace-show_offset : (o : Option ℤ) → OffsetOk o → NoSpace (show_offset o)
unfolding show_offset
NoSpace-show_offset none h = tt
NoSpace-show_offset (some (pos n)) h = (refl, NoSpace-offset_seconds n (omega arith))
NoSpace-show_offset (some (negsuc n)) h = (refl, NoSpace-offset_seconds (suc n) (omega arith))

NoSpace-show_micro : (u : ℕ) (s : String) → u < 1000000 → NoSpace s → NoSpace (show_micro u s)
unfolding show_micro
NoSpace-show_micro u s h k = elim (Bool-cases (nat_eq u 0)) [
  | inl zeroed ↦ rw zeroed k
  | inr there ↦ rw there (refl, NoSpace-six u s h k)
]

NoSpace-time_onto : (t : Datetime) → IsTime t → NoSpace (time_onto t)
unfolding time_onto
NoSpace-time_onto t v =
    let s1 : String = show_micro t.micro (show_offset t.offset) in
    let s2 : String = String.◌∷◌ ":" (two t.second s1) in
    let h1 : NoSpace s1 =
      NoSpace-show_micro t.micro (show_offset t.offset) v.micro
        (NoSpace-show_offset t.offset v.offset) in
    let h2 : NoSpace s2 = (refl, NoSpace-two t.second s1 (omega arith) h1) in
    NoSpace-two t.hour (String.◌∷◌ ":" (two t.minute s2)) (omega arith)
      (refl, NoSpace-two t.minute s2 (omega arith) h2)

NoSpace-date_onto : (d : Date) (s : String) → date_ok d ≡ true → NoSpace s → NoSpace (date_onto d s)
unfolding date_onto
NoSpace-date_onto d s h k =
    let (y, m, x) = date_ok_bounds d h in
    let s1 : String = String.◌∷◌ "-" (two d.day s) in
    NoSpace-four d.year (String.◌∷◌ "-" (two d.month s1)) y
      (refl, NoSpace-two d.month s1 m (refl, NoSpace-two d.day s x k))

pub isoformat-NoSpace : (t : Datetime) → IsTime t → NoSpace (isoformat "T" t)
unfolding isoformat
isoformat-NoSpace t v =
    NoSpace-date_onto t.date (String.◌∷◌ "T" (time_onto t)) v.date (refl, NoSpace-time_onto t v)

read_digits-two :
    (acc n : ℕ) (s : String) → n < 100 → read_digits acc (two n s) ≡ read_digits (acc * 100 + n) s
unfolding two
read_digits-two acc n s h =
    read_digits-cons acc (n / 10) (String.◌∷◌ (digit_char (n % 10)) s) (omega arith)
    ∙ read_digits-cons (acc * 10 + n / 10) (n % 10) s (omega arith)
    ∙ ap (λ k. read_digits k s) (omega arith)

read_digits-four : (n : ℕ) (s : String) → n < 10000 → read_digits 0 (four n s) ≡ read_digits n s
unfolding four
read_digits-four n s h =
    read_digits-two 0 (n / 100) (two (n % 100) s) (omega arith)
    ∙ read_digits-two (0 * 100 + n / 100) (n % 100) s (omega arith)
    ∙ ap (λ k. read_digits k s) (omega arith)

-- a dash ends a run of digits
read_digits-dash : (acc m : ℕ) (s : String) → read_digits acc (String.◌∷◌ "-" (two m s)) ≡ none
unfolding read_digits two
read_digits-dash acc m s = refl

-- four digits are read as such: no sign stands in front
read_int-four :
    (n : ℕ) (s : String) → n < 10000 → read_int (four n s) ≡ map_sign pos (read_digits 0 (four n s))
unfolding four two
read_int-four n s h =
    read_int-digit (digit_char (n / 100 / 10)) _ (is_digit-digit_char (n / 100 / 10) (omega arith))

int_of_text-date_onto : (d : Date) (s : String) → date_ok d ≡ true → read_int (date_onto d s) ≡ none
unfolding date_onto
int_of_text-date_onto d s h =
    let (y, _, _) = date_ok_bounds d h in
    let rest : String = String.◌∷◌ "-" (two d.month (String.◌∷◌ "-" (two d.day s))) in
    read_int-four d.year rest y
    ∙ ap (map_sign pos) (
        read_digits-four d.year rest y
        ∙ read_digits-dash d.year d.month (String.◌∷◌ "-" (two d.day s)))
    ∙ (unfold map_sign in refl)

-- `int(t.isoformat())` raises `ValueError`.
pub int_of_text-isoformat : (t : Datetime) → IsTime t → int_of_text (isoformat "T" t) ≡ none
unfolding int_of_text isoformat
int_of_text-isoformat t v =
    ap read_int (strip_of_NoSpace (isoformat "T" t) (isoformat-NoSpace t v))
    ∙ int_of_text-date_onto t.date (String.◌∷◌ "T" (time_onto t)) v.date
