-- ===== src/Write/Path/Segments.antt =====
-- The parts of a write path that the run gives: each is one segment of it.
use text.Mathlib.TextLemmas.{cons-append, cons≢nil, tail-eq_of_cons-eq}
use batch_ingestion_service.Prelude.{
  ℕ, ◌/◌, ◌%◌, ◌<◌, Char, code, String, ◌<>◌, ◌≡◌, refl, Bool, true, false, ◌||◌, List, [], ◌∷◌,
  arith, nat_eq, ◌==◌, eq_iff, All, if◌then◌else◌, Bool-cases, inl, inr, ◌⊎◌,
}
use batch_ingestion_service.Py.Number.{digit_char}
use batch_ingestion_service.Py.Number.Laws.{code-digit_char}
use batch_ingestion_service.Py.Time.{
  Date, Datetime, two, four, date_onto, date_ok, isoformat_date, strftime_hms,
}
use batch_ingestion_service.Py.Time.Laws.{IsTime, date_ok_bounds}
use batch_ingestion_service.Py.Path.Laws.{Lacks, Lacks-append, is_empty-append_left, IsSegment}
use batch_ingestion_service.Config.Sink.{SinkConfig}
use batch_ingestion_service.Write.Path.{is_alnum, safe_run_id, date_part, time_part, run_part}

Lacks-digit_char : (d : ℕ) → d < 10 → nat_eq (code (digit_char d)) b'/' ≡ false
Lacks-digit_char d h = ground (arith, code-digit_char d h)

Lacks-two : (n : ℕ) (s : String) → n < 100 → Lacks b'/' s → Lacks b'/' (two n s)
unfolding two
Lacks-two n s h k =
    (Lacks-digit_char (n / 10) (omega arith), (Lacks-digit_char (n % 10) (omega arith), k))

Lacks-isoformat_date : (d : Date) → date_ok d ≡ true → Lacks b'/' (isoformat_date d)
unfolding isoformat_date date_onto four
Lacks-isoformat_date d h =
    let (y, m, x) = date_ok_bounds d h in
    let day : String = two d.day "" in
    let month : String = two d.month (String.◌∷◌ "-" day) in
    let low : String = two (d.year % 100) (String.◌∷◌ "-" month) in
    let day_ok : Lacks b'/' day = Lacks-two d.day "" x tt in
    let month_ok : Lacks b'/' month = Lacks-two d.month (String.◌∷◌ "-" day) m (refl, day_ok) in
    let low_ok : Lacks b'/' low =
      Lacks-two (d.year % 100) (String.◌∷◌ "-" month) (omega arith) (refl, month_ok) in
    Lacks-two (d.year / 100) low (omega arith) low_ok

Lacks-strftime_hms : (t : Datetime) → IsTime t → Lacks b'/' (strftime_hms t)
unfolding strftime_hms
Lacks-strftime_hms t v =
    let s : String = two t.second "" in
    let m : String = two t.minute (String.◌∷◌ "-" s) in
    let s_ok : Lacks b'/' s = Lacks-two t.second "" (omega arith) tt in
    let m_ok : Lacks b'/' m = Lacks-two t.minute (String.◌∷◌ "-" s) (omega arith) (refl, s_ok) in
    Lacks-two t.hour (String.◌∷◌ "-" m) (omega arith) (refl, m_ok)

-- a letter, a digit or an underscore
abbrev pub is_safe : Char → Bool
is_safe c = is_alnum c || nat_eq (code c) b'_'

abbrev pub AllSafe : String → Type 0
AllSafe String.[] = Unit
AllSafe (String.◌∷◌ c s) = (is_safe c ≡ true) × AllSafe s

-- The run id in a path holds letters, digits and underscores alone.
safe_run_id-AllSafe : (s : String) → AllSafe (safe_run_id s)
unfolding safe_run_id
safe_run_id-AllSafe String.[] = tt
safe_run_id-AllSafe (String.◌∷◌ c s) = (one, safe_run_id-AllSafe s)
  where
    one : is_safe (if is_alnum c then c else "_") ≡ true
    one = elim (Bool-cases (is_alnum c)) [ inl kept ↦ rw kept (rw kept) | inr other ↦ rw other ]

-- a text with an underscore in the place of each character that is no ASCII letter and no digit
abbrev pub Sanitises : String → String → Type 0
Sanitises String.[] String.[] = Unit
Sanitises (String.◌∷◌ c s) (String.◌∷◌ d safe) =
    (((is_alnum c ≡ true) × (d ≡ c)) ⊎ ((is_alnum c ≡ false) × (d ≡ "_"))) × Sanitises s safe
Sanitises _ _ = ⊥

pub safe_run_id-Sanitises : (s : String) → Sanitises s (safe_run_id s)
unfolding safe_run_id
safe_run_id-Sanitises String.[] = tt
safe_run_id-Sanitises (String.◌∷◌ c s) = (one, safe_run_id-Sanitises s)
  where
    one :
        ((is_alnum c ≡ true) × ((if is_alnum c then c else "_") ≡ c))
        ⊎ ((is_alnum c ≡ false) × ((if is_alnum c then c else "_") ≡ "_"))
    one = elim (Bool-cases (is_alnum c)) [
      | inl kept ↦ inl (kept, (rw kept refl))
      | inr other ↦ inr (other, (rw other refl))
    ]

AllSafe-Lacks : (s : String) → AllSafe s → Lacks b'/' s
AllSafe-Lacks String.[] h = tt
AllSafe-Lacks (String.◌∷◌ c s) (h, hs) = (ground arith, AllSafe-Lacks s hs)

two_characters : (c d : Char) (s : String) → (String.◌∷◌ c (String.◌∷◌ d s) == ".") ≡ false
two_characters c d s = elim (Bool-cases (String.◌∷◌ c (String.◌∷◌ d s) == ".")) [
  | inl same ↦ absurd (cons≢nil (tail-eq_of_cons-eq ((eq_iff _ _).0 same)))
  | inr other ↦ other
]

-- a label with a text behind it is one part of a path
labelled :
    (c d : Char) (label s : String)
    → Lacks b'/' (String.◌∷◌ c (String.◌∷◌ d label))
    → Lacks b'/' s
    → IsSegment (String.◌∷◌ c (String.◌∷◌ d label) <> s)
labelled c d label s h k = record {
  no_slash = Lacks-append b'/' (String.◌∷◌ c (String.◌∷◌ d label)) s h k;
  nonempty = is_empty-append_left (String.◌∷◌ c (String.◌∷◌ d label)) s refl;
  not_dot = rw (cons-append, cons-append) (two_characters c d (label <> s));
}

no_slashes : Lacks b'/' "ingestion_date=" × Lacks b'/' "ingestion_time=" × Lacks b'/' "run_id="
no_slashes = ground arith

date_part-IsSegment :
    (cfg : SinkConfig) → date_ok cfg.ingestion_date ≡ true → IsSegment (date_part cfg)
unfolding date_part
date_part-IsSegment cfg h =
    labelled "i" "n" "gestion_date=" (isoformat_date cfg.ingestion_date) no_slashes.0
      (Lacks-isoformat_date cfg.ingestion_date h)

time_part-IsSegment : (cfg : SinkConfig) → IsTime cfg.ingestion_time → IsSegment (time_part cfg)
unfolding time_part
time_part-IsSegment cfg v =
    labelled "i" "n" "gestion_time=" (strftime_hms cfg.ingestion_time) no_slashes.1
      (Lacks-strftime_hms cfg.ingestion_time v)

run_part-IsSegment : (run_id : String) → IsSegment (run_part run_id)
unfolding run_part
run_part-IsSegment run_id =
    labelled "r" "u" "n_id=" (safe_run_id run_id) no_slashes.2
      (AllSafe-Lacks (safe_run_id run_id) (safe_run_id-AllSafe run_id))

abbrev pub partitions : SinkConfig → String → List String
partitions cfg run_id = date_part cfg ∷ time_part cfg ∷ run_part run_id ∷ []

-- the dates of a sink config are dates that Python admits
pub record IsDated (cfg : SinkConfig) : Type 0 where
  pub date : date_ok cfg.ingestion_date ≡ true
  pub time : IsTime cfg.ingestion_time

pub partitions-IsSegment :
    (cfg : SinkConfig) (run_id : String) → IsDated cfg → All IsSegment (partitions cfg run_id)
partitions-IsSegment cfg run_id h = (
  date_part-IsSegment cfg h.date,
  (time_part-IsSegment cfg h.time, (run_part-IsSegment run_id, tt)),
)
