-- ===== src/Py/Number/Laws.antt =====
-- Printing an integer and reading it back.
use batch_ingestion_service.Prelude.{
  ℕ, zero, suc, ◌+◌, ◌*◌, ◌/◌, ◌%◌, ◌<◌, Char, code, String, ◌≡◌, refl, ◌∙◌, ap, true, false, some,
  arith, ltb, Bool-cases, is_empty, nat_eq, inl, inr,
}
use batch_ingestion_service.Prelude.Int.{ℤ, pos, negsuc}
use batch_ingestion_service.Py.Number.{
  digit_char, is_digit, is_space, decimal_onto, decimal, str_of_int, read_digits, read_nat,
  read_int, int_of_text, strip, lstrip, rstrip, keep_unless_blank, map_sign,
}

pub code-digit_char : (d : ℕ) → d < 10 → code (digit_char d) ≡ 48 + d
unfolding digit_char
code-digit_char zero h = refl
code-digit_char (suc zero) h = refl
code-digit_char (suc (suc zero)) h = refl
code-digit_char (suc (suc (suc zero))) h = refl
code-digit_char (suc (suc (suc (suc zero)))) h = refl
code-digit_char (suc (suc (suc (suc (suc zero))))) h = refl
code-digit_char (suc (suc (suc (suc (suc (suc zero)))))) h = refl
code-digit_char (suc (suc (suc (suc (suc (suc (suc zero))))))) h = refl
code-digit_char (suc (suc (suc (suc (suc (suc (suc (suc zero)))))))) h = refl
code-digit_char (suc (suc (suc (suc (suc (suc (suc (suc (suc zero))))))))) h = refl
code-digit_char (suc (suc (suc (suc (suc (suc (suc (suc (suc (suc d)))))))))) h =
    absurd (omega arith)

pub is_digit-digit_char : (d : ℕ) → d < 10 → is_digit (digit_char d) ≡ true
is_digit-digit_char d h = ground (arith, code-digit_char d h)

-- a text of digits alone
abbrev pub AllDigits : String → Type 0
AllDigits String.[] = Unit
AllDigits (String.◌∷◌ c s) = (is_digit c ≡ true) × AllDigits s

decimal_onto-AllDigits :
    (fuel n : ℕ) (rest : String) → n < fuel → AllDigits rest → AllDigits (decimal_onto fuel n rest)
unfolding decimal_onto
decimal_onto-AllDigits zero n rest h a = absurd (omega arith)
decimal_onto-AllDigits (suc fuel) n rest h a = elim (Bool-cases (ltb n 10)) [
  | inl small ↦ rw small (is_digit-digit_char n (ground arith), a)
  | inr large ↦ rw large (
      decimal_onto-AllDigits fuel (n / 10) _ (ground arith)
        (is_digit-digit_char (n % 10) (omega arith), a))
]

-- a printed number is not the empty text
decimal_onto-nonempty :
    (fuel n : ℕ) (rest : String) → n < fuel → is_empty (decimal_onto fuel n rest) ≡ false
unfolding decimal_onto
decimal_onto-nonempty zero n rest h = absurd (omega arith)
decimal_onto-nonempty (suc fuel) n rest h = elim (Bool-cases (ltb n 10)) [
  | inl small ↦ rw small
  | inr large ↦ rw large (decimal_onto-nonempty fuel (n / 10) _ (ground arith))
]

pub read_digits-cons :
    (acc d : ℕ) (s : String)
    → d < 10
    → read_digits acc (String.◌∷◌ (digit_char d) s) ≡ read_digits (acc * 10 + d) s
unfolding read_digits
read_digits-cons acc d String.[] h = ground (arith, code-digit_char d h)
read_digits-cons acc d (String.◌∷◌ c s) h =
    rw is_digit-digit_char (
      rw (code-digit_char d h)
        (ap (λ k. read_digits (acc * 10 + k) (String.◌∷◌ c s)) (omega arith)))

read_digits-decimal_onto :
    (fuel n : ℕ) (rest : String)
    → n < fuel
    → read_digits 0 (decimal_onto fuel n rest) ≡ read_digits n rest
unfolding decimal_onto
read_digits-decimal_onto zero n rest h = absurd (omega arith)
read_digits-decimal_onto (suc fuel) n rest h = elim (Bool-cases (ltb n 10)) [
  | inl small ↦
      rw small
        (read_digits-cons 0 n rest (ground arith) ∙ ap (λ k. read_digits k rest) (omega arith))
  | inr large ↦ rw large (
      read_digits-decimal_onto fuel (n / 10) _ (ground arith)
      ∙ read_digits-cons (n / 10) (n % 10) rest (omega arith)
      ∙ ap (λ k. read_digits k rest) (omega arith))
]

read_nat_of_AllDigits :
    (s : String) → AllDigits s → is_empty s ≡ false → read_nat s ≡ read_digits 0 s
unfolding read_nat
read_nat_of_AllDigits String.[] a h = cc
read_nat_of_AllDigits (String.◌∷◌ c s) (a, rest) h = rw a

decimal-AllDigits : (n : ℕ) → AllDigits (decimal n)
unfolding decimal
decimal-AllDigits n = decimal_onto-AllDigits (suc n) n "" (omega arith) tt

decimal-nonempty : (n : ℕ) → is_empty (decimal n) ≡ false
unfolding decimal
decimal-nonempty n = decimal_onto-nonempty (suc n) n "" (omega arith)

read_digits-decimal : (n : ℕ) → read_digits 0 (decimal n) ≡ some n
unfolding decimal read_digits
read_digits-decimal n = read_digits-decimal_onto (suc n) n "" (omega arith)

pub read_nat-decimal : (n : ℕ) → read_nat (decimal n) ≡ some n
read_nat-decimal n =
    read_nat_of_AllDigits (decimal n) (decimal-AllDigits n) (decimal-nonempty n)
    ∙ read_digits-decimal n

-- no white space anywhere
abbrev pub NoSpace : String → Type 0
NoSpace String.[] = Unit
NoSpace (String.◌∷◌ c s) = (is_space c ≡ false) × NoSpace s

AllDigits-NoSpace : (s : String) → AllDigits s → NoSpace s
AllDigits-NoSpace String.[] a = tt
AllDigits-NoSpace (String.◌∷◌ c s) (a, rest) = (ground arith, AllDigits-NoSpace s rest)

lstrip_of_NoSpace : (s : String) → NoSpace s → lstrip s ≡ s
unfolding lstrip
lstrip_of_NoSpace String.[] h = refl
lstrip_of_NoSpace (String.◌∷◌ c s) (h, hs) = rw h

keep_of_NoSpace :
    (c : Char) (s : String) → is_space c ≡ false → keep_unless_blank c s ≡ String.◌∷◌ c s
unfolding keep_unless_blank
keep_of_NoSpace c String.[] h = rw h
keep_of_NoSpace c (String.◌∷◌ d s) h = refl

rstrip_of_NoSpace : (s : String) → NoSpace s → rstrip s ≡ s
unfolding rstrip
rstrip_of_NoSpace String.[] h = refl
rstrip_of_NoSpace (String.◌∷◌ c s) (h, hs) =
    ap (keep_unless_blank c) (rstrip_of_NoSpace s hs) ∙ keep_of_NoSpace c s h

pub strip_of_NoSpace : (s : String) → NoSpace s → strip s ≡ s
unfolding strip
strip_of_NoSpace s h = ap rstrip (lstrip_of_NoSpace s h) ∙ rstrip_of_NoSpace s h

pub str_of_int-NoSpace : (z : ℤ) → NoSpace (str_of_int z)
unfolding str_of_int
str_of_int-NoSpace (pos n) = AllDigits-NoSpace (decimal n) (decimal-AllDigits n)
str_of_int-NoSpace (negsuc n) =
    (refl, AllDigits-NoSpace (decimal (suc n)) (decimal-AllDigits (suc n)))

-- a text that begins with a digit has no sign in front
read_int_unsigned :
    (c : Char) (s : String)
    → is_digit c ≡ true
    → read_int (String.◌∷◌ c s) ≡ map_sign pos (read_nat (String.◌∷◌ c s))
unfolding read_int
read_int_unsigned c s h =
    let no_minus : nat_eq (code c) b'-' ≡ false = ground arith in
    let no_plus : nat_eq (code c) b'+' ≡ false = ground arith in rw (no_minus, no_plus)

read_nat-digit :
    (c : Char) (s : String)
    → is_digit c ≡ true
    → read_nat (String.◌∷◌ c s) ≡ read_digits 0 (String.◌∷◌ c s)
unfolding read_nat
read_nat-digit c s h = rw h

pub read_int-digit :
    (c : Char) (s : String)
    → is_digit c ≡ true
    → read_int (String.◌∷◌ c s) ≡ map_sign pos (read_digits 0 (String.◌∷◌ c s))
read_int-digit c s h = read_int_unsigned c s h ∙ ap (map_sign pos) (read_nat-digit c s h)

read_int_of_AllDigits :
    (s : String) → AllDigits s → is_empty s ≡ false → read_int s ≡ map_sign pos (read_digits 0 s)
read_int_of_AllDigits String.[] a h = cc
read_int_of_AllDigits (String.◌∷◌ c s) (a, rest) h = read_int-digit c s a

read_int-str_of_int : (z : ℤ) → read_int (str_of_int z) ≡ some z
unfolding str_of_int
read_int-str_of_int (pos n) =
    read_int_of_AllDigits (decimal n) (decimal-AllDigits n) (decimal-nonempty n)
    ∙ (unfold map_sign in rw (read_digits-decimal n))
read_int-str_of_int (negsuc n) = unfold read_int map_sign in rw (read_nat-decimal (suc n))

-- `int(str(z))` is `z`.
pub int_of_text-str_of_int : (z : ℤ) → int_of_text (str_of_int z) ≡ some z
unfolding int_of_text
int_of_text-str_of_int z =
    ap read_int (strip_of_NoSpace (str_of_int z) (str_of_int-NoSpace z)) ∙ read_int-str_of_int z
