-- ===== src/Py/Number.antt =====
-- `str` of an integer and `int` of a text, over ASCII digits.
pub mod Laws
use Prim.Native.String
use batch_ingestion_service.Prelude.{
  ℕ, zero, suc, ◌+◌, ◌-◌, ◌*◌, ◌/◌, ◌%◌, Char, code, String, Bool, ◌&&◌, ◌||◌, true, false, Option,
  none, some, ltb, leb, nat_eq, if◌then◌else◌,
}
use batch_ingestion_service.Prelude.Int.{ℤ, pos, negsuc}

unfoldable pub digit_char : ℕ → Char
digit_char zero = "0"
digit_char (suc zero) = "1"
digit_char (suc (suc zero)) = "2"
digit_char (suc (suc (suc zero))) = "3"
digit_char (suc (suc (suc (suc zero)))) = "4"
digit_char (suc (suc (suc (suc (suc zero))))) = "5"
digit_char (suc (suc (suc (suc (suc (suc zero)))))) = "6"
digit_char (suc (suc (suc (suc (suc (suc (suc zero))))))) = "7"
digit_char (suc (suc (suc (suc (suc (suc (suc (suc zero)))))))) = "8"
digit_char _ = "9"

abbrev pub is_digit : Char → Bool
is_digit c = leb 48 (code c) && leb (code c) 57

-- the decimal digits of `n` in front of `rest`
unfoldable pub decimal_onto : ℕ → ℕ → String → String
unfolding digit_char
decimal_onto zero n rest = rest
decimal_onto (suc fuel) n rest =
    let more = decimal_onto fuel (n / 10) (String.◌∷◌ (digit_char (n % 10)) rest) in
    if ltb n 10 then String.◌∷◌ (digit_char n) rest else more

unfoldable pub decimal : ℕ → String
unfolding decimal_onto
decimal n = decimal_onto (suc n) n ""

-- `str(n)`
unfoldable pub str_of_int : ℤ → String
unfolding decimal
str_of_int (pos n) = decimal n
str_of_int (negsuc n) = String.◌∷◌ "-" (decimal (suc n))

-- digits to the end of the text, with single underscores between digits
unfoldable pub read_digits : ℕ → String → Option ℕ
read_digits acc String.[] = some acc
read_digits acc (String.◌∷◌ c String.[]) =
    if is_digit c then some (acc * 10 + (code c - 48)) else none
read_digits acc (String.◌∷◌ c (String.◌∷◌ d s)) =
    let plain = read_digits (acc * 10 + (code c - 48)) (String.◌∷◌ d s) in
    let under = read_digits (acc * 10 + (code d - 48)) s in
    if is_digit c then plain else if nat_eq (code c) b'_' && is_digit d then under else none

-- at least one digit, and a digit first
unfoldable pub read_nat : String → Option ℕ
unfolding read_digits
read_nat String.[] = none
read_nat (String.◌∷◌ c s) = if is_digit c then read_digits 0 (String.◌∷◌ c s) else none

pub negate : ℕ → ℤ
negate zero = pos 0
negate (suc n) = negsuc n

unfoldable pub map_sign : (ℕ → ℤ) → Option ℕ → Option ℤ
map_sign f none = none
map_sign f (some n) = some (f n)

-- `int(s)` of a text with no white space around it
unfoldable pub read_int : String → Option ℤ
unfolding read_nat negate map_sign
read_int String.[] = none
read_int (String.◌∷◌ c s) =
    if nat_eq (code c) b'-'
    then map_sign negate (read_nat s)
    else if nat_eq (code c) b'+'
    then map_sign pos (read_nat s)
    else map_sign pos (read_nat (String.◌∷◌ c s))

-- what `str.strip` and `int` take for white space
abbrev pub is_space : Char → Bool
is_space c =
    let n = code c in
    (leb 9 n && leb n 13)
    || (leb 28 n && leb n 32)
    || nat_eq n 0x85
    || nat_eq n 0xa0
    || nat_eq n 0x1680
    || (leb 0x2000 n && leb n 0x200a)
    || nat_eq n 0x2028
    || nat_eq n 0x2029
    || nat_eq n 0x202f
    || nat_eq n 0x205f
    || nat_eq n 0x3000

unfoldable pub lstrip : String → String
lstrip String.[] = ""
lstrip (String.◌∷◌ c s) = let rest = lstrip s in if is_space c then rest else String.◌∷◌ c s

-- put `c` in front, unless nothing but white space is left
keep_unless_blank : Char → String → String
keep_unless_blank c String.[] = if is_space c then "" else String.◌∷◌ c ""
keep_unless_blank c (String.◌∷◌ d s) = String.◌∷◌ c (String.◌∷◌ d s)

unfoldable pub rstrip : String → String
unfolding keep_unless_blank
rstrip String.[] = ""
rstrip (String.◌∷◌ c s) = keep_unless_blank c (rstrip s)

unfoldable pub strip : String → String
unfolding lstrip rstrip
strip s = rstrip (lstrip s)

unfoldable pub int_of_text : String → Option ℤ
unfolding read_int strip
int_of_text s = read_int (strip s)
