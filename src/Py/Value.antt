-- ===== src/Py/Value.antt =====
-- The values that configurations, secrets and messages hold, and dictionaries of them.
pub mod Laws
use batch_ingestion_service.Prelude.{
  ℕ, suc, String, ◌<>◌, Bool, true, false, not, Option, none, some, List, [], ◌∷◌, nat_eq, ◌==◌,
  is_empty, if◌then◌else◌,
}
use batch_ingestion_service.Prelude.Int.{ℤ, pos, negsuc}
use batch_ingestion_service.Py.Exc.{
  Result, ok, raise, value_error, type_error, key_error, attribute_error,
}
use batch_ingestion_service.Py.Number.{str_of_int, int_of_text}
use batch_ingestion_service.Py.Time.{Datetime, isoformat}

-- What the source observes of a `float` or a `Decimal`: `int` of it (`none` for an infinity or a
-- NaN), its `str`, and whether it is zero.
pub record Real : Type 0 where
  pub truncated : Option ℤ
  pub shown : String
  pub is_zero : Bool

-- `enum_val` is a member of a `str` enumeration: its `str`, such as `FileFormat.CSV`, and its value.
mutual
  pub data Value : Type 0 where
    none_val : Value
    bool_val : Bool → Value
    int_val : ℤ → Value
    real_val : Real → Value
    str_val : String → Value
    enum_val : String → String → Value
    stamp_val : Datetime → Value
    list_val : Items → Value
    dict_val : Fields → Value

  pub data Items : Type 0 where
    nil : Items
    cons : Value → Items → Items

  pub data Fields : Type 0 where
    end : Fields
    field : String → Value → Fields → Fields

-- A dictionary, in insertion order.
abbrev pub Dict {ℓ} : Type ℓ → Type ℓ
Dict V = List (String × V)

abbrev pub entries : Fields → Dict Value
entries end = []
entries (field k v fs) = (k, v) ∷ entries fs

abbrev pub fields : Dict Value → Fields
fields [] = end
fields ((k, v) ∷ d) = field k v (fields d)

abbrev pub dict : Dict Value → Value
dict d = dict_val (fields d)

-- `bool(v)`
unfoldable pub truthy : Value → Bool
truthy none_val = false
truthy (bool_val b) = b
truthy (int_val (pos n)) = not (nat_eq n 0)
truthy (int_val (negsuc n)) = true
truthy (real_val r) = not r.is_zero
truthy (str_val s) = not (is_empty s)
truthy (enum_val _ s) = not (is_empty s)
truthy (stamp_val t) = true
truthy (list_val nil) = false
truthy (list_val (cons _ _)) = true
truthy (dict_val end) = false
truthy (dict_val (field _ _ _)) = true

-- `a or b`
unfoldable pub or_else : Value → Value → Value
unfolding truthy
or_else a b = if truthy a then a else b

-- `str(v)`; the text of a container is `repr`'s
unfoldable pub str_of : (Value → String) → Value → String
unfolding str_of_int isoformat
str_of repr none_val = "None"
str_of repr (bool_val true) = "True"
str_of repr (bool_val false) = "False"
str_of repr (int_val z) = str_of_int z
str_of repr (real_val r) = r.shown
str_of repr (str_val s) = s
str_of repr (enum_val name _) = name
str_of repr (stamp_val t) = isoformat " " t
str_of repr (list_val xs) = repr (list_val xs)
str_of repr (dict_val fs) = repr (dict_val fs)

int_of_str : String → Result ℤ
unfolding int_of_text
int_of_str s = elim (int_of_text s) [
  | some z ↦ ok z
  | none ↦ raise value_error "invalid literal for int() with base 10"
]

-- `int(v)`
unfoldable pub py_int : Value → Result ℤ
unfolding int_of_str
py_int (bool_val true) = ok (pos 1)
py_int (bool_val false) = ok (pos 0)
py_int (int_val z) = ok z
py_int (str_val s) = int_of_str s
py_int (enum_val _ s) = int_of_str s
py_int (real_val r) = elim r.truncated [
  | some z ↦ ok z
  | none ↦ raise value_error "cannot convert float to integer"
]
py_int _ = raise type_error "int() argument must be a string, a bytes-like object or a real number"

module _ {ℓ} {V : Type ℓ} where
  -- `d.get(k)`
  unfoldable pub lookup : String → Dict V → Option V
  lookup k [] = none
  lookup k ((j, v) ∷ d) = if j == k then some v else lookup k d

  -- `d[k] = v`
  unfoldable pub insert : String → V → Dict V → Dict V
  insert k v [] = (k, v) ∷ []
  insert k v ((j, w) ∷ d) = if j == k then (j, v) ∷ d else (j, w) ∷ insert k v d

  -- `d.update(e)`
  unfoldable pub update : Dict V → Dict V → Dict V
  unfolding insert
  update d [] = d
  update d ((k, v) ∷ e) = update (insert k v d) e

-- `d[k]`
unfoldable pub get_item {ℓ} : {V : Type ℓ} → String → Dict V → Result V
unfolding lookup
get_item k d = elim (lookup k d) [ some v ↦ ok v | none ↦ raise key_error k ]

-- `d.get(k, v)`
unfoldable pub get_or {ℓ} : {V : Type ℓ} → Dict V → String → V → V
unfolding lookup
get_or d k v = elim (lookup k d) [ some w ↦ w | none ↦ v ]

-- `v` as a dictionary, for a subscription, a `**v` or a method of `dict`
unfoldable pub as_dict : Value → Result (Dict Value)
as_dict (dict_val fs) = ok (entries fs)
as_dict _ = raise type_error "not a dictionary"

-- `v[k] = w`
unfoldable pub set_item : String → Value → Value → Result Value
unfolding insert
set_item k w (dict_val fs) = ok (dict (insert k w (entries fs)))
set_item k w _ = raise type_error "object does not support item assignment"

-- `str` of a list of names that need no escape
quoted_rest : List String → String
quoted_rest [] = "]"
quoted_rest (s ∷ ss) = ", '" <> s <> "'" <> quoted_rest ss

unfoldable pub list_text : List String → String
unfolding quoted_rest
list_text [] = "[]"
list_text (s ∷ ss) = "['" <> s <> "'" <> quoted_rest ss

-- the text of a `str`, for what takes nothing else
unfoldable pub as_text : Value → Result String
as_text (str_val s) = ok s
as_text (enum_val _ s) = ok s
as_text _ = raise type_error "expected string or bytes-like object"

-- the text of a `str`, for a method of `str`
unfoldable pub method_text : Value → Result String
method_text (str_val s) = ok s
method_text (enum_val _ s) = ok s
method_text _ = raise attribute_error "object has no such attribute"

-- `v` as a dictionary, for a method of `dict`
unfoldable pub method_dict : Value → Result (Dict Value)
method_dict (dict_val fs) = ok (entries fs)
method_dict _ = raise attribute_error "object has no attribute 'get'"
