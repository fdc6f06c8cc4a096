-- ===== src/Py/Path.antt =====
-- `PurePosixPath`, and the text functions that the paths need.
pub mod Laws
use Prim.Native.String
use batch_ingestion_service.Prelude.{
  Char, code, String, ◌<>◌, Bool, true, false, ◌||◌, Option, none, some, List, [], ◌∷◌, ◌++◌,
  nat_eq, is_empty, ◌==◌, if◌then◌else◌,
}

-- put a character in front of the first text
unfoldable pub push_head : Char → List String → List String
push_head c [] = String.◌∷◌ c "" ∷ []
push_head c (x ∷ xs) = String.◌∷◌ c x ∷ xs

-- `s.split("/")`
unfoldable pub split_slash : String → List String
unfolding push_head
split_slash String.[] = "" ∷ []
split_slash (String.◌∷◌ c s) =
    let rest = split_slash s in if nat_eq (code c) b'/' then "" ∷ rest else push_head c rest

-- the parts that a path keeps: not empty, and not "."
unfoldable pub clean : List String → List String
clean [] = []
clean (x ∷ xs) = let rest = clean xs in if is_empty x || x == "." then rest else x ∷ rest

-- A path: its root, which is "", "/" or "//", and its parts.
pub record PurePath : Type 0 where
  pub root : String
  pub parts : List String

-- two slashes at the front, and no third, are kept
unfoldable pub root_of : String → String
root_of String.[] = ""
root_of (String.◌∷◌ a String.[]) = if nat_eq (code a) b'/' then "/" else ""
root_of (String.◌∷◌ a (String.◌∷◌ b String.[])) =
    if nat_eq (code a) b'/' then (if nat_eq (code b) b'/' then "//" else "/") else ""
root_of (String.◌∷◌ a (String.◌∷◌ b (String.◌∷◌ c s))) =
    if nat_eq (code a) b'/'
    then (if nat_eq (code b) b'/' then (if nat_eq (code c) b'/' then "/" else "//") else "/")
    else ""

unfoldable pub parse_path : String → PurePath
unfolding root_of clean split_slash
parse_path s = record { root = root_of s; parts = clean (split_slash s) }

-- `p / q`: an absolute `q` replaces `p`
unfoldable pub join : PurePath → PurePath → PurePath
join p q = if is_empty q.root then record { root = p.root; parts = p.parts ++ q.parts } else q

abbrev pub no_path : PurePath
no_path = record { root = ""; parts = [] }

unfoldable pub path_from : PurePath → List String → PurePath
unfolding parse_path join
path_from p [] = p
path_from p (s ∷ ss) = path_from (join p (parse_path s)) ss

-- `PurePosixPath(*segments)`
unfoldable pub path_of : List String → PurePath
unfolding path_from
path_of = path_from no_path

-- `"/".join(parts)`
unfoldable pub join_slash : List String → String
join_slash [] = ""
join_slash (x ∷ []) = x
join_slash (x ∷ y ∷ xs) = x <> "/" <> join_slash (y ∷ xs)

-- `str(p)`
unfoldable pub path_text : PurePath → String
unfolding join_slash
path_text p = let s = p.root <> join_slash p.parts in if is_empty s then "." else s

-- the rest of a text that begins with "://"
unfoldable pub after_mark : String → Option String
after_mark (String.◌∷◌ a (String.◌∷◌ b (String.◌∷◌ c s))) =
    if nat_eq (code a) b':'
    then (if nat_eq (code b) b'/' then (if nat_eq (code c) b'/' then some s else none) else none)
    else none
after_mark _ = none

abbrev pub push_first : Char → Option (String × String) → Option (String × String)
push_first c none = none
push_first c (some (s, t)) = some (String.◌∷◌ c s, t)

abbrev pub first_mark : Option String → Option (String × String) → Option (String × String)
first_mark (some rest) later = some ("", rest)
first_mark none later = later

-- `s.split("://", 1)`, where the mark stands in `s`
unfoldable pub split_scheme : String → Option (String × String)
split_scheme String.[] = none
split_scheme (String.◌∷◌ c s) =
    first_mark (after_mark (String.◌∷◌ c s)) (push_first c (split_scheme s))

-- `s.lstrip("/")`
unfoldable pub lstrip_slash : String → String
lstrip_slash String.[] = ""
lstrip_slash (String.◌∷◌ c s) =
    let rest = lstrip_slash s in if nat_eq (code c) b'/' then rest else String.◌∷◌ c s
