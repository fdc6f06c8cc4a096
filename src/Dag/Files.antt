-- ===== src/Dag/Files.antt =====
-- The names of the configuration files in demo/airflow/dags/dag_factory.py, and which of them git says
-- have changed.
use batch_ingestion_service.Prelude.{
  ℕ, code, Char, String, ◌<>◌, Bool, ◌&&◌, ◌||◌, Option, none, some, List, [], ◌∷◌, nat_eq, leb,
  is_empty, if◌then◌else◌,
}
use batch_ingestion_service.Py.Exc.{Exc, Result, ok, err}
use batch_ingestion_service.Py.Number.{strip}
use batch_ingestion_service.Py.Path.{push_head, split_slash, clean}
use batch_ingestion_service.Init.Dynamo.{text_gt}
use batch_ingestion_service.Write.Schema.{is_in}

-- the text before the last dot and that after it
abbrev later_dot : Char → String → Option (String × String) → Option (String × String)
later_dot c s (some (before, after)) = some (String.◌∷◌ c before, after)
later_dot c s none = if nat_eq (code c) b'.' then some ("", s) else none

unfoldable pub last_dot : String → Option (String × String)
last_dot String.[] = none
last_dot (String.◌∷◌ c s) = later_dot c s (last_dot s)

-- `Path(name).stem`: a dot at the front or at the end begins no suffix
unfoldable pub stem_of : String → String
unfolding last_dot
stem_of name = elim (last_dot name) [
  | none ↦ name
  | some (before, after) ↦ if is_empty before || is_empty after then name else before
]

last_of_parts : List String → String
last_of_parts [] = ""
last_of_parts (x ∷ []) = x
last_of_parts (x ∷ y ∷ xs) = last_of_parts (y ∷ xs)

-- `Path(line).name`
unfoldable pub name_of : String → String
unfolding last_of_parts clean split_slash
name_of line = last_of_parts (clean (split_slash line))

-- the line breaks of `splitlines`
is_break : ℕ → Bool
is_break n =
    (leb 10 n && leb n 13)
    || (leb 28 n && leb n 30)
    || nat_eq n 133
    || nat_eq n 8232
    || nat_eq n 8233

-- The lines of a text. A pair of line breaks gives an empty line more than `splitlines` does, and so
-- does a break at the end; empty lines are left out of what follows.
unfoldable pub lines_of : String → List String
unfolding is_break push_head
lines_of String.[] = "" ∷ []
lines_of (String.◌∷◌ c s) =
    let rest = lines_of s in if is_break (code c) then "" ∷ rest else push_head c rest

-- `{Path(line).name for line in lines if line.strip()}`
unfoldable pub names_in : List String → List String
unfolding strip name_of
names_in [] = []
names_in (line ∷ lines) =
    let rest = names_in lines in if is_empty (strip line) then rest else name_of line ∷ rest

unfoldable pub insert_name : String → List String → List String
unfolding text_gt
insert_name x [] = x ∷ []
insert_name x (y ∷ ys) = let rest = insert_name x ys in if text_gt x y then y ∷ rest else x ∷ y ∷ ys

-- `sorted` of the files of one directory
unfoldable pub sorted_names : List String → List String
unfolding insert_name
sorted_names [] = []
sorted_names (x ∷ xs) = insert_name x (sorted_names xs)

filtered : List String → List String → List String
unfolding is_in
filtered changed [] = []
filtered changed (x ∷ xs) =
    let rest = filtered changed xs in if is_in x changed then x ∷ rest else rest

-- `_filter_configs`, of the names that `glob` gives
unfoldable pub filter_configs : List String → List String → List String
unfolding filtered sorted_names
filter_configs changed names = filtered changed (sorted_names names)

-- what a git command does: its output, a failure of the command, or another error
pub data GitResult : Type 0 where
  printed : String → GitResult
  failed : GitResult
  raised : Exc → GitResult

-- a command in a directory
abbrev Git : Type 0
Git = List String → String → GitResult

-- a step after a command, in a `try` that takes a failed command for no file
after : GitResult → (String → Result (List String)) → Result (List String)
after (printed out) k = k (strip out)
after failed k = ok []
after (raised e) k = err e

module _ (git : Git) (config_dir : String) (names : List String) where
  changed_in : String → Result (List String)
  unfolding names_in lines_of filter_configs
  changed_in raw = ok (filter_configs (names_in (lines_of raw)) names)

  -- `get_changed_configs_in_latest_commit`
  unfoldable pub changed_in_head : Result (List String)
  unfolding after changed_in
  changed_in_head = after (git ("rev-parse" ∷ "--show-toplevel" ∷ []) config_dir) λ repo.
      after
        (git ("show" ∷ "--name-only" ∷ "--diff-filter=AM" ∷ "--pretty=format:" ∷ "HEAD" ∷ []) repo)
        changed_in

  -- `fetch_and_get_changed_configs`
  unfoldable pub changed_on_remote : String → Result (List String)
  unfolding after changed_in
  changed_on_remote remote = after (git ("rev-parse" ∷ "--show-toplevel" ∷ []) config_dir) λ repo.
      after (git ("fetch" ∷ remote ∷ []) repo) λ out.
        after
          (git ("diff" ∷ "--name-only" ∷ "--diff-filter=AM" ∷ ("HEAD.." <> remote <> "/HEAD") ∷ [])
            repo)
          changed_in
