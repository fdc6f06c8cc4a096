-- ===== src/Py/Path/Laws.antt =====
-- Paths of plain segments.
use text.Mathlib.TextLemmas.{nil-append, cons-append}
use mathlib.Core.List.{append-nil, append_assoc}
use batch_ingestion_service.Prelude.{
  ℕ, Char, code, String, ◌<>◌, ◌≡◌, refl, sym, ap, ◌∙◌, false, some, none, List, [], ◌∷◌, ◌++◌,
  nat_eq, is_empty, ◌==◌, All,
}
use batch_ingestion_service.Py.Path.{
  PurePath, path_of, path_from, join, split_scheme, parse_path, split_slash, clean, root_of,
  push_head, push_first, after_mark,
}

-- `c` stands nowhere in the text
abbrev pub Lacks : ℕ → String → Type 0
Lacks n String.[] = Unit
Lacks n (String.◌∷◌ c s) = (nat_eq (code c) n ≡ false) × Lacks n s

pub Lacks-append : (n : ℕ) (s t : String) → Lacks n s → Lacks n t → Lacks n (s <> t)
Lacks-append n String.[] t h k = rw nil-append k
Lacks-append n (String.◌∷◌ c s) t (h, hs) k = rw cons-append (h, Lacks-append n s t hs k)

pub is_empty-append_left : (s t : String) → is_empty s ≡ false → is_empty (s <> t) ≡ false
is_empty-append_left String.[] t h = cc
is_empty-append_left (String.◌∷◌ c s) t h = rw cons-append

-- A text that is one part of a path: no slash in it, not empty, and not ".".
pub record IsSegment (s : String) : Type 0 where
  pub no_slash : Lacks b'/' s
  pub nonempty : is_empty s ≡ false
  pub not_dot : (s == ".") ≡ false

split_slash_of_Lacks : (s : String) → Lacks b'/' s → split_slash s ≡ s ∷ []
unfolding split_slash
split_slash_of_Lacks String.[] h = refl
split_slash_of_Lacks (String.◌∷◌ c s) (h, hs) = rw h (ap (push_head c) (split_slash_of_Lacks s hs))

root_of_of_Lacks : (s : String) → Lacks b'/' s → root_of s ≡ ""
unfolding root_of
root_of_of_Lacks String.[] h = refl
root_of_of_Lacks (String.◌∷◌ a String.[]) (h, _) = rw h
root_of_of_Lacks (String.◌∷◌ a (String.◌∷◌ b String.[])) (h, _) = rw h
root_of_of_Lacks (String.◌∷◌ a (String.◌∷◌ b (String.◌∷◌ c s))) (h, _) = rw h

clean_of_IsSegment : (s : String) → IsSegment s → clean (s ∷ []) ≡ s ∷ []
unfolding clean
clean_of_IsSegment s h = rw (h.nonempty, h.not_dot)

pub parse_path_of_IsSegment :
    (s : String) → IsSegment s → parse_path s ≡ record { root = ""; parts = s ∷ [] }
unfolding parse_path
parse_path_of_IsSegment s h =
    let parts : clean (split_slash s) ≡ s ∷ [] =
      ap clean (split_slash_of_Lacks s h.no_slash) ∙ clean_of_IsSegment s h in
    cc (root_of_of_Lacks s h.no_slash, parts)

pub join_relative :
    (p : PurePath) (xs : List String)
    → join p (record { root = ""; parts = xs }) ≡ record { root = p.root; parts = p.parts ++ xs }
unfolding join
join_relative p xs = refl

path_from-cons :
    (p : PurePath) (s : String) (ss : List String)
    → path_from p (s ∷ ss) ≡ path_from (join p (parse_path s)) ss
unfolding path_from
path_from-cons p s ss = refl

abbrev relative : List String → PurePath
relative xs = record { root = ""; parts = xs }

path_from_of_IsSegment :
    (xs ss : List String) → All IsSegment ss → path_from (relative xs) ss ≡ relative (xs ++ ss)
path_from_of_IsSegment xs [] h = (unfold path_from in ap relative (sym (append-nil xs)))
path_from_of_IsSegment xs (s ∷ ss) (h, hs) =
    path_from-cons (relative xs) s ss
    ∙ ap (λ q. path_from (join (relative xs) q) ss) (parse_path_of_IsSegment s h)
    ∙ ap (λ q. path_from q ss) (join_relative (relative xs) (s ∷ []))
    ∙ path_from_of_IsSegment (xs ++ s ∷ []) ss hs
    ∙ ap relative (append_assoc xs (s ∷ []) ss)

pub path_of_of_IsSegment :
    (ss : List String) → All IsSegment ss → path_of ss ≡ record { root = ""; parts = ss }
path_of_of_IsSegment ss h = (unfold path_of in path_from_of_IsSegment [] ss h)

after_mark_ne :
    (c : Char) (s : String) → nat_eq (code c) b':' ≡ false → after_mark (String.◌∷◌ c s) ≡ none
unfolding after_mark
after_mark_ne c String.[] h = refl
after_mark_ne c (String.◌∷◌ d String.[]) h = refl
after_mark_ne c (String.◌∷◌ d (String.◌∷◌ e s)) h = rw h

split_scheme_mark : (t : String) → split_scheme ("://" <> t) ≡ some ("", t)
unfolding split_scheme after_mark
split_scheme_mark t = rw (cons-append, cons-append, cons-append, nil-append)

pub split_scheme-append :
    (s t : String) → Lacks b':' s → split_scheme (s <> "://" <> t) ≡ some (s, t)
unfolding split_scheme
split_scheme-append String.[] t h = rw (nil-append ("://" <> t)) (split_scheme_mark t)
split_scheme-append (String.◌∷◌ c s) t (h, hs) =
    rw (cons-append c s ("://" <> t))
      (rw (after_mark_ne c (s <> "://" <> t) h) (ap (push_first c) (split_scheme-append s t hs)))
