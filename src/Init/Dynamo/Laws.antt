-- ===== src/Init/Dynamo/Laws.antt =====
-- The value that the scan of a DynamoDB table finds is the largest of its items.
use batch_ingestion_service.Prelude.{
  String, Bool, true, false, ◌≡◌, refl, sym, ap, ◌∙◌, Option, none, some, List, [], ◌∷◌, All,
  if◌then◌else◌, ◌⊎◌, inl, inr,
}
use batch_ingestion_service.Py.Exc.{Result, ok, ◌>>=◌, >>=-eq-ok, ok-injective}
use batch_ingestion_service.Py.Value.{Value, none_val, Dict}
use batch_ingestion_service.Checkpoint.{Checkpoint, parse_checkpoint}
use batch_ingestion_service.Init.Dynamo.{greater, larger, raw_of, after_raw, scan}
use batch_ingestion_service.Init.Dynamo.Order.{
  AtMost, AtMost-refl, greater-AtMost, AtMost-trans, some-injective,
}

-- what the larger one of two is: at least both, and one of them
abbrev Larger : Option Checkpoint → Option Checkpoint → Option Checkpoint → Type 0
Larger best c next =
    ((a : Checkpoint) → best ≡ some a → (n : Checkpoint) × (next ≡ some n) × AtMost a n)
    × ((a : Checkpoint) → c ≡ some a → (n : Checkpoint) × (next ≡ some n) × AtMost a n)
    × ((n : Checkpoint) → next ≡ some n → (best ≡ some n) ⊎ (c ≡ some n))

larger_sound :
    (best c : Option Checkpoint) (next : Option Checkpoint)
    → larger best c ≡ ok next
    → Larger best c next
unfolding larger
larger_sound none c next h =
    let e : c ≡ next = ok-injective h in
    (λ a k. absurd (cc), λ a k. (a, sym e ∙ k, AtMost-refl a), λ n k. inr (e ∙ k))
larger_sound (some m) none next h = absurd (cc)
larger_sound (some m) (some c) next h =
    let (more, compared, e) = >>=-eq-ok (greater c m) _ h in by_order more compared (ok-injective e)
  where
    by_order :
        (more : Bool)
        → greater c m ≡ ok more
        → some (if more then c else m) ≡ next
        → Larger (some m) (some c) next
    by_order true k e = (
      λ a j. (c, sym e, rw (← (some-injective j)) (greater-AtMost c m k)),
      λ a j. (c, sym e, rw (← (some-injective j)) (AtMost-refl c)),
      λ n j. inr (e ∙ j),
    )
    by_order false k e = (
      λ a j. (m, sym e, rw (← (some-injective j)) (AtMost-refl m)),
      λ a j. (m, sym e, rw (← (some-injective j)) k),
      λ n j. inl (e ∙ j),
    )

-- one of a list
abbrev pub Any : {A : Type 0} → (A → Type 0) → List A → Type 0
Any P [] = ⊥
Any P (x ∷ xs) = P x ⊎ Any P xs

module _ (repr : Value → String) (column : String) where
  -- the checkpoint that an item holds
  abbrev pub candidate : Dict Value → Result (Option Checkpoint)
  candidate item = raw_of repr column item >>= λ raw. parse_checkpoint repr raw

  after_raw_sound :
      (best : Option Checkpoint) (raw : Value) (next : Option Checkpoint)
      → after_raw repr column best raw ≡ ok next
      → (c : Option Checkpoint) × (parse_checkpoint repr raw ≡ ok c) × Larger best c next
  unfolding after_raw parse_checkpoint
  after_raw_sound best none_val next h =
      let e : best ≡ next = ok-injective h in
      (none, refl, (λ a k. (a, sym e ∙ k, AtMost-refl a), λ a k. absurd (cc), λ n k. inl (e ∙ k)))
  after_raw_sound best raw next h =
      let (c, parsed, e) = >>=-eq-ok (parse_checkpoint repr raw) (λ c. larger best c) h in
      (c, parsed, larger_sound best c next e)

  scan_sound :
      (best : Option Checkpoint) (items : List (Dict Value)) (m : Checkpoint)
      → scan repr column best items ≡ ok (some m)
      → ((a : Checkpoint) → best ≡ some a → AtMost a m)
        × All (λ item. (c : Checkpoint) → candidate item ≡ ok (some c) → AtMost c m) items
        × ((best ≡ some m) ⊎ Any (λ item. candidate item ≡ ok (some m)) items)
  unfolding scan
  scan_sound best [] m h =
      let e : best ≡ some m = ok-injective h in
      (λ a k. rw (some-injective (sym k ∙ e)) (AtMost-refl m), tt, inl e)
  scan_sound best (item ∷ items) m h =
      let (raw, raw_eq, h1) = >>=-eq-ok (raw_of repr column item) _ h in
      let (next, next_eq, h2) = >>=-eq-ok (after_raw repr column best raw) _ h1 in
      let (c, parsed, (from_best, from_c, one)) = after_raw_sound best raw next next_eq in
      let (bound, all, source) = scan_sound next items m h2 in
      let held : candidate item ≡ ok c = rw raw_eq parsed in
      (
        λ a k. let (n, e, le) = from_best a k in AtMost-trans a n m le (bound n e),
        (
          λ d k.
              let (n, e, le) = from_c d (ok-injective (sym held ∙ k)) in
              AtMost-trans d n m le (bound n e),
          all,
        ),
        elim source [
          | inr later ↦ inr (inr later)
          | inl e ↦ elim (one m e) [ inl b ↦ inl b | inr k ↦ inr (inl (held ∙ ap ok k)) ]
        ],
      )

  -- The value that a scan finds is the checkpoint of an item, and no item's checkpoint is greater; all
  -- comparisons were possible.
  pub scan_largest :
      (items : List (Dict Value)) (m : Checkpoint)
      → scan repr column none items ≡ ok (some m)
      → All (λ item. (c : Checkpoint) → candidate item ≡ ok (some c) → AtMost c m) items
        × Any (λ item. candidate item ≡ ok (some m)) items
  scan_largest items m h =
      let (_, all, source) = scan_sound none items m h in
      (all, elim source [ inl e ↦ absurd (cc) | inr one ↦ one ])
