-- ===== src/Init/Dynamo/Order.antt =====
-- Python's `>` on checkpoints, where it raises nothing, is a total order read backwards.
use batch_ingestion_service.Prelude.{
  String, Bool, true, false, ◌≡◌, refl, ap, Option, none, some, arith,
}
use batch_ingestion_service.Prelude.Int.{ℤ}
use batch_ingestion_service.Py.Exc.{ok, ok-injective}
use batch_ingestion_service.Py.Time.{Datetime}
use batch_ingestion_service.Checkpoint.{Checkpoint, number, stamp, text}
use batch_ingestion_service.Init.Dynamo.{later_instant, later_time, text_gt, greater}

-- `a > b` is `False`, and raises nothing
abbrev pub AtMost : Checkpoint → Checkpoint → Type 0
AtMost a b = greater a b ≡ ok false

pub some-injective : {A : Type 0} {a b : A} → some a ≡ some b → a ≡ b
some-injective h = cc

text_gt_refl : (s : String) → text_gt s s ≡ false
unfolding text_gt
text_gt_refl String.[] = refl
text_gt_refl (String.◌∷◌ c s) = ground (arith, text_gt_refl s)

text_gt_asym : (s t : String) → text_gt s t ≡ true → text_gt t s ≡ false
unfolding text_gt
text_gt_asym String.[] t h = cc
text_gt_asym (String.◌∷◌ c s) String.[] h = refl
text_gt_asym (String.◌∷◌ c s) (String.◌∷◌ d t) h = ground (arith, text_gt_asym s t)

text_gt_trans : (s t u : String) → text_gt s t ≡ false → text_gt t u ≡ false → text_gt s u ≡ false
unfolding text_gt
text_gt_trans String.[] t u h k = refl
text_gt_trans (String.◌∷◌ c s) String.[] u h k = cc
text_gt_trans (String.◌∷◌ c s) (String.◌∷◌ d t) String.[] h k = cc
text_gt_trans (String.◌∷◌ c s) (String.◌∷◌ d t) (String.◌∷◌ e u) h k =
    ground (arith, text_gt_trans s t u)

time_refl : (a : Datetime) (x : Option ℤ) → later_time a x a x ≡ ok false
unfolding later_time later_instant
time_refl a none = ground arith
time_refl a (some x) = ground arith

time_asym :
    (a b : Datetime) (x y : Option ℤ) → later_time a x b y ≡ ok true → later_time b y a x ≡ ok false
unfolding later_time later_instant
time_asym a b none none h = ground arith
time_asym a b (some x) (some y) h = ground arith
time_asym a b none (some y) h = cc
time_asym a b (some x) none h = cc

time_trans :
    (a b c : Datetime) (x y z : Option ℤ)
    → later_time a x b y ≡ ok false
    → later_time b y c z ≡ ok false
    → later_time a x c z ≡ ok false
unfolding later_time later_instant
time_trans a b c none none none h k = ground arith
time_trans a b c (some x) (some y) (some z) h k = ground arith
time_trans a b c none (some y) z h k = cc
time_trans a b c (some x) none z h k = cc
time_trans a b c none none (some z) h k = cc
time_trans a b c (some x) (some y) none h k = cc

pub AtMost-refl : (a : Checkpoint) → AtMost a a
unfolding greater
AtMost-refl (number a) = ground arith
AtMost-refl (stamp a) = time_refl a a.offset
AtMost-refl (text s) = ap ok (text_gt_refl s)

pub greater-AtMost : (a b : Checkpoint) → greater a b ≡ ok true → AtMost b a
unfolding greater
greater-AtMost (number a) (number b) h = ground arith
greater-AtMost (stamp a) (stamp b) h = time_asym a b a.offset b.offset h
greater-AtMost (text s) (text t) h = ap ok (text_gt_asym s t (ok-injective h))
greater-AtMost _ _ h = ground arith

pub AtMost-trans : (a b c : Checkpoint) → AtMost a b → AtMost b c → AtMost a c
unfolding greater
AtMost-trans (number a) (number b) (number c) h k = ground arith
AtMost-trans (stamp a) (stamp b) (stamp c) h k = time_trans a b c a.offset b.offset c.offset h k
AtMost-trans (text s) (text t) (text u) h k =
    ap ok (text_gt_trans s t u (ok-injective h) (ok-injective k))
AtMost-trans _ _ _ h k = cc

time_total :
    (a b : Datetime) (x y : Option ℤ) (r : Bool)
    → later_time a x b y ≡ ok r
    → (c : Bool) × (later_time b y a x ≡ ok c)
unfolding later_time
time_total a b none none r h = (_, refl)
time_total a b (some x) (some y) r h = (_, refl)
time_total a b none (some y) r h = cc
time_total a b (some x) none r h = cc

-- What can be compared one way can be compared the other way.
pub greater-total :
    (a b : Checkpoint) (r : Bool) → greater a b ≡ ok r → (c : Bool) × (greater b a ≡ ok c)
unfolding greater
greater-total (number a) (number b) r h = (_, refl)
greater-total (stamp a) (stamp b) r h = time_total a b a.offset b.offset r h
greater-total (text s) (text t) r h = (_, refl)
greater-total _ _ r h = cc
