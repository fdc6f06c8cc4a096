-- ===== src/Config/Kinds/Laws.antt =====
-- A member is found by its value, and by no other text.
use batch_ingestion_service.Prelude.{
  String, ◌≡◌, refl, ◌↔◌, List, [], ◌∷◌, arith, ◌==◌, eq_iff, Bool-cases, inl, inr,
}
use batch_ingestion_service.Py.Exc.{ok}
use batch_ingestion_service.Py.Value.{str_val}
use batch_ingestion_service.Config.Kinds.{
  ReadAdapterType, WriteAdapterType, MetricAdapterType, read_value, write_value, metric_value,
  read_type_of, write_type_of, metric_type_of, find_member, read_members,
}

pub read_type_of-read_value : (t : ReadAdapterType) → read_type_of (str_val (read_value t)) ≡ ok t
unfolding read_type_of
read_type_of-read_value ReadAdapterType.sql = refl
read_type_of-read_value _ = refl

pub write_type_of-write_value :
    (t : WriteAdapterType) → write_type_of (str_val (write_value t)) ≡ ok t
unfolding write_type_of
write_type_of-write_value WriteAdapterType.hadoop = refl
write_type_of-write_value _ = refl

pub metric_type_of-metric_value :
    (t : MetricAdapterType) → metric_type_of (str_val (metric_value t)) ≡ ok t
unfolding metric_type_of
metric_type_of-metric_value MetricAdapterType.cloud_queue = refl
metric_type_of-metric_value _ = refl

find_member_sound :
    {A : Type 0} (name : String) (value : A → String) (s : String) (ms : List A) (m : A)
    → find_member name value s ms ≡ ok m
    → value m ≡ s
unfolding find_member
find_member_sound name value s [] m h = cc
find_member_sound name value s (x ∷ ms) m h = elim (Bool-cases (value x == s)) [
  | inl same ↦ ground (arith, eq_iff (value x) s)
  | inr other ↦ find_member_sound name value s ms m (rw other at h)
]

-- `ReadAdapterType(s)` is `t` exactly when `s` is the value of `t`.
read_type_of_iff :
    (s : String) (t : ReadAdapterType) → (read_type_of (str_val s) ≡ ok t) ↔ (read_value t ≡ s)
unfolding read_type_of
read_type_of_iff s t = (
  λ h. find_member_sound "ReadAdapterType" read_value s read_members t h,
  λ e. rw (← e) (read_type_of-read_value t),
)
