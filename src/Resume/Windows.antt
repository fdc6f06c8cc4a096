-- ===== src/Resume/Windows.antt =====
-- The windows of the runs of one DAG, orchestration/operators/init_operator.py, and the rows in them.
use batch_ingestion_service.Prelude.{
  refl, map, ◌≡◌, ◌∙◌, Bool, true, false, Option, some, List, [], ◌∷◌, inl, inr,
}
use batch_ingestion_service.Py.Exc.{ok}
use batch_ingestion_service.Checkpoint.{Checkpoint}
use batch_ingestion_service.Init.Dynamo.{greater}
use batch_ingestion_service.Init.Dynamo.Order.{AtMost, AtMost-trans, greater-total, some-injective}
use batch_ingestion_service.Resume.History.{Window, next_from, Joined}
use batch_ingestion_service.Resume.Rows.{
  Takes, rows_from, rows_of, NoneTakes, ExactlyOne, Bounds, Rises,
}

not_both : (a b : Checkpoint) → greater a b ≡ ok true → ¬ AtMost a b
not_both a b h k = cc

-- a value above a bound is above what is at most that bound
above_lower :
    (v g h : Checkpoint) (b : Bool)
    → greater v g ≡ ok b
    → AtMost g h
    → greater v h ≡ ok true
    → greater v g ≡ ok true
above_lower v g h true e most above = e
above_lower v g h false e most above = absurd (not_both v h above (AtMost-trans v g h e most))

-- the start of the next run, where the first one had a start
starts :
    (first : Checkpoint) (ws : List Window)
    → (g : Checkpoint) × (next_from (some first) ws ≡ some g)
starts first [] = (first, refl)
starts first (w ∷ ws) = (w.to, refl)

Bounds-from :
    (v g to : Checkpoint) (from : Option Checkpoint)
    → from ≡ some g
    → Bounds v from to
    → Bounds v (some g) to
Bounds-from v g to from e h = rw e at h

not_from :
    (v g to : Checkpoint) (from : Option Checkpoint)
    → from ≡ some g
    → ¬ Takes (rows_from (some g) to) v
    → ¬ Takes (rows_from from to) v
not_from v g to from e h = rw e h

-- a value above the end of the last window is in none
none_above :
    (first v g : Checkpoint) (ws : List Window)
    → next_from (some first) ws ≡ some g
    → Joined (some first) ws
    → Rises v ws
    → greater v g ≡ ok true
    → NoneTakes v (map rows_of ws)
none_above first v g [] e joined rises above = tt
none_above first v g (w ∷ ws) e (joins, joined) (bounds, rises) above =
    let (start, at_start) = starts first ws in
    let from_start : w.from ≡ some start = joins ∙ at_start in
    let above_to : greater v w.to ≡ ok true = (rw (some-injective e) above) in
    let ((b, compared), most) = Bounds-from v start w.to w.from from_start bounds in
    (
      not_from v start w.to w.from from_start (λ q. not_both v w.to above_to q.1.1),
      none_above first v start ws at_start joined rises
          (above_lower v start w.to b compared most above_to),
    )

-- bounds with a value between them are apart
wide :
    (v from to : Checkpoint)
    → greater v from ≡ ok true
    → AtMost v to
    → AtMost from to
    → greater to from ≡ ok true
wide v from to above most low = let (b, e) = greater-total from to false low in of_order b e
  where
    of_order : (b : Bool) → greater to from ≡ ok b → greater to from ≡ ok true
    of_order true e = e
    of_order false e = absurd (not_both v from above (AtMost-trans v to from most e))

-- by the order of the value and the start of the last window
of_last :
    (v start : Checkpoint) (w : Window) (ws : List Window) (b : Bool)
    → greater v start ≡ ok b
    → w.from ≡ some start
    → AtMost v w.to
    → AtMost start w.to
    → (greater v start ≡ ok true → NoneTakes v (map rows_of ws))
    → (AtMost v start → ExactlyOne v (map rows_of ws))
    → ExactlyOne v (map rows_of (w ∷ ws))
of_last v start w ws true later at_start most low none_before one_before =
    inl (rw at_start (wide v start w.to later most low, (later, most)), none_before later)
of_last v start w ws false later at_start most low none_before one_before =
    inr
      (not_from v start w.to w.from at_start (λ q. not_both v start q.1.0 later), one_before later)

-- a value above the start of the first window and at most the end of the last is in one
pub one_of-Joined :
    (first v end : Checkpoint) (ws : List Window)
    → next_from (some first) ws ≡ some end
    → Joined (some first) ws
    → Rises v ws
    → greater v first ≡ ok true
    → AtMost v end
    → ExactlyOne v (map rows_of ws)
one_of-Joined first v end [] e joined rises above most =
    not_both v end (rw (← (some-injective e)) above) most
one_of-Joined first v end (w ∷ ws) e (joins, joined) (bounds, rises) above most =
    let (start, at_start) = starts first ws in
    let from_start : w.from ≡ some start = joins ∙ at_start in
    let to_most : AtMost v w.to = (rw (some-injective e) most) in
    let ((b, compared), low) = Bounds-from v start w.to w.from from_start bounds in
    of_last v start w ws b compared from_start to_most low
      (none_above first v start ws at_start joined rises)
      (one_of-Joined first v start ws at_start joined rises above)
