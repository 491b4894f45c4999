-- ===== src/Processing/Delays.antt =====
-- The order of the list of delayed calls, and `schedule_delay` of processing.c.
use event_sequence_transform.Prelude.{
  ◌≡◌, true, false, List, [], ◌∷◌, ◌++◌, refl, arith, ap, Bool-cases, inl, inr,
}
use event_sequence_transform.Time.{AbsoluteTime}
use event_sequence_transform.Time.Order.{later, later_asymm, not_later_trans}
use event_sequence_transform.Processing.{Delay, insert_delay, schedule_delay}

-- No entry of the list is before the time.
abbrev pub NoneBefore : AbsoluteTime → List Delay → Type 0
NoneBefore t [] = Unit
NoneBefore t (d ∷ ds) = (later t d.time ≡ false) × NoneBefore t ds

abbrev pub IsOrdered : List Delay → Type 0
IsOrdered [] = Unit
IsOrdered (d ∷ ds) = NoneBefore d.time ds × IsOrdered ds

abbrev pub NoneAfter : AbsoluteTime → List Delay → Type 0
NoneAfter t [] = Unit
NoneAfter t (d ∷ ds) = (later d.time t ≡ false) × NoneAfter t ds

abbrev pub AllAfter : AbsoluteTime → List Delay → Type 0
AllAfter t [] = Unit
AllAfter t (d ∷ ds) = (later d.time t ≡ true) × AllAfter t ds

NoneBefore-trans :
    (s t : AbsoluteTime) (ds : List Delay) → later s t ≡ false → NoneBefore t ds → NoneBefore s ds
NoneBefore-trans s t [] h n = tt
NoneBefore-trans s t (d ∷ ds) h n =
    (not_later_trans s t d.time h n.0, NoneBefore-trans s t ds h n.1)

NoneBefore-insert_delay :
    (t : AbsoluteTime) (d : Delay) (ds : List Delay)
    → later t d.time ≡ false
    → NoneBefore t ds
    → NoneBefore t (insert_delay d ds)
unfolding insert_delay
NoneBefore-insert_delay t d [] h n = (h, tt)
NoneBefore-insert_delay t d (e ∷ ds) h n = elim (Bool-cases (later e.time d.time)) [
  | inl here ↦ rw (here, insert_delay) (h, n)
  | inr on ↦ rw (on, insert_delay) (n.0, NoneBefore-insert_delay t d ds h n.1)
]

insert_delay-IsOrdered :
    (d : Delay) (ds : List Delay) → IsOrdered ds → IsOrdered (insert_delay d ds)
unfolding insert_delay
insert_delay-IsOrdered d [] o = (tt, tt)
insert_delay-IsOrdered d (e ∷ ds) o = elim (Bool-cases (later e.time d.time)) [
  | inl here ↦
      let le = later_asymm e.time d.time here in
      rw (here, insert_delay) ((le, NoneBefore-trans d.time e.time ds le o.0), o)
  | inr on ↦
      rw (on, insert_delay)
        (NoneBefore-insert_delay e.time d ds on o.0, insert_delay-IsOrdered d ds o.1)
]

later-raise : (a b t : AbsoluteTime) → later a t ≡ true → later a b ≡ false → later b t ≡ true
later-raise a b t h k = elim (Bool-cases (later b t)) [
  | inl above ↦ above
  | inr below ↦ let le = not_later_trans a b t k below in ground arith
]

-- Behind an entry that is later, all are.
pub AllAfter-of :
    (t : AbsoluteTime) (e : Delay) (ds : List Delay)
    → later e.time t ≡ true
    → NoneBefore e.time ds
    → AllAfter t ds
AllAfter-of t e [] h n = tt
AllAfter-of t e (d ∷ ds) h n = (later-raise e.time d.time t h n.0, AllAfter-of t e ds h n.1)

insert_delay-split :
    (d : Delay) (ds : List Delay)
    → IsOrdered ds
    → (before after : List Delay) × (ds ≡ before ++ after)
      × (insert_delay d ds ≡ before ++ (d ∷ after))
      × NoneAfter d.time before
      × AllAfter d.time after
unfolding insert_delay
insert_delay-split d [] o = ([], [], refl, refl, tt, tt)
insert_delay-split d (e ∷ ds) o = elim (Bool-cases (later e.time d.time)) [
  | inl here ↦
      ([], e ∷ ds, refl, rw (here, insert_delay) refl, tt, (here, AllAfter-of d.time e ds here o.0))
  | inr on ↦
      let (before, after, old, new, le, gt) = insert_delay-split d ds o.1 in
      (
        e ∷ before,
        after,
        ap (λ t. e ∷ t) old,
        rw (on, insert_delay) (ap (λ t. e ∷ t) new),
        (on, le),
        gt,
      )
]

-- With memory, `schedule_delay` on a list in the order of time gives a list in the order of time,
-- in which the new entry stands behind the ones that are not later and before the later ones.
pub schedule_delay_lem :
    (d : Delay) (ds : List Delay)
    → IsOrdered ds
    → IsOrdered (schedule_delay true d ds).1
      × ((before after : List Delay) × (ds ≡ before ++ after)
          × (schedule_delay true d ds ≡ (true, before ++ (d ∷ after)))
          × NoneAfter d.time before
          × AllAfter d.time after)
unfolding schedule_delay
schedule_delay_lem d ds o =
    let (before, after, old, new, le, gt) = insert_delay-split d ds o in
    (insert_delay-IsOrdered d ds o, (before, after, old, ap (λ t. (true, t)) new, le, gt))
