-- ===== src/Event/Store/Sorted.antt =====
-- When the list is ordered by time after `event_create`, and when it is not.
use mathlib.Core.Path.{subst}
use mathlib.Core.List.{reverse, reverse-append, reverse-reverse}
use event_sequence_transform.Prelude.{
  ℕ, ◌≡◌, Bool, true, false, Option, some, [], ◌∷◌, ◌++◌, arith, refl, Bool-cases, inl, inr,
}
use event_sequence_transform.Time.{AbsoluteTime}
use event_sequence_transform.Time.Order.{
  not_before, later, not_before-eq-not-later, not_later_trans,
}
use event_sequence_transform.Event.{EventNode, EventData}
use event_sequence_transform.Event.Store.{Events, Store, insert_desc, insert_behind, event_create}
use event_sequence_transform.Event.Store.Create.{
  time_of, NoneLater, IsSorted, TopNotLater, new_event, created_events,
}

-- The order of the reversed list.
abbrev NotEarlier : EventNode → Events → Type 0
NotEarlier e [] = Unit
NotEarlier e (f ∷ es) = (later (time_of f) (time_of e) ≡ false) × NotEarlier e es

abbrev IsDesc : Events → Type 0
IsDesc [] = Unit
IsDesc (e ∷ es) = NotEarlier e es × IsDesc es

NotEarlier-trans :
    (e f : EventNode) (es : Events)
    → later (time_of f) (time_of e) ≡ false
    → NotEarlier f es
    → NotEarlier e es
NotEarlier-trans e f [] h k = tt
NotEarlier-trans e f (g ∷ es) h k =
    (not_later_trans (time_of g) (time_of f) (time_of e) k.0 h, NotEarlier-trans e f es h k.1)

-- On top of an event that is not later the new event keeps the order.
insert_desc-IsDesc :
    (e : EventNode) (es : Events) → TopNotLater e es → IsDesc es → IsDesc (insert_desc e es)
unfolding insert_desc
insert_desc-IsDesc e [] top d = (tt, tt)
insert_desc-IsDesc e (f ∷ es) top d =
    let flip = not_before-eq-not-later (time_of e) (time_of f) in
    let here : not_before (time_of e) (time_of f) ≡ true = ground arith in
    rw (here, insert_desc) ((top, NotEarlier-trans e f es top d.0), d)

-- Behind an event that is later it breaks the order.
insert_behind-disorder :
    (e f : EventNode) (es : Events)
    → later (time_of f) (time_of e) ≡ true
    → ¬ IsDesc (insert_behind e f es)
unfolding insert_behind
insert_behind-disorder e f [] gt d = let le = d.0.0 in ground arith
insert_behind-disorder e f (other ∷ es) gt d =
    let flip = not_before-eq-not-later (time_of e) (time_of other) in
    elim (Bool-cases (not_before (time_of e) (time_of other))) [
      | inl here ↦
          let eq : insert_behind e f (other ∷ es) ≡ e ∷ f ∷ other ∷ es =
            rw (here, insert_behind) refl in
          let d' : IsDesc (e ∷ f ∷ other ∷ es) = subst IsDesc eq d in
          let le = d'.0.0 in ground arith
      | inr on ↦
          let eq : insert_behind e f (other ∷ es) ≡ f ∷ insert_behind e other es =
            rw (on, insert_behind) refl in
          let d' : IsDesc (f ∷ insert_behind e other es) = subst IsDesc eq d in
          insert_behind-disorder e other es (ground arith) d'.1
    ]

insert_desc-disorder :
    (e f : EventNode) (es : Events)
    → later (time_of f) (time_of e) ≡ true
    → ¬ IsDesc (insert_desc e (f ∷ es))
unfolding insert_desc
insert_desc-disorder e f es gt d =
    let flip = not_before-eq-not-later (time_of e) (time_of f) in
    let on : not_before (time_of e) (time_of f) ≡ false = ground arith in
    let eq : insert_desc e (f ∷ es) ≡ insert_behind e f es = rw (on, insert_desc) refl in
    insert_behind-disorder e f es gt (subst IsDesc eq d)

-- Reversal exchanges the two orders.
NotEarlier-snoc :
    (e f : EventNode) (es : Events)
    → NotEarlier e es
    → later (time_of f) (time_of e) ≡ false
    → NotEarlier e (es ++ (f ∷ []))
NotEarlier-snoc e f [] h k = (k, tt)
NotEarlier-snoc e f (g ∷ es) h k = (h.0, NotEarlier-snoc e f es h.1 k)

NoneLater-snoc :
    (e f : EventNode) (es : Events)
    → NoneLater e es
    → later (time_of e) (time_of f) ≡ false
    → NoneLater e (es ++ (f ∷ []))
NoneLater-snoc e f [] h k = (k, tt)
NoneLater-snoc e f (g ∷ es) h k = (h.0, NoneLater-snoc e f es h.1 k)

IsDesc-snoc : (f : EventNode) (es : Events) → IsDesc es → NoneLater f es → IsDesc (es ++ (f ∷ []))
IsDesc-snoc f [] d h = (tt, tt)
IsDesc-snoc f (g ∷ es) d h = (NotEarlier-snoc g f es d.0 h.0, IsDesc-snoc f es d.1 h.1)

IsSorted-snoc :
    (f : EventNode) (es : Events) → IsSorted es → NotEarlier f es → IsSorted (es ++ (f ∷ []))
IsSorted-snoc f [] d h = (tt, tt)
IsSorted-snoc f (g ∷ es) d h = (NoneLater-snoc g f es d.0 h.0, IsSorted-snoc f es d.1 h.1)

NoneLater-reverse : (e : EventNode) (es : Events) → NoneLater e es → NoneLater e (reverse es)
NoneLater-reverse e [] h = tt
NoneLater-reverse e (f ∷ es) h =
    rw (reverse-append (f ∷ []) es)
      (NoneLater-snoc e f (reverse es) (NoneLater-reverse e es h.1) h.0)

NotEarlier-reverse : (e : EventNode) (es : Events) → NotEarlier e es → NotEarlier e (reverse es)
NotEarlier-reverse e [] h = tt
NotEarlier-reverse e (f ∷ es) h =
    rw (reverse-append (f ∷ []) es)
      (NotEarlier-snoc e f (reverse es) (NotEarlier-reverse e es h.1) h.0)

reverse-IsDesc : (es : Events) → IsSorted es → IsDesc (reverse es)
reverse-IsDesc [] s = tt
reverse-IsDesc (e ∷ es) s =
    rw (reverse-append (e ∷ []) es)
      (IsDesc-snoc e (reverse es) (reverse-IsDesc es s.1) (NoneLater-reverse e es s.0))

reverse-IsSorted : (es : Events) → IsDesc es → IsSorted (reverse es)
reverse-IsSorted [] s = tt
reverse-IsSorted (e ∷ es) s =
    rw (reverse-append (e ∷ []) es)
      (IsSorted-snoc e (reverse es) (reverse-IsSorted es s.1) (NotEarlier-reverse e es s.0))

module _ (alloc alloc_bits : ℕ → Bool) (now : AbsoluteTime) (content : EventData) (s : Store) where
  -- `event_create` keeps a list ordered by time so, with memory or without, if the last event of the
  -- list is not later than the new one.
  pub event_create-IsSorted :
      IsSorted s.events
      → TopNotLater (new_event alloc alloc_bits content s) (reverse s.events)
      → IsSorted (event_create alloc alloc_bits now (some content) s).1.events
  unfolding event_create
  event_create-IsSorted sorted top = elim (Bool-cases (alloc s.next_id)) [
    | inr failed ↦ rw failed sorted
    | inl got ↦ rw got (
        reverse-IsSorted _ (
          insert_desc-IsDesc (new_event alloc alloc_bits content s) (reverse s.events) top
            (reverse-IsDesc s.events sorted)))
  ]

  -- With memory, a new event that is earlier than the last event of the list leaves the list out of
  -- the order of time.
  pub event_create-disorder :
      (last : EventNode) (others : Events)
      → alloc s.next_id ≡ true
      → reverse s.events ≡ last ∷ others
      → later (time_of last) (time_of (new_event alloc alloc_bits content s)) ≡ true
      → ¬ IsSorted (event_create alloc alloc_bits now (some content) s).1.events
  event_create-disorder last others got ends gt sorted =
      let e = new_event alloc alloc_bits content s in
      let list : IsSorted (reverse (insert_desc e (reverse s.events))) =
        subst (λ (r : Option ℕ × Store). IsSorted r.1.events)
          (created_events alloc alloc_bits now content s got) sorted in
      let desc : IsDesc (insert_desc e (reverse s.events)) =
        subst IsDesc (reverse-reverse (insert_desc e (reverse s.events))) (reverse-IsDesc _ list) in
      insert_desc-disorder e last others gt (subst (λ es. IsDesc (insert_desc e es)) ends desc)
