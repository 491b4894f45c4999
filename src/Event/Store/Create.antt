-- ===== src/Event/Store/Create.antt =====
-- Where `event_create` puts an event.
use mathlib.Core.List.{reverse, reverse-append, reverse-reverse}
use event_sequence_transform.Prelude.{
  ℕ, ◌≡◌, Bool, true, false, none, some, [], ◌∷◌, ◌++◌, arith, refl, sym, ap, ◌∙◌, ◌+◌,
  append_assoc, Bool-cases, inl, inr,
}
use event_sequence_transform.Time.Order.{not_before, later, not_before-eq-not-later}
use event_sequence_transform.Time.{AbsoluteTime}
use event_sequence_transform.Event.{EventNode, EventData}
use event_sequence_transform.Event.Store.{
  Events, Store, insert_desc, insert_behind, event_create, event_data_copy,
}

abbrev pub time_of : EventNode → AbsoluteTime
time_of e = e.event_data.time

-- No event is later than one behind it.
abbrev pub NoneLater : EventNode → Events → Type 0
NoneLater e [] = Unit
NoneLater e (f ∷ es) = (later (time_of e) (time_of f) ≡ false) × NoneLater e es

abbrev pub IsSorted : Events → Type 0
IsSorted [] = Unit
IsSorted (e ∷ es) = NoneLater e es × IsSorted es

abbrev pub AllLater : EventNode → Events → Type 0
AllLater e [] = Unit
AllLater e (f ∷ es) = (later (time_of f) (time_of e) ≡ true) × AllLater e es

-- The event on top of a list of last events first, if there is one, is not later than `e`.
abbrev pub TopNotLater : EventNode → Events → Type 0
TopNotLater e [] = Unit
TopNotLater e (f ∷ es) = later (time_of f) (time_of e) ≡ false

-- The new event in the list with the last event first: on top, or on top of the earliest of the
-- later events that the search passed.
data Placed (e : EventNode) (es new : Events) : Type 0 where
  on_top : TopNotLater e es → new ≡ e ∷ es → Placed e es new
  within :
      (after : Events) (g : EventNode) (before : Events)
      → es ≡ after ++ (g ∷ before)
      → new ≡ after ++ (e ∷ g ∷ before)
      → AllLater e after
      → later (time_of g) (time_of e) ≡ true
      → TopNotLater e before
      → Placed e es new

Placed-further :
    (e f : EventNode) (es new : Events)
    → later (time_of f) (time_of e) ≡ true
    → ¬ TopNotLater e es
    → Placed e es new
    → Placed e (f ∷ es) (f ∷ new)
Placed-further e f es new gt not_top (on_top top eq) = absurd (not_top top)
Placed-further e f es new gt not_top (within after g before old now all g_gt top) =
    within (f ∷ after) g before (ap (λ t. f ∷ t) old) (ap (λ t. f ∷ t) now) (gt, all) g_gt top

insert_behind-Placed :
    (e f : EventNode) (es : Events)
    → later (time_of f) (time_of e) ≡ true
    → Placed e (f ∷ es) (insert_behind e f es)
unfolding insert_behind
insert_behind-Placed e f [] gt = within [] f [] refl refl tt gt tt
insert_behind-Placed e f (other ∷ es) gt =
    let flip = not_before-eq-not-later (time_of e) (time_of other) in
    elim (Bool-cases (not_before (time_of e) (time_of other))) [
      | inl here ↦
          within [] f (other ∷ es) refl (rw (here, insert_behind) refl) tt gt (ground arith)
      | inr on ↦
          let gt' : later (time_of other) (time_of e) ≡ true = ground arith in
          let next : insert_behind e f (other ∷ es) ≡ f ∷ insert_behind e other es =
            rw (on, insert_behind) refl in
          rw next (
            Placed-further e f (other ∷ es) (insert_behind e other es) gt (λ top. ground arith)
              (insert_behind-Placed e other es gt'))
    ]

insert_desc-Placed : (e : EventNode) (es : Events) → Placed e es (insert_desc e es)
unfolding insert_desc
insert_desc-Placed e [] = on_top tt refl
insert_desc-Placed e (f ∷ es) =
    let flip = not_before-eq-not-later (time_of e) (time_of f) in
    elim (Bool-cases (not_before (time_of e) (time_of f))) [
      | inl here ↦ on_top (ground arith) (rw (here, insert_desc) refl)
      | inr on ↦
          let behind : insert_desc e (f ∷ es) ≡ insert_behind e f es = rw (on, insert_desc) refl in
          rw behind (insert_behind-Placed e f es (ground arith))
    ]

AllLater-append :
    (e : EventNode) (xs ys : Events) → AllLater e xs → AllLater e ys → AllLater e (xs ++ ys)
AllLater-append e [] ys hx hy = hy
AllLater-append e (x ∷ xs) ys hx hy = (hx.0, AllLater-append e xs ys hx.1 hy)

AllLater-reverse : (e : EventNode) (xs : Events) → AllLater e xs → AllLater e (reverse xs)
AllLater-reverse e [] h = tt
AllLater-reverse e (x ∷ xs) h =
    rw (reverse-append (x ∷ []) xs)
      (AllLater-append e (reverse xs) (x ∷ []) (AllLater-reverse e xs h.1) (h.0, tt))

reverse_middle :
    (e : EventNode) (a b : Events) → reverse (a ++ (e ∷ b)) ≡ reverse b ++ (e ∷ reverse a)
reverse_middle e a b =
    reverse-append a (e ∷ b)
    ∙ ap (λ t. t ++ reverse a) (reverse-append (e ∷ []) b)
    ∙ append_assoc (reverse b) (e ∷ []) (reverse a)

abbrev pub new_event : (ℕ → Bool) → (ℕ → Bool) → EventData → Store → EventNode
new_event alloc alloc_bits content s = record {
  id = s.next_id;
  position = none;
  input_index = 0;
  event_data = event_data_copy alloc alloc_bits content;
}

-- What `event_create` makes of the list of events.
pub data Created (e : EventNode) (es new : Events) : Type 0 where
  at_end : TopNotLater e (reverse es) → new ≡ es ++ (e ∷ []) → Created e es new
  behind_later :
      (before : Events) (g : EventNode) (after : Events)
      → es ≡ before ++ (g ∷ after)
      → new ≡ before ++ (g ∷ e ∷ after)
      → TopNotLater e (reverse before)
      → later (time_of g) (time_of e) ≡ true
      → AllLater e after
      → Created e es new

Created-of :
    (e : EventNode) (es new : Events) → Placed e (reverse es) new → Created e es (reverse new)
Created-of e es new (on_top top eq) = at_end top (
    ap reverse eq
    ∙ reverse-append (e ∷ []) (reverse es)
    ∙ ap (λ t. t ++ (e ∷ [])) (reverse-reverse es))
Created-of e es new (within after g before old now all gt top) =
    behind_later (reverse before) g (reverse after)
      (sym (reverse-reverse es) ∙ ap reverse old ∙ reverse_middle g after before)
      (ap reverse now
        ∙ reverse_middle e after (g ∷ before)
        ∙ ap (λ t. t ++ (e ∷ reverse after)) (reverse-append (g ∷ []) before)
        ∙ append_assoc (reverse before) (g ∷ []) (e ∷ reverse after))
      (rw reverse-reverse top) gt (AllLater-reverse e after all)

module _ (alloc alloc_bits : ℕ → Bool) (now : AbsoluteTime) (content : EventData) (s : Store) where
  pub created_events :
      alloc s.next_id ≡ true
      → event_create alloc alloc_bits now (some content) s ≡ (
        some s.next_id,
        record {
          events = reverse (insert_desc (new_event alloc alloc_bits content s) (reverse s.events));
          next_id = s.next_id + 1;
        },
      )
  unfolding event_create
  created_events got = rw got

  -- With memory, `event_create` adds the new event to the list and changes nothing else there. The
  -- event stands at the end, if the last event is not later. Otherwise it stands directly behind the
  -- first of the later events at the end of the list.
  pub event_create_lem :
      alloc s.next_id ≡ true
      → Created
          (new_event alloc alloc_bits content s)
          s.events
          (event_create alloc alloc_bits now (some content) s).1.events
  event_create_lem got =
      let e = new_event alloc alloc_bits content s in
      rw (created_events got) (
        Created-of e s.events (insert_desc e (reverse s.events))
          (insert_desc-Placed e (reverse s.events)))
