-- ===== src/Event/Store/Writes.antt =====
-- Writes to a node of the list of events, and where the node is found after them.
use mathlib.Core.Option
use event_sequence_transform.Prelude.{
  ℕ, ◌≡◌, true, some, [], ◌∷◌, arith, refl, sym, ap, ◌∙◌, ◌==◌, Bool-cases, inl, inr,
}
use event_sequence_transform.Event.{EventNode}
use event_sequence_transform.Event.Store.{
  Store, Events, find_event, update_event, unlink, event_destroy,
}

module _ (i : ℕ) (f : EventNode → EventNode) (same : (e : EventNode) → (f e).id ≡ e.id) where
  pub find_event-update_event :
      (es : Events) (e : EventNode)
      → find_event i es ≡ some e
      → find_event i (update_event i f es) ≡ some (f e)
  unfolding find_event update_event
  find_event-update_event [] e h = ground arith
  find_event-update_event (x ∷ es) e h =
      let rest = find_event-update_event es e in
      elim (Bool-cases (x.id == i)) [
        | inl here ↦
            let there : (f x).id == i ≡ true = ap (λ n. n == i) (same x) ∙ here in
            let opened : find_event i (x ∷ es) ≡ some x = rw (here, find_event) refl in
            let head : some x ≡ some e = sym opened ∙ h in
            simp (here, there, find_event) (ap (Option.map f) head)
        | inr on ↦
            let found : find_event i es ≡ some e = ground arith in
            simp (on, find_event) (rest found)
      ]

  pub unlink-update_event : (es : Events) → unlink i (update_event i f es) ≡ unlink i es
  unfolding unlink update_event
  unlink-update_event [] = refl
  unlink-update_event (x ∷ es) =
      let rest = unlink-update_event es in
      elim (Bool-cases (x.id == i)) [
        | inl here ↦
            let there : (f x).id == i ≡ true = ap (λ n. n == i) (same x) ∙ here in
            simp (here, there)
        | inr on ↦ simp (on, unlink, rest)
      ]

  -- Two writes to a node are one.
  pub update_event-update_event :
      (g : EventNode → EventNode) (es : Events)
      → update_event i g (update_event i f es) ≡ update_event i (λ e. g (f e)) es
  unfolding update_event
  update_event-update_event g [] = refl
  update_event-update_event g (x ∷ es) =
      let rest = update_event-update_event g es in
      elim (Bool-cases (x.id == i)) [
        | inl here ↦
            let there : (f x).id == i ≡ true = ap (λ n. n == i) (same x) ∙ here in
            simp (here, there)
        | inr on ↦ simp (on, update_event, rest)
      ]

pub event_destroy-found :
    (i : ℕ) (s : Store) (e : EventNode)
    → find_event i s.events ≡ some e
    → event_destroy i s ≡ some (record s { events = unlink i s.events })
unfolding event_destroy
event_destroy-found i s e h = rw (h, event_destroy)
