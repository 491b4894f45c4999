-- ===== src/Processing/Loop/First.antt =====
-- process_events_until and the first event of the list.
use event_sequence_transform.Prelude.{
  ℕ, suc, ◌≡◌, Bool, true, false, some, ◌∷◌, refl, ap, ◌∙◌, arith,
}
use event_sequence_transform.Prelude.Int.{ltb_ℤ}
use event_sequence_transform.Time.{AbsoluteTime}
use event_sequence_transform.Time.Order.{later}
use event_sequence_transform.Event.{EventNode, Position}
use event_sequence_transform.Event.Store.{Events}
use event_sequence_transform.Processing.Loop.{
  int32_min, priority_of, Pass, run_pass, first_pass, process_events_until,
}
use event_sequence_transform.Processing.Loop.Priorities.{highest_priority_first}
use event_sequence_transform.Processing.Loop.Steps.{
  processed, run_passes-low, run_passes-next, first_step,
}

module _ {ℓ} {W : Type ℓ} (events : W → Events) (ready : W → Position → Bool)
    (handle : Position → ℕ → W → Bool × W) (max_time : AbsoluteTime) where
  module _ (rewinds : (p : Position) (i : ℕ) (w : W) → (handle p i w).0 ≡ true) where
    -- Where every handler asks for a rewind, the first event of the list is the one that
    -- `process_events_until` has handled, whatever the priorities of the others are, if it is not
    -- later than `max_time`, is at a position that is ready and has a priority above INT32_MIN.
    pub first_event_called :
        (fuel : ℕ) (w : W) (e : EventNode) (es : Events) (place : Position)
        → events w ≡ e ∷ es
        → e.position ≡ some place
        → ready w place ≡ true
        → later e.event_data.time max_time ≡ false
        → ltb_ℤ int32_min (priority_of e) ≡ true
        → (future : Bool) × (process_events_until events ready handle max_time (suc (suc fuel)) w
            ≡ some (processed events ready handle max_time true future (handle place e.id w).1))
    unfolding process_events_until
    first_event_called fuel w e es place list at_place is_ready is_due above =
        let st = first_pass events ready handle max_time w in
        let pass = st.next_priority in
        let level : ltb_ℤ pass (priority_of e) ≡ false =
          rw list (highest_priority_first max_time e es int32_min is_due) in
        let high : ltb_ℤ int32_min pass ≡ true = ground arith in
        let called : Pass W = record {
          next_priority = int32_min;
          stable = false;
          has_future_events = st.has_future_events;
          world = (handle place e.id w).1;
        } in
        let one =
          first_step events ready handle max_time rewinds (suc fuel) pass e es
            (record st { next_priority = int32_min }) place level at_place is_ready is_due in
        let next =
          run_passes-next events ready handle max_time (suc (suc fuel)) (suc fuel) st called high (
            ap
              (λ l.
                run_pass events ready handle max_time (suc (suc fuel)) pass l
                  (record st { next_priority = int32_min }))
              list
            ∙ one) in
        let all =
          next
          ∙ run_passes-low events ready handle max_time (suc (suc fuel)) (suc fuel) called refl
              (omega arith) in
        (st.has_future_events, rw all refl)
