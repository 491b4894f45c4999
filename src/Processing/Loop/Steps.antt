-- ===== src/Processing/Loop/Steps.antt =====
-- Single steps of the loops of process_events_until.
use event_sequence_transform.Prelude.{
  ℕ, zero, suc, ◌<◌, ◌≡◌, Bool, true, false, some, ◌∷◌, refl, arith,
}
use event_sequence_transform.Prelude.Int.{ℤ, ltb_ℤ}
use event_sequence_transform.Time.{AbsoluteTime}
use event_sequence_transform.Time.Order.{later}
use event_sequence_transform.Event.{EventNode, Position}
use event_sequence_transform.Event.Store.{Events}
use event_sequence_transform.Processing.Loop.{
  int32_min, priority_of, Pass, Processed, run_pass, run_passes, first_time,
}

module _ {ℓ} {W : Type ℓ} (events : W → Events) (ready : W → Position → Bool)
    (handle : Position → ℕ → W → Bool × W) (max_time : AbsoluteTime) where
  abbrev pub processed : Bool → Bool → W → Processed W
  processed had_events has_future w = record {
    had_events = had_events;
    has_future = has_future;
    reached_time = first_time events ready handle max_time (events w);
    left = w;
  }

  pub run_passes-low :
      (rounds fuel : ℕ) (st : Pass W)
      → ltb_ℤ int32_min st.next_priority ≡ false
      → 0 < fuel
      → run_passes events ready handle max_time rounds fuel st ≡ some st
  unfolding run_passes
  run_passes-low rounds zero st low enough = absurd (omega arith)
  run_passes-low rounds (suc fuel) st low enough = rw (low, run_passes) refl

  pub run_passes-next :
      (rounds fuel : ℕ) (st st' : Pass W)
      → ltb_ℤ int32_min st.next_priority ≡ true
      → run_pass events ready handle max_time rounds st.next_priority
          (events st.world)
          (record st { next_priority = int32_min })
        ≡ some st'
      → run_passes events ready handle max_time rounds (suc fuel) st
        ≡ run_passes events ready handle max_time rounds fuel st'
  unfolding run_passes
  run_passes-next rounds fuel st st' high one = rw (high, run_passes, one) refl

  module _ (rewinds : (p : Position) (i : ℕ) (w : W) → (handle p i w).0 ≡ true) where
    pub first_step :
        (fuel : ℕ) (pass : ℤ) (e : EventNode) (es : Events) (st : Pass W) (place : Position)
        → ltb_ℤ pass (priority_of e) ≡ false
        → e.position ≡ some place
        → ready st.world place ≡ true
        → later e.event_data.time max_time ≡ false
        → run_pass events ready handle max_time (suc fuel) pass (e ∷ es) st
          ≡ some (record {
            next_priority = int32_min;
            stable = false;
            has_future_events = st.has_future_events;
            world = (handle place e.id st.world).1;
          })
    unfolding run_pass
    first_step fuel pass e es st place level at_place is_ready is_due =
        rw (level, at_place, is_ready, is_due, rewinds place e.id st.world, run_pass) refl
