-- ===== src/Processing/Iteration/Termination.antt =====
-- The loop of `process_iteration` where every call uses up something.
use event_sequence_transform.Prelude.{
  ℕ, ◌≤◌, ◌<◌, ◌≡◌, Bool, true, false, Option, some, List, ◌∷◌, length,
}
use event_sequence_transform.Time.{AbsoluteTime, RelativeTime}
use event_sequence_transform.Event.{Position}
use event_sequence_transform.Event.Store.{Events}
use event_sequence_transform.Processing.{Delay}
use event_sequence_transform.Processing.Delays.{IsOrdered, AllAfter}
use event_sequence_transform.Processing.Loop.{Processed, process_events_until}
use event_sequence_transform.Processing.Iteration.{
  zero_to, event_time_limit, called, run_scheduled, iterate,
}

module _ {ℓ} {W : Type ℓ} (delays : W → List Delay) (put_delays : List Delay → W → W)
    (call : ℕ → ℕ → AbsoluteTime → W → W) (io : Option RelativeTime → W → W) (events : W → Events)
    (ready : W → Position → Bool) (handle : Position → ℕ → W → Bool × W) where
  abbrev loop : ℕ → AbsoluteTime → W → Option (Processed W)
  loop = iterate delays put_delays call io events ready handle

  abbrev call_of : Delay → W → W
  call_of = called delays put_delays call io events ready handle

  abbrev scheduled : AbsoluteTime → W → Bool × W
  scheduled = run_scheduled delays put_delays call io events ready handle

  -- `work` is what is left to do: a call that was scheduled uses some of it up, so does the call of a
  -- handler, and input and output that do not wait bring no more. There are never more events than
  -- `most`, handlers ask for a rewind, and the delayed calls are in the order of time.
  pub record Spends (work : W → ℕ) (most : ℕ) : Type ℓ where
    pub rewinds : (p : Position) (i : ℕ) (w : W) → (handle p i w).0 ≡ true
    pub ordered : (w : W) → IsOrdered (delays w)
    pub few_events : (w : W) → length (events w) ≤ most
    pub by_schedule :
        (w : W) (d : Delay) (ds : List Delay)
        → delays w ≡ d ∷ ds
        → work (call_of d (put_delays ds w)) < work w
    pub by_handler :
        (w : W) (p : Position) (i : ℕ) → ready w p ≡ true → work (handle p i w).1 < work w
    pub by_io : (w : W) → work (io (some zero_to) w) ≤ work w

  abbrev passes : ℕ → AbsoluteTime → W → Option (Processed W)
  passes fuel t w = process_events_until events ready handle (event_time_limit (delays w) t) fuel w

  module _ (work : W → ℕ) (most : ℕ) (spends : Spends work most) (t : AbsoluteTime) where
    -- The loop ends, and nothing is left to call.
    abbrev Ends : ℕ → W → Type ℓ
    Ends fuel w =
        (p : Processed W) × (loop fuel t w ≡ some p)
        × (p.had_events ≡ false)
        × AllAfter t (delays p.left)
        × ((n : ℕ) × (passes n t p.left ≡ some p))
