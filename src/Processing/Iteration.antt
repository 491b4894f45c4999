-- ===== src/Processing/Iteration.antt =====
-- process_io and process_iteration of processing.c. `W` is the state of the program outside of what
-- a round of the loop sets; `delays` and `put_delays` are its list of delayed calls, and `call` runs
-- a callback on its target and time.
pub mod Rounds
pub mod Termination
use event_sequence_transform.Prelude.{
  ℕ, zero, suc, ◌+◌, Bool, true, false, Option, none, some, List, [], ◌∷◌, if◌then◌else◌, not, ◌&&◌,
}
use event_sequence_transform.Prelude.Int.{ℤ, pos, ltb_ℤ}
use event_sequence_transform.Time.{
  AbsoluteTime, RelativeTime, absolute_time_sub_absolute, relative_time_cmp,
}
use event_sequence_transform.Time.Order.{later}
use event_sequence_transform.Event.{Position}
use event_sequence_transform.Event.Store.{Events}
use event_sequence_transform.Processing.{
  Delay, process_single_scheduled, IoHandling, IoSubscriptionList, FdSet, populate_fd_set,
  run_io_handlers,
}
use event_sequence_transform.Processing.Loop.{Processed, process_events_until}

-- ZERO_TO.
abbrev pub zero_to : RelativeTime
zero_to = record { tv_sec = pos 0; tv_nsec = pos 0 }

-- The calls of the handlers of `process_io` for input, then those for output, `none` where `pselect` fails.
-- `pselect` gives the two sets that it leaves.
module _ (handling : ℕ → IoHandling)
    (pselect : ℕ → FdSet → FdSet → Option RelativeTime → Option (FdSet × FdSet)) where
  pub process_io :
      IoSubscriptionList
      → IoSubscriptionList
      → Option RelativeTime
      → Option (List (ℕ × ℕ × ℕ) × List (ℕ × ℕ × ℕ))
  unfolding populate_fd_set run_io_handlers
  process_io wait_input wait_output timeout =
      let inputs = populate_fd_set handling wait_input 0 in
      let outputs = populate_fd_set handling wait_output inputs.1 in
      elim (pselect (outputs.1 + 1) inputs.0 outputs.0 timeout) [
        | none ↦ none
        | some ready ↦ some (
          run_io_handlers handling ready.0 wait_input,
          run_io_handlers handling ready.1 wait_output,
        )
      ]

-- `max_io_timeout`, `none` for NULL.
pub io_timeout : Bool → List Delay → AbsoluteTime → Option RelativeTime
io_timeout true wait_delay extern_time = some zero_to
io_timeout false [] extern_time = none
io_timeout false (d ∷ ds) extern_time =
    let next_scheduled_delay = absolute_time_sub_absolute d.time extern_time in
    some (
      if ltb_ℤ (relative_time_cmp next_scheduled_delay zero_to) (pos 0)
      then zero_to
      else next_scheduled_delay)

-- `max_event_time`.
pub event_time_limit : List Delay → AbsoluteTime → AbsoluteTime
event_time_limit [] extern_time = extern_time
event_time_limit (d ∷ ds) extern_time = if later d.time extern_time then d.time else extern_time

module _ {ℓ} {W : Type ℓ} (delays : W → List Delay) (put_delays : List Delay → W → W)
    (call : ℕ → ℕ → AbsoluteTime → W → W) (io : Option RelativeTime → W → W) (events : W → Events)
    (ready : W → Position → Bool) (handle : Position → ℕ → W → Bool × W) where
  abbrev pub called : Delay → W → W
  called d w = elim d.callback [ none ↦ w | some callback ↦ call callback d.target d.time w ]

  -- `process_single_scheduled` with the call of its entry: whether there was one.
  pub run_scheduled : AbsoluteTime → W → Bool × W
  unfolding process_single_scheduled
  run_scheduled extern_time w =
      let step = process_single_scheduled extern_time (delays w) in
      elim step.0 [ none ↦ (false, w) | some d ↦ (true, called d (put_delays step.1 w)) ]

  -- The loop, with `fuel` rounds, each with as much fuel for the events. `none` is a lack of it.
  unfoldable pub iterate : ℕ → AbsoluteTime → W → Option (Processed W)
  unfolding run_scheduled event_time_limit process_events_until
  iterate zero extern_time w = none
  iterate (suc fuel) extern_time w =
      let scheduled = run_scheduled extern_time w in
      let limit = event_time_limit (delays scheduled.1) extern_time in
      elim (process_events_until events ready handle limit (suc fuel) scheduled.1) [
        | none ↦ none
        | some p ↦ elim (not scheduled.0 && not p.had_events) [
          | true ↦ some p
          | false ↦ iterate fuel extern_time (io (some zero_to) p.left)
        ]
      ]

  pub process_iteration : ℕ → Bool → AbsoluteTime → W → Option (Processed W)
  unfolding io_timeout iterate
  process_iteration fuel has_future_events extern_time w =
      iterate fuel extern_time (io (io_timeout has_future_events (delays w) extern_time) w)
