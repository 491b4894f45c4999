-- ===== src/Processing/Loop.antt =====
-- process_events_until of processing.c: passes over the list of events, from the highest priority
-- down, until a handler asks for a rewind or no priority is left. `max_time` is not NULL: the code reads
-- it in any case. `pass_priority` of the state is an argument of the pass.
pub mod Priorities
pub mod Steps
pub mod Rewind
pub mod First
use event_sequence_transform.Prelude.{
  ℕ, zero, suc, ◌+◌, ◌-◌, ◌^◌, Bool, true, false, Option, none, some, List, [], ◌∷◌, ◌==◌,
  if◌then◌else◌, ◌&&◌, not,
}
use event_sequence_transform.Prelude.Int.{ℤ, pos, negsuc, ltb_ℤ}
use event_sequence_transform.Time.{AbsoluteTime}
use event_sequence_transform.Time.Order.{later}
use event_sequence_transform.Event.{EventNode, Position}
use event_sequence_transform.Event.Store.{Events}

abbrev pub int32_min : ℤ
int32_min = negsuc (2 ^ 31 - 1)

abbrev pub priority_of : EventNode → ℤ
priority_of e = e.event_data.priority

-- The first loop: the highest priority up to the first event that is later than `max_time`, and
-- whether there is such an event.
pub highest_priority : AbsoluteTime → Events → ℤ → ℤ × Bool
highest_priority max_time [] next_priority = (next_priority, false)
highest_priority max_time (ev ∷ evs) next_priority =
    if later ev.event_data.time max_time
    then (next_priority, true)
    else highest_priority max_time evs
        (if ltb_ℤ next_priority (priority_of ev) then priority_of ev else next_priority)

-- The events behind the event `i`: from `ev->next` on.
pub behind : ℕ → Events → Events
behind i [] = []
behind i (ev ∷ evs) = if ev.id == i then evs else behind i evs

-- The variables of the loops.
pub record Pass {ℓ} (W : Type ℓ) : Type ℓ where
  pub next_priority : ℤ
  pub stable : Bool
  pub has_future_events : Bool
  pub world : W

pub record Processed {ℓ} (W : Type ℓ) : Type ℓ where
  pub had_events : Bool
  pub has_future : Bool
  pub reached_time : AbsoluteTime
  pub left : W

-- `events` reads FIRST_EVENT and what follows. `ready` says whether a position has a handler and does
-- not wait for a new event. `handle` is the call of the handler, which answers whether to rewind.
module _ {ℓ} {W : Type ℓ} (events : W → Events) (ready : W → Position → Bool)
    (handle : Position → ℕ → W → Bool × W) (max_time : AbsoluteTime) where
  -- `next_priority` behind an event of the pass.
  abbrev pub noted : ℤ → EventNode → ℤ → ℤ
  noted pass_priority ev next_priority =
      if ltb_ℤ (priority_of ev) pass_priority && ltb_ℤ next_priority (priority_of ev)
      then priority_of ev
      else next_priority

  -- The inner loop from an event on. `none` is a lack of fuel.
  pub run_pass : ℕ → ℤ → Events → Pass W → Option (Pass W)
  unfolding behind
  run_pass zero pass_priority evs st = none
  run_pass (suc fuel) pass_priority [] st = some st
  run_pass (suc fuel) pass_priority (ev ∷ evs) st =
      let on = λ (next : ℤ). run_pass fuel pass_priority evs (record st { next_priority = next }) in
      elim (ltb_ℤ pass_priority (priority_of ev)) [
        | true ↦ on st.next_priority
        | false ↦
            let next = noted pass_priority ev st.next_priority in
            elim ev.position [
              | none ↦ on next
              | some position ↦ elim (ready st.world position) [
                | false ↦ on next
                | true ↦ elim (later ev.event_data.time max_time) [
                  | true ↦ some (record st { next_priority = next; has_future_events = true })
                  | false ↦
                      let answer = handle position ev.id st.world in
                      elim answer.0 [
                        | true ↦ some (record {
                          next_priority = int32_min;
                          stable = false;
                          has_future_events = st.has_future_events;
                          world = answer.1;
                        })
                        | false ↦
                            run_pass fuel pass_priority (behind ev.id (events answer.1)) (record {
                              next_priority = next;
                              stable = false;
                              has_future_events = st.has_future_events;
                              world = answer.1;
                            })
                      ]
                ]
              ]
            ]
      ]

  -- The outer loop: `fuel` passes, each with `rounds` rounds.
  pub run_passes : ℕ → ℕ → Pass W → Option (Pass W)
  unfolding run_pass
  run_passes rounds zero st = none
  run_passes rounds (suc fuel) st = elim (ltb_ℤ int32_min st.next_priority) [
    | false ↦ some st
    | true ↦
        elim (run_pass rounds st.next_priority (events st.world)
          (record st { next_priority = int32_min })) [
            | none ↦ none
            | some st' ↦ run_passes rounds fuel st'
          ]
  ]

  abbrev pub first_time : Events → AbsoluteTime
  first_time [] = max_time
  first_time (ev ∷ evs) = ev.event_data.time

  abbrev pub first_pass : W → Pass W
  first_pass w =
      let highest = highest_priority max_time (events w) int32_min in
      record { next_priority = highest.0; stable = true; has_future_events = highest.1; world = w }

  abbrev finish : Option (Pass W) → Option (Processed W)
  finish none = none
  finish (some st) = some (record {
    had_events = not st.stable;
    has_future = st.has_future_events;
    reached_time = first_time (events st.world);
    left = st.world;
  })

  unfoldable pub process_events_until : ℕ → W → Option (Processed W)
  unfolding highest_priority run_passes
  process_events_until fuel w = finish (run_passes fuel fuel (first_pass w))
