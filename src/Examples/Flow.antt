-- ===== src/Examples/Flow.antt =====
-- Runs for the subscriptions, the delayed calls, the passes and the nodes.
use event_sequence_transform.Prelude.{
  ℕ, ◌*◌, ◌<◌, ◌≡◌, ◌⊎◌, Bool, true, false, some, List, [], ◌∷◌, ◌++◌, refl, arith, ltb,
}
use event_sequence_transform.Prelude.Int.{pos, negsuc, ◌+ℤ◌}
use event_sequence_transform.Time.{AbsoluteTime}
use event_sequence_transform.Time.Order.{later}
use event_sequence_transform.Event.{EventData, EventNode, Position, at_node}
use event_sequence_transform.Event.Store.{Events}
use event_sequence_transform.Processing.{
  IoSubscriptionList, Delay, io_subscription_list_add, schedule_delay,
}
use event_sequence_transform.Processing.Subscriptions.{
  IsValid, entries, io_subscription_list_add_lem,
}
use event_sequence_transform.Processing.Delays.{IsOrdered, NoneAfter, AllAfter, schedule_delay_lem}
use event_sequence_transform.Processing.Loop.{process_events_until}
use event_sequence_transform.Processing.Loop.Steps.{processed}
use event_sequence_transform.Processing.Loop.Rewind.{Call, process_events_until_lem}
use event_sequence_transform.Processing.Loop.First.{first_event_called}
use event_sequence_transform.Nodes.{differentiate_data, integrate_data, scale_data, is_nonzero}
use event_sequence_transform.Nodes.Streams.{
  run, weight, amortizing, differentiate-integrate, scale_run_lem, size,
}

abbrev at_second : ℕ → AbsoluteTime
at_second n = record { tv_sec = pos n; tv_nsec = pos 0 }

abbrev event_at : ℕ → EventData
event_at n = record {
  code = record { ns = 1; major = 2; minor = 0 };
  ttl = 10;
  priority = pos n;
  payload = pos (10 * n);
  modifiers = record { bits = [] };
  time = at_second n;
}

abbrev small_alloc : ℕ → Bool
small_alloc n = ltb n 100

-- Full, so that it is extended.
abbrev subscriptions : IoSubscriptionList
subscriptions = record { length = 1; capacity = 1; fds = 5 ∷ []; subscribers = some 0 ∷ [] }

subscriptions-IsValid : IsValid subscriptions
subscriptions-IsValid = record {
  bounded = omega arith;
  has_fds = omega arith;
  has_subscribers = omega arith;
}

io_subscription_list_add_lem_example :
    (lst : IoSubscriptionList) × (io_subscription_list_add small_alloc small_alloc 7
        (some 1)
        subscriptions
      ≡ some lst)
    × IsValid lst
    × (entries lst ≡ (5, some 0) ∷ (7, some 1) ∷ [])
io_subscription_list_add_lem_example =
    io_subscription_list_add_lem small_alloc small_alloc subscriptions subscriptions-IsValid
      (omega arith) 7 (some 1) refl refl

abbrev delay : ℕ → ℕ → Delay
delay callback n = record { callback = some callback; target = 0; time = at_second n }

abbrev delays : List Delay
delays = delay 0 1 ∷ delay 1 3 ∷ []

delays-IsOrdered : IsOrdered delays
unfolding later
delays-IsOrdered = ((refl, tt), (tt, tt))

schedule_delay_lem_example :
    IsOrdered (schedule_delay true (delay 2 1) delays).1
    × ((before after : List Delay) × (delays ≡ before ++ after)
        × (schedule_delay true (delay 2 1) delays ≡ (true, before ++ (delay 2 1 ∷ after)))
        × NoneAfter (at_second 1) before
        × AllAfter (at_second 1) after)
schedule_delay_lem_example = schedule_delay_lem (delay 2 1) delays delays-IsOrdered

abbrev low_event : EventNode
low_event = record { id = 0; position = some (at_node 0); input_index = 0; event_data = event_at 1 }

-- A state that is the list of events; a handler takes the first event off it.
abbrev two_events : Events
two_events =
    low_event
    ∷ record { id = 1; position = some (at_node 1); input_index = 0; event_data = event_at 2 }
    ∷ []

abbrev rest : Events → Events
rest [] = []
rest (e ∷ es) = es

abbrev all_events : Events → Events
all_events es = es

abbrev is_ready : Events → Position → Bool
is_ready es p = true

abbrev drop_first : Position → ℕ → Events → Bool × Events
drop_first p i es = (true, rest es)

process_events_until_lem_example :
    ((future : Bool) × (process_events_until all_events is_ready drop_first
          (at_second 5)
          4
          two_events
        ≡ some (processed all_events is_ready drop_first (at_second 5) false future two_events)))
    ⊎ ((c : Call all_events is_ready drop_first (at_second 5) two_events) × (future : Bool)
        × (process_events_until all_events is_ready drop_first (at_second 5) 4 two_events
            ≡ some (
                processed all_events is_ready drop_first
                  (at_second 5)
                  true
                  future
                  (drop_first c.place c.event.id two_events).1)))
process_events_until_lem_example =
    process_events_until_lem all_events is_ready drop_first (at_second 5) (λ _ _ _. refl) 4
      two_events (omega arith)

first_event_called_example :
    (future : Bool) × (process_events_until all_events is_ready drop_first
        (at_second 5)
        2
        two_events
      ≡ some (processed all_events is_ready drop_first (at_second 5) true future (rest two_events)))
unfolding later
first_event_called_example =
    first_event_called all_events is_ready drop_first (at_second 5) (λ _ _ _. refl) 0 two_events
      low_event (rest two_events) (at_node 0) refl refl refl refl refl

abbrev evs : List EventData
evs = event_at 3 ∷ event_at 1 ∷ event_at 7 ∷ []

differentiate-integrate_example :
    ((run integrate_data
        (record { total = pos 4 })
        (run differentiate_data (record { previous = pos 4 }) evs).0).0
      ≡ evs)
    × ((run differentiate_data
          (record { previous = pos 4 })
          (run integrate_data (record { total = pos 4 }) evs).0).0
        ≡ evs)
differentiate-integrate_example = differentiate-integrate (pos 4) evs

scale_run_lem_example :
    (weight (pos 2) (pos 3) evs +ℤ pos 1
      ≡ weight
          (pos 2)
          (negsuc 6)
          (run scale_data (amortizing (pos 3) (negsuc 6) (pos 2) (pos 1)) evs).0
        +ℤ (run scale_data (amortizing (pos 3) (negsuc 6) (pos 2) (pos 1)) evs).1.defect)
    × (size (run scale_data (amortizing (pos 3) (negsuc 6) (pos 2) (pos 1)) evs).1.defect < 7)
unfolding is_nonzero
scale_run_lem_example = scale_run_lem (pos 3) (negsuc 6) (pos 2) refl (pos 1) evs (omega arith)
