-- ===== src/Examples/Events.antt =====
-- Runs for the list of events and the channels.
use mathlib.Core.List.{reverse}
use event_sequence_transform.Prelude.{ℕ, ◌≡◌, Bool, true, none, some, [], ◌∷◌, refl}
use event_sequence_transform.Prelude.Int.{pos}
use event_sequence_transform.Modifiers.{empty_modifier_set}
use event_sequence_transform.Time.{AbsoluteTime}
use event_sequence_transform.Time.Order.{later}
use event_sequence_transform.Event.{EventData, EventNode}
use event_sequence_transform.Event.Store.{Store, event_create, event_data_copy, find_event}
use event_sequence_transform.Event.Store.Create.{
  time_of, IsSorted, TopNotLater, Created, new_event, event_create_lem,
}
use event_sequence_transform.Event.Store.Sorted.{event_create-IsSorted, event_create-disorder}
use event_sequence_transform.Graph.{GraphNode, GraphChannel, World, channel_handle_event}
use event_sequence_transform.Graph.Channel.{outcome, channel_handle_event_lem}

abbrev pub at_second : ℕ → AbsoluteTime
at_second n = record { tv_sec = pos n; tv_nsec = pos 0 }

abbrev pub key_press : ℕ → EventData
key_press n = record {
  code = record { ns = 1; major = 1; minor = 30 };
  ttl = 10;
  priority = pos 0;
  payload = pos n;
  modifiers = empty_modifier_set;
  time = at_second n;
}

abbrev pub node : ℕ → ℕ → EventNode
node i n = record { id = i; position = none; input_index = 0; event_data = key_press n }

abbrev pub store : Store
store = record { events = node 0 1 ∷ node 1 3 ∷ []; next_id = 2 }

store-IsSorted : IsSorted store.events
unfolding later
store-IsSorted = ((refl, tt), (tt, tt))

abbrev always : ℕ → Bool
always n = true

abbrev appended : EventNode
appended = new_event always always (key_press 4) store

abbrev early : EventNode
early = new_event always always (key_press 2) store

appended-TopNotLater : TopNotLater appended (reverse store.events)
unfolding later event_data_copy
appended-TopNotLater = refl

event_create-IsSorted_example :
    IsSorted (event_create always always (at_second 9) (some (key_press 4)) store).1.events
event_create-IsSorted_example =
    event_create-IsSorted always always (at_second 9) (key_press 4) store store-IsSorted
      appended-TopNotLater

last_is_later : later (time_of (node 1 3)) (time_of early) ≡ true
unfolding later event_data_copy
last_is_later = refl

event_create-disorder_example :
    ¬ IsSorted (event_create always always (at_second 9) (some (key_press 2)) store).1.events
event_create-disorder_example =
    event_create-disorder always always (at_second 9) (key_press 2) store (node 1 3) (node 0 1 ∷ [])
      refl refl last_is_later

event_create_lem_example :
    Created early store.events
      (event_create always always (at_second 9) (some (key_press 2)) store).1.events
event_create_lem_example = event_create_lem always always (at_second 9) (key_press 2) store refl

abbrev idle : GraphNode
idle = record { waiting_new_event = true; inputs = some 0 ∷ []; outputs = [] }

abbrev channel : GraphChannel
channel = record { start = none; end = some 0; idx_start = 0; idx_end = 4 }

abbrev world : World
world = record { store = store; graph = record { nodes = idle ∷ []; channels = channel ∷ [] } }

second-found : find_event 1 world.store.events ≡ some (node 1 3)
unfolding find_event
second-found = refl

channel_handle_event_lem_example :
    channel_handle_event channel 1 world ≡ some (true, outcome (some 0) 4 1 world)
channel_handle_event_lem_example = channel_handle_event_lem channel 1 world (node 1 3) second-found
