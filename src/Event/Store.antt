-- ===== src/Event/Store.antt =====
-- events.c: the list of all events, from FIRST_EVENT to LAST_EVENT, without END_EVENTS. A node is
-- found by its address, its `id`. A result `none` is an access to a node that is not in the list,
-- which C leaves undefined.
pub mod Create
pub mod Sorted
pub mod Writes
use mathlib.Core.List.{reverse}
use event_sequence_transform.Prelude.{
  ℕ, zero, suc, ◌+◌, Bool, true, false, Option, none, some, List, [], ◌∷◌, ◌==◌, if◌then◌else◌,
}
use event_sequence_transform.Modifiers.{modifier_set_copy, empty_modifier_set}
use event_sequence_transform.Prelude.Int.{pos}
use event_sequence_transform.Time.{AbsoluteTime}
use event_sequence_transform.Time.Order.{not_before}
use event_sequence_transform.Event.{EventCode, EventData, EventNode, Position}

-- `next_id` counts the allocations of nodes; it is the address of the next one. Addresses are not
-- used again.
pub record Store : Type 0 where
  pub events : List EventNode
  pub next_id : ℕ

abbrev pub Events : Type 0
Events = List EventNode

unfoldable pub find_event : ℕ → Events → Option EventNode
find_event i [] = none
find_event i (e ∷ es) = if e.id == i then some e else find_event i es

pub insert_after : ℕ → EventNode → Events → Events
insert_after i new [] = []
insert_after i new (e ∷ es) = if e.id == i then e ∷ new ∷ es else e ∷ insert_after i new es

pub unlink : ℕ → Events → Events
unlink i [] = []
unlink i (e ∷ es) = if e.id == i then es else e ∷ unlink i es

-- A write to the fields of a node.
pub update_event : ℕ → (EventNode → EventNode) → Events → Events
update_event i f [] = []
update_event i f (e ∷ es) = if e.id == i then f e ∷ es else e ∷ update_event i f es

-- `event->next`; `none` where that is END_EVENTS or the node is not there.
pub next_event : ℕ → Events → Option EventNode
next_event i [] = none
next_event i (e ∷ []) = none
next_event i (e ∷ f ∷ es) = if e.id == i then some f else next_event i (f ∷ es)

-- The lists of the search from LAST_EVENT back are last event first. `list_pos` is the address of the
-- `prev` field that leads to `f`, an event that `e` is before; `e` is put behind `f`.
pub insert_behind : EventNode → EventNode → Events → Events
insert_behind e f [] = e ∷ f ∷ []
insert_behind e f (other ∷ es) =
    let further = insert_behind e other es in
    if not_before e.event_data.time other.event_data.time then e ∷ f ∷ other ∷ es else f ∷ further

-- `list_pos` is the address of LAST_EVENT.
pub insert_desc : EventNode → Events → Events
unfolding insert_behind
insert_desc e [] = e ∷ []
insert_desc e (other ∷ es) =
    if not_before e.event_data.time other.event_data.time
    then e ∷ other ∷ es
    else insert_behind e other es

-- `alloc n` says whether allocation number `n` of a node succeeds, `alloc_bits` whether a set of
-- modifiers gets its bytes.
module _ (alloc alloc_bits : ℕ → Bool) where
  unfoldable pub event_data_copy : EventData → EventData
  event_data_copy orig = record orig { modifiers = modifier_set_copy alloc_bits orig.modifiers }

  -- The loop of `event_replicate`, with `left` rounds to go and `i` replicas made.
  pub replicate_from : ℕ → ℕ → ℕ → Store → Option (ℕ × Store)
  unfolding event_data_copy insert_after find_event
  replicate_from zero i source s = some (i, s)
  replicate_from (suc left) i source s =
      let bumped = record s { next_id = s.next_id + 1 } in
      if alloc s.next_id
      then (elim (find_event source s.events) [
        | none ↦ none
        | some src ↦
            let replica : EventNode = record {
              id = s.next_id;
              position = none;
              input_index = 0;
              event_data = event_data_copy src.event_data;
            } in
            replicate_from left (i + 1) source
              (record bumped { events = insert_after source replica s.events })
      ])
      else some (i, bumped)

  pub event_replicate : ℕ → ℕ → Store → Option (ℕ × Store)
  unfolding replicate_from
  event_replicate source count s = replicate_from count 0 source s

  abbrev zeroed : AbsoluteTime → EventData
  zeroed now = record {
    code = record { ns = 0; major = 0; minor = 0 };
    ttl = 0;
    priority = pos 0;
    payload = pos 0;
    modifiers = empty_modifier_set;
    time = now;
  }

  -- `now` is what `get_current_time` gives. The first part of the result is NULL or the new node.
  pub event_create : AbsoluteTime → Option EventData → Store → Option ℕ × Store
  unfolding event_data_copy insert_desc
  event_create now content s =
      let bumped = record s { next_id = s.next_id + 1 } in
      if alloc s.next_id
      then (let event : EventNode = record {
        id = s.next_id;
        position = none;
        input_index = 0;
        event_data = elim content [ none ↦ zeroed now | some d ↦ event_data_copy d ];
      } in
          (
            some s.next_id,
            record bumped { events = reverse (insert_desc event (reverse s.events)) },
          ))
      else (none, bumped)

pub event_destroy : ℕ → Store → Option Store
unfolding find_event unlink
event_destroy i s = elim (find_event i s.events) [
  | none ↦ none
  | some _ ↦ some (record s { events = unlink i s.events })
]

-- The loop of `event_destroy_all` over the events that are left.
pub destroy_from : ℕ → Store → Option Store
unfolding event_destroy
destroy_from zero s = none
destroy_from (suc fuel) s = elim s.events [
  | [] ↦ some s
  | e ∷ es ↦ elim (event_destroy e.id s) [ none ↦ none | some s' ↦ destroy_from fuel s' ]
]
