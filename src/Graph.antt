-- ===== src/Graph.antt =====
-- graph.h and graph.c: nodes, channels between their connectors, and the way of an event along them.
-- A pointer to a node or a channel is its number; NULL is `none`.
pub mod Channel
use mathlib.Core.Option
use event_sequence_transform.Prelude.{
  ℕ, zero, suc, ◌+◌, ◌-◌, ◌%◌, ◌^◌, Bool, true, false, Option, none, some, List, [], ◌∷◌, ◌++◌,
  ◌==◌, ltb, leb, if◌then◌else◌, length, get_elem?, get_or, set, take, replicate, ◌&&◌,
}
use event_sequence_transform.Prelude.Int.{ℤ, pos, negsuc}
use event_sequence_transform.Event.{EventNode, EventData, Position, at_node, at_channel}
use event_sequence_transform.Event.Store.{
  Store, find_event, update_event, next_event, event_destroy, event_replicate,
}

-- The elements of a GraphChannelList; its `length` is the number of them.
abbrev pub GraphChannelList : Type 0
GraphChannelList = List (Option ℕ)

-- Of the position of a node its flag is kept. The handler is a matter of the kind of node. A channel
-- never waits for a new event.
pub record GraphNode : Type 0 where
  pub waiting_new_event : Bool
  pub inputs : GraphChannelList
  pub outputs : GraphChannelList

pub record GraphChannel : Type 0 where
  pub start : Option ℕ
  pub end : Option ℕ
  pub idx_start : ℕ
  pub idx_end : ℕ

pub record Graph : Type 0 where
  pub nodes : List GraphNode
  pub channels : List GraphChannel

-- `alloc n` says whether `reallocarray` to `n` pointers succeeds.
module _ (alloc : ℕ → Bool) where
  pub graph_channel_list_resize : GraphChannelList → ℕ → GraphChannelList
  graph_channel_list_resize lst target =
      if ltb (length lst) target
      then (if alloc target then lst ++ replicate (target - length lst) none else lst)
      else take target lst

  -- `none` is the exit of the program.
  pub graph_channel_list_ensure : GraphChannelList → ℕ → Option GraphChannelList
  unfolding graph_channel_list_resize
  graph_channel_list_ensure lst idx =
      let min_length = (idx + 1) % 2 ^ 64 in
      let grown =
        if ltb (length lst) min_length then graph_channel_list_resize lst min_length else lst in
      if ltb (length grown) min_length then none else some grown

-- A node or channel that is not there is a dangling pointer: nothing is written.
pub update_node : ℕ → (GraphNode → GraphNode) → List GraphNode → List GraphNode
update_node i f [] = []
update_node zero f (n ∷ ns) = f n ∷ ns
update_node (suc i) f (n ∷ ns) = n ∷ update_node i f ns

pub update_channel : ℕ → (GraphChannel → GraphChannel) → List GraphChannel → List GraphChannel
update_channel i f [] = []
update_channel zero f (c ∷ cs) = f c ∷ cs
update_channel (suc i) f (c ∷ cs) = c ∷ update_channel i f cs

abbrev pub same_pointer : Option ℕ → ℕ → Bool
same_pointer none n = false
same_pointer (some m) n = m == n

-- The channel that stood at a connector loses that end, if it is its end.
drop_start : Option ℕ → ℕ → ℕ → List GraphChannel → List GraphChannel
unfolding update_channel
drop_start none node idx cs = cs
drop_start (some old) node idx cs =
    update_channel old
      (λ c.
        if same_pointer c.start node && c.idx_start == idx then (record c { start = none }) else c)
      cs

drop_end : Option ℕ → ℕ → ℕ → List GraphChannel → List GraphChannel
unfolding update_channel
drop_end none node idx cs = cs
drop_end (some old) node idx cs =
    update_channel old
      (λ c. if same_pointer c.end node && c.idx_end == idx then (record c { end = none }) else c) cs

module _ (alloc : ℕ → Bool) where
  -- The part of `graph_channel_init` under `if (start)`, and that under `if (end)`.
  attach_start : ℕ → Option ℕ → ℕ → Graph → Option Graph
  unfolding graph_channel_list_ensure drop_start update_node
  attach_start ch none idx g = some g
  attach_start ch (some n) idx g = elim (get_elem? g.nodes n) [
    | none ↦ none
    | some node ↦ elim (graph_channel_list_ensure alloc node.outputs idx) [
      | none ↦ none
      | some outs ↦ some (record {
        nodes = update_node n (λ m. record m { outputs = set outs idx (some ch) }) g.nodes;
        channels = drop_start (get_or outs idx none) n idx g.channels;
      })
    ]
  ]

  attach_end : ℕ → Option ℕ → ℕ → Graph → Option Graph
  unfolding graph_channel_list_ensure drop_end update_node
  attach_end ch none idx g = some g
  attach_end ch (some n) idx g = elim (get_elem? g.nodes n) [
    | none ↦ none
    | some node ↦ elim (graph_channel_list_ensure alloc node.inputs idx) [
      | none ↦ none
      | some ins ↦ some (record {
        nodes = update_node n (λ m. record m { inputs = set ins idx (some ch) }) g.nodes;
        channels = drop_end (get_or ins idx none) n idx g.channels;
      })
    ]
  ]

  -- `none` is the exit of the program, or a node that does not exist.
  pub graph_channel_init : ℕ → Option ℕ → ℕ → Option ℕ → ℕ → Graph → Option Graph
  unfolding attach_start attach_end
  graph_channel_init ch start start_idx end end_idx g = elim (attach_start ch start start_idx g) [
    | none ↦ none
    | some g₁ ↦ elim (attach_end ch end end_idx g₁) [
      | none ↦ none
      | some g₂ ↦ some (record g₂ {
        channels =
            update_channel ch
              (λ _. record { start = start; end = end; idx_start = start_idx; idx_end = end_idx })
              g₂.channels;
      })
    ]
  ]

-- `graph_channel_list_init` and `graph_channel_list_deinit`.
pub graph_channel_list_init : GraphChannelList
graph_channel_list_init = []

pub graph_channel_list_deinit : GraphChannelList → GraphChannelList
graph_channel_list_deinit lst = []

-- The loops of `graph_node_delete` over the channels of a connector list.
pub detach_ends : ℕ → GraphChannelList → List GraphChannel → List GraphChannel
detach_ends self [] cs = cs
detach_ends self (none ∷ lst) cs = detach_ends self lst cs
detach_ends self (some ch ∷ lst) cs =
    detach_ends self lst
      (update_channel ch (λ c. if same_pointer c.end self then (record c { end = none }) else c) cs)

pub detach_starts : ℕ → GraphChannelList → List GraphChannel → List GraphChannel
detach_starts self [] cs = cs
detach_starts self (none ∷ lst) cs = detach_starts self lst cs
detach_starts self (some ch ∷ lst) cs = detach_starts self lst (
    update_channel ch (λ c. if same_pointer c.start self then (record c { start = none }) else c)
      cs)

-- `graph_node_delete` before the call of `destroy`, which frees the node. `none` for the node is
-- NULL, or a node that is not there.
pub graph_node_delete : Option ℕ → Graph → Graph
unfolding detach_ends detach_starts graph_channel_list_deinit
graph_node_delete none g = g
graph_node_delete (some self) g = elim (get_elem? g.nodes self) [
  | none ↦ g
  | some node ↦ record {
    nodes =
        update_node self
          (λ n. record n {
            inputs = graph_channel_list_deinit n.inputs;
            outputs = graph_channel_list_deinit n.outputs;
          })
          g.nodes;
    channels = detach_starts self node.outputs (detach_ends self node.inputs g.channels);
  }
]

-- The events and the graph, as the handlers change them.
pub record World : Type 0 where
  pub store : Store
  pub graph : Graph

destroyed : ℕ → World → Option (Bool × World)
destroyed i w = elim (event_destroy i w.store) [
  | none ↦ none
  | some s ↦ some (true, record w { store = s })
]

-- Behind the tests of the time to live: the channel's `end` and `idx_end`.
arrive : Option ℕ → ℕ → ℕ → World → Option (Bool × World)
unfolding update_node destroyed
arrive none idx_end i w = destroyed i w
arrive (some target) idx_end i w = some (
  true,
  record {
    store = record (w.store) {
      events =
          update_event i (λ e. record e { position = some (at_node target); input_index = idx_end })
            w.store.events;
    };
    graph = record (w.graph) {
      nodes = update_node target (λ n. record n { waiting_new_event = false }) w.graph.nodes;
    };
  },
)

-- The event `i` at the channel `ch`. `none` is an access to an event that is not there.
pub channel_handle_event : GraphChannel → ℕ → World → Option (Bool × World)
unfolding arrive destroyed
channel_handle_event ch i w = elim (find_event i w.store.events) [
  | none ↦ none
  | some e ↦
      let ttl = e.event_data.ttl in
      if ttl == 0
      then destroyed i w
      else if ttl - 1 == 0
      then destroyed i w
      else arrive ch.end ch.idx_end i (record w {
        store = record (w.store) {
          events =
              update_event i
                (λ e. record e {
                  event_data = record (e.event_data) { ttl = e.event_data.ttl - 1 };
                })
                w.store.events;
        };
      })
]

-- The loop over the connectors: the number of deliveries. `none` for the event is END_EVENTS, which
-- has no place to write to.
pub broadcast_loop : GraphChannelList → Option ℕ → ℕ → Store → Option (ℕ × Store)
broadcast_loop [] event succeses s = some (succeses, s)
broadcast_loop (o ∷ os) none succeses s = none
broadcast_loop (none ∷ os) (some i) succeses s =
    let next = Option.map (λ (e : EventNode). e.id) (next_event i s.events) in
    elim (event_destroy i s) [ none ↦ none | some s' ↦ broadcast_loop os next (succeses - 1) s' ]
broadcast_loop (some c ∷ os) (some i) succeses s =
    let next = Option.map (λ (e : EventNode). e.id) (next_event i s.events) in
    broadcast_loop os next succeses (record s {
      events = update_event i (λ e. record e { position = some (at_channel c) }) s.events;
    })

-- A fault of `event_destroy` is a fault of the caller.
destroy_and : ℤ → Option Store → Option (ℤ × Store)
destroy_and result none = none
destroy_and result (some s) = some (result, s)

module _ (alloc alloc_bits : ℕ → Bool) where
  pub graph_node_broadcast_forward_event : Option GraphNode → Option ℕ → Store → Option (ℤ × Store)
  unfolding broadcast_loop destroy_and
  graph_node_broadcast_forward_event source none s = some (negsuc 0, s)
  graph_node_broadcast_forward_event none (some event) s =
      destroy_and (negsuc 0) (event_destroy event s)
  graph_node_broadcast_forward_event (some source) (some event) s =
      let count = length source.outputs in
      if count == 0
      then destroy_and (pos 0) (event_destroy event s)
      else elim (if ltb 1 count
          then event_replicate alloc alloc_bits event (count - 1) s
          else some (0, s)) [
            | none ↦ none
            | some (made, s') ↦
                elim (broadcast_loop (take (made + 1) source.outputs) (some event) (made + 1) s') [
                  | none ↦ none
                  | some (succeses, s'') ↦ some (pos succeses, s'')
                ]
          ]
