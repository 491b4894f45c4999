-- ===== src/Graph/Channel.antt =====
-- channel_handle_event of graph.c against what a channel means to do with an event.
use event_sequence_transform.Prelude.{
  ℕ, ◌-◌, ◌≡◌, true, false, Option, none, some, arith, refl, ap, ◌∙◌, ◌==◌, leb, if◌then◌else◌,
  Bool-cases, inl, inr,
}
use event_sequence_transform.Event.{EventNode, at_node}
use event_sequence_transform.Event.Store.{find_event, update_event, unlink}
use event_sequence_transform.Event.Store.Writes.{
  find_event-update_event, unlink-update_event, update_event-update_event, event_destroy-found,
}
use event_sequence_transform.Graph.{
  GraphChannel, World, update_node, destroyed, arrive, channel_handle_event,
}

-- The node that an event with time to live `ttl` gets to, if to any.
abbrev pub destination : GraphChannel → ℕ → Option ℕ
destination ch ttl = if leb ttl 1 then none else ch.end

abbrev pub without : ℕ → World → World
without i w = record w { store = record (w.store) { events = unlink i w.store.events } }

-- The event at the connector of the node, with one step less to live.
abbrev pub at_connector : ℕ → ℕ → EventNode → EventNode
at_connector target connector e = record e {
  position = some (at_node target);
  input_index = connector;
  event_data = record (e.event_data) { ttl = e.event_data.ttl - 1 };
}

abbrev pub outcome : Option ℕ → ℕ → ℕ → World → World
outcome none idx_end i w = without i w
outcome (some target) idx_end i w = record {
  store = record (w.store) { events = update_event i (at_connector target idx_end) w.store.events };
  graph = record (w.graph) {
    nodes = update_node target (λ n. record n { waiting_new_event = false }) w.graph.nodes;
  };
}

abbrev older : EventNode → EventNode
older e = record e { event_data = record (e.event_data) { ttl = e.event_data.ttl - 1 } }

abbrev aged : ℕ → World → World
aged i w = record w { store = record (w.store) { events = update_event i older w.store.events } }

destroyed-found :
    (i : ℕ) (w : World) (e : EventNode)
    → find_event i w.store.events ≡ some e
    → destroyed i w ≡ some (true, without i w)
unfolding destroyed
destroyed-found i w e found = rw (event_destroy-found i w.store e found, destroyed)

without-aged : (i : ℕ) (w : World) → without i (aged i w) ≡ without i w
without-aged i w =
    ap (λ es. record w { store = record (w.store) { events = es } })
      (unlink-update_event i older (λ _. refl) w.store.events)

arrive-aged :
    (end : Option ℕ) (idx_end i : ℕ) (w : World) (e : EventNode)
    → find_event i w.store.events ≡ some e
    → arrive end idx_end i (aged i w) ≡ some (true, outcome end idx_end i w)
unfolding arrive
arrive-aged none idx_end i w e found =
    destroyed-found i (aged i w) (older e)
      (find_event-update_event i older (λ _. refl) w.store.events e found)
    ∙ ap (λ v. some (true, v)) (without-aged i w)
arrive-aged (some target) idx_end i w e found =
    ap
      (λ es. some (
        true,
        record (outcome (some target) idx_end i w) { store = record (w.store) { events = es } },
      ))
      (update_event-update_event i older (λ _. refl)
        (λ x. record x { position = some (at_node target); input_index = idx_end }) w.store.events)

-- The event `i` at a channel leaves the list of events if its time to live is 0 or 1 or the channel
-- has no end. It gets to the end of the channel otherwise, with its time to live one less.
pub channel_handle_event_lem :
    (ch : GraphChannel) (i : ℕ) (w : World) (e : EventNode)
    → find_event i w.store.events ≡ some e
    → channel_handle_event ch i w
      ≡ some (true, outcome (destination ch e.event_data.ttl) ch.idx_end i w)
unfolding channel_handle_event
channel_handle_event_lem ch i w e found =
    let gone = destroyed-found i w e found in
    let on = arrive-aged ch.end ch.idx_end i w e found in
    elim (Bool-cases (e.event_data.ttl == 0)) [
      | inl no_time ↦
          let short : leb e.event_data.ttl 1 ≡ true = ground arith in
          rw (found, channel_handle_event, no_time, short) gone
      | inr some_time ↦ elim (Bool-cases (e.event_data.ttl - 1 == 0)) [
        | inl last ↦
            let short : leb e.event_data.ttl 1 ≡ true = ground arith in
            rw (found, channel_handle_event, some_time, last, short) gone
        | inr more ↦
            let long : leb e.event_data.ttl 1 ≡ false = ground arith in
            rw (found, channel_handle_event, some_time, more, long) on
      ]
    ]
