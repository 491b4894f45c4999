-- ===== src/Routing.antt =====
-- The nodes that ask predicates: nodes/router.c and nodes/modify_predicate.c. A result `none` is an
-- access to an event that is not there, or a lack of fuel of `event_predicate_apply`.
pub mod Modify
pub mod Create
use event_sequence_transform.Prelude.{
  ℕ, zero, suc, ◌+◌, Bool, true, false, Option, none, some, List, [], ◌∷◌, ◌==◌, if◌then◌else◌,
  length, get_or, leb, not,
}
use event_sequence_transform.Prelude.Int.{ℤ, negsuc}
use event_sequence_transform.Event.{EventNode, at_channel}
use event_sequence_transform.Event.Store.{
  Store, find_event, update_event, next_event, event_destroy, event_replicate,
}
use event_sequence_transform.Predicate.{
  EventPredicateHandle, EventPredicateResult, EventPredicate, Predicates, evpredres_accepted,
  event_predicate_apply, event_predicate_get, event_predicate_set_enabled,
  event_predicate_set_inverted,
}
use event_sequence_transform.Graph.{GraphNode}

-- `predicates` has `length` handles.
pub record RouterGraphNode : Type 0 where
  pub predicates : List EventPredicateHandle

pub record ModifyPredicateGraphNode : Type 0 where
  pub target : EventPredicateHandle
  pub enable_on : EventPredicateHandle
  pub disable_on : EventPredicateHandle
  pub invert_on : EventPredicateHandle
  pub uninvert_on : EventPredicateHandle

abbrev pub is_accepted : EventPredicateResult → Bool
is_accepted evpredres_accepted = true
is_accepted _ = false

-- The replica behind the event gets to the output, or is destroyed where there is none.
pub send_replica : Option ℕ → ℕ → Store → Option Store
send_replica output event s = elim (next_event event s.events) [
  | none ↦ none
  | some replica ↦ elim output [
    | none ↦ event_destroy replica.id s
    | some channel ↦ some (record s {
      events =
          update_event replica.id (λ e. record e { position = some (at_channel channel) }) s.events;
    })
  ]
]

module _ (alloc alloc_bits : ℕ → Bool) (fuel : ℕ) (ps : Predicates) where
  -- The loop from `i - 1` down to 0.
  pub route_from : GraphNode → RouterGraphNode → ℕ → ℕ → Store → Option Store
  unfolding send_replica
  route_from as_GraphNode node zero event s = some s
  route_from as_GraphNode node (suc i) event s =
      let on = route_from as_GraphNode node i event in
      elim (leb (length as_GraphNode.outputs) i) [
        | true ↦ on s
        | false ↦ elim (find_event event s.events) [
          | none ↦ none
          | some e ↦
              elim (event_predicate_apply fuel ps (get_or node.predicates i (negsuc 0)) (some e)) [
                | none ↦ none
                | some r ↦ elim (is_accepted r) [
                  | false ↦ on s
                  | true ↦ elim (event_replicate alloc alloc_bits event 1 s) [
                    | none ↦ none
                    | some (made, s') ↦ elim (made == 0) [
                      | true ↦ on s'
                      | false ↦ elim (send_replica (get_or as_GraphNode.outputs i none) event s') [
                        | none ↦ none
                        | some s'' ↦ on s''
                      ]
                    ]
                  ]
                ]
              ]
        ]
      ]

  pub router_handle_event : GraphNode → RouterGraphNode → ℕ → Store → Option (Bool × Store)
  unfolding route_from
  router_handle_event as_GraphNode node event s =
      elim (route_from as_GraphNode node (length node.predicates) event s) [
        | none ↦ none
        | some s' ↦ elim (event_destroy event s') [ none ↦ none | some s'' ↦ some (true, s'') ]
      ]

-- Whether the event is accepted, asked only where `asked` is set.
pub accepts_if : Bool → ℕ → Predicates → EventPredicateHandle → EventNode → Option Bool
accepts_if false fuel ps handle ev = some false
accepts_if true fuel ps handle ev = elim (event_predicate_apply fuel ps handle (some ev)) [
  | none ↦ none
  | some r ↦ some (is_accepted r)
]

-- `should_enable` and `should_disable` in turn, then `should_invert` and `should_uninvert`.
pub write_flags : EventPredicateHandle → Bool → Bool → Bool → Bool → Predicates → Predicates
write_flags target should_enable should_disable should_invert should_uninvert ps =
    let ps₁ = if should_enable then event_predicate_set_enabled ps target true else ps in
    let ps₂ = if should_disable then event_predicate_set_enabled ps₁ target false else ps₁ in
    let ps₃ = if should_invert then event_predicate_set_inverted ps₂ target true else ps₂ in
    if should_uninvert then event_predicate_set_inverted ps₃ target false else ps₃

-- The new flags of the target, on the event.
pub modified : ℕ → ModifyPredicateGraphNode → EventNode → Predicates → Option Predicates
unfolding write_flags accepts_if
modified fuel node ev ps =
    let target_state = event_predicate_get ps node.target in
    let enabled = target_state.enabled in
    let inverted = target_state.inverted in
    elim (accepts_if enabled fuel ps node.disable_on ev) [
      | none ↦ none
      | some should_disable ↦ elim (accepts_if (not enabled) fuel ps node.enable_on ev) [
        | none ↦ none
        | some should_enable ↦ elim (accepts_if inverted fuel ps node.uninvert_on ev) [
          | none ↦ none
          | some should_uninvert ↦ elim (accepts_if (not inverted) fuel ps node.invert_on ev) [
            | none ↦ none
            | some should_invert ↦ some (
                write_flags node.target should_enable should_disable should_invert should_uninvert
                  ps)
          ]
        ]
      ]
    ]

pub modify_predicate_handle_event :
    ℕ → ModifyPredicateGraphNode → ℕ → Predicates → Store → Option (Bool × Predicates × Store)
unfolding modified
modify_predicate_handle_event fuel node event ps s = elim (find_event event s.events) [
  | none ↦ none
  | some ev ↦ elim (modified fuel node ev ps) [
    | none ↦ none
    | some ps' ↦ elim (event_destroy event s) [ none ↦ none | some s' ↦ some (true, ps', s') ]
  ]
]
