-- ===== src/Nodes.antt =====
-- The nodes that write to an event and send it on: nodes/tee.c, assign.c, differentiate.c,
-- integrate.c, scale.c and modifiers.c. A payload is an integer without bound here: an overflow of
-- `int64_t` is undefined in C, and the model says nothing of such a run.
pub mod Streams
pub mod Create
use event_sequence_transform.Prelude.{
  ℕ, zero, suc, ◌+◌, ◌-◌, ◌/◌, Bool, true, false, Option, none, some, List, [], ◌∷◌, ◌==◌,
  if◌then◌else◌, length,
}
use event_sequence_transform.Prelude.Int.{ℤ, pos, negsuc, neg_part, ◌+ℤ◌, ◌-ℤ◌, ◌*ℤ◌}
use event_sequence_transform.Time.{div_trunc}
use event_sequence_transform.Modifiers.{ModifierSet, ModifierOperation, modifier_set_operation_from}
use event_sequence_transform.Event.{EventCode, EventData, EventNode}
use event_sequence_transform.Event.Store.{Store, find_event, update_event, event_destroy}
use event_sequence_transform.Graph.{GraphNode, graph_node_broadcast_forward_event}

pub record AssignGraphNode : Type 0 where
  pub has_ns : Bool
  pub has_maj : Bool
  pub has_min : Bool
  pub has_payload : Bool
  pub source : EventData

pub record DifferentiateGraphNode : Type 0 where
  pub previous : ℤ

pub record IntegrateGraphNode : Type 0 where
  pub total : ℤ

pub record ScaleGraphNode : Type 0 where
  pub numerator : ℤ
  pub denominator : ℤ
  pub center : ℤ
  pub defect : ℤ
  pub amortize_rounding_error : Bool

-- An operation that is none of the three, as the -1 of `modifier_operation_parse`, is `none`.
pub record ModifiersGraphNode : Type 0 where
  pub modifiers : ModifierSet
  pub operation : Option ModifierOperation

-- What each handler does to its own fields and to the data of the event.
pub assign_data : AssignGraphNode → EventData → EventData
assign_data node ev = record ev {
  code = record {
    ns = if node.has_ns then node.source.code.ns else ev.code.ns;
    major = if node.has_maj then node.source.code.major else ev.code.major;
    minor = if node.has_min then node.source.code.minor else ev.code.minor;
  };
  payload = if node.has_payload then node.source.payload else ev.payload;
}

pub differentiate_data : DifferentiateGraphNode → EventData → DifferentiateGraphNode × EventData
differentiate_data node ev =
    (record { previous = ev.payload }, record ev { payload = ev.payload -ℤ node.previous })

pub integrate_data : IntegrateGraphNode → EventData → IntegrateGraphNode × EventData
integrate_data node ev =
    let total = node.total +ℤ ev.payload in
    (record { total = total }, record ev { payload = total })

-- C division by an integer that is not 0.
unfoldable pub div_c : ℤ → ℤ → ℤ
div_c v (pos d) = div_trunc v d
div_c v (negsuc d) = pos 0 -ℤ div_trunc v (suc d)

-- `node->denominator`, as a test.
unfoldable pub is_nonzero : ℤ → Bool
is_nonzero (pos zero) = false
is_nonzero (pos (suc n)) = true
is_nonzero (negsuc n) = true

-- The value that is divided.
abbrev pub undivided : ScaleGraphNode → ℤ → ℤ
undivided node x =
    let scaled = (x -ℤ node.center) *ℤ node.numerator in
    if node.amortize_rounding_error then scaled +ℤ node.defect else scaled

pub scale_data : ScaleGraphNode → EventData → ScaleGraphNode × EventData
unfolding div_c is_nonzero
scale_data node ev =
    let value = undivided node ev.payload in
    if is_nonzero node.denominator
    then (
      record node { defect = value -ℤ div_c value node.denominator *ℤ node.denominator },
      record ev { payload = div_c value node.denominator +ℤ node.center },
    )
    else (node, record ev { payload = value +ℤ node.center })

module _ (alloc alloc_bits : ℕ → Bool) where
  -- The switch of `modifier_set_operation_from` has no case for an operation that is none of the three.
  pub modifiers_data : ModifiersGraphNode → EventData → EventData
  modifiers_data node ev = elim node.operation [
    | none ↦ ev
    | some op ↦ record ev {
      modifiers = modifier_set_operation_from alloc_bits ev.modifiers node.modifiers op;
    }
  ]

  -- `return true` of a handler, with what it left.
  abbrev handled {ℓ} : {N : Type ℓ} → N → Option (ℤ × Store) → Option (Bool × N × Store)
  handled node none = none
  handled node (some (_, s)) = some (true, node, s)

  abbrev dropped {ℓ} : {N : Type ℓ} → N → Option Store → Option (Bool × N × Store)
  dropped node none = none
  dropped node (some s) = some (true, node, s)

  -- The frame that these handlers share: an event is destroyed where the node has no output; it is
  -- changed and sent on elsewhere. `none` is an access to an event that is not there.
  pub handle_and_forward {ℓ} :
      {N : Type ℓ}
      → (N → EventData → N × EventData)
      → GraphNode
      → N
      → ℕ
      → Store
      → Option (Bool × N × Store)
  handle_and_forward change as_GraphNode node event s =
      if length as_GraphNode.outputs == 0
      then dropped node (event_destroy event s)
      else (elim (find_event event s.events) [
        | none ↦ none
        | some e ↦
            let changed = change node e.event_data in
            handled changed.0 (
              graph_node_broadcast_forward_event alloc alloc_bits (some as_GraphNode) (some event)
                (record s {
                  events = update_event event (λ e. record e { event_data = changed.1 }) s.events;
                }))
      ])

  pub tee_handle_event : GraphNode → ℕ → Store → Option (Bool × GraphNode × Store)
  tee_handle_event node event s =
      handled node (graph_node_broadcast_forward_event alloc alloc_bits (some node) (some event) s)

  pub assign_handle_event :
      GraphNode → AssignGraphNode → ℕ → Store → Option (Bool × AssignGraphNode × Store)
  unfolding handle_and_forward
  assign_handle_event = handle_and_forward (λ node ev. (node, assign_data node ev))

  pub differentiate_handle_event :
      GraphNode
      → DifferentiateGraphNode
      → ℕ
      → Store
      → Option (Bool × DifferentiateGraphNode × Store)
  unfolding handle_and_forward
  differentiate_handle_event = handle_and_forward differentiate_data

  pub integrate_handle_event :
      GraphNode → IntegrateGraphNode → ℕ → Store → Option (Bool × IntegrateGraphNode × Store)
  unfolding handle_and_forward
  integrate_handle_event = handle_and_forward integrate_data

  pub scale_handle_event :
      GraphNode → ScaleGraphNode → ℕ → Store → Option (Bool × ScaleGraphNode × Store)
  unfolding handle_and_forward
  scale_handle_event = handle_and_forward scale_data

  pub modifiers_handle_event :
      GraphNode → ModifiersGraphNode → ℕ → Store → Option (Bool × ModifiersGraphNode × Store)
  unfolding handle_and_forward modifiers_data
  modifiers_handle_event = handle_and_forward (λ node ev. (node, modifiers_data node ev))
