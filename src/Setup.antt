-- ===== src/Setup.antt =====
-- module_registry.c, and the part of main.c that builds the graph from the configuration. A pointer to
-- a specification is its number, an integer in the registry; a node is its index.
pub mod Names
use event_sequence_transform.Prelude.{
  ℕ, zero, suc, ◌+◌, Bool, Option, none, some, List, [], ◌∷◌, length, replicate,
}
use event_sequence_transform.Prelude.Int.{ℤ, pos, negsuc}
use event_sequence_transform.HashTable.{hash_table_key_from_bytes}
use event_sequence_transform.Config.{
  Text, Registry, GraphNodeConfig, GraphChannelConfig, ChannelEndConfig,
}
use event_sequence_transform.Config.Whole.{FullConfig}
use event_sequence_transform.Graph.{Graph, GraphChannel, graph_channel_init}

module _ {T : Type 0} (reg : Registry T) where
  -- `none` is a registry that is not `initialized`.
  pub ensure_initialized : Option T → T
  ensure_initialized none = reg.init
  ensure_initialized (some registry) = registry

  -- `name` is that of the specification.
  pub register_graph_node_specification : Option Text → ℤ → Option T → T
  unfolding ensure_initialized
  register_graph_node_specification none spec registry = ensure_initialized registry
  register_graph_node_specification (some name) spec registry =
      reg.insert (ensure_initialized registry) (hash_table_key_from_bytes (some name)) spec

  pub lookup_graph_node_specification : Text → Option T → Option ℤ × T
  unfolding ensure_initialized
  lookup_graph_node_specification name registry =
      let ready = ensure_initialized registry in
      (reg.find ready (hash_table_key_from_bytes (some name)), ready)

  pub destroy_graph_node_specification_registry : Option T → Option T
  destroy_graph_node_specification_registry registry = none

-- An end of the program is `none`. `node_new` is `graph_node_new`, with the node as the last of the graph.
module _ {S T : Type 0} (reg : Registry T)
    (node_new : ℤ → GraphNodeConfig S → Graph → Option Graph) where
  abbrev pub name_node : Option Text → ℕ → T → T
  name_node none i named_nodes = named_nodes
  name_node (some name) i named_nodes =
      reg.insert named_nodes (hash_table_key_from_bytes (some name)) (pos i)

  -- The loop over the nodes, from an index on.
  unfoldable pub build_nodes : T → ℕ → List (GraphNodeConfig S) → T → Graph → Option (T × Graph)
  unfolding lookup_graph_node_specification
  build_nodes registry i [] named_nodes g = some (named_nodes, g)
  build_nodes registry i (item ∷ items) named_nodes g = elim item.type [
    | none ↦ none
    | some type_name ↦ elim (lookup_graph_node_specification reg type_name (some registry)).0 [
      | none ↦ none
      | some spec ↦ elim (node_new spec item g) [
        | none ↦ none
        | some next ↦ build_nodes registry (i + 1) items (name_node item.name i named_nodes) next
      ]
    ]
  ]

  -- The node behind a name.
  unfoldable pub end_node : T → ChannelEndConfig → Option ℕ
  end_node named_nodes channel_end =
      elim (reg.find named_nodes (hash_table_key_from_bytes channel_end.name)) [
        | none ↦ none
        | some (negsuc n) ↦ none
        | some (pos i) ↦ some i
      ]

  -- The loop over the channels, from an index on.
  pub build_channels : (ℕ → Bool) → T → ℕ → List GraphChannelConfig → Graph → Option Graph
  unfolding end_node
  build_channels alloc named_nodes i [] g = some g
  build_channels alloc named_nodes i (item ∷ items) g = elim (end_node named_nodes item.from) [
    | none ↦ none
    | some start ↦ elim (end_node named_nodes item.to) [
      | none ↦ none
      | some end ↦
          elim (graph_channel_init alloc i (some start) item.from.index (some end) item.to.index
            g) [ none ↦ none | some next ↦ build_channels alloc named_nodes (i + 1) items next ]
    ]
  ]

  abbrev pub new_channel : GraphChannel
  new_channel = record { start = none; end = none; idx_start = 0; idx_end = 0 }

  pub build_graph : (ℕ → Bool) → T → FullConfig S T → Option Graph
  unfolding build_nodes build_channels
  build_graph alloc registry config =
      elim (build_nodes registry 0 config.nodes reg.init (record { nodes = []; channels = [] })) [
        | none ↦ none
        | some (named_nodes, g) ↦
            build_channels alloc named_nodes 0 config.channels
              (record g { channels = replicate (length config.channels) new_channel })
      ]
