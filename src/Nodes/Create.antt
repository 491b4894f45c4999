-- ===== src/Nodes/Create.antt =====
-- The constructors of nodes/tee.c, assign.c, differentiate.c, integrate.c, scale.c and modifiers.c.
-- `got` says whether the memory of the node is given; `none` is NULL.
use Prim.Native.String.{String}
use event_sequence_transform.Prelude.{
  ℕ, zero, suc, ◌+◌, ◌-◌, ◌%◌, ◌^◌, Bool, true, false, Option, none, some, [], if◌then◌else◌, ltb,
}
use event_sequence_transform.Prelude.Int.{ℤ, pos, negsuc}
use event_sequence_transform.Modifiers.{
  ModifierSet, empty_modifier_set, modifier_max, modifier_set_set, modifier_operation_parse,
}
use event_sequence_transform.Event.{EventData}
use event_sequence_transform.Config.{
  Text, Libconfig, Registry, codes, rounds, nonzero, GraphNodeConfig,
}
use event_sequence_transform.Config.Whole.{
  FullConfig, env_resolve_constant, env_resolve_constant_or,
}
use event_sequence_transform.Graph.{GraphNode}
use event_sequence_transform.Nodes.{
  AssignGraphNode, DifferentiateGraphNode, IntegrateGraphNode, ScaleGraphNode, ModifiersGraphNode,
}

-- The part of every node that the graph knows.
abbrev pub new_graph_node : GraphNode
new_graph_node = record { waiting_new_event = false; inputs = []; outputs = [] }

pub tee_create : Bool → Option GraphNode
tee_create got = if got then some new_graph_node else none

-- A `long long` put into an unsigned integer of so many bits.
abbrev unsigned_of_long : ℕ → ℤ → ℕ
unsigned_of_long bits (pos n) = n % 2 ^ bits
unsigned_of_long bits (negsuc n) = 2 ^ bits - 1 - n % 2 ^ bits

-- A `long long` put into an `int64_t` is the same number.
module _ {S T : Type 0} (lib : Libconfig S) (reg : Registry T) (env : FullConfig S T) where
  abbrev option_at : Option S → Text → Option S
  option_at none name = none
  option_at (some options) name = lib.config_setting_get_member options name

  abbrev is_given : Option S → Bool
  is_given none = false
  is_given (some setting) = true

  abbrev constant_at : Option S → Text → ℤ
  constant_at options name = env_resolve_constant lib reg env (option_at options name)

  abbrev constant_or : Option S → Text → ℤ → ℤ
  constant_or options name dflt = env_resolve_constant_or lib reg env (option_at options name) dflt

  -- The members of `source` that no flag stands for are not read.
  pub assign_create : EventData → Bool → GraphNodeConfig S → Option AssignGraphNode
  unfolding env_resolve_constant
  assign_create unset got config =
      let options = config.options in
      if got
      then some (record {
        has_ns = is_given (option_at options (codes "namespace"));
        has_maj = is_given (option_at options (codes "major"));
        has_min = is_given (option_at options (codes "minor"));
        has_payload = is_given (option_at options (codes "payload"));
        source = record unset {
          code = record {
            ns = unsigned_of_long 32 (constant_at options (codes "namespace"));
            major = unsigned_of_long 16 (constant_at options (codes "major"));
            minor = unsigned_of_long 16 (constant_at options (codes "minor"));
          };
          payload = constant_at options (codes "payload");
        };
      })
      else none

  pub differentiate_create : Bool → GraphNodeConfig S → Option DifferentiateGraphNode
  unfolding env_resolve_constant
  differentiate_create got config =
      if got
      then some (record { previous = constant_at config.options (codes "initial") })
      else none

  pub integrate_create : Bool → GraphNodeConfig S → Option IntegrateGraphNode
  unfolding env_resolve_constant
  integrate_create got config =
      if got then some (record { total = constant_at config.options (codes "initial") }) else none

  pub scale_create : Bool → GraphNodeConfig S → Option ScaleGraphNode
  unfolding env_resolve_constant env_resolve_constant_or
  scale_create got config =
      let options = config.options in
      if got
      then some (record {
        numerator = constant_or options (codes "numerator") (pos 1);
        denominator = constant_or options (codes "denominator") (pos 1);
        center = constant_or options (codes "center") (pos 0);
        defect = pos 0;
        amortize_rounding_error = nonzero (constant_at options (codes "amortize_rounding_error"));
      })
      else none

  -- `alloc` is the allocator of the set.
  module _ (alloc : ℕ → Bool) where
    -- A number that is no modifier is passed over.
    pub add_modifier : ℤ → ModifierSet → ModifierSet
    add_modifier (negsuc n) modifier_set = modifier_set
    add_modifier (pos n) modifier_set =
        if ltb modifier_max n then modifier_set else modifier_set_set alloc modifier_set n

    -- The loop over the settings, from an index on.
    pub add_modifiers : S → ℕ → ℕ → ModifierSet → ModifierSet
    unfolding add_modifier env_resolve_constant_or
    add_modifiers setting i zero modifier_set = modifier_set
    add_modifiers setting i (suc left) modifier_set = add_modifiers setting (i + 1) left (
        add_modifier
          (env_resolve_constant_or lib reg env (lib.config_setting_get_elem setting i) (negsuc 0))
          modifier_set)

    -- The enum of the operations has no negative member, so gcc makes it unsigned, and the test `op < 0`
    -- is never true: a node is made also where the parse gives -1.
    -- `unset` is what the name of the operation points to before it is looked up: nothing sets it.
    -- `characters` reads bytes as a text.
    pub modifiers_create :
        (Text → String) → Option String → Bool → GraphNodeConfig S → Option ModifiersGraphNode
    unfolding add_modifiers
    modifiers_create characters unset got config = elim config.options [
      | none ↦ none
      | some options ↦
          if got
          then (let operation_name : Option String =
                elim (lib.config_setting_lookup_string options (codes "operation")) [
                  | none ↦ unset
                  | some name ↦ some (characters name)
                ] in
              elim (lib.config_setting_get_member options (codes "modifiers")) [
                | none ↦ none
                | some setting ↦ some (record {
                  modifiers =
                      add_modifiers setting 0 (rounds (lib.config_setting_length setting))
                        empty_modifier_set;
                  operation = modifier_operation_parse operation_name;
                })
              ])
          else none
    ]
