-- ===== src/Config/Whole.antt =====
-- `load_config`, `reset_config` and the functions of the environment of config.c.
use event_sequence_transform.Prelude.{ℕ, Bool, Option, none, some, List, []}
use event_sequence_transform.Prelude.Int.{ℤ, pos}
use event_sequence_transform.HashTable.{hash_table_key_from_bytes}
use event_sequence_transform.Predicate.{EventPredicateHandle, EventPredicateList}
use event_sequence_transform.Config.{
  Text, Libconfig, Registry, codes, GraphNodeConfig, GraphChannelConfig, load_nodes_section,
  load_channels_section, resolve_constant_or,
}
use event_sequence_transform.Config.Constants.{load_constants_section, load_enums_section}
use event_sequence_transform.Config.Predicates.{load_predicates_section, resolve_event_predicate}
use event_sequence_transform.EventCodes.{populate_event_codes}

-- The environment is the view of the two tables that the nodes get.
pub record FullConfig (S T : Type 0) : Type 0 where
  pub nodes : List (GraphNodeConfig S)
  pub channels : List GraphChannelConfig
  pub constants : T
  pub predicates : T

module _ {S T : Type 0} (reg : Registry T) where
  pub reset_config : Option (FullConfig S T) → Option (FullConfig S T)
  reset_config none = none
  reset_config (some config) = some (record {
    nodes = [];
    channels = [];
    constants = reg.deinit config.constants;
    predicates = reg.deinit config.predicates;
  })

module _ {S T : Type 0} (lib : Libconfig S) (reg : Registry T) where
  unfoldable pub env_resolve_constant_or : FullConfig S T → Option S → ℤ → ℤ
  unfolding resolve_constant_or
  env_resolve_constant_or env setting dflt =
      resolve_constant_or lib reg (some env.constants) setting dflt

  -- `env_resolve_constant` of config.h.
  unfoldable pub env_resolve_constant : FullConfig S T → Option S → ℤ
  unfolding env_resolve_constant_or
  env_resolve_constant env setting = env_resolve_constant_or env setting (pos 0)

module _ {S T : Type 0} (lib : Libconfig S) (reg : Registry T)
    (alloc alloc_handles : ℕ → Bool) where
  unfoldable pub env_resolve_event_predicate :
      ℕ
      → FullConfig S T
      → EventPredicateList
      → Option S
      → Option (EventPredicateHandle × EventPredicateList)
  unfolding resolve_event_predicate
  env_resolve_event_predicate fuel env lst setting =
      resolve_event_predicate lib reg alloc alloc_handles fuel (some env.predicates) env.constants
        lst setting

  -- The constants before the sections of the configuration.
  pub builtin_constants : (Text → Option ℤ) → Option T
  unfolding populate_event_codes
  builtin_constants macro =
      let no = reg.insert reg.init (hash_table_key_from_bytes (some (codes "false"))) (pos 0) in
      let both = reg.insert no (hash_table_key_from_bytes (some (codes "true"))) (pos 1) in
      elim (populate_event_codes reg macro (some both)) [
        | none ↦ none
        | some none ↦ none
        | some (some populated) ↦ some populated
      ]

  -- `alloc_bytes` is the allocator of the names and of the sections. A configuration that is NULL gives
  -- `some none`.
  pub load_config :
      (ℕ → Bool)
      → (Text → Option ℤ)
      → ℕ
      → Option S
      → EventPredicateList
      → Option (Option (FullConfig S T) × EventPredicateList)
  unfolding builtin_constants load_predicates_section load_constants_section load_enums_section
      load_nodes_section load_channels_section
  load_config alloc_bytes macro fuel none lst = some (none, lst)
  load_config alloc_bytes macro fuel (some root) lst =
      let member = λ (name : Text). lib.config_setting_get_member root name in
      elim (builtin_constants macro) [
        | none ↦ none
        | some populated ↦
            let listed = load_constants_section lib reg (member (codes "constants")) populated in
            let constants =
              load_enums_section lib reg alloc_bytes (member (codes "enums")) listed in
            elim (load_predicates_section lib reg alloc alloc_handles fuel
              (member (codes "predicates")) reg.init constants lst) [
                | none ↦ none
                | some (predicates, next) ↦ some (
                  some (record {
                    nodes = load_nodes_section lib reg alloc_bytes (member (codes "nodes"));
                    channels =
                        load_channels_section lib reg alloc_bytes (member (codes "channels"))
                          (some constants);
                    constants = constants;
                    predicates = predicates;
                  }),
                  next,
                )
              ]
      ]
