-- ===== src/Routing/Create.antt =====
-- The constructors of nodes/router.c and nodes/modify_predicate.c. They resolve predicates, which may
-- add to the registry. `got` says whether the memory of the node is given. The result is `none` where
-- a resolution does not come to its end, and `some (none, …)` where the node is NULL.
use event_sequence_transform.Prelude.{
  ℕ, zero, suc, Bool, true, false, Option, none, some, List, [], ◌∷◌, if◌then◌else◌,
}
use event_sequence_transform.Prelude.Int.{pos, negsuc}
use event_sequence_transform.Predicate.{EventPredicateHandle, EventPredicateList}
use event_sequence_transform.Config.{Text, Libconfig, Registry, codes, rounds, GraphNodeConfig}
use event_sequence_transform.Config.Whole.{FullConfig, env_resolve_event_predicate}
use event_sequence_transform.Config.Predicates.{load_handles}
use event_sequence_transform.Routing.{RouterGraphNode, ModifyPredicateGraphNode}

module _ {S T : Type 0} (lib : Libconfig S) (reg : Registry T) (alloc alloc_handles : ℕ → Bool)
    (fuel : ℕ) (env : FullConfig S T) where
  abbrev resolve :
      EventPredicateList → Option S → Option (EventPredicateHandle × EventPredicateList)
  resolve lst setting = env_resolve_event_predicate lib reg alloc alloc_handles fuel env lst setting

  pub router_create :
      Bool
      → GraphNodeConfig S
      → EventPredicateList
      → Option (Option RouterGraphNode × EventPredicateList)
  unfolding env_resolve_event_predicate load_handles
  router_create got config lst = elim config.options [
    | none ↦ some (none, lst)
    | some options ↦ elim got [
      | false ↦ some (none, lst)
      | true ↦ elim (lib.config_setting_get_member options (codes "predicates")) [
        | none ↦ some (none, lst)
        | some setting ↦ elim (rounds (lib.config_setting_length setting)) [
          | zero ↦ some (some (record { predicates = [] }), lst)
          | suc n ↦
              if alloc_handles (suc n)
              then (elim (load_handles lib reg alloc alloc_handles resolve setting 0 (suc n) lst) [
                | none ↦ none
                | some (handles, next) ↦ some (some (record { predicates = handles }), next)
              ])
              else some (none, lst)
        ]
      ]
    ]
  ]

  -- The handles of the four options in order; C leaves that order open.
  pub resolve_members :
      S → List Text → EventPredicateList → Option (List EventPredicateHandle × EventPredicateList)
  unfolding env_resolve_event_predicate
  resolve_members options [] lst = some ([], lst)
  resolve_members options (name ∷ names) lst =
      elim (resolve lst (lib.config_setting_get_member options name)) [
        | none ↦ none
        | some (handle, next) ↦ elim (resolve_members options names next) [
          | none ↦ none
          | some (handles, last) ↦ some (handle ∷ handles, last)
        ]
      ]

  abbrev with_triggers :
      EventPredicateHandle → List EventPredicateHandle → Option ModifyPredicateGraphNode
  with_triggers target (enable_on ∷ disable_on ∷ invert_on ∷ uninvert_on ∷ []) = some (record {
    target = target;
    enable_on = enable_on;
    disable_on = disable_on;
    invert_on = invert_on;
    uninvert_on = uninvert_on;
  })
  with_triggers target _ = none

  pub modify_predicate_create :
      Bool
      → GraphNodeConfig S
      → EventPredicateList
      → Option (Option ModifyPredicateGraphNode × EventPredicateList)
  unfolding resolve_members env_resolve_event_predicate
  modify_predicate_create got config lst = elim config.options [
    | none ↦ some (none, lst)
    | some options ↦ elim got [
      | false ↦ some (none, lst)
      | true ↦ elim (resolve lst (lib.config_setting_get_member options (codes "target"))) [
        | none ↦ none
        | some (negsuc n, next) ↦ some (none, next)
        | some (pos n, next) ↦
            elim (resolve_members options
              (codes "enable_on"
                ∷ codes "disable_on"
                ∷ codes "invert_on"
                ∷ codes "uninvert_on"
                ∷ [])
              next) [
                | none ↦ none
                | some (handles, last) ↦ some (with_triggers (pos n) handles, last)
              ]
      ]
    ]
  ]
