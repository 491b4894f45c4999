-- ===== src/Config/Predicates.antt =====
-- The predicates of config.c.
pub mod Single
pub mod Acyclic
use event_sequence_transform.Prelude.{
  ℕ, zero, suc, ◌+◌, ◌-◌, ◌^◌, ◌*◌, ◌/◌, Bool, true, false, not, ◌&&◌, ◌||◌, Option, none, some,
  List, [], ◌∷◌, leb, ltb, if◌then◌else◌,
}
use event_sequence_transform.Prelude.Int.{ℤ, pos, negsuc, ltb_ℤ}
use event_sequence_transform.Modifiers.{modifier_max}
use event_sequence_transform.HashTable.{hash_table_key_from_bytes}
use event_sequence_transform.Predicate.{
  EventPredicateType, evpred_invalid, evpred_accept, evpred_conjunction, evpred_disjunction,
  evpred_modifier, EventPredicateHandle, EventPredicate, EventPredicateList,
  event_predicate_register,
}
use event_sequence_transform.Config.{
  Text, Libconfig, Registry, codes, rounds, nonzero, resolve_constant_or,
  parse_event_predicate_type, section_rounds, section_elem, GraphNodeConfig, GraphChannelConfig,
  load_nodes_section, load_channels_section,
}
use event_sequence_transform.Config.Constants.{load_constants_section, load_enums_section}

-- A predicate before its members are set.
abbrev pub blank_predicate : EventPredicateType → EventPredicate
blank_predicate type = record {
  type = type;
  enabled = false;
  inverted = false;
  min_value = pos 0;
  max_value = pos 0;
  handles = none;
  single_modifier = 0;
}

-- What the resolution of a predicate takes and gives. A result `none` is a run that does not come to its
-- end: a NULL pointer that is followed, an array of predicates that is never given, or a lack of
-- fuel.
abbrev pub Resolve : Type 0 → Type 0
Resolve S = EventPredicateList → Option S → Option (EventPredicateHandle × EventPredicateList)

-- `alloc` is the allocator of the registry of predicates, `alloc_handles` that of the arguments.
module _ {S T : Type 0} (lib : Libconfig S) (reg : Registry T)
    (alloc alloc_handles : ℕ → Bool) where
  abbrev pub member_or : T → S → Text → ℤ → ℤ
  member_or constants setting name dflt =
      resolve_constant_or lib reg (some constants) (lib.config_setting_get_member setting name) dflt

  -- The loop over the arguments of an aggregate, from an index on.
  unfoldable pub load_handles :
      Resolve S
      → S
      → ℕ
      → ℕ
      → EventPredicateList
      → Option (List EventPredicateHandle × EventPredicateList)
  load_handles resolve args i zero lst = some ([], lst)
  load_handles resolve args i (suc left) lst =
      elim (resolve lst (lib.config_setting_get_elem args i)) [
        | none ↦ none
        | some (handle, next) ↦ elim (load_handles resolve args (i + 1) left next) [
          | none ↦ none
          | some (handles, last) ↦ some (handle ∷ handles, last)
        ]
      ]

  -- The case of the aggregates. The arguments of a NULL setting, and an array that is not given, are
  -- followed all the same.
  pub load_aggregate :
      Resolve S
      → S
      → EventPredicateType
      → EventPredicateList
      → Option (Option EventPredicate × EventPredicateList)
  unfolding load_handles
  load_aggregate resolve setting type lst =
      elim (lib.config_setting_get_member setting (codes "args")) [
        | none ↦ none
        | some args ↦ elim (rounds (lib.config_setting_length args)) [
          | zero ↦ some (some (blank_predicate type), lst)
          | suc n ↦
              if alloc_handles (suc n)
              then (elim (load_handles resolve args 0 (suc n) lst) [
                | none ↦ none
                | some (handles, last) ↦
                    some (some (record (blank_predicate type) { handles = some handles }), last)
              ])
              else none
        ]
      ]

  pub load_modifier : T → S → Option EventPredicate
  unfolding resolve_constant_or
  load_modifier constants setting =
      elim (member_or constants setting (codes "modifier") (negsuc 0)) [
        | negsuc n ↦ none
        | pos n ↦
            if ltb modifier_max n
            then none
            else some (record (blank_predicate evpred_modifier) { single_modifier = n })
      ]

  pub load_range : T → S → EventPredicateType → EventPredicate
  unfolding resolve_constant_or
  load_range constants setting type = record (blank_predicate type) {
    min_value = member_or constants setting (codes "min") (negsuc (2 ^ 63 - 1));
    max_value = member_or constants setting (codes "max") (pos (2 ^ 63 - 1));
  }

  -- The switch of `load_single_predicate`: the predicate, `none` where the result is -1.
  pub load_data :
      Resolve S
      → T
      → S
      → EventPredicateType
      → EventPredicateList
      → Option (Option EventPredicate × EventPredicateList)
  unfolding load_aggregate load_modifier load_range
  load_data resolve constants setting evpred_invalid lst = some (none, lst)
  load_data resolve constants setting evpred_accept lst =
      some (some (blank_predicate evpred_accept), lst)
  load_data resolve constants setting evpred_conjunction lst =
      load_aggregate resolve setting evpred_conjunction lst
  load_data resolve constants setting evpred_disjunction lst =
      load_aggregate resolve setting evpred_disjunction lst
  load_data resolve constants setting evpred_modifier lst =
      some (load_modifier constants setting, lst)
  load_data resolve constants setting type lst =
      some (some (load_range constants setting type), lst)

  abbrev pub with_flags : T → S → EventPredicate → EventPredicate
  with_flags constants setting p = record p {
    enabled = nonzero (member_or constants setting (codes "enabled") (pos 1));
    inverted = nonzero (member_or constants setting (codes "inverted") (pos 0));
  }

  -- Two rounds of fuel are what the registration of a predicate takes.
  pub load_single_predicate :
      Resolve S → T → S → EventPredicateList → Option (EventPredicateHandle × EventPredicateList)
  unfolding load_data parse_event_predicate_type
  load_single_predicate resolve constants setting lst =
      elim (lib.config_setting_lookup_string setting (codes "type")) [
        | none ↦ some (negsuc 0, lst)
        | some type_name ↦
            elim (load_data resolve constants setting (parse_event_predicate_type type_name) lst) [
              | none ↦ none
              | some (none, next) ↦ some (negsuc 0, next)
              | some (some p, next) ↦
                  event_predicate_register alloc 2 next (with_flags constants setting p)
            ]
      ]

  -- On fuel, the depth of the settings.
  unfoldable pub resolve_event_predicate : ℕ → Option T → T → Resolve S
  unfolding load_single_predicate
  resolve_event_predicate zero registry constants lst setting = none
  resolve_event_predicate (suc fuel) registry constants lst none = some (negsuc 0, lst)
  resolve_event_predicate (suc fuel) registry constants lst (some setting) =
      let deeper = resolve_event_predicate fuel registry constants in
      elim (lib.config_setting_is_string setting) [
        | false ↦ load_single_predicate deeper constants setting lst
        | true ↦ elim registry [
          | none ↦ some (negsuc 0, lst)
          | some r ↦
              let key = hash_table_key_from_bytes (lib.config_setting_get_string setting) in
              elim (reg.find r key) [
                | none ↦ some (negsuc 0, lst)
                | some handle ↦ some (handle, lst)
              ]
        ]
      ]

  -- The end of a round of the loop of `load_predicates_section`.
  pub name_predicate : Option Text → EventPredicateHandle → T → T
  name_predicate none handle predicates = predicates
  name_predicate (some name) (negsuc n) predicates = predicates
  name_predicate (some name) (pos n) predicates =
      reg.insert predicates (hash_table_key_from_bytes (some name)) (pos n)

  pub load_predicates_from :
      ℕ → Option S → T → ℕ → ℕ → T → EventPredicateList → Option (T × EventPredicateList)
  unfolding resolve_event_predicate name_predicate
  load_predicates_from fuel section constants i zero predicates lst = some (predicates, lst)
  load_predicates_from fuel section constants i (suc left) predicates lst =
      elim (section_elem lib reg section i) [
        | none ↦ load_predicates_from fuel section constants (i + 1) left predicates lst
        | some predicate_def ↦
            elim (resolve_event_predicate fuel (some predicates) constants lst
              (some predicate_def)) [
                | none ↦ none
                | some (handle, next) ↦
                    load_predicates_from fuel section constants (i + 1) left
                      (name_predicate (lib.config_setting_name predicate_def) handle predicates)
                      next
              ]
      ]

  unfoldable pub load_predicates_section :
      ℕ → Option S → T → T → EventPredicateList → Option (T × EventPredicateList)
  unfolding load_predicates_from
  load_predicates_section fuel section predicates constants lst =
      load_predicates_from fuel section constants 0 (section_rounds lib reg section) predicates lst
