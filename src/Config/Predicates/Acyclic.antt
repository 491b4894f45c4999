-- ===== src/Config/Predicates/Acyclic.antt =====
-- The registry of predicates that a configuration leaves.
use mathlib.Core.Path.{subst}
use event_sequence_transform.Prelude.{
  ℕ, zero, suc, ◌+◌, ◌≤◌, ◌≡◌, Bool, true, Option, none, some, [], arith, refl, sym, Bool-cases,
  Option-cases, inl, inr, length,
}
use event_sequence_transform.Prelude.Int.{pos, negsuc}
use event_sequence_transform.HashTable.{hash_table_key_from_bytes}
use event_sequence_transform.Predicate.{
  EventPredicateHandle, EventPredicateList, EventPredicateResult, event_predicate_apply,
}
use event_sequence_transform.Event.{EventNode}
use event_sequence_transform.Predicate.Termination.{event_predicate_apply_total, HandleBelow}
use event_sequence_transform.Predicate.Registry.{IsGood, Registered}
use event_sequence_transform.Config.{Text, Libconfig, Registry, section_elem, section_rounds}
use event_sequence_transform.Config.Laws.{RegistryLaws, TreeLaws}
use event_sequence_transform.Config.Predicates.{
  resolve_event_predicate, name_predicate, load_predicates_from, load_predicates_section,
}
use event_sequence_transform.Config.Predicates.Single.{
  ArgsGiven, DepthBelow, elem_below, Named, Named-later, Resolves, load_single_predicate-Registered,
}

module _ {S T : Type 0} (lib : Libconfig S) (reg : Registry T) (laws : RegistryLaws reg)
    (tree : TreeLaws lib) (alloc alloc_handles : ℕ → Bool) (given : (n : ℕ) → alloc n ≡ true)
    (given_handles : (n : ℕ) → alloc_handles n ≡ true) (args_given : ArgsGiven lib) where
  unresolved : (lst : EventPredicateList) → IsGood lst → Registered lst (some (negsuc 0, lst))
  unresolved lst good = record {
    handle = negsuc 0;
    left = lst;
    run = refl;
    good = good;
    longer = omega arith;
    below = tt;
  }

  pub resolve_event_predicate-Registered :
      (names constants : T) (fuel : ℕ) (lst : EventPredicateList) (setting : Option S)
      → IsGood lst
      → Named laws names lst
      → DepthBelow tree fuel setting
      → Registered lst (
          resolve_event_predicate lib reg alloc alloc_handles fuel
            (some names)
            constants
            lst
            setting)
  unfolding resolve_event_predicate
  resolve_event_predicate-Registered names constants zero lst none good named deep =
      absurd (omega arith)
  resolve_event_predicate-Registered names constants zero lst (some s) good named deep =
      absurd (omega arith)
  resolve_event_predicate-Registered names constants (suc fuel) lst none good named deep =
      unresolved lst good
  resolve_event_predicate-Registered names constants (suc fuel) lst (some s) good named deep =
      let resolve =
        resolve_event_predicate lib reg alloc alloc_handles fuel (some names) constants in
      let resolves : Resolves laws tree names fuel resolve = λ l o l_good l_named l_deep.
        resolve_event_predicate-Registered names constants fuel l o l_good l_named l_deep in
      elim (Bool-cases (lib.config_setting_is_string s)) [
        | inr structured ↦
            subst (Registered lst) (sym (rw (resolve_event_predicate, structured) refl)) (
              load_single_predicate-Registered lib reg laws tree alloc alloc_handles given
                given_handles args_given names constants fuel resolve resolves s deep lst good
                named)
        | inl text ↦
            let key = hash_table_key_from_bytes (lib.config_setting_get_string s) in
            elim (Option-cases (reg.find names key)) [
              | inl unknown ↦
                  subst (Registered lst) (sym (rw (resolve_event_predicate, text, unknown) refl))
                    (unresolved lst good)
              | inr (handle, known) ↦
                  subst (Registered lst) (sym (rw (resolve_event_predicate, text, known) refl))
                    (record {
                      handle = handle;
                      left = lst;
                      run = refl;
                      good = good;
                      longer = omega arith;
                      below =
                          laws.holds_find _ names (lib.config_setting_get_string s) handle named
                            known;
                    })
            ]
      ]

  -- What the section leaves: the table of names and the registry.
  pub record LoadedSection (lst : EventPredicateList) (result : Option (T × EventPredicateList))
      : Type 0 where
    pub names : T
    pub left : EventPredicateList
    pub run : result ≡ some (names, left)
    pub good : IsGood left
    pub longer : length lst.values ≤ length left.values
    pub named : laws.Holds (λ key. HandleBelow (length left.values)) names

  Named-one :
      (o : Option Text) (handle : EventPredicateHandle) (names : T) (lst : EventPredicateList)
      → HandleBelow (length lst.values) handle
      → Named laws names lst
      → Named laws (name_predicate lib reg alloc alloc_handles o handle names) lst
  unfolding name_predicate
  Named-one none handle names lst below named = named
  Named-one (some name) (negsuc n) names lst below named = named
  Named-one (some name) (pos n) names lst below named =
      laws.holds_insert _ names _ (pos n) below named

  section_below :
      (fuel : ℕ) (section : Option S) (i : ℕ)
      → DepthBelow tree fuel section
      → DepthBelow tree fuel (section_elem lib reg section i)
  section_below fuel none i deep = deep
  section_below fuel (some s) i deep = elem_below tree s fuel i deep

  load_predicates_from_loaded :
      (fuel : ℕ) (section : Option S) (constants : T) (i left : ℕ) (names : T)
      (lst : EventPredicateList)
      → IsGood lst
      → Named laws names lst
      → DepthBelow tree fuel section
      → LoadedSection lst
          (load_predicates_from lib reg alloc alloc_handles fuel section constants i left names lst)
  unfolding load_predicates_from
  load_predicates_from_loaded fuel section constants i zero names lst good named deep = record {
    names = names;
    left = lst;
    run = refl;
    good = good;
    longer = omega arith;
    named = named;
  }
  load_predicates_from_loaded fuel section constants i (suc left) names lst good named deep =
      elim (Option-cases (section_elem lib reg section i)) [
        | inl missing ↦ subst (LoadedSection lst) (sym (rw (load_predicates_from, missing) refl)) (
            load_predicates_from_loaded fuel section constants (i + 1) left names lst good named
              deep)
        | inr (def, there) ↦
            let r =
              resolve_event_predicate-Registered names constants fuel lst (some def) good named
                (subst (DepthBelow tree fuel) there (section_below fuel section i deep)) in
            let here = r.run in
            let names' =
              name_predicate lib reg alloc alloc_handles (lib.config_setting_name def) r.handle
                names in
            let rest =
              load_predicates_from_loaded fuel section constants (i + 1) left names' r.left r.good
                (Named-one (lib.config_setting_name def) r.handle names r.left r.below
                  (Named-later laws names lst r.left r.longer named))
                deep in
            subst (LoadedSection lst) (sym (rw (load_predicates_from, there, here) refl)) (record {
              names = rest.names;
              left = rest.left;
              run = rest.run;
              good = rest.good;
              longer = omega (arith, r.longer, rest.longer);
              named = rest.named;
            })
      ]

  -- The loop over the predicates of a configuration comes to its end on fuel deeper than the section, when
  -- the memory is given and every aggregate has its arguments. From a registry without a cycle
  -- it leaves one without a cycle, and every handle that a name stands for is in that registry.
  pub load_predicates_section-IsGood :
      (fuel : ℕ) (section : Option S) (names constants : T) (lst : EventPredicateList)
      → DepthBelow tree fuel section
      → IsGood lst
      → Named laws names lst
      → LoadedSection lst
          (load_predicates_section lib reg alloc alloc_handles fuel section names constants lst)
  unfolding load_predicates_section
  load_predicates_section-IsGood fuel section names constants lst deep good named =
      load_predicates_from_loaded fuel section constants 0 (section_rounds lib reg section) names
        lst good named deep

  -- When the settings are a tree, every aggregate has its arguments, the memory is given and the table
  -- of names keeps what is put into it, the predicates of a configuration are read into an empty
  -- registry on fuel that is more than the depth of the section; and every handle then has a
  -- result for every event, with a stack one deeper than the registry is long.
  pub load_predicates_section-apply :
      (fuel : ℕ) (section : Option S) (constants : T) (handle : EventPredicateHandle)
      (ev : Option EventNode)
      → DepthBelow tree fuel section
      → (names : T) × (left : EventPredicateList) × (load_predicates_section lib reg alloc
            alloc_handles fuel section reg.init constants
            (record { capacity = 0; values = [] })
          ≡ some (names, left))
        × ((r : EventPredicateResult) × (event_predicate_apply
                (length left.values + 1)
                left.values
                handle
                ev
              ≡ some r))
  load_predicates_section-apply fuel section constants handle ev deep =
      let empty : EventPredicateList = record { capacity = 0; values = [] } in
      let r =
        load_predicates_section-IsGood fuel section reg.init constants empty deep
          (record { fits = omega arith; acyclic = tt }) (laws.holds_init _) in
      (r.names, r.left, r.run, event_predicate_apply_total r.left.values ev r.good.acyclic handle)
