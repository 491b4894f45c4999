-- ===== src/Config/Predicates/Single.antt =====
-- One predicate of a configuration, and its arguments.
use mathlib.Core.Path.{subst}
use event_sequence_transform.Prelude.{
  ℕ, zero, suc, ◌+◌, ◌≤◌, ◌<◌, ◌≡◌, Bool, true, false, Option, none, some, List, [], ◌∷◌, arith,
  refl, sym, Bool-cases, Option-cases, inl, inr, ◌⊎◌, length, ltb,
}
use event_sequence_transform.Prelude.Int.{ℤ, pos, negsuc}
use event_sequence_transform.Modifiers.{modifier_max}
use event_sequence_transform.Predicate.{
  EventPredicateType, evpred_invalid, evpred_accept, evpred_conjunction, evpred_disjunction,
  evpred_modifier, evpred_code_ns, evpred_code_major, evpred_code_minor, evpred_payload,
  evpred_input_index, EventPredicateHandle, EventPredicate, EventPredicateList,
}
use event_sequence_transform.Predicate.Termination.{HandleBelow, AllBelow, ArgsBelow}
use event_sequence_transform.Predicate.Registry.{
  IsGood, Registered, event_predicate_register-Registered,
}
use event_sequence_transform.Config.{
  Text, Libconfig, Registry, codes, rounds, parse_event_predicate_type,
}
use event_sequence_transform.Config.Laws.{RegistryLaws, TreeLaws}
use event_sequence_transform.Config.Predicates.{
  Resolve, blank_predicate, member_or, load_handles, load_aggregate, load_modifier, load_range,
  load_data, with_flags, load_single_predicate,
}

abbrev pub takes_args : EventPredicateType → Bool
takes_args evpred_conjunction = true
takes_args evpred_disjunction = true
takes_args _ = false

-- Every setting with the type of an aggregate has its arguments.
abbrev pub ArgsGiven : {S : Type 0} → Libconfig S → Type 0
ArgsGiven {S} lib =
    (s : S) (type_name : Text)
    → lib.config_setting_lookup_string s (codes "type") ≡ some type_name
    → takes_args (parse_event_predicate_type type_name) ≡ true
    → (args : S) × (lib.config_setting_get_member s (codes "args") ≡ some args)

HandleBelow-later : (n m : ℕ) (h : EventPredicateHandle) → n ≤ m → HandleBelow n h → HandleBelow m h
HandleBelow-later n m (pos h) le b = omega arith
HandleBelow-later n m (negsuc h) le b = tt

ℕ-cases : (n : ℕ) → (n ≡ 0) ⊎ ((m : ℕ) × (n ≡ suc m))
ℕ-cases zero = inl refl
ℕ-cases (suc m) = inr (m, refl)

module _ {S : Type 0} {lib : Libconfig S} (tree : TreeLaws lib) where
  abbrev pub DepthBelow : ℕ → Option S → Type 0
  DepthBelow fuel none = 0 < fuel
  DepthBelow fuel (some s) = tree.depth s < fuel

  pub elem_below :
      (args : S) (fuel i : ℕ)
      → tree.depth args < fuel
      → DepthBelow fuel (lib.config_setting_get_elem args i)
  elem_below args fuel i deep = elim (Option-cases (lib.config_setting_get_elem args i)) [
    | inl missing ↦ subst (DepthBelow fuel) (sym missing) (omega arith)
    | inr (d, there) ↦
        let less = tree.depth_elem args d i there in
        subst (DepthBelow fuel) (sym there) (omega arith)
  ]

module _ {T : Type 0} {reg : Registry T} (laws : RegistryLaws reg) where
  -- The handles that the table of names gives are in the registry.
  abbrev pub Named : T → EventPredicateList → Type 0
  Named t lst = laws.Holds (λ key. HandleBelow (length lst.values)) t

  pub Named-later :
      (t : T) (lst next : EventPredicateList)
      → length lst.values ≤ length next.values
      → Named t lst
      → Named t next
  Named-later t lst next le named =
      laws.holds_weaken _ _ t (λ key v b. HandleBelow-later _ _ v le b) named

  module _ {S : Type 0} {lib : Libconfig S} (tree : TreeLaws lib) where
    abbrev pub Resolves : T → ℕ → Resolve S → Type 0
    Resolves names fuel resolve =
        (lst : EventPredicateList) (setting : Option S)
        → IsGood lst
        → Named names lst
        → DepthBelow tree fuel setting
        → Registered lst (resolve lst setting)

module _ {S T : Type 0} (lib : Libconfig S) (reg : Registry T) (laws : RegistryLaws reg)
    (tree : TreeLaws lib) (alloc alloc_handles : ℕ → Bool) (given : (n : ℕ) → alloc n ≡ true)
    (given_handles : (n : ℕ) → alloc_handles n ≡ true) (args_given : ArgsGiven lib) where
  record LoadedHandles (lst : EventPredicateList)
      (result : Option (List EventPredicateHandle × EventPredicateList)) : Type 0 where
    handles : List EventPredicateHandle
    left : EventPredicateList
    run : result ≡ some (handles, left)
    good : IsGood left
    longer : length lst.values ≤ length left.values
    below : AllBelow (length left.values) handles

  load_handles_loaded :
      (names : T) (fuel : ℕ) (resolve : Resolve S)
      (resolves : Resolves laws tree names fuel resolve) (args : S) (i left : ℕ)
      (lst : EventPredicateList)
      → tree.depth args < fuel
      → IsGood lst
      → Named laws names lst
      → LoadedHandles lst (load_handles lib reg alloc alloc_handles resolve args i left lst)
  unfolding load_handles
  load_handles_loaded names fuel resolve resolves args i zero lst deep good named = record {
    handles = [];
    left = lst;
    run = refl;
    good = good;
    longer = omega arith;
    below = tt;
  }
  load_handles_loaded names fuel resolve resolves args i (suc left) lst deep good named =
      let r =
        resolves lst (lib.config_setting_get_elem args i) good named
          (elem_below tree args fuel i deep) in
      let rest =
        load_handles_loaded names fuel resolve resolves args (i + 1) left r.left deep r.good
          (Named-later laws names lst r.left r.longer named) in
      let first = r.run in
      let others = rest.run in
      record {
        handles = r.handle ∷ rest.handles;
        left = rest.left;
        run = rw (load_handles, first, others) refl;
        good = rest.good;
        longer = omega (arith, r.longer, rest.longer);
        below = (HandleBelow-later _ _ r.handle rest.longer r.below, rest.below);
      }

  abbrev OptArgs : ℕ → Option EventPredicate → Type 0
  OptArgs n none = Unit
  OptArgs n (some p) = ArgsBelow n p.handles

  record LoadedData (lst : EventPredicateList)
      (result : Option (Option EventPredicate × EventPredicateList)) : Type 0 where
    data_of : Option EventPredicate
    left : EventPredicateList
    run : result ≡ some (data_of, left)
    good : IsGood left
    longer : length lst.values ≤ length left.values
    args : OptArgs (length left.values) data_of

  abbrev unchanged :
      (lst : EventPredicateList) (o : Option EventPredicate)
      → IsGood lst
      → OptArgs (length lst.values) o
      → LoadedData lst (some (o, lst))
  unchanged lst o good args = record {
    data_of = o;
    left = lst;
    run = refl;
    good = good;
    longer = omega arith;
    args = args;
  }

  load_aggregate_loaded :
      (names : T) (fuel : ℕ) (resolve : Resolve S)
      (resolves : Resolves laws tree names fuel resolve) (setting args : S)
      (type : EventPredicateType) (lst : EventPredicateList)
      → lib.config_setting_get_member setting (codes "args") ≡ some args
      → tree.depth args < fuel
      → IsGood lst
      → Named laws names lst
      → LoadedData lst (load_aggregate lib reg alloc alloc_handles resolve setting type lst)
  unfolding load_aggregate
  load_aggregate_loaded names fuel resolve resolves setting args type lst there deep good named =
      elim (ℕ-cases (rounds (lib.config_setting_length args))) [
        | inl none_there ↦
            subst (LoadedData lst) (sym (rw (there, load_aggregate, none_there) refl))
              (unchanged lst (some (blank_predicate type)) good tt)
        | inr (n, count) ↦
            let r =
              load_handles_loaded names fuel resolve resolves args 0 (suc n) lst deep good named in
            let all = r.run in
            let memory = given_handles (suc n) in
            record {
              data_of = some (record (blank_predicate type) { handles = some r.handles });
              left = r.left;
              run = rw (there, load_aggregate, count, memory, all) refl;
              good = r.good;
              longer = r.longer;
              args = r.below;
            }
      ]

  load_modifier_args :
      (constants : T) (setting : S) (n : ℕ) (v : ℤ)
      → member_or lib reg alloc alloc_handles constants setting (codes "modifier") (negsuc 0) ≡ v
      → OptArgs n (load_modifier lib reg alloc alloc_handles constants setting)
  unfolding load_modifier
  load_modifier_args constants setting n (negsuc m) e =
      let run : load_modifier lib reg alloc alloc_handles constants setting ≡ none =
        rw (load_modifier, e) refl in
      subst (OptArgs n) (sym run) tt
  load_modifier_args constants setting n (pos m) e = elim (Bool-cases (ltb modifier_max m)) [
    | inl large ↦
        let run : load_modifier lib reg alloc alloc_handles constants setting ≡ none =
          rw (load_modifier, e, large) refl in
        subst (OptArgs n) (sym run) tt
    | inr fits ↦
        let run : load_modifier lib reg alloc alloc_handles constants setting
            ≡ some (record (blank_predicate evpred_modifier) { single_modifier = m }) =
          rw (load_modifier, e, fits) refl in
        subst (OptArgs n) (sym run) tt
  ]

  module _ (names constants : T) (fuel : ℕ) (resolve : Resolve S)
      (resolves : Resolves laws tree names fuel resolve) (setting : S)
      (deep : tree.depth setting < suc fuel) (lst : EventPredicateList) (good : IsGood lst)
      (named : Named laws names lst) where
    load_data_aggregate :
        (type : EventPredicateType)
        → ((args : S) × (lib.config_setting_get_member setting (codes "args") ≡ some args))
        → LoadedData lst (load_aggregate lib reg alloc alloc_handles resolve setting type lst)
    load_data_aggregate type (args, there) =
        let less = tree.depth_member setting args (codes "args") there in
        load_aggregate_loaded names fuel resolve resolves setting args type lst there (omega arith)
          good named

    load_data_loaded :
        (type : EventPredicateType)
        → (takes_args type ≡ true
            → (args : S) × (lib.config_setting_get_member setting (codes "args") ≡ some args))
        → LoadedData lst (load_data lib reg alloc alloc_handles resolve constants setting type lst)
    unfolding load_data load_range
    load_data_loaded evpred_invalid has = unchanged lst none good tt
    load_data_loaded evpred_accept has = unchanged lst _ good tt
    load_data_loaded evpred_code_ns has = unchanged lst _ good tt
    load_data_loaded evpred_code_major has = unchanged lst _ good tt
    load_data_loaded evpred_code_minor has = unchanged lst _ good tt
    load_data_loaded evpred_payload has = unchanged lst _ good tt
    load_data_loaded evpred_input_index has = unchanged lst _ good tt
    load_data_loaded evpred_conjunction has = load_data_aggregate evpred_conjunction (has refl)
    load_data_loaded evpred_disjunction has = load_data_aggregate evpred_disjunction (has refl)
    load_data_loaded evpred_modifier has =
        unchanged lst _ good (load_modifier_args constants setting (length lst.values) _ refl)

    rejected :
        (next : EventPredicateList)
        → IsGood next
        → length lst.values ≤ length next.values
        → Registered lst (some (negsuc 0, next))
    rejected next next_good longer = record {
      handle = negsuc 0;
      left = next;
      run = refl;
      good = next_good;
      longer = longer;
      below = tt;
    }

    pub load_single_predicate-Registered :
        Registered lst
          (load_single_predicate lib reg alloc alloc_handles resolve constants setting lst)
    unfolding load_single_predicate
    load_single_predicate-Registered =
        elim (Option-cases (lib.config_setting_lookup_string setting (codes "type"))) [
          | inl untyped ↦
              subst (Registered lst) (sym (rw (load_single_predicate, untyped) refl))
                (rejected lst good (omega arith))
          | inr (type_name, typed) ↦
              let type = parse_event_predicate_type type_name in
              let d = load_data_loaded type (args_given setting type_name typed) in
              registered type_name typed d.data_of d.left d.run d.good d.longer d.args
        ]
      where
        registered :
            (type_name : Text)
            → lib.config_setting_lookup_string setting (codes "type") ≡ some type_name
            → (o : Option EventPredicate) (next : EventPredicateList)
            → load_data lib reg alloc alloc_handles resolve constants setting
                (parse_event_predicate_type type_name)
                lst
              ≡ some (o, next)
            → IsGood next
            → length lst.values ≤ length next.values
            → OptArgs (length next.values) o
            → Registered lst
                (load_single_predicate lib reg alloc alloc_handles resolve constants setting lst)
        registered type_name typed none next run next_good longer args =
            subst (Registered lst) (sym (rw (load_single_predicate, typed, run) refl))
              (rejected next next_good longer)
        registered type_name typed (some p) next run next_good longer args =
            let whole = with_flags lib reg alloc alloc_handles constants setting p in
            let r = event_predicate_register-Registered alloc next whole given next_good args in
            subst (Registered lst) (sym (rw (load_single_predicate, typed, run) refl)) (record {
              handle = r.handle;
              left = r.left;
              run = r.run;
              good = r.good;
              longer = omega (arith, longer, r.longer);
              below = r.below;
            })
