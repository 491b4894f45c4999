-- ===== src/Predicate.antt =====
-- event_predicate.h and event_predicate.c: the registry of predicates and their evaluation.
pub mod Registry
pub mod Aggregate
pub mod Termination
pub mod Flags
use event_sequence_transform.Prelude.{
  ℕ, zero, suc, ◌+◌, ◌-◌, ◌/◌, ◌^◌, Bool, true, false, not, ◌&&◌, Option, none, some, List, [], ◌∷◌,
  ◌++◌, leb, ltb, if◌then◌else◌, length, get_elem?, set,
}
use event_sequence_transform.Prelude.Int.{ℤ, pos, negsuc, ltb_ℤ}
use event_sequence_transform.Modifiers.{modifier_set_has}
use event_sequence_transform.Event.{EventCode, EventData, EventNode}

pub data EventPredicateType : Type 0 where
  evpred_invalid evpred_accept evpred_code_ns evpred_code_major evpred_code_minor evpred_payload
        evpred_input_index evpred_conjunction evpred_disjunction evpred_modifier :
      EventPredicateType

pub data EventPredicateResult : Type 0 where
  evpredres_disabled evpredres_rejected evpredres_accepted : EventPredicateResult

-- An `int32_t`; the negative ones name no predicate.
abbrev pub EventPredicateHandle : Type 0
EventPredicateHandle = ℤ

-- The members of the union stand side by side; each is read under its own type only. `handles` is
-- `none` where the pointer is NULL.
pub record EventPredicate : Type 0 where
  pub type : EventPredicateType
  pub enabled : Bool
  pub inverted : Bool
  pub min_value : ℤ
  pub max_value : ℤ
  pub handles : Option (List EventPredicateHandle)
  pub single_modifier : ℕ

-- The predicates in use are `values`; `length` is their number.
pub record EventPredicateList : Type 0 where
  pub capacity : ℕ
  pub values : List EventPredicate

abbrev pub int32_max : ℕ
int32_max = 2 ^ 31 - 1

module _ (alloc : ℕ → Bool) where
  -- The result false of `event_predicate_list_extend` leaves the list as it was.
  pub event_predicate_list_extend : EventPredicateList → EventPredicateList
  event_predicate_list_extend lst =
      let capacity = lst.capacity + lst.capacity / 2 + 1 in
      if alloc capacity then (record lst { capacity = capacity }) else lst

  -- `while (i >= predicates.capacity)` on fuel; `none` if the fuel runs out.
  pub extend_until : ℕ → ℕ → EventPredicateList → Option EventPredicateList
  unfolding event_predicate_list_extend
  extend_until zero i lst = none
  extend_until (suc fuel) i lst = elim (leb lst.capacity i) [
    | true ↦ extend_until fuel i (event_predicate_list_extend lst)
    | false ↦ some lst
  ]

  -- The handle -1 is `negsuc 0`.
  pub event_predicate_register :
      ℕ → EventPredicateList → EventPredicate → Option (EventPredicateHandle × EventPredicateList)
  event_predicate_register fuel predicates predicate =
      let i = length predicates.values in
      if leb int32_max i
      then some (negsuc 0, predicates)
      else elim (extend_until fuel i predicates) [
        | none ↦ none
        | some lst ↦ some (pos i, record lst { values = lst.values ++ (predicate ∷ []) })
      ]

abbrev pub Predicates : Type 0
Predicates = List EventPredicate

unfoldable pub event_predicate_get_ptr : Predicates → EventPredicateHandle → Option EventPredicate
event_predicate_get_ptr ps (negsuc n) = none
event_predicate_get_ptr ps (pos n) = get_elem? ps n

abbrev invalid_predicate : EventPredicate
invalid_predicate = record {
  type = evpred_invalid;
  enabled = false;
  inverted = false;
  min_value = pos 0;
  max_value = pos 0;
  handles = none;
  single_modifier = 0;
}

pub event_predicate_get : Predicates → EventPredicateHandle → EventPredicate
unfolding event_predicate_get_ptr
event_predicate_get ps handle = elim (event_predicate_get_ptr ps handle) [
  | none ↦ invalid_predicate
  | some p ↦ p
]

-- `should_stop` of the loop over the arguments of an aggregate, for an argument that is enabled.
pub should_stop : Bool → EventPredicateResult → Bool
should_stop disjunction child_result =
    let stop : Bool = elim child_result [ evpredres_rejected ↦ true | _ ↦ false ] in
    if disjunction then not stop else stop

module _ (child : EventPredicateHandle → Option EventPredicateResult) (disjunction : Bool) where
  -- The loop: the new value of `accepted`, `none` where an argument gives none.
  pub apply_aggregate : List EventPredicateHandle → Option Bool
  unfolding should_stop
  apply_aggregate [] = some (not disjunction)
  apply_aggregate (h ∷ hs) =
      let rest = apply_aggregate hs in
      elim (child h) [
        | none ↦ none
        | some r ↦ elim r [
          | evpredres_disabled ↦ rest
          | other ↦ if should_stop disjunction other then some disjunction else rest
        ]
      ]

pub result_of : Bool → Bool → EventPredicateResult
result_of inverted accepted =
    let accepted' = if inverted then not accepted else accepted in
    if accepted' then evpredres_accepted else evpredres_rejected

-- A `size_t` put into an `int64_t`.
pub int64_of_size : ℕ → ℤ
int64_of_size n = if ltb n (2 ^ 63) then pos n else negsuc (2 ^ 64 - n - 1)

-- The number that a range predicate looks at, `none` for the other types.
pub actual_value : EventPredicateType → EventNode → Option ℤ
unfolding int64_of_size
actual_value evpred_code_ns e = some (pos e.event_data.code.ns)
actual_value evpred_code_major e = some (pos e.event_data.code.major)
actual_value evpred_code_minor e = some (pos e.event_data.code.minor)
actual_value evpred_payload e = some e.event_data.payload
actual_value evpred_input_index e = some (int64_of_size e.input_index)
actual_value _ e = none

abbrev pub in_range : ℤ → ℤ → ℤ → Bool
in_range low high actual = not (ltb_ℤ actual low) && not (ltb_ℤ high actual)

-- The range cases of the switch. An event that is NULL disables.
pub apply_range : EventPredicate → Option EventNode → EventPredicateResult
unfolding result_of actual_value
apply_range p none = evpredres_disabled
apply_range p (some e) = elim (actual_value p.type e) [
  | none ↦ evpredres_disabled
  | some actual ↦ result_of p.inverted (in_range p.min_value p.max_value actual)
]

pub apply_modifier : EventPredicate → Option EventNode → EventPredicateResult
unfolding result_of
apply_modifier p none = evpredres_disabled
apply_modifier p (some e) =
    result_of p.inverted (modifier_set_has e.event_data.modifiers p.single_modifier)

pub apply_handles :
    (EventPredicateHandle → Option EventPredicateResult)
    → Bool
    → EventPredicate
    → Option EventPredicateResult
unfolding apply_aggregate result_of
apply_handles child disjunction p = elim p.handles [
  | none ↦ some evpredres_disabled
  | some hs ↦ elim (apply_aggregate child disjunction hs) [
    | none ↦ none
    | some accepted ↦ some (result_of p.inverted accepted)
  ]
]

-- The switch on the type of a predicate that is enabled.
pub apply_type :
    (EventPredicateHandle → Option EventPredicateResult)
    → EventPredicateType
    → EventPredicate
    → Option EventNode
    → Option EventPredicateResult
unfolding apply_handles apply_range apply_modifier result_of
apply_type child evpred_invalid p ev = some evpredres_disabled
apply_type child evpred_accept p ev = some (result_of p.inverted true)
apply_type child evpred_conjunction p ev = apply_handles child false p
apply_type child evpred_disjunction p ev = apply_handles child true p
apply_type child evpred_modifier p ev = some (apply_modifier p ev)
apply_type child _ p ev = some (apply_range p ev)

-- The recursion through handles on fuel, the depth of the stack that is left.
pub event_predicate_apply :
    ℕ → Predicates → EventPredicateHandle → Option EventNode → Option EventPredicateResult
unfolding event_predicate_get_ptr apply_type
event_predicate_apply zero ps handle ev = none
event_predicate_apply (suc fuel) ps handle ev =
    let child = λ (h : EventPredicateHandle). event_predicate_apply fuel ps h ev in
    elim (event_predicate_get_ptr ps handle) [
      | none ↦ some evpredres_disabled
      | some p ↦ if not p.enabled then some evpredres_disabled else apply_type child p.type p ev
    ]

-- The update of the predicate behind a handle; a handle of none does nothing.
pub update_at : Predicates → EventPredicateHandle → (EventPredicate → EventPredicate) → Predicates
unfolding event_predicate_get_ptr
update_at ps (negsuc n) f = ps
update_at ps (pos n) f = elim (get_elem? ps n) [ none ↦ ps | some p ↦ set ps n (f p) ]

pub event_predicate_set_enabled : Predicates → EventPredicateHandle → Bool → Predicates
unfolding update_at
event_predicate_set_enabled ps handle enabled =
    update_at ps handle (λ p. record p { enabled = enabled })

pub event_predicate_set_inverted : Predicates → EventPredicateHandle → Bool → Predicates
unfolding update_at
event_predicate_set_inverted ps handle inverted =
    update_at ps handle (λ p. record p { inverted = inverted })

pub event_predicate_list_clear : EventPredicateList → EventPredicateList
event_predicate_list_clear lst = record { capacity = 0; values = [] }

pub event_predicate_reset : EventPredicateList → EventPredicateList
unfolding event_predicate_list_clear
event_predicate_reset predicates = event_predicate_list_clear predicates
