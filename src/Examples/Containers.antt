-- ===== src/Examples/Containers.antt =====
-- Runs for the queue, the sets of modifiers, the registry of predicates and the times.
use event_sequence_transform.Prelude.{
  ◌⊎◌, ℕ, ◌<◌, ◌≡◌, zero, suc, get_or, Bool, true, false, none, some, List, [], ◌∷◌, arith, refl,
  ltb, ltb→lt, ◌^◌,
}
use event_sequence_transform.Prelude.Int.{pos, negsuc, ◌+ℤ◌, ◌-ℤ◌, ◌*ℤ◌, ◌≤ℤ◌}
use event_sequence_transform.Queue.{
  Queue, queue_put, queue_try_pop, queue_deinit_with_destructor, empty_queue,
}
use event_sequence_transform.Queue.Inv.{IsValid, max_cells}
use event_sequence_transform.Queue.Refine.{contents, PutResult}
use event_sequence_transform.Queue.Grow.{queue_put_lem}
use event_sequence_transform.Queue.Loop.{PopResult, queue_try_pop_lem, queue_deinit_lem}
use event_sequence_transform.Modifiers.{
  ModifierSet, modop_toggle, modifier_set_has, modifier_set_operation_from, modifier_set_operation,
}
use event_sequence_transform.Modifiers.Whole.{
  IsBytes, flag_after, has-modifier_set_operation_from, has-modifier_set_operation,
}
use event_sequence_transform.Predicate.{
  EventPredicate, EventPredicateList, EventPredicateHandle, EventPredicateResult, Predicates,
  evpred_accept, evpred_conjunction, evpredres_accepted, evpredres_rejected, evpredres_disabled,
  event_predicate_apply, event_predicate_register, event_predicate_get_ptr, apply_aggregate,
  event_predicate_set_enabled, event_predicate_set_inverted,
}
use event_sequence_transform.Predicate.Registry.{Fits, event_predicate_register_lem}
use event_sequence_transform.Predicate.Termination.{IsAcyclic, event_predicate_apply_total}
use event_sequence_transform.Predicate.Aggregate.{apply_aggregate_lem}
use event_sequence_transform.Predicate.Flags.{set_flags_lem}
use event_sequence_transform.Event.{EventNode}
use event_sequence_transform.Routing.{ModifyPredicateGraphNode, modified}
use event_sequence_transform.Routing.Modify.{modified_lem}
use event_sequence_transform.Time.{
  absolute_time_cmp, Timespec, timespec_add, timespec_sub, timespec_assign_nanosecond,
  timespec_assign_millisecond,
}
use event_sequence_transform.Time.Sums.{
  total, IsNormal, timespec_add_lem, timespec_sub_lem, absolute_time_cmp-total,
}
use event_sequence_transform.Time.Assign.{
  assign_nanosecond_lem, assign_millisecond_lem, assign_nanosecond_negative_whole,
}

-- Blocks below 100 cells are given.
abbrev small_alloc : ℕ → Bool
small_alloc n = ltb n 100

small_alloc-bounded : (n : ℕ) → small_alloc n ≡ true → n < max_cells
small_alloc-bounded n h = omega (arith, ltb→lt n 100 h)

-- Full, and wrapped round the end of the array: 5, 6, 7.
abbrev wrapped : Queue ℕ
wrapped = record {
  capacity = 4;
  after_tail_idx = 1;
  head_idx = 2;
  values = some (7 ∷ 0 ∷ 5 ∷ 6 ∷ []);
}

wrapped-IsValid : IsValid wrapped
wrapped-IsValid = record {
  small = omega arith;
  head_in = omega arith;
  tail_in = omega arith;
  backed = (refl, omega arith);
}

queue_put_lem_example :
    PutResult 0 small_alloc wrapped 8 (queue_put 0 (λ _. 99) small_alloc wrapped 8)
queue_put_lem_example =
    queue_put_lem 0 (λ _. 99) small_alloc small_alloc-bounded wrapped 8 wrapped-IsValid

queue_try_pop_lem_example : PopResult 0 (5 ∷ 6 ∷ 7 ∷ []) (queue_try_pop 0 wrapped)
queue_try_pop_lem_example = queue_try_pop_lem 0 wrapped wrapped-IsValid

queue_deinit_lem_example :
    queue_deinit_with_destructor 0 4 true wrapped ≡ some (contents 0 wrapped, empty_queue)
queue_deinit_lem_example = queue_deinit_lem 0 4 wrapped wrapped-IsValid (omega arith)

abbrev one_byte : ModifierSet
one_byte = record { bits = 5 ∷ [] }

abbrev two_bytes : ModifierSet
two_bytes = record { bits = 4 ∷ 2 ∷ [] }

two_bytes-IsBytes : IsBytes two_bytes
two_bytes-IsBytes = record { byte_lt = λ i. small i }
  where
    small : (i : ℕ) → get_or two_bytes.bits i 0 < 2 ^ 8
    small zero = omega arith
    small (suc zero) = omega arith
    small (suc (suc i)) = omega arith

has-modifier_set_operation_from_example :
    modifier_set_has (modifier_set_operation_from small_alloc one_byte two_bytes modop_toggle) 9
    ≡ flag_after modop_toggle (modifier_set_has one_byte 9) (modifier_set_has two_bytes 9)
has-modifier_set_operation_from_example =
    has-modifier_set_operation_from small_alloc one_byte two_bytes modop_toggle 9 (λ _. refl)
      two_bytes-IsBytes

has-modifier_set_operation_example :
    modifier_set_has (modifier_set_operation small_alloc one_byte 12 modop_toggle) 12
    ≡ flag_after modop_toggle (modifier_set_has one_byte 12) true
has-modifier_set_operation_example =
    has-modifier_set_operation small_alloc one_byte 12 modop_toggle 12 refl

abbrev accept : EventPredicate
accept = record {
  type = evpred_accept;
  enabled = true;
  inverted = false;
  min_value = pos 0;
  max_value = pos 0;
  handles = none;
  single_modifier = 0;
}

abbrev conjunction : EventPredicate
conjunction = record accept { type = evpred_conjunction; handles = some (pos 0 ∷ negsuc 0 ∷ []) }

abbrev registry : EventPredicateList
registry = record { capacity = 1; values = accept ∷ [] }

abbrev both : Predicates
both = accept ∷ conjunction ∷ []

both-IsAcyclic : IsAcyclic 0 both
both-IsAcyclic = (tt, ((omega arith, (tt, tt)), tt))

event_predicate_apply_total_example :
    (r : EventPredicateResult) × (event_predicate_apply 3 both (pos 1) none ≡ some r)
event_predicate_apply_total_example = event_predicate_apply_total both none both-IsAcyclic (pos 1)

event_predicate_register_lem_example :
    (r : EventPredicateList) × (event_predicate_register small_alloc 2 registry conjunction
      ≡ some (pos 1, r))
    × Fits r
    × (event_predicate_get_ptr r.values (pos 1) ≡ some conjunction)
event_predicate_register_lem_example =
    event_predicate_register_lem small_alloc registry (omega arith) refl 0 conjunction (pos 1)
      (omega arith)

-- Handle 0 accepts, 1 rejects, the others are disabled.
abbrev answers : EventPredicateHandle → EventPredicateResult
answers (pos zero) = evpredres_accepted
answers (pos (suc zero)) = evpredres_rejected
answers _ = evpredres_disabled

abbrev arguments : List EventPredicateHandle
arguments = negsuc 0 ∷ pos 1 ∷ pos 0 ∷ []

apply_aggregate_lem_example : apply_aggregate (λ k. some (answers k)) true arguments ≡ some true
apply_aggregate_lem_example = apply_aggregate_lem answers true arguments

set_flags_lem_example :
    (event_predicate_get_ptr (event_predicate_set_enabled both (pos 1) false) (pos 1)
      ≡ some (record conjunction { enabled = false }))
    × (event_predicate_get_ptr (event_predicate_set_inverted both (pos 1) false) (pos 1)
        ≡ some (record conjunction { inverted = false }))
unfolding event_predicate_get_ptr
set_flags_lem_example = set_flags_lem both (pos 1) (pos 1) false

abbrev half : Timespec
half = record { tv_sec = pos 1; tv_nsec = pos 500000000 }

abbrev most : Timespec
most = record { tv_sec = pos 2; tv_nsec = pos 600000000 }

half-IsNormal : IsNormal half
unfolding ◌+ℤ◌
half-IsNormal = record { nonneg = omega arith; below_second = omega arith }

most-IsNormal : IsNormal most
unfolding ◌+ℤ◌
most-IsNormal = record { nonneg = omega arith; below_second = omega arith }

timespec_add_lem_example :
    (total (timespec_add half most) ≡ total half +ℤ total most) × IsNormal (timespec_add half most)
timespec_add_lem_example = timespec_add_lem half most half-IsNormal most-IsNormal

timespec_sub_lem_example :
    (total (timespec_sub half most) ≡ total half -ℤ total most) × IsNormal (timespec_sub half most)
timespec_sub_lem_example = timespec_sub_lem half most half-IsNormal most-IsNormal

absolute_time_cmp-total_example :
    ((absolute_time_cmp most half ≡ pos 1) × (total half +ℤ pos 1 ≤ℤ total most))
    ⊎ ((absolute_time_cmp most half ≡ negsuc 0) × (total most +ℤ pos 1 ≤ℤ total half))
    ⊎ ((absolute_time_cmp most half ≡ pos 0) × (total most ≡ total half))
absolute_time_cmp-total_example = absolute_time_cmp-total most half most-IsNormal half-IsNormal

assign_nanosecond_lem_example :
    (total (timespec_assign_nanosecond (negsuc 4)) ≡ negsuc 4)
    × (pos 0 ≤ℤ (timespec_assign_nanosecond (negsuc 4)).tv_nsec)
    × ((timespec_assign_nanosecond (negsuc 4)).tv_nsec ≤ℤ pos 1000000000)
assign_nanosecond_lem_example = assign_nanosecond_lem (negsuc 4)

assign_millisecond_lem_example :
    (total (timespec_assign_millisecond (negsuc 4)) ≡ negsuc 4 *ℤ pos 1000000)
    × (pos 0 ≤ℤ (timespec_assign_millisecond (negsuc 4)).tv_nsec)
    × ((timespec_assign_millisecond (negsuc 4)).tv_nsec ≤ℤ pos 1000000000)
assign_millisecond_lem_example = assign_millisecond_lem (negsuc 4)

assign_nanosecond_negative_whole_example :
    ¬ IsNormal (timespec_assign_nanosecond (negsuc 999999999))
assign_nanosecond_negative_whole_example = assign_nanosecond_negative_whole 0

abbrev modifying : ModifyPredicateGraphNode
modifying = record {
  target = pos 1;
  enable_on = negsuc 0;
  disable_on = pos 0;
  invert_on = pos 0;
  uninvert_on = negsuc 0;
}

abbrev event : EventNode
event = record {
  id = 0;
  position = none;
  input_index = 0;
  event_data = record {
    code = record { ns = 1; major = 1; minor = 30 };
    ttl = 10;
    priority = pos 0;
    payload = pos 1;
    modifiers = one_byte;
    time = half;
  };
}

modified_lem_example :
    (ps : Predicates) × (modified 3 modifying event both ≡ some ps)
    × (event_predicate_get_ptr ps (pos 0) ≡ event_predicate_get_ptr both (pos 0))
modified_lem_example = modified_lem modifying event both (pos 0) both-IsAcyclic refl
