-- ===== src/Predicate/Registry.antt =====
-- `event_predicate_register` against the registry as a function from handles to predicates.
use mathlib.Core.Path.{subst}
use native.Mathlib.Nat.{zero-add}
use event_sequence_transform.Prelude.{
  ℕ, suc, ◌+◌, ◌/◌, ◌≤◌, ◌<◌, ◌≡◌, Bool, true, false, Option, some, List, [], ◌∷◌, ◌++◌, arith,
  refl, ap, leb, length, get_elem?-snoc, length-append, if◌then◌else◌, ◌==◌, Bool-cases, inl, inr,
}
use event_sequence_transform.Prelude.Int.{pos, negsuc}
use event_sequence_transform.Predicate.{
  EventPredicate, EventPredicateList, EventPredicateHandle, int32_max, event_predicate_list_extend,
  extend_until, event_predicate_register, event_predicate_get_ptr,
}
use event_sequence_transform.Predicate.Termination.{IsAcyclic, ArgsBelow, HandleBelow}

-- The array has room for what is in it.
abbrev pub Fits : EventPredicateList → Type 0
Fits lst = length lst.values ≤ lst.capacity

abbrev pub is_handle : ℕ → EventPredicateHandle → Bool
is_handle n (pos h) = h == n
is_handle n (negsuc h) = false

get_ptr-snoc :
    (ps : List EventPredicate) (p : EventPredicate) (h : EventPredicateHandle)
    → event_predicate_get_ptr (ps ++ (p ∷ [])) h
      ≡ (if is_handle (length ps) h then some p else event_predicate_get_ptr ps h)
unfolding event_predicate_get_ptr
get_ptr-snoc ps p (pos h) = get_elem?-snoc ps p h
get_ptr-snoc ps p (negsuc h) = refl

IsAcyclic-snoc :
    (ps : List EventPredicate) (p : EventPredicate) (n : ℕ)
    → IsAcyclic n ps
    → ArgsBelow (n + length ps) p.handles
    → IsAcyclic n (ps ++ (p ∷ []))
IsAcyclic-snoc [] p n a args = (subst (λ k. ArgsBelow k p.handles) (omega arith) args, tt)
IsAcyclic-snoc (q ∷ ps) p n a args =
    (a.0, IsAcyclic-snoc ps p (n + 1) a.1 (subst (λ k. ArgsBelow k p.handles) (omega arith) args))

module _ (alloc : ℕ → Bool) (lst : EventPredicateList) (fits : Fits lst)
    (got : alloc (lst.capacity + lst.capacity / 2 + 1) ≡ true) where
  extended :
      event_predicate_list_extend alloc lst
      ≡ record lst { capacity = lst.capacity + lst.capacity / 2 + 1 }
  unfolding event_predicate_list_extend
  extended = rw got

  again :
      (fuel : ℕ)
      → leb lst.capacity (length lst.values) ≡ true
      → extend_until alloc (suc (suc fuel)) (length lst.values) lst
        ≡ some (record lst { capacity = lst.capacity + lst.capacity / 2 + 1 })
  unfolding extend_until
  again fuel full =
      let enough : leb (lst.capacity + lst.capacity / 2 + 1) (length lst.values) ≡ false =
        ground arith in
      rw (full, extend_until, extended, enough) (ap some extended)

  -- One extension is enough, so the loop needs two rounds of fuel.
  extend_once :
      (fuel : ℕ)
      → (r : EventPredicateList) × (extend_until alloc (suc (suc fuel)) (length lst.values) lst
          ≡ some r)
        × (r.values ≡ lst.values)
        × (length lst.values < r.capacity)
  unfolding extend_until event_predicate_list_extend
  extend_once fuel = elim (Bool-cases (leb lst.capacity (length lst.values))) [
    | inr room ↦ (lst, rw (room, extend_until), refl, ground arith)
    | inl full ↦ (
      record lst { capacity = lst.capacity + lst.capacity / 2 + 1 },
      again fuel full,
      refl,
      omega arith,
    )
  ]

  -- `event_predicate_register` ends with two rounds of fuel, if there is a handle left and the
  -- allocator gives the longer array. It gives the next handle, under which the new predicate is
  -- found; every other handle keeps what it had.
  pub event_predicate_register_lem :
      (fuel : ℕ) (p : EventPredicate) (h : EventPredicateHandle)
      → length lst.values < int32_max
      → (r : EventPredicateList) × (event_predicate_register alloc (suc (suc fuel)) lst p
          ≡ some (pos (length lst.values), r))
        × Fits r
        × (event_predicate_get_ptr r.values h ≡ (
            if is_handle (length lst.values) h
            then some p
            else event_predicate_get_ptr lst.values h))
  unfolding event_predicate_register
  event_predicate_register_lem fuel p h room =
      let (r, run, same, wide) = extend_once fuel in
      let small : leb int32_max (length lst.values) ≡ false = ground arith in
      (
        record r { values = r.values ++ (p ∷ []) },
        rw (small, event_predicate_register, run),
        rw same (omega (arith, length-append lst.values (p ∷ []))),
        rw same (get_ptr-snoc lst.values p h),
      )

  -- If there is a handle left and the allocator gives the longer array, an acyclic registry stays so
  -- when `event_predicate_register` adds a predicate whose arguments are in it.
  pub event_predicate_register-IsAcyclic :
      (fuel : ℕ) (p : EventPredicate)
      → length lst.values < int32_max
      → IsAcyclic 0 lst.values
      → ArgsBelow (length lst.values) p.handles
      → (r : EventPredicateList) × (event_predicate_register alloc (suc (suc fuel)) lst p
          ≡ some (pos (length lst.values), r))
        × IsAcyclic 0 r.values
  unfolding event_predicate_register
  event_predicate_register-IsAcyclic fuel p room acyclic args =
      let (r, run, same, wide) = extend_once fuel in
      let small : leb int32_max (length lst.values) ≡ false = ground arith in
      (
        record r { values = r.values ++ (p ∷ []) },
        rw (small, event_predicate_register, run),
        rw same (IsAcyclic-snoc lst.values p 0 acyclic (rw zero-add args)),
      )

-- A registry with room for what is in it and no cycle.
pub record IsGood (lst : EventPredicateList) : Type 0 where
  pub fits : Fits lst
  pub acyclic : IsAcyclic 0 lst.values

-- A run that gives a handle of the registry that it leaves, which is good and no shorter.
pub record Registered (lst : EventPredicateList)
    (result : Option (EventPredicateHandle × EventPredicateList)) : Type 0 where
  pub handle : EventPredicateHandle
  pub left : EventPredicateList
  pub run : result ≡ some (handle, left)
  pub good : IsGood left
  pub longer : length lst.values ≤ length left.values
  pub below : HandleBelow (length left.values) handle

pub event_predicate_register-Registered :
    (alloc : ℕ → Bool) (lst : EventPredicateList) (p : EventPredicate)
    → ((n : ℕ) → alloc n ≡ true)
    → IsGood lst
    → ArgsBelow (length lst.values) p.handles
    → Registered lst (event_predicate_register alloc 2 lst p)
unfolding event_predicate_register
event_predicate_register-Registered alloc lst p given good args =
    elim (Bool-cases (leb int32_max (length lst.values))) [
      | inl full ↦ record {
        handle = negsuc 0;
        left = lst;
        run = rw (full, event_predicate_register) refl;
        good = good;
        longer = omega arith;
        below = tt;
      }
      | inr small ↦
          let (r, run, same, wide) = extend_once alloc lst good.fits (given _) 0 in
          let one = length-append lst.values (p ∷ []) in
          record {
            handle = pos (length lst.values);
            left = record r { values = r.values ++ (p ∷ []) };
            run = rw (small, event_predicate_register, run) refl;
            good = record {
              fits = rw same (omega (arith, one));
              acyclic = rw same (IsAcyclic-snoc lst.values p 0 good.acyclic (rw zero-add args));
            };
            longer = rw same (omega (arith, one));
            below = rw same (omega (arith, one));
          }
    ]
