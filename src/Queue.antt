-- ===== src/Queue.antt =====
-- queue.h and queue.c: a ring buffer that grows when it is full and keeps one slot unused.
-- A function that updates `*queue` returns the new queue. The union QueueValue is any type `A`
-- with its zero value, and what `reallocarray` leaves in the new cells is any function `junk`.
pub mod Inv
pub mod Refine
pub mod Grow
pub mod Loop
use event_sequence_transform.Prelude.{
  ℕ, zero, suc, ◌+◌, ◌-◌, ◌*◌, ◌/◌, ◌%◌, ◌^◌, Bool, true, false, Option, none, some, List, [], ◌∷◌,
  ◌++◌, leb, ltb, ◌==◌, if◌then◌else◌, get_or, set, take, drop, length, not, map,
}

-- `values` is `none` where the C pointer is NULL.
pub record Queue {ℓ} (A : Type ℓ) : Type ℓ where
  pub capacity : ℕ
  pub after_tail_idx : ℕ
  pub head_idx : ℕ
  pub values : Option (List A)

-- A result of `queue_put`: the index, the -1 of a failed allocation, or a failed `assert`.
pub data Put {ℓ} (A : Type ℓ) : Type ℓ where
  stored : ℕ → Queue A → Put A
  no_memory : Queue A → Put A
  aborted : Put A

abbrev pub size_mod : ℕ
size_mod = 2 ^ 64

-- Arithmetic of `size_t`.
abbrev pub add_size : ℕ → ℕ → ℕ
add_size a b = (a + b) % size_mod

abbrev pub sub_size : ℕ → ℕ → ℕ
sub_size a b = (a + size_mod - b) % size_mod

-- The capacity that `queue_grow` asks for.
pub grown_capacity : ℕ → ℕ
grown_capacity old = add_size (add_size old (old / 2)) 2

module _ {ℓ} {A : Type ℓ} where
  pub empty_queue : Queue A
  empty_queue = record { capacity = 0; after_tail_idx = 0; head_idx = 0; values = none }

  -- `n` is a `ssize_t`: from 2 ^ 63 on its bit pattern stands for a negative number.
  pub queue_length : Queue A → ℕ
  queue_length q =
      let n = sub_size q.after_tail_idx q.head_idx in
      if leb (2 ^ 63) n then add_size n q.capacity else n

  pub queue_is_empty : Queue A → Bool
  queue_is_empty q = q.head_idx == q.after_tail_idx

  pub queue_is_full : Queue A → Bool
  queue_is_full q =
      if q.capacity == 0 then true else add_size q.after_tail_idx 1 % q.capacity == q.head_idx

  -- `n` cells from index `i` on.
  abbrev pub cells : (ℕ → A) → ℕ → ℕ → List A
  cells f i zero = []
  cells f i (suc n) = f i ∷ cells f (i + 1) n

  -- `reallocarray` to `n` cells: the old cells, then unspecified ones.
  pub realloc_cells : (ℕ → A) → List A → ℕ → List A
  realloc_cells junk vs n = take n vs ++ cells junk (length vs) (n - length vs)

  -- `memmove` writes the block that it has read.
  pub write_block : List A → ℕ → List A → List A
  write_block vs i [] = vs
  write_block vs i (b ∷ bs) = write_block (set vs i b) (i + 1) bs

  pub move_cells : List A → ℕ → ℕ → ℕ → List A
  unfolding write_block
  move_cells vs target source count = write_block vs target (take count (drop source vs))

  -- `alloc n` says whether the allocation of `n` cells succeeds.
  module _ (zero_value : A) (junk : ℕ → A) (alloc : ℕ → Bool) where
    -- `none` is the result false, which leaves the queue as it was.
    pub queue_grow : Queue A → Option (Queue A)
    unfolding realloc_cells move_cells
    queue_grow q =
        let old_capacity = q.capacity in
        let new_capacity = grown_capacity old_capacity in
        if not (alloc new_capacity) then none else elim q.values [
          | none ↦ some (record q {
            values = some (cells (λ _. zero_value) 0 new_capacity);
            capacity = new_capacity;
          })
          | some vs ↦
              let ws = realloc_cells junk vs new_capacity in
              let shift = sub_size new_capacity old_capacity in
              let count = sub_size old_capacity q.head_idx in
              some (
                if ltb q.after_tail_idx q.head_idx
                then (record q {
                  values = some (move_cells ws (add_size q.head_idx shift) q.head_idx count);
                  head_idx = add_size q.head_idx shift;
                  capacity = new_capacity;
                })
                else (record q { values = some ws; capacity = new_capacity }))
        ]

    -- The part of `queue_put` behind the growth. A write through NULL is a fault too.
    pub put_value : Queue A → A → Put A
    put_value q v = if q.capacity == 0 then aborted else elim q.values [
      | none ↦ aborted
      | some vs ↦ stored q.after_tail_idx (record q {
        values = some (set vs q.after_tail_idx v);
        after_tail_idx = add_size q.after_tail_idx 1 % q.capacity;
      })
    ]

    pub queue_put : Queue A → A → Put A
    unfolding put_value queue_is_full
    queue_put q v =
        if queue_is_full q
        then (elim (queue_grow q) [
          | none ↦ no_memory q
          | some q' ↦ if queue_is_full q' then aborted else put_value q' v
        ])
        else put_value q v

  -- `none` is the result false. The value goes out through `*ret`; `zero_value` stands for a
  -- read out of bounds.
  module _ (zero_value : A) where
    pub queue_try_peek : Queue A → Option A
    unfolding queue_is_empty
    queue_try_peek q = if queue_is_empty q then none else elim q.values [
      | none ↦ some zero_value
      | some vs ↦ some (get_or vs q.head_idx zero_value)
    ]

    pub queue_try_pop : Queue A → Option (A × Queue A)
    unfolding queue_try_peek
    queue_try_pop q = elim (queue_try_peek q) [
      | none ↦ none
      | some v ↦ some (v, record q { head_idx = add_size q.head_idx 1 % q.capacity })
    ]

    -- `queue_pop` and `queue_peek`: ZERO_QUEUE_VALUE where the queue is empty.
    pub queue_pop : Queue A → A × Queue A
    unfolding queue_try_pop
    queue_pop q = elim (queue_try_pop q) [ none ↦ (zero_value, q) | some r ↦ r ]

    pub queue_peek : Queue A → A
    unfolding queue_try_peek
    queue_peek q = elim (queue_try_peek q) [ none ↦ zero_value | some v ↦ v ]

    -- QUEUE_FOREACH_INDEX on fuel: the indices that the loop visits, `none` if the fuel runs out.
    pub foreach_index : ℕ → ℕ → ℕ → ℕ → Option (List ℕ)
    foreach_index zero i after_tail capacity = none
    foreach_index (suc fuel) i after_tail capacity = elim (i == after_tail) [
      | true ↦ some []
      | false ↦ elim (foreach_index fuel (add_size i 1 % capacity) after_tail capacity) [
        | none ↦ none
        | some is ↦ some (i ∷ is)
      ]
    ]

    -- `queue_deinit_with_destructor`: the values that go to the destructor, in order, and what is
    -- left of the queue. `destructor` says whether one was given.
    pub queue_deinit_with_destructor : ℕ → Bool → Queue A → Option (List A × Queue A)
    unfolding foreach_index empty_queue
    queue_deinit_with_destructor fuel destructor q = elim q.values [
      | none ↦ some ([], empty_queue)
      | some vs ↦
          if destructor
          then (elim (foreach_index fuel q.head_idx q.after_tail_idx q.capacity) [
            | none ↦ none
            | some is ↦ some (map (λ i. get_or vs i zero_value) is, empty_queue)
          ])
          else some ([], empty_queue)
    ]
