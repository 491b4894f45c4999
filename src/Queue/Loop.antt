-- ===== src/Queue/Loop.antt =====
-- `queue_try_pop`, the loop over the indices, and the release of a queue.
use mathlib.Core.Path.{subst}
use event_sequence_transform.Prelude.{
  ℕ, zero, suc, ◌%◌, ◌<◌, ◌≡◌, inl, inr, true, false, Option, none, some, List, [], ◌∷◌, arith,
  length, get_or, ◌==◌, Option-cases, refl, sym, ap, ap₂, tabulate, tabulate_congr, length-tabulate,
  map-tabulate,
}
use event_sequence_transform.Queue.{
  Queue, queue_is_empty, queue_try_pop, queue_try_peek, add_size, empty_queue, foreach_index,
  queue_deinit_with_destructor,
}
use event_sequence_transform.Queue.Inv.{IsValid}
use event_sequence_transform.Queue.Refine.{slot, count, contents, backed_some, add_one_mod}

-- What `queue_try_pop` promises of its result, for a queue that holds `xs`.
abbrev pub PopResult {ℓ} : {A : Type ℓ} → A → List A → Option (A × Queue A) → Type ℓ
PopResult z [] o = o ≡ none
PopResult {A} z (x ∷ xs) o = (r : Queue A) × (o ≡ some (x, r)) × IsValid r × (contents z r ≡ xs)

module _ {ℓ} {A : Type ℓ} (z : A) where
  module _ (q : Queue A) (valid : IsValid q) (vs : List A) (e : q.values ≡ some vs) where
    abbrev popped : Queue A
    popped = record q { head_idx = add_size q.head_idx 1 % q.capacity }

    peek_busy : queue_is_empty q ≡ false → queue_try_peek z q ≡ some (get_or vs q.head_idx z)
    unfolding queue_try_peek
    peek_busy busy = rw (busy, queue_try_peek, e)

    popped_lem :
        (n : ℕ)
        → count q ≡ suc n
        → (queue_try_pop z q ≡ some (get_or vs (slot q 0) z, popped))
          × IsValid popped
          × (contents z popped ≡ tabulate (λ i. get_or vs (slot q (suc i)) z) n)
    unfolding queue_try_pop queue_is_empty
    popped_lem n some_left =
        let bk = backed_some z q valid vs e in
        let next = add_one_mod q.head_idx q.capacity (omega arith) valid.small in
        let busy : queue_is_empty q ≡ false = ground arith in
        let peek : queue_try_peek z q ≡ some (get_or vs q.head_idx z) = peek_busy busy in
        let head : slot q 0 ≡ q.head_idx = ground arith in
        let fewer : count popped ≡ n = ground arith in
        let same = λ (i : ℕ) (p : i < n).
          let place : slot popped i ≡ slot q (suc i) = ground arith in
          ap (λ k. get_or vs k z) place in
        (
          rw (peek, queue_try_pop) (ap (λ k. some (get_or vs k z, popped)) (sym head)),
          record {
            small = valid.small;
            head_in = ground arith;
            tail_in = valid.tail_in;
            backed = valid.backed;
          },
          rw (e, fewer)
              (tabulate_congr (λ i. get_or vs (slot popped i) z) (λ i. get_or vs (slot q (suc i)) z)
                n same),
        )

    popped-count : (n : ℕ) → count q ≡ suc n → count popped ≡ n
    popped-count n some_left =
        let bk = backed_some z q valid vs e in
        let next = add_one_mod q.head_idx q.capacity (omega arith) valid.small in ground arith

    -- The loop from the head visits every place once, in order, with fuel for one more round.
    empty_stops :
        (fuel : ℕ)
        → count q ≡ 0
        → foreach_index z (suc fuel) q.head_idx q.after_tail_idx q.capacity ≡ some []
    unfolding foreach_index
    empty_stops fuel nothing =
        let bk = backed_some z q valid vs e in
        let stop : (q.head_idx == q.after_tail_idx) ≡ true = ground arith in
        rw (stop, foreach_index)

    next_round :
        (n fuel : ℕ)
        → count q ≡ suc n
        → foreach_index z fuel popped.head_idx popped.after_tail_idx popped.capacity
          ≡ some (tabulate (slot popped) n)
        → foreach_index z (suc fuel) q.head_idx q.after_tail_idx q.capacity
          ≡ some (tabulate (slot q) (suc n))
    unfolding foreach_index
    next_round n fuel more ih =
        let bk = backed_some z q valid vs e in
        let next = add_one_mod q.head_idx q.capacity (omega arith) valid.small in
        let go_on : (q.head_idx == q.after_tail_idx) ≡ false = ground arith in
        let head : slot q 0 ≡ q.head_idx = ground arith in
        let same = λ (i : ℕ) (p : i < n).
          let place : slot popped i ≡ slot q (suc i) = ground arith in place in
        let rest = tabulate_congr (slot popped) (λ i. slot q (suc i)) n same in
        rw (go_on, foreach_index, ih) (ap₂ (λ i is. some (i ∷ is)) (sym head) rest)

  -- The number of values that are left decides the branch.
  foreach_values :
      (n fuel : ℕ) (q : Queue A) (valid : IsValid q) (vs : List A) (e : q.values ≡ some vs)
      → count q ≡ n
      → n < fuel
      → foreach_index z fuel q.head_idx q.after_tail_idx q.capacity ≡ some (tabulate (slot q) n)
  foreach_values n zero q valid vs e c enough = absurd (omega arith)
  foreach_values zero (suc fuel) q valid vs e c enough = empty_stops q valid vs e fuel c
  foreach_values (suc n) (suc fuel) q valid vs e c enough =
      let (_, ok, _) = popped_lem q valid vs e n c in
      next_round q valid vs e n fuel c (
        foreach_values n fuel (popped q valid vs e) ok vs e (popped-count q valid vs e n c)
          (omega arith))

  -- On a valid queue, with fuel for one round more than there are values, the destructor gets the
  -- values in order, and the queue is left empty.
  pub queue_deinit_lem :
      (fuel : ℕ) (q : Queue A)
      → IsValid q
      → length (contents z q) < fuel
      → queue_deinit_with_destructor z fuel true q ≡ some (contents z q, empty_queue)
  unfolding queue_deinit_with_destructor
  queue_deinit_lem fuel q valid enough = elim (Option-cases q.values) [
    | inl e ↦ rw e
    | inr (vs, e) ↦
        let room = rw (e, length-tabulate) at enough in
        rw (e, foreach_values (count q) fuel q valid vs e refl room, map-tabulate)
  ]

  try_pop_cases :
      (n : ℕ) (q : Queue A) (valid : IsValid q) (vs : List A) (e : q.values ≡ some vs)
      → count q ≡ n
      → PopResult z (tabulate (λ i. get_or vs (slot q i) z) n) (queue_try_pop z q)
  unfolding queue_try_pop
  try_pop_cases zero q valid vs e c =
      let bk = backed_some z q valid vs e in
      let stop : queue_is_empty q ≡ true = ground arith in rw (stop, queue_try_pop)
  try_pop_cases (suc n) q valid vs e c =
      let (run, ok, rest) = popped_lem q valid vs e n c in (popped q valid vs e, run, ok, rest)

  try_pop_null : (q : Queue A) → IsValid q → q.values ≡ none → queue_try_pop z q ≡ none
  unfolding queue_try_pop
  try_pop_null q valid e =
      let bk : q.capacity ≡ 0 = rw e at valid.backed in
      let stop : queue_is_empty q ≡ true = ground arith in rw (stop, queue_try_pop)

  -- `queue_try_pop` on a valid queue gives the oldest value and leaves a valid queue of the others
  -- in order; with no value it fails.
  pub queue_try_pop_lem : (q : Queue A) → IsValid q → PopResult z (contents z q) (queue_try_pop z q)
  queue_try_pop_lem q valid = elim (Option-cases q.values) [
    | inl e ↦
        subst
          (λ vs.
            PopResult z
              (elim vs [ none ↦ [] | some us ↦ tabulate (λ i. get_or us (slot q i) z) (count q) ])
              (queue_try_pop z q))
          (sym e) (try_pop_null q valid e)
    | inr (vs, e) ↦
        subst
          (λ vs.
            PopResult z
              (elim vs [ none ↦ [] | some us ↦ tabulate (λ i. get_or us (slot q i) z) (count q) ])
              (queue_try_pop z q))
          (sym e) (try_pop_cases (count q) q valid vs e refl)
  ]
