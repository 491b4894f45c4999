-- ===== src/HashTable/Search/Cover.antt =====
-- The indices that linear probing goes through.
use native.Mathlib.Nat.{mod-eq_of_lt, mod_self}
use event_sequence_transform.Prelude.{
  ℕ, zero, suc, ◌+◌, ◌-◌, ◌≤◌, ◌<◌, ◌≡◌, arith, ap, ◌∙◌, Bool-cases, inl, inr, ◌%◌, leb,
}
use event_sequence_transform.HashTable.{probe_next}
use event_sequence_transform.HashTable.Search.{probe_at}

-- The indices that are not reached before the end of the arrays.
probe_at-below :
    (capacity i offset : ℕ) → i + offset < capacity → probe_at capacity i offset ≡ i + offset
unfolding probe_at probe_next
probe_at-below capacity i zero h = omega arith
probe_at-below capacity i (suc offset) h =
    let next : probe_next i capacity ≡ i + 1 = mod-eq_of_lt (omega arith) in
    ap (λ n. probe_at capacity n offset) next
    ∙ probe_at-below capacity (i + 1) offset (omega arith)
    ∙ omega arith

probe_at-add :
    (capacity i a b : ℕ) → probe_at capacity i (a + b) ≡ probe_at capacity (probe_at capacity i a) b
unfolding probe_at
probe_at-add capacity i zero b = let e : 0 + b ≡ b = omega arith in ap (probe_at capacity i) e
probe_at-add capacity i (suc a) b =
    let e : suc a + b ≡ suc (a + b) = omega arith in
    ap (probe_at capacity i) e ∙ probe_at-add capacity (probe_next i capacity) a b

-- From the last index on.
from_last : (capacity j : ℕ) → j < capacity → probe_at capacity (capacity - 1) (suc j) ≡ j
unfolding probe_at probe_next
from_last capacity j h =
    let whole : capacity - 1 + 1 ≡ capacity = omega arith in
    let wrap : probe_next (capacity - 1) capacity ≡ 0 =
      ap (λ m. m % capacity) whole ∙ mod_self capacity in
    ap (λ p. probe_at capacity p j) wrap ∙ probe_at-below capacity 0 j (omega arith) ∙ omega arith

-- Every index is reached within as many rounds as there are slots.
pub covered :
    (capacity i j : ℕ)
    → i < capacity
    → j < capacity
    → (offset : ℕ) × (offset < capacity) × (probe_at capacity i offset ≡ j)
covered capacity i j hi hj = elim (Bool-cases (leb i j)) [
  | inl below ↦
      let le : i ≤ j = ground arith in
      (j - i, omega arith, probe_at-below capacity i (j - i) (omega arith) ∙ omega arith)
  | inr above ↦
      let gt : j < i = ground arith in
      let rest = capacity - i - 1 in
      let last : probe_at capacity i rest ≡ capacity - 1 =
        probe_at-below capacity i rest (omega arith) ∙ omega arith in
      (
        rest + suc j,
        omega arith,
        probe_at-add capacity i rest (suc j)
            ∙ ap (λ p. probe_at capacity p (suc j)) last
            ∙ from_last capacity j (omega arith),
      )
]
