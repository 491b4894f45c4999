-- ===== src/HashTable/Rebuild.antt =====
-- `hash_table_grow` and the insertion behind it, on tables that store no key twice.
use event_sequence_transform.Prelude.{
  true-false, ℕ, suc, ◌+◌, ◌/◌, ◌≤◌, ◌<◌, ◌≡◌, ◌≢◌, Bool, true, false, Option, none, some, List, [],
  ◌∷◌, arith, refl, sym, ap, ◌∙◌, ◌==◌, if◌then◌else◌, inl, inr, leb, length, Option-cases,
  not_same,
}
use event_sequence_transform.Prelude.Int.{ℤ, pos}
use event_sequence_transform.HashTable.{
  HashTableKey, HashTableKeyEntry, HashTable, hash_table_key_equals, entry_at, put_key,
  insert_grown, hash_table_insert_impl, refill, hash_table_grow, create_table,
}
use event_sequence_transform.HashTable.Keys.{IsKey}
use event_sequence_transform.HashTable.Search.{is_free, is_unset}
use event_sequence_transform.HashTable.Inv.{IsValid, lookup, found, value_at}
use event_sequence_transform.HashTable.Insert.{Inserted, insert_grown-Inserted, bytes-IsKey}
use event_sequence_transform.HashTable.Sound.{create_table_lem}
use event_sequence_transform.HashTable.Find.{found_slot, match-taken}
use event_sequence_transform.HashTable.Replay.{
  used, used-none, used-room, used-one_more, replay, IsDistinct, replay-lookup,
}

-- A table that is filled up to a number of slots.
record Filled {ℓ} {V : Type ℓ} (capacity n : ℕ) (t : HashTable V) : Type ℓ where
  valid : IsValid t
  same_capacity : t.capacity ≡ capacity
  few_inserted : t.length ≤ n
  few_used : used (is_free t.key_array) capacity ≤ n

Filled-more {ℓ} :
    {V : Type ℓ} {capacity n m : ℕ} {t : HashTable V}
    → Filled capacity n t
    → n ≤ m
    → Filled capacity m t
Filled-more filled h = record {
  valid = filled.valid;
  same_capacity = filled.same_capacity;
  few_inserted = omega (arith, filled.few_inserted);
  few_used = omega (arith, filled.few_used);
}

module _ {ℓ} {V : Type ℓ} (zeroed : V) (alloc alloc_bytes : ℕ → Bool) (draw : HashTable V → ℕ × ℕ)
    (copies : (n : ℕ) → alloc_bytes n ≡ true) where
  abbrev insert_at : ℕ → HashTable V → HashTableKey → V → Option (ℤ × HashTable V)
  insert_at = hash_table_insert_impl zeroed alloc alloc_bytes draw

  -- In a small table that is not full, what comes after the growth needs no other hash function.
  insert_grown-Filled :
      (insert : HashTable V → HashTableKey → V → Option (ℤ × HashTable V)) (t : HashTable V)
      (key : HashTableKey) (value : V) (count capacity n : ℕ)
      → Filled capacity n t
      → IsKey key
      → capacity ≤ 8
      → n < capacity
      → count < capacity
      → (r : Inserted alloc_bytes t key value count (put_key alloc_bytes t key value count))
        × (insert_grown zeroed alloc alloc_bytes draw insert t key value count
            ≡ some (pos r.i, r.t'))
  insert_grown-Filled insert t key value count capacity n filled made small room short =
      let same = filled.same_capacity in
      let (j, below, free) =
        used-room (is_free t.key_array) capacity (omega (arith, filled.few_used)) in
      insert_grown-Inserted zeroed alloc alloc_bytes draw copies insert t key value count j
        filled.valid made (omega arith) (omega arith) (omega arith) free

  -- A slot more is filled after it.
  Inserted-Filled :
      (t : HashTable V) (key : HashTableKey) (value : V) (count capacity n : ℕ)
      (o : Option (ℕ × Bool × HashTable V))
      → Filled capacity n t
      → count ≤ n
      → (r : Inserted alloc_bytes t key value count o) → Filled capacity (n + 1) r.t'
  Inserted-Filled t key value count capacity n o filled short r =
      let w = r.written in
      let skipped : (j : ℕ)
          → r.i ≢ j
          → (if r.i == j then key else (entry_at t.key_array j).key)
            ≡ (entry_at t.key_array j).key =
        λ j apart. (rw (not_same apart) refl) in
      let kept : (j : ℕ) → r.i ≢ j → is_free r.t'.key_array j ≡ is_free t.key_array j =
        λ j apart. ap is_unset (w.new_keys j ∙ skipped j apart) in
      let more =
        (used-one_more (is_free t.key_array) (is_free r.t'.key_array) r.i capacity kept).0 in
      record {
        valid = r.still_valid;
        same_capacity = r.capacity_kept ∙ filled.same_capacity;
        few_inserted = omega (arith, r.length_next);
        few_used = omega (arith, filled.few_used);
      }

  module _ (fuel capacity top : ℕ) (small : capacity ≤ 8)
      (room : (m : ℕ) → m < top → m + m / 2 < capacity) where
    -- An insertion that does not grow.
    insert-Filled :
        (t : HashTable V) (key : HashTableKey) (value : V) (n : ℕ)
        → Filled capacity n t
        → IsKey key
        → n < top
        → (i : ℕ) × (t' : HashTable V) × (insert_at (suc fuel) t key value ≡ some (pos i, t'))
          × Filled capacity (n + 1) t'
          × ((k : HashTableKey)
              → IsKey k
              → lookup t' k ≡ (if hash_table_key_equals k key then some value else lookup t k))
    unfolding hash_table_insert_impl
    insert-Filled t key value n filled made below =
        let same = filled.same_capacity in
        let few = filled.few_inserted in
        let now = room n below in
        let (r, grown) =
          insert_grown-Filled (insert_at fuel) t key value t.length capacity n filled made small
            (omega arith) (omega arith) in
        let roomy : leb t.capacity (t.length + t.length / 2) ≡ false = ground arith in
        let (bytes, set) = bytes-IsKey key made in
        (
          r.i,
          r.t',
          (rw (set, hash_table_insert_impl, roomy) grown),
          Inserted-Filled t key value t.length capacity n _ filled few r,
          r.updated,
        )

    -- The table that the old entries are put into gets all of them.
    refill-Filled :
        (es : List HashTableKeyEntry) (vs : List V) (t : HashTable V) (n : ℕ)
        → ((j : ℕ) → j < length es → is_free es j ≡ false → IsKey (entry_at es j).key)
        → Filled capacity n t
        → n + length es ≤ top
        → (t' : HashTable V) × (refill (insert_at (suc fuel)) es vs t ≡ some (some t'))
          × Filled capacity top t'
          × ((k : HashTableKey) → IsKey k → lookup t' k ≡ replay k es vs (lookup t k))
    unfolding refill replay
    refill-Filled [] vs t n keys filled fits =
        (t, refl, Filled-more filled (omega arith), λ k made. refl)
    refill-Filled (x ∷ es) [] t n keys filled fits =
        (t, refl, Filled-more filled (omega arith), λ k made. refl)
    refill-Filled (x ∷ es) (v ∷ vs) t n keys filled fits =
        let tail : (j : ℕ) → j < length es → is_free es j ≡ false → IsKey (entry_at es j).key =
          λ j h full. keys (suc j) (omega arith) full in
        elim (Option-cases x.key.bytes) [
          | inl free ↦
              let (t', run, filled', same) = refill-Filled es vs t n tail filled (omega arith) in
              (t', (rw (free, refill) run), filled', λ k made. (rw (free, replay) (same k made)))
          | inr (bytes, set) ↦
              let full : is_free (x ∷ es) 0 ≡ false = rw (set, is_unset) refl in
              let (i, next, put, filled', put_there) =
                insert-Filled t x.key v n filled (keys 0 (omega arith) full) (omega arith) in
              let (t', run, filled'', same) =
                refill-Filled es vs next (n + 1) tail filled' (omega arith) in
              (
                t',
                (rw (set, refill, put) run),
                filled'',
                λ k made. (rw (set, replay) (same k made ∙ ap (replay k es vs) (put_there k made))),
              )
        ]

  -- A new table has no value for any key.
  lookup-free :
      (t : HashTable V)
      → IsValid t
      → ((j : ℕ) → is_free t.key_array j ≡ true)
      → (k : HashTableKey) → IsKey k
      → lookup t k ≡ none
  unfolding lookup
  lookup-free t valid free k made = elim (Option-cases (found t k)) [
    | inl nothing ↦ ap (value_at t) nothing
    | inr (i, at_i) ↦
        let full = match-taken t valid k made i (found_slot t valid k made i at_i).1 in
        absurd (true-false (sym (free i) ∙ full))
  ]

  abbrev pub grown_capacity : HashTable V → ℕ
  grown_capacity t = t.capacity + (t.capacity / 2 + 1)

  grow-refilled :
      (insert : HashTable V → HashTableKey → V → Option (ℤ × HashTable V)) (t t' : HashTable V)
      → ((create_table zeroed alloc (grown_capacity t) t.family_member).capacity == 0) ≡ false
      → refill insert t.key_array t.value_array
          (create_table zeroed alloc (grown_capacity t) t.family_member)
        ≡ some (some t')
      → hash_table_grow zeroed alloc insert t ≡ some t'
  unfolding hash_table_grow
  grow-refilled insert t t' slots run = rw (slots, run) refl

  -- The growth of a small table keeps the map.
  grow-lookup :
      (fuel : ℕ) (t : HashTable V)
      → IsValid t
      → IsDistinct t
      → t.capacity ≤ 5
      → alloc (grown_capacity t) ≡ true
      → (t' : HashTable V) × (hash_table_grow zeroed alloc (insert_at (suc fuel)) t ≡ some t')
        × Filled (grown_capacity t) t.capacity t'
        × ((k : HashTableKey) → IsKey k → lookup t' k ≡ lookup t k)
  unfolding create_table
  grow-lookup fuel t valid distinct small given =
      let capacity = grown_capacity t in
      let new = create_table zeroed alloc capacity t.family_member in
      let size : new.capacity ≡ capacity = rw given refl in
      let empty : new.length ≡ 0 = rw given refl in
      elim (create_table_lem zeroed alloc capacity t.family_member) [
        | inl no_slot ↦ absurd (omega arith)
        | inr (new_valid, free) ↦
            let none_used = used-none (is_free new.key_array) capacity free in
            let start : Filled capacity 0 new = record {
              valid = new_valid;
              same_capacity = size;
              few_inserted = omega arith;
              few_used = omega arith;
            } in
            let (t', run, filled, same) =
              refill-Filled fuel capacity t.capacity (omega arith) (λ m h. omega arith) t.key_array
                t.value_array new 0 (λ j h full. valid.made j (omega (arith, valid.keys)) full)
                start (omega (arith, valid.keys)) in
            let slots : (new.capacity == 0) ≡ false = ground arith in
            (
              t',
              grow-refilled (insert_at (suc fuel)) t t' slots run,
              filled,
              λ k made.
                  same k made
                  ∙ ap (replay k t.key_array t.value_array) (lookup-free new new_valid free k made)
                  ∙ replay-lookup t k valid distinct made,
            )
      ]

  -- A valid table of at most 5 slots that stores no key twice, that is filled to at least two thirds by
  -- the count of its insertions, though not to the capacity that it grows to, grows with an insertion
  -- of a key made from bytes, given memory for the larger arrays and for the copies of the keys. The
  -- insertion returns an index and leaves a valid table of the larger capacity, with one added to
  -- the length from before, which gives the new value for the key, and for every other key made from
  -- bytes what the old one gave.
  pub insert-lookup_grown :
      (fuel : ℕ) (t : HashTable V) (key : HashTableKey) (value : V)
      → IsValid t
      → IsDistinct t
      → IsKey key
      → t.capacity ≤ 5
      → t.capacity ≤ t.length + t.length / 2
      → t.length < grown_capacity t
      → alloc (grown_capacity t) ≡ true
      → (i : ℕ) × (t' : HashTable V) × (hash_table_insert_impl zeroed alloc alloc_bytes draw
            (suc (suc fuel))
            t
            key
            value
          ≡ some (pos i, t'))
        × IsValid t'
        × (t'.capacity ≡ grown_capacity t)
        × (t'.length ≡ t.length + 1)
        × ((k : HashTableKey)
            → IsKey k
            → lookup t' k ≡ (if hash_table_key_equals k key then some value else lookup t k))
  unfolding hash_table_insert_impl
  insert-lookup_grown fuel t key value valid distinct made small full short given =
      let (t₁, grown, filled, same) = grow-lookup fuel t valid distinct small given in
      let (r, run) =
        insert_grown-Filled (insert_at (suc fuel)) t₁ key value t.length (grown_capacity t)
          t.capacity filled made (omega arith) (omega arith) short in
      let tight : leb t.capacity (t.length + t.length / 2) ≡ true = ground arith in
      let (bytes, set) = bytes-IsKey key made in
      (
        r.i,
        r.t',
        (rw (set, hash_table_insert_impl, tight, grown) run),
        r.still_valid,
        r.capacity_kept ∙ filled.same_capacity,
        r.length_next,
        λ k k_made.
            r.updated k k_made
            ∙ ap (λ o. if hash_table_key_equals k key then some value else o) (same k k_made),
      )
