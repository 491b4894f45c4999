-- ===== src/HashTable/Find.antt =====
-- `hash_table_find_impl` on a valid table.
use mathlib.Core.Path.{subst}
use event_sequence_transform.Prelude.{
  true-false, ℕ, ◌+◌, ◌<◌, ◌≡◌, ◌≢◌, true, false, Option, none, some, arith, refl, sym, ap, ◌∙◌,
  ◌==◌, Bool-cases, Option-cases, inl, inr, set, ◌⊎◌, get_elem?,
}
use event_sequence_transform.Prelude.Int.{ℤ, pos, negsuc}
use event_sequence_transform.HashTable.{
  HashTableKey, hash_table_key_from_bytes, HashTable, entry_at, initial_position,
  hash_table_key_equals, hash_table_find_impl, index_of,
}
use event_sequence_transform.HashTable.Keys.{IsKey, equals_of_IsKey}
use event_sequence_transform.HashTable.Search.{probe_at-lt, matches, is_free, find_from-some}
use event_sequence_transform.HashTable.Inv.{
  IsValid, reach, initial_position-lt, match-eq, free-no_match, absent, lookup, found, value_at,
}
use event_sequence_transform.HashTable.Insert.{bytes-IsKey}

-- The value behind an index of `hash_table_find`, if there is one.
abbrev pub value_behind {ℓ} : {V : Type ℓ} → HashTable V → ℤ → Option V
value_behind t (negsuc n) = none
value_behind t (pos i) = get_elem? t.value_array i

module _ {ℓ} {V : Type ℓ} (t : HashTable V) (valid : IsValid t) (key : HashTableKey)
    (made : IsKey key) where
  pub match-taken : (i : ℕ) → matches key t.key_array i ≡ true → is_free t.key_array i ≡ false
  match-taken i hit = elim (Bool-cases (is_free t.key_array i)) [
    | inr full ↦ full
    | inl free ↦ absurd (true-false (sym hit ∙ free-no_match key t.key_array i made free))
  ]

  -- What is found is a slot with the key.
  pub found_slot :
      (i : ℕ) → found t key ≡ some i → (i < t.capacity) × (matches key t.key_array i ≡ true)
  found_slot i there =
      let (o, within, at_i, m) =
        find_from-some key t.key_array t.capacity (reach t key + 1) (initial_position key t) i
          there in
      (
        subst (λ n. n < t.capacity) at_i
            (probe_at-lt t.capacity (initial_position key t) o
              (initial_position-lt key t valid.some_slot)),
        ap (matches key t.key_array) (sym at_i) ∙ m.here,
      )

  -- On a valid table, a search for a key made from bytes gives -1 when no slot holds the key, and
  -- the index of a slot that holds it otherwise.
  pub hash_table_find_impl_lem :
      ((hash_table_find_impl t key ≡ some (negsuc 0))
        × ((i : ℕ) → i < t.capacity → (entry_at t.key_array i).key ≢ key))
      ⊎ ((i : ℕ) × (hash_table_find_impl t key ≡ some (pos i))
          × (i < t.capacity)
          × ((entry_at t.key_array i).key ≡ key))
  unfolding hash_table_find_impl
  hash_table_find_impl_lem =
      let (bytes, set) = bytes-IsKey key made in
      let slots : (t.capacity == 0) ≡ false = (let p = valid.some_slot in ground arith) in
      elim (Option-cases (found t key)) [
        | inl gone ↦ inl (
          (rw (set, hash_table_find_impl, slots, gone) refl),
          λ i h same.
              let hit : matches key t.key_array i ≡ true =
                ap (hash_table_key_equals key) same ∙ (equals_of_IsKey key key made made).1 refl in
              true-false (sym hit ∙ absent t valid key made i gone h),
        )
        | inr (i, there) ↦
            let (inside, hit) = found_slot i there in
            inr (
              i,
              (rw (set, hash_table_find_impl, slots, there) refl),
              inside,
              sym ((match-eq t valid key made i inside (match-taken i hit)).0 hit),
            )
      ]

  -- The value behind the index that a search gives is the value that the table gives for the key.
  pub find-lookup :
      (o : Option V)
      → lookup t key ≡ o
      → (index : ℤ) × (hash_table_find_impl t key ≡ some index) × (value_behind t index ≡ o)
  unfolding hash_table_find_impl lookup
  find-lookup o e = (index_of (found t key), run (found t key) refl, behind (found t key) ∙ e)
    where
      run : (i : Option ℕ) → found t key ≡ i → hash_table_find_impl t key ≡ some (index_of i)
      run i same =
          let (bytes, set) = bytes-IsKey key made in
          let slots : (t.capacity == 0) ≡ false = (let p = valid.some_slot in ground arith) in
          rw (set, hash_table_find_impl, slots, same) refl

      behind : (i : Option ℕ) → value_behind t (index_of i) ≡ value_at t i
      behind none = refl
      behind (some i) = refl

-- A NULL name is not found.
pub find-unset {ℓ} :
    {V : Type ℓ} (t : HashTable V)
    → hash_table_find_impl t (hash_table_key_from_bytes none) ≡ some (negsuc 0)
unfolding hash_table_find_impl hash_table_key_from_bytes
find-unset t = refl
