-- ===== src/HashTable/Delete.antt =====
-- The two deletions on a valid table.
use mathlib.Core.Path.{subst}
use event_sequence_transform.Prelude.{
  true-false, none-some, ℕ, ◌+◌, ◌-◌, ◌≤◌, ◌<◌, ◌≡◌, ◌≢◌, true, false, Option, none, some, List,
  arith, refl, sym, ap, ◌∙◌, ◌==◌, if◌then◌else◌, Bool-cases, Option-cases, inl, inr, length, set,
  length-set, get_elem?-get_or, get_elem?-behind, get_elem?, get_or, dec_lt, ◌⊎◌, ==_iff, not_same,
  ltb, ◌↔◌, ◌%◌, ◌^◌, get_elem?-set_ne,
}
use event_sequence_transform.Prelude.Int.{ℤ, pos, negsuc, pos_part, neg_part}
use event_sequence_transform.HashTable.{
  HashTableKey, HashTableKeyEntry, HashTable, entry_at, null_key, null_entry, initial_position,
  hash_table_key_equals, find_from, hash_table_delete_at_index_impl, hash_table_key_deinit_copied,
  hash_table_delete_by_key_impl,
}
use event_sequence_transform.HashTable.Keys.{IsKey, equals-unset}
use event_sequence_transform.HashTable.Search.{
  matches, is_free, is_unset, find_from-some, find_from-matches,
}
use event_sequence_transform.HashTable.Inv.{IsValid, Reachable, reach, lookup, found, value_at}
use event_sequence_transform.HashTable.Find.{hash_table_find_impl_lem}
use event_sequence_transform.HashTable.Put.{entry-keyed}
use event_sequence_transform.HashTable.Insert.{bytes-IsKey}

negsuc-pos : {n i : ℕ} → negsuc n ≡ pos i → ⊥
negsuc-pos e = let z = ap neg_part e in absurd (omega arith)

pos-injective : {i j : ℕ} → pos i ≡ pos j → i ≡ j
pos-injective e = ap pos_part e

module _ {ℓ} {V : Type ℓ} (zeroed : V) (t : HashTable V) where
  -- The cells of an index of a valid table.
  cells :
      IsValid t
      → (i : ℕ) → i < t.capacity
      → (get_elem? t.key_array i ≡ some (entry_at t.key_array i))
        × (get_elem? t.value_array i ≡ some (get_or t.value_array i zeroed))
  cells valid i inside = (
    get_elem?-get_or t.key_array i null_entry (omega (arith, valid.keys)),
    get_elem?-get_or t.value_array i zeroed (omega (arith, valid.values)),
  )

  within_cells :
      IsValid t
      → (i : ℕ) → i < t.capacity
      → hash_table_delete_at_index_impl zeroed (some t) (pos i) ≢ none
  unfolding hash_table_delete_at_index_impl
  within_cells valid i inside e =
      let upto : ltb t.capacity i ≡ false = ground arith in
      let (key_cell, value_cell) = cells valid i inside in
      elim (Option-cases (entry_at t.key_array i).key.bytes) [
        | inl unset ↦ none-some (sym (rw (upto, key_cell, unset) at e))
        | inr (bytes, full) ↦ none-some (sym (rw (upto, key_cell, full, value_cell) at e))
      ]

  -- The guard on the index lets through one index of a valid table for which neither array has a cell:
  -- the capacity. A deletion by index goes to such a cell just if it is given that index.
  pub delete_at_index-capacity :
      (index : ℤ)
      → IsValid t
      → (hash_table_delete_at_index_impl zeroed (some t) index ≡ none) ↔ (index ≡ pos t.capacity)
  unfolding hash_table_delete_at_index_impl
  delete_at_index-capacity (negsuc n) valid =
      ((λ e. absurd (none-some (sym e))), λ e. absurd (negsuc-pos e))
  delete_at_index-capacity (pos i) valid = elim (dec_lt i t.capacity) [
    | yes inside ↦ (
      (λ e. absurd (within_cells valid i inside e)),
      λ e. let same = pos-injective e in absurd (omega arith),
    )
    | no outside ↦ elim (Bool-cases (ltb t.capacity i)) [
      | inl beyond ↦
          let apart : i ≢ t.capacity = λ e. (ground arith) in
          rw beyond ((λ e. absurd (none-some (sym e))), λ e. absurd (apart (pos-injective e)))
      | inr upto ↦
          let gone = get_elem?-behind t.key_array i (omega (arith, valid.keys)) in
          let same : i ≡ t.capacity = ground arith in
          rw (upto, gone) ((λ e. ap pos same), λ e. refl)
    ]
  ]

bytes-full :
    (es : List HashTableKeyEntry) (i : ℕ)
    → is_free es i ≡ false
    → (bytes : List ℕ) × ((entry_at es i).key.bytes ≡ some bytes)
bytes-full es i full = elim (Option-cases (entry_at es i).key.bytes) [
  | inr set ↦ set
  | inl unset ↦
      let free : is_free es i ≡ true = rw (unset, is_unset) refl in
      absurd (true-false (sym free ∙ full))
]

-- What a deletion of the entry at an index leaves.
module _ {ℓ} {V : Type ℓ} (zeroed : V) (t : HashTable V) (valid : IsValid t) (i : ℕ)
    (inside : i < t.capacity) where
  abbrev deleted : HashTable V
  deleted = record t {
    key_array = set t.key_array i (record (entry_at t.key_array i) { key = null_key });
    value_array = set t.value_array i zeroed;
    length = (t.length + 2 ^ 64 - 1) % 2 ^ 64;
  }

  there : i < length t.key_array
  there = omega (arith, valid.keys)

  key_deleted :
      (j : ℕ)
      → (entry_at deleted.key_array j).key
        ≡ (if i == j then null_key else (entry_at t.key_array j).key)
  key_deleted j = (entry-keyed t.key_array i null_key there j).0

  same_reach : (k : HashTableKey) → reach deleted k ≡ reach t k
  unfolding initial_position
  same_reach k = (entry-keyed t.key_array i null_key there (initial_position k t)).1

  key_left : (j : ℕ) → is_free deleted.key_array j ≡ false → (i == j) ≡ false
  key_left j full = elim (Bool-cases (i == j)) [
    | inr apart ↦ apart
    | inl here ↦
        let free : is_free deleted.key_array j ≡ true =
          ap is_unset
            (key_deleted j ∙ ap (λ b. if b then null_key else (entry_at t.key_array j).key) here) in
        absurd (true-false (sym free ∙ full))
  ]

  key_kept :
      (j : ℕ) → (i == j) ≡ false → (entry_at deleted.key_array j).key ≡ (entry_at t.key_array j).key
  key_kept j apart = key_deleted j ∙ (rw apart refl)

  full_before : (j : ℕ) → is_free deleted.key_array j ≡ false → is_free t.key_array j ≡ false
  full_before j full = ap is_unset (sym (key_kept j (key_left j full))) ∙ full

  Reachable-before : (k : HashTableKey) (j : ℕ) → Reachable t k j → Reachable deleted k j
  unfolding initial_position
  Reachable-before k j r = record {
    offset = r.offset;
    within = subst (λ n. r.offset ≤ n) (sym (same_reach k)) r.within;
    at_index = r.at_index;
  }

  deleted-IsValid : IsValid deleted
  deleted-IsValid = record {
    some_slot = valid.some_slot;
    keys = length-set t.key_array i _ ∙ valid.keys;
    values = length-set t.value_array i zeroed ∙ valid.values;
    made = λ j h full.
        subst IsKey (sym (key_kept j (key_left j full))) (valid.made j h (full_before j full));
    reachable = λ j h full.
        subst (λ k. Reachable deleted k j) (sym (key_kept j (key_left j full)))
          (Reachable-before _ j (valid.reachable j h (full_before j full)));
  }

  module _ (k : HashTableKey) (made : IsKey k) (other : matches k t.key_array i ≡ false) where
    same_matches : (j : ℕ) → matches k deleted.key_array j ≡ matches k t.key_array j
    same_matches j = elim (Bool-cases (i == j)) [
      | inr apart ↦ ap (hash_table_key_equals k) (key_kept j apart)
      | inl here ↦
          let unset =
            key_deleted j ∙ ap (λ b. if b then null_key else (entry_at t.key_array j).key) here in
          ap (hash_table_key_equals k) unset
          ∙ equals-unset k null_key made refl
          ∙ sym (ap (matches k t.key_array) (sym ((==_iff i j).0 here)) ∙ other)
    ]

    same_found : found deleted k ≡ found t k
    unfolding initial_position
    same_found =
        ap (λ n. find_from k deleted.key_array t.capacity (n + 1) (initial_position k t))
          (same_reach k)
        ∙ find_from-matches k deleted.key_array t.key_array t.capacity (reach t k + 1)
            (initial_position k t) same_matches

    same_value : (o : Option ℕ) → found t k ≡ o → value_at deleted o ≡ value_at t o
    same_value none e = refl
    same_value (some j) e =
        let (o, within, at_j, m) =
          find_from-some k t.key_array t.capacity (reach t k + 1) (initial_position k t) j e in
        let hit : matches k t.key_array j ≡ true = ap (matches k t.key_array) (sym at_j) ∙ m.here in
        let apart : i ≢ j =
          λ same. true-false (sym hit ∙ ap (matches k t.key_array) (sym same) ∙ other) in
        get_elem?-set_ne t.value_array zeroed apart

    lookup-deleted : lookup deleted k ≡ lookup t k
    unfolding lookup
    lookup-deleted = ap (value_at deleted) same_found ∙ same_value (found t k) refl

  -- A deletion at the index of an entry of a valid table says that it deleted; the table that it leaves
  -- is valid, the slot is free, the other slots hold the keys that they held, and every key made from
  -- bytes but the deleted one has the value that it had.
  pub delete_at_index-lookup :
      is_free t.key_array i ≡ false
      → (t' : HashTable V) × (hash_table_delete_at_index_impl zeroed (some t) (pos i)
          ≡ some (true, some t'))
        × IsValid t'
        × (is_free t'.key_array i ≡ true)
        × ((j : ℕ) → i ≢ j → (entry_at t'.key_array j).key ≡ (entry_at t.key_array j).key)
        × ((k : HashTableKey)
            → IsKey k
            → hash_table_key_equals k (entry_at t.key_array i).key ≡ false
            → lookup t' k ≡ lookup t k)
  unfolding hash_table_delete_at_index_impl hash_table_key_deinit_copied
  delete_at_index-lookup full =
      let upto : ltb t.capacity i ≡ false = ground arith in
      let (bytes, set) = bytes-full t.key_array i full in
      let (key_cell, value_cell) = cells zeroed t valid i inside in
      (
        deleted,
        (rw (upto, key_cell, set, value_cell) refl),
        deleted-IsValid,
        ap is_unset (
            key_deleted i
            ∙ ap (λ b. if b then null_key else (entry_at t.key_array i).key) ((==_iff i i).1 refl)),
        λ j apart. key_kept j (not_same apart),
        lookup-deleted,
      )

-- On a valid table a deletion by a key made from bytes goes to no cell that the arrays do not have. Either
-- no slot holds the key, and the table stays as it is; or the table that is left is valid, one slot
-- that held the key is free, the other slots hold the keys that they held, and the keys made from bytes
-- that differ from the deleted one have the values that they had.
pub delete-lookup {ℓ} :
    {V : Type ℓ} (zeroed : V) (t : HashTable V) (key : HashTableKey)
    → IsValid t
    → IsKey key
    → ((hash_table_delete_by_key_impl zeroed t key ≡ some (false, some t))
        × ((i : ℕ) → i < t.capacity → (entry_at t.key_array i).key ≢ key))
      ⊎ ((t' : HashTable V) × (hash_table_delete_by_key_impl zeroed t key ≡ some (true, some t'))
          × IsValid t'
          × ((i : ℕ) × (i < t.capacity)
              × ((entry_at t.key_array i).key ≡ key)
              × (is_free t'.key_array i ≡ true)
              × ((j : ℕ) → i ≢ j → (entry_at t'.key_array j).key ≡ (entry_at t.key_array j).key))
          × ((k : HashTableKey)
              → IsKey k
              → hash_table_key_equals k key ≡ false
              → lookup t' k ≡ lookup t k))
unfolding hash_table_delete_by_key_impl hash_table_delete_at_index_impl
delete-lookup zeroed t key valid made = elim (hash_table_find_impl_lem t valid key made) [
  | inl (gone, absent_there) ↦ inl ((rw (hash_table_delete_by_key_impl, gone) refl), absent_there)
  | inr (i, at_i, inside, same) ↦
      let (bytes, set) = bytes-IsKey key made in
      let full : is_free t.key_array i ≡ false = ap is_unset same ∙ (rw (set, is_unset) refl) in
      let (t', run, valid', free, rest, others) =
        delete_at_index-lookup zeroed t valid i inside full in
      inr (
        t',
        (rw (hash_table_delete_by_key_impl, at_i) run),
        valid',
        (i, inside, same, free, rest),
        λ k k_made differs. others k k_made (ap (hash_table_key_equals k) same ∙ differs),
      )
]
