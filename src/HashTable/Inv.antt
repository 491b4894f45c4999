-- ===== src/HashTable/Inv.antt =====
-- The invariant of a table, and what `hash_table_find_impl` finds in a valid one.
use native.Mathlib.Nat.{mod-lt}
use mathlib.Core.Path.{subst}
use event_sequence_transform.Prelude.{
  ℕ, ◌+◌, ◌≤◌, ◌<◌, ◌≡◌, true, false, Option, none, some, List, arith, refl, sym, ap, ◌∙◌,
  Bool-cases, Option-cases, inl, inr, length, get_elem?, ◌↔◌,
}
use event_sequence_transform.HashTable.{
  HashTableKey, HashTableKeyEntry, HashTable, entry_at, find_from, initial_position,
}
use event_sequence_transform.HashTable.Keys.{IsKey, equals_of_IsKey, equals-unset}
use event_sequence_transform.HashTable.Search.{probe_at, matches, is_free, is_unset, none-find_from}

pub unset_of_free :
    (es : List HashTableKeyEntry) (i : ℕ) → is_free es i ≡ true → (entry_at es i).key.bytes ≡ none
unset_of_free es i free = elim (Option-cases (entry_at es i).key.bytes) [
  | inl unset ↦ unset
  | inr (bytes, full) ↦ let bad : is_free es i ≡ false = rw (full, is_unset) refl in cc
]

-- A free slot matches no key.
pub free-no_match :
    (key : HashTableKey) (es : List HashTableKeyEntry) (i : ℕ)
    → IsKey key
    → is_free es i ≡ true
    → matches key es i ≡ false
free-no_match key es i made free = equals-unset key _ made (unset_of_free es i free)

module _ {ℓ} {V : Type ℓ} where
  -- `max_collision_offset` of the base of a key.
  abbrev pub reach : HashTable V → HashTableKey → ℕ
  reach t key = (entry_at t.key_array (initial_position key t)).max_collision_offset

  -- The key is at the index, within the offsets that a search for it goes through.
  pub record Reachable (t : HashTable V) (key : HashTableKey) (i : ℕ) : Type 0 where
    pub offset : ℕ
    pub within : offset ≤ reach t key
    pub at_index : probe_at t.capacity (initial_position key t) offset ≡ i

  pub record IsValid (t : HashTable V) : Type 0 where
    pub some_slot : 0 < t.capacity
    pub keys : length t.key_array ≡ t.capacity
    pub values : length t.value_array ≡ t.capacity
    pub made :
        (i : ℕ)
        → i < t.capacity
        → is_free t.key_array i ≡ false
        → IsKey (entry_at t.key_array i).key
    pub reachable :
        (i : ℕ)
        → i < t.capacity
        → is_free t.key_array i ≡ false
        → Reachable t (entry_at t.key_array i).key i

  pub initial_position-lt :
      (key : HashTableKey) (t : HashTable V) → 0 < t.capacity → initial_position key t < t.capacity
  unfolding initial_position
  initial_position-lt key t h = mod-lt _ h

  -- The index that a search for the key finds, in a table with a slot.
  abbrev pub found : HashTable V → HashTableKey → Option ℕ
  found t key = find_from key t.key_array t.capacity (reach t key + 1) (initial_position key t)

  abbrev pub value_at : HashTable V → Option ℕ → Option V
  value_at t none = none
  value_at t (some i) = get_elem? t.value_array i

  -- The table as a map: the value that is found.
  unfoldable pub lookup : HashTable V → HashTableKey → Option V
  lookup t key = value_at t (found t key)

  module _ (t : HashTable V) (valid : IsValid t) (key : HashTableKey) (made : IsKey key) where
    -- The slot that holds the key matches, and no other.
    pub match-eq :
        (i : ℕ)
        → i < t.capacity
        → is_free t.key_array i ≡ false
        → (matches key t.key_array i ≡ true) ↔ (key ≡ (entry_at t.key_array i).key)
    match-eq i h full = equals_of_IsKey key _ made (valid.made i h full)

    -- Where a search finds nothing, no slot holds the key.
    pub absent :
        (i : ℕ)
        → find_from key t.key_array t.capacity (reach t key + 1) (initial_position key t) ≡ none
        → i < t.capacity
        → matches key t.key_array i ≡ false
    absent i e h = elim (Bool-cases (is_free t.key_array i)) [
      | inl free ↦ free-no_match key t.key_array i made free
      | inr full ↦ elim (Bool-cases (matches key t.key_array i)) [
        | inr miss ↦ miss
        | inl hit ↦
            let same = (match-eq i h full).0 hit in
            let r : Reachable t key i =
              subst (λ k. Reachable t k i) (sym same) (valid.reachable i h full) in
            let miss =
              none-find_from key t.key_array t.capacity (reach t key + 1) (initial_position key t)
                r.offset e (omega (arith, r.within)) in
            ap (matches key t.key_array) (sym r.at_index) ∙ miss
      ]
    ]
