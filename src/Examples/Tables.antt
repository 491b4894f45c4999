-- ===== src/Examples/Tables.antt =====
-- Hash tables, configurations and rounds of the main loop for which the hypotheses of the properties
-- hold.
use event_sequence_transform.Prelude.{
  ℕ, ◌<◌, ◌≡◌, ◌≢◌, ◌⊎◌, ◌↔◌, Bool, true, false, none, some, [], ◌∷◌, arith, refl, if◌then◌else◌,
}
use event_sequence_transform.Prelude.Int.{pos, negsuc}
use event_sequence_transform.HashTable.{
  HashTableKey, HashTable, hash_table_key_from_bytes, hash_table_key_equals, hash_table_init_impl,
  hash_table_insert_impl, hash_table_find_impl, hash_table_delete_at_index_impl,
  hash_table_delete_by_key_impl, entry_at,
}
use event_sequence_transform.HashTable.Keys.{IsKey}
use event_sequence_transform.HashTable.Search.{is_free}
use event_sequence_transform.HashTable.Inv.{IsValid, lookup}
use event_sequence_transform.HashTable.Insert.{insert-lookup}
use event_sequence_transform.HashTable.Sound.{Sound}
use event_sequence_transform.HashTable.Grow.{hash_table_init_impl-Sound}
use event_sequence_transform.HashTable.Rebuild.{insert-lookup_grown}
use event_sequence_transform.HashTable.Sample.{
  two_entries, two_entries-IsValid, two_entries-IsDistinct,
}
use event_sequence_transform.HashTable.Find.{hash_table_find_impl_lem}
use event_sequence_transform.HashTable.Delete.{delete_at_index-capacity, delete-lookup}

abbrev always : ℕ → Bool
always n = true

abbrev drawn : HashTable ℕ → ℕ × ℕ
drawn t = (3, 4)

-- A new table, whose five slots are free.
abbrev new_table : HashTable ℕ
new_table = hash_table_init_impl 0 always (1, 2)

abbrev one_key : HashTableKey
one_key = hash_table_key_from_bytes (some (97 ∷ 98 ∷ []))

-- The values are below a hundred.
abbrev Small : HashTableKey → ℕ → Type 0
Small key v = v < 100

new_table-Sound : Sound Small new_table
new_table-Sound = hash_table_init_impl-Sound Small 0 always (1, 2) refl

one_key-IsKey : IsKey one_key
one_key-IsKey = (97 ∷ 98 ∷ [], refl)

insert-lookup_example :
    (i : ℕ) × (t' : HashTable ℕ) × (hash_table_insert_impl 0 always always drawn 1 new_table one_key
        42
      ≡ some (pos i, t'))
    × IsValid t'
    × (t'.length ≡ 1)
    × ((k : HashTableKey)
        → IsKey k
        → lookup t' k ≡ (if hash_table_key_equals k one_key then some 42 else lookup new_table k))
unfolding hash_table_init_impl
insert-lookup_example =
    insert-lookup 0 always always drawn (λ n. refl) 0 new_table one_key 42 0 new_table-Sound.valid
      one_key-IsKey (omega arith) (omega arith) (omega arith) refl

-- The table with one entry.
abbrev filled_table : HashTable ℕ
filled_table = insert-lookup_example.1

filled_table-IsValid : IsValid filled_table
filled_table-IsValid = insert-lookup_example.3

-- A third key, for which the table grows.
abbrev third_key : HashTableKey
third_key = hash_table_key_from_bytes (some (100 ∷ []))

insert-lookup_grown_example :
    (i : ℕ) × (t' : HashTable ℕ) × (hash_table_insert_impl 0 always always drawn 2 two_entries
        third_key 11
      ≡ some (pos i, t'))
    × IsValid t'
    × (t'.capacity ≡ 8)
    × (t'.length ≡ 5)
    × ((k : HashTableKey)
        → IsKey k
        → lookup t' k
          ≡ (if hash_table_key_equals k third_key then some 11 else lookup two_entries k))
insert-lookup_grown_example =
    insert-lookup_grown 0 always always drawn (λ n. refl) 0 two_entries third_key 11
      two_entries-IsValid two_entries-IsDistinct (100 ∷ [], refl) (omega arith) (omega arith)
      (omega arith) refl

hash_table_find_impl_lem_example :
    ((hash_table_find_impl filled_table one_key ≡ some (negsuc 0))
      × ((i : ℕ) → i < filled_table.capacity → (entry_at filled_table.key_array i).key ≢ one_key))
    ⊎ ((i : ℕ) × (hash_table_find_impl filled_table one_key ≡ some (pos i))
        × (i < filled_table.capacity)
        × ((entry_at filled_table.key_array i).key ≡ one_key))
hash_table_find_impl_lem_example =
    hash_table_find_impl_lem filled_table filled_table-IsValid one_key one_key-IsKey

delete_at_index-capacity_example :
    (hash_table_delete_at_index_impl 0 (some new_table) (pos 5) ≡ none)
    ↔ (pos 5 ≡ pos new_table.capacity)
delete_at_index-capacity_example =
    delete_at_index-capacity 0 new_table (pos 5) new_table-Sound.valid

delete-lookup_example :
    ((hash_table_delete_by_key_impl 0 filled_table one_key ≡ some (false, some filled_table))
      × ((i : ℕ) → i < filled_table.capacity → (entry_at filled_table.key_array i).key ≢ one_key))
    ⊎ ((t' : HashTable ℕ) × (hash_table_delete_by_key_impl 0 filled_table one_key
          ≡ some (true, some t'))
        × IsValid t'
        × ((i : ℕ) × (i < filled_table.capacity)
            × ((entry_at filled_table.key_array i).key ≡ one_key)
            × (is_free t'.key_array i ≡ true)
            × ((j : ℕ)
                → i ≢ j
                → (entry_at t'.key_array j).key ≡ (entry_at filled_table.key_array j).key))
        × ((k : HashTableKey)
            → IsKey k
            → hash_table_key_equals k one_key ≡ false
            → lookup t' k ≡ lookup filled_table k))
delete-lookup_example = delete-lookup 0 filled_table one_key filled_table-IsValid one_key-IsKey
