-- ===== src/HashTable/Sample.antt =====
-- A table with two entries, each at its base, after two insertions for each of its keys.
use event_sequence_transform.Prelude.{
  ℕ, zero, suc, ◌<◌, ◌≡◌, false, none, some, [], ◌∷◌, arith, refl, sym, ap, ◌∙◌, true-false, ◌==◌,
}
use event_sequence_transform.HashTable.{
  HashTableKey, HashTable, hash_table_key_from_bytes, null_entry, entry_at, initial_position,
  family_map, fnv_1a,
}
use event_sequence_transform.HashTable.Keys.{IsKey}
use event_sequence_transform.HashTable.Search.{is_free, is_unset, probe_at}
use event_sequence_transform.HashTable.Inv.{IsValid, Reachable}
use event_sequence_transform.HashTable.Replay.{IsDistinct}

abbrev pub first_key : HashTableKey
first_key = hash_table_key_from_bytes (some (97 ∷ 98 ∷ []))

abbrev pub second_key : HashTableKey
second_key = hash_table_key_from_bytes (some (99 ∷ []))

abbrev pub two_entries : HashTable ℕ
two_entries = record {
  value_array = 42 ∷ 7 ∷ 0 ∷ 0 ∷ 0 ∷ [];
  capacity = 5;
  length = 4;
  key_array =
      record { key = first_key; max_collision_offset = 0 }
      ∷ record { key = second_key; max_collision_offset = 0 }
      ∷ null_entry
      ∷ null_entry
      ∷ null_entry
      ∷ [];
  family_member = record { a = 1; b = 3 };
}

not_there : (i : ℕ) → is_free two_entries.key_array (suc (suc i)) ≡ false → ⊥
not_there zero h = true-false h
not_there (suc zero) h = true-false h
not_there (suc (suc zero)) h = true-false h
not_there (suc (suc (suc i))) h = true-false h

keys-IsKey :
    (i : ℕ)
    → i < 5
    → is_free two_entries.key_array i ≡ false
    → IsKey (entry_at two_entries.key_array i).key
keys-IsKey zero h full = (97 ∷ 98 ∷ [], refl)
keys-IsKey (suc zero) h full = (99 ∷ [], refl)
keys-IsKey (suc (suc i)) h full = absurd (not_there i full)

keys-Reachable :
    (i : ℕ)
    → i < 5
    → is_free two_entries.key_array i ≡ false
    → Reachable two_entries (entry_at two_entries.key_array i).key i
unfolding initial_position family_map probe_at hash_table_key_from_bytes fnv_1a
keys-Reachable zero h full = record { offset = 0; within = omega arith; at_index = refl }
keys-Reachable (suc zero) h full = record { offset = 0; within = omega arith; at_index = refl }
keys-Reachable (suc (suc i)) h full = absurd (not_there i full)

pub two_entries-IsValid : IsValid two_entries
two_entries-IsValid = record {
  some_slot = omega arith;
  keys = refl;
  values = refl;
  made = keys-IsKey;
  reachable = keys-Reachable;
}

first_byte : HashTableKey → ℕ
first_byte key = elim key.bytes [ none ↦ 0 | some bytes ↦ elim bytes [ [] ↦ 0 | b ∷ bs ↦ b ] ]

pub two_entries-IsDistinct : IsDistinct two_entries
unfolding IsDistinct first_byte hash_table_key_from_bytes
two_entries-IsDistinct zero zero h k full same = refl
two_entries-IsDistinct (suc zero) (suc zero) h k full same = refl
two_entries-IsDistinct zero (suc zero) h k full same =
    absurd (true-false (ap (λ key. first_byte key == 97) same))
two_entries-IsDistinct (suc zero) zero h k full same =
    absurd (true-false (ap (λ key. first_byte key == 99) same))
two_entries-IsDistinct zero (suc (suc j)) h k full same =
    absurd (not_there j (sym (ap is_unset same) ∙ full))
two_entries-IsDistinct (suc zero) (suc (suc j)) h k full same =
    absurd (not_there j (sym (ap is_unset same) ∙ full))
two_entries-IsDistinct (suc (suc i)) j h k full same = absurd (not_there i full)
