-- ===== src/Config/Tables.antt =====
-- The hash tables of hash_table.c as the registries of config.c.
use mathlib.Core.Path.{subst}
use event_sequence_transform.Prelude.{
  none-some, ℕ, ◌≡◌, Bool, true, false, Option, none, some, refl, ap, ◌∙◌, inl, inr,
}
use event_sequence_transform.Prelude.Int.{ℤ, pos}
use event_sequence_transform.HashTable.{
  HashTableKey, HashTable, hash_table_key_from_bytes, hash_table_init_impl, hash_table_deinit_impl,
  hash_table_insert_impl, hash_table_find_impl,
}
use event_sequence_transform.HashTable.Search.{is_free, is_unset}
use event_sequence_transform.HashTable.Sound.{Sound}
use event_sequence_transform.HashTable.Grow.{insert_name-Sound, hash_table_init_impl-Sound}
use event_sequence_transform.HashTable.Insert.{bytes-IsKey}
use event_sequence_transform.HashTable.Find.{hash_table_find_impl_lem, find-unset, value_behind}
use event_sequence_transform.Config.{Registry, Text}
use event_sequence_transform.Config.Laws.{RegistryLaws}

-- What is found, if something is.
abbrev found_value : HashTable ℤ → Option ℤ → Option ℤ
found_value t none = none
found_value t (some index) = value_behind t index

module _ (alloc alloc_bytes : ℕ → Bool) (first : ℕ × ℕ) (draw : HashTable ℤ → ℕ × ℕ)
    (fuel : ℕ) where
  -- A table that an insertion does not give back within the fuel stays as it is: an outcome of this
  -- registry that the code does not have, where the insertion goes on.
  abbrev after_insert : HashTable ℤ → Option (ℤ × HashTable ℤ) → HashTable ℤ
  after_insert t none = t
  after_insert t (some (r, t')) = t'

  abbrev pub table_registry : Registry (HashTable ℤ)
  table_registry = record {
    init = hash_table_init_impl (pos 0) alloc first;
    insert = λ t key value.
        after_insert t (hash_table_insert_impl (pos 0) alloc alloc_bytes draw fuel t key value);
    deinit = hash_table_deinit_impl;
    find = λ t key. found_value t (hash_table_find_impl t key);
  }

  module _ (given : alloc 5 ≡ true) (copies : (n : ℕ) → alloc_bytes n ≡ true) where
    insert_holds :
        (P : HashTableKey → ℤ → Type 0) (t : HashTable ℤ) (name : Option Text) (v : ℤ)
        → P (hash_table_key_from_bytes name) v
        → Sound P t
        → Sound P (table_registry.insert t (hash_table_key_from_bytes name) v)
    insert_holds P t name v holds sound =
        go
          (hash_table_insert_impl (pos 0) alloc alloc_bytes draw fuel t
            (hash_table_key_from_bytes name) v)
          refl
      where
        go :
            (o : Option (ℤ × HashTable ℤ))
            → hash_table_insert_impl
                (pos 0)
                alloc
                alloc_bytes
                draw
                fuel
                t
                (hash_table_key_from_bytes name)
                v
              ≡ o
            → Sound P (after_insert t o)
        go none e = sound
        go (some (r, t')) e =
            insert_name-Sound P (pos 0) alloc alloc_bytes draw fuel t name v r t' copies sound holds
              e

    find_holds :
        (P : HashTableKey → ℤ → Type 0) (t : HashTable ℤ) (name : Option Text) (v : ℤ)
        → Sound P t
        → table_registry.find t (hash_table_key_from_bytes name) ≡ some v
        → P (hash_table_key_from_bytes name) v
    find_holds P t none v sound e = let gone = find-unset t in absurd (none-some (rw gone at e))
    find_holds P t (some bytes) v sound e =
        elim (hash_table_find_impl_lem t sound.valid (hash_table_key_from_bytes (some bytes))
          (bytes, refl)) [
            | inl (gone, absent_there) ↦ absurd (none-some (rw gone at e))
            | inr (i, at_i, inside, same) ↦
                let (b, set) = bytes-IsKey (hash_table_key_from_bytes (some bytes)) (bytes, refl) in
                let full : is_free t.key_array i ≡ false =
                  ap is_unset same ∙ (rw (set, is_unset) refl) in
                subst (λ key. P key v) same (sound.all i v full (rw at_i at e))
          ]

    -- A hash table keeps what config.c relies on.
    pub table_registry_laws : RegistryLaws table_registry
    table_registry_laws = record {
      Holds = Sound;
      holds_init = λ P. hash_table_init_impl-Sound P (pos 0) alloc first given;
      holds_insert = insert_holds;
      holds_find = find_holds;
      holds_weaken = λ P Q t weaker sound. record {
        valid = sound.valid;
        all = λ i v full there. weaker _ v (sound.all i v full there);
      };
    }
