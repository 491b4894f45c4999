-- ===== src/HashTable/Sound.antt =====
-- New tables, and tables whose entries have a property.
use mathlib.Core.Option.{some-injective}
use event_sequence_transform.Prelude.{
  true-false, none-some, ℕ, zero, suc, ◌<◌, ◌≡◌, Bool, true, false, Option, some, List, [], ◌∷◌,
  arith, refl, sym, ◌∙◌, ◌==◌, Bool-cases, inl, inr, ◌⊎◌, length, replicate, length-replicate,
  ==_iff, get_elem?, set,
}
use event_sequence_transform.Prelude.Int.{ℤ}
use event_sequence_transform.HashTable.{
  HashTableKey, HashTableKeyEntry, HashFamilyMember, HashTable, entry_at, null_entry, create_table,
}
use event_sequence_transform.HashTable.Keys.{IsKey}
use event_sequence_transform.HashTable.Search.{is_free}
use event_sequence_transform.HashTable.Inv.{IsValid}

-- A new array has no key.
entry_at-replicate : (n i : ℕ) → entry_at (replicate n null_entry) i ≡ null_entry
entry_at-replicate zero i = refl
entry_at-replicate (suc n) zero = refl
entry_at-replicate (suc n) (suc i) = entry_at-replicate n i

free-replicate : (n i : ℕ) → is_free (replicate n null_entry) i ≡ true
free-replicate n i = rw (entry_at-replicate n i) refl

module _ {ℓ} {V : Type ℓ} (zeroed : V) (alloc : ℕ → Bool) where
  -- A new table has no slot, or it is valid and all its slots are free.
  pub create_table_lem :
      (capacity : ℕ) (m : HashFamilyMember)
      → ((create_table zeroed alloc capacity m).capacity ≡ 0)
        ⊎ (IsValid (create_table zeroed alloc capacity m)
            × ((i : ℕ) → is_free (create_table zeroed alloc capacity m).key_array i ≡ true))
  unfolding create_table
  create_table_lem capacity m = elim (Bool-cases (alloc capacity)) [
    | inr failed ↦ inl (rw failed refl)
    | inl given ↦ elim (Bool-cases (capacity == 0)) [
      | inl empty ↦ inl (rw given ((==_iff capacity 0).0 empty))
      | inr slots ↦
          let positive : 0 < capacity = ground arith in
          inr (
            rw given (
              (record {
                some_slot = positive;
                keys = length-replicate capacity null_entry;
                values = length-replicate capacity zeroed;
                made = λ i h full. absurd (true-false (sym (free-replicate capacity i) ∙ full));
                reachable =
                    λ i h full. absurd (true-false (sym (free-replicate capacity i) ∙ full));
              }),
              free-replicate capacity,
            ))
    ]
  ]

-- What is read where it was written.
pub set-value {ℓ} :
    {V : Type ℓ} (xs : List V) (i : ℕ) (x y : V) → get_elem? (set xs i x) i ≡ some y → x ≡ y
set-value [] i x y e = absurd (none-some e)
set-value (z ∷ xs) zero x y e = some-injective _ _ e
set-value (z ∷ xs) (suc i) x y e = set-value xs i x y e

-- A valid table whose values all have a property.
pub record Sound {ℓ} {V : Type ℓ} (P : HashTableKey → V → Type 0) (t : HashTable V) : Type ℓ where
  pub valid : IsValid t
  pub all :
      (i : ℕ) (v : V)
      → is_free t.key_array i ≡ false
      → get_elem? t.value_array i ≡ some v
      → P (entry_at t.key_array i).key v

module _ {ℓ} {V : Type ℓ} (P : HashTableKey → V → Type 0) where
  -- An insertion leaves such a table.
  abbrev pub Keeps : (HashTable V → HashTableKey → V → Option (ℤ × HashTable V)) → Type ℓ
  Keeps insert =
      (t : HashTable V) (key : HashTableKey) (value : V) (r : ℤ) (t' : HashTable V)
      → Sound P t
      → IsKey key
      → P key value
      → insert t key value ≡ some (r, t')
      → Sound P t'

  -- The old arrays of a table that is refilled.
  pub record OldArrays (es : List HashTableKeyEntry) (vs : List V) : Type ℓ where
    pub keys : (i : ℕ) → i < length es → is_free es i ≡ false → IsKey (entry_at es i).key
    pub values :
        (i : ℕ) (v : V) → is_free es i ≡ false → get_elem? vs i ≡ some v → P (entry_at es i).key v

  pub OldArrays-tail :
      (x : HashTableKeyEntry) (es : List HashTableKeyEntry) (v : V) (vs : List V)
      → OldArrays (x ∷ es) (v ∷ vs)
      → OldArrays es vs
  OldArrays-tail x es v vs old = record {
    keys = λ i h full. old.keys (suc i) (omega arith) full;
    values = λ i u full at_i. old.values (suc i) u full at_i;
  }

  pub Sound-OldArrays : (t : HashTable V) → Sound P t → OldArrays t.key_array t.value_array
  Sound-OldArrays t sound = record {
    keys = λ i h full. sound.valid.made i (omega (arith, sound.valid.keys)) full;
    values = sound.all;
  }
