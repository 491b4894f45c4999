-- ===== src/HashTable/Insert.antt =====
-- `hash_table_insert_impl` as an update of the map that a table stands for.
use mathlib.Core.Path.{subst}
use mathlib.Core.Option.{some-injective}
use event_sequence_transform.Prelude.{
  none-some, ℕ, suc, ◌+◌, ◌*◌, ◌/◌, ◌≤◌, ◌<◌, ◌≡◌, Bool, true, false, Option, none, some, List,
  arith, refl, sym, ap, ◌∙◌, if◌then◌else◌, inl, inr, ◌⊎◌, ltb, leb, ◌&&◌, not,
}
use event_sequence_transform.Prelude.Int.{ℤ, pos}
use event_sequence_transform.HashTable.{
  HashTableKey, hash_table_key_from_bytes, HashTable, initial_position, hash_table_key_equals,
  search_slot, free_slot, same_slot, Slot, put_key, write_slot, hash_table_insert_impl,
  insert_grown,
}
use event_sequence_transform.HashTable.Keys.{IsKey, hash_table_key_copy_lem}
use event_sequence_transform.HashTable.Search.{
  probe_at, probe_at-lt, is_free, Passed, Ended, ended_free, ended_same, ended_full,
  search_slot-Ended,
}
use event_sequence_transform.HashTable.Search.Cover.{covered}
use event_sequence_transform.HashTable.Inv.{IsValid, initial_position-lt, match-eq, lookup}
use event_sequence_transform.HashTable.Put.{Written, write_slot-free, write_slot-same}
use event_sequence_transform.HashTable.Lookup.{written-IsValid, lookup-written}

module _ {ℓ} {V : Type ℓ} (alloc_bytes : ℕ → Bool) (t : HashTable V) (key : HashTableKey)
    (value : V) (n : ℕ) where
  -- What an insertion leaves: a valid table, in which the key has the value and every other key has
  -- what it had.
  pub record Inserted (result : Option (ℕ × Bool × HashTable V)) : Type ℓ where
    pub i : ℕ
    pub offset : ℕ
    pub collision : Bool
    pub t' : HashTable V
    pub put : result ≡ some (i, not collision && ltb (t.capacity + 6) (2 * offset), t')
    pub within : offset < t.capacity
    pub still_valid : IsValid t'
    pub written : Written t key i offset value t'
    pub capacity_kept : t'.capacity ≡ t.capacity
    pub length_next : t'.length ≡ n + 1
    pub updated :
        (k : HashTableKey)
        → IsKey k
        → lookup t' k ≡ (if hash_table_key_equals k key then some value else lookup t k)

  module _ (valid : IsValid t) (made : IsKey key)
      (copies : alloc_bytes (key.length + 1) ≡ true) where
    put_key-Ended :
        (slot : Slot)
        → search_slot key t.key_array t.capacity t.capacity (initial_position key t) 0 false ≡ slot
        → Ended key t.key_array t.capacity t.capacity (initial_position key t) 0 slot
        → Inserted (put_key alloc_bytes t key value n)
          ⊎ ((put_key alloc_bytes t key value n ≡ none)
              × Passed key t.key_array t.capacity (initial_position key t) t.capacity)
    unfolding put_key write_slot
    put_key-Ended slot e (ended_full p) = inr ((rw (e, put_key) refl), p)
    put_key-Ended slot e (ended_free o c h free p) =
        let base = initial_position key t in
        let i = probe_at t.capacity base o in
        let count : 0 + o ≡ o = omega arith in
        let ends = e ∙ ap (λ m. free_slot i m c) count in
        let inside = probe_at-lt t.capacity base o (initial_position-lt key t valid.some_slot) in
        let copy = hash_table_key_copy_lem alloc_bytes key made copies in
        let w = write_slot-free t valid key i o value n inside in
        let t' = write_slot t base i o (some key) value n in
        inl (record {
          i = i;
          offset = o;
          collision = c;
          t' = t';
          put = rw (ends, put_key, copy) refl;
          within = h;
          still_valid = written-IsValid t valid key made i o value t' refl (inl free) p w;
          written = w;
          capacity_kept = w.same_capacity;
          length_next = refl;
          updated = lookup-written t valid key made i o value t' refl (inl free) p w;
        })
    put_key-Ended slot e (ended_same o c h full same p) =
        let base = initial_position key t in
        let i = probe_at t.capacity base o in
        let count : 0 + o ≡ o = omega arith in
        let ends = e ∙ ap (λ m. same_slot i m c) count in
        let inside = probe_at-lt t.capacity base o (initial_position-lt key t valid.some_slot) in
        let this = sym ((match-eq t valid key made i inside full).0 same) in
        let w = write_slot-same t valid key i o value n inside this in
        let t' = write_slot t base i o none value n in
        inl (record {
          i = i;
          offset = o;
          collision = c;
          t' = t';
          put = rw (ends, put_key) refl;
          within = h;
          still_valid = written-IsValid t valid key made i o value t' refl (inr this) p w;
          written = w;
          capacity_kept = w.same_capacity;
          length_next = refl;
          updated = lookup-written t valid key made i o value t' refl (inr this) p w;
        })

    -- What `put_key` gives, where it gives something.
    pub put_key-some :
        (i : ℕ) (rehash : Bool) (t' : HashTable V)
        → put_key alloc_bytes t key value n ≡ some (i, rehash, t')
        → IsValid t' × ((o : ℕ) × (j : ℕ) × (i ≡ j) × Written t key j o value t')
    put_key-some i rehash t' put =
        let e =
          search_slot-Ended key t.key_array t.capacity t.capacity (initial_position key t) 0
            false in
        elim (put_key-Ended _ refl e) [
          | inr (nothing, p) ↦ absurd (none-some (sym nothing ∙ put))
          | inl done ↦
              let same = some-injective _ _ (sym done.put ∙ put) in
              subst (λ u. IsValid u × ((o : ℕ) × (j : ℕ) × (i ≡ j) × Written t key j o value u))
                (ap (λ r. r.2) same)
                (done.still_valid, ((done.offset, done.i, sym (ap (λ r. r.0) same), done.written)))
        ]

    -- A valid table with a free slot takes a key.
    pub put_key-Inserted :
        (j : ℕ)
        → j < t.capacity
        → is_free t.key_array j ≡ true
        → Inserted (put_key alloc_bytes t key value n)
    put_key-Inserted j h free =
        let base = initial_position key t in
        let e = search_slot-Ended key t.key_array t.capacity t.capacity base 0 false in
        elim (put_key-Ended _ refl e) [
          | inl done ↦ done
          | inr (nothing, p) ↦
              let (o, within, at_j) =
                covered t.capacity base j (initial_position-lt key t valid.some_slot) h in
              let full = p.taken o within in
              let bad : is_free t.key_array j ≡ false =
                ap (is_free t.key_array) (sym at_j) ∙ full in
              absurd (cc)
        ]

and-false : (b : Bool) → (b && false) ≡ false
and-false b = ground arith

pub bytes-IsKey : (key : HashTableKey) → IsKey key → (bytes : List ℕ) × (key.bytes ≡ some bytes)
unfolding hash_table_key_from_bytes
bytes-IsKey key (bytes, from) = (bytes, ap (λ (k : HashTableKey). k.bytes) from)

module _ {ℓ} {V : Type ℓ} (zeroed : V) (alloc alloc_bytes : ℕ → Bool) (draw : HashTable V → ℕ × ℕ)
    (copies : (n : ℕ) → alloc_bytes n ≡ true) where
  -- In a small table with a free slot, what comes after the growth needs no other hash function.
  pub insert_grown-Inserted :
      (insert : HashTable V → HashTableKey → V → Option (ℤ × HashTable V)) (t : HashTable V)
      (key : HashTableKey) (value : V) (n j : ℕ)
      → IsValid t
      → IsKey key
      → t.capacity ≤ 8
      → n < t.capacity
      → j < t.capacity
      → is_free t.key_array j ≡ true
      → (r : Inserted alloc_bytes t key value n (put_key alloc_bytes t key value n)) × (insert_grown
            zeroed alloc alloc_bytes draw insert t key value n
          ≡ some (pos r.i, r.t'))
  unfolding insert_grown
  insert_grown-Inserted insert t key value n j valid made small short inside free =
      let r = put_key-Inserted alloc_bytes t key value n valid made (copies _) j inside free in
      let some_room : leb t.capacity n ≡ false = ground arith in
      let near : ltb (t.capacity + 6) (2 * r.offset) ≡ false =
        (let within = r.within in ground arith) in
      let quiet : not r.collision && ltb (t.capacity + 6) (2 * r.offset) ≡ false =
        rw near (and-false (not r.collision)) in
      let put = r.put ∙ ap (λ b. some (r.i, b, r.t')) quiet in
      (r, (rw (insert_grown, some_room, put) refl))

  -- In a valid table of at most 8 slots that is filled to less than two thirds and has a free slot, with
  -- memory for the copy of the key, an insertion of a key made from bytes returns an index. It
  -- leaves a valid table with one added to its length, which gives the new value for the key, and
  -- for every other key made from bytes what the old one gave.
  pub insert-lookup :
      (fuel : ℕ) (t : HashTable V) (key : HashTableKey) (value : V) (j : ℕ)
      → IsValid t
      → IsKey key
      → t.capacity ≤ 8
      → t.length + t.length / 2 < t.capacity
      → j < t.capacity
      → is_free t.key_array j ≡ true
      → (i : ℕ) × (t' : HashTable V) × (hash_table_insert_impl zeroed alloc alloc_bytes draw
            (suc fuel)
            t
            key
            value
          ≡ some (pos i, t'))
        × IsValid t'
        × (t'.length ≡ t.length + 1)
        × ((k : HashTableKey)
            → IsKey k
            → lookup t' k ≡ (if hash_table_key_equals k key then some value else lookup t k))
  unfolding hash_table_insert_impl
  insert-lookup fuel t key value j valid made small filled inside free =
      let insert = hash_table_insert_impl zeroed alloc alloc_bytes draw fuel in
      let (r, grown) =
        insert_grown-Inserted insert t key value t.length j valid made small (omega arith) inside
          free in
      let roomy : leb t.capacity (t.length + t.length / 2) ≡ false = ground arith in
      let (bytes, set) = bytes-IsKey key made in
      let run : hash_table_insert_impl zeroed alloc alloc_bytes draw (suc fuel) t key value
          ≡ some (pos r.i, r.t') =
        rw (set, hash_table_insert_impl, roomy) grown in
      (r.i, r.t', run, r.still_valid, r.length_next, r.updated)
