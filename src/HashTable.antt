-- ===== src/HashTable.antt =====
-- hash_table.h and hash_table.c: open addressing with linear probing over two arrays of one length.
-- A function that writes through its table returns the new table. NULL arrays are empty lists, and go
-- with capacity 0. `value_deinit`, which is NULL in every table of the program, is left out.
mod Key
pub mod Keys
pub mod Search
pub mod Inv
pub mod Put
pub mod Lookup
pub mod Insert
pub mod Sound
pub mod Grow
pub mod Replay
pub mod Rebuild
pub mod Sample
pub mod Find
pub mod Delete
use Prim.Native.Nat.{bit_xor}
use event_sequence_transform.Prelude.{
  ℕ, zero, suc, ◌+◌, ◌-◌, ◌*◌, ◌/◌, ◌%◌, ◌^◌, Bool, true, false, Option, none, some, List, [], ◌∷◌,
  ◌==◌, ltb, leb, if◌then◌else◌, length, get_or, get_elem?, set, replicate, ◌&&◌, not,
}
use event_sequence_transform.Prelude.Int.{ℤ, pos, negsuc}
pub use event_sequence_transform.HashTable.Key.{HashTableKey}
unfoldable pub use event_sequence_transform.HashTable.Key.{
  fnv_offset_basis, fnv_prime, fnv_from, fnv_1a, null_key, hash_table_key_from_bytes,
  hash_table_key_copy, hash_table_key_deinit_copied, same_bytes, pointees_equal,
  hash_table_key_equals,
}

pub record HashTableKeyEntry : Type 0 where
  pub key : HashTableKey
  pub max_collision_offset : ℕ

pub record HashFamilyMember : Type 0 where
  pub a : ℕ
  pub b : ℕ

pub record HashTable {ℓ} (V : Type ℓ) : Type ℓ where
  pub value_array : List V
  pub capacity : ℕ
  pub length : ℕ
  pub key_array : List HashTableKeyEntry
  pub family_member : HashFamilyMember

abbrev pub family_prime : ℕ
family_prime = 0x1FFFFFFFFFFFFFFF

-- From the two numbers that are drawn, before the remainder.
pub family_random_member : ℕ × ℕ → HashFamilyMember
family_random_member (m, n) = record {
  a = if m % family_prime == 0 then 1 else m % family_prime;
  b = n % family_prime;
}

pub family_map : HashFamilyMember → ℕ → ℕ
family_map member pre_hash =
    let a = if member.a == 0 then 1 else member.a in
    (pre_hash * a + member.b) % 2 ^ 64 % family_prime

abbrev pub null_entry : HashTableKeyEntry
null_entry = record { key = null_key; max_collision_offset = 0 }

-- `key_array[i]`.
abbrev pub entry_at : List HashTableKeyEntry → ℕ → HashTableKeyEntry
entry_at entries i = get_or entries i null_entry

pub probe_next : ℕ → ℕ → ℕ
probe_next current_index modulo = (current_index + 1) % modulo

-- Where the search of `hash_table_insert_impl` ends: the index, the offset, `pre_hash_collision`.
pub data Slot : Type 0 where
  free_slot same_slot : ℕ → ℕ → Bool → Slot
  no_slot : Slot

-- The loop with `left` rounds to go.
pub search_slot : HashTableKey → List HashTableKeyEntry → ℕ → ℕ → ℕ → ℕ → Bool → Slot
unfolding hash_table_key_equals probe_next
search_slot key entries capacity zero i offset collision = no_slot
search_slot key entries capacity (suc left) i offset collision =
    let entry = entry_at entries i in
    elim entry.key.bytes [
      | none ↦ free_slot i offset collision
      | some _ ↦ elim (hash_table_key_equals key entry.key) [
        | true ↦ same_slot i offset collision
        | false ↦
            search_slot key entries capacity left (probe_next i capacity) (offset + 1)
              (if collision then true else key.pre_hash == entry.key.pre_hash)
      ]
    ]

-- The loop of `hash_table_find_impl` with `left` rounds to go.
pub find_from : HashTableKey → List HashTableKeyEntry → ℕ → ℕ → ℕ → Option ℕ
unfolding hash_table_key_equals probe_next
find_from key entries capacity zero i = none
find_from key entries capacity (suc left) i =
    elim (hash_table_key_equals key (entry_at entries i).key) [
      | true ↦ some i
      | false ↦ find_from key entries capacity left (probe_next i capacity)
    ]

-- A HashTableIndex: -1 where there is none.
abbrev pub index_of : Option ℕ → ℤ
index_of none = negsuc 0
index_of (some i) = pos i

module _ {ℓ} {V : Type ℓ} where
  pub initial_position : HashTableKey → HashTable V → ℕ
  unfolding family_map
  initial_position key ht = family_map ht.family_member key.pre_hash % ht.capacity

  -- A result `none` is the division by a capacity of 0.
  pub hash_table_find_impl : HashTable V → HashTableKey → Option ℤ
  unfolding initial_position find_from
  hash_table_find_impl ht key = elim key.bytes [
    | none ↦ some (negsuc 0)
    | some _ ↦ elim (ht.capacity == 0) [
      | true ↦ none
      | false ↦
          let base = initial_position key ht in
          let rounds = (entry_at ht.key_array base).max_collision_offset + 1 in
          some (index_of (find_from key ht.key_array ht.capacity rounds base))
    ]
  ]

  -- `zeroed` is a value of zero bytes. `alloc n` says whether both arrays of `n` cells are given.
  module _ (zeroed : V) (alloc : ℕ → Bool) where
    pub create_table : ℕ → HashFamilyMember → HashTable V
    create_table capacity family_member =
        if alloc capacity
        then (record {
          value_array = replicate capacity zeroed;
          capacity = capacity;
          length = 0;
          key_array = replicate capacity null_entry;
          family_member = family_member;
        })
        else (record {
          value_array = [];
          capacity = 0;
          length = 0;
          key_array = [];
          family_member = family_member;
        })

    unfoldable pub hash_table_init_impl : ℕ × ℕ → HashTable V
    unfolding create_table family_random_member
    hash_table_init_impl draw = create_table 5 (family_random_member draw)

  pub hash_table_deinit_impl : HashTable V → HashTable V
  hash_table_deinit_impl ht = record ht {
    value_array = [];
    capacity = 0;
    length = 0;
    key_array = [];
  }

  -- The writes of `hash_table_insert_impl` to a slot: the offset at the base, then the key of a slot
  -- that was free, then the value. `length` is the number from before the growth.
  pub write_slot : HashTable V → ℕ → ℕ → ℕ → Option HashTableKey → V → ℕ → HashTable V
  write_slot ht base i offset new_key value length =
      let base_entry = entry_at ht.key_array base in
      let marked =
        if ltb base_entry.max_collision_offset offset
        then set ht.key_array base (record base_entry { max_collision_offset = offset })
        else ht.key_array in
      record ht {
        key_array = elim new_key [
          | none ↦ marked
          | some key ↦ set marked i (record (entry_at marked i) { key = key })
        ];
        value_array = set ht.value_array i value;
        length = length + 1;
      }

  -- The part of `hash_table_insert_impl` between the growth and the change of the hash function, with
  -- the index and whether the hash function is to be changed. `alloc_bytes` is the `malloc` of
  -- the copy of the key.
  pub put_key : (ℕ → Bool) → HashTable V → HashTableKey → V → ℕ → Option (ℕ × Bool × HashTable V)
  unfolding search_slot write_slot hash_table_key_copy initial_position
  put_key alloc_bytes ht key value length =
      let base = initial_position key ht in
      elim (search_slot key ht.key_array ht.capacity ht.capacity base 0 false) [
        | no_slot ↦ none
        | free_slot i offset collision ↦ some (
          i,
          not collision && ltb (ht.capacity + 6) (2 * offset),
          write_slot ht base i offset (some (hash_table_key_copy alloc_bytes key)) value length,
        )
        | same_slot i offset collision ↦ some (
          i,
          not collision && ltb (ht.capacity + 6) (2 * offset),
          write_slot ht base i offset none value length,
        )
      ]

  -- The loops of `hash_table_grow` and `hash_table_change_hash` over the old arrays. `insert` is
  -- `hash_table_insert_impl`; `none` is a lack of fuel, `some none` an insertion that fails.
  pub refill :
      (HashTable V → HashTableKey → V → Option (ℤ × HashTable V))
      → List HashTableKeyEntry
      → List V
      → HashTable V
      → Option (Option (HashTable V))
  refill insert (entry ∷ entries) (value ∷ values) new_ht = elim entry.key.bytes [
    | none ↦ refill insert entries values new_ht
    | some _ ↦ elim (insert new_ht entry.key value) [
      | none ↦ none
      | some (pos i, ht) ↦ refill insert entries values ht
      | some (negsuc n, ht) ↦ some none
    ]
  ]
  refill insert _ _ new_ht = some (some new_ht)

  -- The old table stays where the new one cannot be made or filled.
  abbrev pub rebuilt :
      (HashTable V → HashTableKey → V → Option (ℤ × HashTable V))
      → HashTable V
      → HashTable V
      → Option (HashTable V)
  rebuilt insert old_ht new_ht =
      if new_ht.capacity == 0
      then some old_ht
      else (elim (refill insert old_ht.key_array old_ht.value_array new_ht) [
        | none ↦ none
        | some none ↦ some old_ht
        | some (some ht) ↦ some ht
      ])

  module _ (zeroed : V) (alloc : ℕ → Bool) where
    pub hash_table_grow :
        (HashTable V → HashTableKey → V → Option (ℤ × HashTable V))
        → HashTable V
        → Option (HashTable V)
    unfolding create_table refill
    hash_table_grow insert old_ht = rebuilt insert old_ht (
        create_table zeroed alloc (old_ht.capacity + (old_ht.capacity / 2 + 1))
          old_ht.family_member)

  module _ (zeroed : V) (alloc : ℕ → Bool) (draw : HashTable V → ℕ × ℕ) where
    pub hash_table_change_hash :
        (HashTable V → HashTableKey → V → Option (ℤ × HashTable V))
        → HashTable V
        → Option (HashTable V)
    unfolding create_table refill family_random_member
    hash_table_change_hash insert old_ht =
        rebuilt insert old_ht
          (create_table zeroed alloc old_ht.capacity (family_random_member (draw old_ht)))

  module _ (zeroed : V) (alloc alloc_bytes : ℕ → Bool) (draw : HashTable V → ℕ × ℕ) where
    -- `hash_table_insert_impl` after the growth, with the length from before it.
    pub insert_grown :
        (HashTable V → HashTableKey → V → Option (ℤ × HashTable V))
        → HashTable V
        → HashTableKey
        → V
        → ℕ
        → Option (ℤ × HashTable V)
    unfolding hash_table_change_hash put_key
    insert_grown insert ht key value length = elim (leb ht.capacity length) [
      | true ↦ some (negsuc 0, ht)
      | false ↦ elim (put_key alloc_bytes ht key value length) [
        | none ↦ some (negsuc 0, ht)
        | some (i, rehash, put_ht) ↦ elim rehash [
          | false ↦ some (pos i, put_ht)
          | true ↦ elim (hash_table_change_hash zeroed alloc draw insert put_ht) [
            | none ↦ none
            | some new_ht ↦ some (pos i, new_ht)
          ]
        ]
      ]
    ]

    -- `hash_table_insert_impl` on fuel: the depth of the calls through the functions above.
    pub hash_table_insert_impl : ℕ → HashTable V → HashTableKey → V → Option (ℤ × HashTable V)
    unfolding hash_table_grow insert_grown
    hash_table_insert_impl zero ht key value = none
    hash_table_insert_impl (suc fuel) ht key value =
        let insert = hash_table_insert_impl fuel in
        elim key.bytes [
          | none ↦ some (negsuc 0, ht)
          | some _ ↦ elim (leb ht.capacity (ht.length + ht.length / 2)) [
            | false ↦ insert_grown insert ht key value ht.length
            | true ↦ elim (hash_table_grow zeroed alloc insert ht) [
              | none ↦ none
              | some grown_ht ↦ insert_grown insert grown_ht key value ht.length
            ]
          ]
        ]

  -- `none` is a pointer to a cell that the arrays do not have.
  pub hash_table_delete_at_index_impl :
      V → Option (HashTable V) → ℤ → Option (Bool × Option (HashTable V))
  unfolding hash_table_key_deinit_copied
  hash_table_delete_at_index_impl zeroed none index = some (false, none)
  hash_table_delete_at_index_impl zeroed (some ht) (negsuc n) = some (false, some ht)
  hash_table_delete_at_index_impl zeroed (some ht) (pos index) =
      if ltb ht.capacity index
      then some (false, some ht)
      else (elim (get_elem? ht.key_array index) [
        | none ↦ none
        | some entry ↦ elim entry.key.bytes [
          | none ↦ some (false, some ht)
          | some _ ↦ elim (get_elem? ht.value_array index) [
            | none ↦ none
            | some _ ↦ some (
              true,
              some (record ht {
                key_array =
                    set ht.key_array index
                      (record entry { key = hash_table_key_deinit_copied entry.key });
                value_array = set ht.value_array index zeroed;
                length = (ht.length + 2 ^ 64 - 1) % 2 ^ 64;
              }),
            )
          ]
        ]
      ])

  pub hash_table_delete_by_key_impl :
      V → HashTable V → HashTableKey → Option (Bool × Option (HashTable V))
  unfolding hash_table_delete_at_index_impl hash_table_find_impl
  hash_table_delete_by_key_impl zeroed ht key = elim (hash_table_find_impl ht key) [
    | none ↦ none
    | some index ↦ hash_table_delete_at_index_impl zeroed (some ht) index
  ]
