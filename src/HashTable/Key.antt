-- ===== src/HashTable/Key.antt =====
-- The keys of hash_table.h and hash_table.c.
use Prim.Native.Nat.{bit_xor}
use event_sequence_transform.Prelude.{
  ℕ, zero, suc, ◌+◌, ◌*◌, ◌%◌, ◌^◌, Bool, true, false, Option, none, some, List, [], ◌∷◌, ◌==◌,
  if◌then◌else◌, length, ◌&&◌, not,
}

-- `bytes` points to `length` bytes.
pub record HashTableKey : Type 0 where
  pub length : ℕ
  pub bytes : Option (List ℕ)
  pub pre_hash : ℕ

abbrev pub fnv_offset_basis : ℕ
fnv_offset_basis = 0xCBF29CE484222325

abbrev pub fnv_prime : ℕ
fnv_prime = 0x100000001B3

-- The loop of `fnv_1a` from a hash on.
unfoldable pub fnv_from : ℕ → List ℕ → ℕ
fnv_from hash [] = hash
fnv_from hash (b ∷ bytes) = fnv_from (bit_xor hash b * fnv_prime % 2 ^ 64) bytes

unfoldable pub fnv_1a : List ℕ → ℕ
unfolding fnv_from
fnv_1a bytes = fnv_from fnv_offset_basis bytes

abbrev pub null_key : HashTableKey
null_key = record { length = 0; bytes = none; pre_hash = 0 }

unfoldable pub hash_table_key_from_bytes : Option (List ℕ) → HashTableKey
hash_table_key_from_bytes none = null_key
hash_table_key_from_bytes (some bytes) = record {
  length = length bytes;
  bytes = some bytes;
  pre_hash = fnv_1a bytes;
}

-- The copy has a byte more, a terminator that no length counts.
unfoldable pub hash_table_key_copy : (ℕ → Bool) → HashTableKey → HashTableKey
hash_table_key_copy alloc old = elim old.bytes [
  | none ↦ null_key
  | some bytes ↦
      if alloc (old.length + 1)
      then (record { length = old.length; bytes = some bytes; pre_hash = old.pre_hash })
      else null_key
]

unfoldable pub hash_table_key_deinit_copied : HashTableKey → HashTableKey
hash_table_key_deinit_copied key = null_key

-- `memcmp` of the first bytes is 0.
unfoldable pub same_bytes : ℕ → List ℕ → List ℕ → Bool
same_bytes zero xs ys = true
same_bytes (suc n) (x ∷ xs) (y ∷ ys) = (x == y) && same_bytes n xs ys
same_bytes (suc n) xs ys = false

-- Equal pointers lead to equal bytes, so that the test for them is part of that for the bytes.
abbrev pub pointees_equal : ℕ → Option (List ℕ) → Option (List ℕ) → Bool
pointees_equal n none none = true
pointees_equal n (some xs) (some ys) = same_bytes n xs ys
pointees_equal n _ _ = false

unfoldable pub hash_table_key_equals : HashTableKey → HashTableKey → Bool
unfolding same_bytes
hash_table_key_equals lhs rhs =
    if not (lhs.pre_hash == rhs.pre_hash)
    then false
    else if not (lhs.length == rhs.length)
    then false
    else pointees_equal lhs.length lhs.bytes rhs.bytes
