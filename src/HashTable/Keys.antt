-- ===== src/HashTable/Keys.antt =====
-- Keys made from bytes, and what their comparison decides.
use mathlib.Core.Path.{subst}
use event_sequence_transform.Prelude.{
  ℕ, ◌+◌, ◌≡◌, ◌↔◌, Bool, true, false, none, some, List, [], ◌∷◌, ◌==◌, if◌then◌else◌, length, not,
  refl, sym, ap, ap₂, ◌∙◌, arith, ==_iff,
}
use event_sequence_transform.HashTable.{
  HashTableKey, hash_table_key_from_bytes, hash_table_key_copy, hash_table_key_equals, same_bytes,
  fnv_1a, pointees_equal,
}

same_bytes_refl : (xs : List ℕ) → same_bytes (length xs) xs xs ≡ true
unfolding same_bytes
same_bytes_refl [] = refl
same_bytes_refl (x ∷ xs) = ground (arith, same_bytes_refl xs)

same_bytes-eq :
    (xs ys : List ℕ) → length xs ≡ length ys → same_bytes (length xs) xs ys ≡ true → xs ≡ ys
unfolding same_bytes
same_bytes-eq [] [] e h = refl
same_bytes-eq [] (y ∷ ys) e h = absurd (omega arith)
same_bytes-eq (x ∷ xs) [] e h = absurd (omega arith)
same_bytes-eq (x ∷ xs) (y ∷ ys) e h =
    let head : x ≡ y = ground arith in
    let rest : same_bytes (length xs) xs ys ≡ true = ground arith in
    ap₂ ◌∷◌ head (same_bytes-eq xs ys (omega arith) rest)

-- The key of some bytes.
abbrev pub key_of : List ℕ → HashTableKey
key_of bytes = hash_table_key_from_bytes (some bytes)

guards :
    (p q r : Bool)
    → (if not p then false else if not q then false else r) ≡ true
    → (p ≡ true) × (q ≡ true) × (r ≡ true)
guards p q r h = ground arith

-- `hash_table_key_equals` holds for keys made from two byte strings just if the strings are equal.
pub hash_table_key_equals_lem :
    (xs ys : List ℕ) → (hash_table_key_equals (key_of xs) (key_of ys) ≡ true) ↔ (xs ≡ ys)
unfolding hash_table_key_equals hash_table_key_from_bytes
hash_table_key_equals_lem xs ys = (
  λ h.
      let (hashes, lengths, bytes) =
        guards (fnv_1a xs == fnv_1a ys) (length xs == length ys) (same_bytes (length xs) xs ys) h in
      same_bytes-eq xs ys ((==_iff _ _).0 lengths) bytes,
  λ e. subst (λ zs. hash_table_key_equals (key_of xs) (key_of zs) ≡ true) e (self xs),
)
  where
    self : (zs : List ℕ) → hash_table_key_equals (key_of zs) (key_of zs) ≡ true
    self zs =
        let hashes = (==_iff (fnv_1a zs) (fnv_1a zs)).1 refl in
        let lengths = (==_iff (length zs) (length zs)).1 refl in
        rw (hashes, lengths) (same_bytes_refl zs)

abbrev bytes_or : HashTableKey → List ℕ
bytes_or key = elim key.bytes [ none ↦ [] | some bytes ↦ bytes ]

-- A key that a table may hold.
abbrev pub IsKey : HashTableKey → Type 0
IsKey key = (bytes : List ℕ) × (key ≡ key_of bytes)

pub equals_of_IsKey :
    (k q : HashTableKey) → IsKey k → IsKey q → (hash_table_key_equals k q ≡ true) ↔ (k ≡ q)
unfolding hash_table_key_from_bytes
equals_of_IsKey k q (xs, e) (ys, f) = (
  λ h.
      let same = (hash_table_key_equals_lem xs ys).0 (rw (e, f) at h) in e ∙ ap key_of same ∙ sym f,
  λ same.
      let bytes : xs ≡ ys = ap bytes_or (sym e ∙ same ∙ f) in
      rw (e, f) ((hash_table_key_equals_lem xs ys).1 bytes),
)

-- A copied key is the key, if its memory is given.
pub hash_table_key_copy_lem :
    (alloc : ℕ → Bool) (k : HashTableKey)
    → IsKey k
    → alloc (k.length + 1) ≡ true
    → hash_table_key_copy alloc k ≡ k
unfolding hash_table_key_copy hash_table_key_from_bytes
hash_table_key_copy_lem alloc k (xs, e) got =
    subst (λ (q : HashTableKey). alloc (q.length + 1) ≡ true → hash_table_key_copy alloc q ≡ q)
      (sym e) (λ g. rw g refl) got

no_guard : (p q : Bool) → (if not p then false else if not q then false else false) ≡ false
no_guard p q = ground arith

-- A key is not equal to an entry that is not set.
pub equals-unset :
    (k q : HashTableKey) → IsKey k → q.bytes ≡ none → hash_table_key_equals k q ≡ false
unfolding hash_table_key_equals hash_table_key_from_bytes
equals-unset k q (xs, e) unset =
    subst (λ (k : HashTableKey). hash_table_key_equals k q ≡ false) (sym e)
      (ap
          (λ b.
            if not (fnv_1a xs == q.pre_hash)
            then false
            else if not (length xs == q.length)
            then false
            else pointees_equal (length xs) (some xs) b)
          unset
        ∙ no_guard (fnv_1a xs == q.pre_hash) (length xs == q.length))
