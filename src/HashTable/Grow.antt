-- ===== src/HashTable/Grow.antt =====
-- The tables that `hash_table_grow`, `hash_table_change_hash` and `hash_table_insert_impl` leave.
use mathlib.Core.Path.{subst}
use mathlib.Core.Option.{some-injective}
use event_sequence_transform.Prelude.{
  true-false, none-some, ℕ, zero, suc, ◌+◌, ◌/◌, ◌≡◌, Bool, true, false, Option, none, some, List,
  [], ◌∷◌, arith, refl, sym, ap, ◌∙◌, ◌==◌, Bool-cases, Option-cases, inl, inr, ◌⊎◌, leb, ==_iff,
  get_elem?, set, get_elem?-set_ne, ◌≢◌,
}
use event_sequence_transform.Prelude.Int.{ℤ, pos, negsuc}
use event_sequence_transform.HashTable.{
  HashTableKey, hash_table_key_from_bytes, hash_table_init_impl, family_random_member,
  HashTableKeyEntry, HashFamilyMember, HashTable, entry_at, create_table, refill, rebuilt,
  hash_table_grow, hash_table_change_hash, put_key, insert_grown, hash_table_insert_impl,
}
use event_sequence_transform.HashTable.Keys.{IsKey}
use event_sequence_transform.HashTable.Search.{is_free, is_unset}
use event_sequence_transform.HashTable.Sound.{
  Sound, Keeps, OldArrays, OldArrays-tail, Sound-OldArrays, create_table_lem, set-value,
}
use event_sequence_transform.HashTable.Put.{Written}
use event_sequence_transform.HashTable.Insert.{put_key-some, bytes-IsKey}

module _ {ℓ} {V : Type ℓ} (P : HashTableKey → V → Type 0) (zeroed : V)
    (alloc alloc_bytes : ℕ → Bool) (draw : HashTable V → ℕ × ℕ)
    (insert : HashTable V → HashTableKey → V → Option (ℤ × HashTable V))
    (keeps : Keeps P insert) where
  refill-Sound :
      (es : List HashTableKeyEntry) (vs : List V) (t t' : HashTable V)
      → OldArrays P es vs
      → Sound P t
      → refill insert es vs t ≡ some (some t')
      → Sound P t'
  unfolding refill
  refill-Sound [] vs t t' made valid e =
      subst (Sound P) (some-injective _ _ (some-injective _ _ e)) valid
  refill-Sound (x ∷ es) [] t t' made valid e =
      subst (Sound P) (some-injective _ _ (some-injective _ _ e)) valid
  refill-Sound (x ∷ es) (v ∷ vs) t t' made valid e =
      let rest = OldArrays-tail P x es v vs made in
      elim (Option-cases x.key.bytes) [
        | inl free ↦ refill-Sound es vs t t' rest valid ((rw (free, refill) at e))
        | inr (bytes, full) ↦ elim (Option-cases (insert t x.key v)) [
          | inl out ↦ absurd (none-some (rw (full, refill, out) at e))
          | inr ((pos i, next), into) ↦
              let full_here : is_free (x ∷ es) 0 ≡ false = rw full refl in
              let first = made.keys 0 (omega arith) full_here in
              let first_value = made.values 0 v full_here refl in
              refill-Sound es vs next t' rest
                (keeps t x.key v (pos i) next valid first first_value into)
                (rw (full, refill, into) at e)
          | inr ((negsuc n, next), into) ↦
              absurd (none-some (some-injective _ _ (rw (full, refill, into) at e)))
        ]
      ]

  rebuilt-Sound :
      (old new t' : HashTable V)
      → Sound P old
      → (new.capacity ≡ 0) ⊎ Sound P new
      → rebuilt insert old new ≡ some t'
      → Sound P t'
  rebuilt-Sound old new t' valid fresh e = elim (Bool-cases (new.capacity == 0)) [
    | inl empty ↦ subst (Sound P) (some-injective _ _ (rw empty at e)) valid
    | inr slots ↦ elim fresh [
      | inl none_there ↦ absurd (true-false (sym ((==_iff new.capacity 0).1 none_there) ∙ slots))
      | inr new_valid ↦ elim (Option-cases (refill insert old.key_array old.value_array new)) [
        | inl out ↦ absurd (none-some (rw (slots, out) at e))
        | inr (none, failed) ↦ subst (Sound P) (some-injective _ _ (rw (slots, failed) at e)) valid
        | inr (some filled, done) ↦ subst (Sound P) (some-injective _ _ (rw (slots, done) at e)) (
            refill-Sound old.key_array old.value_array new filled (Sound-OldArrays P old valid)
              new_valid done)
      ]
    ]
  ]

  fresh :
      (capacity : ℕ) (m : HashFamilyMember)
      → ((create_table zeroed alloc capacity m).capacity ≡ 0)
        ⊎ Sound P (create_table zeroed alloc capacity m)
  fresh capacity m = elim (create_table_lem zeroed alloc capacity m) [
    | inl empty ↦ inl empty
    | inr (valid, free) ↦
        inr (record { valid = valid; all = λ i v full. absurd (true-false (sym (free i) ∙ full)) })
  ]

  grow-Sound :
      (t t' : HashTable V)
      → Sound P t
      → hash_table_grow zeroed alloc insert t ≡ some t'
      → Sound P t'
  unfolding hash_table_grow
  grow-Sound t t' valid e = rebuilt-Sound t _ t' valid (fresh _ _) e

  change_hash-Sound :
      (t t' : HashTable V)
      → Sound P t
      → hash_table_change_hash zeroed alloc draw insert t ≡ some t'
      → Sound P t'
  unfolding hash_table_change_hash
  change_hash-Sound t t' valid e = rebuilt-Sound t _ t' valid (fresh _ _) e

  put_key-Sound :
      (copies : (n : ℕ) → alloc_bytes n ≡ true) (t : HashTable V) (key : HashTableKey) (value : V)
      (n i : ℕ) (rehash : Bool) (t' : HashTable V)
      → Sound P t
      → IsKey key
      → P key value
      → put_key alloc_bytes t key value n ≡ some (i, rehash, t')
      → Sound P t'
  put_key-Sound copies t key value n i rehash t' sound made holds put =
      let (valid, (o, j, at_j, w)) =
        put_key-some alloc_bytes t key value n sound.valid made (copies _) i rehash t' put in
      record { valid = valid; all = λ k v full there. kept j w k v full there }
    where
      kept :
          (j : ℕ) {o : ℕ} (w : Written t key j o value t') (k : ℕ) (v : V)
          → is_free t'.key_array k ≡ false
          → get_elem? t'.value_array k ≡ some v
          → P (entry_at t'.key_array k).key v
      kept j w k v full there =
          let at_k : get_elem? (set t.value_array j value) k ≡ some v =
            ap (λ vs. get_elem? vs k) (sym w.new_values) ∙ there in
          elim (Bool-cases (j == k)) [
            | inl here ↦
                let same : j ≡ k = (==_iff j k).0 here in
                let key_new : (entry_at t'.key_array k).key ≡ key = w.new_keys k ∙ (rw here refl) in
                subst (λ q. P q v) (sym key_new)
                  (subst (P key)
                    (set-value t.value_array j value v (
                      subst (λ m. get_elem? (set t.value_array j value) m ≡ some v) (sym same)
                        at_k))
                    holds)
            | inr apart ↦
                let ne : j ≢ k = λ same. true-false (sym ((==_iff j k).1 same) ∙ apart) in
                let key_old : (entry_at t'.key_array k).key ≡ (entry_at t.key_array k).key =
                  w.new_keys k ∙ (rw apart refl) in
                subst (λ q. P q v) (sym key_old)
                  (sound.all k v (ap is_unset (sym key_old) ∙ full)
                    (sym (get_elem?-set_ne t.value_array value ne) ∙ at_k))
          ]

  insert_grown-Sound :
      (copies : (n : ℕ) → alloc_bytes n ≡ true) (t : HashTable V) (key : HashTableKey) (value : V)
      (n : ℕ) (r : ℤ) (t' : HashTable V)
      → Sound P t
      → IsKey key
      → P key value
      → insert_grown zeroed alloc alloc_bytes draw insert t key value n ≡ some (r, t')
      → Sound P t'
  unfolding insert_grown
  insert_grown-Sound copies t key value n r t' sound made holds e =
      elim (Bool-cases (leb t.capacity n)) [
        | inl full ↦
            subst (Sound P) (ap (λ q. q.1) (some-injective _ _ (rw (full, insert_grown) at e)))
              sound
        | inr room ↦ elim (Option-cases (put_key alloc_bytes t key value n)) [
          | inl nothing ↦
              subst (Sound P)
                (ap (λ q. q.1) (some-injective _ _ (rw (room, insert_grown, nothing) at e))) sound
          | inr ((i, false, t₁), put) ↦
              subst (Sound P)
                (ap (λ q. q.1) (some-injective _ _ (rw (room, insert_grown, put) at e)))
                (put_key-Sound copies t key value n i false t₁ sound made holds put)
          | inr ((i, true, t₁), put) ↦
              let put_sound = put_key-Sound copies t key value n i true t₁ sound made holds put in
              elim (Option-cases (hash_table_change_hash zeroed alloc draw insert t₁)) [
                | inl out ↦ absurd (none-some (rw (room, insert_grown, put, out) at e))
                | inr (t₂, changed) ↦
                    subst (Sound P)
                      (ap (λ q. q.1)
                        (some-injective _ _ (rw (room, insert_grown, put, changed) at e)))
                      (change_hash-Sound t₁ t₂ put_sound changed)
              ]
        ]
      ]

-- An insertion of a key made from bytes, with its growth and its change of the hash function, leaves
-- a valid table when it starts with one and every copy of a key has its memory; a property of a
-- key and a value that all entries and the new one have is one that all entries have after it.
pub insert-Sound {ℓ} :
    {V : Type ℓ} (P : HashTableKey → V → Type 0) (zeroed : V) (alloc alloc_bytes : ℕ → Bool)
    (draw : HashTable V → ℕ × ℕ) (fuel : ℕ) (t : HashTable V) (key : HashTableKey) (value : V)
    (r : ℤ) (t' : HashTable V)
    → ((n : ℕ) → alloc_bytes n ≡ true)
    → Sound P t
    → IsKey key
    → P key value
    → hash_table_insert_impl zeroed alloc alloc_bytes draw fuel t key value ≡ some (r, t')
    → Sound P t'
unfolding hash_table_insert_impl
insert-Sound P zeroed alloc alloc_bytes draw zero t key value r t' copies sound made holds e =
    absurd (none-some e)
insert-Sound P zeroed alloc alloc_bytes draw (suc fuel) t key value r t' copies sound made holds e =
    let insert = hash_table_insert_impl zeroed alloc alloc_bytes draw fuel in
    let keeps : Keeps P insert = λ ht k v q ht' ht_sound k_made v_holds into.
      insert-Sound P zeroed alloc alloc_bytes draw fuel ht k v q ht' copies ht_sound k_made v_holds
        into in
    let (bytes, set) = bytes-IsKey key made in
    elim (Bool-cases (leb t.capacity (t.length + t.length / 2))) [
      | inr roomy ↦
          insert_grown-Sound P zeroed alloc alloc_bytes draw insert keeps copies t key value
            t.length r t' sound made holds (rw (set, hash_table_insert_impl, roomy) at e)
      | inl full ↦ elim (Option-cases (hash_table_grow zeroed alloc insert t)) [
        | inl out ↦ absurd (none-some (rw (set, hash_table_insert_impl, full, out) at e))
        | inr (t₁, grown) ↦
            insert_grown-Sound P zeroed alloc alloc_bytes draw insert keeps copies t₁ key value
              t.length r t'
              (grow-Sound P zeroed alloc alloc_bytes draw insert keeps t t₁ sound grown) made holds
              (rw (set, hash_table_insert_impl, full, grown) at e)
      ]
    ]

-- The same of a name that may be NULL, with which nothing is inserted.
pub insert_name-Sound {ℓ} :
    {V : Type ℓ} (P : HashTableKey → V → Type 0) (zeroed : V) (alloc alloc_bytes : ℕ → Bool)
    (draw : HashTable V → ℕ × ℕ) (fuel : ℕ) (t : HashTable V) (name : Option (List ℕ)) (value : V)
    (r : ℤ) (t' : HashTable V)
    → ((n : ℕ) → alloc_bytes n ≡ true)
    → Sound P t
    → P (hash_table_key_from_bytes name) value
    → hash_table_insert_impl zeroed alloc alloc_bytes draw fuel t
        (hash_table_key_from_bytes name)
        value
      ≡ some (r, t')
    → Sound P t'
unfolding hash_table_insert_impl hash_table_key_from_bytes
insert_name-Sound P zeroed alloc alloc_bytes draw fuel t (some bytes) value r t' copies sound holds
      e =
    insert-Sound P zeroed alloc alloc_bytes draw fuel t _ value r t' copies sound (bytes, refl)
      holds e
insert_name-Sound P zeroed alloc alloc_bytes draw zero t none value r t' copies sound holds e =
    absurd (none-some e)
insert_name-Sound P zeroed alloc alloc_bytes draw (suc fuel) t none value r t' copies sound holds
      e =
    subst (Sound P) (ap (λ q. q.1) (some-injective _ _ e)) sound

pub hash_table_init_impl-Sound {ℓ} :
    {V : Type ℓ} (P : HashTableKey → V → Type 0) (zeroed : V) (alloc : ℕ → Bool) (draw : ℕ × ℕ)
    → alloc 5 ≡ true
    → Sound P (hash_table_init_impl zeroed alloc draw)
unfolding hash_table_init_impl create_table
hash_table_init_impl-Sound P zeroed alloc draw given =
    elim (create_table_lem zeroed alloc 5 (family_random_member draw)) [
      | inl empty ↦
          let slots : (create_table zeroed alloc 5 (family_random_member draw)).capacity ≡ 5 =
            rw (create_table, given) refl in
          absurd (omega arith)
      | inr (valid, free) ↦ record {
        valid = valid;
        all = λ i v full. absurd (true-false (sym (free i) ∙ full));
      }
    ]
