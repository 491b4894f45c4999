-- ===== src/HashTable/Put.antt =====
-- The writes of `hash_table_insert_impl`, and that the invariant outlasts them.
use mathlib.Core.Path.{subst}
use event_sequence_transform.Prelude.{
  ℕ, ◌≤◌, ◌<◌, ◌≡◌, Option, none, some, List, arith, refl, sym, ap, ◌∙◌, ◌==◌, if◌then◌else◌,
  Bool-cases, inl, inr, length, set, get_or-set, length-set, ltb, ==_iff, ltb→lt, not_ltb→le,
}
use event_sequence_transform.HashTable.{
  HashTableKey, HashTableKeyEntry, HashTable, entry_at, null_entry, initial_position, write_slot,
}
use event_sequence_transform.HashTable.Inv.{IsValid, initial_position-lt}

-- The offset at the base, brought up to date.
abbrev pub mark : List HashTableKeyEntry → ℕ → ℕ → List HashTableKeyEntry
mark es base offset =
    if ltb (entry_at es base).max_collision_offset offset
    then set es base (record (entry_at es base) { max_collision_offset = offset })
    else es

module _ (es : List HashTableKeyEntry) (base offset : ℕ) (inside : base < length es) where
  length-mark : length (mark es base offset) ≡ length es
  length-mark = elim (Bool-cases (ltb (entry_at es base).max_collision_offset offset)) [
    | inl up ↦
        rw up (length-set es base (record (entry_at es base) { max_collision_offset = offset }))
    | inr keep ↦ rw keep refl
  ]

  -- Every entry keeps its key, and its offset does not fall.
  entry-mark :
      (j : ℕ)
      → ((entry_at (mark es base offset) j).key ≡ (entry_at es j).key)
        × ((entry_at es j).max_collision_offset
            ≤ (entry_at (mark es base offset) j).max_collision_offset)
  entry-mark j =
      let e : HashTableKeyEntry = record (entry_at es base) { max_collision_offset = offset } in
      let read = get_or-set es base j e null_entry inside in
      elim (Bool-cases (ltb (entry_at es base).max_collision_offset offset)) [
        | inr keep ↦ rw keep (refl, omega arith)
        | inl up ↦ elim (Bool-cases (base == j)) [
          | inr apart ↦
              let same : entry_at (set es base e) j ≡ entry_at es j = read ∙ (rw apart refl) in
              rw (up, same) (refl, omega arith)
          | inl here ↦
              let this : entry_at (set es base e) j ≡ e = read ∙ (rw here refl) in
              let at_base : base ≡ j = (==_iff base j).0 here in
              let more = ltb→lt _ _ up in
              rw (up, this)
                (
                  ap (λ k. (entry_at es k).key) at_base,
                  subst (λ k. (entry_at es k).max_collision_offset ≤ offset) at_base (omega arith),
                )
        ]
      ]

  offset-mark : offset ≤ (entry_at (mark es base offset) base).max_collision_offset
  offset-mark =
      let e : HashTableKeyEntry = record (entry_at es base) { max_collision_offset = offset } in
      let read = get_or-set es base base e null_entry inside in
      elim (Bool-cases (ltb (entry_at es base).max_collision_offset offset)) [
        | inr keep ↦ rw keep (not_ltb→le _ _ keep)
        | inl up ↦
            let this : entry_at (set es base e) base ≡ e =
              read ∙ (rw ((==_iff base base).1 refl) refl) in
            rw (up, this) (omega arith)
      ]

-- A write of a key to an entry.
module _ (es : List HashTableKeyEntry) (i : ℕ) (key : HashTableKey) (inside : i < length es) where
  abbrev keyed : List HashTableKeyEntry
  keyed = set es i (record (entry_at es i) { key = key })

  pub entry-keyed :
      (j : ℕ)
      → ((entry_at keyed j).key ≡ (if i == j then key else (entry_at es j).key))
        × ((entry_at keyed j).max_collision_offset ≡ (entry_at es j).max_collision_offset)
  entry-keyed j =
      let e : HashTableKeyEntry = record (entry_at es i) { key = key } in
      let read = get_or-set es i j e null_entry inside in
      elim (Bool-cases (i == j)) [
        | inr apart ↦
            let same : entry_at (set es i e) j ≡ entry_at es j = read ∙ (rw apart refl) in
            rw (apart, same) (refl, refl)
        | inl here ↦
            let this : entry_at (set es i e) j ≡ e = read ∙ (rw here refl) in
            rw (here, this)
              (refl, ap (λ k. (entry_at es k).max_collision_offset) ((==_iff i j).0 here))
      ]

module _ {ℓ} {V : Type ℓ} where
  -- A table after the writes for a key at an index, at an offset from its base.
  pub record Written (t : HashTable V) (key : HashTableKey) (i offset : ℕ) (value : V)
      (t' : HashTable V) : Type ℓ where
    pub same_capacity : t'.capacity ≡ t.capacity
    pub same_position : (k : HashTableKey) → initial_position k t' ≡ initial_position k t
    pub same_length : length t'.key_array ≡ length t.key_array
    pub new_values : t'.value_array ≡ set t.value_array i value
    pub new_keys :
        (j : ℕ)
        → (entry_at t'.key_array j).key ≡ (if i == j then key else (entry_at t.key_array j).key)
    pub wider :
        (j : ℕ)
        → (entry_at t.key_array j).max_collision_offset
          ≤ (entry_at t'.key_array j).max_collision_offset
    pub reaches : offset ≤ (entry_at t'.key_array (initial_position key t)).max_collision_offset

  module _ (t : HashTable V) (valid : IsValid t) (key : HashTableKey) (i offset : ℕ) (value : V)
      (n : ℕ) (inside : i < t.capacity) where
    base_inside : initial_position key t < length t.key_array
    base_inside = omega (arith, initial_position-lt key t valid.some_slot, valid.keys)

    write_slot_position :
        (new_key : Option HashTableKey) (k : HashTableKey)
        → initial_position k (write_slot t (initial_position key t) i offset new_key value n)
          ≡ initial_position k t
    unfolding write_slot initial_position
    write_slot_position new_key k = refl

    pub write_slot-free :
        Written t key i offset value
          (write_slot t (initial_position key t) i offset (some key) value n)
    unfolding write_slot
    write_slot-free =
        let base = initial_position key t in
        let es = t.key_array in
        let marked = mark es base offset in
        let in_marked : i < length marked =
          omega (arith, length-mark es base offset base_inside, valid.keys) in
        let old = entry-mark es base offset base_inside in
        let new = entry-keyed marked i key in_marked in
        record {
          same_capacity = refl;
          same_position = λ k. write_slot_position (some key) k;
          same_length =
              length-set marked i (record (entry_at marked i) { key = key })
              ∙ length-mark es base offset base_inside;
          new_values = refl;
          new_keys = λ j. (new j).0 ∙ ap (λ k. if i == j then key else k) (old j).0;
          wider =
              λ j. subst (λ m. (entry_at es j).max_collision_offset ≤ m) (sym (new j).1) (old j).1;
          reaches =
              subst (λ m. offset ≤ m) (sym (new base).1) (offset-mark es base offset base_inside);
        }

    pub write_slot-same :
        (entry_at t.key_array i).key ≡ key
        → Written t key i offset value (write_slot t (initial_position key t) i offset none value n)
    unfolding write_slot
    write_slot-same this =
        let base = initial_position key t in
        let es = t.key_array in
        let old = entry-mark es base offset base_inside in
        record {
          same_capacity = refl;
          same_position = λ k. write_slot_position none k;
          same_length = length-mark es base offset base_inside;
          new_values = refl;
          new_keys = λ j. (old j).0 ∙ key_there j;
          wider = λ j. (old j).1;
          reaches = offset-mark es base offset base_inside;
        }
      where
        key_there :
            (j : ℕ)
            → (entry_at t.key_array j).key ≡ (if i == j then key else (entry_at t.key_array j).key)
        key_there j = elim (Bool-cases (i == j)) [
          | inr apart ↦ rw apart refl
          | inl here ↦
              rw here (ap (λ k. (entry_at t.key_array k).key) (sym ((==_iff i j).0 here)) ∙ this)
        ]
