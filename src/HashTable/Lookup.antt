-- ===== src/HashTable/Lookup.antt =====
-- What is found after the writes of `hash_table_insert_impl`.
use mathlib.Core.Path.{subst}
use event_sequence_transform.Prelude.{
  true-false, ℕ, ◌+◌, ◌≤◌, ◌<◌, ◌≡◌, true, false, Option, none, some, arith, refl, sym, ap, ap₂,
  ◌∙◌, ◌==◌, if◌then◌else◌, Bool-cases, Option-cases, inl, inr, length, length-set, ◌⊎◌, ==_iff,
  get_elem?, get_elem?-set_self, get_elem?-set_ne, ◌≢◌,
}
use event_sequence_transform.HashTable.{
  HashTableKey, HashTable, entry_at, initial_position, hash_table_key_equals, find_from,
  hash_table_key_from_bytes,
}
use event_sequence_transform.HashTable.Keys.{IsKey, equals_of_IsKey}
use event_sequence_transform.HashTable.Search.{
  probe_at, probe_at-lt, matches, is_free, is_unset, Passed, FirstMatch, find_from-some,
  find_from-none, find_from-FirstMatch,
}
use event_sequence_transform.HashTable.Inv.{
  IsValid, Reachable, reach, initial_position-lt, free-no_match, absent, lookup, found, value_at,
}
use event_sequence_transform.HashTable.Put.{Written}

made-set : (k : HashTableKey) → IsKey k → is_unset k ≡ false
unfolding hash_table_key_from_bytes
made-set k (bytes, e) = subst (λ q. is_unset q ≡ false) (sym e) refl

module _ {ℓ} {V : Type ℓ} (t : HashTable V) (valid : IsValid t) (key : HashTableKey)
    (made : IsKey key) (i offset : ℕ) (value : V) (t' : HashTable V)
    (at_index : probe_at t.capacity (initial_position key t) offset ≡ i)
    (slot : (is_free t.key_array i ≡ true) ⊎ ((entry_at t.key_array i).key ≡ key))
    (passed : Passed key t.key_array t.capacity (initial_position key t) offset)
    (w : Written t key i offset value t') where
  index-lt : i < t.capacity
  index-lt =
      subst (λ n. n < t.capacity) at_index
        (probe_at-lt t.capacity (initial_position key t) offset
          (initial_position-lt key t valid.some_slot))

  key_here : (entry_at t'.key_array i).key ≡ key
  key_here = w.new_keys i ∙ (rw ((==_iff i i).1 refl) refl)

  key_elsewhere :
      (j : ℕ) → (i == j) ≡ false → (entry_at t'.key_array j).key ≡ (entry_at t.key_array j).key
  key_elsewhere j apart = w.new_keys j ∙ (rw apart refl)

  -- The invariant, at an index.
  Kept : ℕ → Type 0
  Kept j = IsKey (entry_at t'.key_array j).key × Reachable t' (entry_at t'.key_array j).key j

  reach_wider : (k : HashTableKey) → reach t k ≤ reach t' k
  reach_wider k =
      subst (λ p. reach t k ≤ (entry_at t'.key_array p).max_collision_offset)
        (sym (w.same_position k)) (w.wider (initial_position k t))

  same_probe :
      (k : HashTableKey) (o : ℕ)
      → probe_at t'.capacity (initial_position k t') o
        ≡ probe_at t.capacity (initial_position k t) o
  same_probe k o = ap₂ (λ c p. probe_at c p o) w.same_capacity (w.same_position k)

  Reachable-wider : (k : HashTableKey) (j : ℕ) → Reachable t k j → Reachable t' k j
  Reachable-wider k j r = record {
    offset = r.offset;
    within = omega (arith, r.within, reach_wider k);
    at_index = same_probe k r.offset ∙ r.at_index;
  }

  reaches_here : offset ≤ reach t' key
  reaches_here =
      subst (λ p. offset ≤ (entry_at t'.key_array p).max_collision_offset)
        (sym (w.same_position key)) w.reaches

  Reachable-here : Reachable t' key i
  Reachable-here = record {
    offset = offset;
    within = reaches_here;
    at_index = same_probe key offset ∙ at_index;
  }

  kept : (j : ℕ) → j < t.capacity → is_free t'.key_array j ≡ false → Kept j
  unfolding Kept
  kept j h full = elim (Bool-cases (i == j)) [
    | inl here ↦
        let same : (entry_at t'.key_array j).key ≡ key =
          ap (λ n. (entry_at t'.key_array n).key) (sym ((==_iff i j).0 here)) ∙ key_here in
        (
          subst IsKey (sym same) made,
          subst (λ k. Reachable t' k j) (sym same)
              (subst (λ n. Reachable t' key n) ((==_iff i j).0 here) Reachable-here),
        )
    | inr apart ↦
        let same = key_elsewhere j apart in
        let old : is_free t.key_array j ≡ false = ap is_unset (sym same) ∙ full in
        (
          subst IsKey (sym same) (valid.made j h old),
          subst (λ k. Reachable t' k j) (sym same) (Reachable-wider _ j (valid.reachable j h old)),
        )
  ]

  pub written-IsValid : IsValid t'
  unfolding Kept
  written-IsValid = record {
    some_slot = omega (arith, w.same_capacity, valid.some_slot);
    keys = omega (arith, w.same_length, w.same_capacity, valid.keys);
    values =
        ap length w.new_values
        ∙ length-set t.value_array i value
        ∙ valid.values
        ∙ sym w.same_capacity;
    made = λ j h full. (kept j (omega (arith, w.same_capacity)) full).0;
    reachable = λ j h full. (kept j (omega (arith, w.same_capacity)) full).1;
  }

  self : hash_table_key_equals key key ≡ true
  self = (equals_of_IsKey key key made made).1 refl

  -- The key is found where it was written.
  found_here :
      find_from key t'.key_array t'.capacity (reach t' key + 1) (initial_position key t') ≡ some i
  found_here =
      find_from-FirstMatch key t'.key_array t'.capacity (reach t' key + 1) (initial_position key t')
        offset (omega (arith, reaches_here)) first
      ∙ ap some (same_probe key offset ∙ at_index)
    where
      missed :
          (o : ℕ)
          → o < offset
          → matches key t'.key_array (probe_at t'.capacity (initial_position key t') o) ≡ false
      missed o h =
          let p = probe_at t.capacity (initial_position key t) o in
          let full = passed.taken o h in
          let miss = passed.others o h in
          ap (matches key t'.key_array) (same_probe key o) ∙ (elim (Bool-cases (i == p)) [
            | inl here ↦
                let at_p : i ≡ p = (==_iff i p).0 here in
                absurd (elim slot [
                  | inl free ↦
                      let bad : is_free t.key_array p ≡ true =
                        ap (is_free t.key_array) (sym at_p) ∙ free in
                      cc
                  | inr same ↦
                      let bad : matches key t.key_array p ≡ true =
                        ap (matches key t.key_array) (sym at_p)
                        ∙ ap (hash_table_key_equals key) same
                        ∙ self in
                      cc
                ])
            | inr apart ↦ ap (hash_table_key_equals key) (key_elsewhere p apart) ∙ miss
          ])

      first : FirstMatch key t'.key_array t'.capacity (initial_position key t') offset
      first = record {
        here =
            ap (matches key t'.key_array) (same_probe key offset ∙ at_index)
            ∙ ap (hash_table_key_equals key) key_here
            ∙ self;
        not_before = missed;
      }

  module _ (k : HashTableKey) (k_made : IsKey k)
      (differs : hash_table_key_equals k key ≡ false) where
    same_matches : (j : ℕ) → matches k t'.key_array j ≡ matches k t.key_array j
    same_matches j = elim (Bool-cases (i == j)) [
      | inr apart ↦ ap (hash_table_key_equals k) (key_elsewhere j apart)
      | inl here ↦
          let at_j : i ≡ j = (==_iff i j).0 here in
          let new : matches k t'.key_array j ≡ false =
            ap (matches k t'.key_array) (sym at_j)
            ∙ ap (hash_table_key_equals k) key_here
            ∙ differs in
          let old : matches k t.key_array i ≡ false = elim slot [
            | inl free ↦ free-no_match k t.key_array i k_made free
            | inr same ↦ ap (hash_table_key_equals k) same ∙ differs
          ] in
          new ∙ sym old ∙ ap (matches k t.key_array) at_j
    ]

    -- Another key is found where it was, or not at all as before.
    found_elsewhere :
        find_from k t'.key_array t'.capacity (reach t' k + 1) (initial_position k t')
        ≡ find_from k t.key_array t.capacity (reach t k + 1) (initial_position k t)
    found_elsewhere =
        let search = find_from k t.key_array t.capacity (reach t k + 1) (initial_position k t) in
        elim (Option-cases search) [
          | inl none_there ↦ gone none_there ∙ sym none_there
          | inr (j, there) ↦ again j there ∙ sym there
        ]
      where
        at_probe :
            (o : ℕ)
            → matches k t'.key_array (probe_at t'.capacity (initial_position k t') o)
              ≡ matches k t.key_array (probe_at t.capacity (initial_position k t) o)
        at_probe o = ap (matches k t'.key_array) (same_probe k o) ∙ same_matches _

        gone :
            find_from k t.key_array t.capacity (reach t k + 1) (initial_position k t) ≡ none
            → find_from k t'.key_array t'.capacity (reach t' k + 1) (initial_position k t') ≡ none
        gone e =
            find_from-none k t'.key_array t'.capacity (reach t' k + 1) (initial_position k t')
              (λ o h.
                at_probe o
                ∙ absent t valid k k_made (probe_at t.capacity (initial_position k t) o) e (
                    probe_at-lt t.capacity (initial_position k t) o
                      (initial_position-lt k t valid.some_slot)))

        again :
            (j : ℕ)
            → find_from k t.key_array t.capacity (reach t k + 1) (initial_position k t) ≡ some j
            → find_from k t'.key_array t'.capacity (reach t' k + 1) (initial_position k t') ≡ some j
        again j e =
            let (o, within, at_j, m) =
              find_from-some k t.key_array t.capacity (reach t k + 1) (initial_position k t) j e in
            find_from-FirstMatch k t'.key_array t'.capacity (reach t' k + 1) (initial_position k t')
              o (omega (arith, reach_wider k))
              (record {
                here = at_probe o ∙ m.here;
                not_before = λ p h. at_probe p ∙ m.not_before p h;
              })
            ∙ ap some (same_probe k o ∙ at_j)

  value_elsewhere :
      (k : HashTableKey) (o : Option ℕ)
      → IsKey k
      → hash_table_key_equals k key ≡ false
      → found t k ≡ o
      → found t' k ≡ o
      → value_at t' o ≡ value_at t o
  value_elsewhere k none k_made differs e e' = refl
  value_elsewhere k (some j) k_made differs e e' =
      let (o, within, at_j, m) =
        find_from-some k t'.key_array t'.capacity (reach t' k + 1) (initial_position k t') j e' in
      let hit : matches k t'.key_array j ≡ true = ap (matches k t'.key_array) (sym at_j) ∙ m.here in
      let miss : matches k t'.key_array i ≡ false =
        ap (hash_table_key_equals k) key_here ∙ differs in
      let apart : i ≢ j =
        λ same. true-false (sym (ap (matches k t'.key_array) same ∙ hit) ∙ miss) in
      ap (λ vs. get_elem? vs j) w.new_values ∙ get_elem?-set_ne t.value_array value apart

  -- After the writes the key has the value, and every other key what it had.
  pub lookup-written :
      (k : HashTableKey)
      → IsKey k
      → lookup t' k ≡ (if hash_table_key_equals k key then some value else lookup t k)
  unfolding lookup
  lookup-written k k_made = elim (Bool-cases (hash_table_key_equals k key)) [
    | inl same ↦
        let e : k ≡ key = (equals_of_IsKey k key k_made made).0 same in
        let there : found t' k ≡ some i = subst (λ q. found t' q ≡ some i) (sym e) found_here in
        let room : i < length t.value_array = omega (arith, index-lt, valid.values) in
        let read : value_at t' (some i) ≡ some value =
          ap (λ vs. get_elem? vs i) w.new_values ∙ get_elem?-set_self t.value_array i value room in
        ap (value_at t') there ∙ read ∙ (rw same refl)
    | inr differs ↦
        let again = found_elsewhere k k_made differs in
        ap (value_at t') again
        ∙ value_elsewhere k (found t k) k_made differs refl again
        ∙ (rw differs refl)
  ]
