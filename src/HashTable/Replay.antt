-- ===== src/HashTable/Replay.antt =====
-- Counts of slots, and the map that the entries of two arrays make.
use event_sequence_transform.Prelude.{
  true-false, none-some, ℕ, zero, suc, ◌+◌, ◌≤◌, ◌<◌, ◌≡◌, ◌≢◌, Bool, true, false, Option, none,
  some, List, [], ◌∷◌, arith, refl, sym, ap, ◌∙◌, ◌==◌, if◌then◌else◌, inl, inr, length, Bool-cases,
  Option-cases, get_elem?, ==_iff, get_elem?-inside,
}
use event_sequence_transform.HashTable.{
  HashTableKey, HashTableKeyEntry, HashTable, hash_table_key_equals, entry_at,
}
use event_sequence_transform.HashTable.Keys.{IsKey}
use event_sequence_transform.HashTable.Search.{matches, is_free, is_unset}
use event_sequence_transform.HashTable.Inv.{IsValid, lookup, found, value_at, match-eq, absent}
use event_sequence_transform.HashTable.Find.{found_slot, match-taken}

-- How many of the first slots are not free.
abbrev pub used : (ℕ → Bool) → ℕ → ℕ
used free zero = 0
used free (suc n) = used free n + (if free n then 0 else 1)

pub used-none : (free : ℕ → Bool) (n : ℕ) → ((j : ℕ) → free j ≡ true) → used free n ≡ 0
used-none free zero all = refl
used-none free (suc n) all = let now = all n in let before = used-none free n all in ground arith

pub used-room : (free : ℕ → Bool) (n : ℕ) → used free n < n → (j : ℕ) × (j < n) × (free j ≡ true)
used-room free zero h = absurd (omega arith)
used-room free (suc n) h = elim (Bool-cases (free n)) [
  | inl here ↦ (n, omega arith, here)
  | inr full ↦ let (j, below, there) = used-room free n (ground arith) in (j, omega arith, there)
]

pub used-one_more :
    (free free' : ℕ → Bool) (i n : ℕ)
    → ((j : ℕ) → i ≢ j → free' j ≡ free j)
    → (used free' n ≤ used free n + 1) × (n ≤ i → used free' n ≡ used free n)
used-one_more free free' i zero same = (omega arith, λ h. refl)
used-one_more free free' i (suc n) same =
    let (more, equal) = used-one_more free free' i n same in
    elim (Bool-cases (i == n)) [
      | inl here ↦
          let at_n = (==_iff i n).0 here in
          let before = equal (omega arith) in (ground arith, λ h. absurd (omega arith))
      | inr apart ↦
          let other = same n (λ e. (ground arith)) in
          (ground arith, λ h. let before = equal (omega arith) in (ground arith))
    ]

module _ {ℓ} {V : Type ℓ} where
  -- The value of a key after the entries of two arrays are put into a map in order.
  unfoldable pub replay : HashTableKey → List HashTableKeyEntry → List V → Option V → Option V
  replay k (e ∷ es) (v ∷ vs) o = elim e.key.bytes [
    | none ↦ replay k es vs o
    | some _ ↦ replay k es vs (if hash_table_key_equals k e.key then some v else o)
  ]
  replay k _ _ o = o

  replay-miss :
      (k : HashTableKey) (es : List HashTableKeyEntry) (vs : List V) (o : Option V)
      → ((j : ℕ) → j < length es → matches k es j ≡ false)
      → replay k es vs o ≡ o
  unfolding replay
  replay-miss k [] vs o miss = refl
  replay-miss k (e ∷ es) [] o miss = refl
  replay-miss k (e ∷ es) (v ∷ vs) o miss =
      let rest = λ (q : Option V). replay-miss k es vs q (λ j h. miss (suc j) (omega arith)) in
      elim (Option-cases e.key.bytes) [
        | inl free ↦ rw (free, replay) (rest o)
        | inr (bytes, full) ↦
            let head : hash_table_key_equals k e.key ≡ false = miss 0 (omega arith) in
            rw (full, replay, head) (rest o)
      ]

  replay-hit :
      (k : HashTableKey) (es : List HashTableKeyEntry) (vs : List V) (o : Option V) (i : ℕ) (v : V)
      → i < length es
      → is_free es i ≡ false
      → matches k es i ≡ true
      → ((j : ℕ) → j < length es → i ≢ j → matches k es j ≡ false)
      → get_elem? vs i ≡ some v
      → replay k es vs o ≡ some v
  unfolding replay
  replay-hit k [] vs o i v inside full hit miss there = absurd (omega arith)
  replay-hit k (e ∷ es) [] o i v inside full hit miss there = absurd (none-some there)
  replay-hit k (e ∷ es) (x ∷ vs) o zero v inside full hit miss there =
      elim (Option-cases e.key.bytes) [
        | inl unset ↦
            let free : is_unset e.key ≡ true = rw (unset, is_unset) refl in
            absurd (true-false (sym free ∙ full))
        | inr (bytes, set) ↦
            let rest =
              replay-miss k es vs (some x)
                (λ j h. miss (suc j) (omega arith) (λ same. (omega arith))) in
            rw (set, replay, hit) (rest ∙ there)
      ]
  replay-hit k (e ∷ es) (x ∷ vs) o (suc i) v inside full hit miss there =
      let rest = λ (q : Option V).
        replay-hit k es vs q i v (omega arith) full hit
          (λ j h apart. miss (suc j) (omega arith) (λ same. apart (omega arith))) there in
      elim (Option-cases e.key.bytes) [
        | inl unset ↦ rw (unset, replay) (rest o)
        | inr (bytes, set) ↦
            let head : hash_table_key_equals k e.key ≡ false =
              miss 0 (omega arith) (λ same. (omega arith)) in
            rw (set, replay, head) (rest o)
      ]

  -- No key is in two slots.
  unfoldable pub IsDistinct : HashTable V → Type 0
  IsDistinct t =
      (i j : ℕ)
      → i < t.capacity
      → j < t.capacity
      → is_free t.key_array i ≡ false
      → (entry_at t.key_array i).key ≡ (entry_at t.key_array j).key
      → i ≡ j

  -- The entries of such a table, put into an empty map, are the map that it stands for.
  pub replay-lookup :
      (t : HashTable V) (k : HashTableKey)
      → IsValid t
      → IsDistinct t
      → IsKey k
      → replay k t.key_array t.value_array none ≡ lookup t k
  unfolding lookup IsDistinct
  replay-lookup t k valid distinct made = elim (Option-cases (found t k)) [
    | inl nothing ↦
        let miss : (j : ℕ) → j < length t.key_array → matches k t.key_array j ≡ false =
          λ j h. absent t valid k made j nothing (omega (arith, valid.keys)) in
        replay-miss k t.key_array t.value_array none miss ∙ sym (ap (value_at t) nothing)
    | inr (i, at_i) ↦
        let (inside, hit) = found_slot t valid k made i at_i in
        let full = match-taken t valid k made i hit in
        let this = (match-eq t valid k made i inside full).0 hit in
        let only : (j : ℕ) → j < length t.key_array → i ≢ j → matches k t.key_array j ≡ false =
          λ j h apart. elim (Bool-cases (matches k t.key_array j)) [
            | inr miss ↦ miss
            | inl other ↦
                let below : j < t.capacity = omega (arith, valid.keys) in
                let taken = match-taken t valid k made j other in
                let that = (match-eq t valid k made j below taken).0 other in
                absurd (apart (distinct i j inside below full (sym this ∙ that)))
          ] in
        let (v, there) = get_elem?-inside t.value_array i (omega (arith, valid.values)) in
        replay-hit k t.key_array t.value_array none i v (omega (arith, valid.keys)) full hit only
          there
        ∙ sym (ap (value_at t) at_i ∙ there)
  ]
