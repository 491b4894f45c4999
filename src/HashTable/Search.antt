-- ===== src/HashTable/Search.antt =====
-- Where the two loops of hash_table.c end, by the offset from the first index.
pub mod Cover
use native.Mathlib.Nat.{mod-lt}
use mathlib.Core.Path.{subst}
use event_sequence_transform.Prelude.{
  ℕ, zero, suc, ◌+◌, ◌≤◌, ◌<◌, ◌≡◌, Bool, true, false, Option, none, some, List, arith, refl, sym,
  ap, ◌∙◌, ◌==◌, if◌then◌else◌, Bool-cases, Option-cases, inl, inr, ◌%◌, ◌⊎◌,
}
use event_sequence_transform.HashTable.{
  HashTableKey, HashTableKeyEntry, hash_table_key_equals, entry_at, probe_next, Slot, free_slot,
  same_slot, no_slot, search_slot, find_from,
}

-- The index at an offset.
unfoldable pub probe_at : ℕ → ℕ → ℕ → ℕ
unfolding probe_next
probe_at capacity i zero = i
probe_at capacity i (suc offset) = probe_at capacity (probe_next i capacity) offset

pub probe_next-lt : (i capacity : ℕ) → 0 < capacity → probe_next i capacity < capacity
unfolding probe_next
probe_next-lt i capacity h = mod-lt (i + 1) h

pub probe_at-lt : (capacity i offset : ℕ) → i < capacity → probe_at capacity i offset < capacity
unfolding probe_at
probe_at-lt capacity i zero h = h
probe_at-lt capacity i (suc offset) h =
    probe_at-lt capacity (probe_next i capacity) offset (probe_next-lt i capacity (omega arith))

-- The tests of the loops.
abbrev pub matches : HashTableKey → List HashTableKeyEntry → ℕ → Bool
matches key entries i = hash_table_key_equals key (entry_at entries i).key

abbrev pub is_unset : HashTableKey → Bool
is_unset key = elim key.bytes [ none ↦ true | some _ ↦ false ]

abbrev pub is_free : List HashTableKeyEntry → ℕ → Bool
is_free entries i = is_unset (entry_at entries i).key

module _ (key : HashTableKey) (entries : List HashTableKeyEntry) (capacity : ℕ) where
  -- The first match is at an offset.
  pub record FirstMatch (i offset : ℕ) : Type 0 where
    pub here : matches key entries (probe_at capacity i offset) ≡ true
    pub not_before : (o : ℕ) → o < offset → matches key entries (probe_at capacity i o) ≡ false

  FirstMatch-later :
      (i offset : ℕ)
      → matches key entries i ≡ false
      → FirstMatch (probe_next i capacity) offset
      → FirstMatch i (suc offset)
  unfolding probe_at
  FirstMatch-later i offset miss m = record { here = m.here; not_before = λ o h. earlier o h }
    where
      earlier : (o : ℕ) → o < suc offset → matches key entries (probe_at capacity i o) ≡ false
      earlier zero h = miss
      earlier (suc o) h = m.not_before o (omega arith)

  -- A result of the search is a first match within its rounds.
  pub find_from-some :
      (left i j : ℕ)
      → find_from key entries capacity left i ≡ some j
      → (offset : ℕ) × (offset < left) × (probe_at capacity i offset ≡ j) × FirstMatch i offset
  unfolding find_from probe_at
  find_from-some zero i j h = absurd (ground arith)
  find_from-some (suc left) i j h = elim (Bool-cases (matches key entries i)) [
    | inl hit ↦
        let here : some i ≡ some j = (rw (hit, find_from) at h) in
        (0, omega arith, cc, record { here = hit; not_before = λ o p. absurd (omega arith) })
    | inr miss ↦
        let rest : find_from key entries capacity left (probe_next i capacity) ≡ some j =
          (rw (miss, find_from) at h) in
        let (offset, within, at_j, m) = find_from-some left (probe_next i capacity) j rest in
        (suc offset, omega arith, at_j, FirstMatch-later i offset miss m)
  ]

  pub find_from-FirstMatch :
      (left i offset : ℕ)
      → offset < left
      → FirstMatch i offset
      → find_from key entries capacity left i ≡ some (probe_at capacity i offset)
  unfolding find_from probe_at
  find_from-FirstMatch zero i offset h m = absurd (omega arith)
  find_from-FirstMatch (suc left) i zero h m = let hit = m.here in rw (hit, find_from) refl
  find_from-FirstMatch (suc left) i (suc offset) h m =
      let miss : matches key entries i ≡ false = m.not_before 0 (omega arith) in
      let rest =
        find_from-FirstMatch left (probe_next i capacity) offset (omega arith)
          (record { here = m.here; not_before = λ o p. m.not_before (suc o) (omega arith) }) in
      let step : find_from key entries capacity (suc left) i
          ≡ find_from key entries capacity left (probe_next i capacity) =
        rw (miss, find_from) refl in
      step ∙ rest

  -- No result is no match within the rounds.
  pub find_from-none :
      (left i : ℕ)
      → ((offset : ℕ) → offset < left → matches key entries (probe_at capacity i offset) ≡ false)
      → find_from key entries capacity left i ≡ none
  unfolding find_from probe_at
  find_from-none zero i h = refl
  find_from-none (suc left) i h =
      let miss = h 0 (omega arith) in
      let step : find_from key entries capacity (suc left) i
          ≡ find_from key entries capacity left (probe_next i capacity) =
        rw (miss, find_from) refl in
      step ∙ find_from-none left (probe_next i capacity) (λ offset p. h (suc offset) (omega arith))

  pub none-find_from :
      (left i offset : ℕ)
      → find_from key entries capacity left i ≡ none
      → offset < left
      → matches key entries (probe_at capacity i offset) ≡ false
  unfolding find_from probe_at
  none-find_from zero i offset e h = absurd (omega arith)
  none-find_from (suc left) i zero e h = elim (Bool-cases (matches key entries i)) [
    | inl hit ↦ let bad : some i ≡ none = (rw (hit, find_from) at e) in absurd (ground arith)
    | inr miss ↦ miss
  ]
  none-find_from (suc left) i (suc offset) e h = elim (Bool-cases (matches key entries i)) [
    | inl hit ↦ let bad : some i ≡ none = (rw (hit, find_from) at e) in absurd (ground arith)
    | inr miss ↦
        none-find_from left (probe_next i capacity) offset (rw (miss, find_from) at e) (omega arith)
  ]

  -- What `search_slot` says of the slots that it passes.
  pub record Passed (i offset : ℕ) : Type 0 where
    pub taken : (o : ℕ) → o < offset → is_free entries (probe_at capacity i o) ≡ false
    pub others : (o : ℕ) → o < offset → matches key entries (probe_at capacity i o) ≡ false

  -- How the search for a slot ends, with the offset counted from `i`, which is itself `start` from the
  -- base.
  pub data Ended (left i start : ℕ) : Slot → Type 0 where
    ended_free :
        (o : ℕ) (c : Bool)
        → o < left
        → is_free entries (probe_at capacity i o) ≡ true
        → Passed i o
        → Ended left i start (free_slot (probe_at capacity i o) (start + o) c)
    ended_same :
        (o : ℕ) (c : Bool)
        → o < left
        → is_free entries (probe_at capacity i o) ≡ false
        → matches key entries (probe_at capacity i o) ≡ true
        → Passed i o
        → Ended left i start (same_slot (probe_at capacity i o) (start + o) c)
    ended_full : Passed i left → Ended left i start no_slot

  Passed-later :
      (i offset : ℕ)
      → is_free entries i ≡ false
      → matches key entries i ≡ false
      → Passed (probe_next i capacity) offset
      → Passed i (suc offset)
  unfolding probe_at
  Passed-later i offset full miss p = record {
    taken = λ o h. taken_before o h;
    others = λ o h. missed_before o h;
  }
    where
      taken_before : (o : ℕ) → o < suc offset → is_free entries (probe_at capacity i o) ≡ false
      taken_before zero h = full
      taken_before (suc o) h = p.taken o (omega arith)

      missed_before : (o : ℕ) → o < suc offset → matches key entries (probe_at capacity i o) ≡ false
      missed_before zero h = miss
      missed_before (suc o) h = p.others o (omega arith)

  nothing-Passed : (i : ℕ) → Passed i 0
  nothing-Passed i = record {
    taken = λ o h. absurd (omega arith);
    others = λ o h. absurd (omega arith);
  }

  Ended-later :
      (left i start : ℕ) (slot : Slot)
      → is_free entries i ≡ false
      → matches key entries i ≡ false
      → Ended left (probe_next i capacity) (start + 1) slot
      → Ended (suc left) i start slot
  unfolding probe_at
  Ended-later left i start slot full miss (ended_free o c h free p) =
      let count : start + 1 + o ≡ start + suc o = omega arith in
      subst
        (λ n.
          Ended (suc left) i start (free_slot (probe_at capacity (probe_next i capacity) o) n c))
        (sym count) (ended_free (suc o) c (omega arith) free (Passed-later i o full miss p))
  Ended-later left i start slot full miss (ended_same o c h taken same p) =
      let count : start + 1 + o ≡ start + suc o = omega arith in
      subst
        (λ n.
          Ended (suc left) i start (same_slot (probe_at capacity (probe_next i capacity) o) n c))
        (sym count) (ended_same (suc o) c (omega arith) taken same (Passed-later i o full miss p))
  Ended-later left i start slot full miss (ended_full p) =
      ended_full (Passed-later i left full miss p)

  at_start : (start : ℕ) → start + 0 ≡ start
  at_start start = omega arith

  pub search_slot-Ended :
      (left i start : ℕ) (c : Bool)
      → Ended left i start (search_slot key entries capacity left i start c)
  unfolding search_slot probe_at
  search_slot-Ended zero i start c = ended_full (nothing-Passed i)
  search_slot-Ended (suc left) i start c = elim (Option-cases (entry_at entries i).key.bytes) [
    | inl free ↦
        let is : is_free entries i ≡ true = rw (free, is_unset) refl in
        let stop : search_slot key entries capacity (suc left) i start c ≡ free_slot i start c =
          rw (free, search_slot) refl in
        rw stop (
          subst (λ n. Ended (suc left) i start (free_slot i n c)) (at_start start)
            (ended_free 0 c (omega arith) is (nothing-Passed i)))
    | inr (bytes, full) ↦
        let is : is_free entries i ≡ false = rw (full, is_unset) refl in
        (elim (Bool-cases (matches key entries i)) [
          | inl same ↦
              let stop : search_slot key entries capacity (suc left) i start c
                  ≡ same_slot i start c =
                rw (full, search_slot, same) refl in
              rw stop (
                subst (λ n. Ended (suc left) i start (same_slot i n c)) (at_start start)
                  (ended_same 0 c (omega arith) is same (nothing-Passed i)))
          | inr miss ↦
              let c' = if c then true else key.pre_hash == (entry_at entries i).key.pre_hash in
              let next : search_slot key entries capacity (suc left) i start c
                  ≡ search_slot key entries capacity left (probe_next i capacity) (start + 1) c' =
                rw (full, search_slot, miss) refl in
              rw next (
                Ended-later left i start _ is miss
                  (search_slot-Ended left (probe_next i capacity) (start + 1) c'))
        ])
  ]

-- The search reads no more of the entries than whether they match.
pub find_from-matches :
    (key : HashTableKey) (es es' : List HashTableKeyEntry) (capacity left i : ℕ)
    → ((j : ℕ) → matches key es j ≡ matches key es' j)
    → find_from key es capacity left i ≡ find_from key es' capacity left i
unfolding find_from
find_from-matches key es es' capacity zero i same = refl
find_from-matches key es es' capacity (suc left) i same = elim (Bool-cases (matches key es i)) [
  | inl hit ↦
      let hit' = sym (same i) ∙ hit in
      let run : find_from key es capacity (suc left) i ≡ some i = rw (find_from, hit) refl in
      let run' : find_from key es' capacity (suc left) i ≡ some i = rw (find_from, hit') refl in
      run ∙ sym run'
  | inr miss ↦
      let miss' = sym (same i) ∙ miss in
      let next = probe_next i capacity in
      let run : find_from key es capacity (suc left) i ≡ find_from key es capacity left next =
        rw (find_from, miss) refl in
      let run' : find_from key es' capacity (suc left) i ≡ find_from key es' capacity left next =
        rw (find_from, miss') refl in
      run ∙ find_from-matches key es es' capacity left next same ∙ sym run'
]
