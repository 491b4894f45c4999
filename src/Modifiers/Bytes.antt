-- ===== src/Modifiers/Bytes.antt =====
-- What the updates of modifiers.h do to each byte.
use event_sequence_transform.Prelude.{
  ℕ, zero, suc, ◌-◌, ◌≤◌, ◌≡◌, Bool, true, false, List, [], ◌∷◌, ◌++◌, arith, length, get_or, ltb,
  if◌then◌else◌, refl, ap, replicate, length-append, length-replicate,
}
use event_sequence_transform.Modifiers.{
  ModifierSet, byte_length, modifier_set_extend, combine_bytes,
}

get_or-replicate : (n i d : ℕ) → get_or (replicate n d) i d ≡ d
get_or-replicate zero i d = refl
get_or-replicate (suc n) zero d = refl
get_or-replicate (suc n) (suc i) d = get_or-replicate n i d

-- Zero bytes at the end are not seen by a read with default 0.
pub get_or-append_zeros : (bs : List ℕ) (n i : ℕ) → get_or (bs ++ replicate n 0) i 0 ≡ get_or bs i 0
get_or-append_zeros [] n i = get_or-replicate n i 0
get_or-append_zeros (b ∷ bs) n zero = refl
get_or-append_zeros (b ∷ bs) n (suc i) = get_or-append_zeros bs n i

pub get_or_past_end : (bs : List ℕ) (i : ℕ) → length bs ≤ i → get_or bs i 0 ≡ 0
get_or_past_end [] i h = refl
get_or_past_end (b ∷ bs) zero h = absurd (omega arith)
get_or_past_end (b ∷ bs) (suc i) h = get_or_past_end bs i (omega arith)

module _ (alloc : ℕ → Bool) (s : ModifierSet) (n : ℕ) where
  -- Extending changes no byte that is read with default 0.
  pub get_or-extend :
      (i : ℕ) → get_or (modifier_set_extend alloc s n).1.bits i 0 ≡ get_or s.bits i 0
  unfolding modifier_set_extend
  get_or-extend i = ground (arith, get_or-append_zeros s.bits (n - byte_length s) i)

  -- A successful extension makes room for `n` bytes.
  pub length-extend :
      (modifier_set_extend alloc s n).0 ≡ true → n ≤ byte_length (modifier_set_extend alloc s n).1
  unfolding modifier_set_extend
  length-extend = ground (
    arith,
    length-append s.bits (replicate (n - byte_length s) 0),
    length-replicate {A = ℕ} (n - byte_length s) 0,
  )

  -- An extension to what is there already succeeds, and so does one that gets its memory.
  pub extend_succeeds :
      (ltb (byte_length s) n ≡ true → alloc n ≡ true) → (modifier_set_extend alloc s n).0 ≡ true
  unfolding modifier_set_extend
  extend_succeeds got = ground arith

  pub extend_fails :
      (modifier_set_extend alloc s n).0 ≡ false → (modifier_set_extend alloc s n).1 ≡ s
  unfolding modifier_set_extend
  extend_fails = ground arith

-- Byte `i` of the loops over two sets.
pub get_or-combine_bytes :
    (f : ℕ → ℕ → ℕ) (ts ss : List ℕ) (i : ℕ)
    → get_or (combine_bytes f ts ss) i 0 ≡ (
        if ltb i (length ts)
        then (if ltb i (length ss) then f (get_or ts i 0) (get_or ss i 0) else get_or ts i 0)
        else 0)
unfolding combine_bytes
get_or-combine_bytes f [] ss i = ground arith
get_or-combine_bytes f (t ∷ ts) [] i = ground (arith, get_or_past_end (t ∷ ts) i)
get_or-combine_bytes f (t ∷ ts) (s ∷ ss) zero = ground arith
get_or-combine_bytes f (t ∷ ts) (s ∷ ss) (suc i) = ground (arith, get_or-combine_bytes f ts ss i)

pub length-combine_bytes :
    (f : ℕ → ℕ → ℕ) (ts ss : List ℕ) → length (combine_bytes f ts ss) ≡ length ts
unfolding combine_bytes
length-combine_bytes f [] ss = refl
length-combine_bytes f (t ∷ ts) [] = refl
length-combine_bytes f (t ∷ ts) (s ∷ ss) = ap suc (length-combine_bytes f ts ss)
