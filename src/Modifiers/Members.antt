-- ===== src/Modifiers/Members.antt =====
-- The set of members that a ModifierSet stands for, and what each operation does to it.
use Prim.Native.Nat.{bit_and, bit_or, bit_xor}
use native.Mathlib.Nat.{one-le-pow, pow-le-pow_right}
use event_sequence_transform.Prelude.{
  ℕ, zero, suc, ◌+◌, ◌-◌, ◌*◌, ◌/◌, ◌%◌, ◌^◌, ◌≤◌, ◌<◌, ◌≡◌, ◌≢◌, Bool, true, false, arith, get_or,
  leb, ◌==◌, if◌then◌else◌, refl, ap, ◌∙◌, set, get_or-set, not, Bool-cases, inl, inr, leb→le,
  ==_iff, dec_lt,
}
use event_sequence_transform.Prelude.Bits.{
  bit, bit-lt, bit_of_zero, bit-bit_or, bit-bit_and, bit-bit_xor, bit-pow_self, bit-pow_ne,
  bit_and-pow, bit-complement, bit_and_seven, differ_lem,
}
use event_sequence_transform.Modifiers.{
  ModifierSet, byte_length, modifier_index_and_mask, modifier_set_has, modifier_set_extend,
  modifier_set_set, modifier_set_unset, modifier_set_toggle, complement_byte,
}
use event_sequence_transform.Modifiers.Bytes.{
  get_or-extend, length-extend, extend_succeeds, get_or_past_end,
}

-- Digit `e` of the array.
abbrev pub member : ModifierSet → ℕ → ℕ
member s e = bit (get_or s.bits (e / 8) 0) (e % 8)

digit_test : (b p : ℕ) → b < 2 → 0 < p → not (b * p == 0) ≡ (b == 1)
digit_test zero p h pos = ground arith
digit_test (suc zero) p h pos = ground arith
digit_test (suc (suc b)) p h pos = absurd (omega arith)

digit_flip : (b : ℕ) → b < 2 → (1 - b == 1) ≡ not (b == 1)
digit_flip zero h = refl
digit_flip (suc zero) h = refl
digit_flip (suc (suc b)) h = absurd (omega arith)

-- `modifier_set_has` reads the digit of the member.
pub modifier_set_has_lem : (s : ModifierSet) (e : ℕ) → modifier_set_has s e ≡ (member s e == 1)
unfolding modifier_set_has modifier_index_and_mask
modifier_set_has_lem s e =
    let x = get_or s.bits (e / 8) 0 in
    elim (Bool-cases (leb (byte_length s) (e / 8))) [
      | inl out ↦ rw (out, get_or_past_end s.bits (e / 8) (leb→le _ _ out), bit_of_zero) refl
      | inr in_range ↦
          rw (in_range, bit_and_seven e, bit_and-pow (e % 8) x)
            (digit_test (bit x (e % 8)) (2 ^ (e % 8)) (bit-lt x (e % 8))
              (one-le-pow (e % 8) 2 (omega arith)))
    ]

mask-lt : (k : ℕ) → k < 8 → 2 ^ k < 2 ^ 8
mask-lt k h = omega (arith, pow-le-pow_right {n = 2} (omega arith) {i = k} {j = 7} (omega arith))

-- The mask of `e` at another member's digit.
mask_digit : (e j : ℕ) → e / 8 ≡ j / 8 → bit (2 ^ (e % 8)) (j % 8) ≡ (if e == j then 1 else 0)
mask_digit e j h = elim (Bool-cases (e == j)) [
  | inl same ↦ let e₁ = (==_iff e j).0 same in rw (same, e₁) (bit-pow_self (j % 8))
  | inr other ↦
      let apart : e ≢ j = ground arith in
      rw other (bit-pow_ne (e % 8) (j % 8) (λ p. apart (omega arith)))
]

-- A write to the byte of `e` is seen by the members of that byte only.
member-set :
    (s : ModifierSet) (e j v : ℕ)
    → e / 8 < byte_length s
    → member (record { bits = set s.bits (e / 8) v }) j
      ≡ (if e / 8 == j / 8 then bit v (j % 8) else member s j)
member-set s e j v h =
    ap (λ x. bit x (j % 8)) (get_or-set s.bits (e / 8) (j / 8) v 0 h)
    ∙ (elim (Bool-cases (e / 8 == j / 8)) [ inl same ↦ rw same | inr other ↦ rw other ])

-- The three updates at a digit of the byte that is written.
module _ (x e j : ℕ) (same_byte : e / 8 ≡ j / 8) where
  or_digit : bit (bit_or x (2 ^ (e % 8))) (j % 8) ≡ (if e == j then 1 else bit x (j % 8))
  or_digit =
      ground (arith, bit-bit_or (j % 8) x (2 ^ (e % 8)), mask_digit e j same_byte, bit-lt x (j % 8))

  xor_digit :
      bit (bit_xor x (2 ^ (e % 8))) (j % 8) ≡ (if e == j then 1 - bit x (j % 8) else bit x (j % 8))
  xor_digit = ground (
    arith,
    bit-bit_xor (j % 8) x (2 ^ (e % 8)),
    differ_lem (bit x (j % 8)) (bit (2 ^ (e % 8)) (j % 8)),
    mask_digit e j same_byte,
    bit-lt x (j % 8),
  )

  and_digit :
      bit (bit_and x (complement_byte (2 ^ (e % 8)))) (j % 8)
      ≡ (if e == j then 0 else bit x (j % 8))
  and_digit = ground (
    arith,
    bit-bit_and (j % 8) x (complement_byte (2 ^ (e % 8))),
    bit-complement 8 (2 ^ (e % 8)) (j % 8) (mask-lt (e % 8) (omega arith)) (omega arith),
    mask_digit e j same_byte,
    bit-lt x (j % 8),
  )

-- A write of `v` to the byte of `e`, where digit `j` of `v` is the old one but for `j` = `e`.
written_digit :
    (s : ModifierSet) (e j v new : ℕ)
    → e / 8 < byte_length s
    → (e / 8 ≡ j / 8
        → bit v (j % 8) ≡ (if e == j then new else bit (get_or s.bits (e / 8) 0) (j % 8)))
    → member (record { bits = set s.bits (e / 8) v }) j ≡ (if e == j then new else member s j)
written_digit s e j v new inside digit = elim (Bool-cases (e / 8 == j / 8)) [
  | inl here ↦
      let same = (==_iff _ _).0 here in
      member-set s e j v inside
      ∙ rw here
          (digit same ∙ ap (λ k. if e == j then new else bit (get_or s.bits k 0) (j % 8)) same)
  | inr away ↦
      let other : (e == j) ≡ false = ground arith in
      member-set s e j v inside ∙ rw (away, other) refl
]

-- The results as bytes.
module _ (alloc : ℕ → Bool) (s : ModifierSet) (e : ℕ) (got : alloc (e / 8 + 1) ≡ true) where
  abbrev extended : ModifierSet
  extended = (modifier_set_extend alloc s (e / 8 + 1)).1

  grown : (modifier_set_extend alloc s (e / 8 + 1)).0 ≡ true
  grown = extend_succeeds alloc s (e / 8 + 1) (λ _. got)

  abbrev old_byte : ℕ
  old_byte = get_or extended.bits (e / 8) 0

  set_bytes :
      modifier_set_set alloc s e
      ≡ record { bits = set extended.bits (e / 8) (bit_or old_byte (2 ^ (e % 8))) }
  unfolding modifier_set_set
  set_bytes = rw (bit_and_seven e, grown)

  toggle_bytes :
      modifier_set_toggle alloc s e
      ≡ record { bits = set extended.bits (e / 8) (bit_xor old_byte (2 ^ (e % 8))) }
  unfolding modifier_set_toggle
  toggle_bytes = rw (bit_and_seven e, grown)

  module _ (j : ℕ) where
    inside : e / 8 < byte_length extended
    inside = omega (arith, length-extend alloc s (e / 8 + 1) grown)

    member-extended : member extended j ≡ member s j
    member-extended = ap (λ x. bit x (j % 8)) (get_or-extend alloc s (e / 8 + 1) (j / 8))

    -- After `modifier_set_set` with its memory, the set has what it had, and the new member.
    pub has-modifier_set_set :
        modifier_set_has (modifier_set_set alloc s e) j
        ≡ (if e == j then true else modifier_set_has s j)
    has-modifier_set_set =
        let digit =
          written_digit extended e j (bit_or old_byte (2 ^ (e % 8))) 1 inside
            (or_digit old_byte e j) in
        rw (modifier_set_has_lem, set_bytes, digit, member-extended, modifier_set_has_lem)
          (ground arith)

    -- After `modifier_set_toggle` with its memory, the member is in the set if it was not.
    pub has-modifier_set_toggle :
        modifier_set_has (modifier_set_toggle alloc s e) j
        ≡ (if e == j then not (modifier_set_has s j) else modifier_set_has s j)
    has-modifier_set_toggle =
        let digit =
          written_digit extended e j (bit_xor old_byte (2 ^ (e % 8))) (1 - bit old_byte (j % 8))
            inside (xor_digit old_byte e j) in
        rw (modifier_set_has_lem, toggle_bytes, digit, member-extended, modifier_set_has_lem)
          (elim (Bool-cases (e == j)) [
            | inr other ↦ rw other refl
            | inl same ↦
                let here : bit old_byte (j % 8) ≡ member s j =
                  ap (λ k. bit (get_or extended.bits (k / 8) 0) (j % 8)) ((==_iff e j).0 same)
                  ∙ member-extended in
                rw (same, here) (digit_flip (member s j) (bit-lt _ (j % 8)))
          ])

unset_bytes :
    (s : ModifierSet) (e : ℕ)
    → e / 8 < byte_length s
    → modifier_set_unset s e ≡ record {
      bits = set s.bits (e / 8) (bit_and (get_or s.bits (e / 8) 0) (complement_byte (2 ^ (e % 8))));
    }
unfolding modifier_set_unset
unset_bytes s e h =
    let inside : leb (byte_length s) (e / 8) ≡ false = ground arith in rw (bit_and_seven e, inside)

unset_past_end : (s : ModifierSet) (e : ℕ) → byte_length s ≤ e / 8 → modifier_set_unset s e ≡ s
unfolding modifier_set_unset modifier_index_and_mask
unset_past_end s e h = let past : leb (byte_length s) (e / 8) ≡ true = ground arith in rw past

has_past_end : (s : ModifierSet) (e : ℕ) → byte_length s ≤ e / 8 → modifier_set_has s e ≡ false
has_past_end s e h = rw (modifier_set_has_lem, get_or_past_end s.bits (e / 8) h, bit_of_zero) refl

-- After `modifier_set_unset` the set has what it had but the member.
pub has-modifier_set_unset :
    (s : ModifierSet) (e j : ℕ)
    → modifier_set_has (modifier_set_unset s e) j ≡ (if e == j then false else modifier_set_has s j)
has-modifier_set_unset s e j = elim (dec_lt (e / 8) (byte_length s)) [
  | yes inside ↦
      let x = get_or s.bits (e / 8) 0 in
      let digit =
        written_digit s e j (bit_and x (complement_byte (2 ^ (e % 8)))) 0 inside
          (and_digit x e j) in
      rw (modifier_set_has_lem, unset_bytes s e inside, digit, modifier_set_has_lem) (ground arith)
  | no past ↦ rw (unset_past_end s e (omega arith)) (elim (Bool-cases (e == j)) [
    | inr other ↦ rw other refl
    | inl same ↦ rw same (has_past_end s j (omega (arith, (==_iff e j).0 same)))
  ])
]
