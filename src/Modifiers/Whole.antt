-- ===== src/Modifiers/Whole.antt =====
-- The operations with a whole set as their second argument: union, difference, symmetric difference.
use Prim.Native.Nat.{bit_and, bit_or, bit_xor}
use event_sequence_transform.Prelude.{
  ℕ, ◌+◌, ◌/◌, ◌%◌, ◌^◌, ◌≤◌, ◌<◌, ◌≡◌, Bool, true, arith, get_or, ltb, ◌==◌, if◌then◌else◌, not,
  ◌&&◌, ◌||◌,
}
use event_sequence_transform.Prelude.Bits.{
  bit, bit-lt, bit_of_zero, bit-bit_or, bit-bit_and, bit-bit_xor, bit-complement, differ_lem,
}
use event_sequence_transform.Modifiers.{
  ModifierSet, byte_length, modifier_set_has, modifier_set_extend, modifier_set_set_from,
  modifier_set_unset_from, modifier_set_toggle_from, complement_byte, ModifierOperation, modop_set,
  modop_unset, modop_toggle, modifier_set_operation_from, modifier_set_operation,
}
use event_sequence_transform.Modifiers.Bytes.{
  get_or-extend, length-extend, extend_succeeds, get_or_past_end, get_or-combine_bytes,
}
use event_sequence_transform.Modifiers.Members.{
  modifier_set_has_lem, has-modifier_set_set, has-modifier_set_unset, has-modifier_set_toggle,
}

-- Every byte is a `uint8_t`.
pub record IsBytes (s : ModifierSet) : Type 0 where
  pub byte_lt : (i : ℕ) → get_or s.bits i 0 < 2 ^ 8

module _ (t s : ModifierSet) (j : ℕ) where
  -- A digit of the combined bytes.
  abbrev target_byte : ℕ
  target_byte = get_or t.bits (j / 8) 0

  abbrev source_byte : ℕ
  source_byte = get_or s.bits (j / 8) 0

  -- `&= ~` digit by digit.
  pub has-modifier_set_unset_from :
      IsBytes s
      → modifier_set_has (modifier_set_unset_from t s) j
        ≡ (modifier_set_has t j && not (modifier_set_has s j))
  unfolding modifier_set_unset_from
  has-modifier_set_unset_from bytes =
      rw (modifier_set_has_lem, modifier_set_has_lem t j, modifier_set_has_lem s j)
        (ground (
          arith,
          get_or-combine_bytes (λ a b. bit_and a (complement_byte b)) t.bits s.bits (j / 8),
          bit-bit_and (j % 8) target_byte (complement_byte source_byte),
          bit-complement 8 source_byte (j % 8) (bytes.byte_lt (j / 8)) (omega arith),
          bit-lt target_byte (j % 8),
          bit-lt source_byte (j % 8),
          get_or_past_end s.bits (j / 8),
          get_or_past_end t.bits (j / 8),
          bit_of_zero (j % 8),
        ))

  module _ (alloc : ℕ → Bool)
      (got : ltb (byte_length t) (byte_length s) ≡ true → alloc (byte_length s) ≡ true) where
    grown_target : ModifierSet
    grown_target = (modifier_set_extend alloc t (byte_length s)).1

    room : byte_length s ≤ byte_length (modifier_set_extend alloc t (byte_length s)).1
    room = length-extend alloc t (byte_length s) (extend_succeeds alloc t (byte_length s) got)

    -- `|=` digit by digit, with the memory for the target to grow.
    pub has-modifier_set_set_from :
        modifier_set_has (modifier_set_set_from alloc t s) j
        ≡ (modifier_set_has t j || modifier_set_has s j)
    unfolding modifier_set_set_from
    has-modifier_set_set_from =
        let ext = modifier_set_extend alloc t (byte_length s) in
        rw (modifier_set_has_lem, modifier_set_has_lem t j, modifier_set_has_lem s j)
          (ground (
            arith,
            room,
            get_or-extend alloc t (byte_length s) (j / 8),
            get_or-combine_bytes bit_or (modifier_set_extend alloc t (byte_length s)).1.bits s.bits
                (j / 8),
            bit-bit_or (j % 8) target_byte source_byte,
            bit-lt target_byte (j % 8),
            bit-lt source_byte (j % 8),
            get_or_past_end s.bits (j / 8),
            get_or_past_end t.bits (j / 8),
            get_or_past_end (modifier_set_extend alloc t (byte_length s)).1.bits (j / 8),
            bit_of_zero (j % 8),
          ))

    -- `^=` digit by digit, with the memory for the target to grow.
    pub has-modifier_set_toggle_from :
        modifier_set_has (modifier_set_toggle_from alloc t s) j
        ≡ (if modifier_set_has s j then not (modifier_set_has t j) else modifier_set_has t j)
    unfolding modifier_set_toggle_from
    has-modifier_set_toggle_from =
        rw (modifier_set_has_lem, modifier_set_has_lem t j, modifier_set_has_lem s j)
          (ground (
            arith,
            room,
            get_or-extend alloc t (byte_length s) (j / 8),
            get_or-combine_bytes bit_xor (modifier_set_extend alloc t (byte_length s)).1.bits s.bits
                (j / 8),
            bit-bit_xor (j % 8) target_byte source_byte,
            differ_lem (bit target_byte (j % 8)) (bit source_byte (j % 8)),
            bit-lt target_byte (j % 8),
            bit-lt source_byte (j % 8),
            get_or_past_end s.bits (j / 8),
            get_or_past_end t.bits (j / 8),
            get_or_past_end (modifier_set_extend alloc t (byte_length s)).1.bits (j / 8),
            bit_of_zero (j % 8),
          ))

-- What an operation does to one flag: `old` is the flag of the target, `given` that of the source.
abbrev pub flag_after : ModifierOperation → Bool → Bool → Bool
flag_after modop_set old given = old || given
flag_after modop_unset old given = old && not given
flag_after modop_toggle old given = if given then not old else old

-- `modifier_set_operation_from` is the operation at every flag, if `realloc` gives the bytes by
-- which the source is longer, and the source holds bytes.
pub has-modifier_set_operation_from :
    (alloc : ℕ → Bool) (t s : ModifierSet) (op : ModifierOperation) (j : ℕ)
    → (ltb (byte_length t) (byte_length s) ≡ true → alloc (byte_length s) ≡ true)
    → IsBytes s
    → modifier_set_has (modifier_set_operation_from alloc t s op) j
      ≡ flag_after op (modifier_set_has t j) (modifier_set_has s j)
unfolding modifier_set_operation_from
has-modifier_set_operation_from alloc t s modop_set j got bytes =
    has-modifier_set_set_from t s j alloc got
has-modifier_set_operation_from alloc t s modop_unset j got bytes =
    has-modifier_set_unset_from t s j bytes
has-modifier_set_operation_from alloc t s modop_toggle j got bytes =
    has-modifier_set_toggle_from t s j alloc got

-- `modifier_set_operation` changes the flag of its member by the operation, and no other flag, if
-- `realloc` gives the bytes up to the member's.
pub has-modifier_set_operation :
    (alloc : ℕ → Bool) (t : ModifierSet) (e : ℕ) (op : ModifierOperation) (j : ℕ)
    → alloc (e / 8 + 1) ≡ true
    → modifier_set_has (modifier_set_operation alloc t e op) j
      ≡ flag_after op (modifier_set_has t j) (e == j)
unfolding modifier_set_operation
has-modifier_set_operation alloc t e modop_set j got =
    rw (has-modifier_set_set alloc t e got j) (ground arith)
has-modifier_set_operation alloc t e modop_unset j got =
    rw (has-modifier_set_unset t e j) (ground arith)
has-modifier_set_operation alloc t e modop_toggle j got =
    rw (has-modifier_set_toggle alloc t e got j) (ground arith)
