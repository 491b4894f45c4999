-- ===== src/Modifiers.antt =====
-- modifiers.h: a set of small numbers as an array of bytes, 8 members to a byte.
-- A function that updates `*target` returns the new set. `alloc n` says whether `malloc` or
-- `realloc` of `n` bytes succeeds.
pub mod Bytes
pub mod Members
pub mod Whole
use Prim.Native.Nat.{bit_and, bit_or, bit_xor}
use text.Mathlib.Text.{◌==◌ as str_eq}
use Prim.Native.String.{String}
use event_sequence_transform.Prelude.{
  ℕ, zero, suc, ◌+◌, ◌-◌, ◌*◌, ◌/◌, ◌%◌, ◌^◌, Bool, true, false, Option, none, some, List, [], ◌∷◌,
  ◌++◌, leb, ltb, ◌==◌, if◌then◌else◌, get_or, set, take, length, replicate, not,
}

-- `byte_length` and `bits`: the bytes, each below 256. NULL is the empty list.
pub record ModifierSet : Type 0 where
  pub bits : List ℕ

abbrev pub byte_length : ModifierSet → ℕ
byte_length s = length s.bits

-- The -1 of `modifier_operation_parse` is `none`.
pub data ModifierOperation : Type 0 where
  modop_set modop_unset modop_toggle : ModifierOperation

abbrev pub empty_modifier_set : ModifierSet
empty_modifier_set = record { bits = [] }

abbrev pub modifier_max : ℕ
modifier_max = 0xFFFFF

-- `element >> 3` and `1 << (element & 7)` of a member that is not negative.
pub modifier_index_and_mask : ℕ → ℕ × ℕ
modifier_index_and_mask element = (element / 2 ^ 3, 2 ^ bit_and element 7)

-- `~byte` cut to a `uint8_t`.
abbrev pub complement_byte : ℕ → ℕ
complement_byte byte = 2 ^ 8 - 1 - byte

pub modifier_set_has : ModifierSet → ℕ → Bool
unfolding modifier_index_and_mask
modifier_set_has s element =
    let (index, mask) = modifier_index_and_mask element in
    if leb (byte_length s) index then false else not (bit_and (get_or s.bits index 0) mask == 0)

module _ (alloc : ℕ → Bool) where
  pub modifier_set_copy : ModifierSet → ModifierSet
  modifier_set_copy old =
      if byte_length old == 0
      then empty_modifier_set
      else if alloc (byte_length old)
      then (record { bits = old.bits })
      else empty_modifier_set

  -- The Boolean is the result of the C function; a failed `realloc` changes nothing.
  pub modifier_set_extend : ModifierSet → ℕ → Bool × ModifierSet
  modifier_set_extend old n =
      if ltb (byte_length old) n
      then (if alloc n
          then (true, record { bits = old.bits ++ replicate (n - byte_length old) 0 })
          else (false, old))
      else (true, old)

  pub modifier_set_set : ModifierSet → ℕ → ModifierSet
  unfolding modifier_index_and_mask modifier_set_extend
  modifier_set_set target element =
      let (index, mask) = modifier_index_and_mask element in
      let (grown, s) = modifier_set_extend target (index + 1) in
      if grown
      then (record { bits = set s.bits index (bit_or (get_or s.bits index 0) mask) })
      else s

  pub modifier_set_toggle : ModifierSet → ℕ → ModifierSet
  unfolding modifier_index_and_mask modifier_set_extend
  modifier_set_toggle target element =
      let (index, mask) = modifier_index_and_mask element in
      let (grown, s) = modifier_set_extend target (index + 1) in
      if grown
      then (record { bits = set s.bits index (bit_xor (get_or s.bits index 0) mask) })
      else s

pub modifier_set_unset : ModifierSet → ℕ → ModifierSet
unfolding modifier_index_and_mask
modifier_set_unset target element =
    let (index, mask) = modifier_index_and_mask element in
    if leb (byte_length target) index then target else (record {
      bits = set target.bits index (bit_and (get_or target.bits index 0) (complement_byte mask));
    })

-- The loops over the bytes of both sets: each stops where one of the two ends.
pub combine_bytes : (ℕ → ℕ → ℕ) → List ℕ → List ℕ → List ℕ
combine_bytes f [] source = []
combine_bytes f (t ∷ target) [] = t ∷ target
combine_bytes f (t ∷ target) (s ∷ source) = f t s ∷ combine_bytes f target source

module _ (alloc : ℕ → Bool) where
  -- The result of the extension is not read: after a failure the loop runs over what there is.
  pub modifier_set_set_from : ModifierSet → ModifierSet → ModifierSet
  unfolding modifier_set_extend combine_bytes
  modifier_set_set_from target source =
      let (_, s) = modifier_set_extend alloc target (byte_length source) in
      record { bits = combine_bytes bit_or s.bits source.bits }

  pub modifier_set_toggle_from : ModifierSet → ModifierSet → ModifierSet
  unfolding modifier_set_extend combine_bytes
  modifier_set_toggle_from target source =
      let (_, s) = modifier_set_extend alloc target (byte_length source) in
      record { bits = combine_bytes bit_xor s.bits source.bits }

pub modifier_set_unset_from : ModifierSet → ModifierSet → ModifierSet
unfolding combine_bytes
modifier_set_unset_from target source = record {
  bits = combine_bytes (λ t s. bit_and t (complement_byte s)) target.bits source.bits;
}

module _ (alloc : ℕ → Bool) where
  unfoldable pub modifier_set_operation_from :
      ModifierSet → ModifierSet → ModifierOperation → ModifierSet
  modifier_set_operation_from target source modop_set = modifier_set_set_from alloc target source
  modifier_set_operation_from target source modop_unset = modifier_set_unset_from target source
  modifier_set_operation_from target source modop_toggle =
      modifier_set_toggle_from alloc target source

  pub modifier_set_operation : ModifierSet → ℕ → ModifierOperation → ModifierSet
  modifier_set_operation target element modop_set = modifier_set_set alloc target element
  modifier_set_operation target element modop_unset = modifier_set_unset target element
  modifier_set_operation target element modop_toggle = modifier_set_toggle alloc target element

pub modifier_set_destruct : ModifierSet → ModifierSet
modifier_set_destruct old = empty_modifier_set

-- `none` as an argument is NULL.
pub modifier_operation_parse : Option String → Option ModifierOperation
modifier_operation_parse none = none
modifier_operation_parse (some name) =
    if str_eq name "set"
    then some modop_set
    else if str_eq name "unset"
    then some modop_unset
    else if str_eq name "reset"
    then some modop_unset
    else if str_eq name "toggle"
    then some modop_toggle
    else none
