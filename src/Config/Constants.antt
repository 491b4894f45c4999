-- ===== src/Config/Constants.antt =====
-- The constants and the enums of config.c.
use event_sequence_transform.Prelude.{
  ℕ, zero, suc, ◌+◌, ◌%◌, ◌^◌, Bool, true, false, ◌||◌, Option, none, some, ◌++◌, leb,
  if◌then◌else◌, length,
}
use event_sequence_transform.Prelude.Int.{ℤ, pos, negsuc, ◌+ℤ◌}
use event_sequence_transform.HashTable.{hash_table_key_from_bytes}
use event_sequence_transform.Config.{
  Text, Libconfig, Registry, codes, rounds, section_rounds, section_elem, member_name,
  resolve_constant_or,
}

module _ {S T : Type 0} (lib : Libconfig S) (reg : Registry T) where
  -- The value of an item of the constants, `none` where the item is left out.
  pub constant_value : S → Option ℤ
  constant_value item =
      if lib.config_setting_is_scalar item
      then some (lib.config_setting_get_int64 item)
      else if lib.config_setting_is_group item
      then lib.config_setting_lookup_int64 item (codes "value")
      else none

  -- An item without a name is left out.
  pub load_single_constant : T → Option S → T
  unfolding constant_value
  load_single_constant constants none = constants
  load_single_constant constants (some item) = elim (member_name lib reg item) [
    | none ↦ constants
    | some name ↦ elim (constant_value item) [
      | none ↦ constants
      | some value ↦ reg.insert constants (hash_table_key_from_bytes (some name)) value
    ]
  ]

  pub load_constants_from : Option S → ℕ → ℕ → T → T
  unfolding load_single_constant
  load_constants_from section i zero constants = constants
  load_constants_from section i (suc left) constants =
      load_constants_from section (i + 1) left
        (load_single_constant constants (section_elem lib reg section i))

  unfoldable pub load_constants_section : Option S → T → T
  unfolding load_constants_from
  load_constants_section section constants =
      load_constants_from section 0 (section_rounds lib reg section) constants

  -- `alloc n` says whether the `n` bytes of the qualified name are given. A name whose size
  -- overflows is left out.
  pub put_enum_value : (ℕ → Bool) → T → Text → Text → ℤ → T
  put_enum_value alloc registry enum_name member_name value =
      let mem_size = (length enum_name + 1 + length member_name + 1 + 2) % 2 ^ 64 in
      if leb mem_size (length enum_name) || leb mem_size (length member_name)
      then registry
      else if alloc mem_size
      then reg.insert registry
          (hash_table_key_from_bytes (some (enum_name ++ codes "." ++ member_name))) value
      else registry

  -- The value of a member of an enum after the value of the one before it.
  unfoldable pub enum_value : T → S → Bool → ℤ → ℤ
  unfolding resolve_constant_or
  enum_value constants member only_name prev_value =
      let value_setting =
        if lib.config_setting_is_aggregate member
        then lib.config_setting_get_member member (codes "value")
        else some member in
      let value = prev_value +ℤ pos 1 in
      if only_name then value else resolve_constant_or lib reg (some constants) value_setting value

  -- A round of the loop of `load_single_enum`: the value before the next member, and the constants.
  unfoldable pub load_enum_member : (ℕ → Bool) → Text → Option S → ℤ → T → ℤ × T
  unfolding enum_value put_enum_value
  load_enum_member alloc enum_name none prev_value constants = (prev_value, constants)
  load_enum_member alloc enum_name (some member) prev_value constants =
      let value = λ (only_name : Bool). enum_value constants member only_name prev_value in
      elim (member_name lib reg member) [
        | some name ↦ (value false, put_enum_value alloc constants enum_name name (value false))
        | none ↦ elim (lib.config_setting_get_string member) [
          | none ↦ (prev_value, constants)
          | some name ↦ (value true, put_enum_value alloc constants enum_name name (value true))
        ]
      ]

  unfoldable pub load_enum_from : (ℕ → Bool) → Text → S → ℕ → ℕ → ℤ → T → T
  unfolding load_enum_member
  load_enum_from alloc enum_name enum_def i zero prev_value constants = constants
  load_enum_from alloc enum_name enum_def i (suc left) prev_value constants =
      let (value, next) =
        load_enum_member alloc enum_name (lib.config_setting_get_elem enum_def i) prev_value
          constants in
      load_enum_from alloc enum_name enum_def (i + 1) left value next

  unfoldable pub load_single_enum : (ℕ → Bool) → Text → S → T → T
  unfolding load_enum_from
  load_single_enum alloc enum_name enum_def constants =
      load_enum_from alloc enum_name enum_def 0 (rounds (lib.config_setting_length enum_def))
        (negsuc 0) constants

  pub load_enums_from : (ℕ → Bool) → Option S → ℕ → ℕ → T → T
  unfolding load_single_enum
  load_enums_from alloc section i zero constants = constants
  load_enums_from alloc section i (suc left) constants =
      load_enums_from alloc section (i + 1) left (elim (section_elem lib reg section i) [
        | none ↦ constants
        | some enum_def ↦ elim (lib.config_setting_name enum_def) [
          | none ↦ constants
          | some name ↦ load_single_enum alloc name enum_def constants
        ]
      ])

  unfoldable pub load_enums_section : (ℕ → Bool) → Option S → T → T
  unfolding load_enums_from
  load_enums_section alloc section constants =
      load_enums_from alloc section 0 (section_rounds lib reg section) constants
