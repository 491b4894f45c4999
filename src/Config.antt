-- ===== src/Config.antt =====
-- config.h and config.c: how a configuration tree becomes constants, predicates, nodes and channels.
-- The tree is libconfig's: `S` is its `config_setting_t`, behind a pointer that is not NULL, and the
-- functions that config.c calls are the fields of `Libconfig`. The two registries of config.h are
-- tables from keys to integers, `T`, behind `Registry`. A function that writes through
-- its registry returns the new one. Strings are lists of bytes without the terminator, NULL
-- is `none`.
pub mod Laws
pub mod Constants
pub mod Sections
pub mod Predicates
pub mod Whole
pub mod Tables
use Prim.Native.Char.{code}
use Prim.Native.String.{String}
use event_sequence_transform.Prelude.{
  ℕ, zero, suc, ◌+◌, ◌-◌, ◌%◌, ◌^◌, Bool, true, false, not, ◌&&◌, ◌||◌, Option, none, some, List,
  [], ◌∷◌, ◌++◌, leb, ltb, ◌==◌, if◌then◌else◌, length,
}
use event_sequence_transform.Prelude.Int.{ℤ, pos, negsuc, ◌+ℤ◌, ltb_ℤ}
use event_sequence_transform.Modifiers.{modifier_max}
use event_sequence_transform.HashTable.{HashTableKey, hash_table_key_from_bytes}
use event_sequence_transform.Predicate.{
  EventPredicateType, evpred_invalid, evpred_accept, evpred_code_ns, evpred_code_major,
  evpred_code_minor, evpred_payload, evpred_input_index, evpred_conjunction, evpred_disjunction,
  evpred_modifier, EventPredicateHandle, EventPredicate, EventPredicateList,
  event_predicate_register,
}

abbrev pub Text : Type 0
Text = List ℕ

pub record Libconfig (S : Type 0) : Type 0 where
  pub config_setting_name : S → Option Text
  pub config_setting_get_member : S → Text → Option S
  pub config_setting_get_elem : S → ℕ → Option S
  pub config_setting_length : S → ℤ
  pub config_setting_is_string : S → Bool
  pub config_setting_is_number : S → Bool
  pub config_setting_is_scalar : S → Bool
  pub config_setting_is_group : S → Bool
  pub config_setting_is_aggregate : S → Bool
  pub config_setting_get_int64 : S → ℤ
  pub config_setting_get_string : S → Option Text
  pub config_setting_get_string_elem : S → ℕ → Option Text
  -- `none` where the lookup fails and leaves its target as it was.
  pub config_setting_lookup_string : S → Text → Option Text
  pub config_setting_lookup_int64 : S → Text → Option ℤ

-- What config.c uses of a hash table of integers: `find` gives the value that is found.
pub record Registry (T : Type 0) : Type 0 where
  pub init : T
  pub deinit : T → T
  pub insert : T → HashTableKey → ℤ → T
  pub find : T → HashTableKey → Option ℤ

-- The bytes of an ASCII text.
abbrev pub codes : String → Text
codes String.[] = []
codes (String.◌∷◌ c s) = code c ∷ codes s

-- `strcmp` of two strings is 0.
pub same_text : Text → Text → Bool
same_text [] [] = true
same_text (x ∷ xs) (y ∷ ys) = (x == y) && same_text xs ys
same_text _ _ = false

abbrev pub is_text : Option Text → Text → Bool
is_text none s = false
is_text (some name) s = same_text name s

-- The rounds of a loop up to a length, which is signed.
abbrev pub rounds : ℤ → ℕ
rounds (pos n) = n
rounds (negsuc n) = 0

-- A `long long` put into a `size_t`.
abbrev pub size_of_long : ℤ → ℕ
size_of_long (pos n) = n % 2 ^ 64
size_of_long (negsuc n) = 2 ^ 64 - 1 - n % 2 ^ 64

abbrev pub nonzero : ℤ → Bool
nonzero (pos n) = not (n == 0)
nonzero (negsuc n) = true

abbrev pub first_text : Option Text → Option Text → Option Text
first_text none other = other
first_text (some name) other = some name

pub record GraphNodeConfig (S : Type 0) : Type 0 where
  pub name : Option Text
  pub type : Option Text
  pub options : Option S

-- One of `from` and `to`.
pub record ChannelEndConfig : Type 0 where
  pub name : Option Text
  pub index : ℕ

pub record GraphChannelConfig : Type 0 where
  pub from : ChannelEndConfig
  pub to : ChannelEndConfig

pub parse_event_predicate_type : Text → EventPredicateType
unfolding same_text
parse_event_predicate_type name =
    if same_text name (codes "accept")
    then evpred_accept
    else if same_text name (codes "code_ns")
    then evpred_code_ns
    else if same_text name (codes "code_major")
    then evpred_code_major
    else if same_text name (codes "code_minor")
    then evpred_code_minor
    else if same_text name (codes "payload")
    then evpred_payload
    else if same_text name (codes "input_index")
    then evpred_input_index
    else if same_text name (codes "conjunction") || same_text name (codes "and")
    then evpred_conjunction
    else if same_text name (codes "disjunction") || same_text name (codes "or")
    then evpred_disjunction
    else if same_text name (codes "modifier")
    then evpred_modifier
    else evpred_invalid

module _ {S T : Type 0} (lib : Libconfig S) (reg : Registry T) where
  pub resolve_constant_or : Option T → Option S → ℤ → ℤ
  resolve_constant_or registry none dflt = dflt
  resolve_constant_or registry (some setting) dflt =
      if lib.config_setting_is_string setting
      then (elim registry [
        | none ↦ dflt
        | some r ↦
            let key = hash_table_key_from_bytes (lib.config_setting_get_string setting) in
            (elim (reg.find r key) [ none ↦ dflt | some value ↦ value ])
      ])
      else if lib.config_setting_is_number setting
      then lib.config_setting_get_int64 setting
      else dflt

  -- `resolve_constant` of config.h.
  pub resolve_constant : Option T → Option S → ℤ
  unfolding resolve_constant_or
  resolve_constant registry setting = resolve_constant_or registry setting (pos 0)

  -- A section with no settings, or with a length that is not positive, has no rounds.
  abbrev pub section_rounds : Option S → ℕ
  section_rounds none = 0
  section_rounds (some section) = rounds (lib.config_setting_length section)

  abbrev pub section_elem : Option S → ℕ → Option S
  section_elem none i = none
  section_elem (some section) i = lib.config_setting_get_elem section i

  abbrev pub member_name : S → Option Text
  member_name item =
      first_text (lib.config_setting_name item)
        (lib.config_setting_lookup_string item (codes "name"))

  pub load_single_node_config : Option S → GraphNodeConfig S
  load_single_node_config none = record { name = none; type = none; options = none }
  load_single_node_config (some config_member) = record {
    name = member_name config_member;
    type = lib.config_setting_lookup_string config_member (codes "type");
    options = lib.config_setting_get_member config_member (codes "options");
  }

  -- The items of a section from an index on, with so many rounds left.
  pub load_items : {A : Type 0} → (Option S → A) → Option S → ℕ → ℕ → List A
  load_items load section i zero = []
  load_items load section i (suc left) =
      load (section_elem section i) ∷ load_items load section (i + 1) left

  -- `alloc n` says whether the array of `n` items is given.
  pub load_nodes_section : (ℕ → Bool) → Option S → List (GraphNodeConfig S)
  unfolding load_items load_single_node_config
  load_nodes_section alloc section =
      if alloc (section_rounds section)
      then load_items load_single_node_config section 0 (section_rounds section)
      else []

  abbrev pub null_end : ChannelEndConfig
  null_end = record { name = none; index = 0 }

  pub load_channel_end_config : Option T → S → ChannelEndConfig
  unfolding resolve_constant
  load_channel_end_config constants config_member =
      elim (rounds (lib.config_setting_length config_member)) [
        | zero ↦ null_end
        | suc zero ↦ elim (lib.config_setting_get_elem config_member 0) [
          | none ↦ null_end
          | some kv ↦ record {
            name = lib.config_setting_name kv;
            index = size_of_long (resolve_constant constants (some kv));
          }
        ]
        | suc (suc n) ↦ record {
          name = lib.config_setting_get_string_elem config_member 0;
          index =
              size_of_long
                (resolve_constant constants (lib.config_setting_get_elem config_member 1));
        }
      ]

  abbrev pub null_channel : GraphChannelConfig
  null_channel = record { from = null_end; to = null_end }

  -- The ends in the order of the setting, or the other way where they are named so.
  pub load_ends : Option T → S → S → GraphChannelConfig
  unfolding load_channel_end_config same_text
  load_ends constants first second =
      let flip =
        is_text (lib.config_setting_name first) (codes "to")
        && is_text (lib.config_setting_name second) (codes "from") in
      record {
        from = load_channel_end_config constants (if flip then second else first);
        to = load_channel_end_config constants (if flip then first else second);
      }

  pub load_single_channel_config : Option T → Option S → GraphChannelConfig
  unfolding load_ends
  load_single_channel_config constants none = null_channel
  load_single_channel_config constants (some config_member) =
      elim (lib.config_setting_get_elem config_member 0) [
        | none ↦ null_channel
        | some first ↦ elim (lib.config_setting_get_elem config_member 1) [
          | none ↦ null_channel
          | some second ↦ load_ends constants first second
        ]
      ]

  pub load_channels_section : (ℕ → Bool) → Option S → Option T → List GraphChannelConfig
  unfolding load_items load_single_channel_config
  load_channels_section alloc section constants =
      if alloc (section_rounds section)
      then load_items (load_single_channel_config constants) section 0 (section_rounds section)
      else []
