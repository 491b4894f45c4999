-- ===== src/Config/Sections.antt =====
-- The sections of nodes, of channels and of enums.
use event_sequence_transform.Prelude.{
  ℕ, zero, suc, ◌+◌, ◌≤◌, ◌<◌, ◌≡◌, Bool, true, Option, none, some, [], arith, refl, sym, ap, ◌∙◌,
  if◌then◌else◌, get_elem?, ltb, leb, ◌-◌,
}
use event_sequence_transform.Prelude.Int.{ℤ, pos, negsuc, ◌+ℤ◌, sub_ℕ}
use event_sequence_transform.Config.{
  Text, Libconfig, Registry, codes, rounds, same_text, section_rounds, section_elem, member_name,
  load_items, load_single_node_config, load_nodes_section, load_ends, load_single_channel_config,
  load_channel_end_config, GraphChannelConfig,
}
use event_sequence_transform.Config.Constants.{
  put_enum_value, enum_value, load_enum_member, load_enum_from, load_single_enum,
}

pos-next : (i : ℕ) → pos i +ℤ pos 1 ≡ pos (i + 1)
unfolding ◌+ℤ◌
pos-next i =
    let test : leb 0 (i + 1) ≡ true = ground arith in
    let whole : i + 1 - 0 ≡ i + 1 = omega arith in
    let parts : sub_ℕ (i + 1) 0 ≡ pos (i + 1) = rw (sub_ℕ, test) (ap pos whole) in parts

module _ {S T : Type 0} (lib : Libconfig S) (reg : Registry T) where
  get_elem?-load_items :
      {A : Type 0} (load : Option S → A) (section : Option S) (left i k : ℕ)
      → get_elem? (load_items lib reg load section i left) k
        ≡ (if ltb k left then some (load (section_elem lib reg section (i + k))) else none)
  unfolding load_items
  get_elem?-load_items load section zero i k = ground arith
  get_elem?-load_items load section (suc left) i zero =
      let e : i + 0 ≡ i = omega arith in
      let test : ltb 0 (suc left) ≡ true = ground arith in
      ap (λ n. some (load (section_elem lib reg section n))) (sym e)
      ∙ ap (λ b. if b then some (load (section_elem lib reg section (i + 0))) else none) (sym test)
  get_elem?-load_items load section (suc left) i (suc k) =
      let e : i + 1 + k ≡ i + suc k = omega arith in
      let test : ltb k left ≡ ltb (suc k) (suc left) = ground arith in
      get_elem?-load_items load section left (i + 1) k
      ∙ ap (λ n. if ltb k left then some (load (section_elem lib reg section n)) else none) e
      ∙ ap (λ b. if b then some (load (section_elem lib reg section (i + suc k))) else none) test

  -- When the array of the nodes is given, the item at each index below the length of the section is the
  -- configuration of the element at that index, and there is no other item.
  pub load_nodes_section-get_elem? :
      (alloc : ℕ → Bool) (section : Option S) (i : ℕ)
      → alloc (section_rounds lib reg section) ≡ true
      → get_elem? (load_nodes_section lib reg alloc section) i ≡ (
          if ltb i (section_rounds lib reg section)
          then some (load_single_node_config lib reg (section_elem lib reg section i))
          else none)
  unfolding load_nodes_section
  load_nodes_section-get_elem? alloc section i given =
      let e : 0 + i ≡ i = omega arith in
      let n = section_rounds lib reg section in
      let load = load_single_node_config lib reg in
      ap (λ b. get_elem? (if b then load_items lib reg load section 0 n else []) i) given
      ∙ get_elem?-load_items load section n 0 i
      ∙ ap (λ m. if ltb i n then some (load (section_elem lib reg section m)) else none) e

  -- A channel between two ends that the setting names `from` and `to`.
  abbrev pub wired : Option T → S → S → GraphChannelConfig
  wired constants from to = record {
    from = load_channel_end_config lib reg constants from;
    to = load_channel_end_config lib reg constants to;
  }

  -- A channel with an end named `to` and an end named `from` goes from the one to the other, whichever of
  -- them the setting has first.
  pub load_single_channel_config-flip :
      (constants : Option T) (s s' to from : S)
      → lib.config_setting_name to ≡ some (codes "to")
      → lib.config_setting_name from ≡ some (codes "from")
      → lib.config_setting_get_elem s 0 ≡ some to
      → lib.config_setting_get_elem s 1 ≡ some from
      → lib.config_setting_get_elem s' 0 ≡ some from
      → lib.config_setting_get_elem s' 1 ≡ some to
      → (load_single_channel_config lib reg constants (some s) ≡ wired constants from to)
        × (load_single_channel_config lib reg constants (some s') ≡ wired constants from to)
  unfolding load_single_channel_config load_ends same_text
  load_single_channel_config-flip constants s s' to from is_to is_from s0 s1 s'0 s'1 = (
    rw (load_single_channel_config, s0, s1, load_ends, is_to, is_from) refl,
    rw (load_single_channel_config, s'0, s'1, load_ends, is_to, is_from) refl,
  )

  -- The members that are numbered from `i` on.
  pub numbered : (ℕ → Bool) → Text → (ℕ → Text) → ℕ → ℕ → T → T
  numbered alloc enum_name names i zero constants = constants
  numbered alloc enum_name names i (suc left) constants =
      numbered alloc enum_name names (i + 1) left
        (put_enum_value lib reg alloc constants enum_name (names i) (pos i))

  -- All members are plain strings.
  abbrev pub PlainMembers : S → (ℕ → Text) → Type 0
  PlainMembers enum_def names =
      (i : ℕ)
      → i < rounds (lib.config_setting_length enum_def)
      → (m : S) × (lib.config_setting_get_elem enum_def i ≡ some m)
        × (member_name lib reg m ≡ none)
        × (lib.config_setting_get_string m ≡ some (names i))

  load_enum_from-numbered :
      (alloc : ℕ → Bool) (enum_name : Text) (enum_def : S) (names : ℕ → Text) (left i : ℕ)
      (prev : ℤ) (constants : T)
      → PlainMembers enum_def names
      → i + left ≤ rounds (lib.config_setting_length enum_def)
      → prev +ℤ pos 1 ≡ pos i
      → load_enum_from lib reg alloc enum_name enum_def i left prev constants
        ≡ numbered alloc enum_name names i left constants
  unfolding load_enum_from load_enum_member enum_value numbered
  load_enum_from-numbered alloc enum_name enum_def names zero i prev constants plain inside next =
      refl
  load_enum_from-numbered alloc enum_name enum_def names (suc left) i prev constants plain inside
        next =
      let (m, there, unnamed, text) = plain i (omega arith) in
      let after : pos i +ℤ pos 1 ≡ pos (i + 1) = pos-next i in
      let step : load_enum_from lib reg alloc enum_name enum_def i (suc left) prev constants
          ≡ load_enum_from lib reg alloc enum_name enum_def (i + 1) left (pos i)
              (put_enum_value lib reg alloc constants enum_name (names i) (pos i)) =
        rw (load_enum_from, there, load_enum_member, unnamed, text, enum_value, next) refl in
      step
      ∙ load_enum_from-numbered alloc enum_name enum_def names left (i + 1) (pos i) _ plain
          (omega arith) after

  -- An enum whose members are all plain strings numbers them from 0 on.
  pub load_single_enum-numbered :
      (alloc : ℕ → Bool) (enum_name : Text) (enum_def : S) (names : ℕ → Text) (constants : T)
      → PlainMembers enum_def names
      → load_single_enum lib reg alloc enum_name enum_def constants
        ≡ numbered alloc enum_name names 0 (rounds (lib.config_setting_length enum_def)) constants
  unfolding load_single_enum ◌+ℤ◌
  load_single_enum-numbered alloc enum_name enum_def names constants plain =
      load_enum_from-numbered alloc enum_name enum_def names
        (rounds (lib.config_setting_length enum_def)) 0 (negsuc 0) constants plain (omega arith)
        refl
