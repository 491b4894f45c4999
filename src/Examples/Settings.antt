-- ===== src/Examples/Settings.antt =====
-- A configuration and the nodes of a graph for which the hypotheses of the properties hold.
use event_sequence_transform.Prelude.{
  none-some, ℕ, zero, suc, ◌+◌, ◌<◌, ◌≡◌, Bool, true, false, Option, none, some, [], ◌∷◌, arith,
  refl, ap, ◌∙◌, if◌then◌else◌, length,
}
use event_sequence_transform.Prelude.Int.{ℤ, pos}
use mathlib.Core.Option
use mathlib.Core.Path.{subst}
use event_sequence_transform.HashTable.Insert.{insert-lookup}
use event_sequence_transform.HashTable.Sound.{Sound}
use event_sequence_transform.HashTable.Grow.{hash_table_init_impl-Sound}
use event_sequence_transform.HashTable.Keys.{hash_table_key_equals_lem}
use event_sequence_transform.HashTable.Find.{find-lookup}
use event_sequence_transform.HashTable.Inv.{lookup}
use event_sequence_transform.Graph.{Graph}
use event_sequence_transform.Setup.{build_nodes, end_node}
use event_sequence_transform.Setup.Names.{HasName, end_node-HasName}
use event_sequence_transform.HashTable.{HashTable, hash_table_init_impl, hash_table_key_from_bytes}
use event_sequence_transform.Predicate.{
  EventPredicateList, EventPredicateResult, event_predicate_apply,
}
use event_sequence_transform.Config.{
  Text, Libconfig, Registry, codes, same_text, GraphNodeConfig, load_single_channel_config,
}
use event_sequence_transform.Config.Constants.{load_single_enum}
use event_sequence_transform.Config.Laws.{TreeLaws, RegistryLaws}
use event_sequence_transform.Config.Tables.{table_registry, table_registry_laws}
use event_sequence_transform.Config.Sections.{
  numbered, load_single_enum-numbered, load_single_channel_config-flip, wired,
}
use event_sequence_transform.Config.Predicates.{load_predicates_section}
use event_sequence_transform.Config.Predicates.Single.{ArgsGiven}
use event_sequence_transform.Config.Predicates.Acyclic.{load_predicates_section-apply}

abbrev always : ℕ → Bool
always n = true

abbrev drawn : HashTable ℤ → ℕ × ℕ
drawn t = (3, 4)

abbrev tables : Registry (HashTable ℤ)
tables = table_registry always always (1, 2) drawn 9

tables_laws : RegistryLaws tables
tables_laws = table_registry_laws always always (1, 2) drawn 9 refl (λ n. refl)

-- A section with a conjunction of two names, and a channel that is written in both orders.
data Setting : Type 0 where
  section conjunction args channel flipped to_end from_end : Setting
  text : ℕ → Setting

abbrev members : Setting → Option Setting
members conjunction = some args
members s = none

abbrev elems : Setting → ℕ → Option Setting
elems section i = some conjunction
elems args i = some (text i)
elems channel zero = some to_end
elems channel (suc i) = some from_end
elems flipped zero = some from_end
elems flipped (suc i) = some to_end
elems s i = none

abbrev lengths : Setting → ℤ
lengths section = pos 1
lengths args = pos 2
lengths channel = pos 2
lengths flipped = pos 2
lengths s = pos 0

abbrev names : Setting → Option Text
names to_end = some (codes "to")
names from_end = some (codes "from")
names s = none

abbrev is_text_setting : Setting → Bool
is_text_setting (text i) = true
is_text_setting s = false

abbrev types : Setting → Option Text
types conjunction = some (codes "and")
types s = none

abbrev texts : Setting → Option Text
texts (text i) = some (i ∷ [])
texts s = none

abbrev settings : Libconfig Setting
settings = record {
  config_setting_name = names;
  config_setting_get_member = λ s name. members s;
  config_setting_get_elem = elems;
  config_setting_length = lengths;
  config_setting_is_string = is_text_setting;
  config_setting_is_number = λ s. false;
  config_setting_is_scalar = is_text_setting;
  config_setting_is_group = λ s. false;
  config_setting_is_aggregate = λ s. false;
  config_setting_get_int64 = λ s. pos 0;
  config_setting_get_string = texts;
  config_setting_get_string_elem = λ s i. none;
  config_setting_lookup_string = λ s name. types s;
  config_setting_lookup_int64 = λ s name. none;
}

abbrev depths : Setting → ℕ
depths section = 3
depths conjunction = 2
depths args = 1
depths channel = 1
depths flipped = 1
depths s = 0

abbrev depth_of : Option Setting → ℕ
depth_of none = 9
depth_of (some s) = depths s

not_none : {d : Setting} → none ≡ some d → ⊥
not_none = none-some

no_text : {name : Text} → none ≡ some name → ⊥
no_text = none-some

members_depth : (s d : Setting) → members s ≡ some d → depths d < depths s
members_depth conjunction d e = subst (λ o. depth_of o < 2) e (omega arith)
members_depth section d e = absurd (not_none e)
members_depth args d e = absurd (not_none e)
members_depth channel d e = absurd (not_none e)
members_depth flipped d e = absurd (not_none e)
members_depth to_end d e = absurd (not_none e)
members_depth from_end d e = absurd (not_none e)
members_depth (text i) d e = absurd (not_none e)

elems_depth : (s d : Setting) (i : ℕ) → elems s i ≡ some d → depths d < depths s
elems_depth section d i e = subst (λ o. depth_of o < 3) e (omega arith)
elems_depth args d i e = subst (λ o. depth_of o < 1) e (omega arith)
elems_depth channel d zero e = subst (λ o. depth_of o < 1) e (omega arith)
elems_depth channel d (suc i) e = subst (λ o. depth_of o < 1) e (omega arith)
elems_depth flipped d zero e = subst (λ o. depth_of o < 1) e (omega arith)
elems_depth flipped d (suc i) e = subst (λ o. depth_of o < 1) e (omega arith)
elems_depth conjunction d i e = absurd (not_none e)
elems_depth to_end d i e = absurd (not_none e)
elems_depth from_end d i e = absurd (not_none e)
elems_depth (text j) d i e = absurd (not_none e)

abbrev settings_tree : TreeLaws settings
settings_tree = record {
  depth = depths;
  depth_member = λ s d name e. members_depth s d e;
  depth_elem = λ s d i e. elems_depth s d i e;
}

settings_args : ArgsGiven settings
settings_args conjunction name typed takes = (args, refl)
settings_args section name typed takes = absurd (no_text typed)
settings_args args name typed takes = absurd (no_text typed)
settings_args channel name typed takes = absurd (no_text typed)
settings_args flipped name typed takes = absurd (no_text typed)
settings_args to_end name typed takes = absurd (no_text typed)
settings_args from_end name typed takes = absurd (no_text typed)
settings_args (text i) name typed takes = absurd (no_text typed)

load_predicates_section-apply_example :
    (names : HashTable ℤ) × (left : EventPredicateList) × (load_predicates_section settings tables
        always always 4
        (some section)
        tables.init
        tables.init
        (record { capacity = 0; values = [] })
      ≡ some (names, left))
    × ((r : EventPredicateResult) × (event_predicate_apply
            (length left.values + 1)
            left.values
            (pos 0)
            none
          ≡ some r))
load_predicates_section-apply_example =
    load_predicates_section-apply settings tables tables_laws settings_tree always always
      (λ n. refl) (λ n. refl) settings_args 4 (some section) tables.init (pos 0) none (omega arith)

load_single_enum-numbered_example :
    load_single_enum settings tables always (codes "axis") args tables.init
    ≡ numbered settings tables always (codes "axis") (λ i. i ∷ []) 0 2 tables.init
load_single_enum-numbered_example =
    load_single_enum-numbered settings tables always (codes "axis") args (λ i. i ∷ []) tables.init
      (λ i h. (text i, refl, refl, refl))

load_single_channel_config-flip_example :
    (load_single_channel_config settings tables (some tables.init) (some channel)
      ≡ wired settings tables (some tables.init) from_end to_end)
    × (load_single_channel_config settings tables (some tables.init) (some flipped)
        ≡ wired settings tables (some tables.init) from_end to_end)
load_single_channel_config-flip_example =
    load_single_channel_config-flip settings tables (some tables.init) channel flipped to_end
      from_end refl refl refl refl refl refl

-- A header without a macro that has a part of its own.
abbrev header : Text → Option ℤ
header name = if same_text name (codes "KEY_UWB") then none else some (pos (length name))

new_table-Sound : Sound (λ key (v : ℤ). Unit) tables.init
new_table-Sound = hash_table_init_impl-Sound (λ key v. Unit) (pos 0) always (1, 2) refl

abbrev numbered_node : GraphNodeConfig Setting
numbered_node = record { name = some (codes "a"); type = some (codes "tee"); options = none }

abbrev specifications : HashTable ℤ
specifications = tables.insert tables.init (hash_table_key_from_bytes (some (codes "tee"))) (pos 0)

abbrev node_added : ℤ → GraphNodeConfig Setting → Graph → Option Graph
node_added spec item g = some (record g {
  nodes = (record { waiting_new_event = false; inputs = []; outputs = [] }) ∷ g.nodes;
})

abbrev empty_graph : Graph
empty_graph = record { nodes = []; channels = [] }

abbrev built_names : HashTable ℤ
built_names = tables.insert tables.init (hash_table_key_from_bytes (some (codes "a"))) (pos 0)

named_found :
    (bytes : Text)
    → tables.find
        (tables.insert tables.init (hash_table_key_from_bytes (some bytes)) (pos 0))
        (hash_table_key_from_bytes (some bytes))
      ≡ some (pos 0)
unfolding hash_table_init_impl
named_found bytes =
    let key = hash_table_key_from_bytes (some bytes) in
    let r =
      insert-lookup (pos 0) always always drawn (λ n. refl) 8 tables.init key (pos 0) 0
        (new_table-Sound).valid (bytes, refl) (omega arith) (omega arith) (omega arith) refl in
    let self = (hash_table_key_equals_lem bytes bytes).1 refl in
    let read : lookup r.1 key ≡ some (pos 0) =
      r.5 key (bytes, refl) ∙ ap (λ b. if b then some (pos 0) else lookup tables.init key) self in
    let (index, at_index, value) = find-lookup r.1 r.3 key (bytes, refl) (some (pos 0)) read in
    let run = r.2 in
    let there : tables.find r.1 key ≡ some (pos 0) = rw at_index value in rw run there

built :
    build_nodes tables node_added specifications 0 (numbered_node ∷ []) tables.init empty_graph
    ≡ some (
      built_names,
      record {
        nodes = (record { waiting_new_event = false; inputs = []; outputs = [] }) ∷ [];
        channels = [];
      },
    )
unfolding build_nodes
built = let known = named_found (codes "tee") in rw (build_nodes, known) refl

found :
    end_node tables node_added built_names (record { name = some (codes "a"); index = 0 }) ≡ some 0
unfolding end_node
found = let known = named_found (codes "a") in rw (end_node, known) refl

end_node-HasName_example : HasName tables tables_laws node_added (numbered_node ∷ []) (codes "a") 0
end_node-HasName_example =
    end_node-HasName tables tables_laws node_added specifications built_names (numbered_node ∷ [])
      empty_graph
      (record {
        nodes = (record { waiting_new_event = false; inputs = []; outputs = [] }) ∷ [];
        channels = [];
      })
      (codes "a") 0 0 built found
