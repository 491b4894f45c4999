-- ===== src/EventCodes/Found.antt =====
-- What the lines of the table say, with its parts as a tree.
use mathlib.Core.Option
use Prim.Native.String.{String}
use event_sequence_transform.Prelude.{Option, none, some, List, [], ◌∷◌, ◌++◌}
use event_sequence_transform.Prelude.Int.{ℤ}
use event_sequence_transform.HashTable.{hash_table_key_from_bytes}
use event_sequence_transform.Config.{Registry, Text, codes}
use event_sequence_transform.EventCodes.{macro_name, enum_name, expand, event_codes}
use event_sequence_transform.EventCodes.Directives.{Directive, declare, ifdef, endif}

abbrev populated : {T : Type 0} → Option T → Option (Option T)
populated none = none
populated (some t) = some (some t)

-- Codes one after the other, and parts for which a macro is to be defined.
pub data Table : Type 0 where
  done : Table
  code : String → String → String → Table → Table
  part : String → Table → Table → Table

-- The lines of a table, before others.
abbrev pub lines_before : Table → List Directive → List Directive
lines_before done lines = lines
lines_before (code enum p u rest) lines = declare enum p u ∷ lines_before rest lines
lines_before (part m inside rest) lines =
    ifdef m ∷ lines_before inside (endif ∷ lines_before rest lines)

-- The tables that lines stand for: the innermost part that is open, and those around it.
abbrev add_code : String → String → String → List Table → List Table
add_code enum p u [] = []
add_code enum p u (table ∷ tables) = code enum p u table ∷ tables

abbrev close_part : String → List Table → List Table
close_part m (inside ∷ rest ∷ tables) = part m inside rest ∷ tables
close_part m _ = []

abbrev tables_of : List Directive → List Table
tables_of [] = done ∷ []
tables_of (declare enum p u ∷ lines) = add_code enum p u (tables_of lines)
tables_of (ifdef m ∷ lines) = close_part m (tables_of lines)
tables_of (endif ∷ lines) = done ∷ tables_of lines

abbrev first_table : List Table → Table
first_table [] = done
first_table (table ∷ tables) = table

abbrev pub event_table : Table
event_table = first_table (tables_of event_codes)

abbrev joined : Option (List (Text × ℤ)) → Option (List (Text × ℤ)) → Option (List (Text × ℤ))
joined none others = none
joined (some names) others = Option.map (λ rest. names ++ rest) others

module _ (macro : Text → Option ℤ) where
  -- The names with their values, in order: those of the codes that are in no part whose macro is not
  -- defined. `none` is such a code without a value.
  pub names_of : Table → Option (List (Text × ℤ))
  names_of done = some []
  names_of (code enum p u rest) = elim (macro (macro_name p u)) [
    | none ↦ none
    | some v ↦
        Option.map (λ names. (macro_name p u, v) ∷ (enum_name enum u, v) ∷ names) (names_of rest)
  ]
  names_of (part m inside rest) = elim (macro (codes m)) [
    | none ↦ names_of rest
    | some _ ↦ joined (names_of inside) (names_of rest)
  ]

  module _ {T : Type 0} (reg : Registry T) where
    abbrev pub insert_names : List (Text × ℤ) → T → T
    insert_names [] t = t
    insert_names ((name, v) ∷ names) t =
        insert_names names (reg.insert t (hash_table_key_from_bytes (some name)) v)

    abbrev then_expand : List Directive → T → Option (List (Text × ℤ)) → Option T
    then_expand lines t none = none
    then_expand lines t (some names) = expand reg macro 0 lines (insert_names names t)
