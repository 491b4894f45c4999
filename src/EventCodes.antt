-- ===== src/EventCodes.antt =====
-- event_code_names.c with the table that it includes, event_code_names.cc. `macro` is what
-- linux/input-event-codes.h defines: the value behind a name, `none` where it defines none. The
-- test around the whole table is for a macro that event_code_names.c defines, and is left out.
pub mod Directives
pub mod Found
pub mod First
pub mod Second
pub mod Third
pub mod Fourth
pub mod Fifth
pub mod Sixth
pub mod Seventh
pub mod Eighth
use Prim.Native.String.{String}
use event_sequence_transform.Prelude.{ℕ, zero, suc, Option, none, some, List, [], ◌∷◌, ◌++◌}
use event_sequence_transform.Prelude.Int.{ℤ}
use event_sequence_transform.HashTable.{hash_table_key_from_bytes}
use event_sequence_transform.Config.{Registry, Text, codes}
use event_sequence_transform.EventCodes.Directives.{Directive, declare, ifdef, endif}
use event_sequence_transform.EventCodes.First.{first_codes}
use event_sequence_transform.EventCodes.Second.{second_codes}
use event_sequence_transform.EventCodes.Third.{third_codes}
use event_sequence_transform.EventCodes.Fourth.{fourth_codes}
use event_sequence_transform.EventCodes.Fifth.{fifth_codes}
use event_sequence_transform.EventCodes.Sixth.{sixth_codes}
use event_sequence_transform.EventCodes.Seventh.{seventh_codes}
use event_sequence_transform.EventCodes.Eighth.{eighth_codes}

abbrev pub event_codes : List Directive
event_codes =
    first_codes ++ second_codes ++ third_codes ++ fourth_codes ++ fifth_codes ++ sixth_codes
    ++ seventh_codes ++ eighth_codes

abbrev pub macro_name : String → String → Text
macro_name prefix_name unqualified_name = codes prefix_name ++ codes "_" ++ codes unqualified_name

abbrev pub enum_name : String → String → Text
enum_name name unqualified_name = codes name ++ codes "." ++ codes unqualified_name

module _ {T : Type 0} (reg : Registry T) (macro : Text → Option ℤ) where
  -- The macro DECLARE_EVENT_CODE: the two names of a code, with its value.
  pub declare_event_code : Text → Text → ℤ → T → T
  declare_event_code name qualified value registry =
      reg.insert (reg.insert registry (hash_table_key_from_bytes (some name)) value)
        (hash_table_key_from_bytes (some qualified)) value

  -- What stands in the lines, with the number of parts around that the preprocessor leaves out. `none` is
  -- a code that does not compile, since its macro is not defined.
  pub expand : ℕ → List Directive → T → Option T
  unfolding declare_event_code
  expand skipped [] registry = some registry
  expand zero (ifdef name ∷ lines) registry = elim (macro (codes name)) [
    | none ↦ expand 1 lines registry
    | some value ↦ expand 0 lines registry
  ]
  expand (suc n) (ifdef name ∷ lines) registry = expand (suc (suc n)) lines registry
  expand zero (endif ∷ lines) registry = expand zero lines registry
  expand (suc n) (endif ∷ lines) registry = expand n lines registry
  expand zero (declare enum prefix_name unqualified_name ∷ lines) registry =
      elim (macro (macro_name prefix_name unqualified_name)) [
        | none ↦ none
        | some value ↦ expand zero lines (
            declare_event_code (macro_name prefix_name unqualified_name)
              (enum_name enum unqualified_name) value registry)
      ]
  expand (suc n) (declare enum prefix_name unqualified_name ∷ lines) registry =
      expand (suc n) lines registry

  unfoldable pub populate_event_codes : Option T → Option (Option T)
  unfolding expand
  populate_event_codes none = some none
  populate_event_codes (some registry) = elim (expand 0 event_codes registry) [
    | none ↦ none
    | some populated ↦ some (some populated)
  ]
