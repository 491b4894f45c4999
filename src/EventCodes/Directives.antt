-- ===== src/EventCodes/Directives.antt =====
-- The lines of event_code_names.cc.
use Prim.Native.String.{String}

-- A line declares a code, or opens or closes a part for the preprocessor.
pub data Directive : Type 0 where
  declare : String → String → String → Directive
  ifdef : String → Directive
  endif : Directive
