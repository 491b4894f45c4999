-- ===== src/Event.antt =====
-- events.h: the data of an event and the node that carries it.
pub mod Store
use event_sequence_transform.Prelude.{ℕ, Option, none}
use event_sequence_transform.Prelude.Int.{ℤ}
use event_sequence_transform.Modifiers.{ModifierSet}
use event_sequence_transform.Time.{AbsoluteTime}

pub record EventCode : Type 0 where
  pub ns : ℕ
  pub major : ℕ
  pub minor : ℕ

pub record EventData : Type 0 where
  pub code : EventCode
  pub ttl : ℕ
  pub priority : ℤ
  pub payload : ℤ
  pub modifiers : ModifierSet
  pub time : AbsoluteTime

-- What an `EventPositionBase *` points to: a node or a channel of the graph, by its number.
pub data Position : Type 0 where
  at_node : ℕ → Position
  at_channel : ℕ → Position

-- `id` stands for the address. `prev` and `next` are the neighbours in the list of events.
pub record EventNode : Type 0 where
  pub id : ℕ
  pub position : Option Position
  pub input_index : ℕ
  pub event_data : EventData
