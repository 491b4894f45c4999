-- ===== src/Examples/Rounds.antt =====
-- Rounds of the main loop for which the hypotheses of the properties hold.
use event_sequence_transform.Prelude.{
  ℕ, zero, suc, ◌≡◌, Bool, true, false, Option, some, List, [], ◌∷◌, arith, length, if◌then◌else◌,
}
use event_sequence_transform.Prelude.Int.{pos, ◌-ℤ◌, ◌+ℤ◌}
use event_sequence_transform.Time.{AbsoluteTime, RelativeTime}
use event_sequence_transform.Time.Order.{later}
use event_sequence_transform.Time.Sums.{IsNormal, total}
use event_sequence_transform.Event.{Position, EventNode, at_node}
use event_sequence_transform.Event.Store.{Events}
use event_sequence_transform.Processing.{Delay}
use event_sequence_transform.Processing.Iteration.{io_timeout}
use event_sequence_transform.Processing.Iteration.Rounds.{io_timeout-total}
use event_sequence_transform.Modifiers.{empty_modifier_set}

abbrev at_second : ℕ → AbsoluteTime
at_second n = record { tv_sec = pos n; tv_nsec = pos 0 }

at_second-IsNormal : (n : ℕ) → IsNormal (at_second n)
unfolding ◌+ℤ◌
at_second-IsNormal n = record { nonneg = omega arith; below_second = omega arith }

abbrev delay : Delay
delay = record { callback = some 1; target = 0; time = at_second 5 }

io_timeout-total_example :
    (t : RelativeTime) × (io_timeout false (delay ∷ []) (at_second 3) ≡ some t)
    × IsNormal t
    × (total t ≡ (
        if later (at_second 5) (at_second 3)
        then total (at_second 5) -ℤ total (at_second 3)
        else pos 0))
io_timeout-total_example =
    io_timeout-total delay [] (at_second 3) (at_second-IsNormal 5) (at_second-IsNormal 3)

-- A program whose state is how many calls are delayed: they are due and call nothing back. Its one event
-- is at a node that waits.
abbrev waiting_event : EventNode
waiting_event = record {
  id = 0;
  position = some (at_node 0);
  input_index = 0;
  event_data = record {
    code = record { ns = 0; major = 0; minor = 0 };
    ttl = 4;
    payload = pos 0;
    modifiers = empty_modifier_set;
    priority = pos 3;
    time = at_second 1;
  };
}

abbrev same_delays : ℕ → List Delay
same_delays zero = []
same_delays (suc n) = delay ∷ same_delays n

abbrev put_length : List Delay → ℕ → ℕ
put_length ds n = length ds

abbrev calls_none : ℕ → ℕ → AbsoluteTime → ℕ → ℕ
calls_none callback target time n = n

abbrev no_io : Option RelativeTime → ℕ → ℕ
no_io timeout n = n

abbrev one_event : ℕ → Events
one_event n = waiting_event ∷ []

abbrev never_ready : ℕ → Position → Bool
never_ready n position = false

abbrev not_handled : Position → ℕ → ℕ → Bool × ℕ
not_handled position i n = (true, n)
