-- ===== src/Processing/Loop/Priorities.antt =====
-- The priorities in a list of events: how many are below one, and the highest.
use event_sequence_transform.Prelude.{
  ℕ, ◌+◌, ◌≤◌, ◌<◌, ◌≡◌, true, false, [], ◌∷◌, if◌then◌else◌, arith, length, ◌⊎◌, inl, inr,
  Bool-cases,
}
use event_sequence_transform.Prelude.Int.{ℤ, ltb_ℤ}
use event_sequence_transform.Time.{AbsoluteTime}
use event_sequence_transform.Time.Order.{later}
use event_sequence_transform.Event.{EventNode}
use event_sequence_transform.Event.Store.{Events}
use event_sequence_transform.Processing.Loop.{priority_of, highest_priority}

abbrev pub HasPriority : ℤ → Events → Type 0
HasPriority p [] = ⊥
HasPriority p (e ∷ es) = (priority_of e ≡ p) ⊎ HasPriority p es

abbrev pub count_below : ℤ → Events → ℕ
count_below p [] = 0
count_below p (e ∷ es) = (if ltb_ℤ (priority_of e) p then 1 else 0) + count_below p es

pub count_below-le_length : (p : ℤ) (es : Events) → count_below p es ≤ length es
count_below-le_length p [] = omega arith
count_below-le_length p (e ∷ es) = let rest = count_below-le_length p es in ground arith

count_below_mono : (p q : ℤ) (es : Events) → ltb_ℤ q p ≡ true → count_below q es ≤ count_below p es
count_below_mono p q [] h = omega arith
count_below_mono p q (e ∷ es) h = let rest = count_below_mono p q es h in ground arith

-- A lower priority that an event has is below fewer of them.
pub count_below_decreases :
    (p q : ℤ) (es : Events)
    → ltb_ℤ q p ≡ true
    → HasPriority q es
    → count_below q es < count_below p es
count_below_decreases p q [] h k = absurd k
count_below_decreases p q (e ∷ es) h (inl same) =
    let rest = count_below_mono p q es h in
    let below : ltb_ℤ (priority_of e) p ≡ true = rw same h in
    let level : ltb_ℤ (priority_of e) q ≡ false = rw same (ground arith) in ground arith
count_below_decreases p q (e ∷ es) h (inr k) =
    let rest = count_below_decreases p q es h k in ground arith

-- The highest priority is not below the one it begins with, nor below that of a first event in time.
highest_priority_ge :
    (max_time : AbsoluteTime) (es : Events) (p : ℤ)
    → ltb_ℤ (highest_priority max_time es p).0 p ≡ false
unfolding highest_priority
highest_priority_ge max_time [] p = ground arith
highest_priority_ge max_time (e ∷ es) p =
    let next = if ltb_ℤ p (priority_of e) then priority_of e else p in
    let rest = highest_priority_ge max_time es next in
    elim (Bool-cases (later e.event_data.time max_time)) [
      | inl late ↦ rw (late, highest_priority) (ground arith)
      | inr due ↦ rw (due, highest_priority) (ground arith)
    ]

pub highest_priority_first :
    (max_time : AbsoluteTime) (e : EventNode) (es : Events) (p : ℤ)
    → later e.event_data.time max_time ≡ false
    → ltb_ℤ (highest_priority max_time (e ∷ es) p).0 (priority_of e) ≡ false
unfolding highest_priority
highest_priority_first max_time e es p due =
    let next = if ltb_ℤ p (priority_of e) then priority_of e else p in
    let rest = highest_priority_ge max_time es next in rw (due, highest_priority) (ground arith)
