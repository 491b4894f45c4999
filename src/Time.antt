-- ===== src/Time.antt =====
-- time.h: times as seconds and nanoseconds. `time_t`, `long` and `long long` are integers without
-- bound here: an overflow of theirs is undefined in C, and the model says nothing of such a run.
pub mod Order
pub mod Sums
pub mod Assign
use event_sequence_transform.Prelude.{
  ℕ, zero, suc, ◌+◌, ◌-◌, ◌*◌, ◌/◌, ◌^◌, Bool, true, false, leb, ltb, if◌then◌else◌, not,
}
use event_sequence_transform.Prelude.Int.{
  ℤ, pos, negsuc, pos_part, neg_part, sub_ℕ, ◌+ℤ◌, ◌-ℤ◌, ◌*ℤ◌, ltb_ℤ,
}

pub record Timespec : Type 0 where
  pub tv_sec : ℤ
  pub tv_nsec : ℤ

-- Both are a struct with one `struct timespec`.
abbrev pub AbsoluteTime : Type 0
AbsoluteTime = Timespec

abbrev pub RelativeTime : Type 0
RelativeTime = Timespec

abbrev pub nanoseconds_in_second : ℕ
nanoseconds_in_second = 1000000000

abbrev pub milliseconds_in_second : ℕ
milliseconds_in_second = 1000

-- C division by a positive number: towards zero.
unfoldable pub div_trunc : ℤ → ℕ → ℤ
div_trunc (pos n) d = pos (n / d)
div_trunc (negsuc n) d = sub_ℕ 0 (suc n / d)

-- The `sec` of both assignments.
pub whole_seconds : ℤ → ℕ → ℤ
unfolding div_trunc
whole_seconds n d = let sec = div_trunc n d in if ltb_ℤ n (pos 0) then sec -ℤ pos 1 else sec

pub timespec_assign_nanosecond : ℤ → Timespec
unfolding whole_seconds
timespec_assign_nanosecond ns =
    let sec = whole_seconds ns nanoseconds_in_second in
    record { tv_sec = sec; tv_nsec = ns -ℤ sec *ℤ pos nanoseconds_in_second }

pub timespec_assign_millisecond : ℤ → Timespec
unfolding whole_seconds
timespec_assign_millisecond ms =
    let sec = whole_seconds ms milliseconds_in_second in
    let rest = ms -ℤ sec *ℤ pos milliseconds_in_second in
    record { tv_sec = sec; tv_nsec = rest *ℤ pos (nanoseconds_in_second / milliseconds_in_second) }

-- The loops on fuel, with the rounds that the sum and the difference below give them.
pub carry : ℕ → Timespec → Timespec
carry zero t = t
carry (suc fuel) t = elim (ltb_ℤ t.tv_nsec (pos nanoseconds_in_second)) [
  | true ↦ t
  | false ↦
      carry fuel
        (record { tv_sec = t.tv_sec +ℤ pos 1; tv_nsec = t.tv_nsec -ℤ pos nanoseconds_in_second })
]

pub borrow : ℕ → Timespec → Timespec
borrow zero t = t
borrow (suc fuel) t = elim (ltb_ℤ t.tv_nsec (pos 0)) [
  | false ↦ t
  | true ↦
      borrow fuel
        (record { tv_sec = t.tv_sec -ℤ pos 1; tv_nsec = t.tv_nsec +ℤ pos nanoseconds_in_second })
]

pub timespec_add : Timespec → Timespec → Timespec
unfolding carry
timespec_add accum item =
    let nsec = accum.tv_nsec +ℤ item.tv_nsec in
    carry (pos_part nsec / nanoseconds_in_second + 1)
      (record { tv_sec = accum.tv_sec +ℤ item.tv_sec; tv_nsec = nsec })

pub timespec_sub : Timespec → Timespec → Timespec
unfolding borrow
timespec_sub accum item =
    let nsec = accum.tv_nsec -ℤ item.tv_nsec in
    borrow (neg_part nsec / nanoseconds_in_second + 1)
      (record { tv_sec = accum.tv_sec -ℤ item.tv_sec; tv_nsec = nsec })

unfoldable pub timespec_cmp : Timespec → Timespec → ℤ
timespec_cmp lhs rhs =
    if ltb_ℤ rhs.tv_sec lhs.tv_sec
    then pos 1
    else if ltb_ℤ lhs.tv_sec rhs.tv_sec
    then negsuc 0
    else if ltb_ℤ rhs.tv_nsec lhs.tv_nsec
    then pos 1
    else if ltb_ℤ lhs.tv_nsec rhs.tv_nsec
    then negsuc 0
    else pos 0

unfoldable pub absolute_time_cmp : AbsoluteTime → AbsoluteTime → ℤ
unfolding timespec_cmp
absolute_time_cmp lhs rhs = timespec_cmp lhs rhs

unfoldable pub relative_time_cmp : RelativeTime → RelativeTime → ℤ
unfolding timespec_cmp
relative_time_cmp lhs rhs = timespec_cmp lhs rhs

pub absolute_time_add_relative : AbsoluteTime → RelativeTime → AbsoluteTime
unfolding timespec_add
absolute_time_add_relative lhs rhs = timespec_add lhs rhs

pub absolute_time_sub_relative : AbsoluteTime → RelativeTime → AbsoluteTime
unfolding timespec_sub
absolute_time_sub_relative lhs rhs = timespec_sub lhs rhs

unfoldable pub absolute_time_sub_absolute : AbsoluteTime → AbsoluteTime → RelativeTime
unfolding timespec_sub
absolute_time_sub_absolute lhs rhs = timespec_sub lhs rhs

pub relative_time_add : RelativeTime → RelativeTime → RelativeTime
unfolding timespec_add
relative_time_add lhs rhs = timespec_add lhs rhs

pub relative_time_sub : RelativeTime → RelativeTime → RelativeTime
unfolding timespec_sub
relative_time_sub lhs rhs = timespec_sub lhs rhs

pub relative_time_from_nanosecond : ℤ → RelativeTime
relative_time_from_nanosecond ns = timespec_assign_nanosecond ns

pub relative_time_from_millisecond : ℤ → RelativeTime
relative_time_from_millisecond ms = timespec_assign_millisecond ms
