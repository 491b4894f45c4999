-- ===== src/Time/Assign.antt =====
-- Durations from a count of nanoseconds or milliseconds.
use event_sequence_transform.Prelude.{ℕ, suc, ◌+◌, ◌*◌, ◌/◌, ◌≡◌, arith}
use event_sequence_transform.Prelude.Int.{
  ℤ, pos, negsuc, pos_part, neg_part, ◌+ℤ◌, ◌-ℤ◌, ◌*ℤ◌, ◌≤ℤ◌,
}
use event_sequence_transform.Time.{
  nanoseconds_in_second, milliseconds_in_second, whole_seconds, timespec_assign_nanosecond,
  timespec_assign_millisecond,
}
use event_sequence_transform.Time.Sums.{total, IsNormal, sum_laws}

-- The seconds leave a rest from 0 to a whole second, below it for a time that is not negative.
record Rest (n : ℤ) (d : ℕ) (w : ℤ) : Type 0 where
  low : w *ℤ pos d ≤ℤ n
  high : n ≤ℤ w *ℤ pos d +ℤ pos d
  strict : pos 0 ≤ℤ n → n +ℤ pos 1 ≤ℤ w *ℤ pos d +ℤ pos d

whole_seconds_nonneg :
    (n d : ℕ)
    → (pos_part (whole_seconds (pos n) d) ≡ n / d) × (neg_part (whole_seconds (pos n) d) ≡ 0)
unfolding whole_seconds
whole_seconds_nonneg n d = ground arith

whole_seconds_neg :
    (n d : ℕ)
    → (pos_part (whole_seconds (negsuc n) d) ≡ 0)
      × (neg_part (whole_seconds (negsuc n) d) ≡ suc n / d + 1)
unfolding whole_seconds ◌-ℤ◌
whole_seconds_neg n d = ground arith

ns_Rest : (n : ℤ) → Rest n nanoseconds_in_second (whole_seconds n nanoseconds_in_second)
ns_Rest (pos n) = omega (sum_laws, whole_seconds_nonneg n nanoseconds_in_second)
ns_Rest (negsuc n) = omega (sum_laws, whole_seconds_neg n nanoseconds_in_second)

ms_Rest : (n : ℤ) → Rest n milliseconds_in_second (whole_seconds n milliseconds_in_second)
ms_Rest (pos n) = omega (sum_laws, whole_seconds_nonneg n milliseconds_in_second)
ms_Rest (negsuc n) = omega (sum_laws, whole_seconds_neg n milliseconds_in_second)

-- `timespec_assign_nanosecond` keeps the duration, with nanoseconds from 0 to a whole second, that
-- number included.
pub assign_nanosecond_lem :
    (ns : ℤ)
    → (total (timespec_assign_nanosecond ns) ≡ ns)
      × (pos 0 ≤ℤ (timespec_assign_nanosecond ns).tv_nsec)
      × ((timespec_assign_nanosecond ns).tv_nsec ≤ℤ pos nanoseconds_in_second)
unfolding timespec_assign_nanosecond total
assign_nanosecond_lem ns =
    let r = ns_Rest ns in (omega sum_laws, omega (sum_laws, r.low), omega (sum_laws, r.high))

-- `timespec_assign_millisecond` keeps the duration, with nanoseconds from 0 to a whole second, that
-- number included.
pub assign_millisecond_lem :
    (ms : ℤ)
    → (total (timespec_assign_millisecond ms) ≡ ms *ℤ pos 1000000)
      × (pos 0 ≤ℤ (timespec_assign_millisecond ms).tv_nsec)
      × ((timespec_assign_millisecond ms).tv_nsec ≤ℤ pos nanoseconds_in_second)
unfolding timespec_assign_millisecond total
assign_millisecond_lem ms =
    let r = ms_Rest ms in (omega sum_laws, omega (sum_laws, r.low), omega (sum_laws, r.high))

-- `timespec_assign_nanosecond` and `timespec_assign_millisecond` make a normal time of a duration
-- that is not negative.
pub assign-IsNormal :
    (n : ℤ)
    → pos 0 ≤ℤ n
    → IsNormal (timespec_assign_nanosecond n) × IsNormal (timespec_assign_millisecond n)
unfolding timespec_assign_nanosecond timespec_assign_millisecond
assign-IsNormal n h =
    let r = ns_Rest n in
    let q = ms_Rest n in
    (
      record { nonneg = omega (sum_laws, r.low); below_second = omega (sum_laws, r.strict h) },
      record { nonneg = omega (sum_laws, q.low); below_second = omega (sum_laws, q.strict h) },
    )

-- `timespec_assign_nanosecond` of a negative whole number of seconds is not a normal time.
pub assign_nanosecond_negative_whole :
    (k : ℕ)
    → ¬ IsNormal (timespec_assign_nanosecond (negsuc (k * nanoseconds_in_second + 999999999)))
unfolding timespec_assign_nanosecond
assign_nanosecond_negative_whole k normal =
    let e = whole_seconds_neg (k * nanoseconds_in_second + 999999999) nanoseconds_in_second in
    absurd (omega (sum_laws, e, normal.below_second))
