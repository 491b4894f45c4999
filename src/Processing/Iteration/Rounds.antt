-- ===== src/Processing/Iteration/Rounds.antt =====
-- The time that `process_iteration` waits for input, and its last round.
use event_sequence_transform.Prelude.{
  ◌≡◌, true, false, some, List, ◌∷◌, if◌then◌else◌, arith, refl, sym, ap, ◌∙◌, Bool-cases, inl, inr,
}
use event_sequence_transform.Prelude.Int.{
  ℤ, pos, ltb_ℤ, ◌-ℤ◌, ◌+ℤ◌, ◌*ℤ◌, ◌≤ℤ◌, pos_part, neg_part, int_laws,
}
use event_sequence_transform.Time.{
  AbsoluteTime, RelativeTime, relative_time_cmp, absolute_time_sub_absolute,
}
use event_sequence_transform.Time.Order.{later}
use event_sequence_transform.Time.Sums.{
  IsNormal, total, timespec_sub_lem, later-total, not_later-total,
}
use event_sequence_transform.Processing.{Delay}
use event_sequence_transform.Processing.Iteration.{zero_to, io_timeout}

negative-later : (t : RelativeTime) → ltb_ℤ (relative_time_cmp t zero_to) (pos 0) ≡ later zero_to t
unfolding relative_time_cmp later
negative-later t = ground arith

zero-IsNormal : IsNormal zero_to
unfolding ◌+ℤ◌
zero-IsNormal = record { nonneg = omega arith; below_second = omega arith }

total-zero : total zero_to ≡ pos 0
unfolding total ◌+ℤ◌ ◌*ℤ◌
total-zero = refl

no_way : (t z d e : ℤ) → t ≡ d -ℤ e → z ≡ pos 0 → t +ℤ pos 1 ≤ℤ z → e +ℤ pos 1 ≤ℤ d → ⊥
no_way t z d e same zero_total below above =
    let ps : pos_part t ≡ pos_part (d -ℤ e) = ap pos_part same in
    let ns : neg_part t ≡ neg_part (d -ℤ e) = ap neg_part same in
    let pz : pos_part z ≡ 0 = ap pos_part zero_total in
    let nz : neg_part z ≡ 0 = ap neg_part zero_total in omega int_laws

squeezed : (t z d e : ℤ) → t ≡ d -ℤ e → z ≡ pos 0 → d ≤ℤ e → z ≤ℤ t → t ≡ pos 0
squeezed t z d e same zero_total low high =
    let ps : pos_part t ≡ pos_part (d -ℤ e) = ap pos_part same in
    let ns : neg_part t ≡ neg_part (d -ℤ e) = ap neg_part same in
    let pz : pos_part z ≡ 0 = ap pos_part zero_total in
    let nz : neg_part z ≡ 0 = ap neg_part zero_total in omega int_laws

-- With no event of the future, and with normal times, the wait for input is not negative: it is the time
-- to the first delayed call, and none when the call is due.
pub io_timeout-total :
    (d : Delay) (ds : List Delay) (extern_time : AbsoluteTime)
    → IsNormal d.time
    → IsNormal extern_time
    → (t : RelativeTime) × (io_timeout false (d ∷ ds) extern_time ≡ some t)
      × IsNormal t
      × (total t ≡ (if later d.time extern_time then total d.time -ℤ total extern_time else pos 0))
unfolding io_timeout total absolute_time_sub_absolute
io_timeout-total d ds extern_time nd ne =
    let t = absolute_time_sub_absolute d.time extern_time in
    let (same, normal) = timespec_sub_lem d.time extern_time nd ne in
    let negative = negative-later t in
    elim (Bool-cases (later zero_to t)) [
      | inl below ↦
          let neg : ltb_ℤ (relative_time_cmp t zero_to) (pos 0) ≡ true = negative ∙ below in
          let t_below = (later-total zero_to t zero-IsNormal normal).0 below in
          let due : later d.time extern_time ≡ false =
            elim (Bool-cases (later d.time extern_time)) [
              | inr not_later ↦ not_later
              | inl is_later ↦
                  let above = (later-total d.time extern_time nd ne).0 is_later in
                  absurd (
                    no_way (total t) (total zero_to) (total d.time) (total extern_time) same
                      total-zero t_below above)
            ] in
          (
            zero_to,
            ap (λ b. some (if b then zero_to else t)) neg,
            zero-IsNormal,
            total-zero ∙ ap (λ b. if b then total d.time -ℤ total extern_time else pos 0) (sym due),
          )
      | inr upto ↦
          let neg : ltb_ℤ (relative_time_cmp t zero_to) (pos 0) ≡ false = negative ∙ upto in
          (
            t,
            ap (λ b. some (if b then zero_to else t)) neg,
            normal,
            (elim (Bool-cases (later d.time extern_time)) [
              | inl is_later ↦
                  same
                  ∙ ap (λ b. if b then total d.time -ℤ total extern_time else pos 0) (sym is_later)
              | inr not_later ↦
                  let low = not_later-total d.time extern_time nd ne not_later in
                  let high = not_later-total zero_to t zero-IsNormal normal upto in
                  squeezed (total t) (total zero_to) (total d.time) (total extern_time) same
                    total-zero low high
                  ∙ ap (λ b. if b then total d.time -ℤ total extern_time else pos 0) (sym not_later)
            ]),
          )
    ]
