-- ===== src/Time/Sums.antt =====
-- What the arithmetic of time.h does to the number of nanoseconds that a time stands for.
use event_sequence_transform.Prelude.{
  ℕ, zero, suc, ◌+◌, ◌*◌, ◌/◌, ◌≤◌, ◌<◌, ◌≡◌, ◌∙◌, true, false, arith, refl, Bool-cases, inl, inr,
  ◌⊎◌, ◌↔◌, dec_lt, ltb→lt, not_ltb→le, true-false, sym,
}
use event_sequence_transform.Prelude.Int.{
  ℤ, pos, negsuc, pos_part, neg_part, ◌+ℤ◌, ◌-ℤ◌, ◌*ℤ◌, ◌≤ℤ◌, ltb_ℤ, +ℤ_parts, -ℤ_parts,
  eq_of_parts, int_laws,
}
use event_sequence_transform.Time.Order.{later, Above, later-Above, Above-later}
use event_sequence_transform.Time.{
  Timespec, AbsoluteTime, nanoseconds_in_second, carry, borrow, timespec_add, timespec_sub,
  absolute_time_cmp,
}

-- A product with a number, by parts.
pub *ℤ_parts :
    (a : ℤ) (n : ℕ)
    → (pos_part (a *ℤ pos n) ≡ pos_part a * n) × (neg_part (a *ℤ pos n) ≡ neg_part a * n)
unfolding ◌*ℤ◌
*ℤ_parts (pos a) n = ground arith
*ℤ_parts (negsuc a) n = ground arith

pub ruleset sum_laws = (int_laws, *ℤ_parts)

-- An integer has one sign.
pub one_sign : (a : ℤ) → (pos_part a ≡ 0) ⊎ (neg_part a ≡ 0)
one_sign (pos n) = inr refl
one_sign (negsuc n) = inl refl

-- All in nanoseconds.
unfoldable pub total : Timespec → ℤ
total t = t.tv_sec *ℤ pos nanoseconds_in_second +ℤ t.tv_nsec

-- The nanoseconds as `clock_gettime` gives them.
pub record IsNormal (t : Timespec) : Type 0 where
  pub nonneg : pos 0 ≤ℤ t.tv_nsec
  pub below_second : t.tv_nsec +ℤ pos 1 ≤ℤ pos nanoseconds_in_second

total-carried :
    (t : Timespec)
    → total
        (record { tv_sec = t.tv_sec +ℤ pos 1; tv_nsec = t.tv_nsec -ℤ pos nanoseconds_in_second })
      ≡ total t
unfolding total
total-carried t = omega sum_laws

total-borrowed :
    (t : Timespec)
    → total
        (record { tv_sec = t.tv_sec -ℤ pos 1; tv_nsec = t.tv_nsec +ℤ pos nanoseconds_in_second })
      ≡ total t
unfolding total
total-borrowed t = omega sum_laws

-- The loop keeps the time and, with fuel for each second in it, ends by its test. It subtracts
-- from what is at least a second, so it goes below 0 only if it started there.
carry_lem :
    (fuel : ℕ) (t : Timespec)
    → pos_part t.tv_nsec < fuel * nanoseconds_in_second
    → (total (carry fuel t) ≡ total t)
      × (ltb_ℤ (carry fuel t).tv_nsec (pos nanoseconds_in_second) ≡ true)
      × (pos 0 ≤ℤ t.tv_nsec → pos 0 ≤ℤ (carry fuel t).tv_nsec)
unfolding carry
carry_lem zero t h = absurd (omega arith)
carry_lem (suc fuel) t h = elim (Bool-cases (ltb_ℤ t.tv_nsec (pos nanoseconds_in_second))) [
  | inl done ↦ rw (done, carry) (refl, done, λ p. p)
  | inr more ↦
      let t' : Timespec = record {
        tv_sec = t.tv_sec +ℤ pos 1;
        tv_nsec = t.tv_nsec -ℤ pos nanoseconds_in_second;
      } in
      let big = not_ltb→le _ _ more in
      let (same, stop, sign) =
        carry_lem fuel t' (omega (sum_laws, one_sign t'.tv_nsec, one_sign t.tv_nsec)) in
      rw (more, carry) (same ∙ total-carried t, stop, λ p. sign (omega sum_laws))
]

borrow_lem :
    (fuel : ℕ) (t : Timespec)
    → neg_part t.tv_nsec ≤ fuel * nanoseconds_in_second
    → (total (borrow fuel t) ≡ total t)
      × (ltb_ℤ (borrow fuel t).tv_nsec (pos 0) ≡ false)
      × (t.tv_nsec +ℤ pos 1 ≤ℤ pos nanoseconds_in_second
          → (borrow fuel t).tv_nsec +ℤ pos 1 ≤ℤ pos nanoseconds_in_second)
unfolding borrow
borrow_lem zero t h = (refl, ground arith, λ p. p)
borrow_lem (suc fuel) t h = elim (Bool-cases (ltb_ℤ t.tv_nsec (pos 0))) [
  | inr done ↦ rw (done, borrow) (refl, done, λ p. p)
  | inl more ↦
      let t' : Timespec = record {
        tv_sec = t.tv_sec -ℤ pos 1;
        tv_nsec = t.tv_nsec +ℤ pos nanoseconds_in_second;
      } in
      let low = ltb→lt _ _ more in
      let (same, stop, sign) =
        borrow_lem fuel t' (omega (sum_laws, one_sign t'.tv_nsec, one_sign t.tv_nsec)) in
      rw (more, borrow) (same ∙ total-borrowed t, stop, λ p. sign (omega sum_laws))
]

-- `timespec_add` of two normal times is a normal time, of the sum of their nanoseconds.
pub timespec_add_lem :
    (a b : Timespec)
    → IsNormal a
    → IsNormal b
    → (total (timespec_add a b) ≡ total a +ℤ total b) × IsNormal (timespec_add a b)
unfolding timespec_add total
timespec_add_lem a b na nb =
    let nsec = a.tv_nsec +ℤ b.tv_nsec in
    let (same, stop, sign) =
      carry_lem (pos_part nsec / nanoseconds_in_second + 1)
        (record { tv_sec = a.tv_sec +ℤ b.tv_sec; tv_nsec = nsec }) (omega arith) in
    let below = ltb→lt _ _ stop in
    (
      same ∙ omega sum_laws,
      record {
        nonneg = sign (omega (sum_laws, na.nonneg, nb.nonneg));
        below_second = omega sum_laws;
      },
    )

-- `timespec_sub` of two normal times is a normal time, of the difference of their nanoseconds, be it
-- negative or not.
pub timespec_sub_lem :
    (a b : Timespec)
    → IsNormal a
    → IsNormal b
    → (total (timespec_sub a b) ≡ total a -ℤ total b) × IsNormal (timespec_sub a b)
unfolding timespec_sub total
timespec_sub_lem a b na nb =
    let nsec = a.tv_nsec -ℤ b.tv_nsec in
    let (same, stop, sign) =
      borrow_lem (neg_part nsec / nanoseconds_in_second + 1)
        (record { tv_sec = a.tv_sec -ℤ b.tv_sec; tv_nsec = nsec }) (omega arith) in
    let above = not_ltb→le _ _ stop in
    (
      same ∙ omega sum_laws,
      record {
        nonneg = omega sum_laws;
        below_second = sign (omega (sum_laws, na.below_second, nb.nonneg));
      },
    )

-- Of two normal times the later one has more nanoseconds.
pub later-total :
    (a b : Timespec) → IsNormal a → IsNormal b → (later a b ≡ true) ↔ (total b +ℤ pos 1 ≤ℤ total a)
unfolding total
later-total a b na nb = (λ h. above (later-Above a b h), λ h. Above-later a b (total_above h))
  where
    above : Above a b → total b +ℤ pos 1 ≤ℤ total a
    above (inl p) = omega (sum_laws, na, nb)
    above (inr p) = omega (sum_laws, na, nb)

    total_above : total b +ℤ pos 1 ≤ℤ total a → Above a b
    total_above h =
        elim (dec_lt (pos_part b.tv_sec + neg_part a.tv_sec)
          (pos_part a.tv_sec + neg_part b.tv_sec)) [
            | yes p ↦ inl p
            | no p ↦ inr (omega (sum_laws, na, nb), omega (sum_laws, na, nb))
          ]

pub not_later-total :
    (a b : AbsoluteTime) → IsNormal a → IsNormal b → later a b ≡ false → total a ≤ℤ total b
not_later-total a b na nb h =
    elim (dec_lt (pos_part (total b) + neg_part (total a))
      (pos_part (total a) + neg_part (total b))) [
        | no n ↦ omega arith
        | yes p ↦
            let above : total b +ℤ pos 1 ≤ℤ total a = omega int_laws in
            absurd (true-false (sym ((later-total a b na nb).1 above) ∙ h))
      ]

cmp_later : (a b : AbsoluteTime) → later a b ≡ true → absolute_time_cmp a b ≡ pos 1
unfolding later absolute_time_cmp
cmp_later a b h = ground arith

cmp_earlier : (a b : AbsoluteTime) → later b a ≡ true → absolute_time_cmp a b ≡ negsuc 0
unfolding later absolute_time_cmp
cmp_earlier a b h = ground arith

cmp_same :
    (a b : AbsoluteTime) → later a b ≡ false → later b a ≡ false → absolute_time_cmp a b ≡ pos 0
unfolding later absolute_time_cmp
cmp_same a b h k = ground arith

-- The comparison of two normal times gives 1 where the first has more nanoseconds, -1 where it has fewer,
-- and 0 where both have the same number of them.
pub absolute_time_cmp-total :
    (a b : AbsoluteTime)
    → IsNormal a
    → IsNormal b
    → ((absolute_time_cmp a b ≡ pos 1) × (total b +ℤ pos 1 ≤ℤ total a))
      ⊎ ((absolute_time_cmp a b ≡ negsuc 0) × (total a +ℤ pos 1 ≤ℤ total b))
      ⊎ ((absolute_time_cmp a b ≡ pos 0) × (total a ≡ total b))
absolute_time_cmp-total a b na nb = elim (Bool-cases (later a b)) [
  | inl above ↦ inl (cmp_later a b above, (later-total a b na nb).0 above)
  | inr upto ↦ elim (Bool-cases (later b a)) [
    | inl below ↦ inr (inl (cmp_earlier a b below, (later-total b a nb na).0 below))
    | inr from ↦
        let low = not_later-total a b na nb upto in
        let high = not_later-total b a nb na from in
        inr (inr (cmp_same a b upto from, omega int_laws))
  ]
]
