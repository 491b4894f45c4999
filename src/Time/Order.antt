-- ===== src/Time/Order.antt =====
-- The order of times that `timespec_cmp` computes.
use event_sequence_transform.Prelude.{◌+◌, ◌<◌, ◌≡◌, Bool, true, false, arith, not, ◌⊎◌, inl, inr}
use event_sequence_transform.Prelude.Int.{ℤ, pos, pos_part, neg_part, ◌≤ℤ◌, ltb_ℤ}
use event_sequence_transform.Time.{AbsoluteTime, absolute_time_cmp}

-- `absolute_time_cmp(a, b) > 0`, as the code tests it.
unfoldable pub later : AbsoluteTime → AbsoluteTime → Bool
unfolding absolute_time_cmp
later a b = ltb_ℤ (pos 0) (absolute_time_cmp a b)

-- `absolute_time_cmp(a, b) >= 0`.
unfoldable pub not_before : AbsoluteTime → AbsoluteTime → Bool
unfolding absolute_time_cmp
not_before a b = not (ltb_ℤ (absolute_time_cmp a b) (pos 0))

-- The two tests are one order, read from either side.
pub not_before-eq-not-later : (a b : AbsoluteTime) → not_before a b ≡ not (later b a)
unfolding not_before later
not_before-eq-not-later a b = ground arith

pub later_irrefl : (a : AbsoluteTime) → later a a ≡ false
unfolding later
later_irrefl a = ground arith

pub later_asymm : (a b : AbsoluteTime) → later a b ≡ true → later b a ≡ false
unfolding later
later_asymm a b h = ground arith

infix 50 ◌<ℤ◌
abbrev pub ◌<ℤ◌ : ℤ → ℤ → Type 0
a <ℤ b = pos_part a + neg_part b < pos_part b + neg_part a

-- The order of pairs, for the tests.
abbrev AtMost : AbsoluteTime → AbsoluteTime → Type 0
AtMost a b = (a.tv_sec <ℤ b.tv_sec) ⊎ ((a.tv_sec ≤ℤ b.tv_sec) × (a.tv_nsec ≤ℤ b.tv_nsec))

abbrev pub Above : AbsoluteTime → AbsoluteTime → Type 0
Above a b = (b.tv_sec <ℤ a.tv_sec) ⊎ ((b.tv_sec ≤ℤ a.tv_sec) × (b.tv_nsec <ℤ a.tv_nsec))

pub later-Above : (a b : AbsoluteTime) → later a b ≡ true → Above a b
unfolding later
later-Above a b h = ground arith

later-AtMost : (a b : AbsoluteTime) → later a b ≡ false → AtMost a b
unfolding later
later-AtMost a b h = ground arith

AtMost-later : (a b : AbsoluteTime) → AtMost a b → later a b ≡ false
unfolding later
AtMost-later a b (inl p) = ground arith
AtMost-later a b (inr p) = ground arith

pub Above-later : (a b : AbsoluteTime) → Above a b → later a b ≡ true
unfolding later
Above-later a b (inl p) = ground arith
Above-later a b (inr p) = ground arith

AtMost-trans : (a b c : AbsoluteTime) → AtMost a b → AtMost b c → AtMost a c
AtMost-trans a b c (inl p) (inl q) = inl (omega arith)
AtMost-trans a b c (inl p) (inr q) = inl (omega arith)
AtMost-trans a b c (inr p) (inl q) = inl (omega arith)
AtMost-trans a b c (inr p) (inr q) = inr (omega arith)

Above-trans : (a b c : AbsoluteTime) → Above a b → Above b c → Above a c
Above-trans a b c (inl p) (inl q) = inl (omega arith)
Above-trans a b c (inl p) (inr q) = inl (omega arith)
Above-trans a b c (inr p) (inl q) = inl (omega arith)
Above-trans a b c (inr p) (inr q) = inr (omega arith)

-- Not being later is transitive.
pub not_later_trans :
    (a b c : AbsoluteTime) → later a b ≡ false → later b c ≡ false → later a c ≡ false
not_later_trans a b c h k =
    AtMost-later a c (AtMost-trans a b c (later-AtMost a b h) (later-AtMost b c k))

pub later_trans : (a b c : AbsoluteTime) → later a b ≡ true → later b c ≡ true → later a c ≡ true
later_trans a b c h k = Above-later a c (Above-trans a b c (later-Above a b h) (later-Above b c k))
