-- ===== src/Prelude/Bits.antt =====
-- Binary digits of native numbers, and what `&`, `|`, `^` and `~` of C do to each digit.
use Prim.Native.Nat.{bit_and, bit_or, bit_xor, digits, bitwise, differ}
use Prim.Native.Nat.{bit_and-bitwise, bit_or-bitwise, bit_xor-bitwise}
use native.Mathlib.Nat.{pow-suc}
use event_sequence_transform.Prelude.{
  ℕ, zero, suc, ◌+◌, ◌-◌, ◌*◌, ◌/◌, ◌%◌, ◌^◌, ◌≤◌, ◌<◌, min, max, ◌≡◌, ◌≢◌, refl, sym, ◌∙◌, ap,
  arith,
}

-- Digit `i` of `x`.
unfoldable pub bit : ℕ → ℕ → ℕ
bit x zero = x % 2
bit x (suc i) = bit (x / 2) i

pub bit-lt : (x i : ℕ) → bit x i < 2
unfolding bit
bit-lt x zero = omega arith
bit-lt x (suc i) = bit-lt (x / 2) i

pub bit_of_zero : (i : ℕ) → bit 0 i ≡ 0
unfolding bit
bit_of_zero zero = refl
bit_of_zero (suc i) = bit_of_zero i

-- One digit of `^`: 0 if the digits are the same.
pub differ_lem : (a b : ℕ) → differ a b ≡ (a - b) + (b - a)
differ_lem zero b = omega arith
differ_lem (suc a) zero = omega arith
differ_lem (suc a) (suc b) = omega (arith, differ_lem a b)

-- A bitwise operation with the digits `f`, and `rest` for what the second number has beyond the first.
module _ (rest : ℕ → ℕ) (f : ℕ → ℕ → ℕ) where
  -- One round more than enough changes nothing.
  spare_round : (n a b : ℕ) → a ≤ n → digits rest f (suc n) a b ≡ digits rest f n a b
  spare_round zero zero b h = refl
  spare_round (suc n) zero b h = refl
  spare_round zero (suc a) b h = absurd (omega arith)
  spare_round (suc n) (suc a) b h =
      ap (λ d. d * 2 + f (suc a % 2) (b % 2)) (spare_round n (suc a / 2) (b / 2) (omega arith))

  spare_rounds : (k n m a b : ℕ) → m ≡ n + k → a ≤ n → digits rest f m a b ≡ digits rest f n a b
  spare_rounds zero n m a b e h =
      let same : m ≡ n = omega arith in ap (λ r. digits rest f r a b) same
  spare_rounds (suc k) n zero a b e h = absurd (omega arith)
  spare_rounds (suc k) n (suc m) a b e h =
      spare_round m a b (omega arith) ∙ spare_rounds k n m a b (omega arith) h

  lowest_digit :
      (op : ℕ → ℕ → ℕ)
      → ((a b : ℕ) → op a b ≡ bitwise rest f a b)
      → ((b : ℕ) → rest b ≡ rest (b / 2) * 2 + f 0 (b % 2))
      → (a b : ℕ) → op a b ≡ op (a / 2) (b / 2) * 2 + f (a % 2) (b % 2)
  lowest_digit op def past zero b =
      def 0 b ∙ past b ∙ ap (λ d. d * 2 + f 0 (b % 2)) (sym (def 0 (b / 2)))
  lowest_digit op def past (suc a) b =
      let half = suc a / 2 in
      let rounds = spare_rounds (a - half) half a half (b / 2) (omega arith) (omega arith) in
      def (suc a) b ∙ ap (λ d. d * 2 + f (suc a % 2) (b % 2)) (rounds ∙ sym (def half (b / 2)))

-- An operation that works digit by digit does so at each digit.
module _ (g f : ℕ → ℕ → ℕ) (step : (a b : ℕ) → g a b ≡ g (a / 2) (b / 2) * 2 + f (a % 2) (b % 2))
    (small : (a b : ℕ) → a < 2 → b < 2 → f a b < 2) where
  bit_digitwise : (i a b : ℕ) → bit (g a b) i ≡ f (bit a i) (bit b i)
  unfolding bit
  bit_digitwise zero a b =
      omega (arith, step a b, small (a % 2) (b % 2) (omega arith) (omega arith))
  bit_digitwise (suc i) a b =
      let half : g a b / 2 ≡ g (a / 2) (b / 2) =
        omega (arith, step a b, small (a % 2) (b % 2) (omega arith) (omega arith)) in
      rw half (bit_digitwise i (a / 2) (b / 2))

pub bit-bit_or : (i a b : ℕ) → bit (bit_or a b) i ≡ max (bit a i) (bit b i)
bit-bit_or =
    bit_digitwise bit_or max (lowest_digit (λ y. y) max bit_or bit_or-bitwise (λ b. omega arith))
      (λ a b p q. omega arith)

and_lowest : (a b : ℕ) → bit_and a b ≡ bit_and (a / 2) (b / 2) * 2 + min (a % 2) (b % 2)
and_lowest = lowest_digit (λ y. 0) min bit_and bit_and-bitwise (λ b. omega arith)

pub bit-bit_and : (i a b : ℕ) → bit (bit_and a b) i ≡ min (bit a i) (bit b i)
bit-bit_and = bit_digitwise bit_and min and_lowest (λ a b p q. omega arith)

pub bit-bit_xor : (i a b : ℕ) → bit (bit_xor a b) i ≡ differ (bit a i) (bit b i)
bit-bit_xor =
    bit_digitwise bit_xor differ
      (lowest_digit (λ y. y) differ bit_xor bit_xor-bitwise
        (λ b. omega (arith, differ_lem 0 (b % 2))))
      (λ a b p q. omega (arith, differ_lem a b))

-- `1 << k` has digit `k` alone.
pub bit-pow_self : (k : ℕ) → bit (2 ^ k) k ≡ 1
unfolding bit
bit-pow_self zero = refl
bit-pow_self (suc k) =
    let half : 2 ^ suc k / 2 ≡ 2 ^ k = omega (arith, pow-suc 2 k) in rw half (bit-pow_self k)

pub bit-pow_ne : (k i : ℕ) → k ≢ i → bit (2 ^ k) i ≡ 0
unfolding bit
bit-pow_ne zero zero h = absurd (h refl)
bit-pow_ne zero (suc i) h = bit_of_zero i
bit-pow_ne (suc k) zero h = omega (arith, pow-suc 2 k)
bit-pow_ne (suc k) (suc i) h =
    let half : 2 ^ suc k / 2 ≡ 2 ^ k = omega (arith, pow-suc 2 k) in
    rw half (bit-pow_ne k i (λ e. h (omega arith)))

-- `x & (1 << k)` is digit `k` in its place.
digits-min-zero : (n a : ℕ) → digits (λ b. 0) min n a 0 ≡ 0
digits-min-zero zero a = refl
digits-min-zero (suc n) zero = refl
digits-min-zero (suc n) (suc a) = omega (arith, digits-min-zero n (suc a / 2))

bit_and-zero : (a : ℕ) → bit_and a 0 ≡ 0
bit_and-zero a = simp bit_and-bitwise (digits-min-zero a a)

pub bit_and-pow : (k x : ℕ) → bit_and x (2 ^ k) ≡ bit x k * 2 ^ k
unfolding bit
bit_and-pow zero x = omega (arith, and_lowest x 1, bit_and-zero (x / 2))
bit_and-pow (suc k) x =
    let half : 2 ^ suc k / 2 ≡ 2 ^ k = omega (arith, pow-suc 2 k) in
    omega (
      arith,
      and_lowest x (2 ^ suc k),
      ap (bit_and (x / 2)) half,
      bit_and-pow k (x / 2),
      ap (λ (t : ℕ). bit (x / 2) k * t) (pow-suc 2 k),
      pow-suc 2 k,
    )

-- `~s` cut to `k` digits.
pub bit-complement : (k s i : ℕ) → s < 2 ^ k → i < k → bit (2 ^ k - 1 - s) i ≡ 1 - bit s i
unfolding bit
bit-complement zero s i p q = absurd (omega arith)
bit-complement (suc k) s zero p q = omega (arith, pow-suc 2 k)
bit-complement (suc k) s (suc i) p q =
    let half : (2 ^ suc k - 1 - s) / 2 ≡ 2 ^ k - 1 - s / 2 = omega (arith, pow-suc 2 k) in
    rw half (bit-complement k (s / 2) i (omega (arith, pow-suc 2 k)) (omega arith))

-- `x & 7` is the remainder by 8.
pub bit_and_seven : (x : ℕ) → bit_and x 7 ≡ x % 8
bit_and_seven x = omega (
  arith,
  and_lowest x 7,
  and_lowest (x / 2) 3,
  and_lowest (x / 2 / 2) 1,
  bit_and-zero (x / 2 / 2 / 2),
)
