-- ===== src/Ring/Pow.antt =====
-- What the concept `PowerOfTwo` of RingBuffer.hpp admits. The same test guards `buffer_size` in
-- `FeedConfig::is_valid`.
use native.Mathlib.Nat.{pow-suc, one-le-pow, mod_self}
use native.Mathlib.Decide.{dec_lt}
use market_data_processor.Prelude.{
  ℕ, zero, suc, ◌-◌, ◌*◌, ◌/◌, ◌%◌, ◌^◌, ◌≤◌, ◌<◌, ◌≡◌, ◌↔◌, refl, arith, true, bit_and,
}
use market_data_processor.Prelude.Bits.{bit_and_split, bit_and-mask}
use market_data_processor.Ring.{power_of_two}

bit_and_self : (f a : ℕ) → a ≤ f → bit_and a a ≡ a
bit_and_self f zero h = refl
bit_and_self zero (suc a) h = absurd (omega arith)
bit_and_self (suc f) (suc a) h =
    omega (arith, bit_and_split (suc a) (suc a), bit_and_self f (suc a / 2) (omega arith))

-- An even number loses its lowest digit.
bit_and-pred_even : (m : ℕ) → 0 < m → bit_and (2 * m) (2 * m - 1) ≡ bit_and m (m - 1) * 2
bit_and-pred_even m h =
    let half : 2 * m / 2 ≡ m = omega arith in
    let below : (2 * m - 1) / 2 ≡ m - 1 = omega arith in
    rw (bit_and_split (2 * m) (2 * m - 1), half, below) (omega arith)

-- An odd number with no digit in common with its predecessor is 1.
odd-eq-one : (n : ℕ) → n % 2 ≡ 1 → bit_and n (n - 1) ≡ 0 → n ≡ 1
odd-eq-one n odd e =
    let same : (n - 1) / 2 ≡ n / 2 = omega arith in
    omega (arith, rw same at (bit_and_split n (n - 1)), bit_and_self (n / 2) (n / 2) (omega arith))

IsPow_of_and : (f n : ℕ) → n ≤ f → 0 < n → bit_and n (n - 1) ≡ 0 → (k : ℕ) × (n ≡ 2 ^ k)
IsPow_of_and zero n le pos e = absurd (omega arith)
IsPow_of_and (suc f) n le pos e = elim (dec_lt 0 (n % 2)) [
  | yes odd ↦ (0, odd-eq-one n (omega arith) e)
  | no even ↦
      let double : 2 * (n / 2) ≡ n = omega arith in
      let low : bit_and (n / 2) (n / 2 - 1) ≡ 0 =
        omega (arith, rw double at (bit_and-pred_even (n / 2) (omega arith))) in
      let (k, h) = IsPow_of_and f (n / 2) (omega arith) (omega arith) low in
      (suc k, omega (arith, pow-suc 2 k))
]

-- `power_of_two` accepts exactly the powers of two.
pub power_of_two_iff : (n : ℕ) → (power_of_two n ≡ true) ↔ ((k : ℕ) × (n ≡ 2 ^ k))
unfolding power_of_two
power_of_two_iff n = (
  λ h. IsPow_of_and n n (omega arith) (ground arith) (ground arith),
  λ (k, e). ground (arith, bit_and-mask k n, one-le-pow k 2, mod_self n),
)
