-- ===== src/Prelude/Bits.antt =====
-- `&` with a mask of low bits, at every width.
use Prim.Native.Nat.{
  ℕ, zero, suc, ◌+◌, ◌-◌, ◌*◌, ◌/◌, ◌%◌, ◌^◌, ◌≤◌, ◌<◌, min, bit_and, digits, bit_and-bitwise,
}
use mathlib.Core.Path.{◌≡◌, refl, ap, ◌∙◌}
use native.Mathlib.Nat.{pow-suc, one-le-pow, div-add-mod}
use native.Mathlib.Omega.{arith}

-- The digits that two numbers have in common, on a count of digits to go.
abbrev common : ℕ → ℕ → ℕ → ℕ
common n x y = digits (λ _. 0) min n x y

-- A count that is enough may be one larger.
common-suc : (n x y : ℕ) → x ≤ n → common (suc n) x y ≡ common n x y
common-suc zero zero y enough = refl
common-suc (suc n) zero y enough = refl
common-suc zero (suc x) y enough = absurd (omega arith)
common-suc (suc n) (suc x) y enough = omega (arith, common-suc n (suc x / 2) (y / 2) (omega arith))

common-add : (k n x y : ℕ) → x ≤ n → common (k + n) x y ≡ common n x y
common-add zero n x y enough = ap (λ c. common c x y) {x = 0 + n} (omega arith)
common-add (suc k) n x y enough =
    ap (λ c. common c x y) {x = suc k + n} {y = suc (k + n)} (omega arith)
    ∙ common-suc (k + n) x y (omega arith)
    ∙ common-add k n x y enough

common-zero : (n x : ℕ) → common n x 0 ≡ 0
common-zero zero x = refl
common-zero (suc n) zero = refl
common-zero (suc n) (suc x) = omega (arith, common-zero n (suc x / 2))

bit_and-zero : (x : ℕ) → bit_and x 0 ≡ 0
bit_and-zero x = bit_and-bitwise x 0 ∙ common-zero x x

-- The lowest digit apart from the others.
pub bit_and_split : (x y : ℕ) → bit_and x y ≡ min (x % 2) (y % 2) + 2 * bit_and (x / 2) (y / 2)
bit_and_split zero y = omega (arith, bit_and-bitwise 0 y, bit_and-bitwise 0 (y / 2))
bit_and_split (suc x) y =
    let half = suc x / 2 in
    let more : common x half (y / 2) ≡ common half half (y / 2) =
      ap (λ c. common c half (y / 2)) {y = x - half + half} (omega arith)
      ∙ common-add (x - half) half half (y / 2) (omega arith) in
    omega (arith, bit_and-bitwise (suc x) y, bit_and-bitwise half (y / 2), more)

-- The lowest digit of a remainder by an even number.
mod-double : (a p : ℕ) → 0 < p → a % (2 * p) ≡ a / 2 % p * 2 + a % 2
mod-double a p h = grind (arith, ap (λ (t : ℕ). 2 * t) (div-add-mod (a / 2) p))

pub bit_and-mask : (k a : ℕ) → bit_and a (2 ^ k - 1) ≡ a % 2 ^ k
bit_and-mask zero a = omega (arith, bit_and-zero a)
bit_and-mask (suc k) a = ground (
  arith,
  bit_and_split a (2 ^ suc k - 1),
  pow-suc 2 k,
  one-le-pow k 2,
  bit_and-mask k (a / 2),
  mod-double a (2 ^ k),
)
