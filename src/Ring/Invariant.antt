-- ===== src/Ring/Invariant.antt =====
-- The representation invariant of a ring buffer: what every operation keeps.
use Prim.Native.Nat.add
use native.Mathlib.Nat.{
  dvd_refl, dvd-mul_right_of_dvd, pow-suc, pow-le-pow_right, one-le-pow, mod-mod_of_dvd,
}
use Prim.Native.Nat.{◌∣◌}
use market_data_processor.Prelude.{
  ℕ, zero, suc, ◌+◌, ◌-◌, ◌%◌, ◌^◌, ◌≤◌, ◌<◌, ◌≡◌, ap, arith, length, length-set, length-replicate,
}
use market_data_processor.Prelude.Bits.{bit_and-mask}
use market_data_processor.Ring.{Ring, word, slot, sub_word, init, try_push, try_pop}

-- A capacity that `PowerOfTwo` admits, in `size_t`.
abbrev pub IsPow : ℕ → Type 0
IsPow n = (k : ℕ) × (k < 64) × (n ≡ 2 ^ k)

pow-dvd : (k j : ℕ) → 2 ^ k ∣ 2 ^ (j + k)
pow-dvd k zero = rw add.zero (dvd_refl (2 ^ k))
pow-dvd k (suc j) = rw (add.suc, pow-suc) (dvd-mul_right_of_dvd (2 ^ k) (pow-dvd k j) 2)

-- What the proofs use of such a capacity.
pub record PowFacts (n : ℕ) : Type 0 where
  pub pos : 0 < n
  pub small : n ≤ 2 ^ 63
  pub wrap : (a : ℕ) → a % word % n ≡ a % n
  pub mask : (c : ℕ) → slot n c ≡ c % n

pub pow_facts : {n : ℕ} → IsPow n → PowFacts n
pow_facts {n} (k, lt, e) = record {
  pos = omega (arith, one-le-pow k 2);
  small = rw e (pow-le-pow_right {n = 2} (omega arith) {i = k} {j = 63} (omega arith));
  wrap = λ a. mod-mod_of_dvd n a (rw (e, ← whole) (pow-dvd k (64 - k)));
  mask = λ c. rw e (bit_and-mask k c);
}
  where
    whole : 2 ^ (64 - k + k) ≡ word
    whole = ap (λ t. 2 ^ t) {y = 64} (omega arith)

module _ {ℓ} {T : Type ℓ} where
  pub record IsValid (n : ℕ) (r : Ring T) : Type 0 where
    pub pow : IsPow n
    pub stored : length r.buffer ≡ n
    pub head_lt : r.head < word
    pub tail_lt : r.tail < word
    pub within : sub_word r.head r.tail ≤ n

  -- A new ring buffer over a power of two is valid.
  pub init-IsValid : (n : ℕ) (blank : T) → IsPow n → IsValid n (init n blank)
  unfolding init
  init-IsValid n blank p = record {
    pow = p;
    stored = length-replicate n blank;
    head_lt = omega arith;
    tail_lt = omega arith;
    within = omega arith;
  }

  -- A push keeps the ring valid, whether or not it succeeds.
  pub try_push-IsValid : (n : ℕ) (x : T) (r : Ring T) → IsValid n r → IsValid n (try_push n x r).1
  unfolding try_push
  try_push-IsValid n x r v =
      ground (arith, length-set r.buffer (slot n r.head) x, (pow_facts v.pow).small)

  -- A pop keeps the ring valid, whether or not it succeeds.
  pub try_pop-IsValid : (n : ℕ) (out : T) (r : Ring T) → IsValid n r → IsValid n (try_pop n out r).2
  unfolding try_pop
  try_pop-IsValid n out r v = ground (arith, (pow_facts v.pow).small)
