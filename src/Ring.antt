-- ===== src/Ring.antt =====
-- `RingBuffer<T, N>` of src/core/include/core/RingBuffer.hpp, one operation at a time.
-- The two index counters are `size_t` values: they grow without bound and wrap at 2^64.
pub mod Pow
pub mod Slots
pub mod Invariant
pub mod Refines
pub mod Spsc
mod Tests
use market_data_processor.Prelude.{
  ℕ, ◌+◌, ◌-◌, ◌%◌, ◌^◌, Bool, true, false, ◌&&◌, List, bit_and, ltb, ◌==◌, if◌then◌else◌, get_or,
  set, replicate,
}

-- `concept PowerOfTwo`
unfoldable pub power_of_two : ℕ → Bool
power_of_two n = ltb 0 n && (bit_and n (n - 1) == 0)

pub record Ring {ℓ} (T : Type ℓ) : Type ℓ where
  pub buffer : List T
  pub head : ℕ
  pub tail : ℕ

-- `size_t` addition and subtraction.
abbrev pub word : ℕ
word = 2 ^ 64

abbrev pub add_word : ℕ → ℕ → ℕ
add_word a b = (a + b) % word

abbrev pub sub_word : ℕ → ℕ → ℕ
sub_word a b = (a + word - b) % word

-- `counter & (N - 1)`
abbrev pub slot : ℕ → ℕ → ℕ
slot n counter = bit_and counter (n - 1)

module _ {ℓ} {T : Type ℓ} (n : ℕ) where
  -- The default constructor: `buffer_{}` is value-initialised, both counters are 0.
  unfoldable pub init : T → Ring T
  init blank = record { buffer = replicate n blank; head = 0; tail = 0 }

  unfoldable pub try_push : T → Ring T → Bool × Ring T
  try_push item r =
      if sub_word r.head r.tail == n
      then (false, r)
      else (true, record r { buffer = set r.buffer (slot n r.head) item; head = add_word r.head 1 })

  -- `out` is the value of the reference argument before the call; the second component after it.
  unfoldable pub try_pop : T → Ring T → Bool × T × Ring T
  try_pop out r =
      if r.head == r.tail
      then (false, out, r)
      else (true, get_or r.buffer (slot n r.tail) out, record r { tail = add_word r.tail 1 })

  unfoldable pub full : Ring T → Bool
  full r = sub_word r.head r.tail == n

-- `capacity()` is static.
unfoldable pub capacity : ℕ → ℕ
capacity n = n

module _ {ℓ} {T : Type ℓ} where
  unfoldable pub is_empty : Ring T → Bool
  is_empty r = r.head == r.tail

  unfoldable pub size : Ring T → ℕ
  size r = sub_word r.head r.tail
