-- ===== src/Samples.antt =====
-- Concrete ticks and ring buffers for the tests, over fixed-point numbers.
use market_data_processor.Prelude.{ℕ, refl, arith, List, [], ◌∷◌, replicate}
use market_data_processor.Prelude.Int.{pos}
use market_data_processor.Double.Fixed.{Fixed, fixed_double, dec}
use market_data_processor.Channel.{Channel, IsFifo}
use market_data_processor.Ring.{Ring}
use market_data_processor.Ring.Invariant.{IsPow, IsValid}
use market_data_processor.Ring.Refines.{ring_channel, ring_IsFifo}
use market_data_processor.Tick.{MarketTick, blank_tick}

abbrev pub Tick : Type 0
Tick = MarketTick Fixed

-- "AAPL" and "MSFT" in 8 bytes
abbrev pub aapl : List ℕ
aapl = 65 ∷ 65 ∷ 80 ∷ 76 ∷ 0 ∷ 0 ∷ 0 ∷ 0 ∷ []

abbrev pub msft : List ℕ
msft = 77 ∷ 83 ∷ 70 ∷ 84 ∷ 0 ∷ 0 ∷ 0 ∷ 0 ∷ []

-- A tick at `price` and `volume`, both whole, at time `t`.
abbrev pub tick_of : List ℕ → ℕ → ℕ → ℕ → Tick
tick_of symbol price volume t = record {
  symbol = symbol;
  price = dec price 0;
  volume = dec volume 0;
  timestamp_ns = pos t;
  side = 2;
  pad = replicate 7 0;
}

-- Buffers of two ticks.
abbrev pub ticks : Channel Tick (Ring Tick)
ticks = ring_channel blank_tick 2

abbrev pub ticks_fifo : IsFifo ticks (IsValid 2)
ticks_fifo = ring_IsFifo blank_tick 2

abbrev pub empty_ring : Ring Tick
empty_ring = record { buffer = blank_tick ∷ blank_tick ∷ []; head = 0; tail = 0 }

abbrev pub ring_of : Tick → Tick → Ring Tick
ring_of a b = record { buffer = a ∷ b ∷ []; head = 2; tail = 0 }

pub IsPow-two : IsPow 2
IsPow-two = (1, omega arith, refl)

pub empty_ring-IsValid : IsValid 2 empty_ring
empty_ring-IsValid = record {
  pow = IsPow-two;
  stored = refl;
  head_lt = omega arith;
  tail_lt = omega arith;
  within = omega arith;
}

pub ring_of-IsValid : (a b : Tick) → IsValid 2 (ring_of a b)
ring_of-IsValid a b = record {
  pow = IsPow-two;
  stored = refl;
  head_lt = omega arith;
  tail_lt = omega arith;
  within = omega arith;
}
