-- ===== src/Tick.antt =====
-- `MarketTick` of src/core/include/core/MarketTick.hpp and `MarketSnapshot` of
-- src/core/include/core/MarketSnapshot.hpp. A `std::array<char, 8>` is the list of its bytes.
pub mod Laws
pub mod Layout
mod Tests
use market_data_processor.Prelude.{
  ℕ, zero, suc, Bool, true, false, ◌&&◌, List, [], ◌∷◌, ◌++◌, length, take, replicate, ◌==◌, ltb,
  ◌-◌, if◌then◌else◌,
}
use market_data_processor.Prelude.Int.{ℤ, pos, eqb_ℤ}
use market_data_processor.Prelude.Dict.{same_bytes}
use market_data_processor.Double.{Double, zero_lit}

pub record MarketTick (D : Type 0) : Type 0 where
  pub symbol : List ℕ
  pub price : D
  pub volume : D
  pub timestamp_ns : ℤ
  pub side : ℕ
  pub pad : List ℕ

pub record MarketSnapshot (D : Type 0) : Type 0 where
  pub symbol : List ℕ
  pub price : D
  pub volume : D
  pub timestamp_ns : ℤ
  pub sequence : ℤ

-- The bytes before the first NUL: `strnlen` over a whole array, and `std::find(symbol, '\0')`.
unfoldable pub c_string : List ℕ → List ℕ
c_string [] = []
c_string (b ∷ bs) = if b == 0 then [] else b ∷ c_string bs

-- The first `n` bytes, zero-filled.
unfoldable pub fill : ℕ → List ℕ → List ℕ
fill n bytes = take n bytes ++ replicate (n - length bytes) 0

-- `switch (side)` of `to_string`.
pub data SideName : Type 0 where
  bid ask trade : SideName

unfoldable pub side_name : ℕ → SideName
side_name zero = bid
side_name (suc zero) = ask
side_name _ = trade

module _ {D : Type 0} ⦃d : Double D⦄ where
  -- `MarketTick{}`
  abbrev pub blank_tick : MarketTick D
  blank_tick = record {
    symbol = replicate 8 0;
    price = zero_lit;
    volume = zero_lit;
    timestamp_ns = pos 0;
    side = 0;
    pad = replicate 7 0;
  }

  -- `now` is what the system clock reads, in nanoseconds.
  unfoldable pub make : List ℕ → D → D → ℕ → ℤ → MarketTick D
  unfolding fill
  make sym price volume side now = record {
    symbol = fill 8 sym;
    price = price;
    volume = volume;
    timestamp_ns = now;
    side = side;
    pad = replicate 7 0;
  }

  -- The defaulted `operator==` compares every member, the padding included.
  unfoldable pub same_tick : MarketTick D → MarketTick D → Bool
  same_tick a b =
      same_bytes a.symbol b.symbol
      && (d.eq a.price b.price
          && (d.eq a.volume b.volume
              && (eqb_ℤ a.timestamp_ns b.timestamp_ns
                  && (a.side == b.side && same_bytes a.pad b.pad))))

  -- `MarketSnapshot{}`
  abbrev pub blank_snapshot : MarketSnapshot D
  blank_snapshot = record {
    symbol = replicate 8 0;
    price = zero_lit;
    volume = zero_lit;
    timestamp_ns = pos 0;
    sequence = pos 0;
  }

  -- What `to_string` formats; the rendering of the numbers by `std::format` is left out.
  unfoldable pub shown : MarketTick D → List ℕ × D × D × ℤ × SideName
  unfolding c_string side_name
  shown t = (c_string t.symbol, t.price, t.volume, t.timestamp_ns, side_name t.side)
