-- ===== src/Tick/Layout.antt =====
-- The 40 bytes of a `MarketTick` (src/core/include/core/MarketTick.hpp): which records are values of
-- the C++ type.
use market_data_processor.Prelude.{
  ℕ, zero, suc, ◌-◌, ◌^◌, ◌≤◌, ◌<◌, ◌≡◌, refl, arith, List, [], ◌∷◌, All, All-append, length, take,
  replicate,
}
use market_data_processor.Prelude.Int.{ℤ, pos_part, neg_part}
use market_data_processor.Double.{Double}
use market_data_processor.Tick.{MarketTick, make, fill}
use market_data_processor.Tick.Laws.{length-fill}

abbrev pub AreBytes : List ℕ → Type 0
AreBytes bytes = All (λ b. b < 256) bytes

-- A value of `int64_t`.
abbrev pub IsInt64 : ℤ → Type 0
IsInt64 z = (pos_part z < 2 ^ 63) × (neg_part z ≤ 2 ^ 63)

-- Every member is a value of its C++ type.
pub record HasLayout {D : Type 0} (t : MarketTick D) : Type 0 where
  pub symbol_length : length t.symbol ≡ 8
  pub symbol_bytes : AreBytes t.symbol
  pub time_range : IsInt64 t.timestamp_ns
  pub side_lt : t.side < 256
  pub pad_length : length t.pad ≡ 7
  pub pad_bytes : AreBytes t.pad

AreBytes-zeros : (n : ℕ) → AreBytes (replicate n 0)
AreBytes-zeros zero = tt
AreBytes-zeros (suc n) = (omega arith, AreBytes-zeros n)

AreBytes-take : (n : ℕ) (bytes : List ℕ) → AreBytes bytes → AreBytes (take n bytes)
AreBytes-take zero bytes h = tt
AreBytes-take (suc n) [] h = tt
AreBytes-take (suc n) (b ∷ bs) (h, hs) = (h, AreBytes-take n bs hs)

AreBytes-fill : (n : ℕ) (bytes : List ℕ) → AreBytes bytes → AreBytes (fill n bytes)
unfolding fill
AreBytes-fill n bytes h =
    All-append (λ b. b < 256) (take n bytes) (replicate (n - length bytes) 0)
      (AreBytes-take n bytes h) (AreBytes-zeros (n - length bytes))

-- What the feeds make of a symbol of any length.
pub make-HasLayout :
    {D : Type 0} ⦃d : Double D⦄ (sym : List ℕ) (price volume : D) (side : ℕ) (now : ℤ)
    → AreBytes sym
    → side < 256
    → IsInt64 now
    → HasLayout (make sym price volume side now)
unfolding make
make-HasLayout sym price volume side now bytes small range = record {
  symbol_length = length-fill 8 sym;
  symbol_bytes = AreBytes-fill 8 sym bytes;
  time_range = range;
  side_lt = small;
  pad_length = refl;
  pad_bytes = AreBytes-zeros 7;
}
