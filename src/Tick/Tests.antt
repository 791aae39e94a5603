-- ===== src/Tick/Tests.antt =====
-- Concrete ticks, and the theorems of the symbol field at them.
use market_data_processor.Prelude.{ℕ, ◌≡◌, refl, true, List, [], ◌∷◌, take}
use market_data_processor.Prelude.Int.{pos}
use market_data_processor.Double.Fixed.{Fixed, fixed_double, dec}
use market_data_processor.Tick.{
  MarketTick, make, fill, c_string, same_tick, shown, side_name, SideName,
}

-- "GOOGL.US.X", which does not fit.
abbrev long_name : List ℕ
long_name = 71 ∷ 79 ∷ 79 ∷ 71 ∷ 76 ∷ 46 ∷ 85 ∷ 83 ∷ 46 ∷ 88 ∷ []

abbrev tick : MarketTick Fixed
tick = make long_name (dec 1505 1) (dec 3 0) 1 (pos 9)

compares : same_tick tick tick ≡ true
unfolding same_tick make fill
compares = refl

shows : shown tick ≡ (take 8 long_name, dec 1505 1, dec 3 0, pos 9, SideName.ask)
unfolding shown c_string side_name make fill
shows = refl
