-- ===== src/Processor/Tests.antt =====
-- Runs of the book processor on concrete ticks, and its theorems at them.
use market_data_processor.Prelude.{◌≡◌, ◌<◌, refl, true, false, some}
use market_data_processor.Prelude.Dict.{bytes_eq}
use market_data_processor.Double.Fixed.{fixed_double, fixed_IsOrdered, dec}
use market_data_processor.Samples.{Tick, aapl, tick_of}
use market_data_processor.Book.{bid, ask, apply, counted, crosses, best_bid, best_ask}
use market_data_processor.Processor.{alpha, classify, tick_to_delta, would_cross}
use market_data_processor.Processor.Side.{IsBetween, classify-crosses, classify_one_sided, half_bid}
use market_data_processor.Processor.Samples.{two_sided, one_sided, two_sided-IsBook}

abbrev higher : Tick
higher = tick_of aapl 103 1 2000

-- At 103 the tick is an ask, although the reference of 200 alone would make it a bid that crosses.
resets : (classify (some two_sided) (dec 103 0) (dec 200 0)).0 ≡ ask
unfolding classify would_cross best_bid best_ask
resets = refl

-- 99 lies below the only bid; the reset leaves the tick an ask, and the book rejects it.
stuck :
    let delta =
      tick_to_delta (tick_of aapl 99 5 1) (classify (some one_sided) (dec 99 0) (dec 90 0)).0 in
    apply delta one_sided ≡ record one_sided { sequence = 3; updates_applied = 3 }
unfolding classify would_cross best_bid best_ask tick_to_delta apply crosses
stuck = refl

two_sided-IsBetween : IsBetween two_sided
unfolding best_bid best_ask
two_sided-IsBetween = record { number = refl; above_bid = refl; below_ask = refl }

classify-crosses_example :
    crosses two_sided (tick_to_delta higher (classify (some two_sided) (dec 103 0) (dec 200 0)).0)
    ≡ false
unfolding best_bid best_ask
classify-crosses_example =
    classify-crosses fixed_IsOrdered higher (dec 200 0) two_sided two_sided-IsBook
      two_sided-IsBetween refl refl refl

classify_one_sided_example :
    let t = tick_of aapl 99 5 1 in
    let (side, ref') = classify (some one_sided) t.price (dec 90 0) in
    let delta = tick_to_delta t side in
    (ref'
      ≡ fixed_double.add
          (fixed_double.mul alpha t.price)
          (fixed_double.mul (fixed_double.sub (fixed_double.lit 10 1) alpha) (half_bid one_sided)))
    × (fixed_double.lt t.price (half_bid one_sided) ≡ true
        → (side ≡ bid) × (crosses one_sided delta ≡ false))
    × (fixed_double.lt t.price (half_bid one_sided) ≡ false
        → (side ≡ ask)
          × (crosses one_sided delta ≡ true)
          × (0 < fixed_double.trunc_u64 t.volume → apply delta one_sided ≡ counted one_sided))
unfolding best_bid
classify_one_sided_example =
    classify_one_sided fixed_IsOrdered (tick_of aapl 99 5 1) (dec 90 0) one_sided refl refl refl
      refl
