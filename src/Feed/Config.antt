-- ===== src/Feed/Config.antt =====
-- Which configurations `FeedConfig::is_valid` accepts.
use market_data_processor.Prelude.{ℕ, ◌^◌, ◌<◌, ◌≡◌, ◌↔◌, arith, true, false, length}
use market_data_processor.Double.{Double, zero_lit, le}
use market_data_processor.Ring.{power_of_two}
use market_data_processor.Ring.Pow.{power_of_two_iff}
use market_data_processor.Feed.{FeedConfig, is_valid}

module _ {D : Type 0} ⦃d : Double D⦄ where
  -- A configuration is valid exactly if it has as many prices as symbols, a positive rate, a
  -- volatility that is not at most zero (a NaN passes), and a buffer size that is a power of two.
  pub is_valid_iff :
      (c : FeedConfig D)
      → (is_valid c ≡ true) ↔ (
          (length c.symbols ≡ length c.initial_prices)
          × (0 < c.tick_rate_hz)
          × (le c.volatility zero_lit ≡ false)
          × ((k : ℕ) × (c.buffer_size ≡ 2 ^ k)))
  unfolding is_valid power_of_two
  is_valid_iff c =
      let size = power_of_two_iff c.buffer_size in
      (
        λ h. (ground arith, ground arith, ground arith, size.0 (ground arith)),
        λ (same, rate, vol, pow). let p = size.1 pow in ground arith,
      )
