-- ===== src/Feed/Tests.antt =====
-- A concrete feed of two symbols, and the theorems at it.
use market_data_processor.Prelude.{
  ℕ, ◌*◌, ◌/◌, ◌^◌, ◌<◌, ◌≤◌, Bool, ◌||◌, ◌==◌, none, some, List, ◌≡◌, ◌↔◌, refl, arith, true,
  false, [], ◌∷◌, length, map,
}
use market_data_processor.Prelude.Int.{pos}
use market_data_processor.Double.Fixed.{Fixed, fixed_double, fixed_IsOrdered, dec}
use market_data_processor.Ring.{Ring, try_push}
use market_data_processor.Samples.{Tick, ticks, ticks_fifo, empty_ring, empty_ring-IsValid}
use market_data_processor.Tick.{fill, make}
use market_data_processor.Feed.{
  FeedConfig, Draws, FeedSimulator, btcusd, ethusd, default_config, is_valid, clamp, update_price,
  tick_of, initial_state, initial_states, new_feed, publish, symbol_loop, feed_round, FeedRound,
  guard_of, spin, rate_control, run,
}
use market_data_processor.Feed.Pace.{guard_of_lem}
use market_data_processor.Feed.Run.{keeps_pace, rounds_of, Fed, run_paced}
use market_data_processor.Feed.Simulator.{IsScaled}

abbrev two_symbols : FeedConfig Fixed
two_symbols = record {
  symbols = btcusd ∷ ethusd ∷ [];
  initial_prices = dec 60000 0 ∷ [];
  tick_rate_hz = 10;
  volatility = dec 1 3;
  buffer_size = 2;
}

-- The default configuration is valid, and one with a price too few is not.
validates : (is_valid (default_config {D = Fixed}) ≡ true) × (is_valid two_symbols ≡ false)
unfolding is_valid default_config
validates = (refl, refl)

abbrev feed : FeedSimulator Fixed (Ring Tick)
feed = record {
  output = empty_ring;
  symbol_states =
      record {
        symbol = btcusd;
        mid_price = dec 60000 0;
        spread = dec 5 0;
        bid_size = dec 1 0;
        ask_size = dec 1 0;
      }
      ∷ record {
        symbol = ethusd;
        mid_price = dec 100 0;
        spread = dec 2 2;
        bid_size = dec 100 0;
        ask_size = dec 100 0;
      }
      ∷ [];
  ticks_published = 0;
  ticks_dropped = 0;
}

starts : new_feed two_symbols empty_ring ≡ feed
unfolding new_feed initial_states initial_state
starts = refl

-- Draws that push every walk beyond a bound.
abbrev wild : ℕ → Draws Fixed
wild _ = record {
  mid_walk = dec 9999999 0;
  spread_noise = dec 100 0;
  bid_walk = dec 99999 0;
  ask_walk = dec 0 0;
}

walks :
    map (λ x. x.mid_price) (feed_round ticks wild pos feed).symbol_states
    ≡ dec 1000000 0 ∷ dec 10000 0 ∷ []
unfolding feed_round symbol_loop update_price clamp publish tick_of make fill try_push
walks = refl

scaled : IsScaled fixed_double
scaled = record { btc_mid = refl; mid = refl; btc_spread = refl; spread = refl; size = refl }

guard_of_lem_example :
    ((guard_of 100000 ≡ 50000) ↔ (500000 ≤ 100000))
    × ((guard_of 100000 ≡ 0) ↔ (100000 < 10000))
    × (10 * guard_of 100000 ≤ 100000)
guard_of_lem_example = guard_of_lem 100000

-- At 10 kHz the guard is 10 µs.
guards : guard_of 100000 ≡ 10000
unfolding guard_of
guards = refl

abbrev round_of : Bool → ℕ → FeedRound Fixed
round_of stop reading = record {
  stop = stop;
  consumed = 1;
  draws = wild;
  clock = pos;
  first = 0;
  readings = 5 ∷ reading ∷ [];
}

-- Two rounds, at the deadlines 10^8 and 2 · 10^8.
abbrev rounds : List (FeedRound Fixed)
rounds = round_of false 100000000 ∷ round_of false 200000003 ∷ round_of true 0 ∷ []

run_paced_example :
    let idle = two_symbols.tick_rate_hz == 0 || length two_symbols.symbols == 0 in
    let paced = keeps_pace (10 ^ 9 / two_symbols.tick_rate_hz) 0 rounds in
    (idle ≡ true → run ticks two_symbols 0 rounds feed ≡ some feed)
    × (idle ≡ false
        → paced ≡ true
        → (s' : FeedSimulator Fixed (Ring Tick)) × (run ticks two_symbols 0 rounds feed ≡ some s')
          × Fed ticks ticks_fifo (rounds_of rounds) feed s')
    × (idle ≡ false → paced ≡ false → run ticks two_symbols 0 rounds feed ≡ none)
run_paced_example =
    run_paced ticks ticks_fifo fixed_IsOrdered scaled two_symbols 0 rounds feed empty_ring-IsValid
      (omega arith) (omega arith)

keeps : keeps_pace {D = Fixed} 100000000 0 rounds ≡ true
keeps = refl

sleeps_before :
    rate_control 7 (5 ∷ 100000001 ∷ []) 0 100000000 ≡ some (some 99950000, 100000001, 100000000)
unfolding rate_control spin guard_of
sleeps_before = refl
