-- ===== src/Feed.antt =====
-- `FeedConfig` (src/feed/include/feed/FeedConfig.hpp) and `FeedSimulator`
-- (src/feed/src/FeedSimulator.cpp, src/feed/include/feed/FeedSimulator.hpp). The random draws and the
-- clocks are parameters; the debug assertion is left out.
pub mod Config
pub mod Simulator
pub mod Pace
pub mod Run
mod Tests
use market_data_processor.Prelude.{
  ℕ, zero, suc, ◌+◌, ◌-◌, ◌*◌, ◌/◌, ◌^◌, ◌%◌, min, ltb, Bool, true, false, ◌&&◌, ◌||◌, not, Option,
  none, some, List, [], ◌∷◌, length, bit_and, ◌==◌, if◌then◌else◌,
}
use market_data_processor.Prelude.Int.{ℤ}
use market_data_processor.Prelude.Dict.{same_bytes}
use market_data_processor.Double.{Double, zero_lit, le}
use market_data_processor.Channel.{Channel}
use market_data_processor.Ring.{add_word}
use market_data_processor.Stage.{consume}
use market_data_processor.Tick.{MarketTick, blank_tick, make}

pub record FeedConfig (D : Type 0) : Type 0 where
  pub symbols : List (List ℕ)
  pub initial_prices : List D
  pub tick_rate_hz : ℕ
  pub volatility : D
  pub buffer_size : ℕ

-- "BTCUSD", "ETHUSD", "SOLUSD"
abbrev pub btcusd : List ℕ
btcusd = 66 ∷ 84 ∷ 67 ∷ 85 ∷ 83 ∷ 68 ∷ []

abbrev pub ethusd : List ℕ
ethusd = 69 ∷ 84 ∷ 72 ∷ 85 ∷ 83 ∷ 68 ∷ []

abbrev pub solusd : List ℕ
solusd = 83 ∷ 79 ∷ 76 ∷ 85 ∷ 83 ∷ 68 ∷ []

-- `SymbolState`
pub record SymbolState (D : Type 0) : Type 0 where
  pub symbol : List ℕ
  pub mid_price : D
  pub spread : D
  pub bid_size : D
  pub ask_size : D

-- The four draws of one call of `update_price`.
pub record Draws (D : Type 0) : Type 0 where
  pub mid_walk : D
  pub spread_noise : D
  pub bid_walk : D
  pub ask_walk : D

-- The object without its configuration: the symbols' states, the output and the counters.
pub record FeedSimulator (D Out : Type 0) : Type 0 where
  pub output : Out
  pub symbol_states : List (SymbolState D)
  pub ticks_published : ℕ
  pub ticks_dropped : ℕ

module _ {D : Type 0} ⦃d : Double D⦄ where
  unfoldable pub default_config : FeedConfig D
  default_config = record {
    symbols = btcusd ∷ ethusd ∷ solusd ∷ [];
    initial_prices = d.lit 60000 0 ∷ d.lit 3000 0 ∷ d.lit 150 0 ∷ [];
    tick_rate_hz = 10000;
    volatility = d.lit 1 3;
    buffer_size = 1048576;
  }

  unfoldable pub is_valid : FeedConfig D → Bool
  is_valid c =
      if not (length c.symbols == length c.initial_prices)
      then false
      else if c.tick_rate_hz == 0
      then false
      else if le c.volatility zero_lit
      then false
      else if c.buffer_size == 0 || not (bit_and c.buffer_size (c.buffer_size - 1) == 0)
      then false
      else true

  -- `std::clamp`
  unfoldable pub clamp : D → D → D → D
  clamp v low high = if d.lt v low then low else if d.lt high v then high else v

  -- The bounds and targets of a symbol: those of BTCUSD differ.
  abbrev pub choose : List ℕ → D → D → D
  choose symbol btc other = if same_bytes symbol btcusd then btc else other

  unfoldable pub update_price : Draws D → SymbolState D → SymbolState D
  unfolding clamp
  update_price w s =
      let upper = choose s.symbol (d.lit 10000000 1) (d.lit 100000 1) in
      let target = choose s.symbol (d.lit 50 1) (d.lit 1 2) in
      let s_min = choose s.symbol (d.lit 5 1) (d.lit 1 3) in
      let s_max = choose s.symbol (d.lit 500 1) (d.lit 5 2) in
      let pull = d.add (d.mul (d.lit 1 1) (d.sub target s.spread)) w.spread_noise in
      record s {
        mid_price = clamp (d.add s.mid_price w.mid_walk) (d.lit 100 1) upper;
        spread = clamp (d.add s.spread pull) s_min s_max;
        bid_size = clamp (d.add s.bid_size w.bid_walk) (d.lit 10 1) (d.lit 100000 1);
        ask_size = clamp (d.add s.ask_size w.ask_walk) (d.lit 10 1) (d.lit 100000 1);
      }

  -- The rest of `generate_tick`: the sides alternate with the number of published ticks.
  unfoldable pub tick_of : ℕ → ℤ → SymbolState D → MarketTick D
  unfolding make
  tick_of published now s =
      let half = d.div s.spread (d.lit 20 1) in
      if published % 2 == 0
      then make s.symbol (d.sub s.mid_price half) s.bid_size 0 now
      else make s.symbol (d.add s.mid_price half) s.ask_size 1 now

  -- The state of a symbol in the constructor.
  unfoldable pub initial_state : List ℕ → D → SymbolState D
  initial_state symbol price = record {
    symbol = symbol;
    mid_price = price;
    spread = choose symbol (d.lit 50 1) (d.lit 2 2);
    bid_size = choose symbol (d.lit 10 1) (d.lit 1000 1);
    ask_size = choose symbol (d.lit 10 1) (d.lit 1000 1);
  }

  -- A symbol without a price starts at 100.
  unfoldable pub initial_states : List (List ℕ) → List D → List (SymbolState D)
  unfolding initial_state
  initial_states [] prices = []
  initial_states (s ∷ ss) [] = initial_state s (d.lit 1000 1) ∷ initial_states ss []
  initial_states (s ∷ ss) (p ∷ ps) = initial_state s p ∷ initial_states ss ps

  unfoldable pub new_feed : {Out : Type 0} → FeedConfig D → Out → FeedSimulator D Out
  unfolding initial_states
  new_feed c out = record {
    output = out;
    symbol_states = initial_states c.symbols c.initial_prices;
    ticks_published = 0;
    ticks_dropped = 0;
  }

  module _ {Out : Type 0} (output : Channel (MarketTick D) Out) where
    -- One tick: the push, and the counter that it moves.
    unfoldable pub publish : MarketTick D → FeedSimulator D Out → FeedSimulator D Out
    publish t s =
        let (pushed, out) = output.try_push t s.output in
        if pushed
        then record s { output = out; ticks_published = add_word s.ticks_published 1 }
        else record s { output = out; ticks_dropped = add_word s.ticks_dropped 1 }

    -- The loop over the symbols from the one with the index `i`, whose states are given; the new
    -- states of these symbols come first in the result.
    unfoldable pub symbol_loop :
        (ℕ → Draws D)
        → (ℕ → ℤ)
        → ℕ
        → List (SymbolState D)
        → FeedSimulator D Out
        → List (SymbolState D) × FeedSimulator D Out
    unfolding update_price tick_of publish
    symbol_loop draws clock i [] s = ([], s)
    symbol_loop draws clock i (x ∷ xs) s =
        let x' = update_price (draws i) x in
        let s1 = publish (tick_of s.ticks_published (clock i) x') s in
        let (xs', s2) = symbol_loop draws clock (suc i) xs s1 in (x' ∷ xs', s2)

    -- One round of the loop of `run`.
    unfoldable pub feed_round : (ℕ → Draws D) → (ℕ → ℤ) → FeedSimulator D Out → FeedSimulator D Out
    unfolding symbol_loop
    feed_round draws clock s =
        let (states, s1) = symbol_loop draws clock 0 s.symbol_states s in
        record s1 { symbol_states = states }

-- The nanoseconds before a deadline that `rate_control` does not sleep: at most 50 µs, and a tenth of
-- the interval in whole microseconds.
unfoldable pub guard_of : ℕ → ℕ
guard_of interval = 1000 * min 50 (interval / 1000 / 10)

-- The loop that yields up to the deadline: the clock's reading that ends it. `none` is a loop that
-- still waits when the given readings are over.
unfoldable pub spin : ℕ → List ℕ → Option ℕ
spin deadline [] = none
spin deadline (now ∷ later) =
    let rest = spin deadline later in if ltb now deadline then rest else some now

-- `rate_control`, in nanoseconds of the clock: how far it sleeps, if it does, and the reading at which
-- it ends, with the new deadline. `first` is the reading that decides about the sleep.
unfoldable pub rate_control : ℕ → List ℕ → ℕ → ℕ → Option (Option ℕ × ℕ × ℕ)
unfolding spin
rate_control first readings next_tick interval =
    let deadline = next_tick + interval in
    let target = deadline - guard_of interval in
    elim (spin deadline readings) [
      | none ↦ none
      | some now ↦ some (if ltb first target then some target else none, now, deadline)
    ]

-- What happens around one round of the loop of `run`: whether a stop has been requested, how many
-- ticks the consumer of the output takes, the draws and the clocks of its ticks, and the readings of
-- the clock in `rate_control`.
pub record FeedRound (D : Type 0) : Type 0 where
  pub stop : Bool
  pub consumed : ℕ
  pub draws : ℕ → Draws D
  pub clock : ℕ → ℤ
  pub first : ℕ
  pub readings : List ℕ

module _ {D : Type 0} ⦃d : Double D⦄ {Out : Type 0} (output : Channel (MarketTick D) Out) where
  -- The loop of `run`; `none` is a thread that is still in it when the given rounds are over.
  unfoldable pub run_loop :
      ℕ → List (FeedRound D) → ℕ → FeedSimulator D Out → Option (FeedSimulator D Out)
  unfolding feed_round rate_control
  run_loop interval [] next_tick s = none
  run_loop interval (r ∷ rs) next_tick s =
      let s0 = record s { output = consume output blank_tick r.consumed s.output } in
      let s1 = feed_round output r.draws r.clock s0 in
      let paced : Option (FeedSimulator D Out) =
        elim (rate_control r.first r.readings next_tick interval) [
          | none ↦ none
          | some (slept, now, deadline) ↦ run_loop interval rs deadline s1
        ] in
      if r.stop then some s else paced

  -- `start` is the reading of the clock before the loop.
  unfoldable pub run :
      FeedConfig D → ℕ → List (FeedRound D) → FeedSimulator D Out → Option (FeedSimulator D Out)
  unfolding run_loop
  run c start rs s =
      if c.tick_rate_hz == 0 || length c.symbols == 0
      then some s
      else run_loop (10 ^ 9 / c.tick_rate_hz) rs start s
