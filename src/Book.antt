-- ===== src/Book.antt =====
-- `OrderBook` (src/book/src/OrderBook.cpp, src/book/include/book/OrderBook.hpp) with the types of
-- src/book/include/book/BookTypes.hpp. The warnings on `std::cerr` are left out.
pub mod Invariant
pub mod Update
pub mod Views
mod Tests
use market_data_processor.Prelude.{
  ℕ, suc, ◌+◌, ◌-◌, Bool, true, false, ◌&&◌, ◌||◌, not, Option, none, some, List, [], ◌∷◌, ◌++◌,
  map, reverse, replicate, length, ltb, ◌==◌, if◌then◌else◌, head?, last?,
}
use market_data_processor.Double.{Double, zero_lit}
use market_data_processor.Ring.{add_word}
use market_data_processor.Levels.{Levels, set_level, erase_level}
use market_data_processor.Tick.{c_string, fill}

pub data OrderSide : Type 0 where
  bid ask : OrderSide

pub record PriceLevel (D : Type 0) : Type 0 where
  pub price : D
  pub volume : ℕ

pub record TopOfBook (D : Type 0) : Type 0 where
  pub symbol : List ℕ
  pub best_bid : D
  pub bid_volume : ℕ
  pub best_ask : D
  pub ask_volume : ℕ
  pub spread : D
  pub timestamp_ns : ℕ

-- A volume of 0 asks for the removal of the price level.
pub record BookDelta (D : Type 0) : Type 0 where
  pub symbol : List ℕ
  pub side : OrderSide
  pub price : D
  pub volume : ℕ
  pub timestamp_ns : ℕ

pub record BookSnapshot (D : Type 0) : Type 0 where
  pub symbol : List ℕ
  pub bids : List (PriceLevel D)
  pub asks : List (PriceLevel D)
  pub timestamp_ns : ℕ
  pub sequence : ℕ

pub record OrderBook (D : Type 0) : Type 0 where
  pub symbol : List ℕ
  pub bids : Levels D
  pub asks : Levels D
  pub sequence : ℕ
  pub updates_applied : ℕ
  pub levels_removed : ℕ

-- `strncpy(array, text, 7)` with a NUL after it, on an array of 8 bytes.
unfoldable pub copy_symbol : List ℕ → List ℕ
copy_symbol text = fill 7 (c_string text) ++ (0 ∷ [])

module _ {D : Type 0} ⦃d : Double D⦄ where
  -- The constructor.
  unfoldable pub new_book : List ℕ → OrderBook D
  new_book symbol = record {
    symbol = copy_symbol symbol;
    bids = [];
    asks = [];
    sequence = 0;
    updates_applied = 0;
    levels_removed = 0;
  }

  -- The guard of `apply`: a bid above the best ask, or an ask below the best bid.
  unfoldable pub crosses : OrderBook D → BookDelta D → Bool
  crosses b delta = elim delta.side [
    | bid ↦ elim (head? b.asks) [ none ↦ false | some (best, v) ↦ d.lt best delta.price ]
    | ask ↦ elim (last? b.bids) [ none ↦ false | some (best, v) ↦ d.lt delta.price best ]
  ]

  -- The first two assignments of `apply`: every call counts.
  abbrev pub counted : OrderBook D → OrderBook D
  counted b = record b {
    sequence = add_word b.sequence 1;
    updates_applied = add_word b.updates_applied 1;
  }

  unfoldable pub apply : BookDelta D → OrderBook D → OrderBook D
  unfolding crosses
  apply delta b0 =
      let b = counted b0 in
      if ltb 0 delta.volume && crosses b delta then b else elim delta.side [
        | bid ↦
            let (removed, left) = erase_level delta.price b.bids in
            if delta.volume == 0
            then record b { levels_removed = add_word b.levels_removed removed; bids = left }
            else record b { bids = set_level delta.price delta.volume b.bids }
        | ask ↦
            let (removed, left) = erase_level delta.price b.asks in
            if delta.volume == 0
            then record b { levels_removed = add_word b.levels_removed removed; asks = left }
            else record b { asks = set_level delta.price delta.volume b.asks }
      ]

  -- 0.0 stands for a side with no levels.
  unfoldable pub best_bid : OrderBook D → D
  best_bid b = elim (last? b.bids) [ none ↦ zero_lit | some (p, v) ↦ p ]

  unfoldable pub best_ask : OrderBook D → D
  best_ask b = elim (head? b.asks) [ none ↦ zero_lit | some (p, v) ↦ p ]

  -- `now` is what the steady clock reads, as an unsigned number of nanoseconds.
  unfoldable pub top_of_book : ℕ → OrderBook D → TopOfBook D
  unfolding best_bid best_ask
  top_of_book now b =
      let bid_price = best_bid b in
      let ask_price = best_ask b in
      record {
        symbol = c_string b.symbol;
        best_bid = bid_price;
        bid_volume = elim (last? b.bids) [ none ↦ 0 | some (p, v) ↦ v ];
        best_ask = ask_price;
        ask_volume = elim (head? b.asks) [ none ↦ 0 | some (p, v) ↦ v ];
        spread =
            if d.lt zero_lit bid_price && d.lt zero_lit ask_price
            then d.sub ask_price bid_price
            else zero_lit;
        timestamp_ns = now;
      }

  -- `TopOfBook::is_valid`
  unfoldable pub is_valid : TopOfBook D → Bool
  is_valid t = d.lt zero_lit t.best_bid && (d.lt zero_lit t.best_ask && d.lt t.best_bid t.best_ask)

  abbrev pub level : D × ℕ → PriceLevel D
  level (p, v) = record { price = p; volume = v }

  unfoldable pub snapshot : ℕ → OrderBook D → BookSnapshot D
  snapshot now b = record {
    symbol = copy_symbol b.symbol;
    bids = map level (reverse b.bids);
    asks = map level b.asks;
    timestamp_ns = now;
    sequence = b.sequence;
  }

  unfoldable pub bid_levels : OrderBook D → ℕ
  bid_levels b = length b.bids

  unfoldable pub ask_levels : OrderBook D → ℕ
  ask_levels b = length b.asks

  unfoldable pub clear : OrderBook D → OrderBook D
  clear b = record b { bids = []; asks = []; sequence = 0; updates_applied = 0; levels_removed = 0 }

  -- `symbol()`
  unfoldable pub book_symbol : OrderBook D → List ℕ
  book_symbol b = c_string b.symbol
