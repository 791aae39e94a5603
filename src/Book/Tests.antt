-- ===== src/Book/Tests.antt =====
-- Updates of a concrete book, and the theorems of the book at them.
use market_data_processor.Prelude.{
  ℕ, ◌≡◌, refl, arith, true, false, ◌&&◌, not, none, some, [], ◌∷◌, All, length, ◌==◌,
  if◌then◌else◌,
}
use market_data_processor.Double.Fixed.{Fixed, fixed_double, fixed_IsOrdered, dec}
use market_data_processor.Levels.{same_key, set_level, erase_level}
use market_data_processor.Samples.{aapl}
use market_data_processor.Tick.{fill, c_string}
use market_data_processor.Book.{
  OrderSide, bid, ask, BookDelta, OrderBook, new_book, apply, crosses, top_of_book, best_bid,
  best_ask, is_valid, snapshot, bid_levels, ask_levels, copy_symbol,
}
use market_data_processor.Book.Invariant.{IsBook, apply-IsBook}
use market_data_processor.Book.Update.{rejected, same_side, volume_at, volume_at-apply}
use market_data_processor.Book.Views.{Ordered, is_valid-top_of_book, snapshot_lem, replay}

abbrev delta_of : OrderSide → ℕ → ℕ → BookDelta Fixed
delta_of side price volume = record {
  symbol = aapl;
  side = side;
  price = dec price 0;
  volume = volume;
  timestamp_ns = 1;
}

-- Bids at 99 and 100, an ask at 101.
abbrev sample : OrderBook Fixed
sample = record {
  symbol = aapl;
  bids = (dec 99 0, 5) ∷ (dec 100 0, 7) ∷ [];
  asks = (dec 101 0, 4) ∷ [];
  sequence = 3;
  updates_applied = 3;
  levels_removed = 0;
}

sample-IsBook : IsBook sample
sample-IsBook = record {
  bids_sorted = (refl, (refl, tt), (refl, tt, tt));
  asks_sorted = (refl, tt, tt);
  bids_filled = (omega arith, (omega arith, tt));
  asks_filled = (omega arith, tt);
  uncrossed = ((refl, tt), ((refl, tt), tt));
}

builds :
    replay (delta_of bid 100 7 ∷ delta_of ask 101 4 ∷ delta_of bid 99 5 ∷ []) (new_book aapl)
    ≡ sample
unfolding apply new_book copy_symbol fill c_string crosses set_level
builds = refl

-- A bid above the ask is counted, and changes nothing else.
rejects : apply (delta_of bid 102 1) sample ≡ record sample { sequence = 4; updates_applied = 4 }
unfolding apply crosses
rejects = refl

-- A bid at the ask locks the book, whose top is then not valid.
locks :
    (is_valid (top_of_book 0 sample) ≡ true)
    × (is_valid (top_of_book 0 (apply (delta_of bid 101 1) sample)) ≡ false)
    × (bid_levels (apply (delta_of bid 101 1) sample) ≡ 3)
unfolding apply crosses is_valid top_of_book best_bid best_ask set_level bid_levels
locks = (refl, refl, refl)

removes : (apply (delta_of bid 99 0) sample).levels_removed ≡ 1
unfolding apply crosses erase_level
removes = refl

apply-IsBook_example : IsBook (apply (delta_of ask 101 0) sample)
apply-IsBook_example = apply-IsBook fixed_IsOrdered (delta_of ask 101 0) sample refl sample-IsBook

volume_at-apply_example : volume_at bid (dec 100 0) (apply (delta_of bid 100 9) sample) ≡ (
    if not (rejected (delta_of bid 100 9) sample)
      && (same_side bid bid && same_key (dec 100 0) (dec 100 0))
    then (if 9 == 0 then none else some 9)
    else volume_at bid (dec 100 0) sample)
volume_at-apply_example =
    volume_at-apply fixed_IsOrdered bid (dec 100 0) (delta_of bid 100 9) sample refl refl
      sample-IsBook

is_valid-top_of_book_example :
    let t = top_of_book 8 sample in
    (fixed_double.lt t.best_ask t.best_bid ≡ false)
    × (is_valid t ≡ not (fixed_double.eq t.best_bid t.best_ask))
unfolding top_of_book best_bid best_ask
is_valid-top_of_book_example = is_valid-top_of_book fixed_IsOrdered 8 sample sample-IsBook refl refl

snapshot_lem_example :
    let s = snapshot 8 sample in
    Ordered (λ p q. fixed_double.lt q p ≡ true) s.bids
    × Ordered (λ p q. fixed_double.lt p q ≡ true) s.asks
    × (length s.bids ≡ bid_levels sample)
    × (length s.asks ≡ ask_levels sample)
    × All (λ l. volume_at bid l.price sample ≡ some l.volume) s.bids
    × All (λ l. volume_at ask l.price sample ≡ some l.volume) s.asks
snapshot_lem_example = snapshot_lem fixed_IsOrdered 8 sample sample-IsBook
