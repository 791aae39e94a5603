-- ===== src/Processor/Samples.antt =====
-- A concrete book processor for the tests, over fixed-point numbers and ring buffers.
use market_data_processor.Prelude.{ℕ, refl, arith, some, List, [], ◌∷◌}
use market_data_processor.Prelude.Dict.{bytes_eq}
use market_data_processor.Double.Fixed.{Fixed, fixed_double, dec}
use market_data_processor.Channel.{Channel, IsFifo}
use market_data_processor.Ring.{Ring}
use market_data_processor.Ring.Invariant.{IsValid}
use market_data_processor.Ring.Refines.{ring_channel, ring_IsFifo}
use market_data_processor.Samples.{Tick, aapl, msft, tick_of, ring_of, IsPow-two}
use market_data_processor.Tick.{MarketSnapshot, blank_snapshot}
use market_data_processor.Book.{OrderBook}
use market_data_processor.Book.Invariant.{IsBook}
use market_data_processor.Processor.{BookProcessor}
use market_data_processor.Processor.Step.{AllBooks}

abbrev pub Snap : Type 0
Snap = MarketSnapshot Fixed

abbrev pub snaps : Channel Snap (Ring Snap)
snaps = ring_channel blank_snapshot 2

abbrev pub snaps_fifo : IsFifo snaps (IsValid 2)
snaps_fifo = ring_IsFifo blank_snapshot 2

abbrev pub empty_snaps : Ring Snap
empty_snaps = record { buffer = blank_snapshot ∷ blank_snapshot ∷ []; head = 0; tail = 0 }

pub empty_snaps-IsValid : IsValid 2 empty_snaps
empty_snaps-IsValid = record {
  pow = IsPow-two;
  stored = refl;
  head_lt = omega arith;
  tail_lt = omega arith;
  within = omega arith;
}

-- "AAPL"
abbrev pub key : List ℕ
key = 65 ∷ 65 ∷ 80 ∷ 76 ∷ []

-- A bid at 100, and an ask at 102 or none.
abbrev pub two_sided : OrderBook Fixed
two_sided = record {
  symbol = aapl;
  bids = (dec 100 0, 7) ∷ [];
  asks = (dec 102 0, 4) ∷ [];
  sequence = 2;
  updates_applied = 2;
  levels_removed = 0;
}

abbrev pub one_sided : OrderBook Fixed
one_sided = record two_sided { asks = [] }

pub two_sided-IsBook : IsBook two_sided
two_sided-IsBook = record {
  bids_sorted = (refl, tt, tt);
  asks_sorted = (refl, tt, tt);
  bids_filled = (omega arith, tt);
  asks_filled = (omega arith, tt);
  uncrossed = ((refl, tt), tt);
}

abbrev pub loaded : BookProcessor Fixed (Ring Tick) (Ring Snap) (Ring Snap)
loaded = record {
  input = ring_of (tick_of aapl 101 3 1000) (tick_of msft 50 2 1001);
  db_queue = some empty_snaps;
  signal_queue = some empty_snaps;
  books = (key, two_sided) ∷ [];
  reference_price = (key, dec 101 0) ∷ [];
  ticks_processed = 0;
  snapshots_dropped = 0;
}

pub loaded-AllBooks : AllBooks loaded
loaded-AllBooks = (two_sided-IsBook, tt)
