-- ===== src/Writer/Tests.antt =====
-- Runs of the writer on concrete signals and snapshots, and its theorems at them.
use market_data_processor.Prelude.{ℕ, ◌≡◌, refl, arith, true, false, some, List, [], ◌∷◌, ◌++◌, map}
use market_data_processor.Prelude.Int.{pos}
use market_data_processor.Double.Fixed.{Fixed, fixed_double, dec}
use market_data_processor.Channel.{Channel, IsFifo}
use market_data_processor.Ring.{Ring, try_push, try_pop}
use market_data_processor.Ring.Invariant.{IsValid}
use market_data_processor.Ring.Refines.{ring_channel, ring_IsFifo}
use market_data_processor.Stage.Rounds.{arrive}
use market_data_processor.Tick.{MarketSnapshot, blank_snapshot, c_string}
use market_data_processor.Samples.{aapl, IsPow-two}
use market_data_processor.Writer.{
  Writer, Beat, PriceParams, stopped, price_params, flush, queue_step, close, process_queue,
  Session, retry_wait, run,
}
use market_data_processor.Writer.Stores.{stream, came_of, process_queue_stores}
use market_data_processor.Writer.Run.{Kept, all_arrivals, run_keeps}

abbrev Snap : Type 0
Snap = MarketSnapshot Fixed

abbrev Params : Type 0
Params = PriceParams Fixed

abbrev snap_of : ℕ → Snap
snap_of price = record {
  symbol = aapl;
  price = dec price 0;
  volume = dec 1 0;
  timestamp_ns = pos 5;
  sequence = pos 1;
}

-- What is bound for it; 5 ns are no tenths of a millisecond.
abbrev bound : ℕ → Params
bound price = record {
  symbol = 65 ∷ 65 ∷ 80 ∷ 76 ∷ [];
  price = dec price 0;
  volume = pos 1;
  recorded_at = dec 0 0;
}

abbrev snaps : Channel Snap (Ring Snap)
snaps = ring_channel blank_snapshot 2

abbrev snaps_fifo : IsFifo snaps (IsValid 2)
snaps_fifo = ring_IsFifo blank_snapshot 2

abbrev loaded : Writer Snap Params (Ring Snap)
loaded = record {
  input = record { buffer = snap_of 1 ∷ snap_of 2 ∷ []; head = 2; tail = 0 };
  local_batch = [];
  committed = [];
}

loaded-IsValid : IsValid 2 loaded.input
loaded-IsValid = record {
  pow = IsPow-two;
  stored = refl;
  head_lt = omega arith;
  tail_lt = omega arith;
  within = omega arith;
}

-- One element is taken and flushed; the stop then leaves the other unread.
abbrev beats : List (Beat Snap)
beats =
    record { stop = false; arrivals = []; elapsed = 12; commits = true }
    ∷ record { stop = true; arrivals = []; elapsed = 0; commits = true }
    ∷ []

leaves_unread :
    process_queue snaps blank_snapshot price_params beats loaded
    ≡ stopped (record loaded {
      input = record { buffer = snap_of 1 ∷ snap_of 2 ∷ []; head = 2; tail = 1 };
      committed = bound 1 ∷ [];
    })
unfolding process_queue queue_step flush close arrive try_push try_pop price_params c_string
leaves_unread = refl

process_queue_stores_example :
    (s' : Writer Snap Params (Ring Snap)) × (process_queue snaps blank_snapshot price_params beats
        loaded
      ≡ stopped s')
    × (s'.local_batch ≡ [])
    × (stream snaps blank_snapshot price_params snaps_fifo s'
        ≡ stream snaps blank_snapshot price_params snaps_fifo loaded
          ++ map price_params (came_of 2 beats (snaps.contents loaded.input)))
process_queue_stores_example =
    process_queue_stores snaps blank_snapshot price_params snaps_fifo beats loaded loaded-IsValid
      (refl, (refl, tt)) refl

abbrev failing : List (Beat Snap)
failing = record { stop = false; arrivals = []; elapsed = 12; commits = false } ∷ []

-- The first connection fails to commit, the second attempt finds no database, the third stores.
abbrev sessions : List (Session Snap)
sessions =
    record { stop = false; connects = true; beats = failing ++ beats }
    ∷ record { stop = false; connects = false; beats = [] }
    ∷ record { stop = false; connects = true; beats = beats }
    ∷ record { stop = true; connects = true; beats = [] }
    ∷ []

loses_first :
    run snaps blank_snapshot price_params sessions loaded
    ≡ some (record loaded {
      input = record { buffer = snap_of 1 ∷ snap_of 2 ∷ []; head = 2; tail = 2 };
      committed = bound 2 ∷ [];
    })
unfolding run process_queue queue_step flush close arrive try_push try_pop price_params c_string
loses_first = refl

waits : retry_wait 50 (λ _. false) 0 ≡ 5000
unfolding retry_wait
waits = refl

run_keeps_example :
    (s' : Writer Snap Params (Ring Snap)) × (run snaps blank_snapshot price_params sessions loaded
      ≡ some s')
    × Kept snaps blank_snapshot price_params snaps_fifo 1 (all_arrivals sessions) loaded s'
run_keeps_example =
    run_keeps snaps blank_snapshot price_params snaps_fifo sessions loaded loaded-IsValid refl
