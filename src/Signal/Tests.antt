-- ===== src/Signal/Tests.antt =====
-- Runs of the signal engine on concrete snapshots, and its theorems at them.
use market_data_processor.Prelude.{ℕ, ◌≡◌, refl, arith, true, false, none, some, List, [], ◌∷◌}
use market_data_processor.Prelude.Int.{pos, negsuc}
use market_data_processor.Prelude.Dict.{bytes_eq}
use market_data_processor.Double.Fixed.{Fixed, fixed_double, dec}
use market_data_processor.Channel.{Channel, IsFifo}
use market_data_processor.Ring.{Ring, try_push, try_pop}
use market_data_processor.Ring.Invariant.{IsValid}
use market_data_processor.Ring.Refines.{ring_channel, ring_IsFifo}
use market_data_processor.Stage.{Turn, consume, released}
use market_data_processor.Stage.Rounds.{Round}
use market_data_processor.Tick.{MarketSnapshot, blank_snapshot, c_string}
use market_data_processor.Samples.{aapl, IsPow-two}
use market_data_processor.Signal.{
  Signal, SignalEngine, buy, blank_signal, new_engine, checked_period, alpha_of, decide, next_ema,
  update_ema, signal_of, push_first, sent, engine_step, run,
}
use market_data_processor.Signal.Run.{arrived, Averaged, run_averages}
use market_data_processor.Signal.Engine.{QueuesValid, AfterRound, engine_step-AfterRound}

abbrev Snap : Type 0
Snap = MarketSnapshot Fixed

abbrev Sig : Type 0
Sig = Signal Fixed

abbrev snap_of : ℕ → Snap
snap_of price = record {
  symbol = aapl;
  price = dec price 0;
  volume = dec 1 0;
  timestamp_ns = pos 5;
  sequence = pos 1;
}

abbrev snaps : Channel Snap (Ring Snap)
snaps = ring_channel blank_snapshot 2

abbrev snaps_fifo : IsFifo snaps (IsValid 2)
snaps_fifo = ring_IsFifo blank_snapshot 2

abbrev signals : Channel Sig (Ring Sig)
signals = ring_channel blank_signal 2

abbrev signals_fifo : IsFifo signals (IsValid 2)
signals_fifo = ring_IsFifo blank_signal 2

abbrev in_ring : Ring Snap
in_ring = record { buffer = snap_of 100 ∷ snap_of 110 ∷ []; head = 2; tail = 0 }

abbrev out_ring : Ring Sig
out_ring = record { buffer = blank_signal ∷ blank_signal ∷ []; head = 0; tail = 0 }

-- A period of 3 makes a factor of one half.
abbrev engine : SignalEngine Fixed (Ring Snap) (Ring Sig)
engine = record {
  in_queue = in_ring;
  out_queue = out_ring;
  period = 3;
  alpha = dec 5 1;
  ema_map = [];
}

starts : new_engine in_ring out_ring (pos 3) ≡ engine
unfolding new_engine checked_period alpha_of
starts = refl

-- A period that is not positive becomes 20.
defaults : (checked_period (negsuc 4) ≡ 20) × (checked_period (pos 0) ≡ 20)
unfolding checked_period
defaults = (refl, refl)

abbrev now : List Turn
now = record { stop = false; consumed = 0 } ∷ []

-- The first snapshot is a signal to hold, the second, above the average of 105, to buy.
decides :
    (elim (engine_step snaps signals now engine) [
      | none ↦ []
      | some s ↦ elim (engine_step snaps signals now s) [
        | none ↦ []
        | some s' ↦ signals.contents s'.out_queue
      ]
    ])
    ≡ record (blank_signal {D = Fixed}) {
      symbol = aapl;
      price = dec 100 0;
      ema_value = dec 100 0;
      timestamp_ns = pos 5;
    }
      ∷ record {
        symbol = aapl;
        price = dec 110 0;
        ema_value = dec 105 0;
        timestamp_ns = pos 5;
        kind = buy;
      }
      ∷ []
unfolding engine_step update_ema next_ema signal_of decide push_first consume sent try_push try_pop
    c_string
decides = refl

engine-QueuesValid : QueuesValid snaps signals snaps_fifo signals_fifo engine
engine-QueuesValid = record {
  in_valid = record {
    pow = IsPow-two;
    stored = refl;
    head_lt = omega arith;
    tail_lt = omega arith;
    within = omega arith;
  };
  out_valid = record {
    pow = IsPow-two;
    stored = refl;
    head_lt = omega arith;
    tail_lt = omega arith;
    within = omega arith;
  };
}

engine_step-AfterRound_example :
    AfterRound snaps signals snaps_fifo signals_fifo now engine
      (engine_step snaps signals now engine)
engine_step-AfterRound_example =
    engine_step-AfterRound snaps signals snaps_fifo signals_fifo now engine engine-QueuesValid

abbrev two_rounds : List (Round Snap)
two_rounds =
    record {
      stop = false;
      arrivals = snap_of 90 ∷ [];
      turns = record { stop = true; consumed = 0 } ∷ [];
    }
    ∷ record { stop = true; arrivals = []; turns = [] }
    ∷ []

run_averages_example :
    (s' : SignalEngine Fixed (Ring Snap) (Ring Sig)) × (run snaps signals two_rounds engine
      ≡ some s')
    × Averaged snaps signals snaps_fifo signals_fifo (arrived two_rounds) engine s'
unfolding released
run_averages_example =
    run_averages snaps signals snaps_fifo signals_fifo two_rounds engine (omega arith) (refl, refl)
      engine-QueuesValid
