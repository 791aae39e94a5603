-- ===== src/Normalizer/Tests.antt =====
-- Runs of the normalizer on concrete ticks, and its theorems at them.
use market_data_processor.Prelude.{◌≡◌, refl, arith, true, false, some, List, [], ◌∷◌}
use market_data_processor.Prelude.Int.{pos}
use market_data_processor.Double.Fixed.{Fixed, fixed_double}
use market_data_processor.Ring.{Ring, try_push, try_pop}
use market_data_processor.Stage.{Turn, consume, released}
use market_data_processor.Stage.Rounds.{Round}
use market_data_processor.Samples.{
  Tick, aapl, msft, tick_of, ticks, ticks_fifo, empty_ring, ring_of, empty_ring-IsValid,
  ring_of-IsValid,
}
use market_data_processor.Normalizer.{
  Normalizer, fnv_1a, is_duplicate, is_reordered, update_state, process_tick, drain_tick,
  drain_input, run,
}
use market_data_processor.Normalizer.History.{Ordered}
use market_data_processor.Normalizer.State.{Represents}
use market_data_processor.Normalizer.Step.{IsValid, AfterSift, process_tick-AfterSift}
use market_data_processor.Normalizer.Run.{Sifted, run_sifts}

abbrev first : Tick
first = tick_of aapl 150 3 1000

-- An older tick of the same symbol, and the first tick once more with another volume.
abbrev older : Tick
older = tick_of aapl 151 3 999

abbrev again : Tick
again = tick_of aapl 150 4 1000

-- The state after `first`, with two more ticks in the input.
abbrev loaded : Normalizer Fixed (Ring Tick) (Ring Tick)
loaded = record {
  input = ring_of again older;
  output = empty_ring;
  last_timestamp = (aapl, pos 1000) ∷ [];
  last_tick = (aapl, first) ∷ [];
  ticks_forwarded = 1;
  ticks_deduplicated = 0;
  ticks_reordered = 0;
}

abbrev history : List Tick
history = first ∷ []

loaded-Represents : Represents history loaded
loaded-Represents = record { ticks_at = λ key. refl; times_at = λ key. ground arith }

loaded-Ordered : Ordered history []
loaded-Ordered = record { monotone = tt; covered = tt }

loaded-IsValid : IsValid ticks ticks ticks_fifo ticks_fifo history loaded
loaded-IsValid = record {
  input_valid = ring_of-IsValid again older;
  output_valid = empty_ring-IsValid;
  represents = loaded-Represents;
  orderly = (refl, tt);
  ordered = loaded-Ordered;
  forwarded_lt = omega arith;
  deduplicated_lt = omega arith;
  reordered_lt = omega arith;
}

-- The drain drops both ticks, each for its own reason.
drops :
    drain_input ticks ticks 3 (λ _. 0) loaded
    ≡ some (record loaded {
      input = record { buffer = again ∷ older ∷ []; head = 2; tail = 2 };
      ticks_deduplicated = 1;
      ticks_reordered = 1;
    })
unfolding drain_input drain_tick is_duplicate is_reordered update_state try_push try_pop consume
drops = refl

-- The published value of FNV-1a (64 bits) for the text "a".
hashes : fnv_1a 14695981039346656037 (97 ∷ []) ≡ 12638187200555641996
unfolding fnv_1a
hashes = refl

abbrev moves : List Turn
moves = record { stop = false; consumed = 1 } ∷ []

process_tick-AfterSift_example :
    AfterSift ticks ticks ticks_fifo ticks_fifo moves history loaded
      (process_tick ticks ticks moves loaded)
process_tick-AfterSift_example =
    process_tick-AfterSift ticks ticks ticks_fifo ticks_fifo moves history loaded loaded-IsValid

abbrev batch : List Tick
batch = first ∷ again ∷ older ∷ tick_of msft 10 1 5 ∷ []

abbrev two_rounds : List (Round Tick)
two_rounds =
    record { stop = false; arrivals = first ∷ []; turns = moves }
    ∷ record { stop = true; arrivals = []; turns = [] }
    ∷ []

run_sifts_example :
    Sifted ticks ticks ticks_fifo ticks_fifo (run ticks ticks 3 (λ _. 0) two_rounds loaded)
unfolding released
run_sifts_example =
    run_sifts ticks ticks ticks_fifo ticks_fifo 3 (λ _. 0) two_rounds history loaded (omega arith)
      (omega arith) (refl, refl) loaded-IsValid
