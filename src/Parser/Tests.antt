-- ===== src/Parser/Tests.antt =====
-- Runs of the parser on concrete ticks, and its theorems at them.
use market_data_processor.Prelude.{◌≡◌, ◌↔◌, refl, arith, true, false, some, List, [], ◌∷◌}
use market_data_processor.Double.Fixed.{fixed_double, fixed_IsOrdered, inf}
use market_data_processor.Ring.{Ring, try_push, try_pop}
use market_data_processor.Stage.{Turn, consume, released}
use market_data_processor.Stage.Rounds.{Round}
use market_data_processor.Samples.{
  Tick, aapl, msft, tick_of, ticks, ticks_fifo, empty_ring, ring_of, empty_ring-IsValid,
  ring_of-IsValid,
}
use market_data_processor.Tick.{blank_tick}
use market_data_processor.Parser.{
  Parser, validate, enrich, process_tick, drain_tick, drain_input, run,
}
use market_data_processor.Parser.Rules.{IsClean, validate_iff}
use market_data_processor.Parser.Step.{IsValid, AfterCall, process_tick-AfterCall}
use market_data_processor.Parser.Run.{Finished, run_total}

abbrev good : Tick
good = tick_of aapl 150 3 1000

-- Side 7 is brought down to 2.
abbrev odd_side : Tick
odd_side = record good { side = 7 }

abbrev free : Tick
free = tick_of msft 0 3 1001

abbrev loaded : Parser (Ring Tick) (Ring Tick)
loaded = record {
  input = ring_of odd_side free;
  output = empty_ring;
  ticks_processed = 0;
  ticks_rejected = 0;
}

loaded-IsValid : IsValid ticks ticks ticks_fifo ticks_fifo loaded
loaded-IsValid = record {
  input_valid = ring_of-IsValid odd_side free;
  output_valid = empty_ring-IsValid;
  processed_lt = omega arith;
  rejected_lt = omega arith;
}

validates :
    (validate (enrich good) ≡ true)
    × (validate free ≡ false)
    × (validate odd_side ≡ false)
    × (validate (record good { volume = inf }) ≡ true)
unfolding validate enrich
validates = (refl, refl, refl, refl)

drains :
    drain_input ticks ticks 3 (λ _. 0) loaded
    ≡ some (record {
      input = record { buffer = odd_side ∷ free ∷ []; head = 2; tail = 2 };
      output = record empty_ring { buffer = good ∷ blank_tick ∷ []; head = 1 };
      ticks_processed = 1;
      ticks_rejected = 1;
    })
unfolding drain_input drain_tick validate enrich try_push try_pop consume
drains = refl

validate_iff_example : (validate good ≡ true) ↔ IsClean good
validate_iff_example = validate_iff fixed_IsOrdered good

abbrev moves : List Turn
moves = record { stop = false; consumed = 1 } ∷ []

process_tick-AfterCall_example :
    AfterCall ticks ticks ticks_fifo ticks_fifo moves loaded (process_tick ticks ticks moves loaded)
process_tick-AfterCall_example =
    process_tick-AfterCall ticks ticks ticks_fifo ticks_fifo moves loaded loaded-IsValid

abbrev two_rounds : List (Round Tick)
two_rounds =
    record { stop = false; arrivals = good ∷ []; turns = moves }
    ∷ record { stop = true; arrivals = []; turns = [] }
    ∷ []

run_total_example :
    Finished ticks ticks ticks_fifo ticks_fifo fixed_IsOrdered
      (run ticks ticks 3 (λ _. 0) two_rounds loaded)
unfolding released
run_total_example =
    run_total ticks ticks ticks_fifo ticks_fifo fixed_IsOrdered 3 (λ _. 0) two_rounds loaded
      (omega arith) (omega arith) (refl, refl) loaded-IsValid tt
