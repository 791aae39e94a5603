-- ===== src/Processor/RunTests.antt =====
-- Whole ticks and runs of the book processor, and its theorems at them.
use market_data_processor.Prelude.{
  ◌≡◌, refl, arith, true, false, ◌&&◌, not, List, [], ◌∷◌, ◌++◌, if◌then◌else◌,
}
use market_data_processor.Prelude.Dict.{bytes_eq}
use market_data_processor.Double.Fixed.{Fixed, fixed_double, fixed_IsOrdered, dec}
use market_data_processor.Ring.{Ring, add_word}
use market_data_processor.Stage.Rounds.{Round}
use market_data_processor.Samples.{Tick, aapl, msft, tick_of, ticks, ticks_fifo, ring_of-IsValid}
use market_data_processor.Tick.{c_string}
use market_data_processor.Book.{top_of_book}
use market_data_processor.Book.Invariant.{IsBook}
use market_data_processor.Processor.{
  BookProcessor, update_book, process_tick, run, open_book, top_changed,
}
use market_data_processor.Processor.Publish.{
  QueuesValid, queued, present, refuses, new_top, published, process_tick-publishes,
}
use market_data_processor.Processor.Run.{Finished, drain_total, run_books}
use market_data_processor.Processor.Run
use market_data_processor.Processor.Samples.{
  Snap, snaps, snaps_fifo, empty_snaps-IsValid, key, one_sided, loaded, loaded-AllBooks,
}

abbrev raise : Tick
raise = tick_of aapl 101 1 2000

loaded-QueuesValid : QueuesValid ticks snaps snaps snaps_fifo snaps_fifo loaded
loaded-QueuesValid = record { db_valid = empty_snaps-IsValid; signal_valid = empty_snaps-IsValid }

loaded-IsValid :
    Run.IsValid ticks snaps snaps ticks_fifo snaps_fifo snaps_fifo fixed_IsOrdered loaded
loaded-IsValid = record {
  input_valid = ring_of-IsValid (tick_of aapl 101 3 1000) (tick_of msft 50 2 1001);
  queues_valid = loaded-QueuesValid;
  books = loaded-AllBooks;
  priced = (refl, (refl, tt));
  processed_lt = omega arith;
}

process_tick-publishes_example :
    let s1 = update_book ticks snaps snaps raise loaded in
    let s' = process_tick ticks snaps snaps 7 8 raise loaded in
    let changed =
      top_changed
        (top_of_book 7 (open_book key loaded))
        (new_top ticks snaps snaps snaps_fifo snaps_fifo 8 raise loaded) in
    let snap = published ticks snaps snaps snaps_fifo snaps_fifo 8 raise loaded in
    QueuesValid ticks snaps snaps snaps_fifo snaps_fifo s'
    × (queued snaps s'.db_queue ≡ (
        if changed && (present snaps loaded.db_queue && not (refuses snaps loaded.db_queue))
        then queued snaps loaded.db_queue ++ (snap ∷ [])
        else queued snaps loaded.db_queue))
    × (queued snaps s'.signal_queue ≡ (
        if changed && (present snaps loaded.signal_queue && not (refuses snaps loaded.signal_queue))
        then queued snaps loaded.signal_queue ++ (snap ∷ [])
        else queued snaps loaded.signal_queue))
    × (s'.snapshots_dropped
        ≡ (if changed && refuses snaps loaded.db_queue then add_word 0 1 else 0))
    × (s'.books ≡ s1.books)
    × (s'.reference_price ≡ s1.reference_price)
    × (s'.ticks_processed ≡ s1.ticks_processed)
unfolding c_string
process_tick-publishes_example =
    process_tick-publishes ticks snaps snaps snaps_fifo snaps_fifo 7 8 raise loaded
      loaded-QueuesValid

abbrev two_rounds : List (Round Tick)
two_rounds =
    record { stop = false; arrivals = raise ∷ []; turns = [] }
    ∷ record { stop = true; arrivals = []; turns = [] }
    ∷ []

run_books_example :
    Finished ticks snaps snaps ticks_fifo snaps_fifo snaps_fifo fixed_IsOrdered
      (run ticks snaps snaps 3 (λ i. (i, i)) two_rounds loaded)
run_books_example =
    run_books ticks snaps snaps ticks_fifo snaps_fifo snaps_fifo fixed_IsOrdered 3 (λ i. (i, i))
      two_rounds loaded (omega arith) refl ((refl, tt), (tt, tt)) loaded-IsValid

abbrev starved : BookProcessor Fixed (Ring Tick) (Ring Snap) (Ring Snap)
starved = record loaded { books = (key, one_sided) ∷ []; reference_price = (key, dec 90 0) ∷ [] }

one_sided-IsBook : IsBook one_sided
one_sided-IsBook = record {
  bids_sorted = (refl, tt, tt);
  asks_sorted = tt;
  bids_filled = (omega arith, tt);
  asks_filled = tt;
  uncrossed = (tt, tt);
}

abbrev low : Tick
low = tick_of aapl 99 5 1
