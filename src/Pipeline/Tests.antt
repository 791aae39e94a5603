-- ===== src/Pipeline/Tests.antt =====
-- One tick on its way through a fresh pipeline, and the theorems at it.
mod Outcome
use market_data_processor.Prelude.{◌+◌, ◌≤◌, ◌≡◌, refl, arith, All, none, []}
use market_data_processor.Prelude.Int.{pos}
use market_data_processor.Prelude.Dict.{bytes_eq}
use market_data_processor.Double.Fixed.{Fixed, fixed_double}
use market_data_processor.Ring.{Ring, add_word, try_push, try_pop}
use market_data_processor.Parser.{validate, enrich, count_processed}
use market_data_processor.Normalizer.{is_duplicate, is_reordered, update_state}
use market_data_processor.Processor.{process_tick, update_book, push_db, push_signal, offer}
use market_data_processor.Processor.Samples.{Snap, snaps}
use market_data_processor.Samples.{
  Tick, aapl, tick_of, ticks, ticks_fifo, empty_ring, empty_ring-IsValid,
}
use market_data_processor.Tick.{c_string}
use market_data_processor.Levels.{set_level}
use market_data_processor.Metrics.{snapshot}
use market_data_processor.Pipeline.{
  idle, Pipeline, feed_push, parser_pop, parser_push, norm_pop, norm_push, book_pop, feed_pushes,
  feed_published, parser_pops, parser_pushes, parser_processed, norm_pops, norm_pushes,
  norm_forwarded, book_pops, book_processes, Steps, here, then_step,
}
use market_data_processor.Pipeline.Delivery.{
  IsNew, IsDrained, Steps-Delivered, Steps-Settled, booked_without_loss,
}
use market_data_processor.Pipeline.Layout.{Steps-IsEnriched}
use market_data_processor.Parser.Layout.{IsEnriched}
use market_data_processor.Tick.Layout.{HasLayout}
use market_data_processor.Pipeline.Outcome.{Delivered, Settled}
use market_data_processor.Pipeline.Log.{log_of}
use market_data_processor.Normalizer.History.{fresh_of}
use market_data_processor.Parser.Drain.{accepted_of}
use market_data_processor.Pipeline.Accounts.{Agrees, IsFresh, Steps-Agrees}

abbrev Line : Type 0
Line = Pipeline Fixed (Ring Tick) (Ring Tick) (Ring Tick) (Ring Snap) (Ring Snap)

abbrev pub fresh : Line
fresh = record {
  ticks_published = 0;
  ticks_dropped = 0;
  feed_at = idle;
  parser = record { input = empty_ring; output = tt; ticks_processed = 0; ticks_rejected = 0 };
  parser_at = idle;
  norm = record {
    input = empty_ring;
    output = tt;
    last_timestamp = [];
    last_tick = [];
    ticks_forwarded = 0;
    ticks_deduplicated = 0;
    ticks_reordered = 0;
  };
  norm_at = idle;
  book = record {
    input = empty_ring;
    db_queue = none;
    signal_queue = none;
    books = [];
    reference_price = [];
    ticks_processed = 0;
    snapshots_dropped = 0;
  };
  book_at = idle;
}

pub fresh-IsFresh : IsFresh ticks ticks ticks snaps snaps ticks_fifo ticks_fifo ticks_fifo fresh
fresh-IsFresh = record {
  valid1 = empty_ring-IsValid;
  valid2 = empty_ring-IsValid;
  valid3 = empty_ring-IsValid;
  empty1 = refl;
  empty2 = refl;
  empty3 = refl;
  parser_idle = refl;
  norm_idle = refl;
  book_idle = refl;
  published = refl;
  processed = refl;
  rejected = refl;
  forwarded = refl;
  deduplicated = refl;
  reordered = refl;
  booked = refl;
}

abbrev one : Tick
one = tick_of aapl 150 3 1000

-- What the parser makes of it
abbrev clean : Tick
clean = record one { symbol = aapl }

abbrev s1 : Line
s1 = feed_push ticks ticks ticks snaps snaps one fresh

abbrev s2 : Line
s2 = record s1 { ticks_published = add_word s1.ticks_published 1; feed_at = idle }

abbrev s3 : Line
s3 = parser_pop ticks ticks ticks snaps snaps s2

abbrev s4 : Line
s4 = parser_push ticks ticks ticks snaps snaps clean s3

abbrev s5 : Line
s5 = record s4 { parser = count_processed s4.parser; parser_at = idle }

abbrev s6 : Line
s6 = norm_pop ticks ticks ticks snaps snaps s5

abbrev s7 : Line
s7 = norm_push ticks ticks ticks snaps snaps clean s6

abbrev s8 : Line
s8 = record s7 {
  norm = record s7.norm { ticks_forwarded = add_word s7.norm.ticks_forwarded 1 };
  norm_at = idle;
}

abbrev s9 : Line
s9 = book_pop ticks ticks ticks snaps snaps s8

abbrev pub s10 : Line
s10 = record s9 { book = process_tick ticks snaps snaps 0 0 clean s9.book; book_at = idle }

unfoldable pub passes : Steps ticks ticks ticks snaps snaps fresh 10 s10
unfolding feed_push parser_pop parser_push norm_pop norm_push book_pop try_push try_pop validate
    enrich count_processed is_duplicate is_reordered update_state
passes =
    then_step
      (then_step
        (then_step
          (then_step
            (then_step
              (then_step
                (then_step
                  (then_step
                    (then_step (then_step here (feed_pushes one refl)) (feed_published refl))
                    (parser_pops refl))
                  (parser_pushes clean refl))
                (parser_processed refl))
              (norm_pops refl))
            (norm_pushes clean refl))
          (norm_forwarded refl))
        (book_pops refl))
      (book_processes clean 0 0 refl)

Steps-Agrees_example : Agrees ticks ticks ticks snaps snaps ticks_fifo ticks_fifo ticks_fifo 10 s10
Steps-Agrees_example =
    Steps-Agrees ticks ticks ticks snaps snaps ticks_fifo ticks_fifo ticks_fifo (omega arith)
      fresh-IsFresh passes
