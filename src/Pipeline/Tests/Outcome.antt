-- ===== src/Pipeline/Tests/Outcome.antt =====
-- What has become of the tick.
use market_data_processor.Prelude.{◌≡◌, refl, arith, All, []}
use market_data_processor.Prelude.Dict.{bytes_eq}
use market_data_processor.Double.Fixed.{fixed_double}
use market_data_processor.Ring.{try_push, try_pop}
use market_data_processor.Parser.{validate, enrich, count_processed}
use market_data_processor.Normalizer.{is_duplicate, is_reordered, update_state}
use market_data_processor.Processor.{process_tick, update_book, push_db, push_signal, offer}
use market_data_processor.Processor.Samples.{snaps}
use market_data_processor.Samples.{ticks, ticks_fifo}
use market_data_processor.Tick.{c_string}
use market_data_processor.Levels.{set_level}
use market_data_processor.Pipeline.{
  feed_push, parser_pop, parser_push, norm_pop, norm_push, book_pop,
}
use market_data_processor.Pipeline.Delivery.{
  IsNew, IsDrained, Steps-Delivered, Steps-Settled, booked_without_loss,
}
use market_data_processor.Pipeline.{idle}
use market_data_processor.Prelude.{length, ◌%◌}
use market_data_processor.Prelude.Int.{pos}
use market_data_processor.Ring.{word}
use market_data_processor.Metrics.{snapshot}
use market_data_processor.Pipeline.Health.{snapshot_counts}
use market_data_processor.Pipeline.Layout.{Steps-IsEnriched}
use market_data_processor.Parser.Layout.{IsEnriched}
use market_data_processor.Tick.Layout.{HasLayout}
use market_data_processor.Pipeline.Outcome.{Delivered, Settled}
use market_data_processor.Pipeline.Log.{log_of}
use market_data_processor.Normalizer.History.{fresh_of}
use market_data_processor.Parser.Drain.{accepted_of}
use market_data_processor.Pipeline.Tests.{fresh, fresh-IsFresh, s10, passes}

fresh-IsNew : IsNew ticks ticks ticks snaps snaps ticks_fifo ticks_fifo ticks_fifo fresh
fresh-IsNew = record { fresh = fresh-IsFresh; feed_idle = refl; no_ticks = refl; no_times = refl }

drained : IsDrained ticks ticks ticks snaps snaps ticks_fifo ticks_fifo ticks_fifo s10
unfolding feed_push parser_pop parser_push norm_pop norm_push book_pop try_push try_pop validate
    enrich count_processed is_duplicate is_reordered update_state process_tick update_book push_db
    push_signal offer c_string set_level
drained = record {
  parser_free = refl;
  norm_free = refl;
  book_free = refl;
  empty1 = refl;
  empty2 = refl;
  empty3 = refl;
}

Steps-Delivered_example : Delivered (log_of ticks ticks ticks snaps snaps passes)
Steps-Delivered_example =
    Steps-Delivered ticks ticks ticks snaps snaps ticks_fifo ticks_fifo ticks_fifo fresh-IsNew
      passes

Steps-Settled_example : Settled (log_of ticks ticks ticks snaps snaps passes)
Steps-Settled_example =
    Steps-Settled ticks ticks ticks snaps snaps ticks_fifo ticks_fifo ticks_fifo fresh-IsNew passes
      drained

booked_without_loss_example :
    (log_of ticks ticks ticks snaps snaps passes).booked
    ≡ fresh_of [] (accepted_of (log_of ticks ticks ticks snaps snaps passes).fed)
unfolding passes
booked_without_loss_example =
    booked_without_loss ticks ticks ticks snaps snaps ticks_fifo ticks_fifo ticks_fifo fresh-IsNew
      passes drained refl refl

laid : All HasLayout (log_of ticks ticks ticks snaps snaps passes).fed
unfolding passes try_push
laid = (
  record {
    symbol_length = refl;
    symbol_bytes = ground arith;
    time_range = (omega arith, omega arith);
    side_lt = omega arith;
    pad_length = refl;
    pad_bytes = ground arith;
  },
  tt,
)

Steps-IsEnriched_example : All IsEnriched (log_of ticks ticks ticks snaps snaps passes).booked
Steps-IsEnriched_example =
    Steps-IsEnriched ticks ticks ticks snaps snaps ticks_fifo ticks_fifo ticks_fifo fresh-IsNew
      passes laid

still : s10.feed_at ≡ idle
unfolding feed_push parser_pop parser_push norm_pop norm_push book_pop try_push try_pop validate
    enrich count_processed is_duplicate is_reordered update_state
still = refl

snapshot_counts_example :
    let fed = (log_of ticks ticks ticks snaps snaps passes).fed in
    let m = snapshot s10.ticks_published s10.ticks_dropped s10.parser s10.norm s10.book (pos 5) in
    (m.feed_ticks_published ≡ length fed % word)
    × (m.book_ticks_processed ≡ length (fresh_of [] (accepted_of fed)) % word)
unfolding passes
snapshot_counts_example =
    snapshot_counts ticks ticks ticks snaps snaps ticks_fifo ticks_fifo ticks_fifo (pos 5)
      (omega arith) fresh-IsNew passes drained still refl refl
