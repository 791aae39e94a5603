-- ===== src/Metrics.antt =====
-- `PipelineSnapshot` and `MetricsCollector` (src/infra/include/infra/MetricsCollector.hpp), and the
-- checks of src/tools/health_check.cpp on them. The JSON and log renderings are left out.
pub mod Health
mod Tests
use market_data_processor.Prelude.{
  ℕ, ◌+◌, Bool, true, false, List, [], ◌∷◌, ◌++◌, ltb, ◌==◌, if◌then◌else◌,
}
use market_data_processor.Prelude.Int.{ℤ}
use market_data_processor.Double.{Double, zero_lit, le}
use market_data_processor.Ring.{add_word}
use market_data_processor.Parser.{Parser}
use market_data_processor.Normalizer.{Normalizer, stats}
use market_data_processor.Processor.{BookProcessor, books_active}

pub record PipelineSnapshot : Type 0 where
  pub feed_ticks_published : ℕ
  pub feed_ticks_dropped : ℕ
  pub parser_ticks_processed : ℕ
  pub parser_ticks_rejected : ℕ
  pub norm_ticks_forwarded : ℕ
  pub norm_ticks_deduplicated : ℕ
  pub norm_ticks_reordered : ℕ
  pub book_ticks_processed : ℕ
  pub book_books_active : ℕ
  pub snapshot_time_ns : ℤ

-- `snapshot()`: the feed is given by what its two accessors return, and `now` is what the clock reads.
module _ {D : Type 0} ⦃d : Double D⦄ {In Out In' Out' In'' Db Sig : Type 0} where
  unfoldable pub snapshot :
      ℕ
      → ℕ
      → Parser In Out
      → Normalizer D In' Out'
      → BookProcessor D In'' Db Sig
      → ℤ
      → PipelineSnapshot
  unfolding stats books_active
  snapshot published dropped parser norm book now =
      let norm_stats = stats norm in
      record {
        feed_ticks_published = published;
        feed_ticks_dropped = dropped;
        parser_ticks_processed = parser.ticks_processed;
        parser_ticks_rejected = parser.ticks_rejected;
        norm_ticks_forwarded = norm_stats.ticks_forwarded;
        norm_ticks_deduplicated = norm_stats.ticks_deduplicated;
        norm_ticks_reordered = norm_stats.ticks_reordered;
        book_ticks_processed = book.ticks_processed;
        book_books_active = books_active book;
        snapshot_time_ns = now;
      }

-- What `health_check` finds wrong; the two rates come with the percentage that is shown.
pub data Failure (D : Type 0) : Type 0 where
  nothing_published nothing_parsed nothing_forwarded nothing_booked : Failure D
  drop_rate_exceeds reject_rate_exceeds : D → Failure D

module _ {D : Type 0} ⦃d : Double D⦄ where
  unfoldable pub feed_drop_rate : PipelineSnapshot → D
  feed_drop_rate s =
      if ltb 0 s.feed_ticks_published
      then d.div (d.of_u64 s.feed_ticks_dropped) (d.of_u64 s.feed_ticks_published)
      else zero_lit

  unfoldable pub parser_reject_rate : PipelineSnapshot → D
  parser_reject_rate s =
      if ltb 0 s.parser_ticks_processed
      then d.div (d.of_u64 s.parser_ticks_rejected) (d.of_u64 s.parser_ticks_processed)
      else zero_lit

  unfoldable pub norm_dedup_rate : PipelineSnapshot → D
  norm_dedup_rate s =
      let total =
        add_word (add_word s.norm_ticks_forwarded s.norm_ticks_deduplicated)
          s.norm_ticks_reordered in
      if ltb 0 total then d.div (d.of_u64 s.norm_ticks_deduplicated) (d.of_u64 total) else zero_lit

  -- A failure that is pushed onto the list if the test says so.
  abbrev pub push_if : Bool → Failure D → List (Failure D)
  push_if test f = if test then f ∷ [] else []

  unfoldable pub failures : PipelineSnapshot → List (Failure D)
  unfolding feed_drop_rate parser_reject_rate
  failures s =
      let drop_rate = feed_drop_rate s in
      let reject_rate = parser_reject_rate s in
      push_if (s.feed_ticks_published == 0) nothing_published
      ++ (push_if (s.parser_ticks_processed == 0) nothing_parsed
          ++ (push_if (s.norm_ticks_forwarded == 0) nothing_forwarded
              ++ (push_if (s.book_ticks_processed == 0) nothing_booked
                  ++ (push_if (le (d.lit 5 2) drop_rate)
                        (drop_rate_exceeds (d.mul drop_rate (d.lit 1000 1)))
                      ++ push_if (le (d.lit 10 2) reject_rate)
                          (reject_rate_exceeds (d.mul reject_rate (d.lit 1000 1)))))))

  -- The exit code of the program.
  unfoldable pub exit_code : List (Failure D) → ℕ
  exit_code [] = 0
  exit_code (f ∷ fs) = 1
