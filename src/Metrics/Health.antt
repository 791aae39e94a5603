-- ===== src/Metrics/Health.antt =====
-- When `health_check` reports a healthy pipeline.
use market_data_processor.Prelude.{ℕ, ◌*◌, ◌^◌, ◌≤◌, ◌<◌, ◌≡◌, ◌↔◌, arith, true, ltb}
use market_data_processor.Double.{Double, le}
use market_data_processor.Metrics.{
  PipelineSnapshot, feed_drop_rate, parser_reject_rate, failures, exit_code,
}

-- What the divisions of counters are compared with. Division rounds correctly, so below 2^40 a quotient
-- compares with the literals 0.05 and 0.10 as the exact fraction does.
pub record IsPrecise {D : Type 0} (d : Double D) : Type 0 where
  pub twentieth :
      (a b : ℕ)
      → a < 2 ^ 40
      → 0 < b
      → b < 2 ^ 40
      → (le ⦃d = d⦄ (d.lit 5 2) (d.div (d.of_u64 a) (d.of_u64 b)) ≡ true) ↔ (b ≤ 20 * a)
  pub tenth :
      (a b : ℕ)
      → a < 2 ^ 40
      → 0 < b
      → b < 2 ^ 40
      → (le ⦃d = d⦄ (d.lit 10 2) (d.div (d.of_u64 a) (d.of_u64 b)) ≡ true) ↔ (b ≤ 10 * a)

module _ {D : Type 0} ⦃d : Double D⦄ (precise : IsPrecise d) where
  feed_drop_rate_lem :
      (s : PipelineSnapshot)
      → s.feed_ticks_published < 2 ^ 40
      → s.feed_ticks_dropped < 2 ^ 40
      → 0 < s.feed_ticks_published
      → (le (d.lit 5 2) (feed_drop_rate s) ≡ true)
        ↔ (s.feed_ticks_published ≤ 20 * s.feed_ticks_dropped)
  unfolding feed_drop_rate
  feed_drop_rate_lem s p q h =
      let some_published : ltb 0 s.feed_ticks_published ≡ true = ground arith in
      simp some_published (precise.twentieth s.feed_ticks_dropped s.feed_ticks_published q h p)

  parser_reject_rate_lem :
      (s : PipelineSnapshot)
      → s.parser_ticks_processed < 2 ^ 40
      → s.parser_ticks_rejected < 2 ^ 40
      → 0 < s.parser_ticks_processed
      → (le (d.lit 10 2) (parser_reject_rate s) ≡ true)
        ↔ (s.parser_ticks_processed ≤ 10 * s.parser_ticks_rejected)
  unfolding parser_reject_rate
  parser_reject_rate_lem s p q h =
      let some_processed : ltb 0 s.parser_ticks_processed ≡ true = ground arith in
      simp some_processed (precise.tenth s.parser_ticks_rejected s.parser_ticks_processed q h p)

  -- With counters below 2^40 the program exits with 0 exactly if every stage has handled a tick, fewer
  -- than one tick is dropped for 20 that are published, and fewer than one is rejected for 10 that are
  -- processed.
  pub exit_code_iff :
      (s : PipelineSnapshot)
      → s.feed_ticks_published < 2 ^ 40
      → s.feed_ticks_dropped < 2 ^ 40
      → s.parser_ticks_processed < 2 ^ 40
      → s.parser_ticks_rejected < 2 ^ 40
      → (exit_code (failures {D = D} s) ≡ 0) ↔ (
          (0 < s.norm_ticks_forwarded)
          × (0 < s.book_ticks_processed)
          × (20 * s.feed_ticks_dropped < s.feed_ticks_published)
          × (10 * s.parser_ticks_rejected < s.parser_ticks_processed))
  unfolding exit_code failures
  exit_code_iff s p q p' q' =
      ground (arith, feed_drop_rate_lem s p q, parser_reject_rate_lem s p' q')
