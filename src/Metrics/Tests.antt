-- ===== src/Metrics/Tests.antt =====
-- Snapshots of a healthy and of an unhealthy pipeline, and the theorem at one.
use native.Mathlib.Nat.{zero-div, le-div_iff_mul-le}
use market_data_processor.Prelude.{
  ℕ, zero, suc, ◌*◌, ◌/◌, ◌^◌, ◌≤◌, ◌<◌, ◌≡◌, ◌↔◌, refl, arith, true, [], ◌∷◌,
}
use market_data_processor.Prelude.Int.{pos}
use market_data_processor.Double.{le}
use market_data_processor.Double.Fixed.{Fixed, fixed_double, dec, num}
use market_data_processor.Metrics.{
  PipelineSnapshot, nothing_forwarded, drop_rate_exceeds, feed_drop_rate, parser_reject_rate,
  norm_dedup_rate, failures, exit_code,
}
use market_data_processor.Metrics.Health.{IsPrecise, exit_code_iff}

abbrev healthy : PipelineSnapshot
healthy = record {
  feed_ticks_published = 100;
  feed_ticks_dropped = 4;
  parser_ticks_processed = 90;
  parser_ticks_rejected = 5;
  norm_ticks_forwarded = 80;
  norm_ticks_deduplicated = 8;
  norm_ticks_reordered = 2;
  book_ticks_processed = 80;
  book_books_active = 3;
  snapshot_time_ns = pos 7;
}

reports :
    (failures {D = Fixed} healthy ≡ [])
    × (failures (record healthy { feed_ticks_dropped = 5; norm_ticks_forwarded = 0 })
        ≡ nothing_forwarded ∷ drop_rate_exceeds (dec 5 0) ∷ [])
    × (norm_dedup_rate healthy ≡ dec 888 4)
unfolding failures feed_drop_rate parser_reject_rate norm_dedup_rate
reports = (refl, refl, refl)

positive : (m : ℕ) → 0 < m → (n : ℕ) × (m ≡ suc n)
positive zero h = absurd (omega arith)
positive (suc n) h = (n, refl)

-- A quotient of counters, as a fixed-point number.
quotient_lem :
    (a b : ℕ)
    → 0 < b
    → fixed_double.div (fixed_double.of_u64 a) (fixed_double.of_u64 b)
      ≡ num (pos (a * 10 ^ 4 * 10 ^ 4 / (b * 10 ^ 4)))
quotient_lem a b h =
    let (n, e) = positive (b * 10 ^ 4) (omega arith) in ground (arith, e, zero-div (suc n))

-- A literal of `k` ten-thousandths compares with it as with the exact fraction.
quotient_iff :
    (k a b : ℕ)
    → 0 < b
    → (le (num (pos k)) (fixed_double.div (fixed_double.of_u64 a) (fixed_double.of_u64 b)) ≡ true)
      ↔ (k * b ≤ 10 ^ 4 * a)
quotient_iff k a b h =
    let exact =
      le-div_iff_mul-le {k = b * 10 ^ 4} {x = k} {y = a * 10 ^ 4 * 10 ^ 4} (omega arith) in
    let scaled : k * (b * 10 ^ 4) ≡ k * b * 10 ^ 4 = grind arith in
    rw (quotient_lem a b h) (
      λ e.
          let below : k ≤ a * 10 ^ 4 * 10 ^ 4 / (b * 10 ^ 4) = ground arith in
          omega (arith, exact.0 below, scaled),
      λ e. let below = exact.1 (omega (arith, scaled)) in ground arith,
    )

fixed_IsPrecise : IsPrecise fixed_double
fixed_IsPrecise = record {
  twentieth = λ a b p h q.
      let exact = quotient_iff 500 a b h in
      (λ e. omega (arith, exact.0 e), λ e. exact.1 (omega arith));
  tenth = λ a b p h q.
      let exact = quotient_iff 1000 a b h in
      (λ e. omega (arith, exact.0 e), λ e. exact.1 (omega arith));
}

exit_code_iff_example : (exit_code (failures {D = Fixed} healthy) ≡ 0) ↔ (
    (0 < healthy.norm_ticks_forwarded)
    × (0 < healthy.book_ticks_processed)
    × (20 * healthy.feed_ticks_dropped < healthy.feed_ticks_published)
    × (10 * healthy.parser_ticks_rejected < healthy.parser_ticks_processed))
exit_code_iff_example =
    exit_code_iff fixed_IsPrecise healthy (omega arith) (omega arith) (omega arith) (omega arith)
