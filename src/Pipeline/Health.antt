-- ===== src/Pipeline/Health.antt =====
-- What src/tools/health_check.cpp reads of the stages once they have stopped.
use market_data_processor.Prelude.{ℕ, ◌%◌, ap, length, ◌+◌, ◌≤◌, ◌<◌, ◌≡◌, arith, []}
use market_data_processor.Prelude.Int.{ℤ}
use market_data_processor.Double.{Double}
use market_data_processor.Metrics.{snapshot}
use market_data_processor.Channel.{Channel, IsFifo}
use market_data_processor.Ring.{word}
use market_data_processor.Tick.{MarketTick, MarketSnapshot}
use market_data_processor.Pipeline.{idle, Pipeline, Steps}
use market_data_processor.Parser.Drain.{accepted_of}
use market_data_processor.Normalizer.History.{fresh_of}
use market_data_processor.Pipeline.Accounts.{IsFresh, Steps-Agrees, uncounted}
use market_data_processor.Pipeline.Log.{log_of}
use market_data_processor.Pipeline.Counted.{Steps-Counted}
use market_data_processor.Pipeline.Delivery.{IsNew, IsDrained, booked_without_loss}

module _ {D : Type 0} ⦃d : Double D⦄ {Q1 Q2 Q3 Db Sig : Type 0} (c1 : Channel (MarketTick D) Q1)
    (c2 : Channel (MarketTick D) Q2) (c3 : Channel (MarketTick D) Q3)
    (db : Channel (MarketSnapshot D) Db) (sig : Channel (MarketSnapshot D) Sig) {V1 : Q1 → Type 0}
    {V2 : Q2 → Type 0} {V3 : Q3 → Type 0} (f1 : IsFifo c1 V1) (f2 : IsFifo c2 V2)
    (f3 : IsFifo c3 V3) where
  -- No thread has a tick, and the buffers are empty, as after the drains of the stages.
  record IsAtRest (p : Pipeline D Q1 Q2 Q3 Db Sig) : Type 0 where
    pub feed_idle : p.feed_at ≡ idle
    pub parser_idle : p.parser_at ≡ idle
    pub norm_idle : p.norm_at ≡ idle
    pub book_idle : p.book_at ≡ idle
    pub empty3 : c3.contents p.book.input ≡ []

  -- What `health_check` reads once the stages are at rest, after fewer than 2^64 steps from a fresh
  -- pipeline: the processor has processed exactly the ticks that the normalizer has forwarded; the ticks
  -- that the normalizer has forwarded, deduplicated and reordered are together at most those that the
  -- parser has processed; and those that the parser has processed and rejected are together at most
  -- those that the feed has published.
  snapshot-at-rest :
      {p : Pipeline D Q1 Q2 Q3 Db Sig} {n : ℕ} {q : Pipeline D Q1 Q2 Q3 Db Sig} (now : ℤ)
      → n < word
      → IsFresh c1 c2 c3 db sig f1 f2 f3 p
      → Steps c1 c2 c3 db sig p n q
      → IsAtRest q
      → let m = snapshot q.ticks_published q.ticks_dropped q.parser q.norm q.book now in
        (m.book_ticks_processed ≡ m.norm_ticks_forwarded)
        × (m.norm_ticks_forwarded + m.norm_ticks_deduplicated + m.norm_ticks_reordered
            ≤ m.parser_ticks_processed)
        × (m.parser_ticks_processed + m.parser_ticks_rejected ≤ m.feed_ticks_published)
  unfolding snapshot
  snapshot-at-rest {q = q} now small f steps rest =
      let h = Steps-Agrees c1 c2 c3 db sig f1 f2 f3 small f steps in ground arith

  -- What `health_check` reads once the feed is at rest, no thread has a tick, the buffers are empty, and
  -- no thread has given up a tick, after fewer than 2^64 steps from a new pipeline: the ticks published
  -- are all that the feed has put in, and the ticks processed by the processor are exactly those of them
  -- that the parser's checks accept and the normalizer then lets through.
  pub snapshot_counts :
      {p : Pipeline D Q1 Q2 Q3 Db Sig} {n : ℕ} {q : Pipeline D Q1 Q2 Q3 Db Sig} (now : ℤ)
      → n < word
      → IsNew c1 c2 c3 db sig f1 f2 f3 p
      → (steps : Steps c1 c2 c3 db sig p n q) → IsDrained c1 c2 c3 db sig f1 f2 f3 q
      → q.feed_at ≡ idle
      → (log_of c1 c2 c3 db sig steps).parser_lost ≡ []
      → (log_of c1 c2 c3 db sig steps).norm_lost ≡ []
      → let fed = (log_of c1 c2 c3 db sig steps).fed in
        let m = snapshot q.ticks_published q.ticks_dropped q.parser q.norm q.book now in
        (m.feed_ticks_published ≡ length fed % word)
        × (m.book_ticks_processed ≡ length (fresh_of [] (accepted_of fed)) % word)
  unfolding snapshot
  snapshot_counts {q = q} now small new steps drained still a b =
      let counted = Steps-Counted c1 c2 c3 db sig f1 f2 f3 new steps in
      let whole =
        ap (λ l. length l % word)
          (booked_without_loss c1 c2 c3 db sig f1 f2 f3 new steps drained a b) in
      let agrees = Steps-Agrees c1 c2 c3 db sig f1 f2 f3 small new.fresh steps in
      ground (arith, counted.published, counted.booked, whole, agrees, ap uncounted still)
