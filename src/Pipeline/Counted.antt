-- ===== src/Pipeline/Counted.antt =====
-- The counters that the feed and the processor keep, told of the log of a run.
use market_data_processor.Prelude.{ℕ, ◌+◌, ◌%◌, ◌≡◌, ap, arith, [], ◌∷◌, length, length-append}
use market_data_processor.Double.{Double}
use market_data_processor.Channel.{Channel, IsFifo}
use market_data_processor.Ring.{word}
use market_data_processor.Tick.{MarketTick, MarketSnapshot}
use market_data_processor.Parser.{count_processed, count_rejected}
use market_data_processor.Pipeline.{
  Pipeline, feed_push, parser_pop, parser_push, norm_pop, norm_push, book_pop, Step, feed_pushes,
  feed_published, feed_dropped, parser_pops, parser_pushes, parser_abandons, parser_processed,
  parser_rejected, norm_pops, norm_pushes, norm_abandons, norm_forwarded, norm_deduplicated,
  norm_reordered, book_pops, book_processes, Steps, here, then_step,
}
use market_data_processor.Pipeline.Accounts.{uncounted, process_tick-counts}
use market_data_processor.Pipeline.Log.{Log, record_step, log_of}
use market_data_processor.Pipeline.Delivery.{IsNew}

module _ {D : Type 0} ⦃d : Double D⦄ {Q1 Q2 Q3 Db Sig : Type 0} (c1 : Channel (MarketTick D) Q1)
    (c2 : Channel (MarketTick D) Q2) (c3 : Channel (MarketTick D) Q3)
    (db : Channel (MarketSnapshot D) Db) (sig : Channel (MarketSnapshot D) Sig) {V1 : Q1 → Type 0}
    {V2 : Q2 → Type 0} {V3 : Q3 → Type 0} (f1 : IsFifo c1 V1) (f2 : IsFifo c2 V2)
    (f3 : IsFifo c3 V3) where
  -- Modulo 2^64, with the tick that the feed has pushed and not counted yet.
  pub record Counted (log : Log D) (p : Pipeline D Q1 Q2 Q3 Db Sig) : Type 0 where
    pub published : (p.ticks_published + uncounted p.feed_at) % word ≡ length log.fed % word
    pub booked : p.book.ticks_processed % word ≡ length log.booked % word

  Step-Counted :
      (log : Log D) {p q : Pipeline D Q1 Q2 Q3 Db Sig} (s : Step c1 c2 c3 db sig p q)
      → Counted log p
      → Counted (record_step c1 c2 c3 db sig s log) q
  unfolding count_processed count_rejected feed_push parser_pop parser_push norm_pop norm_push
      book_pop
  Step-Counted log {p} (feed_pushes t e) h = ground (
    arith,
    length-append log.fed (t ∷ []),
    length-append log.fed [],
    ap uncounted e,
    h.published,
    h.booked,
  )
  Step-Counted log {p} (feed_published e) h = ground (arith, ap uncounted e, h.published, h.booked)
  Step-Counted log {p} (feed_dropped e) h = ground (arith, ap uncounted e, h.published, h.booked)
  Step-Counted log {p} (parser_pops e) h = record { published = h.published; booked = h.booked }
  Step-Counted log {p} (parser_pushes t e) h = record { published = h.published; booked = h.booked }
  Step-Counted log {p} (parser_abandons t e) h = record {
    published = h.published;
    booked = h.booked;
  }
  Step-Counted log {p} (parser_processed e) h = record {
    published = h.published;
    booked = h.booked;
  }
  Step-Counted log {p} (parser_rejected e) h = record { published = h.published; booked = h.booked }
  Step-Counted log {p} (norm_pops e) h = ground (arith, h.published, h.booked)
  Step-Counted log {p} (norm_pushes t e) h = record { published = h.published; booked = h.booked }
  Step-Counted log {p} (norm_abandons t e) h = record { published = h.published; booked = h.booked }
  Step-Counted log {p} (norm_forwarded e) h = record { published = h.published; booked = h.booked }
  Step-Counted log {p} (norm_deduplicated e) h = record {
    published = h.published;
    booked = h.booked;
  }
  Step-Counted log {p} (norm_reordered e) h = record { published = h.published; booked = h.booked }
  Step-Counted log {p} (book_pops e) h = record { published = h.published; booked = h.booked }
  Step-Counted log {p} (book_processes t now0 now1 e) h = ground (
    arith,
    process_tick-counts c1 c2 c3 db sig f1 f2 f3 now0 now1 t p.book,
    length-append log.booked (t ∷ []),
    h.published,
    h.booked,
  )

  pub Steps-Counted :
      {p : Pipeline D Q1 Q2 Q3 Db Sig} {n : ℕ} {q : Pipeline D Q1 Q2 Q3 Db Sig}
      → IsNew c1 c2 c3 db sig f1 f2 f3 p
      → (steps : Steps c1 c2 c3 db sig p n q) → Counted (log_of c1 c2 c3 db sig steps) q
  Steps-Counted new here =
      ground (arith, new.fresh.published, new.fresh.booked, ap uncounted new.feed_idle)
  Steps-Counted new (then_step before last) =
      Step-Counted (log_of c1 c2 c3 db sig before) last (Steps-Counted new before)
