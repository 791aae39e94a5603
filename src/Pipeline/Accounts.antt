-- ===== src/Pipeline/Accounts.antt =====
-- How the counters of the stages agree, whatever the threads' steps interleave to.
use market_data_processor.Prelude.{
  ℕ, suc, ◌+◌, ◌≤◌, ◌<◌, ◌≡◌, arith, [], ◌∷◌, length, length-append,
}
use market_data_processor.Double.{Double}
use market_data_processor.Channel.{Channel, IsFifo}
use market_data_processor.Ring.{add_word, word}
use market_data_processor.Tick.{MarketTick, MarketSnapshot, blank_tick}
use market_data_processor.Parser.{count_processed, count_rejected}
use market_data_processor.Normalizer.{update_state}
use market_data_processor.Processor.{BookProcessor, process_tick, update_book, push_db, push_signal}
use market_data_processor.Pipeline.{
  At, idle, holding, pushed, refused, late, Pipeline, feed_push, parser_pop, parser_push, norm_pop,
  norm_push, book_pop, Step, feed_pushes, feed_published, feed_dropped, parser_pops, parser_pushes,
  parser_abandons, parser_processed, parser_rejected, norm_pops, norm_pushes, norm_abandons,
  norm_forwarded, norm_deduplicated, norm_reordered, book_pops, book_processes, Steps, here,
  then_step,
}

module _ {D : Type 0} where
  -- One for a tick that has left the input and is not counted yet, and one for a tick that has been
  -- pushed and is not counted yet.
  abbrev busy : At D → ℕ
  busy idle = 0
  busy _ = 1

  abbrev pub uncounted : At D → ℕ
  uncounted pushed = 1
  uncounted _ = 0

  uncounted-le : (a : At D) → (uncounted a ≤ busy a) × (busy a ≤ 1)
  uncounted-le idle = omega arith
  uncounted-le (holding t) = omega arith
  uncounted-le pushed = omega arith
  uncounted-le refused = omega arith
  uncounted-le late = omega arith

module _ {D : Type 0} ⦃d : Double D⦄ {Q1 Q2 Q3 Db Sig : Type 0} (c1 : Channel (MarketTick D) Q1)
    (c2 : Channel (MarketTick D) Q2) (c3 : Channel (MarketTick D) Q3)
    (db : Channel (MarketSnapshot D) Db) (sig : Channel (MarketSnapshot D) Sig) {V1 : Q1 → Type 0}
    {V2 : Q2 → Type 0} {V3 : Q3 → Type 0} (f1 : IsFifo c1 V1) (f2 : IsFifo c2 V2)
    (f3 : IsFifo c3 V3) where
  -- The buffers are valid, no counter exceeds the number `n` of steps, and what has left a stage's
  -- input is at most what the stage before has put there.
  pub record Agrees (n : ℕ) (p : Pipeline D Q1 Q2 Q3 Db Sig) : Type 0 where
    pub valid1 : V1 p.parser.input
    pub valid2 : V2 p.norm.input
    pub valid3 : V3 p.book.input
    pub few : p.ticks_published ≤ n
    pub parsed :
        length (c1.contents p.parser.input)
          + busy p.parser_at
          + p.parser.ticks_processed
          + p.parser.ticks_rejected
        ≤ p.ticks_published + uncounted p.feed_at
    pub sifted :
        length (c2.contents p.norm.input)
          + busy p.norm_at
          + p.norm.ticks_forwarded
          + p.norm.ticks_deduplicated
          + p.norm.ticks_reordered
        ≤ p.parser.ticks_processed + uncounted p.parser_at
    pub booked :
        length (c3.contents p.book.input) + busy p.book_at + p.book.ticks_processed
        ≡ p.norm.ticks_forwarded + uncounted p.norm_at

  feed_push-Agrees :
      {n : ℕ} (t : MarketTick D) (p : Pipeline D Q1 Q2 Q3 Db Sig)
      → p.feed_at ≡ idle
      → Agrees n p
      → Agrees (suc n) (feed_push c1 c2 c3 db sig t p)
  unfolding feed_push
  feed_push-Agrees t p e h =
      let push = f1.push_fifo t p.parser.input h.valid1 in
      ground (
        arith,
        push,
        f1.push-Valid t p.parser.input h.valid1,
        length-append (c1.contents p.parser.input) (t ∷ []),
      )

  parser_pop-Agrees :
      {n : ℕ} (p : Pipeline D Q1 Q2 Q3 Db Sig)
      → p.parser_at ≡ idle
      → Agrees n p
      → Agrees (suc n) (parser_pop c1 c2 c3 db sig p)
  unfolding parser_pop
  parser_pop-Agrees p e h = ground (
    arith,
    f1.pop_fifo blank_tick p.parser.input h.valid1,
    f1.pop-Valid blank_tick p.parser.input h.valid1,
  )

  parser_push-Agrees :
      {n : ℕ} (t : MarketTick D) (p : Pipeline D Q1 Q2 Q3 Db Sig)
      → p.parser_at ≡ holding t
      → Agrees n p
      → Agrees (suc n) (parser_push c1 c2 c3 db sig t p)
  unfolding parser_push
  parser_push-Agrees t p e h = ground (
    arith,
    f2.push_fifo t p.norm.input h.valid2,
    f2.push-Valid t p.norm.input h.valid2,
    length-append (c2.contents p.norm.input) (t ∷ []),
  )

  norm_pop-Agrees :
      {n : ℕ} (p : Pipeline D Q1 Q2 Q3 Db Sig)
      → p.norm_at ≡ idle
      → Agrees n p
      → Agrees (suc n) (norm_pop c1 c2 c3 db sig p)
  unfolding norm_pop update_state
  norm_pop-Agrees p e h = ground (
    arith,
    f2.pop_fifo blank_tick p.norm.input h.valid2,
    f2.pop-Valid blank_tick p.norm.input h.valid2,
  )

  norm_push-Agrees :
      {n : ℕ} (t : MarketTick D) (p : Pipeline D Q1 Q2 Q3 Db Sig)
      → p.norm_at ≡ holding t
      → Agrees n p
      → Agrees (suc n) (norm_push c1 c2 c3 db sig t p)
  unfolding norm_push
  norm_push-Agrees t p e h = ground (
    arith,
    f3.push_fifo t p.book.input h.valid3,
    f3.push-Valid t p.book.input h.valid3,
    length-append (c3.contents p.book.input) (t ∷ []),
  )

  book_pop-Agrees :
      {n : ℕ} (p : Pipeline D Q1 Q2 Q3 Db Sig)
      → p.book_at ≡ idle
      → Agrees n p
      → Agrees (suc n) (book_pop c1 c2 c3 db sig p)
  unfolding book_pop
  book_pop-Agrees p e h = ground (
    arith,
    f3.pop_fifo blank_tick p.book.input h.valid3,
    f3.pop-Valid blank_tick p.book.input h.valid3,
  )

  pub process_tick-counts :
      (now0 now1 : ℕ) (t : MarketTick D) (s : BookProcessor D Q3 Db Sig)
      → let s' = process_tick c3 db sig now0 now1 t s in
        (s'.input ≡ s.input) × (s'.ticks_processed ≡ add_word s.ticks_processed 1)
  unfolding process_tick update_book push_db push_signal
  process_tick-counts now0 now1 t s = ground arith

  Step-Agrees :
      {n : ℕ} {p q : Pipeline D Q1 Q2 Q3 Db Sig}
      → suc n < word
      → Step c1 c2 c3 db sig p q
      → Agrees n p
      → Agrees (suc n) q
  unfolding count_processed count_rejected
  Step-Agrees {p = p} small (feed_pushes t e) h = feed_push-Agrees t p e h
  Step-Agrees {p = p} small (feed_published e) h = ground arith
  Step-Agrees {p = p} small (feed_dropped e) h = ground arith
  Step-Agrees {p = p} small (parser_pops e) h = parser_pop-Agrees p e h
  Step-Agrees {p = p} small (parser_pushes t e) h = parser_push-Agrees t p e h
  Step-Agrees {p = p} small (parser_abandons t e) h = ground arith
  Step-Agrees {p = p} small (parser_processed e) h = ground (arith, uncounted-le p.feed_at)
  Step-Agrees {p = p} small (parser_rejected e) h = ground (arith, uncounted-le p.feed_at)
  Step-Agrees {p = p} small (norm_pops e) h = norm_pop-Agrees p e h
  Step-Agrees {p = p} small (norm_pushes t e) h = norm_push-Agrees t p e h
  Step-Agrees {p = p} small (norm_abandons t e) h = ground arith
  Step-Agrees {p = p} small (norm_forwarded e) h =
      ground (arith, uncounted-le p.feed_at, uncounted-le p.parser_at)
  Step-Agrees {p = p} small (norm_deduplicated e) h =
      ground (arith, uncounted-le p.feed_at, uncounted-le p.parser_at)
  Step-Agrees {p = p} small (norm_reordered e) h =
      ground (arith, uncounted-le p.feed_at, uncounted-le p.parser_at)
  Step-Agrees {p = p} small (book_pops e) h = book_pop-Agrees p e h
  Step-Agrees {p = p} small (book_processes t now0 now1 e) h = ground (
    arith,
    process_tick-counts now0 now1 t p.book,
    uncounted-le p.feed_at,
    uncounted-le p.parser_at,
    uncounted-le p.norm_at,
  )

  -- All counters are zero, the buffers are empty, and no thread has a tick.
  pub record IsFresh (p : Pipeline D Q1 Q2 Q3 Db Sig) : Type 0 where
    pub valid1 : V1 p.parser.input
    pub valid2 : V2 p.norm.input
    pub valid3 : V3 p.book.input
    pub empty1 : c1.contents p.parser.input ≡ []
    pub empty2 : c2.contents p.norm.input ≡ []
    pub empty3 : c3.contents p.book.input ≡ []
    pub parser_idle : p.parser_at ≡ idle
    pub norm_idle : p.norm_at ≡ idle
    pub book_idle : p.book_at ≡ idle
    pub published : p.ticks_published ≡ 0
    pub processed : p.parser.ticks_processed ≡ 0
    pub rejected : p.parser.ticks_rejected ≡ 0
    pub forwarded : p.norm.ticks_forwarded ≡ 0
    pub deduplicated : p.norm.ticks_deduplicated ≡ 0
    pub reordered : p.norm.ticks_reordered ≡ 0
    pub booked : p.book.ticks_processed ≡ 0

  fresh-Agrees : (p : Pipeline D Q1 Q2 Q3 Db Sig) → IsFresh p → Agrees 0 p
  fresh-Agrees p f = ground arith

  -- In every state that fewer than 2^64 steps of the threads reach from a fresh pipeline, in whatever
  -- order they interleave, the accounts agree: what is in the parser's input, in its hands, processed or
  -- rejected is at most what the feed has pushed; what is in the normalizer's input, in its hands,
  -- forwarded, deduplicated or reordered is at most what the parser has pushed; and what is in the
  -- processor's input, in its hands or processed is exactly what the normalizer has pushed. A tick that
  -- is pushed and not counted yet is included.
  pub Steps-Agrees :
      {p : Pipeline D Q1 Q2 Q3 Db Sig} {n : ℕ} {q : Pipeline D Q1 Q2 Q3 Db Sig}
      → n < word
      → IsFresh p
      → Steps c1 c2 c3 db sig p n q
      → Agrees n q
  Steps-Agrees {p = p} small f here = fresh-Agrees p f
  Steps-Agrees small f (then_step before last) =
      Step-Agrees small last (Steps-Agrees (omega arith) f before)
