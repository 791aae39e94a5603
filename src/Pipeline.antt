-- ===== src/Pipeline.antt =====
-- The stages of src/tools/health_check.cpp at work side by side: `FeedSimulator`, `TickParser`,
-- `Normalizer` and `BookProcessor`, joined by ring buffers that each pair shares. One step is what a
-- thread does between two accesses to what it shares: a push, a pop, or the increment of a counter. A
-- stop is in the steps that abandon a tick.
pub mod Accounts
pub mod Health
pub mod Link
pub mod Flow
pub mod Log
pub mod Trace
pub mod Outcome
pub mod Delivery
pub mod Counted
pub mod Layout
mod Tests
use market_data_processor.Prelude.{
  ℕ, suc, ◌+◌, ◌≡◌, Bool, true, false, Option, none, some, List, [], ◌∷◌, if◌then◌else◌,
}
use market_data_processor.Double.{Double}
use market_data_processor.Channel.{Channel}
use market_data_processor.Ring.{add_word}
use market_data_processor.Tick.{MarketTick, MarketSnapshot, blank_tick}
use market_data_processor.Parser.{Parser, validate, enrich, count_processed, count_rejected}
use market_data_processor.Normalizer.{
  Normalizer, is_duplicate, is_reordered, update_state, count_duplicate, count_reordered,
}
use market_data_processor.Processor.{BookProcessor}
use market_data_processor.Processor

-- Where a thread stands: between two ticks, with a tick in hand, or about to count a tick that it has
-- pushed, refused, or found to be late.
pub data At (D : Type 0) : Type 0 where
  idle : At D
  holding : MarketTick D → At D
  pushed refused late : At D

-- The buffers are the inputs of the stages after the feed.
pub record Pipeline (D Q1 Q2 Q3 Db Sig : Type 0) : Type 0 where
  pub ticks_published : ℕ
  pub ticks_dropped : ℕ
  pub feed_at : At D
  pub parser : Parser Q1 (Unit {0})
  pub parser_at : At D
  pub norm : Normalizer D Q2 (Unit {0})
  pub norm_at : At D
  pub book : BookProcessor D Q3 Db Sig
  pub book_at : At D

module _ {D : Type 0} ⦃d : Double D⦄ {Q1 Q2 Q3 Db Sig : Type 0} (c1 : Channel (MarketTick D) Q1)
    (c2 : Channel (MarketTick D) Q2) (c3 : Channel (MarketTick D) Q3)
    (db : Channel (MarketSnapshot D) Db) (sig : Channel (MarketSnapshot D) Sig) where
  -- `try_push` in `FeedSimulator::run`
  unfoldable pub feed_push : MarketTick D → Pipeline D Q1 Q2 Q3 Db Sig → Pipeline D Q1 Q2 Q3 Db Sig
  feed_push t p =
      let (done, q) = c1.try_push t p.parser.input in
      record p {
        parser = record p.parser { input = q };
        feed_at = if done then pushed else refused;
      }

  -- `try_pop` in `TickParser`, and what it makes of the tick
  unfoldable pub parser_pop : Pipeline D Q1 Q2 Q3 Db Sig → Pipeline D Q1 Q2 Q3 Db Sig
  parser_pop p =
      let (got, raw, q) = c1.try_pop blank_tick p.parser.input in
      let t = enrich raw in
      record p {
        parser = record p.parser { input = q };
        parser_at = if got then (if validate t then holding t else refused) else idle;
      }

  -- `try_push` in `TickParser`; the thread may try again if the buffer is full.
  unfoldable pub parser_push :
      MarketTick D → Pipeline D Q1 Q2 Q3 Db Sig → Pipeline D Q1 Q2 Q3 Db Sig
  parser_push t p =
      let (done, q) = c2.try_push t p.norm.input in
      record p {
        norm = record p.norm { input = q };
        parser_at = if done then pushed else holding t;
      }

  unfoldable pub norm_pop : Pipeline D Q1 Q2 Q3 Db Sig → Pipeline D Q1 Q2 Q3 Db Sig
  unfolding is_duplicate is_reordered update_state
  norm_pop p =
      let (got, t, q) = c2.try_pop blank_tick p.norm.input in
      let n = record p.norm { input = q } in
      let p1 = record p { norm = n } in
      if got
      then (if is_duplicate t n
          then record p1 { norm_at = refused }
          else if is_reordered t n
          then record p1 { norm_at = late }
          else record p1 { norm = update_state t n; norm_at = holding t })
      else p1

  unfoldable pub norm_push : MarketTick D → Pipeline D Q1 Q2 Q3 Db Sig → Pipeline D Q1 Q2 Q3 Db Sig
  norm_push t p =
      let (done, q) = c3.try_push t p.book.input in
      record p { book = record p.book { input = q }; norm_at = if done then pushed else holding t }

  unfoldable pub book_pop : Pipeline D Q1 Q2 Q3 Db Sig → Pipeline D Q1 Q2 Q3 Db Sig
  book_pop p =
      let (got, t, q) = c3.try_pop blank_tick p.book.input in
      record p { book = record p.book { input = q }; book_at = if got then holding t else idle }

  pub data Step (p : Pipeline D Q1 Q2 Q3 Db Sig) : Pipeline D Q1 Q2 Q3 Db Sig → Type 0 where
    feed_pushes : (t : MarketTick D) → p.feed_at ≡ idle → Step p (feed_push t p)
    feed_published :
        p.feed_at ≡ pushed
        → Step p (record p { ticks_published = add_word p.ticks_published 1; feed_at = idle })
    feed_dropped :
        p.feed_at ≡ refused
        → Step p (record p { ticks_dropped = add_word p.ticks_dropped 1; feed_at = idle })
    parser_pops : p.parser_at ≡ idle → Step p (parser_pop p)
    parser_pushes : (t : MarketTick D) → p.parser_at ≡ holding t → Step p (parser_push t p)
    parser_abandons :
        (t : MarketTick D) → p.parser_at ≡ holding t → Step p (record p { parser_at = idle })
    parser_processed :
        p.parser_at ≡ pushed
        → Step p (record p { parser = count_processed p.parser; parser_at = idle })
    parser_rejected :
        p.parser_at ≡ refused
        → Step p (record p { parser = count_rejected p.parser; parser_at = idle })
    norm_pops : p.norm_at ≡ idle → Step p (norm_pop p)
    norm_pushes : (t : MarketTick D) → p.norm_at ≡ holding t → Step p (norm_push t p)
    norm_abandons :
        (t : MarketTick D) → p.norm_at ≡ holding t → Step p (record p { norm_at = idle })
    norm_forwarded :
        p.norm_at ≡ pushed
        → Step p (record p {
          norm = record p.norm { ticks_forwarded = add_word p.norm.ticks_forwarded 1 };
          norm_at = idle;
        })
    norm_deduplicated :
        p.norm_at ≡ refused → Step p (record p { norm = count_duplicate p.norm; norm_at = idle })
    norm_reordered :
        p.norm_at ≡ late → Step p (record p { norm = count_reordered p.norm; norm_at = idle })
    book_pops : p.book_at ≡ idle → Step p (book_pop p)
    book_processes :
        (t : MarketTick D) (now0 now1 : ℕ)
        → p.book_at ≡ holding t
        → Step p (record p {
          book = Processor.process_tick c3 db sig now0 now1 t p.book;
          book_at = idle;
        })

  -- A number of steps.
  pub data Steps (p : Pipeline D Q1 Q2 Q3 Db Sig) : ℕ → Pipeline D Q1 Q2 Q3 Db Sig → Type 0 where
    here : Steps p 0 p
    then_step :
        {n : ℕ} {q r : Pipeline D Q1 Q2 Q3 Db Sig} → Steps p n q → Step q r → Steps p (suc n) r
