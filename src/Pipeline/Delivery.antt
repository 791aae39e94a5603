-- ===== src/Pipeline/Delivery.antt =====
-- What arrives at `BookProcessor` of the ticks that `FeedSimulator` has put into the pipeline.
use market_data_processor.Prelude.{ℕ, ◌≡◌, refl, sym, ap, ◌∙◌, []}
use market_data_processor.Prelude.Merge.{nil, Merge-only}
use market_data_processor.Double.{Double}
use market_data_processor.Channel.{Channel, IsFifo}
use market_data_processor.Tick.{MarketTick, MarketSnapshot}
use market_data_processor.Parser.{count_processed, count_rejected}
use market_data_processor.Parser.Drain.{accepted_of}
use market_data_processor.Normalizer.History.{sift, fresh_of}
use market_data_processor.Normalizer.State.{Represents}
use market_data_processor.Prelude.Dict.{find, bytes_eq}
use market_data_processor.Pipeline.{
  idle, Pipeline, Step, feed_pushes, feed_published, feed_dropped, parser_pops, parser_pushes,
  parser_abandons, parser_processed, parser_rejected, norm_pops, norm_pushes, norm_abandons,
  norm_forwarded, norm_deduplicated, norm_reordered, book_pops, book_processes, Steps, here,
  then_step,
}
use market_data_processor.Pipeline.Trace.{
  in_hand, Traced, feed_push-Traced, parser_pop-Traced, parser_push-Traced, book_pop-Traced,
  book_processes-Traced, parser_abandons-Traced, norm_abandons-Traced, counts-Traced,
}
use market_data_processor.Pipeline.Trace.Norm.{norm_pop-Traced, norm_push-Traced}
use market_data_processor.Pipeline.Accounts.{IsFresh}
use market_data_processor.Pipeline.Flow.{Flow, Flow-at}
use market_data_processor.Pipeline.Log.{Log, record_step, log_of}
use market_data_processor.Pipeline.Outcome.{Delivered, Settled, Flow-Delivered, Flow-Settled}

module _ {D : Type 0} ⦃d : Double D⦄ {Q1 Q2 Q3 Db Sig : Type 0} (c1 : Channel (MarketTick D) Q1)
    (c2 : Channel (MarketTick D) Q2) (c3 : Channel (MarketTick D) Q3)
    (db : Channel (MarketSnapshot D) Db) (sig : Channel (MarketSnapshot D) Sig) {V1 : Q1 → Type 0}
    {V2 : Q2 → Type 0} {V3 : Q3 → Type 0} (f1 : IsFifo c1 V1) (f2 : IsFifo c2 V2)
    (f3 : IsFifo c3 V3) where
  Step-Traced :
      (log : Log D) {p q : Pipeline D Q1 Q2 Q3 Db Sig} (s : Step c1 c2 c3 db sig p q)
      → Traced c1 c2 c3 db sig f1 f2 f3 log p
      → Traced c1 c2 c3 db sig f1 f2 f3 (record_step c1 c2 c3 db sig s log) q
  unfolding count_processed count_rejected
  Step-Traced log {p} (feed_pushes t e) h = feed_push-Traced c1 c2 c3 db sig f1 f2 f3 log t p h
  Step-Traced log {p} (feed_published e) h =
      counts-Traced c1 c2 c3 db sig f1 f2 f3 log p _ refl refl refl refl refl refl refl refl h
  Step-Traced log {p} (feed_dropped e) h =
      counts-Traced c1 c2 c3 db sig f1 f2 f3 log p _ refl refl refl refl refl refl refl refl h
  Step-Traced log {p} (parser_pops e) h = parser_pop-Traced c1 c2 c3 db sig f1 f2 f3 log p e h
  Step-Traced log {p} (parser_pushes t e) h =
      parser_push-Traced c1 c2 c3 db sig f1 f2 f3 log t p e h
  Step-Traced log {p} (parser_abandons t e) h =
      parser_abandons-Traced c1 c2 c3 db sig f1 f2 f3 log t p e h
  Step-Traced log {p} (parser_processed e) h =
      counts-Traced c1 c2 c3 db sig f1 f2 f3 log p _ refl refl refl (ap in_hand e) refl refl refl
        refl h
  Step-Traced log {p} (parser_rejected e) h =
      counts-Traced c1 c2 c3 db sig f1 f2 f3 log p _ refl refl refl (ap in_hand e) refl refl refl
        refl h
  Step-Traced log {p} (norm_pops e) h = norm_pop-Traced c1 c2 c3 db sig f1 f2 f3 log p e h
  Step-Traced log {p} (norm_pushes t e) h = norm_push-Traced c1 c2 c3 db sig f1 f2 f3 log t p e h
  Step-Traced log {p} (norm_abandons t e) h =
      norm_abandons-Traced c1 c2 c3 db sig f1 f2 f3 log t p e h
  Step-Traced log {p} (norm_forwarded e) h =
      counts-Traced c1 c2 c3 db sig f1 f2 f3 log p _ refl refl refl refl (ap in_hand e) refl refl
        refl h
  Step-Traced log {p} (norm_deduplicated e) h =
      counts-Traced c1 c2 c3 db sig f1 f2 f3 log p _ refl refl refl refl (ap in_hand e) refl refl
        refl h
  Step-Traced log {p} (norm_reordered e) h =
      counts-Traced c1 c2 c3 db sig f1 f2 f3 log p _ refl refl refl refl (ap in_hand e) refl refl
        refl h
  Step-Traced log {p} (book_pops e) h = book_pop-Traced c1 c2 c3 db sig f1 f2 f3 log p e h
  Step-Traced log {p} (book_processes t now0 now1 e) h =
      book_processes-Traced c1 c2 c3 db sig f1 f2 f3 log t now0 now1 p e h

  -- A pipeline at its start: nothing is in it, and the normalizer has seen no tick.
  pub record IsNew (p : Pipeline D Q1 Q2 Q3 Db Sig) : Type 0 where
    pub fresh : IsFresh c1 c2 c3 db sig f1 f2 f3 p
    pub feed_idle : p.feed_at ≡ idle
    pub no_ticks : p.norm.last_tick ≡ []
    pub no_times : p.norm.last_timestamp ≡ []

  IsNew-Traced :
      (p : Pipeline D Q1 Q2 Q3 Db Sig)
      → IsNew p
      → Traced c1 c2 c3 db sig f1 f2 f3 (log_of c1 c2 c3 db sig {p = p} here) p
  unfolding sift accepted_of fresh_of
  IsNew-Traced p new =
      let still : Represents [] p.norm = record {
        ticks_at = λ key. ap (λ m. find key m) new.no_ticks;
        times_at = λ key. ap (λ m. find key m) new.no_times;
      } in
      let at_rest : Flow (log_of c1 c2 c3 db sig {p = p} here) [] [] [] [] [] [] p.norm = record {
        passed = [];
        parsed = [];
        front = record { queued = refl; selected = []; has = refl; split = nil };
        forwarded = [];
        sifted = [];
        back = record { queued = refl; selected = []; has = refl; split = nil };
        represents = still;
        queued = refl;
      } in
      record {
        valid1 = new.fresh.valid1;
        valid2 = new.fresh.valid2;
        valid3 = new.fresh.valid3;
        flow =
            Flow-at at_rest (sym new.fresh.empty1) (sym (ap in_hand new.fresh.parser_idle))
              (sym new.fresh.empty2) (sym (ap in_hand new.fresh.norm_idle)) (sym new.fresh.empty3)
              (sym (ap in_hand new.fresh.book_idle));
      }

  Steps-Traced :
      {p : Pipeline D Q1 Q2 Q3 Db Sig} {n : ℕ} {q : Pipeline D Q1 Q2 Q3 Db Sig}
      → IsNew p
      → (steps : Steps c1 c2 c3 db sig p n q)
      → Traced c1 c2 c3 db sig f1 f2 f3 (log_of c1 c2 c3 db sig steps) q
  Steps-Traced {p = p} new here = IsNew-Traced p new
  Steps-Traced new (then_step before last) =
      Step-Traced (log_of c1 c2 c3 db sig before) last (Steps-Traced new before)

  -- No thread has a tick, and the three buffers are empty.
  pub record IsDrained (p : Pipeline D Q1 Q2 Q3 Db Sig) : Type 0 where
    pub parser_free : in_hand p.parser_at ≡ []
    pub norm_free : in_hand p.norm_at ≡ []
    pub book_free : in_hand p.book_at ≡ []
    pub empty1 : c1.contents p.parser.input ≡ []
    pub empty2 : c2.contents p.norm.input ≡ []
    pub empty3 : c3.contents p.book.input ≡ []

  -- In every state that the threads reach from a new pipeline, in whatever order they interleave: the
  -- ticks that the processor has applied are among those that the parser has handed on and that a
  -- normalizer which sees these would let through, in this order; those that the parser has handed on
  -- are among the ticks of the feed that its checks accept, enriched, in the feed's order; every applied
  -- tick passes the checks; and the times of the applied ticks of one symbol do not fall.
  pub Steps-Delivered :
      {p : Pipeline D Q1 Q2 Q3 Db Sig} {n : ℕ} {q : Pipeline D Q1 Q2 Q3 Db Sig}
      → IsNew p
      → (steps : Steps c1 c2 c3 db sig p n q) → Delivered (log_of c1 c2 c3 db sig steps)
  Steps-Delivered new steps = Flow-Delivered (Steps-Traced new steps).flow

  -- In every state that the threads reach from a new pipeline and in which no thread has a tick and the
  -- buffers are empty, every tick is accounted for: those of the feed that the parser's checks accept,
  -- enriched, are those that the parser has handed on and those that it has given up at a stop, each in
  -- order; and those handed on that the normalizer lets through are those that the processor has applied
  -- and those that the normalizer has given up at a stop, each in order.
  pub Steps-Settled :
      {p : Pipeline D Q1 Q2 Q3 Db Sig} {n : ℕ} {q : Pipeline D Q1 Q2 Q3 Db Sig}
      → IsNew p
      → (steps : Steps c1 c2 c3 db sig p n q) → IsDrained q
      → Settled (log_of c1 c2 c3 db sig steps)
  Steps-Settled new steps r =
      Flow-Settled (Steps-Traced new steps).flow r.empty1 r.parser_free r.empty2 r.norm_free
        r.empty3 r.book_free

  -- In every state that the threads reach from a new pipeline, in which no thread has a tick, the buffers
  -- are empty and no thread has given up a tick, the processor has applied exactly the ticks that the
  -- normalizer lets through of those of the feed that the parser's checks accept, enriched, in the
  -- feed's order: however the threads interleave, they compute the composition of the stages.
  pub booked_without_loss :
      {p : Pipeline D Q1 Q2 Q3 Db Sig} {n : ℕ} {q : Pipeline D Q1 Q2 Q3 Db Sig}
      → IsNew p
      → (steps : Steps c1 c2 c3 db sig p n q) → IsDrained q
      → (log_of c1 c2 c3 db sig steps).parser_lost ≡ []
      → (log_of c1 c2 c3 db sig steps).norm_lost ≡ []
      → (log_of c1 c2 c3 db sig steps).booked
        ≡ fresh_of [] (accepted_of (log_of c1 c2 c3 db sig steps).fed)
  booked_without_loss new steps r a b =
      let all = Steps-Settled new steps r in
      Merge-only all.fresh b ∙ ap (fresh_of []) (Merge-only all.accepted a)
