-- ===== src/Pipeline/Log.antt =====
-- What a run of the pipeline has done, as lists of ticks.
use market_data_processor.Prelude.{ℕ, List, [], ◌∷◌, ◌++◌, if◌then◌else◌}
use market_data_processor.Double.{Double}
use market_data_processor.Channel.{Channel}
use market_data_processor.Tick.{MarketTick, MarketSnapshot}
use market_data_processor.Pipeline.{
  Pipeline, Step, feed_pushes, parser_abandons, norm_abandons, book_processes, Steps, here,
  then_step,
}

-- What the threads have done: the ticks that the feed has put into its buffer, those that the parser
-- and the normalizer have given up at a stop, and those that the processor has applied. The oldest first.
pub record Log (D : Type 0) : Type 0 where
  pub fed : List (MarketTick D)
  pub parser_lost : List (MarketTick D)
  pub norm_lost : List (MarketTick D)
  pub booked : List (MarketTick D)

module _ {D : Type 0} ⦃d : Double D⦄ {Q1 Q2 Q3 Db Sig : Type 0} (c1 : Channel (MarketTick D) Q1)
    (c2 : Channel (MarketTick D) Q2) (c3 : Channel (MarketTick D) Q3)
    (db : Channel (MarketSnapshot D) Db) (sig : Channel (MarketSnapshot D) Sig) where
  -- What a step adds to the log.
  abbrev pub record_step :
      {p q : Pipeline D Q1 Q2 Q3 Db Sig} → Step c1 c2 c3 db sig p q → Log D → Log D
  record_step {p = p} (feed_pushes t e) l = record l {
    fed = l.fed ++ (if (c1.try_push t p.parser.input).0 then t ∷ [] else []);
  }
  record_step (parser_abandons t e) l = record l { parser_lost = l.parser_lost ++ (t ∷ []) }
  record_step (norm_abandons t e) l = record l { norm_lost = l.norm_lost ++ (t ∷ []) }
  record_step (book_processes t now0 now1 e) l = record l { booked = l.booked ++ (t ∷ []) }
  record_step _ l = l

  abbrev pub log_of :
      {p : Pipeline D Q1 Q2 Q3 Db Sig} {n : ℕ} {q : Pipeline D Q1 Q2 Q3 Db Sig}
      → Steps c1 c2 c3 db sig p n q
      → Log D
  log_of here = record { fed = []; parser_lost = []; norm_lost = []; booked = [] }
  log_of (then_step before last) = record_step last (log_of before)
