-- ===== src/Pipeline/Layout.antt =====
-- The ticks of the pipeline as values of the C++ type `MarketTick`.
use market_data_processor.Prelude.{ℕ, arith, List, [], ◌∷◌, All}
use market_data_processor.Prelude.Merge.{Merge-All}
use market_data_processor.Double.{Double}
use market_data_processor.Channel.{Channel, IsFifo}
use market_data_processor.Tick.{MarketTick, MarketSnapshot}
use market_data_processor.Tick.Layout.{HasLayout}
use market_data_processor.Parser.Drain.{accepted_of}
use market_data_processor.Parser.Layout.{IsEnriched, enrich-IsEnriched}
use market_data_processor.Pipeline.{Pipeline, Steps}
use market_data_processor.Pipeline.Outcome.{fresh_of-All}
use market_data_processor.Pipeline.Log.{log_of}
use market_data_processor.Pipeline.Delivery.{IsNew, Steps-Delivered}

module _ {D : Type 0} ⦃d : Double D⦄ where
  accepted_of-IsEnriched :
      (ts : List (MarketTick D)) → All HasLayout ts → All IsEnriched (accepted_of ts)
  unfolding accepted_of
  accepted_of-IsEnriched [] h = tt
  accepted_of-IsEnriched (t ∷ ts) (h, hs) =
      ground (arith, enrich-IsEnriched t h, accepted_of-IsEnriched ts hs)

module _ {D : Type 0} ⦃d : Double D⦄ {Q1 Q2 Q3 Db Sig : Type 0} (c1 : Channel (MarketTick D) Q1)
    (c2 : Channel (MarketTick D) Q2) (c3 : Channel (MarketTick D) Q3)
    (db : Channel (MarketSnapshot D) Db) (sig : Channel (MarketSnapshot D) Sig) {V1 : Q1 → Type 0}
    {V2 : Q2 → Type 0} {V3 : Q3 → Type 0} (f1 : IsFifo c1 V1) (f2 : IsFifo c2 V2)
    (f3 : IsFifo c3 V3) where
  -- If the feed puts in only ticks whose members are values of their C++ types (a symbol of 8 bytes, a
  -- time of 64 bits, a side and padding of bytes), then in every state that the threads reach from a
  -- new pipeline all ticks that the processor has applied are such values too, and moreover their
  -- symbols end with a NUL and their sides are at most 2, whatever the feed has put there.
  pub Steps-IsEnriched :
      {p : Pipeline D Q1 Q2 Q3 Db Sig} {n : ℕ} {q : Pipeline D Q1 Q2 Q3 Db Sig}
      → IsNew c1 c2 c3 db sig f1 f2 f3 p
      → (steps : Steps c1 c2 c3 db sig p n q) → All HasLayout (log_of c1 c2 c3 db sig steps).fed
      → All IsEnriched (log_of c1 c2 c3 db sig steps).booked
  Steps-IsEnriched new steps laid =
      let all = Steps-Delivered c1 c2 c3 db sig f1 f2 f3 new steps in
      let handed_on = Merge-All IsEnriched all.accepted.1 (accepted_of-IsEnriched _ laid) in
      Merge-All IsEnriched all.fresh.1 (fresh_of-All IsEnriched [] all.passed handed_on)
