-- ===== src/Parser/Layout.antt =====
-- `TickParser::enrich` on the bytes of a tick.
use market_data_processor.Prelude.{
  ℕ, zero, suc, ◌≤◌, ◌<◌, ◌≡◌, ◌∙◌, arith, List, [], ◌∷◌, length-set, get_or, set, get_or-set_self,
}
use market_data_processor.Double.{Double}
use market_data_processor.Tick.{MarketTick}
use market_data_processor.Tick.Layout.{AreBytes, HasLayout}
use market_data_processor.Parser.{enrich}

AreBytes-set : (bytes : List ℕ) (i v : ℕ) → v < 256 → AreBytes bytes → AreBytes (set bytes i v)
AreBytes-set [] i v small h = tt
AreBytes-set (b ∷ bs) zero v small (h, hs) = (small, hs)
AreBytes-set (b ∷ bs) (suc i) v small (h, hs) = (h, AreBytes-set bs i v small hs)

-- A tick as the stages after the parser get it: its symbol ends with a NUL, and its side is one of the
-- three.
pub record IsEnriched {D : Type 0} (t : MarketTick D) : Type 0 where
  pub layout : HasLayout t
  pub terminated : get_or t.symbol 7 1 ≡ 0
  pub side_le : t.side ≤ 2

pub enrich-IsEnriched :
    {D : Type 0} ⦃d : Double D⦄ (t : MarketTick D) → HasLayout t → IsEnriched (enrich t)
unfolding enrich
enrich-IsEnriched t h = record {
  layout = record {
    symbol_length = length-set t.symbol 7 0 ∙ h.symbol_length;
    symbol_bytes = AreBytes-set t.symbol 7 0 (omega arith) h.symbol_bytes;
    time_range = h.time_range;
    side_lt = let small = h.side_lt in omega arith;
    pad_length = h.pad_length;
    pad_bytes = h.pad_bytes;
  };
  terminated = let long = h.symbol_length in get_or-set_self t.symbol 7 0 1 (omega arith);
  side_le = omega arith;
}
