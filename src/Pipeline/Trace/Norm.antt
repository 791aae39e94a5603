-- ===== src/Pipeline/Trace/Norm.antt =====
-- The same for the steps of the normalizer.
use mathlib.Core.List.{append-nil}
use market_data_processor.Prelude.{
  ◌≡◌, inl, inr, refl, sym, ap, ◌∙◌, arith, Bool, true, false, List, [], ◌∷◌, ◌++◌, if◌then◌else◌,
  Bool-cases,
}
use market_data_processor.Double.{Double}
use market_data_processor.Channel.{Channel, IsFifo, pop_none, pop_some, contents-try_push}
use market_data_processor.Tick.{MarketTick, MarketSnapshot, blank_tick}
use market_data_processor.Normalizer.{Normalizer, is_duplicate, is_reordered, update_state}
use market_data_processor.Normalizer.History.{admits, sift, sift-append}
use market_data_processor.Normalizer.State.{
  Represents, is_duplicate_lem, is_reordered_lem, update_state-Represents,
}
use market_data_processor.Pipeline.{idle, holding, pushed, Pipeline, norm_pop, norm_push}
use market_data_processor.Pipeline.Log.{Log}
use market_data_processor.Pipeline.Flow.{
  Flow, Flow-norm_put, Flow-norm, Flow-at, Flow-norm_stale, Flow-norm_fresh,
}
use market_data_processor.Pipeline.Trace.{in_hand, Traced}

module _ {D : Type 0} ⦃d : Double D⦄ {Q1 Q2 Q3 Db Sig : Type 0} (c1 : Channel (MarketTick D) Q1)
    (c2 : Channel (MarketTick D) Q2) (c3 : Channel (MarketTick D) Q3)
    (db : Channel (MarketSnapshot D) Db) (sig : Channel (MarketSnapshot D) Sig) {V1 : Q1 → Type 0}
    {V2 : Q2 → Type 0} {V3 : Q3 → Type 0} (f1 : IsFifo c1 V1) (f2 : IsFifo c2 V2)
    (f3 : IsFifo c3 V3) where
  norm_put-Flow :
      {log : Log D} {x1 h1 x2 h2 x3 h3 y3 : List (MarketTick D)} {n : Normalizer D Q2 (Unit {0})}
      {t : MarketTick D} (done : Bool)
      → Flow log x1 h1 x2 h2 x3 h3 n
      → h2 ≡ t ∷ []
      → y3 ≡ x3 ++ (if done then t ∷ [] else [])
      → Flow log x1 h1 x2 (in_hand (if done then pushed else holding t)) y3 h3 n
  norm_put-Flow {t = t} true f has put =
      Flow-at (Flow-norm_put f t has) refl refl refl refl (sym put) refl
  norm_put-Flow {x3 = x3} false f has put =
      Flow-at f refl refl refl has (sym (put ∙ append-nil x3)) refl

  pub norm_push-Traced :
      (log : Log D) (t : MarketTick D) (p : Pipeline D Q1 Q2 Q3 Db Sig)
      → p.norm_at ≡ holding t
      → Traced c1 c2 c3 db sig f1 f2 f3 log p
      → Traced c1 c2 c3 db sig f1 f2 f3 log (norm_push c1 c2 c3 db sig t p)
  unfolding norm_push
  norm_push-Traced log t p at h =
      let q = p.book.input in
      let put = contents-try_push c3 f3 t q h.valid3 t in
      let has : in_hand p.norm_at ≡ t ∷ [] = ap in_hand at in
      record {
        valid1 = h.valid1;
        valid2 = h.valid2;
        valid3 = f3.push-Valid t q h.valid3;
        flow = norm_put-Flow (c3.try_push t q).0 h.flow has put;
      }

  pub norm_pop-Traced :
      (log : Log D) (p : Pipeline D Q1 Q2 Q3 Db Sig)
      → p.norm_at ≡ idle
      → Traced c1 c2 c3 db sig f1 f2 f3 log p
      → Traced c1 c2 c3 db sig f1 f2 f3 log (norm_pop c1 c2 c3 db sig p)
  unfolding norm_pop
  norm_pop-Traced log p at h =
      let q = p.norm.input in
      let t = (c2.try_pop blank_tick q).1 in
      let rest = (c2.try_pop blank_tick q).2 in
      let free : in_hand p.norm_at ≡ [] = ap in_hand at in
      let n = record p.norm { input = rest } in
      let past = sift [] h.flow.sifted in
      let r : Represents past n = record {
        ticks_at = h.flow.represents.ticks_at;
        times_at = h.flow.represents.times_at;
      } in
      let more = sift-append [] h.flow.sifted (t ∷ []) in
      let dup = is_duplicate_lem past t n r in
      let old = is_reordered_lem past t n r in
      elim (Bool-cases (c2.try_pop blank_tick q).0) [
        | inl one ↦
            let first = pop_some c2 f2 blank_tick q h.valid2 one in
            elim (Bool-cases (is_duplicate t n)) [
              | inl again ↦
                  let stale : admits past t ≡ false = ground (arith, dup) in
                  rw (one, again)
                    (record {
                      valid1 = h.valid1;
                      valid2 = f2.pop-Valid blank_tick q h.valid2;
                      valid3 = h.valid3;
                      flow = Flow-norm_stale h.flow t (c2.contents rest) n first free stale r;
                    })
              | inr other ↦ elim (Bool-cases (is_reordered t n)) [
                | inl older ↦
                    let stale : admits past t ≡ false = ground (arith, dup, old) in
                    rw (one, other, older)
                      (record {
                        valid1 = h.valid1;
                        valid2 = f2.pop-Valid blank_tick q h.valid2;
                        valid3 = h.valid3;
                        flow = Flow-norm_stale h.flow t (c2.contents rest) n first free stale r;
                      })
                | inr newer ↦
                    let fresh : admits past t ≡ true = ground (arith, dup, old) in
                    rw (one, other, newer)
                      (record {
                        valid1 = h.valid1;
                        valid2 = f2.pop-Valid blank_tick q h.valid2;
                        valid3 = h.valid3;
                        flow =
                            Flow-norm_fresh h.flow t (c2.contents rest) (update_state t n) first
                              free fresh (update_state-Represents past t n r);
                      })
              ]
            ]
        | inr nothing ↦
            let (empty, still) = pop_none c2 f2 blank_tick q h.valid2 nothing in
            rw nothing (record {
              valid1 = h.valid1;
              valid2 = f2.pop-Valid blank_tick q h.valid2;
              valid3 = h.valid3;
              flow =
                  Flow-at (Flow-norm h.flow n refl refl) refl refl (empty ∙ sym still) refl refl
                    refl;
            })
      ]
