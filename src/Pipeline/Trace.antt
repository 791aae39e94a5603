-- ===== src/Pipeline/Trace.antt =====
-- Which ticks pass through the pipeline, and in which order: the steps of the feed, the parser and the
-- processor.
pub mod Norm
use mathlib.Core.List.{append-nil, append_assoc}
use market_data_processor.Prelude.{
  ℕ, suc, ◌≡◌, inl, inr, refl, sym, ap, subst, ◌∙◌, arith, Bool, true, false, List, [], ◌∷◌, ◌++◌,
  if◌then◌else◌, Bool-cases,
}
use market_data_processor.Prelude.Merge.{Merge, Merge-append, Merge-left, Merge-right, nil}
use market_data_processor.Double.{Double}
use market_data_processor.Channel.{Channel, IsFifo, pop_none, pop_some, contents-try_push}
use market_data_processor.Processor
use market_data_processor.Pipeline.Accounts.{process_tick-counts}
use market_data_processor.Tick.{MarketTick, MarketSnapshot, blank_tick}
use market_data_processor.Parser.{validate, enrich, count_processed, count_rejected}
use market_data_processor.Parser.Drain.{accepted_of, accepted_of-append}
use market_data_processor.Normalizer.{Normalizer, is_duplicate, is_reordered, update_state}
use market_data_processor.Normalizer.History.{
  admits, repeats, late, step, sift, fresh_of, fresh_of-append, sift-append,
}
use market_data_processor.Normalizer.State.{
  Represents, is_duplicate_lem, is_reordered_lem, update_state-Represents,
}
use market_data_processor.Pipeline.{
  At, idle, holding, pushed, refused, Pipeline, feed_push, parser_pop, parser_push, norm_pop,
  norm_push, book_pop, Step, feed_pushes, feed_published, feed_dropped, parser_pops, parser_pushes,
  parser_abandons, parser_processed, parser_rejected, norm_pops, norm_pushes, norm_abandons,
  norm_forwarded, norm_deduplicated, norm_reordered, book_pops, book_processes, Steps, here,
  then_step,
}
use market_data_processor.Pipeline.Log.{Log}
use market_data_processor.Pipeline.Flow.{
  Flow-book_pop, Flow-book_apply, Flow-parser_lose, Flow-norm_lose, Flow, Flow-feed,
  Flow-parser_pop, Flow-parser_put, Flow-norm_pop, Flow-norm_put, Flow-norm, Flow-at,
  Flow-norm_stale, Flow-norm_fresh,
}

module _ {D : Type 0} ⦃d : Double D⦄ where
  abbrev pub in_hand : At D → List (MarketTick D)
  in_hand (holding t) = t ∷ []
  in_hand _ = []

  in_hand-if :
      (b : Bool) (t : MarketTick D)
      → in_hand (if b then holding t else refused) ≡ (if b then t ∷ [] else [])
  in_hand-if true t = refl
  in_hand-if false t = refl

module _ {D : Type 0} ⦃d : Double D⦄ {Q1 Q2 Q3 Db Sig : Type 0} (c1 : Channel (MarketTick D) Q1)
    (c2 : Channel (MarketTick D) Q2) (c3 : Channel (MarketTick D) Q3)
    (db : Channel (MarketSnapshot D) Db) (sig : Channel (MarketSnapshot D) Sig) where
  module _ {V1 : Q1 → Type 0} {V2 : Q2 → Type 0} {V3 : Q3 → Type 0} (f1 : IsFifo c1 V1)
      (f2 : IsFifo c2 V2) (f3 : IsFifo c3 V3) where
    -- The buffers are valid, and the ticks are accounted for.
    pub record Traced (log : Log D) (p : Pipeline D Q1 Q2 Q3 Db Sig) : Type 0 where
      pub valid1 : V1 p.parser.input
      pub valid2 : V2 p.norm.input
      pub valid3 : V3 p.book.input
      pub flow :
          Flow log
            (c1.contents p.parser.input)
            (in_hand p.parser_at)
            (c2.contents p.norm.input)
            (in_hand p.norm_at)
            (c3.contents p.book.input)
            (in_hand p.book_at)
            p.norm

    pub feed_push-Traced :
        (log : Log D) (t : MarketTick D) (p : Pipeline D Q1 Q2 Q3 Db Sig)
        → Traced log p
        → Traced
            (record log {
              fed = log.fed ++ (if (c1.try_push t p.parser.input).0 then t ∷ [] else []);
            })
            (feed_push c1 c2 c3 db sig t p)
    unfolding feed_push
    feed_push-Traced log t p h =
        let new = if (c1.try_push t p.parser.input).0 then t ∷ [] else [] in
        record {
          valid1 = f1.push-Valid t p.parser.input h.valid1;
          valid2 = h.valid2;
          valid3 = h.valid3;
          flow = rw (contents-try_push c1 f1 t p.parser.input h.valid1 t) (Flow-feed h.flow new);
        }

    pub parser_pop-Traced :
        (log : Log D) (p : Pipeline D Q1 Q2 Q3 Db Sig)
        → p.parser_at ≡ idle
        → Traced log p
        → Traced log (parser_pop c1 c2 c3 db sig p)
    unfolding parser_pop
    parser_pop-Traced log p at h =
        let q = p.parser.input in
        let raw = (c1.try_pop blank_tick q).1 in
        let rest = (c1.try_pop blank_tick q).2 in
        let free : in_hand p.parser_at ≡ [] = ap in_hand at in
        record {
          valid1 = f1.pop-Valid blank_tick q h.valid1;
          valid2 = h.valid2;
          valid3 = h.valid3;
          flow = elim (Bool-cases (c1.try_pop blank_tick q).0) [
            | inl one ↦
                let first = pop_some c1 f1 blank_tick q h.valid1 one in
                rw one (
                  Flow-at (Flow-parser_pop h.flow raw (c1.contents rest) first free) refl
                    (sym (in_hand-if (validate (enrich raw)) (enrich raw))) refl refl refl refl)
            | inr nothing ↦
                let (empty, still) = pop_none c1 f1 blank_tick q h.valid1 nothing in
                rw nothing (Flow-at h.flow (empty ∙ sym still) free refl refl refl refl)
          ];
        }

    parser_put-Flow :
        {log : Log D} {x1 h1 x2 h2 x3 h3 y2 : List (MarketTick D)} {n : Normalizer D Q2 (Unit {0})}
        {t : MarketTick D} (done : Bool)
        → Flow log x1 h1 x2 h2 x3 h3 n
        → h1 ≡ t ∷ []
        → y2 ≡ x2 ++ (if done then t ∷ [] else [])
        → Flow log x1 (in_hand (if done then pushed else holding t)) y2 h2 x3 h3 n
    parser_put-Flow {t = t} true f has put =
        Flow-at (Flow-parser_put f t has) refl refl (sym put) refl refl refl
    parser_put-Flow {x2 = x2} false f has put =
        Flow-at f refl has (sym (put ∙ append-nil x2)) refl refl refl

    pub parser_push-Traced :
        (log : Log D) (t : MarketTick D) (p : Pipeline D Q1 Q2 Q3 Db Sig)
        → p.parser_at ≡ holding t
        → Traced log p
        → Traced log (parser_push c1 c2 c3 db sig t p)
    unfolding parser_push
    parser_push-Traced log t p at h =
        let q = p.norm.input in
        let put = contents-try_push c2 f2 t q h.valid2 t in
        let has : in_hand p.parser_at ≡ t ∷ [] = ap in_hand at in
        let m = record p.norm { input = (c2.try_push t q).1 } in
        record {
          valid1 = h.valid1;
          valid2 = f2.push-Valid t q h.valid2;
          valid3 = h.valid3;
          flow = Flow-norm (parser_put-Flow (c2.try_push t q).0 h.flow has put) m refl refl;
        }

    pub book_pop-Traced :
        (log : Log D) (p : Pipeline D Q1 Q2 Q3 Db Sig)
        → p.book_at ≡ idle
        → Traced log p
        → Traced log (book_pop c1 c2 c3 db sig p)
    unfolding book_pop
    book_pop-Traced log p at h =
        let q = p.book.input in
        let t = (c3.try_pop blank_tick q).1 in
        let rest = c3.contents (c3.try_pop blank_tick q).2 in
        let free = ap (λ a. in_hand a ++ c3.contents q) at in
        record {
          valid1 = h.valid1;
          valid2 = h.valid2;
          valid3 = f3.pop-Valid blank_tick q h.valid3;
          flow = elim (Bool-cases (c3.try_pop blank_tick q).0) [
            | inl one ↦
                let first = pop_some c3 f3 blank_tick q h.valid3 one in
                rw one (Flow-book_pop h.flow rest (t ∷ []) (free ∙ first))
            | inr nothing ↦
                let (empty, still) = pop_none c3 f3 blank_tick q h.valid3 nothing in
                rw nothing (Flow-book_pop h.flow rest [] (free ∙ empty ∙ sym still))
          ];
        }

    pub book_processes-Traced :
        (log : Log D) (t : MarketTick D) (now0 now1 : ℕ) (p : Pipeline D Q1 Q2 Q3 Db Sig)
        → p.book_at ≡ holding t
        → Traced log p
        → Traced
            (record log { booked = log.booked ++ (t ∷ []) })
            (record p {
              book = Processor.process_tick c3 db sig now0 now1 t p.book;
              book_at = idle;
            })
    book_processes-Traced log t now0 now1 p at h =
        let kept = sym (process_tick-counts c1 c2 c3 db sig f1 f2 f3 now0 now1 t p.book).0 in
        record {
          valid1 = h.valid1;
          valid2 = h.valid2;
          valid3 = subst V3 kept h.valid3;
          flow =
              Flow-at (Flow-book_apply h.flow t (ap in_hand at)) refl refl refl refl
                (ap c3.contents kept) refl;
        }

    pub parser_abandons-Traced :
        (log : Log D) (t : MarketTick D) (p : Pipeline D Q1 Q2 Q3 Db Sig)
        → p.parser_at ≡ holding t
        → Traced log p
        → Traced
            (record log { parser_lost = log.parser_lost ++ (t ∷ []) })
            (record p { parser_at = idle })
    parser_abandons-Traced log t p at h = record {
      valid1 = h.valid1;
      valid2 = h.valid2;
      valid3 = h.valid3;
      flow = Flow-parser_lose h.flow t (ap in_hand at);
    }

    pub norm_abandons-Traced :
        (log : Log D) (t : MarketTick D) (p : Pipeline D Q1 Q2 Q3 Db Sig)
        → p.norm_at ≡ holding t
        → Traced log p
        → Traced
            (record log { norm_lost = log.norm_lost ++ (t ∷ []) })
            (record p { norm_at = idle })
    norm_abandons-Traced log t p at h = record {
      valid1 = h.valid1;
      valid2 = h.valid2;
      valid3 = h.valid3;
      flow = Flow-norm_lose h.flow t (ap in_hand at);
    }

    -- A step that only counts.
    pub counts-Traced :
        (log : Log D) (p q : Pipeline D Q1 Q2 Q3 Db Sig)
        → p.parser.input ≡ q.parser.input
        → p.norm.input ≡ q.norm.input
        → p.book.input ≡ q.book.input
        → in_hand p.parser_at ≡ in_hand q.parser_at
        → in_hand p.norm_at ≡ in_hand q.norm_at
        → in_hand p.book_at ≡ in_hand q.book_at
        → q.norm.last_tick ≡ p.norm.last_tick
        → q.norm.last_timestamp ≡ p.norm.last_timestamp
        → Traced log p
        → Traced log q
    counts-Traced log p q a b c x y z ticks times h = record {
      valid1 = subst V1 a h.valid1;
      valid2 = subst V2 b h.valid2;
      valid3 = subst V3 c h.valid3;
      flow =
          Flow-at (Flow-norm h.flow q.norm ticks times) (ap c1.contents a) x (ap c2.contents b) y
            (ap c3.contents c) z;
    }
