-- ===== src/Pipeline/Outcome.antt =====
-- What the stages make of the ticks that are put in, told of the log of a run.
use mathlib.Core.List.{append-nil}
use market_data_processor.Prelude.{◌≡◌, ap, subst, ◌∙◌, arith, true, List, [], ◌∷◌, ◌++◌, All}
use market_data_processor.Prelude.Merge.{Merge, Sub, Sub_of_append, Merge-All}
use market_data_processor.Double.{Double}
use market_data_processor.Tick.{MarketTick}
use market_data_processor.Parser.{validate}
use market_data_processor.Parser.Drain.{accepted_of, accepted_of-append}
use market_data_processor.Normalizer.{Normalizer}
use market_data_processor.Normalizer.History.{
  step, fresh_of, fresh_of-append, fresh_of-Monotone, Merge-Monotone, Monotone,
}
use market_data_processor.Prelude.Dict.{bytes_eq}
use market_data_processor.Pipeline.Flow.{Flow}
use market_data_processor.Pipeline.Link.{Link-Sub, Link-settled}
use market_data_processor.Pipeline.Log.{Log}

module _ {D : Type 0} ⦃d : Double D⦄ where
  accepted_of-valid : (ts : List (MarketTick D)) → All (λ t. validate t ≡ true) (accepted_of ts)
  unfolding accepted_of
  accepted_of-valid [] = tt
  accepted_of-valid (t ∷ ts) = ground (arith, accepted_of-valid ts)

  pub fresh_of-All :
      (P : MarketTick D → Type 0) (h ts : List (MarketTick D)) → All P ts → All P (fresh_of h ts)
  unfolding fresh_of
  fresh_of-All P h [] a = tt
  fresh_of-All P h (t ∷ ts) (a, more) = ground (arith, fresh_of-All P (step h t) ts more)

  -- What is applied, of what is put in, while ticks may be on their way: `passed` are the ticks that
  -- the parser has handed on.
  pub record Delivered (log : Log D) : Type 0 where
    pub passed : List (MarketTick D)
    pub accepted : Sub passed (accepted_of log.fed)
    pub fresh : Sub log.booked (fresh_of [] passed)
    pub valid : All (λ t. validate t ≡ true) log.booked
    pub monotone : Monotone log.booked

  -- The same when no tick is on its way.
  pub record Settled (log : Log D) : Type 0 where
    pub passed : List (MarketTick D)
    pub accepted : Merge passed log.parser_lost (accepted_of log.fed)
    pub fresh : Merge log.booked log.norm_lost (fresh_of [] passed)

  -- Whatever is on its way.
  pub Flow-Delivered :
      {In Out : Type 0} {log : Log D} {x1 h1 x2 h2 x3 h3 : List (MarketTick D)}
      {n : Normalizer D In Out}
      → Flow log x1 h1 x2 h2 x3 h3 n
      → Delivered log
  Flow-Delivered {log = log} {x1 = x1} {x2 = x2} {x3 = x3} {h3 = h3} f =
      let early = Link-Sub f.front _ (accepted_of-append f.parsed x1) in
      let (lost, m) = Link-Sub f.back _ (fresh_of-append [] f.sifted x2) in
      let (rest, k) =
        Sub_of_append log.booked (h3 ++ x3)
          (subst (λ l. Merge l lost (fresh_of [] f.passed)) f.queued m) in
      let ok = Merge-All (λ t. validate t ≡ true) early.1 (accepted_of-valid _) in
      record {
        passed = f.passed;
        accepted = early;
        fresh = (rest, k);
        valid =
            Merge-All (λ t. validate t ≡ true) k
              (fresh_of-All (λ t. validate t ≡ true) [] f.passed ok);
        monotone =
            Merge-Monotone k
              (fresh_of-Monotone [] [] f.passed (record { monotone = tt; covered = tt }));
      }

  pub Flow-Settled :
      {In Out : Type 0} {log : Log D} {x1 h1 x2 h2 x3 h3 : List (MarketTick D)}
      {n : Normalizer D In Out}
      → Flow log x1 h1 x2 h2 x3 h3 n
      → x1 ≡ []
      → h1 ≡ []
      → x2 ≡ []
      → h2 ≡ []
      → x3 ≡ []
      → h3 ≡ []
      → Settled log
  Flow-Settled {log = log} {x3 = x3} f a b c e g k =
      let all_booked : f.forwarded ≡ log.booked =
        f.queued ∙ ap (λ l. log.booked ++ l) (ap (λ l. l ++ x3) k ∙ g) ∙ append-nil log.booked in
      record {
        passed = f.passed;
        accepted = Link-settled f.front a b;
        fresh =
            subst (λ l. Merge l log.norm_lost (fresh_of [] f.passed)) all_booked
              (Link-settled f.back c e);
      }
