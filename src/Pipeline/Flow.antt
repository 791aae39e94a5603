-- ===== src/Pipeline/Flow.antt =====
-- Where the ticks of a pipeline are, as lists: what a step of each stage does to them.
use mathlib.Core.List.{append_assoc}
use market_data_processor.Prelude.{
  ◌≡◌, refl, sym, ap, subst, ◌∙◌, arith, Bool, true, false, List, [], ◌∷◌, ◌++◌, if◌then◌else◌,
}
use market_data_processor.Double.{Double}
use market_data_processor.Tick.{MarketTick}
use market_data_processor.Parser.{validate, enrich}
use market_data_processor.Parser.Drain.{accepted_of, accepted_of-append}
use market_data_processor.Normalizer.{Normalizer}
use market_data_processor.Normalizer.History.{
  admits, step, sift, sift-append, fresh_of, fresh_of-append,
}
use market_data_processor.Normalizer.State.{Represents}
use market_data_processor.Pipeline.Log.{Log}
use market_data_processor.Pipeline.Link.{Link, Link-feed, Link-pop, Link-put, Link-lose}

module _ {D : Type 0} ⦃d : Double D⦄ {In Out : Type 0} where
  -- The parser, the normalizer and the processor one behind the other, with what their threads have done.
  pub record Flow (log : Log D) (x1 h1 x2 h2 x3 h3 : List (MarketTick D)) (n : Normalizer D In Out)
      : Type 0 where
    pub passed : List (MarketTick D)
    pub parsed : List (MarketTick D)
    pub front : Link accepted_of parsed log.fed x1 h1 passed log.parser_lost
    pub forwarded : List (MarketTick D)
    pub sifted : List (MarketTick D)
    pub back : Link (fresh_of []) sifted passed x2 h2 forwarded log.norm_lost
    pub represents : Represents (sift [] sifted) n
    pub queued : forwarded ≡ log.booked ++ (h3 ++ x3)

  module _ {log : Log D} {x1 h1 x2 h2 x3 h3 : List (MarketTick D)} {n : Normalizer D In Out}
      (f : Flow log x1 h1 x2 h2 x3 h3 n) where
    pub Flow-feed :
        (new : List (MarketTick D))
        → Flow (record log { fed = log.fed ++ new }) (x1 ++ new) h1 x2 h2 x3 h3 n
    Flow-feed new = record {
      passed = f.passed;
      parsed = f.parsed;
      front = Link-feed f.front new;
      forwarded = f.forwarded;
      sifted = f.sifted;
      back = f.back;
      represents = f.represents;
      queued = f.queued;
    }

    pub Flow-parser_pop :
        (raw : MarketTick D) (rest : List (MarketTick D))
        → x1 ≡ raw ∷ rest
        → h1 ≡ []
        → Flow log rest (if validate (enrich raw) then enrich raw ∷ [] else []) x2 h2 x3 h3 n
    unfolding accepted_of
    Flow-parser_pop raw rest first free = record {
      passed = f.passed;
      parsed = f.parsed ++ (raw ∷ []);
      front = Link-pop f.front raw rest _ first free (accepted_of-append f.parsed (raw ∷ []));
      forwarded = f.forwarded;
      sifted = f.sifted;
      back = f.back;
      represents = f.represents;
      queued = f.queued;
    }

    pub Flow-parser_put :
        (t : MarketTick D) → h1 ≡ t ∷ [] → Flow log x1 [] (x2 ++ (t ∷ [])) h2 x3 h3 n
    Flow-parser_put t holds = record {
      passed = f.passed ++ (t ∷ []);
      parsed = f.parsed;
      front = Link-put f.front t holds;
      forwarded = f.forwarded;
      sifted = f.sifted;
      back = Link-feed f.back (t ∷ []);
      represents = f.represents;
      queued = f.queued;
    }

    pub Flow-parser_lose :
        (t : MarketTick D)
        → h1 ≡ t ∷ []
        → Flow (record log { parser_lost = log.parser_lost ++ (t ∷ []) }) x1 [] x2 h2 x3 h3 n
    Flow-parser_lose t holds = record {
      passed = f.passed;
      parsed = f.parsed;
      front = Link-lose f.front t holds;
      forwarded = f.forwarded;
      sifted = f.sifted;
      back = f.back;
      represents = f.represents;
      queued = f.queued;
    }

    -- The normalizer keeps a tick in hand if the ticks before it admit it.
    pub Flow-norm_pop :
        (t : MarketTick D) (rest : List (MarketTick D)) (m : Normalizer D In Out)
        → x2 ≡ t ∷ rest
        → h2 ≡ []
        → Represents (sift [] (f.sifted ++ (t ∷ []))) m
        → Flow log x1 h1 rest (if admits (sift [] f.sifted) t then t ∷ [] else []) x3 h3 m
    unfolding fresh_of
    Flow-norm_pop t rest m first free r = record {
      passed = f.passed;
      parsed = f.parsed;
      front = f.front;
      forwarded = f.forwarded;
      sifted = f.sifted ++ (t ∷ []);
      back = Link-pop f.back t rest _ first free (fresh_of-append [] f.sifted (t ∷ []));
      represents = r;
      queued = f.queued;
    }

    pub Flow-norm_put :
        (t : MarketTick D) → h2 ≡ t ∷ [] → Flow log x1 h1 x2 [] (x3 ++ (t ∷ [])) h3 n
    Flow-norm_put t holds = record {
      passed = f.passed;
      parsed = f.parsed;
      front = f.front;
      forwarded = f.forwarded ++ (t ∷ []);
      sifted = f.sifted;
      back = Link-put f.back t holds;
      represents = f.represents;
      queued =
          ap (λ l. l ++ (t ∷ [])) f.queued
          ∙ append_assoc log.booked (h3 ++ x3) (t ∷ [])
          ∙ ap (λ l. log.booked ++ l) (append_assoc h3 x3 (t ∷ []));
    }

    pub Flow-norm_lose :
        (t : MarketTick D)
        → h2 ≡ t ∷ []
        → Flow (record log { norm_lost = log.norm_lost ++ (t ∷ []) }) x1 h1 x2 [] x3 h3 n
    Flow-norm_lose t holds = record {
      passed = f.passed;
      parsed = f.parsed;
      front = f.front;
      forwarded = f.forwarded;
      sifted = f.sifted;
      back = Link-lose f.back t holds;
      represents = f.represents;
      queued = f.queued;
    }

    -- The processor takes a tick into its hands.
    pub Flow-book_pop :
        (y3 k3 : List (MarketTick D)) → h3 ++ x3 ≡ k3 ++ y3 → Flow log x1 h1 x2 h2 y3 k3 n
    Flow-book_pop y3 k3 same = record {
      passed = f.passed;
      parsed = f.parsed;
      front = f.front;
      forwarded = f.forwarded;
      sifted = f.sifted;
      back = f.back;
      represents = f.represents;
      queued = f.queued ∙ ap (λ l. log.booked ++ l) same;
    }

    -- It applies the one in its hands.
    pub Flow-book_apply :
        (t : MarketTick D)
        → h3 ≡ t ∷ []
        → Flow (record log { booked = log.booked ++ (t ∷ []) }) x1 h1 x2 h2 x3 [] n
    Flow-book_apply t holds = record {
      passed = f.passed;
      parsed = f.parsed;
      front = f.front;
      forwarded = f.forwarded;
      sifted = f.sifted;
      back = f.back;
      represents = f.represents;
      queued =
          f.queued
          ∙ ap (λ h. log.booked ++ (h ++ x3)) holds
          ∙ sym (append_assoc log.booked (t ∷ []) x3);
    }

    -- The same with another record of the normalizer that has the same maps.
    pub Flow-norm :
        (m : Normalizer D In Out)
        → m.last_tick ≡ n.last_tick
        → m.last_timestamp ≡ n.last_timestamp
        → Flow log x1 h1 x2 h2 x3 h3 m
    Flow-norm m ticks times = record {
      passed = f.passed;
      parsed = f.parsed;
      front = f.front;
      forwarded = f.forwarded;
      sifted = f.sifted;
      back = f.back;
      represents = record {
        ticks_at = λ key. rw ticks (f.represents.ticks_at key);
        times_at = λ key. rw times (f.represents.times_at key);
      };
      queued = f.queued;
    }

    -- The same with equal lists.
    pub Flow-at :
        {y1 k1 y2 k2 y3 k3 : List (MarketTick D)}
        → x1 ≡ y1
        → h1 ≡ k1
        → x2 ≡ y2
        → h2 ≡ k2
        → x3 ≡ y3
        → h3 ≡ k3
        → Flow log y1 k1 y2 k2 y3 k3 n
    Flow-at {k1 = k1} {k2 = k2} {k3 = k3} a b c e g k = record {
      passed = f.passed;
      parsed = f.parsed;
      front =
          subst (λ x. Link accepted_of f.parsed log.fed x k1 f.passed log.parser_lost) a
            (subst (λ h. Link accepted_of f.parsed log.fed x1 h f.passed log.parser_lost) b
              f.front);
      forwarded = f.forwarded;
      sifted = f.sifted;
      back =
          subst (λ x. Link (fresh_of []) f.sifted f.passed x k2 f.forwarded log.norm_lost) c
            (subst (λ h. Link (fresh_of []) f.sifted f.passed x2 h f.forwarded log.norm_lost) e
              f.back);
      represents = f.represents;
      queued = f.queued ∙ ap (λ l. log.booked ++ (l ++ x3)) k ∙ ap (λ l. log.booked ++ (k3 ++ l)) g;
    }

  module _ {log : Log D} {x1 h1 x2 h2 x3 h3 : List (MarketTick D)} {n : Normalizer D In Out}
      (f : Flow log x1 h1 x2 h2 x3 h3 n) (t : MarketTick D) (rest : List (MarketTick D))
      (m : Normalizer D In Out) (first : x2 ≡ t ∷ rest) (free : h2 ≡ []) where
    -- A tick that the normalizer refuses changes nothing but the buffer.
    pub Flow-norm_stale :
        admits (sift [] f.sifted) t ≡ false
        → Represents (sift [] f.sifted) m
        → Flow log x1 h1 rest [] x3 h3 m
    unfolding sift
    Flow-norm_stale stale r =
        let past = sift [] f.sifted in
        let same : step past t ≡ past = ground arith in
        let kept : Represents (sift [] (f.sifted ++ (t ∷ []))) m =
          subst (λ h. Represents h m) (sym (sift-append [] f.sifted (t ∷ []) ∙ same)) r in
        Flow-at (Flow-norm_pop f t rest m first free kept) refl refl refl
          (ap (λ (b : Bool). if b then t ∷ [] else []) stale) refl refl

    pub Flow-norm_fresh :
        admits (sift [] f.sifted) t ≡ true
        → Represents (t ∷ sift [] f.sifted) m
        → Flow log x1 h1 rest (t ∷ []) x3 h3 m
    unfolding sift
    Flow-norm_fresh fresh r =
        let past = sift [] f.sifted in
        let more : step past t ≡ t ∷ past = ground arith in
        let kept : Represents (sift [] (f.sifted ++ (t ∷ []))) m =
          subst (λ h. Represents h m) (sym (sift-append [] f.sifted (t ∷ []) ∙ more)) r in
        Flow-at (Flow-norm_pop f t rest m first free kept) refl refl refl
          (ap (λ (b : Bool). if b then t ∷ [] else []) fresh) refl refl
