-- ===== src/Signal/Run.antt =====
-- The averages of `SignalEngine::run`: one for each symbol, over the prices that it has read.
use mathlib.Core.List.{append-nil, append_assoc}
use market_data_processor.Prelude.{
  ℕ, ◌-◌, ◌<◌, ◌≡◌, inl, inr, refl, sym, ap, subst, ◌∙◌, Bool, arith, true, some, List, [], ◌∷◌,
  ◌++◌, length, take, drop, if◌then◌else◌, Bool-cases, Option-cases,
}
use market_data_processor.Prelude.Dict.{find, bytes_eq}
use market_data_processor.Prelude.Merge.{Merge, nil, Merge-append, Merge-take}
use market_data_processor.Double.{Double}
use market_data_processor.Channel.{Channel, IsFifo}
use market_data_processor.Stage.{Turn}
use market_data_processor.Stage.Rounds.{Round, Ends, arrive, arrive-Valid, contents-arrive}
use market_data_processor.Tick.{MarketSnapshot}
use market_data_processor.Signal.{Signal, SignalEngine, engine_step, run}
use market_data_processor.Signal.Engine.{
  QueuesValid, Outcome, idle, signalled, AfterRound, engine_step-AfterRound, engine_step-ne-none,
}
use market_data_processor.Signal.Average.{
  average, prices_of, average-append, average-nil, prices_of-append, find-update_ema,
}

-- What comes in the rounds up to the one that sees the stop.
abbrev pub arrived : {T : Type 0} → List (Round T) → List T
arrived [] = []
arrived (r ∷ rs) = r.arrivals ++ (if r.stop then [] else arrived rs)

module _ {D : Type 0} ⦃d : Double D⦄ {In Out : Type 0} (input : Channel (MarketSnapshot D) In)
    (output : Channel (Signal D) Out) {InValid : In → Type 0} {OutValid : Out → Type 0}
    (in_fifo : IsFifo input InValid) (out_fifo : IsFifo output OutValid) where
  -- Of what was in the input and what it took from `arrivals`, a first part has been read, and every
  -- symbol's average is the one over its prices in that part.
  pub record Averaged (arrivals : List (MarketSnapshot D)) (s s' : SignalEngine D In Out)
      : Type 0 where
    pub valid : QueuesValid input output in_fifo out_fifo s'
    pub came : List (MarketSnapshot D)
    pub refused : List (MarketSnapshot D)
    pub merged : Merge came refused arrivals
    pub read : List (MarketSnapshot D)
    pub order : input.contents s.in_queue ++ came ≡ read ++ input.contents s'.in_queue
    pub alpha : s'.alpha ≡ s.alpha
    pub averages :
        (key : List ℕ)
        → find key s'.ema_map ≡ average s.alpha (find key s.ema_map) (prices_of key read)

  Averaged-trans :
      {xs ys : List (MarketSnapshot D)} {s t u : SignalEngine D In Out}
      → Averaged xs s t
      → Averaged ys t u
      → Averaged (xs ++ ys) s u
  Averaged-trans {s = s} {t = t} {u = u} k l = record {
    valid = l.valid;
    came = k.came ++ l.came;
    refused = k.refused ++ l.refused;
    merged = Merge-append k.merged l.merged;
    read = k.read ++ l.read;
    order =
        sym (append_assoc (input.contents s.in_queue) k.came l.came)
        ∙ ap (λ x. x ++ l.came) k.order
        ∙ append_assoc k.read _ l.came
        ∙ ap (λ x. k.read ++ x) l.order
        ∙ sym (append_assoc k.read l.read (input.contents u.in_queue));
    alpha = l.alpha ∙ k.alpha;
    averages = λ key.
        l.averages key
        ∙ ap (λ a. average a (find key t.ema_map) (prices_of key l.read)) k.alpha
        ∙ ap (λ o. average s.alpha o (prices_of key l.read)) (k.averages key)
        ∙ sym (
            average-append s.alpha (find key s.ema_map) (prices_of key k.read)
              (prices_of key l.read))
        ∙ ap (λ ps. average s.alpha (find key s.ema_map) ps)
            (sym (prices_of-append key k.read l.read));
  }

  -- The arrivals of a round.
  Averaged-arrive :
      (xs : List (MarketSnapshot D)) (s : SignalEngine D In Out)
      → QueuesValid input output in_fifo out_fifo s
      → Averaged xs s (record s { in_queue = arrive input xs s.in_queue })
  Averaged-arrive xs s v =
      let room = input.capacity - length (input.contents s.in_queue) in
      record {
        valid = record {
          in_valid = arrive-Valid input in_fifo xs s.in_queue v.in_valid;
          out_valid = v.out_valid;
        };
        came = take room xs;
        refused = drop room xs;
        merged = Merge-take room xs;
        read = [];
        order = sym (contents-arrive input in_fifo xs s.in_queue v.in_valid);
        alpha = refl;
        averages = λ key. sym (average-nil s.alpha (find key s.ema_map));
      }

  -- One round of the loop.
  Averaged-step :
      (turns : List Turn) (s s' : SignalEngine D In Out)
      → QueuesValid input output in_fifo out_fifo s'
      → Outcome input output turns s s'
      → Averaged [] s s'
  Averaged-step turns s s' v (idle before after same) = record {
    valid = v;
    came = [];
    refused = [];
    merged = nil;
    read = [];
    order = ground (arith, before, after);
    alpha = ap (λ x. x.alpha) same;
    averages =
        λ key. ap (λ x. find key x.ema_map) same ∙ sym (average-nil s.alpha (find key s.ema_map));
  }
  Averaged-step turns s s' v (signalled snap pushed taken first moved out stop alpha) = record {
    valid = v;
    came = [];
    refused = [];
    merged = nil;
    read = snap ∷ [];
    order = append-nil (input.contents s.in_queue) ∙ first;
    alpha = alpha;
    averages = λ key. ap (λ m. find key m) moved ∙ find-update_ema key snap s;
  }

  Averaged-stop :
      (r : Round (MarketSnapshot D)) (later : List (MarketSnapshot D)) (s : SignalEngine D In Out)
      → QueuesValid input output in_fifo out_fifo s
      → r.stop ≡ true
      → Averaged
          (r.arrivals ++ (if r.stop then [] else later))
          s
          (record s { in_queue = arrive input r.arrivals s.in_queue })
  Averaged-stop r later s v stop =
      subst (λ l. Averaged l s (record s { in_queue = arrive input r.arrivals s.in_queue }))
        (sym
          (ap (λ (b : Bool). r.arrivals ++ (if b then [] else later)) stop ∙ append-nil r.arrivals))
        (Averaged-arrive r.arrivals s v)

  -- A run whose waits all end and in whose last round a stop has been requested returns. What was in the
  -- input and what it took of the arrivals up to the stop is then, in order, a part that has been read,
  -- and what is still there; and for every symbol the average that the engine keeps is the one from
  -- before, or else the first price of the symbol in the part read, smoothed with each further price of
  -- that symbol in this part, in order: price · alpha + average · (1 - alpha). No other symbol's prices
  -- enter it.
  pub run_averages :
      (rs : List (Round (MarketSnapshot D))) (s : SignalEngine D In Out)
      → 0 < output.capacity
      → Ends rs
      → QueuesValid input output in_fifo out_fifo s
      → (s' : SignalEngine D In Out) × (run input output rs s ≡ some s')
        × Averaged (arrived rs) s s'
  unfolding run
  run_averages [] s room ends v = absurd ends
  run_averages (r ∷ []) s room ends v = (
    record s { in_queue = arrive input r.arrivals s.in_queue },
    rw ends refl,
    Averaged-stop r [] s v ends,
  )
  run_averages (r ∷ r' ∷ rs) s room ends v =
      let s1 = record s { in_queue = arrive input r.arrivals s.in_queue } in
      let come = Averaged-arrive r.arrivals s v in
      let later = arrived (r' ∷ rs) in
      elim (Bool-cases r.stop) [
        | inl stop ↦ (s1, rw stop refl, Averaged-stop r later s v stop)
        | inr go ↦ elim (Option-cases (engine_step input output r.turns s1)) [
          | inl waits ↦ absurd (
              engine_step-ne-none input output in_fifo out_fifo r.turns s1 come.valid room ends.0
                waits)
          | inr (s2, e) ↦
              let after : AfterRound input output in_fifo out_fifo r.turns s1 (some s2) =
                rw e at
                  (engine_step-AfterRound input output in_fifo out_fifo r.turns s1 come.valid) in
              let (s', r_ends, rest) = run_averages (r' ∷ rs) s2 room ends.1 after.0 in
              let whole =
                Averaged-trans come
                  (Averaged-trans (Averaged-step r.turns s1 s2 after.0 after.1) rest) in
              (
                s',
                rw (go, e) r_ends,
                subst (λ (b : Bool). Averaged (r.arrivals ++ (if b then [] else later)) s s')
                    (sym go) whole,
              )
        ]
      ]
