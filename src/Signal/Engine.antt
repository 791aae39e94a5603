-- ===== src/Signal/Engine.antt =====
-- The loop of `SignalEngine::run`, over any two channels.
use mathlib.Core.List.{append-nil}
use market_data_processor.Prelude.{
  ℕ, ◌<◌, ◌≡◌, ◌≢◌, inl, inr, refl, arith, Bool, true, false, Option, none, some, List, [], ◌∷◌,
  ◌++◌, length-drop, drop, if◌then◌else◌, Bool-cases,
}
use market_data_processor.Double.{Double}
use market_data_processor.Channel.{Channel, IsFifo, pop_none, pop_some}
use market_data_processor.Stage.{
  Turn, consume, released, stopped, consume-Valid, contents-consume, AfterWait, later_round,
}
use market_data_processor.Tick.{MarketSnapshot, blank_snapshot}
use market_data_processor.Signal.{
  Signal, SignalEngine, signal_of, blank_signal, push_first, update_ema, sent, engine_step,
}

module _ {T Q : Type 0} (c : Channel T Q) (blank : T) {Valid : Q → Type 0}
    (fifo : IsFifo c Valid) where
  -- When the loop returns, the consumer has taken some of the oldest elements and, if the push was
  -- made, the element stands at the end; if it was not made, a stop has been requested.
  pub push_first-AfterWait :
      (ts : List Turn) (x : T) (q : Q)
      → Valid q
      → AfterWait c blank fifo x q ts (push_first c blank ts x q)
  unfolding push_first stopped
  push_first-AfterWait [] x q v = tt
  push_first-AfterWait (t ∷ ts) x q v =
      let q1 = consume c blank t.consumed q in
      let v1 : Valid q1 = consume-Valid c blank fifo t.consumed q v in
      let e1 = contents-consume c blank fifo t.consumed q v in
      let pushes = fifo.push_fifo x q1 v1 in
      let v2 = fifo.push-Valid x q1 v1 in
      elim (Bool-cases (c.try_push x q1).0) [
        | inl pushed ↦ simp pushed (record {
          valid = v2;
          taken = t.consumed;
          left = ground arith;
          reason = λ h. absurd (cc);
        })
        | inr full ↦ elim (Bool-cases t.stop) [
          | inl stop ↦
              simp (full, stop)
                (record {
                  valid = v2;
                  taken = t.consumed;
                  left = ground (arith, append-nil (drop t.consumed (c.contents q)));
                  reason = λ _. ground arith;
                })
          | inr go ↦
              simp (full, go)
                (later_round c blank fifo t ts x q (c.try_push x q1).1 _ (ground arith)
                  (push_first-AfterWait ts x (c.try_push x q1).1 v2))
        ]
      ]

  -- The loop returns as soon as a stop is requested or the consumer takes an element.
  pub push_first-ne-none :
      (ts : List Turn) (x : T) (q : Q)
      → Valid q
      → 0 < c.capacity
      → released ts ≡ true
      → push_first c blank ts x q ≢ none
  unfolding push_first released
  push_first-ne-none [] x q v room r = absurd (cc)
  push_first-ne-none (t ∷ ts) x q v room r =
      let q1 = consume c blank t.consumed q in
      let v1 : Valid q1 = consume-Valid c blank fifo t.consumed q v in
      ground (
        arith,
        fifo.push_fifo x q1 v1,
        contents-consume c blank fifo t.consumed q v,
        length-drop t.consumed (c.contents q),
        fifo.bounded q v,
        push_first-ne-none ts x (c.try_push x q1).1 (fifo.push-Valid x q1 v1) room,
      )

module _ {D : Type 0} ⦃d : Double D⦄ {In Out : Type 0} (input : Channel (MarketSnapshot D) In)
    (output : Channel (Signal D) Out) where
  -- What one round of the loop does: nothing, or it takes the oldest snapshot, moves the average of
  -- its symbol, and sends one signal or loses it to a stop.
  pub data Outcome (turns : List Turn) (s s' : SignalEngine D In Out) : Type 0 where
    idle :
        input.contents s.in_queue ≡ []
        → input.contents s'.in_queue ≡ []
        → s' ≡ record s { in_queue = s'.in_queue }
        → Outcome turns s s'
    signalled :
        (snap : MarketSnapshot D) (pushed : Bool) (taken : ℕ)
        → input.contents s.in_queue ≡ snap ∷ input.contents s'.in_queue
        → s'.ema_map ≡ (update_ema snap s).0.ema_map
        → output.contents s'.out_queue
          ≡ drop taken (output.contents s.out_queue)
            ++ (if pushed then signal_of snap (update_ema snap s).1 ∷ [] else [])
        → (pushed ≡ false → stopped turns ≡ true)
        → s'.alpha ≡ s.alpha
        → Outcome turns s s'

module _ {D : Type 0} ⦃d : Double D⦄ {In Out : Type 0} (input : Channel (MarketSnapshot D) In)
    (output : Channel (Signal D) Out) {InValid : In → Type 0} {OutValid : Out → Type 0}
    (in_fifo : IsFifo input InValid) (out_fifo : IsFifo output OutValid) where
  pub record QueuesValid (s : SignalEngine D In Out) : Type 0 where
    pub in_valid : InValid s.in_queue
    pub out_valid : OutValid s.out_queue

  -- Vacuous for a round that still waits: `engine_step-ne-none` says when it ends.
  abbrev pub AfterRound :
      List Turn → SignalEngine D In Out → Option (SignalEngine D In Out) → Type 0
  AfterRound turns s none = Unit
  AfterRound turns s (some s') = QueuesValid s' × Outcome input output turns s s'

  signalled_round :
      (turns : List Turn) (s : SignalEngine D In Out) (snap : MarketSnapshot D) (rest : In)
      (r : Option (Bool × Out))
      → InValid rest
      → input.contents s.in_queue ≡ snap ∷ input.contents rest
      → AfterWait output blank_signal out_fifo
          (signal_of snap (update_ema snap s).1)
          s.out_queue
          turns
          r
      → AfterRound turns s (sent (update_ema snap (record s { in_queue = rest })).0 r)
  unfolding sent update_ema
  signalled_round turns s snap rest none v e w = tt
  signalled_round turns s snap rest (some (pushed, out)) v e w = (
    record { in_valid = v; out_valid = w.valid },
    signalled snap pushed w.taken e refl w.left w.reason refl,
  )

  -- A round of the loop that ends finds the input empty and changes nothing, or takes the oldest
  -- snapshot, moves the average of its symbol, and puts one signal with that average behind what is
  -- left in the output, unless a stop has been requested, in which case the signal may be lost.
  pub engine_step-AfterRound :
      (turns : List Turn) (s : SignalEngine D In Out)
      → QueuesValid s
      → AfterRound turns s (engine_step input output turns s)
  unfolding engine_step update_ema
  engine_step-AfterRound turns s v =
      let rest = (input.try_pop blank_snapshot s.in_queue).2 in
      let rest_valid : InValid rest = in_fifo.pop-Valid blank_snapshot s.in_queue v.in_valid in
      let snap = (input.try_pop blank_snapshot s.in_queue).1 in
      elim (Bool-cases (input.try_pop blank_snapshot s.in_queue).0) [
        | inl one ↦
            let taken = pop_some input in_fifo blank_snapshot s.in_queue v.in_valid one in
            let signal = signal_of snap (update_ema snap s).1 in
            simp one (
              signalled_round turns s snap rest
                (push_first output blank_signal turns signal s.out_queue) rest_valid taken
                (push_first-AfterWait output blank_signal out_fifo turns signal s.out_queue
                  v.out_valid))
        | inr nothing ↦
            let empty = pop_none input in_fifo blank_snapshot s.in_queue v.in_valid nothing in
            simp nothing
              (record { in_valid = rest_valid; out_valid = v.out_valid }, idle empty.0 empty.1 refl)
      ]

  -- A round ends as soon as a stop is requested or the consumer of the output takes an element.
  pub engine_step-ne-none :
      (turns : List Turn) (s : SignalEngine D In Out)
      → QueuesValid s
      → 0 < output.capacity
      → released turns ≡ true
      → engine_step input output turns s ≢ none
  unfolding engine_step update_ema sent
  engine_step-ne-none turns s v room r =
      let snap = (input.try_pop blank_snapshot s.in_queue).1 in
      ground (
        arith,
        push_first-ne-none output blank_signal out_fifo turns (signal_of snap (update_ema snap s).1)
            s.out_queue v.out_valid room r,
      )
