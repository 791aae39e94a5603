-- ===== src/Normalizer/Run.antt =====
-- `Normalizer::run`: the loop and the drain after it, with the other threads at work in between.
use market_data_processor.Prelude.{
  ℕ, ◌<◌, ◌≡◌, arith, Option, some, List, [], ◌∷◌, Bool-cases, Option-cases, inl, inr,
}
use market_data_processor.Double.{Double}
use market_data_processor.Channel.{Channel, IsFifo}
use market_data_processor.Stage.Rounds.{Round, Ends, arrive, arrive-Valid}
use market_data_processor.Tick.{MarketTick}
use market_data_processor.Normalizer.{Normalizer, process_tick, drain_input, run}
use market_data_processor.Normalizer.History.{Monotone}
use market_data_processor.Normalizer.Step.{
  IsValid, AfterSift, process_tick-AfterSift, process_tick_returns,
}
use market_data_processor.Normalizer.Drain.{drain_input_sifts, with_input}

module _ {D : Type 0} ⦃d : Double D⦄ {In Out : Type 0} (input : Channel (MarketTick D) In)
    (output : Channel (MarketTick D) Out) {InValid : In → Type 0} {OutValid : Out → Type 0}
    (in_fifo : IsFifo input InValid) (out_fifo : IsFifo output OutValid) where
  -- What a run leaves.
  abbrev pub Sifted : Option (Normalizer D In Out) → Type 0
  Sifted r =
      (s' : Normalizer D In Out) × (r ≡ some s')
      × (input.contents s'.input ≡ [])
      × Monotone (output.contents s'.output)

  drain_Sifted :
      (fuel : ℕ) (env : ℕ → ℕ) (h : List (MarketTick D)) (s : Normalizer D In Out)
      → input.capacity < fuel
      → IsValid input output in_fifo out_fifo h s
      → Sifted (drain_input input output fuel env s)
  drain_Sifted fuel env h s big v =
      let (s', r, left) =
        drain_input_sifts input output in_fifo out_fifo fuel env h s v
          (omega (arith, in_fifo.bounded s.input v.input_valid)) in
      (s', r, left.emptied, left.valid.ordered.monotone)

  -- A run whose waits all end (by a stop or by a move of the consumer) and in whose last round a
  -- stop has been requested returns, whatever arrives in the input, if the fuel of the drain exceeds
  -- the capacity of the input. It leaves the input empty, and an output in which the times of no
  -- symbol fall.
  pub run_sifts :
      (fuel : ℕ) (env : ℕ → ℕ) (rs : List (Round (MarketTick D))) (h : List (MarketTick D))
      (s : Normalizer D In Out)
      → input.capacity < fuel
      → 0 < output.capacity
      → Ends rs
      → IsValid input output in_fifo out_fifo h s
      → Sifted (run input output fuel env rs s)
  unfolding run
  run_sifts fuel env [] h s big room ends v = absurd ends
  run_sifts fuel env (r ∷ []) h s big room ends v =
      let q = arrive input r.arrivals s.input in
      let v1 =
        with_input input output in_fifo out_fifo h s q v
          (arrive-Valid input in_fifo r.arrivals s.input v.input_valid) in
      simp ends (drain_Sifted fuel env h (record s { input = q }) big v1)
  run_sifts fuel env (r ∷ r' ∷ rs) h s big room ends v =
      let s1 = record s { input = arrive input r.arrivals s.input } in
      let v1 =
        with_input input output in_fifo out_fifo h s s1.input v
          (arrive-Valid input in_fifo r.arrivals s.input v.input_valid) in
      elim (Bool-cases r.stop) [
        | inl stop ↦ simp stop (drain_Sifted fuel env h s1 big v1)
        | inr go ↦ elim (Option-cases (process_tick input output r.turns s1)) [
          | inl waits ↦
              absurd (
                process_tick_returns input output in_fifo out_fifo r.turns h s1 v1 room ends.0
                  waits)
          | inr ((got, s2), e) ↦
              let after : AfterSift input output in_fifo out_fifo r.turns h s1 (some (got, s2)) =
                rw e at (process_tick-AfterSift input output in_fifo out_fifo r.turns h s1 v1) in
              simp (go, e) (run_sifts fuel env (r' ∷ rs) after.0 s2 big room ends.1 after.1)
        ]
      ]
