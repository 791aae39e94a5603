-- ===== src/Parser/Run.antt =====
-- `TickParser::run`: the loop and the drain after it, with the other threads at work in between.
use market_data_processor.Prelude.{
  ℕ, zero, suc, ◌<◌, ◌≡◌, arith, Option, some, List, [], ◌∷◌, All, Bool-cases, Option-cases, inl,
  inr,
}
use market_data_processor.Double.{Double, IsOrdered}
use market_data_processor.Channel.{Channel, IsFifo, try_push-All}
use market_data_processor.Stage.{consume, consume-Valid, consume-All}
use market_data_processor.Stage.Rounds.{Round, Ends, arrive, arrive-Valid}
use market_data_processor.Tick.{MarketTick, blank_tick}
use market_data_processor.Parser.{
  Parser, validate, enrich, process_tick, drain_tick, drain_input, run, count_processed,
  count_rejected,
}
use market_data_processor.Parser.Rules.{IsClean, validate_iff}
use market_data_processor.Parser.Step.{
  IsValid, AfterCall, process_tick-AfterCall, process_tick-ne-none, process_tick-IsClean,
}
use market_data_processor.Parser.Drain.{drain_input_total, drain_tick-IsValid, popped}

module _ {D : Type 0} ⦃d : Double D⦄ {In Out : Type 0} (input : Channel (MarketTick D) In)
    (output : Channel (MarketTick D) Out) {InValid : In → Type 0} {OutValid : Out → Type 0}
    (in_fifo : IsFifo input InValid) (out_fifo : IsFifo output OutValid) (laws : IsOrdered d) where
  abbrev Clean : Parser In Out → Type 0
  Clean s = All IsClean (output.contents s.output)

  drain_tick-Clean :
      (k : ℕ) (raw : MarketTick D) (s : Parser In Out)
      → IsValid input output in_fifo out_fifo s
      → Clean s
      → Clean (drain_tick input output k raw s)
  unfolding drain_tick count_processed count_rejected
  drain_tick-Clean k raw s v h =
      let out = consume output blank_tick k s.output in
      let calm = consume-Valid output blank_tick out_fifo k s.output v.output_valid in
      let kept = consume-All output blank_tick out_fifo IsClean k s.output v.output_valid h in
      elim (Bool-cases (validate (enrich raw))) [
        | inl good ↦
            let after =
              try_push-All output out_fifo blank_tick out calm IsClean (enrich raw)
                ((validate_iff laws (enrich raw)).0 good) kept in
            elim (Bool-cases (output.try_push (enrich raw) out).0) [
              | inl done ↦ rw (good, done) after
              | inr full ↦ rw (good, full) after
            ]
        | inr bad ↦ rw bad h
      ]

  drain_input-Clean :
      (fuel : ℕ) (env : ℕ → ℕ) (s s' : Parser In Out)
      → IsValid input output in_fifo out_fifo s
      → Clean s
      → drain_input input output fuel env s ≡ some s'
      → Clean s'
  unfolding drain_input
  drain_input-Clean zero env s s' v h r = absurd (cc)
  drain_input-Clean (suc fuel) env s s' v h r =
      let raw = (input.try_pop blank_tick s.input).1 in
      let s1 = record s { input = (input.try_pop blank_tick s.input).2 } in
      let v1 = popped input output in_fifo out_fifo v in
      elim (Bool-cases (input.try_pop blank_tick s.input).0) [
        | inl one ↦
            drain_input-Clean fuel env (drain_tick input output (env fuel) raw s1) s'
              (drain_tick-IsValid input output in_fifo out_fifo (env fuel) raw s1 v1)
              (drain_tick-Clean (env fuel) raw s1 v1 h) (rw one at r)
        | inr nothing ↦
            let same : some s1 ≡ some s' = rw nothing at r in
            let final : s1 ≡ s' = cc in rw (← final) h
      ]

  -- What a run leaves.
  abbrev pub Finished : Option (Parser In Out) → Type 0
  Finished r =
      (s' : Parser In Out) × (r ≡ some s')
      × (input.contents s'.input ≡ [])
      × All IsClean (output.contents s'.output)

  drain_Finished :
      (fuel : ℕ) (env : ℕ → ℕ) (s : Parser In Out)
      → input.capacity < fuel
      → IsValid input output in_fifo out_fifo s
      → Clean s
      → Finished (drain_input input output fuel env s)
  drain_Finished fuel env s big v h =
      let (s', r, left) =
        drain_input_total input output in_fifo out_fifo fuel env s v
          (omega (arith, in_fifo.bounded s.input v.input_valid)) in
      (s', r, left.emptied, drain_input-Clean fuel env s s' v h r)

  arrived :
      (ts : List (MarketTick D)) (s : Parser In Out)
      → IsValid input output in_fifo out_fifo s
      → IsValid input output in_fifo out_fifo (record s { input = arrive input ts s.input })
  arrived ts s v = record {
    input_valid = arrive-Valid input in_fifo ts s.input v.input_valid;
    output_valid = v.output_valid;
    processed_lt = v.processed_lt;
    rejected_lt = v.rejected_lt;
  }

  -- A run whose waits all end (by a stop or by a move of the consumer) and in whose last round a
  -- stop has been requested returns, whatever arrives in the input, if the fuel of the drain exceeds
  -- the capacity of the input. It leaves the input empty, and if all ticks in the output were clean,
  -- so are all ticks in the output afterwards.
  pub run_total :
      (fuel : ℕ) (env : ℕ → ℕ) (rs : List (Round (MarketTick D))) (s : Parser In Out)
      → input.capacity < fuel
      → 0 < output.capacity
      → Ends rs
      → IsValid input output in_fifo out_fifo s
      → All IsClean (output.contents s.output)
      → Finished (run input output fuel env rs s)
  unfolding run
  run_total fuel env [] s big room ends v h = absurd ends
  run_total fuel env (r ∷ []) s big room ends v h = simp ends (
      drain_Finished fuel env (record s { input = arrive input r.arrivals s.input }) big
        (arrived r.arrivals s v) h)
  run_total fuel env (r ∷ r' ∷ rs) s big room ends v h =
      let s1 = record s { input = arrive input r.arrivals s.input } in
      let v1 = arrived r.arrivals s v in
      elim (Bool-cases r.stop) [
        | inl stop ↦ simp stop (drain_Finished fuel env s1 big v1 h)
        | inr go ↦ elim (Option-cases (process_tick input output r.turns s1)) [
          | inl waits ↦
              absurd
                (process_tick-ne-none input output in_fifo out_fifo r.turns s1 v1 room ends.0 waits)
          | inr ((got, s2), e) ↦
              let after : AfterCall input output in_fifo out_fifo r.turns s1 (some (got, s2)) =
                rw e at (process_tick-AfterCall input output in_fifo out_fifo r.turns s1 v1) in
              simp (go, e)
                (run_total fuel env (r' ∷ rs) s2 big room ends.1 after.0
                  (process_tick-IsClean input output in_fifo out_fifo laws r.turns s1 after.1 h))
        ]
      ]
