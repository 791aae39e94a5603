-- ===== src/Normalizer/Forward.antt =====
-- What `Normalizer::drain_input` forwards to an output that nobody reads.
use mathlib.Core.List.{append-nil}
use market_data_processor.Prelude.{
  inl, inr, ℕ, zero, suc, ◌+◌, ◌-◌, ◌%◌, ◌<◌, ◌≡◌, ap, arith, min, some, List, [], ◌∷◌, ◌++◌,
  length, length-append, take, take-nil, ltb, if◌then◌else◌, Bool-cases,
}
use market_data_processor.Double.{Double}
use market_data_processor.Channel.{Channel, IsFifo, pop_none, pop_some}
use market_data_processor.Ring.{add_word, word}
use market_data_processor.Stage.{append-take, consume}
use market_data_processor.Tick.{MarketTick, blank_tick}
use market_data_processor.Normalizer.{Normalizer, update_state, drain_tick, drain_input}
use market_data_processor.Normalizer.History.{admits, step, fresh_of}
use market_data_processor.Normalizer.State.{is_duplicate_lem, is_reordered_lem}
use market_data_processor.Normalizer.Step.{IsValid}
use market_data_processor.Normalizer.Drain.{
  with_input, drain_tick-IsValid, drain_tick_counts, drain_input_sifts,
}

module _ {D : Type 0} ⦃d : Double D⦄ {In Out : Type 0} (input : Channel (MarketTick D) In)
    (output : Channel (MarketTick D) Out) {InValid : In → Type 0} {OutValid : Out → Type 0}
    (in_fifo : IsFifo input InValid) (out_fifo : IsFifo output OutValid) where
  -- With no consumer a tick that is let through goes behind the output, if there is room.
  drain_tick_quiet :
      (h : List (MarketTick D)) (t : MarketTick D) (s : Normalizer D In Out)
      → IsValid input output in_fifo out_fifo h s
      → let s' = drain_tick input output 0 t s in
        let out = output.contents s.output in
        let room = ltb (length out) output.capacity in
        (output.contents s'.output
          ≡ (if admits h t then (if room then out ++ (t ∷ []) else out) else out))
        × (s'.ticks_forwarded ≡ (
            if admits h t
            then (if room then add_word s.ticks_forwarded 1 else s.ticks_forwarded)
            else s.ticks_forwarded))
  unfolding drain_tick consume update_state
  drain_tick_quiet h t s v = ground (
    arith,
    is_duplicate_lem h t s v.represents,
    is_reordered_lem h t s v.represents,
    out_fifo.push_fifo t s.output v.output_valid,
  )

  -- What the drain forwards to an output that nobody reads.
  pub record Forwarded (h : List (MarketTick D)) (s s' : Normalizer D In Out) : Type 0 where
    pub appended :
        let out = output.contents s.output in
        output.contents s'.output
        ≡ out ++ take (output.capacity - length out) (fresh_of h (input.contents s.input))
    pub forwarded :
        let out = output.contents s.output in
        s'.ticks_forwarded
        ≡ (s.ticks_forwarded
            + min (output.capacity - length out) (length (fresh_of h (input.contents s.input))))
          % word

  drain_input-Forwarded :
      (fuel : ℕ) (h : List (MarketTick D)) (s s' : Normalizer D In Out)
      → IsValid input output in_fifo out_fifo h s
      → drain_input input output fuel (λ _. 0) s ≡ some s'
      → Forwarded h s s'
  unfolding drain_input fresh_of
  drain_input-Forwarded zero h s s' v r = absurd (cc)
  drain_input-Forwarded (suc fuel) h s s' v r =
      let t = (input.try_pop blank_tick s.input).1 in
      let rest = (input.try_pop blank_tick s.input).2 in
      let s1 = record s { input = rest } in
      let v1 =
        with_input input output in_fifo out_fifo h s rest v
          (in_fifo.pop-Valid blank_tick s.input v.input_valid) in
      let out = output.contents s.output in
      elim (Bool-cases (input.try_pop blank_tick s.input).0) [
        | inl one ↦
            let e = pop_some input in_fifo blank_tick s.input v.input_valid one in
            let s2 = drain_tick input output 0 t s1 in
            let effect = drain_tick_quiet h t s1 v1 in
            let counts = drain_tick_counts input output in_fifo out_fifo 0 h t s1 v1 in
            let same : input.contents s2.input ≡ input.contents rest =
              ap (λ q. input.contents q) counts.0 in
            let ih =
              drain_input-Forwarded fuel (step h t) s2 s'
                (drain_tick-IsValid input output in_fifo out_fifo 0 h t s1 v1) (rw one at r) in
            let later = fresh_of (step h t) (input.contents rest) in
            record {
              appended =
                  ground
                    (arith, ih.appended, effect, same, e, append-take output.capacity t out later);
              forwarded = ground (arith, ih.forwarded, effect, same, e, length-append out (t ∷ []));
            }
        | inr nothing ↦
            let e = pop_none input in_fifo blank_tick s.input v.input_valid nothing in
            let same : some s1 ≡ some s' = rw nothing at r in
            record {
              appended = ground (
                arith,
                same,
                e,
                take-nil {A = MarketTick D} (output.capacity - length out),
                append-nil out,
              );
              forwarded = ground (arith, same, e, v.forwarded_lt);
            }
      ]

  -- With more fuel than there are ticks, and no consumer that reads the output during the drain, the
  -- drain returns, and has appended the ticks that are let through to the output, in order, until it
  -- was full, and counted these as forwarded.
  pub drain_input_forwards :
      (fuel : ℕ) (h : List (MarketTick D)) (s : Normalizer D In Out)
      → IsValid input output in_fifo out_fifo h s
      → length (input.contents s.input) < fuel
      → (s' : Normalizer D In Out) × (drain_input input output fuel (λ _. 0) s ≡ some s')
        × Forwarded h s s'
  drain_input_forwards fuel h s v more =
      let (s', r, left) =
        drain_input_sifts input output in_fifo out_fifo fuel (λ _. 0) h s v more in
      (s', r, drain_input-Forwarded fuel h s s' v r)
