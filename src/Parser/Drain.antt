-- ===== src/Parser/Drain.antt =====
-- `TickParser::drain_input`: what is left in the input when a stop has been seen.
use mathlib.Core.List.{append-nil}
use market_data_processor.Prelude.{
  inl, inr, ℕ, zero, suc, ◌+◌, ◌-◌, ◌%◌, ◌<◌, ◌≡◌, refl, arith, min, some, List, [], ◌∷◌, ◌++◌,
  length, length-append, take, take-nil, ltb, if◌then◌else◌, Bool-cases,
}
use market_data_processor.Double.{Double}
use market_data_processor.Channel.{Channel, IsFifo, pop_none, pop_some}
use market_data_processor.Ring.{add_word, word}
use market_data_processor.Stage.{append-take, consume, consume-Valid}
use market_data_processor.Tick.{MarketTick, blank_tick}
use market_data_processor.Parser.{Parser, validate, enrich, drain_tick, drain_input}
use market_data_processor.Parser.Step.{IsValid}

module _ {D : Type 0} ⦃d : Double D⦄ where
  -- The ticks that pass, enriched and in order, and the number of those that do not.
  unfoldable pub accepted_of : List (MarketTick D) → List (MarketTick D)
  accepted_of [] = []
  accepted_of (t ∷ ts) = if validate (enrich t) then enrich t ∷ accepted_of ts else accepted_of ts

  pub accepted_of-append :
      (ts us : List (MarketTick D)) → accepted_of (ts ++ us) ≡ accepted_of ts ++ accepted_of us
  unfolding accepted_of
  accepted_of-append [] us = refl
  accepted_of-append (t ∷ ts) us = ground (arith, accepted_of-append ts us)

  unfoldable pub rejects_of : List (MarketTick D) → ℕ
  rejects_of [] = 0
  rejects_of (t ∷ ts) = (if validate (enrich t) then 0 else 1) + rejects_of ts

module _ {D : Type 0} ⦃d : Double D⦄ {In Out : Type 0} (input : Channel (MarketTick D) In)
    (output : Channel (MarketTick D) Out) {InValid : In → Type 0} {OutValid : Out → Type 0}
    (in_fifo : IsFifo input InValid) (out_fifo : IsFifo output OutValid) where
  pub popped :
      {s : Parser In Out}
      → IsValid input output in_fifo out_fifo s
      → IsValid input output in_fifo out_fifo
          (record s { input = (input.try_pop blank_tick s.input).2 })
  popped {s} v = record {
    input_valid = in_fifo.pop-Valid blank_tick s.input v.input_valid;
    output_valid = v.output_valid;
    processed_lt = v.processed_lt;
    rejected_lt = v.rejected_lt;
  }

  pub drain_tick-IsValid :
      (k : ℕ) (raw : MarketTick D) (s : Parser In Out)
      → IsValid input output in_fifo out_fifo s
      → IsValid input output in_fifo out_fifo (drain_tick input output k raw s)
  unfolding drain_tick
  drain_tick-IsValid k raw s v =
      let calm = consume-Valid output blank_tick out_fifo k s.output v.output_valid in
      let pushed = out_fifo.push-Valid (enrich raw) (consume output blank_tick k s.output) calm in
      ground arith

  -- A tick of the drain leaves the input alone, and is counted as rejected if it does not pass.
  drain_tick_counts :
      (k : ℕ) (raw : MarketTick D) (s : Parser In Out)
      → let s' = drain_tick input output k raw s in
        (s'.input ≡ s.input)
        × (s'.ticks_rejected
            ≡ (if validate (enrich raw) then s.ticks_rejected else add_word s.ticks_rejected 1))
  unfolding drain_tick
  drain_tick_counts k raw s = ground arith

  -- What the drain leaves.
  pub record Drained (s s' : Parser In Out) : Type 0 where
    pub valid : IsValid input output in_fifo out_fifo s'
    pub emptied : input.contents s'.input ≡ []
    pub rejects :
        s'.ticks_rejected ≡ (s.ticks_rejected + rejects_of (input.contents s.input)) % word

  -- With more fuel than there are ticks the drain returns. It has then emptied the input, and has
  -- counted every tick that does not pass as rejected, whatever the consumer of the output does.
  pub drain_input_total :
      (fuel : ℕ) (env : ℕ → ℕ) (s : Parser In Out)
      → IsValid input output in_fifo out_fifo s
      → length (input.contents s.input) < fuel
      → (s' : Parser In Out) × (drain_input input output fuel env s ≡ some s') × Drained s s'
  unfolding drain_input rejects_of
  drain_input_total zero env s v h = elim h [ ]
  drain_input_total (suc fuel) env s v h =
      let raw = (input.try_pop blank_tick s.input).1 in
      let s1 = record s { input = (input.try_pop blank_tick s.input).2 } in
      let v1 : IsValid input output in_fifo out_fifo s1 = popped v in
      elim (Bool-cases (input.try_pop blank_tick s.input).0) [
        | inl one ↦
            let e = pop_some input in_fifo blank_tick s.input v.input_valid one in
            let s2 = drain_tick input output (env fuel) raw s1 in
            let counts = drain_tick_counts (env fuel) raw s1 in
            let (s', r, left) =
              drain_input_total fuel env s2 (drain_tick-IsValid (env fuel) raw s1 v1)
                (ground (arith, counts)) in
            (
              s',
              rw one r,
              record {
                valid = left.valid;
                emptied = left.emptied;
                rejects = ground (arith, left.rejects, counts);
              },
            )
        | inr nothing ↦
            let e = pop_none input in_fifo blank_tick s.input v.input_valid nothing in
            (s1, rw nothing, record { valid = v1; emptied = e.1; rejects = ground arith })
      ]

  -- With no consumer a tick that passes goes behind the output, if there is room.
  drain_tick_quiet :
      (raw : MarketTick D) (s : Parser In Out)
      → IsValid input output in_fifo out_fifo s
      → let s' = drain_tick input output 0 raw s in
        let out = output.contents s.output in
        let room = ltb (length out) output.capacity in
        (output.contents s'.output ≡ (
          if validate (enrich raw) then (if room then out ++ (enrich raw ∷ []) else out) else out))
        × (s'.ticks_processed ≡ (
            if validate (enrich raw)
            then (if room then add_word s.ticks_processed 1 else s.ticks_processed)
            else s.ticks_processed))
  unfolding drain_tick consume
  drain_tick_quiet raw s v = ground (arith, out_fifo.push_fifo (enrich raw) s.output v.output_valid)

  -- What the drain forwards to an output that nobody reads.
  pub record Forwarded (s s' : Parser In Out) : Type 0 where
    pub appended :
        let out = output.contents s.output in
        output.contents s'.output
        ≡ out ++ take (output.capacity - length out) (accepted_of (input.contents s.input))
    pub processed :
        let out = output.contents s.output in
        s'.ticks_processed
        ≡ (s.ticks_processed
            + min (output.capacity - length out) (length (accepted_of (input.contents s.input))))
          % word

  -- What the drain appends when it returns.
  drain_input-Forwarded :
      (fuel : ℕ) (s s' : Parser In Out)
      → IsValid input output in_fifo out_fifo s
      → drain_input input output fuel (λ _. 0) s ≡ some s'
      → Forwarded s s'
  unfolding drain_input accepted_of
  drain_input-Forwarded zero s s' v r = absurd (cc)
  drain_input-Forwarded (suc fuel) s s' v r =
      let raw = (input.try_pop blank_tick s.input).1 in
      let s1 = record s { input = (input.try_pop blank_tick s.input).2 } in
      let v1 : IsValid input output in_fifo out_fifo s1 = popped v in
      let out = output.contents s.output in
      elim (Bool-cases (input.try_pop blank_tick s.input).0) [
        | inl one ↦
            let e = pop_some input in_fifo blank_tick s.input v.input_valid one in
            let s2 = drain_tick input output 0 raw s1 in
            let effect = drain_tick_quiet raw s1 v1 in
            let counts = drain_tick_counts 0 raw s1 in
            let ih =
              drain_input-Forwarded fuel s2 s' (drain_tick-IsValid 0 raw s1 v1) (rw one at r) in
            let rest = accepted_of (input.contents s1.input) in
            record {
              appended = ground (
                arith,
                ih.appended,
                effect,
                counts,
                e,
                append-take output.capacity (enrich raw) out rest,
              );
              processed =
                  ground
                    (arith, ih.processed, effect, counts, e, length-append out (enrich raw ∷ []));
            }
        | inr nothing ↦
            let e = pop_none input in_fifo blank_tick s.input v.input_valid nothing in
            let same : some s1 ≡ some s' = rw nothing at r in
            record {
              appended = ground (
                arith,
                same,
                e,
                take-nil {A = MarketTick D} (output.capacity - length out),
                append-nil out,
              );
              processed = ground (arith, same, e);
            }
      ]

  -- With more fuel than there are ticks, and no consumer that reads the output during the drain, the
  -- drain returns. It has then appended the ticks that pass to the output, enriched and in order,
  -- until it was full, has counted these as processed and those that do not pass as rejected, and
  -- has emptied the input.
  pub drain_input_quiet :
      (fuel : ℕ) (s : Parser In Out)
      → IsValid input output in_fifo out_fifo s
      → length (input.contents s.input) < fuel
      → (s' : Parser In Out) × (drain_input input output fuel (λ _. 0) s ≡ some s')
        × Forwarded s s'
        × Drained s s'
  drain_input_quiet fuel s v h =
      let (s', r, left) = drain_input_total fuel (λ _. 0) s v h in
      (s', r, drain_input-Forwarded fuel s s' v r, left)
