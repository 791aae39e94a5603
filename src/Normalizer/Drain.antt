-- ===== src/Normalizer/Drain.antt =====
-- `Normalizer::drain_input`: what is left in the input when a stop has been seen.
use market_data_processor.Prelude.{
  inl, inr, ℕ, zero, suc, ◌+◌, ◌%◌, ◌<◌, ◌≡◌, refl, sym, ap, ◌∙◌, arith, true, false, not, ◌&&◌,
  some, List, [], ◌∷◌, ◌++◌, length, if◌then◌else◌, Bool-cases,
}
use market_data_processor.Double.{Double}
use market_data_processor.Channel.{Channel, IsFifo, pop_none, pop_some, contents-try_push}
use market_data_processor.Ring.{add_word, word}
use market_data_processor.Stage.{consume, consume-Valid, contents-consume}
use market_data_processor.Tick.{MarketTick, blank_tick}
use market_data_processor.Normalizer.{
  Normalizer, is_duplicate, is_reordered, update_state, drain_tick, drain_input, count_duplicate,
  count_reordered,
}
use market_data_processor.Normalizer.History.{repeats, late, step, sift, repeats_of, late_of}
use market_data_processor.Normalizer.State.{is_duplicate_lem, is_reordered_lem}
use market_data_processor.Normalizer.Step.{IsValid, counted-IsValid, put-IsValid}

module _ {D : Type 0} ⦃d : Double D⦄ {In Out : Type 0} (input : Channel (MarketTick D) In)
    (output : Channel (MarketTick D) Out) {InValid : In → Type 0} {OutValid : Out → Type 0}
    (in_fifo : IsFifo input InValid) (out_fifo : IsFifo output OutValid) where
  pub with_input :
      (h : List (MarketTick D)) (s : Normalizer D In Out) (q : In)
      → IsValid input output in_fifo out_fifo h s
      → InValid q
      → IsValid input output in_fifo out_fifo h (record s { input = q })
  with_input h s q v iv =
      counted-IsValid input output in_fifo out_fifo h s (record s { input = q }) v iv refl refl refl
        v.forwarded_lt v.deduplicated_lt v.reordered_lt

  pub drain_tick-IsValid :
      (k : ℕ) (h : List (MarketTick D)) (t : MarketTick D) (s : Normalizer D In Out)
      → IsValid input output in_fifo out_fifo h s
      → IsValid input output in_fifo out_fifo (step h t) (drain_tick input output k t s)
  unfolding drain_tick
  drain_tick-IsValid k h t s v =
      let out = consume output blank_tick k s.output in
      let calm = consume-Valid output blank_tick out_fifo k s.output v.output_valid in
      let pushed = out_fifo.push-Valid t out calm in
      let dup = is_duplicate_lem h t s v.represents in
      let old = is_reordered_lem h t s v.represents in
      let gone = contents-consume output blank_tick out_fifo k s.output v.output_valid in
      elim (Bool-cases (is_duplicate t s)) [
        | inl yes_dup ↦
            let rep : repeats h t ≡ true = sym dup ∙ yes_dup in
            simp (yes_dup, rep)
              (counted-IsValid input output in_fifo out_fifo h s (count_duplicate s) v v.input_valid
                refl refl refl v.forwarded_lt (omega arith) v.reordered_lt)
        | inr no_dup ↦ elim (Bool-cases (is_reordered t s)) [
          | inl yes_old ↦
              let rep : repeats h t ≡ false = sym dup ∙ no_dup in
              let lat : late h t ≡ true = sym old ∙ yes_old in
              simp (no_dup, yes_old, rep, lat)
                (counted-IsValid input output in_fifo out_fifo h s (count_reordered s) v
                  v.input_valid refl refl refl v.forwarded_lt v.deduplicated_lt (omega arith))
          | inr no_old ↦
              let rep : repeats h t ≡ false = sym dup ∙ no_dup in
              let lat : late h t ≡ false = sym old ∙ no_old in
              simp (no_dup, no_old, rep, lat)
                (put-IsValid input output in_fifo out_fifo h t s k (output.try_push t out).0
                  (output.try_push t out).1 v (ground (arith, rep, lat)) pushed
                  (contents-try_push output out_fifo t out calm t
                    ∙ ap (λ l. l ++ (if (output.try_push t out).0 then t ∷ [] else [])) gone))
        ]
      ]

  -- A tick of the drain leaves the input alone, and is counted if it is not let through.
  pub drain_tick_counts :
      (k : ℕ) (h : List (MarketTick D)) (t : MarketTick D) (s : Normalizer D In Out)
      → IsValid input output in_fifo out_fifo h s
      → let s' = drain_tick input output k t s in
        (s'.input ≡ s.input)
        × (s'.ticks_deduplicated
            ≡ (if repeats h t then add_word s.ticks_deduplicated 1 else s.ticks_deduplicated))
        × (s'.ticks_reordered ≡ (
            if not (repeats h t) && late h t
            then add_word s.ticks_reordered 1
            else s.ticks_reordered))
  unfolding drain_tick update_state
  drain_tick_counts k h t s v =
      ground (arith, is_duplicate_lem h t s v.represents, is_reordered_lem h t s v.represents)

  -- What the drain leaves.
  pub record Drained (h : List (MarketTick D)) (s s' : Normalizer D In Out) : Type 0 where
    pub valid : IsValid input output in_fifo out_fifo (sift h (input.contents s.input)) s'
    pub emptied : input.contents s'.input ≡ []
    pub deduplicated :
        s'.ticks_deduplicated
        ≡ (s.ticks_deduplicated + repeats_of h (input.contents s.input)) % word
    pub reordered :
        s'.ticks_reordered ≡ (s.ticks_reordered + late_of h (input.contents s.input)) % word

  -- With more fuel than there are ticks the drain returns, whatever the consumer of the output does.
  -- It has then emptied the input, has let every tick through that the ticks before it admit, and has
  -- counted every repetition and every late tick. In the output the times of no symbol fall.
  pub drain_input_sifts :
      (fuel : ℕ) (env : ℕ → ℕ) (h : List (MarketTick D)) (s : Normalizer D In Out)
      → IsValid input output in_fifo out_fifo h s
      → length (input.contents s.input) < fuel
      → (s' : Normalizer D In Out) × (drain_input input output fuel env s ≡ some s')
        × Drained h s s'
  unfolding drain_input sift repeats_of late_of
  drain_input_sifts zero env h s v more = elim more [ ]
  drain_input_sifts (suc fuel) env h s v more =
      let t = (input.try_pop blank_tick s.input).1 in
      let rest = (input.try_pop blank_tick s.input).2 in
      let s1 = record s { input = rest } in
      let v1 = with_input h s rest v (in_fifo.pop-Valid blank_tick s.input v.input_valid) in
      elim (Bool-cases (input.try_pop blank_tick s.input).0) [
        | inl one ↦
            let e = pop_some input in_fifo blank_tick s.input v.input_valid one in
            let s2 = drain_tick input output (env fuel) t s1 in
            let counts = drain_tick_counts (env fuel) h t s1 v1 in
            let same : input.contents s2.input ≡ input.contents rest =
              ap (λ q. input.contents q) counts.0 in
            let (s', r, left) =
              drain_input_sifts fuel env (step h t) s2 (drain_tick-IsValid (env fuel) h t s1 v1)
                (ground (arith, counts)) in
            (
              s',
              rw one r,
              record {
                valid = rw (e, ← same) left.valid;
                emptied = left.emptied;
                deduplicated = ground (arith, left.deduplicated, counts, e, same);
                reordered = ground (arith, left.reordered, counts, e, same);
              },
            )
        | inr nothing ↦
            let e = pop_none input in_fifo blank_tick s.input v.input_valid nothing in
            (
              s1,
              rw nothing,
              record {
                valid = rw e.0 v1;
                emptied = e.1;
                deduplicated = ground arith;
                reordered = ground arith;
              },
            )
      ]
