-- ===== src/Parser/Step.antt =====
-- One call of `TickParser::process_tick`, over any two channels.
use mathlib.Core.List.{append-nil}
use market_data_processor.Prelude.{
  ℕ, ◌<◌, ◌≡◌, ◌≢◌, inl, inr, refl, arith, Bool, true, false, Option, none, some, List, [], ◌∷◌,
  ◌++◌, All, All-append, All-drop, drop, if◌then◌else◌, Bool-cases,
}
use market_data_processor.Double.{Double, IsOrdered}
use market_data_processor.Channel.{Channel, IsFifo, pop_none, pop_some}
use market_data_processor.Ring.{add_word, word}
use market_data_processor.Stage.{
  Turn, push_wait, released, stopped, push_wait-AfterWait, push_wait-ne-none, AfterWait,
}
use market_data_processor.Tick.{MarketTick, blank_tick}
use market_data_processor.Parser.{
  Parser, validate, enrich, process_tick, forward, count_processed, count_rejected,
}
use market_data_processor.Parser.Rules.{IsClean, validate_iff}

module _ {D : Type 0} ⦃d : Double D⦄ {In Out : Type 0} (input : Channel (MarketTick D) In)
    (output : Channel (MarketTick D) Out) where
  -- What one call does to the state `s`: nothing, or it takes the oldest tick of the input and
  -- counts it as rejected, or as forwarded, or loses it to a stop.
  pub data Outcome (turns : List Turn) (s : Parser In Out) (got : Bool) (s' : Parser In Out)
      : Type 0 where
    idle :
        got ≡ false
        → input.contents s.input ≡ []
        → input.contents s'.input ≡ []
        → s'.output ≡ s.output
        → s'.ticks_processed ≡ s.ticks_processed
        → s'.ticks_rejected ≡ s.ticks_rejected
        → Outcome turns s got s'
    rejected :
        (raw : MarketTick D)
        → got ≡ true
        → input.contents s.input ≡ raw ∷ input.contents s'.input
        → validate (enrich raw) ≡ false
        → s'.output ≡ s.output
        → s'.ticks_processed ≡ s.ticks_processed
        → s'.ticks_rejected ≡ add_word s.ticks_rejected 1
        → Outcome turns s got s'
    accepted :
        (raw : MarketTick D) (pushed : Bool) (taken : ℕ)
        → got ≡ true
        → input.contents s.input ≡ raw ∷ input.contents s'.input
        → validate (enrich raw) ≡ true
        → output.contents s'.output
          ≡ drop taken (output.contents s.output) ++ (if pushed then enrich raw ∷ [] else [])
        → s'.ticks_processed ≡ (if pushed then add_word s.ticks_processed 1 else s.ticks_processed)
        → s'.ticks_rejected ≡ s.ticks_rejected
        → (pushed ≡ false → stopped turns ≡ true)
        → Outcome turns s got s'

module _ {D : Type 0} ⦃d : Double D⦄ {In Out : Type 0} (input : Channel (MarketTick D) In)
    (output : Channel (MarketTick D) Out) {InValid : In → Type 0} {OutValid : Out → Type 0}
    (in_fifo : IsFifo input InValid) (out_fifo : IsFifo output OutValid) where
  pub record IsValid (s : Parser In Out) : Type 0 where
    pub input_valid : InValid s.input
    pub output_valid : OutValid s.output
    pub processed_lt : s.ticks_processed < word
    pub rejected_lt : s.ticks_rejected < word

  -- Vacuous for a call that still waits: `process_tick-ne-none` says when it returns.
  abbrev pub AfterCall : List Turn → Parser In Out → Option (Bool × Parser In Out) → Type 0
  AfterCall turns s none = Unit
  AfterCall turns s (some (got, s')) = IsValid s' × Outcome input output turns s got s'

  -- A tick that passed, once the wait for room is over.
  forwarded :
      (turns : List Turn) (s : Parser In Out) (sv : IsValid s) (raw : MarketTick D) (rest : In)
      (r : Option (Bool × Out))
      → InValid rest
      → input.contents s.input ≡ raw ∷ input.contents rest
      → validate (enrich raw) ≡ true
      → AfterWait output blank_tick out_fifo (enrich raw) s.output turns r
      → AfterCall turns s (forward rest s r)
  unfolding forward count_processed
  forwarded turns s sv raw rest none v e good w = tt
  forwarded turns s sv raw rest (some (true, out)) v e good w = (
    record {
      input_valid = v;
      output_valid = w.valid;
      processed_lt = omega (arith, sv.processed_lt);
      rejected_lt = sv.rejected_lt;
    },
    accepted raw true w.taken refl e good w.left refl refl w.reason,
  )
  forwarded turns s sv raw rest (some (false, out)) v e good w = (
    record {
      input_valid = v;
      output_valid = w.valid;
      processed_lt = omega (arith, sv.processed_lt);
      rejected_lt = sv.rejected_lt;
    },
    accepted raw false w.taken refl e good w.left refl refl w.reason,
  )

  -- Every call of `process_tick` that returns has one of the outcomes: it finds the input empty and
  -- changes nothing; or it takes the oldest tick and counts it as rejected, because it does not pass
  -- `validate`; or it puts the enriched tick behind what is left in the output and counts it as
  -- processed; or it loses the tick, uncounted, because of a stop.
  pub process_tick-AfterCall :
      (turns : List Turn) (s : Parser In Out)
      → IsValid s
      → AfterCall turns s (process_tick input output turns s)
  unfolding process_tick count_rejected
  process_tick-AfterCall turns s v =
      let rest = (input.try_pop blank_tick s.input).2 in
      let rest_valid : InValid rest = in_fifo.pop-Valid blank_tick s.input v.input_valid in
      let raw = (input.try_pop blank_tick s.input).1 in
      elim (Bool-cases (input.try_pop blank_tick s.input).0) [
        | inl one ↦
            let taken = pop_some input in_fifo blank_tick s.input v.input_valid one in
            elim (Bool-cases (validate (enrich raw))) [
              | inl good ↦
                  simp (one, good)
                    (forwarded turns s v raw rest
                      (push_wait output blank_tick turns (enrich raw) s.output) rest_valid taken
                      good
                      (push_wait-AfterWait output blank_tick out_fifo turns (enrich raw) s.output
                        v.output_valid))
              | inr bad ↦
                  simp (one, bad)
                    (
                      record {
                        input_valid = rest_valid;
                        output_valid = v.output_valid;
                        processed_lt = v.processed_lt;
                        rejected_lt = omega arith;
                      },
                      rejected raw refl taken bad refl refl refl,
                    )
            ]
        | inr none_left ↦
            let empty = pop_none input in_fifo blank_tick s.input v.input_valid none_left in
            simp none_left (
              record {
                input_valid = rest_valid;
                output_valid = v.output_valid;
                processed_lt = v.processed_lt;
                rejected_lt = v.rejected_lt;
              },
              idle refl empty.0 empty.1 refl refl refl,
            )
      ]

  -- A call returns as soon as a stop is requested or the consumer of the output takes an element.
  pub process_tick-ne-none :
      (turns : List Turn) (s : Parser In Out)
      → IsValid s
      → 0 < output.capacity
      → released turns ≡ true
      → process_tick input output turns s ≢ none
  unfolding process_tick forward
  process_tick-ne-none turns s v room r = ground (
    arith,
    push_wait-ne-none output blank_tick out_fifo turns (enrich (input.try_pop blank_tick s.input).1)
        s.output v.output_valid room r,
  )

  -- The ticks in the output stay clean.
  pub process_tick-IsClean :
      (laws : IsOrdered d) (turns : List Turn) (s : Parser In Out) {got : Bool} {s' : Parser In Out}
      → Outcome input output turns s got s'
      → All IsClean (output.contents s.output)
      → All IsClean (output.contents s'.output)
  process_tick-IsClean laws turns s (idle g e e' o p r) h = rw o h
  process_tick-IsClean laws turns s (rejected raw g e bad o p r) h = rw o h
  process_tick-IsClean laws turns s (accepted raw true taken g e good o p r w) h = rw o (
      All-append IsClean (drop taken (output.contents s.output)) (enrich raw ∷ [])
        (All-drop IsClean taken (output.contents s.output) h)
        ((validate_iff laws (enrich raw)).0 good, tt))
  process_tick-IsClean laws turns s (accepted raw false taken g e good o p r w) h =
      rw (o, append-nil) (All-drop IsClean taken (output.contents s.output) h)
