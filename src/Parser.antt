-- ===== src/Parser.antt =====
-- `TickParser`, stage 2 of the pipeline: src/processing/src/TickParser.cpp and
-- src/processing/include/processing/TickParser.hpp.
pub mod Rules
pub mod Layout
pub mod Step
pub mod Drain
pub mod Run
mod Tests
use market_data_processor.Prelude.{
  ℕ, zero, suc, ◌+◌, Bool, true, false, ◌||◌, Option, none, some, List, [], ◌∷◌, get_or, set, ◌==◌,
  ltb, if◌then◌else◌, min,
}
use market_data_processor.Prelude.Int.{ℤ, pos, leb_ℤ}
use market_data_processor.Double.{Double, zero_lit, le, is_nan}
use market_data_processor.Channel.{Channel}
use market_data_processor.Ring.{add_word}
use market_data_processor.Stage.{Turn, push_wait, consume}
use market_data_processor.Stage.Rounds.{Round, arrive}
use market_data_processor.Tick.{MarketTick, blank_tick}

module _ {D : Type 0} ⦃d : Double D⦄ where
  unfoldable pub validate : MarketTick D → Bool
  validate t =
      if le t.price zero_lit || (is_nan t.price || d.is_inf t.price)
      then false
      else if le t.volume zero_lit || is_nan t.volume
      then false
      else if leb_ℤ t.timestamp_ns (pos 0)
      then false
      else if ltb 2 t.side
      then false
      else if get_or t.symbol 0 0 == 0
      then false
      else true

  unfoldable pub enrich : MarketTick D → MarketTick D
  enrich t = record t { symbol = set t.symbol 7 0; side = min t.side 2 }

-- The object: its two ring buffers and its two counters, which are `uint64_t`.
pub record Parser (In Out : Type 0) : Type 0 where
  pub input : In
  pub output : Out
  pub ticks_processed : ℕ
  pub ticks_rejected : ℕ

module _ {In Out : Type 0} where
  unfoldable pub count_processed : Parser In Out → Parser In Out
  count_processed s = record s { ticks_processed = add_word s.ticks_processed 1 }

  unfoldable pub count_rejected : Parser In Out → Parser In Out
  count_rejected s = record s { ticks_rejected = add_word s.ticks_rejected 1 }

  -- The end of `process_tick` for a tick that passed: only a confirmed push is counted.
  unfoldable pub forward : In → Parser In Out → Option (Bool × Out) → Option (Bool × Parser In Out)
  forward rest s none = none
  forward rest s (some (pushed, out)) =
      let s1 = record s { input = rest; output = out } in
      some (true, if pushed then count_processed s1 else s1)

module _ {D : Type 0} ⦃d : Double D⦄ {In Out : Type 0} where
  module _ (input : Channel (MarketTick D) In) (output : Channel (MarketTick D) Out) where
    -- `process_tick`; the result is its return value, and `none` is a call that still waits for
    -- room in the output when the given turns are over.
    unfoldable pub process_tick : List Turn → Parser In Out → Option (Bool × Parser In Out)
    unfolding forward count_rejected
    process_tick turns s =
        let (got, raw, rest) = input.try_pop blank_tick s.input in
        let s1 = record s { input = rest } in
        let t = enrich raw in
        if got
        then (if validate t
            then forward rest s (push_wait output blank_tick turns t s.output)
            else some (true, count_rejected s1))
        else some (false, s1)

    -- The body of the loop of `drain_input`, on a tick that was popped; `k` is how many elements
    -- the consumer of the output takes before the push.
    unfoldable pub drain_tick : ℕ → MarketTick D → Parser In Out → Parser In Out
    unfolding count_processed count_rejected
    drain_tick k raw s =
        let t = enrich raw in
        let (done, out) = output.try_push t (consume output blank_tick k s.output) in
        let s1 = record s { output = out } in
        if validate t then (if done then count_processed s1 else s1) else count_rejected s

    -- `drain_input` on fuel; `env` gives the consumer's moves by the fuel left. `none` is a loop
    -- that the fuel cuts off.
    unfoldable pub drain_input : ℕ → (ℕ → ℕ) → Parser In Out → Option (Parser In Out)
    drain_input zero env s = none
    drain_input (suc fuel) env s =
        let (got, raw, rest) = input.try_pop blank_tick s.input in
        let s1 = record s { input = rest } in
        let next = drain_input fuel env (drain_tick (env fuel) raw s1) in
        if got then next else some s1

    -- `run`: the loop, and the drain once a stop has been seen. `none` is a thread that is still in
    -- the loop when the given rounds are over.
    unfoldable pub run :
        ℕ → (ℕ → ℕ) → List (Round (MarketTick D)) → Parser In Out → Option (Parser In Out)
    run fuel env [] s = none
    run fuel env (r ∷ rs) s =
        let s1 = record s { input = arrive input r.arrivals s.input } in
        if r.stop
        then drain_input fuel env s1
        else elim (process_tick r.turns s1) [ none ↦ none | some (got, s2) ↦ run fuel env rs s2 ]
