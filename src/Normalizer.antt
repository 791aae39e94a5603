-- ===== src/Normalizer.antt =====
-- `Normalizer`, stage 3 of the pipeline: src/processing/src/Normalizer.cpp and
-- src/processing/include/processing/Normalizer.hpp. Log lines are left out.
pub mod History
pub mod State
pub mod Step
pub mod Drain
pub mod Forward
pub mod Run
mod Tests
use market_data_processor.Prelude.{
  ℕ, zero, suc, ◌*◌, ◌%◌, bit_xor, Bool, true, false, ◌&&◌, Option, none, some, List, [], ◌∷◌,
  if◌then◌else◌,
}
use market_data_processor.Prelude.Int.{ℤ, ltb_ℤ, eqb_ℤ}
use market_data_processor.Prelude.Dict.{find, assign, bytes_eq}
use market_data_processor.Double.{Double}
use market_data_processor.Channel.{Channel}
use market_data_processor.Ring.{word, add_word}
use market_data_processor.Stage.{Turn, push_wait, consume}
use market_data_processor.Stage.Rounds.{Round, arrive}
use market_data_processor.Tick.{MarketTick, blank_tick}

-- FNV-1a over the bytes, from the state `hash`; `symbol_hash` starts from the offset basis.
unfoldable pub fnv_1a : ℕ → List ℕ → ℕ
fnv_1a hash [] = hash
fnv_1a hash (c ∷ cs) = fnv_1a (bit_xor hash (c % 256) * 1099511628211 % word) cs

-- `SymbolHash::operator()`
unfoldable pub symbol_hash : List ℕ → ℕ
unfolding fnv_1a
symbol_hash symbol = fnv_1a 14695981039346656037 symbol

-- The object: its two ring buffers, the two maps by symbol, and `stats_`.
pub record Normalizer (D In Out : Type 0) : Type 0 where
  pub input : In
  pub output : Out
  pub last_timestamp : List (List ℕ × ℤ)
  pub last_tick : List (List ℕ × MarketTick D)
  pub ticks_forwarded : ℕ
  pub ticks_deduplicated : ℕ
  pub ticks_reordered : ℕ

-- `NormalizerStats::Snapshot`
pub record StatsSnapshot : Type 0 where
  pub ticks_forwarded : ℕ
  pub ticks_deduplicated : ℕ
  pub ticks_reordered : ℕ

module _ {D : Type 0} ⦃d : Double D⦄ {In Out : Type 0} where
  unfoldable pub stats : Normalizer D In Out → StatsSnapshot
  stats s = record {
    ticks_forwarded = s.ticks_forwarded;
    ticks_deduplicated = s.ticks_deduplicated;
    ticks_reordered = s.ticks_reordered;
  }

  unfoldable pub is_duplicate : MarketTick D → Normalizer D In Out → Bool
  is_duplicate t s = elim (find t.symbol s.last_tick) [
    | none ↦ false
    | some last ↦ d.eq last.price t.price && eqb_ℤ last.timestamp_ns t.timestamp_ns
  ]

  unfoldable pub is_reordered : MarketTick D → Normalizer D In Out → Bool
  is_reordered t s = elim (find t.symbol s.last_timestamp) [
    | none ↦ false
    | some last ↦ ltb_ℤ t.timestamp_ns last
  ]

  unfoldable pub update_state : MarketTick D → Normalizer D In Out → Normalizer D In Out
  update_state t s = record s {
    last_timestamp = assign t.symbol t.timestamp_ns s.last_timestamp;
    last_tick = assign t.symbol t s.last_tick;
  }

  abbrev pub count_duplicate : Normalizer D In Out → Normalizer D In Out
  count_duplicate s = record s { ticks_deduplicated = add_word s.ticks_deduplicated 1 }

  abbrev pub count_reordered : Normalizer D In Out → Normalizer D In Out
  count_reordered s = record s { ticks_reordered = add_word s.ticks_reordered 1 }

  -- The output after a push was tried; only a confirmed push is counted.
  abbrev pub put : Bool → Out → Normalizer D In Out → Normalizer D In Out
  put pushed out s = record s {
    output = out;
    ticks_forwarded = if pushed then add_word s.ticks_forwarded 1 else s.ticks_forwarded;
  }

  -- The end of `process_tick` for a tick that is forwarded.
  unfoldable pub forward :
      Normalizer D In Out → Option (Bool × Out) → Option (Bool × Normalizer D In Out)
  forward s none = none
  forward s (some (pushed, out)) = some (true, put pushed out s)

  module _ (input : Channel (MarketTick D) In) (output : Channel (MarketTick D) Out) where
    -- The result is the return value; `none` is a call that still waits for room in the output when
    -- the given turns are over.
    unfoldable pub process_tick :
        List Turn → Normalizer D In Out → Option (Bool × Normalizer D In Out)
    unfolding is_duplicate is_reordered update_state forward
    process_tick turns s =
        let (got, t, rest) = input.try_pop blank_tick s.input in
        let s1 = record s { input = rest } in
        if got
        then (if is_duplicate t s1
            then some (true, count_duplicate s1)
            else if is_reordered t s1
            then some (true, count_reordered s1)
            else forward (update_state t s1) (push_wait output blank_tick turns t s.output))
        else some (false, s1)

    -- The body of the loop of `drain_input`, on a tick that was popped; `k` is how many elements the
    -- consumer of the output takes before the push.
    unfoldable pub drain_tick : ℕ → MarketTick D → Normalizer D In Out → Normalizer D In Out
    unfolding is_duplicate is_reordered update_state
    drain_tick k t s =
        let (done, out) = output.try_push t (consume output blank_tick k s.output) in
        if is_duplicate t s
        then count_duplicate s
        else if is_reordered t s
        then count_reordered s
        else put done out (update_state t s)

    -- `drain_input` on fuel; `env` gives the consumer's moves by the fuel left. `none` is a loop
    -- that the fuel cuts off.
    unfoldable pub drain_input : ℕ → (ℕ → ℕ) → Normalizer D In Out → Option (Normalizer D In Out)
    drain_input zero env s = none
    drain_input (suc fuel) env s =
        let (got, t, rest) = input.try_pop blank_tick s.input in
        let s1 = record s { input = rest } in
        let next = drain_input fuel env (drain_tick (env fuel) t s1) in
        if got then next else some s1

    -- `run`: the loop, and the drain once a stop has been seen. `none` is a thread that is still in
    -- the loop when the given rounds are over.
    unfoldable pub run :
        ℕ
        → (ℕ → ℕ)
        → List (Round (MarketTick D))
        → Normalizer D In Out
        → Option (Normalizer D In Out)
    run fuel env [] s = none
    run fuel env (r ∷ rs) s =
        let s1 = record s { input = arrive input r.arrivals s.input } in
        if r.stop
        then drain_input fuel env s1
        else elim (process_tick r.turns s1) [ none ↦ none | some (got, s2) ↦ run fuel env rs s2 ]
