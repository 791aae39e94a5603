-- ===== src/Signal.antt =====
-- `SignalEngine`: src/strategy/src/SignalEngine.cpp, src/strategy/include/strategy/SignalEngine.hpp and
-- src/strategy/include/strategy/Signal.hpp. Log lines are left out.
pub mod Engine
pub mod Average
pub mod Run
mod Tests
use market_data_processor.Prelude.{
  ℕ, zero, suc, ◌+◌, Bool, true, false, ◌||◌, Option, none, some, List, [], ◌∷◌, replicate,
  if◌then◌else◌,
}
use market_data_processor.Prelude.Int.{ℤ, pos, negsuc}
use market_data_processor.Prelude.Dict.{find, assign, bytes_eq}
use market_data_processor.Double.{Double}
use market_data_processor.Channel.{Channel}
use market_data_processor.Stage.{Turn, consume}
use market_data_processor.Stage.Rounds.{Round, arrive}
use market_data_processor.Tick.{MarketSnapshot, blank_snapshot, c_string}

pub data SignalType : Type 0 where
  hold buy sell : SignalType

pub record Signal (D : Type 0) : Type 0 where
  pub symbol : List ℕ
  pub price : D
  pub ema_value : D
  pub timestamp_ns : ℤ
  pub kind : SignalType

-- The period that the constructor keeps: 20 in place of one that is not positive.
unfoldable pub checked_period : ℤ → ℕ
checked_period (pos zero) = 20
checked_period (pos (suc n)) = suc n
checked_period (negsuc n) = 20

pub record SignalEngine (D In Out : Type 0) : Type 0 where
  pub in_queue : In
  pub out_queue : Out
  pub period : ℕ
  pub alpha : D
  pub ema_map : List (List ℕ × D)

module _ {D : Type 0} ⦃d : Double D⦄ where
  -- `alpha_` for a period
  unfoldable pub alpha_of : ℕ → D
  alpha_of period = d.div (d.lit 20 1) (d.of_u64 (period + 1))

  -- The new average of a price: the price itself if there is no average yet.
  unfoldable pub next_ema : D → D → Option D → D
  next_ema alpha price none = price
  next_ema alpha price (some ema) = d.add (d.mul price alpha) (d.mul ema (d.sub (d.lit 10 1) alpha))

  -- The trading rules, with a margin of 0.1%.
  unfoldable pub decide : D → D → SignalType
  decide price ema =
      if d.lt ema (d.mul price (d.lit 999 3))
      then buy
      else if d.lt (d.mul price (d.lit 1001 3)) ema
      then sell
      else hold

  unfoldable pub signal_of : MarketSnapshot D → D → Signal D
  unfolding decide
  signal_of snap ema = record {
    symbol = snap.symbol;
    price = snap.price;
    ema_value = ema;
    timestamp_ns = snap.timestamp_ns;
    kind = decide snap.price ema;
  }

  -- `Signal{}`
  abbrev pub blank_signal : Signal D
  blank_signal = record {
    symbol = replicate 8 0;
    price = d.lit 0 0;
    ema_value = d.lit 0 0;
    timestamp_ns = pos 0;
    kind = hold;
  }

-- `while (!try_push(sig) && !stop_requested()) { yield(); }`: the push is tried before the stop is
-- tested. `none` is a loop that still waits when the given turns are over.
module _ {T Q : Type 0} (c : Channel T Q) (blank : T) where
  unfoldable pub push_first : List Turn → T → Q → Option (Bool × Q)
  push_first [] x q = none
  push_first (t ∷ ts) x q =
      let (done, q2) = c.try_push x (consume c blank t.consumed q) in
      let rest = push_first ts x q2 in
      if done then some (true, q2) else if t.stop then some (false, q2) else rest

module _ {D : Type 0} ⦃d : Double D⦄ {In Out : Type 0} where
  -- The constructor.
  unfoldable pub new_engine : In → Out → ℤ → SignalEngine D In Out
  unfolding checked_period alpha_of
  new_engine in_queue out_queue period = record {
    in_queue = in_queue;
    out_queue = out_queue;
    period = checked_period period;
    alpha = alpha_of (checked_period period);
    ema_map = [];
  }

  -- The average of a snapshot's symbol is brought up to date.
  unfoldable pub update_ema : MarketSnapshot D → SignalEngine D In Out → SignalEngine D In Out × D
  unfolding next_ema
  update_ema snap s =
      let sym = c_string snap.symbol in
      let ema = next_ema s.alpha snap.price (find sym s.ema_map) in
      (record s { ema_map = assign sym ema s.ema_map }, ema)

  -- The state once the wait for room in the output is over.
  unfoldable pub sent : SignalEngine D In Out → Option (Bool × Out) → Option (SignalEngine D In Out)
  sent s none = none
  sent s (some (pushed, out)) = some (record s { out_queue = out })

  module _ (input : Channel (MarketSnapshot D) In) (output : Channel (Signal D) Out) where
    -- The body of the loop of `run`.
    unfoldable pub engine_step : List Turn → SignalEngine D In Out → Option (SignalEngine D In Out)
    unfolding update_ema signal_of push_first sent
    engine_step turns s =
        let (got, snap, rest) = input.try_pop blank_snapshot s.in_queue in
        let s1 = record s { in_queue = rest } in
        let (s2, ema) = update_ema snap s1 in
        if got
        then sent s2 (push_first output blank_signal turns (signal_of snap ema) s.out_queue)
        else some s1

    -- `run`, which ends at once when it sees a stop. `none` is a thread that is still in the loop
    -- when the given rounds are over.
    unfoldable pub run :
        List (Round (MarketSnapshot D)) → SignalEngine D In Out → Option (SignalEngine D In Out)
    run [] s = none
    run (r ∷ rs) s =
        let s1 = record s { in_queue = arrive input r.arrivals s.in_queue } in
        if r.stop
        then some s1
        else elim (engine_step r.turns s1) [ none ↦ none | some s2 ↦ run rs s2 ]
