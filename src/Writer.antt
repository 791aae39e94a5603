-- ===== src/Writer.antt =====
-- The database writers: `DbWriter` (src/infra/src/DbWriter.cpp) and `SignalDbWriter`
-- (src/infra/src/SignalDbWriter.cpp), whose loops are the same. Of the database the model keeps the
-- committed executions of the prepared statement, by the values bound to it; a transaction commits all
-- of its executions, or none if it throws. What an execution adds is up to the statement: an INSERT
-- from `Symbols`, so nothing for a symbol that is not in that table. Log lines are left out.
pub mod Stores
pub mod Bounds
pub mod Moves
pub mod Run
mod Tests
use market_data_processor.Prelude.{
  ℕ, zero, suc, ◌+◌, Bool, true, false, ◌||◌, not, Option, none, some, List, [], ◌∷◌, ◌++◌, map,
  length, leb, if◌then◌else◌,
}
use market_data_processor.Prelude.Int.{ℤ}
use market_data_processor.Channel.{Channel}
use market_data_processor.Stage.Rounds.{arrive}
use market_data_processor.Tick.{MarketSnapshot, c_string}
use market_data_processor.Signal.{Signal, SignalType, hold, buy, sell}
use market_data_processor.Double.{Double}

-- What `DbWriter::flush_to_db` binds to `insert_price`.
pub record PriceParams (D : Type 0) : Type 0 where
  pub symbol : List ℕ
  pub price : D
  pub volume : ℤ
  pub recorded_at : D

-- What `SignalDbWriter::flush_to_db` binds to `insert_signal`.
pub record SignalParams (D : Type 0) : Type 0 where
  pub symbol : List ℕ
  pub kind : List ℕ
  pub price : D
  pub recorded_at : D

-- "HOLD", "BUY" and "SELL"
abbrev pub type_str : SignalType → List ℕ
type_str hold = 72 ∷ 79 ∷ 76 ∷ 68 ∷ []
type_str buy = 66 ∷ 85 ∷ 89 ∷ []
type_str sell = 83 ∷ 69 ∷ 76 ∷ 76 ∷ []

module _ {D : Type 0} ⦃d : Double D⦄ where
  -- The time in seconds.
  abbrev pub seconds : ℤ → D
  seconds ns = d.div (d.of_i64 ns) (d.lit 1000000000 0)

  unfoldable pub price_params : MarketSnapshot D → PriceParams D
  unfolding c_string
  price_params snap = record {
    symbol = c_string snap.symbol;
    price = snap.price;
    volume = d.trunc_i64 snap.volume;
    recorded_at = seconds snap.timestamp_ns;
  }

  unfoldable pub signal_params : Signal D → SignalParams D
  unfolding c_string
  signal_params s = record {
    symbol = c_string s.symbol;
    kind = type_str s.kind;
    price = s.price;
    recorded_at = seconds s.timestamp_ns;
  }

-- The writer with the batch of the call of `process_queue`, and the values bound in the committed
-- executions of the statement, the oldest first.
pub record Writer (T Params In : Type 0) : Type 0 where
  pub input : In
  pub local_batch : List T
  pub committed : List Params

-- What happens around one round of the loop: whether a stop has been requested, what the producer
-- pushes, how many milliseconds have passed since the last flush, and whether a transaction commits.
pub record Beat (T : Type 0) : Type 0 where
  pub stop : Bool
  pub arrivals : List T
  pub elapsed : ℕ
  pub commits : Bool

-- How `process_queue` ends: by a stop, by an exception, or not within the given rounds.
pub data Exit (S : Type 0) : Type 0 where
  stopped : S → Exit S
  threw : S → Exit S
  waiting : Exit S

module _ {T Params In : Type 0} (input : Channel T In) (blank : T) (params : T → Params) where
  -- `flush_to_db` and the clearing of the batch: the transaction commits, or throws.
  unfoldable pub flush : Bool → Writer T Params In → Bool × Writer T Params In
  flush commits s = elim s.local_batch [
    | [] ↦ (true, s)
    | x ∷ xs ↦
        if commits
        then (true, record s { local_batch = []; committed = s.committed ++ map params (x ∷ xs) })
        else (false, s)
  ]

  -- The body of the loop: whether no exception was thrown, and the state.
  unfoldable pub queue_step : Beat T → Writer T Params In → Bool × Writer T Params In
  unfolding flush
  queue_step r s =
      let (got, x, rest) = input.try_pop blank (arrive input r.arrivals s.input) in
      let batch = if got then s.local_batch ++ (x ∷ []) else s.local_batch in
      let s1 = record s { input = rest; local_batch = batch } in
      if leb 100 (length batch) || leb 10 r.elapsed then flush r.commits s1 else (true, s1)

  -- The end of the call, once a stop has been seen.
  unfoldable pub close : Bool × Writer T Params In → Exit (Writer T Params In)
  close (true, s) = stopped s
  close (false, s) = threw s

  unfoldable pub process_queue : List (Beat T) → Writer T Params In → Exit (Writer T Params In)
  unfolding queue_step close flush
  process_queue [] s = waiting
  process_queue (r ∷ rs) s =
      let (ok, s1) = queue_step r s in
      let next = process_queue rs s1 in
      if r.stop then close (flush r.commits s) else if ok then next else threw s1

-- One turn of the loop of `run`: whether a stop has been requested, whether the connection and the
-- preparation of the statement succeed, and the rounds of the call of `process_queue`.
pub record Session (T : Type 0) : Type 0 where
  pub stop : Bool
  pub connects : Bool
  pub beats : List (Beat T)

-- The wait before the next attempt, `for (i = 0; i < 50; ++i) { if (stop) break; sleep(100 ms); }`,
-- from round `i` on with `n` rounds to go: the milliseconds that it sleeps. `stop` tells what each
-- round's test finds.
unfoldable pub retry_wait : ℕ → (ℕ → Bool) → ℕ → ℕ
retry_wait zero stop i = 0
retry_wait (suc n) stop i = elim (stop i) [ true ↦ 0 | false ↦ 100 + retry_wait n stop (suc i) ]

module _ {T Params In : Type 0} (input : Channel T In) (blank : T) (params : T → Params) where
  -- A call of `process_queue` starts with an empty batch, and drops what its batch holds at the end.
  unfoldable pub open_batch : Writer T Params In → Writer T Params In
  open_batch s = record s { local_batch = [] }

  -- `run`: an exception, also one of the connection, only leads to the next attempt. `none` is a
  -- thread that is still in its loop when the given sessions are over.
  unfoldable pub run : List (Session T) → Writer T Params In → Option (Writer T Params In)
  unfolding open_batch
  run [] s = none
  run (c ∷ cs) s =
      let again = run cs s in
      let served : Option (Writer T Params In) =
        elim (process_queue input blank params c.beats (open_batch s)) [
          | waiting ↦ none
          | stopped s' ↦ run cs (open_batch s')
          | threw s' ↦ run cs (open_batch s')
        ] in
      if c.stop then some s else if c.connects then served else again
