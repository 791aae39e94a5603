-- ===== src/Reader.antt =====
-- `PostgresFeedReader` (src/feed/src/PostgresFeedReader.cpp and
-- src/feed/include/feed/PostgresFeedReader.hpp). What the database holds at each query, which calls of
-- it throw, and the clocks are parameters; log lines are left out.
pub mod Sleep
pub mod Polls
pub mod Newer
pub mod Run
mod Tests
use market_data_processor.Prelude.{
  ℕ, zero, suc, ◌+◌, ◌-◌, min, Bool, true, false, ◌&&◌, Option, none, some, List, [], ◌∷◌, take,
  ltb, ◌==◌, if◌then◌else◌,
}
use market_data_processor.Prelude.Int.{ℤ}
use market_data_processor.Prelude.Dict.{same_bytes}
use market_data_processor.Double.{Double, zero_lit}
use market_data_processor.Channel.{Channel}
use market_data_processor.Ring.{add_word}
use market_data_processor.Stage.{consume}
use market_data_processor.Tick.{MarketTick, blank_tick, make}

-- `interruptible_sleep`, on fuel: the milliseconds that it sleeps, if the test of round `i` finds
-- `stop i`. The remaining time may fall below zero in the source, and ends the loop as zero does.
unfoldable pub sleep_loop : ℕ → (ℕ → Bool) → ℕ → ℕ → ℕ → Option ℕ
sleep_loop zero stop i slice remaining = none
sleep_loop (suc fuel) stop i slice remaining =
    let rest = sleep_loop fuel stop (suc i) slice (remaining - slice) in
    if ltb 0 remaining
    then (if stop i
        then some 0
        else elim rest [ none ↦ none | some t ↦ some (min slice remaining + t) ])
    else some 0

unfoldable pub interruptible_sleep : (ℕ → Bool) → ℕ → ℕ → Option ℕ
unfolding sleep_loop
interruptible_sleep stop total slice = sleep_loop (suc total) stop 0 slice total

-- A row of "MarketPrices" with the columns that the query reads; `none` is a value that does not
-- convert to `double`, such as NULL.
pub record TableRow (D : Type 0) : Type 0 where
  pub symbol : List ℕ
  pub source : ℕ
  pub price : Option D
  pub volume : Option D
  pub epoch : D

-- How the transaction of a poll goes: it answers from a table whose rows are in the order of
-- "RecordedAt", or it throws `pqxx::broken_connection`, or another exception.
pub data Reply (D : Type 0) : Type 0 where
  answered : List (TableRow D) → Reply D
  broken refused : Reply D

-- What happens around a poll of one symbol: whether a stop has been requested before it, the reply,
-- how many ticks the consumer of the output takes, and the readings of the clock.
pub record Poll (D : Type 0) : Type 0 where
  pub stop : Bool
  pub reply : Reply D
  pub consumed : ℕ
  pub clock : ℕ → ℤ

-- How a poll ends: by a return, by `broken_connection`, or by another exception.
pub data Outcome : Type 0 where
  done lost failed : Outcome

-- The object, with the local variable `last_seen_epoch` of `run`.
pub record Reader (D Out : Type 0) : Type 0 where
  pub output : Out
  pub ticks_published : ℕ
  pub ticks_dropped : ℕ
  pub last_seen_epoch : D

-- One turn of the inner loop of `run`, with its polls by the index of the symbol.
pub record Visit (D : Type 0) : Type 0 where
  pub stop : Bool
  pub polls : ℕ → Poll D

-- One turn of the outer loop.
pub record Connection (D : Type 0) : Type 0 where
  pub stop : Bool
  pub connects : Bool
  pub visits : List (Visit D)

module _ {T : Type 0} where
  unfoldable pub select : (T → Bool) → List T → List T
  select test [] = []
  select test (x ∷ xs) = let rest = select test xs in if test x then x ∷ rest else rest

module _ {D : Type 0} ⦃d : Double D⦄ where
  -- The WHERE clause.
  abbrev pub matches : List ℕ → D → TableRow D → Bool
  matches sym since r = r.source == 1 && (same_bytes r.symbol sym && d.lt since r.epoch)

  -- The SELECT statement.
  unfoldable pub query : List ℕ → D → List (TableRow D) → List (TableRow D)
  unfolding select
  query sym since table = take 50 (select (matches sym since) table)

  unfoldable pub new_reader : {Out : Type 0} → Out → Reader D Out
  new_reader out = record {
    output = out;
    ticks_published = 0;
    ticks_dropped = 0;
    last_seen_epoch = zero_lit;
  }

  module _ {Out : Type 0} (output : Channel (MarketTick D) Out) where
    -- The body of the loop over the rows, for a row that converts.
    unfoldable pub publish_row : ℤ → List ℕ → D → D → D → Reader D Out → Reader D Out
    unfolding make
    publish_row now sym price volume epoch s =
        let newest = if d.lt s.last_seen_epoch epoch then epoch else s.last_seen_epoch in
        let (pushed, out) = output.try_push (make sym price volume 2 now) s.output in
        let s1 = record s { output = out; last_seen_epoch = newest } in
        if pushed
        then record s1 { ticks_published = add_word s.ticks_published 1 }
        else record s1 { ticks_dropped = add_word s.ticks_dropped 1 }

    -- The loop over the rows, from the row with the index `i`: whether every row has converted.
    unfoldable pub push_rows :
        (ℕ → ℤ) → List ℕ → ℕ → List (TableRow D) → Reader D Out → Bool × Reader D Out
    unfolding publish_row
    push_rows clock sym i [] s = (true, s)
    push_rows clock sym i (r ∷ rs) s = elim r.price [
      | none ↦ (false, s)
      | some price ↦ elim r.volume [
        | none ↦ (false, s)
        | some volume ↦
            push_rows clock sym (suc i) rs (publish_row (clock i) sym price volume r.epoch s)
      ]
    ]

    -- What `poll_symbol` does with the reply: the rows are only read once the transaction is over.
    unfoldable pub poll_reply : (ℕ → ℤ) → List ℕ → Reply D → Reader D Out → Outcome × Reader D Out
    unfolding query push_rows
    poll_reply clock sym (answered table) s =
        let (converted, s1) = push_rows clock sym 0 (query sym s.last_seen_epoch table) s in
        (if converted then done else failed, s1)
    poll_reply clock sym broken s = (lost, s)
    poll_reply clock sym refused s = (failed, s)

    unfoldable pub poll_symbol : Poll D → List ℕ → Reader D Out → Outcome × Reader D Out
    unfolding poll_reply
    poll_symbol p sym s =
        poll_reply p.clock sym p.reply
          (record s { output = consume output blank_tick p.consumed s.output })

    -- The loop over the symbols, from the one with the index `i`.
    unfoldable pub symbol_loop :
        (ℕ → Poll D) → ℕ → List (List ℕ) → Reader D Out → Outcome × Reader D Out
    unfolding poll_symbol
    symbol_loop polls i [] s = (done, s)
    symbol_loop polls i (sym ∷ syms) s =
        let (o, s1) = poll_symbol (polls i) sym s in
        let next : Outcome × Reader D Out = elim o [
          | done ↦ symbol_loop polls (suc i) syms s1
          | lost ↦ (lost, s1)
          | failed ↦ (failed, s1)
        ] in
        if (polls i).stop then (done, s) else next

    -- The inner loop: only a lost connection and a stop end it. `none` is a loop that still runs when
    -- the given turns are over.
    unfoldable pub serve : List (List ℕ) → List (Visit D) → Reader D Out → Option (Reader D Out)
    unfolding symbol_loop
    serve symbols [] s = none
    serve symbols (v ∷ vs) s =
        let (o, s1) = symbol_loop v.polls 0 symbols s in
        let next : Option (Reader D Out) = elim o [
          | done ↦ serve symbols vs s1
          | lost ↦ some s1
          | failed ↦ serve symbols vs s1
        ] in
        if v.stop then some s else next

    unfoldable pub connect_loop :
        List (List ℕ) → List (Connection D) → Reader D Out → Option (Reader D Out)
    unfolding serve
    connect_loop symbols [] s = none
    connect_loop symbols (c ∷ cs) s =
        let again = connect_loop symbols cs s in
        let served : Option (Reader D Out) = elim (serve symbols c.visits s) [
          | none ↦ none
          | some s1 ↦ connect_loop symbols cs s1
        ] in
        if c.stop then some s else if c.connects then served else again

    unfoldable pub run : List (List ℕ) → List (Connection D) → Reader D Out → Option (Reader D Out)
    unfolding connect_loop
    run symbols cs s = connect_loop symbols cs (record s { last_seen_epoch = zero_lit })
