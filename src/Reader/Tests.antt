-- ===== src/Reader/Tests.antt =====
-- A reader of two symbols on a concrete table, and the theorems at it.
use market_data_processor.Prelude.{
  ℕ, zero, suc, ◌≡◌, ◌≢◌, ◌↔◌, refl, arith, true, false, none, some, List, [], ◌∷◌, length, map,
}
use market_data_processor.Prelude.Int.{pos}
use market_data_processor.Double.{zero_lit}
use market_data_processor.Double.Fixed.{Fixed, fixed_double, fixed_IsOrdered, dec}
use market_data_processor.Ring.{Ring, try_push}
use market_data_processor.Stage.{consume}
use market_data_processor.Samples.{Tick, ticks, ticks_fifo, empty_ring, empty_ring-IsValid}
use market_data_processor.Tick.{fill, make}
use market_data_processor.Reader.{
  TableRow, Reply, answered, broken, Poll, done, lost, failed, Reader, Visit, Connection,
  interruptible_sleep, sleep_loop, select, query, new_reader, publish_row, push_rows, poll_reply,
  poll_symbol, symbol_loop, serve, connect_loop, run,
}
use market_data_processor.Reader.Polls.{converted, ticks_of, Pushed, consumed_by, poll_symbol_lem}
use market_data_processor.Reader.Newer.{newer_rows, connect_loop-newer_rows}
use market_data_processor.Reader.Run.{Returned, run_returns}

-- "AAPL" and "MSFT"
abbrev apple : List ℕ
apple = 65 ∷ 65 ∷ 80 ∷ 76 ∷ []

abbrev micro : List ℕ
micro = 77 ∷ 83 ∷ 70 ∷ 84 ∷ []

abbrev row_of : List ℕ → ℕ → ℕ → TableRow Fixed
row_of symbol price epoch = record {
  symbol = symbol;
  source = 1;
  price = some (dec price 0);
  volume = some (dec 1 0);
  epoch = dec epoch 0;
}

abbrev null_row : TableRow Fixed
null_row = record {
  symbol = apple;
  source = 1;
  price = none;
  volume = some (dec 1 0);
  epoch = dec 30 0;
}

abbrev table : List (TableRow Fixed)
table = row_of micro 7 10 ∷ row_of apple 5 20 ∷ null_row ∷ row_of apple 6 40 ∷ []

abbrev polling : Reply Fixed → Poll Fixed
polling r = record { stop = false; reply = r; consumed = 0; clock = pos }

abbrev reader : Reader Fixed (Ring Tick)
reader = record {
  output = empty_ring;
  ticks_published = 0;
  ticks_dropped = 0;
  last_seen_epoch = zero_lit;
}

starts : new_reader empty_ring ≡ reader
unfolding new_reader
starts = refl

-- A poll of the first symbol publishes the row before the one without a price, and fails.
stops_at_null : poll_symbol ticks (polling (answered table)) apple reader ≡ (
  failed,
  record {
    output = (try_push 2 (make apple (dec 5 0) (dec 1 0) 2 (pos 0)) empty_ring).1;
    ticks_published = 1;
    ticks_dropped = 0;
    last_seen_epoch = dec 20 0;
  },
)
unfolding poll_symbol poll_reply push_rows publish_row query select make fill try_push consume
stops_at_null = refl

abbrev visiting : Visit Fixed
visiting = record {
  stop = false;
  polls = λ _. polling (answered (row_of micro 7 10 ∷ row_of apple 5 20 ∷ []));
}

abbrev stopping : Visit Fixed
stopping = record { stop = true; polls = λ _. polling broken }

abbrev connections : List (Connection Fixed)
connections =
    record { stop = false; connects = true; visits = visiting ∷ stopping ∷ [] }
    ∷ record { stop = true; connects = true; visits = [] }
    ∷ []

-- The older row of the second symbol is never published.
overlooks :
    run ticks (apple ∷ micro ∷ []) connections reader
    ≡ some (record {
      output = (try_push 2 (make apple (dec 5 0) (dec 1 0) 2 (pos 0)) empty_ring).1;
      ticks_published = 1;
      ticks_dropped = 0;
      last_seen_epoch = dec 20 0;
    })
unfolding run connect_loop serve symbol_loop poll_symbol poll_reply push_rows publish_row query
    select make fill try_push consume
overlooks = refl

sleeps : interruptible_sleep (λ i. elim i [ zero ↦ false | suc _ ↦ true ]) 250 100 ≡ some 100
unfolding interruptible_sleep sleep_loop
sleeps = refl

poll_symbol_lem_example :
    let p = polling (answered table) in
    let answer = query apple zero_lit table in
    let rows = converted answer in
    let (o, s') = poll_symbol ticks p apple reader in
    Pushed ticks ticks_fifo
      (ticks_of pos apple 0 rows)
      rows
      (consumed_by ticks ticks_fifo p reader)
      s'
    × ((o ≡ done) ↔ (length rows ≡ length answer))
    × (o ≢ lost)
poll_symbol_lem_example =
    poll_symbol_lem ticks ticks_fifo (polling (answered table)) apple table reader
      (record {
        output_valid = empty_ring-IsValid;
        published_lt = omega arith;
        dropped_lt = omega arith;
      })
      refl

connect_loop-newer_rows_example :
    connect_loop ticks
      (micro ∷ [])
      (map (newer_rows (dec 20 0)) connections)
      (record reader { last_seen_epoch = dec 20 0 })
    ≡ connect_loop ticks (micro ∷ []) connections (record reader { last_seen_epoch = dec 20 0 })
connect_loop-newer_rows_example =
    connect_loop-newer_rows fixed_IsOrdered ticks (micro ∷ []) connections
      (record reader { last_seen_epoch = dec 20 0 })

run_returns_example :
    Returned ticks ticks_fifo
      (apple ∷ micro ∷ [])
      (run ticks (apple ∷ micro ∷ []) connections reader)
run_returns_example =
    run_returns ticks ticks_fifo (apple ∷ micro ∷ []) connections reader refl (record {
      valid = record {
        output_valid = empty_ring-IsValid;
        published_lt = omega arith;
        dropped_lt = omega arith;
      };
      trades = tt;
    })
