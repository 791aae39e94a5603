-- ===== src/Reader/Run.antt =====
-- `PostgresFeedReader::run`: that it comes to an end, and what it may have published by then.
use market_data_processor.Prelude.{
  ℕ, suc, ◌≡◌, ◌⊎◌, inl, inr, refl, arith, Bool, true, false, not, ◌&&◌, ◌||◌, Option, some, List,
  [], ◌∷◌, All, All-zip, Bool-cases, Option-cases,
}
use market_data_processor.Prelude.Int.{ℤ}
use market_data_processor.Double.{Double, zero_lit}
use market_data_processor.Channel.{Channel, IsFifo, try_push-All}
use market_data_processor.Stage.{consume-Valid, consume-All}
use market_data_processor.Tick.{MarketTick, blank_tick, make, fill}
use market_data_processor.Reader.{
  TableRow, Reply, answered, broken, refused, Poll, Reader, Visit, Connection, query, publish_row,
  push_rows, poll_reply, poll_symbol, symbol_loop, serve, connect_loop, run,
}
use market_data_processor.Reader.Polls.{IsValid, publish_row-IsValid}
use market_data_processor.Reader.Newer.{Outcome-cases}

abbrev pub Among : List ℕ → List (List ℕ) → Type 0
Among x [] = ⊥
Among x (y ∷ ys) = (x ≡ y) ⊎ Among x ys

All-Among : (xs : List (List ℕ)) → All (λ x. Among x xs) xs
All-Among [] = tt
All-Among (y ∷ ys) =
    let rest = All-Among ys in
    (
      inl refl,
      All-zip (λ x. Among x ys) (λ x. Among x ys) (λ x. Among x (y ∷ ys)) ys (λ x p q. inr p) rest
          rest,
    )

-- The stop comes; before it every connection is lost or sees a stop.
module _ {D : Type 0} where
  abbrev pub ends : List (Visit D) → Bool
  ends [] = false
  ends (v ∷ vs) = v.stop || ends vs

  abbrev pub closes : List (Connection D) → Bool
  closes [] = false
  closes (c ∷ cs) = c.stop || ((not c.connects || ends c.visits) && closes cs)

  -- A trade of a watched symbol.
  abbrev pub IsTrade : List (List ℕ) → MarketTick D → Type 0
  IsTrade symbols t =
      (t.side ≡ 2) × ((symbol : List ℕ) × Among symbol symbols × (t.symbol ≡ fill 8 symbol))

module _ {D : Type 0} ⦃d : Double D⦄ {Out : Type 0} (output : Channel (MarketTick D) Out)
    {OutValid : Out → Type 0} (out_fifo : IsFifo output OutValid) (symbols : List (List ℕ)) where
  -- The counters are in range, and the output holds only trades of watched symbols.
  pub record Trades (s : Reader D Out) : Type 0 where
    pub valid : IsValid output out_fifo s
    pub trades : All (IsTrade symbols) (output.contents s.output)

  publish_row-Trades :
      (now : ℤ) (symbol : List ℕ) (price volume epoch : D) (s : Reader D Out)
      → Among symbol symbols
      → Trades s
      → Trades (publish_row output now symbol price volume epoch s)
  unfolding publish_row
  publish_row-Trades now symbol price volume epoch s watched h =
      let t = make symbol price volume 2 now in
      let kept =
        try_push-All output out_fifo blank_tick s.output h.valid.output_valid (IsTrade symbols) t
          (unfold make in (refl, (symbol, watched, refl))) h.trades in
      record {
        valid = publish_row-IsValid output out_fifo now symbol price volume epoch s h.valid;
        trades = elim (Bool-cases (output.try_push t s.output).0) [
          | inl pushed ↦ rw pushed kept
          | inr full ↦ rw full kept
        ];
      }

  push_rows-Trades :
      (clock : ℕ → ℤ) (symbol : List ℕ) (i : ℕ) (rs : List (TableRow D)) (s : Reader D Out)
      → Among symbol symbols
      → Trades s
      → Trades (push_rows output clock symbol i rs s).1
  unfolding push_rows
  push_rows-Trades clock symbol i [] s watched h = h
  push_rows-Trades clock symbol i (r ∷ rs) s watched h = elim (Option-cases r.price) [
    | inl null ↦ simp null h
    | inr (price, p) ↦ elim (Option-cases r.volume) [
      | inl null ↦ simp (p, null) h
      | inr (volume, q) ↦
          simp (p, q)
            (push_rows-Trades clock symbol (suc i) rs
              (publish_row output (clock i) symbol price volume r.epoch s) watched
              (publish_row-Trades (clock i) symbol price volume r.epoch s watched h))
    ]
  ]

  poll_reply-Trades :
      (clock : ℕ → ℤ) (symbol : List ℕ) (r : Reply D) (s : Reader D Out)
      → Among symbol symbols
      → Trades s
      → Trades (poll_reply output clock symbol r s).1
  unfolding poll_reply
  poll_reply-Trades clock symbol (answered table) s watched h =
      push_rows-Trades clock symbol 0 (query symbol s.last_seen_epoch table) s watched h
  poll_reply-Trades clock symbol broken s watched h = h
  poll_reply-Trades clock symbol refused s watched h = h

  poll_symbol-Trades :
      (p : Poll D) (symbol : List ℕ) (s : Reader D Out)
      → Among symbol symbols
      → Trades s
      → Trades (poll_symbol output p symbol s).1
  unfolding poll_symbol
  poll_symbol-Trades p symbol s watched h =
      let calm = h.valid.output_valid in
      poll_reply-Trades p.clock symbol p.reply _ watched (record {
        valid = record {
          output_valid = consume-Valid output blank_tick out_fifo p.consumed s.output calm;
          published_lt = h.valid.published_lt;
          dropped_lt = h.valid.dropped_lt;
        };
        trades =
            consume-All output blank_tick out_fifo (IsTrade symbols) p.consumed s.output calm
              h.trades;
      })

  symbol_loop-Trades :
      (polls : ℕ → Poll D) (i : ℕ) (some_symbols : List (List ℕ)) (s : Reader D Out)
      → All (λ x. Among x symbols) some_symbols
      → Trades s
      → Trades (symbol_loop output polls i some_symbols s).1
  unfolding symbol_loop
  symbol_loop-Trades polls i [] s watched h = h
  symbol_loop-Trades polls i (x ∷ xs) s (w, ws) h =
      let s1 = (poll_symbol output (polls i) x s).1 in
      let h1 = poll_symbol-Trades (polls i) x s w h in
      elim (Bool-cases (polls i).stop) [
        | inl now ↦ simp now h
        | inr go ↦ elim (Outcome-cases (poll_symbol output (polls i) x s).0) [
          | inl e ↦ simp (go, e) (symbol_loop-Trades polls (suc i) xs s1 ws h1)
          | inr (inl e) ↦ simp (go, e) h1
          | inr (inr e) ↦ simp (go, e) h1
        ]
      ]

  -- What a loop leaves that has ended.
  abbrev pub Returned : Option (Reader D Out) → Type 0
  Returned r = (s' : Reader D Out) × (r ≡ some s') × Trades s'

  module _ (watched : All (λ x. Among x symbols) symbols) where
    serve-Returned :
        (vs : List (Visit D)) (s : Reader D Out)
        → ends vs ≡ true
        → Trades s
        → Returned (serve output symbols vs s)
    unfolding serve
    serve-Returned [] s stop h = absurd (cc)
    serve-Returned (v ∷ vs) s stop h =
        let s1 = (symbol_loop output v.polls 0 symbols s).1 in
        let h1 = symbol_loop-Trades v.polls 0 symbols s watched h in
        elim (Bool-cases v.stop) [
          | inl now ↦ simp now (s, refl, h)
          | inr go ↦
              let later = serve-Returned vs s1 (ground (arith, stop)) h1 in
              elim (Outcome-cases (symbol_loop output v.polls 0 symbols s).0) [
                | inl e ↦ simp (go, e) later
                | inr (inl e) ↦ simp (go, e) (s1, refl, h1)
                | inr (inr e) ↦ simp (go, e) later
              ]
        ]

    connect_loop-Returned :
        (cs : List (Connection D)) (s : Reader D Out)
        → closes cs ≡ true
        → Trades s
        → Returned (connect_loop output symbols cs s)
    unfolding connect_loop
    connect_loop-Returned [] s stop h = absurd (cc)
    connect_loop-Returned (c ∷ cs) s stop h = elim (Bool-cases c.stop) [
      | inl now ↦ simp now (s, refl, h)
      | inr go ↦ elim (Bool-cases c.connects) [
        | inl up ↦
            let (s1, e, h1) = serve-Returned c.visits s (ground (arith, stop)) h in
            simp (go, up, e) (connect_loop-Returned cs s1 (ground (arith, stop)) h1)
        | inr down ↦ simp (go, down) (connect_loop-Returned cs s (ground (arith, stop)) h)
      ]
    ]

  -- If a stop comes, also while a connection is served, the thread ends, whatever the queries return
  -- and whichever calls throw. If the output held only trades of watched symbols before, it holds only
  -- such afterwards.
  pub run_returns :
      (cs : List (Connection D)) (s : Reader D Out)
      → closes cs ≡ true
      → Trades s
      → Returned (run output symbols cs s)
  unfolding run
  run_returns cs s stop h =
      connect_loop-Returned (All-Among symbols) cs (record s { last_seen_epoch = zero_lit }) stop
        (record {
          valid = record {
            output_valid = h.valid.output_valid;
            published_lt = h.valid.published_lt;
            dropped_lt = h.valid.dropped_lt;
          };
          trades = h.trades;
        })
