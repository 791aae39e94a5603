-- ===== src/Reader/Newer.antt =====
-- Which rows the reader ever publishes: those that are newer than `last_seen_epoch`, which all
-- symbols share.
use market_data_processor.Prelude.{
  ℕ, suc, ◌≡◌, ◌⊎◌, subst, inl, inr, refl, sym, ap, arith, Bool, true, Option, none, some, List, [],
  ◌∷◌, map, take, Bool-cases, Option-cases,
}
use market_data_processor.Prelude.Int.{ℤ}
use market_data_processor.Double.{Double, IsOrdered}
use market_data_processor.Channel.{Channel}
use market_data_processor.Tick.{MarketTick}
use market_data_processor.Reader.{
  TableRow, Reply, answered, broken, refused, Poll, Outcome, done, lost, failed, Reader, Visit,
  Connection, select, matches, query, publish_row, push_rows, poll_reply, poll_symbol, symbol_loop,
  serve, connect_loop,
}

module _ {T : Type 0} (p q : T → Bool) (implies : (x : T) → p x ≡ true → q x ≡ true) where
  -- A selection is not changed by a weaker one before it.
  select-select : (xs : List T) → select p (select q xs) ≡ select p xs
  unfolding select
  select-select [] = refl
  select-select (x ∷ xs) = ground (arith, implies x, select-select xs)

pub Outcome-cases : (o : Outcome) → (o ≡ done) ⊎ (o ≡ lost) ⊎ (o ≡ failed)
Outcome-cases done = inl refl
Outcome-cases lost = inr (inl refl)
Outcome-cases failed = inr (inr refl)

module _ {D : Type 0} ⦃d : Double D⦄ (e : D) where
  -- The same replies from tables that hold nothing but rows newer than `e`.
  abbrev newer : List (TableRow D) → List (TableRow D)
  newer = select (λ r. d.lt e r.epoch)

  abbrev newer_reply : Reply D → Reply D
  newer_reply (answered table) = answered (newer table)
  newer_reply broken = broken
  newer_reply refused = refused

  abbrev newer_poll : Poll D → Poll D
  newer_poll p = record p { reply = newer_reply p.reply }

  abbrev newer_visit : Visit D → Visit D
  newer_visit v = record v { polls = λ i. newer_poll (v.polls i) }

  abbrev pub newer_rows : Connection D → Connection D
  newer_rows c = record c { visits = map newer_visit c.visits }

  -- What is newer than `last` is newer than `e`.
  abbrev pub Covers : D → Type 0
  Covers last = (x : D) → d.lt last x ≡ true → d.lt e x ≡ true

  query-newer :
      (sym : List ℕ) (since : D) (table : List (TableRow D))
      → Covers since
      → query sym since (newer table) ≡ query sym since table
  unfolding query
  query-newer sym since table covers =
      ap (λ l. take 50 l)
        (select-select (matches sym since) (λ r. d.lt e r.epoch)
          (λ r h. covers r.epoch (ground arith)) table)

  module _ (laws : IsOrdered d) {Out : Type 0} (output : Channel (MarketTick D) Out) where
    publish_row-Covers :
        (now : _) (sym : List ℕ) (price volume epoch : D) (s : Reader D Out)
        → Covers s.last_seen_epoch
        → Covers (publish_row output now sym price volume epoch s).last_seen_epoch
    unfolding publish_row
    publish_row-Covers now sym price volume epoch s covers x h =
        ground (arith, covers x, laws.lt_trans s.last_seen_epoch epoch x)

    push_rows-Covers :
        (clock : _) (sym : List ℕ) (i : ℕ) (rs : List (TableRow D)) (s : Reader D Out)
        → Covers s.last_seen_epoch
        → Covers (push_rows output clock sym i rs s).1.last_seen_epoch
    unfolding push_rows
    push_rows-Covers clock sym i [] s covers = covers
    push_rows-Covers clock sym i (r ∷ rs) s covers = elim (Option-cases r.price) [
      | inl null ↦ simp null covers
      | inr (price, p) ↦ elim (Option-cases r.volume) [
        | inl null ↦ simp (p, null) covers
        | inr (volume, v) ↦
            simp (p, v)
              (push_rows-Covers clock sym (suc i) rs
                (publish_row output (clock i) sym price volume r.epoch s)
                (publish_row-Covers (clock i) sym price volume r.epoch s covers))
      ]
    ]

    -- A poll sees no older row anyway.
    poll_reply-newer :
        (clock : ℕ → ℤ) (symbol : List ℕ) (r : Reply D) (s : Reader D Out)
        → Covers s.last_seen_epoch
        → (poll_reply output clock symbol (newer_reply r) s ≡ poll_reply output clock symbol r s)
          × Covers (poll_reply output clock symbol r s).1.last_seen_epoch
    unfolding poll_reply
    poll_reply-newer clock symbol (answered table) s covers =
        let same = query-newer symbol s.last_seen_epoch table covers in
        let rows = query symbol s.last_seen_epoch table in
        (simp same, push_rows-Covers clock symbol 0 rows s covers)
    poll_reply-newer clock symbol broken s covers = (refl, covers)
    poll_reply-newer clock symbol refused s covers = (refl, covers)

    poll_symbol-newer :
        (p : Poll D) (symbol : List ℕ) (s : Reader D Out)
        → Covers s.last_seen_epoch
        → (poll_symbol output (newer_poll p) symbol s ≡ poll_symbol output p symbol s)
          × Covers (poll_symbol output p symbol s).1.last_seen_epoch
    unfolding poll_symbol
    poll_symbol-newer p symbol s covers = poll_reply-newer p.clock symbol p.reply _ covers

    symbol_loop-newer :
        (polls : ℕ → Poll D) (i : ℕ) (syms : List (List ℕ)) (s : Reader D Out)
        → Covers s.last_seen_epoch
        → (symbol_loop output (λ j. newer_poll (polls j)) i syms s
            ≡ symbol_loop output polls i syms s)
          × Covers (symbol_loop output polls i syms s).1.last_seen_epoch
    unfolding symbol_loop
    symbol_loop-newer polls i [] s covers = (refl, covers)
    symbol_loop-newer polls i (sym ∷ syms) s covers =
        let (same, covers1) = poll_symbol-newer (polls i) sym s covers in
        let s1 = (poll_symbol output (polls i) sym s).1 in
        let (rest, covers2) = symbol_loop-newer polls (suc i) syms s1 covers1 in
        elim (Bool-cases (polls i).stop) [
          | inl now ↦ simp now (refl, covers)
          | inr go ↦ elim (Outcome-cases (poll_symbol output (polls i) sym s).0) [
            | inl e ↦ simp (go, same, e) (rest, covers2)
            | inr (inl e) ↦ simp (go, same, e) (refl, covers1)
            | inr (inr e) ↦ simp (go, same, e) (refl, covers1)
          ]
        ]

    -- What holds of a loop that has ended.
    abbrev AllCovers : Option (Reader D Out) → Type 0
    AllCovers none = Unit
    AllCovers (some s) = Covers s.last_seen_epoch

    serve-newer :
        (symbols : List (List ℕ)) (vs : List (Visit D)) (s : Reader D Out)
        → Covers s.last_seen_epoch
        → (serve output symbols (map newer_visit vs) s ≡ serve output symbols vs s)
          × AllCovers (serve output symbols vs s)
    unfolding serve
    serve-newer symbols [] s covers = (refl, tt)
    serve-newer symbols (v ∷ vs) s covers =
        let (same, covers1) = symbol_loop-newer v.polls 0 symbols s covers in
        let s1 = (symbol_loop output v.polls 0 symbols s).1 in
        let (rest, covers2) = serve-newer symbols vs s1 covers1 in
        (
          ground (arith, same, rest),
          elim (Bool-cases v.stop) [
            | inl now ↦ simp now covers
            | inr go ↦ elim (Outcome-cases (symbol_loop output v.polls 0 symbols s).0) [
              | inl e ↦ simp (go, e) covers2
              | inr (inl e) ↦ simp (go, e) covers1
              | inr (inr e) ↦ simp (go, e) covers2
            ]
          ],
        )

    connect_loop-newer :
        (symbols : List (List ℕ)) (cs : List (Connection D)) (s : Reader D Out)
        → Covers s.last_seen_epoch
        → connect_loop output symbols (map newer_rows cs) s ≡ connect_loop output symbols cs s
    unfolding connect_loop
    connect_loop-newer symbols [] s covers = refl
    connect_loop-newer symbols (c ∷ cs) s covers =
        let (same, after) = serve-newer symbols c.visits s covers in
        let again = connect_loop-newer symbols cs s covers in
        elim (Option-cases (serve output symbols c.visits s)) [
          | inl e ↦ ground (arith, same, again)
          | inr (s1, e) ↦
              let covers1 : Covers s1.last_seen_epoch = subst AllCovers e after in
              ground (arith, same, again, connect_loop-newer symbols cs s1 covers1)
        ]

module _ {D : Type 0} ⦃d : Double D⦄ (laws : IsOrdered d) {Out : Type 0}
    (output : Channel (MarketTick D) Out) where
  -- Rows that are not newer than `last_seen_epoch` play no part in what is still to come, whatever
  -- symbol they belong to and whenever they are stored: the loop publishes, drops and counts as if every
  -- query were answered from the newer rows alone.
  pub connect_loop-newer_rows :
      (symbols : List (List ℕ)) (cs : List (Connection D)) (s : Reader D Out)
      → connect_loop output symbols (map (newer_rows s.last_seen_epoch) cs) s
        ≡ connect_loop output symbols cs s
  connect_loop-newer_rows symbols cs s =
      connect_loop-newer s.last_seen_epoch laws output symbols cs s (λ x h. h)
