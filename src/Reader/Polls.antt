-- ===== src/Reader/Polls.antt =====
-- One poll: what it publishes of the rows that a query returns.
use mathlib.Core.List.{append-nil}
use market_data_processor.Prelude.{
  ℕ, suc, ◌+◌, ◌-◌, ◌%◌, ◌<◌, ◌≡◌, ◌≢◌, ◌↔◌, inl, inr, refl, ap, arith, min, true, none, some, List,
  [], ◌∷◌, ◌++◌, length, length-append, take, take-nil, if◌then◌else◌, Bool-cases, Option-cases,
}
use market_data_processor.Prelude.Int.{ℤ}
use market_data_processor.Double.{Double}
use market_data_processor.Channel.{Channel, IsFifo}
use market_data_processor.Ring.{word}
use market_data_processor.Stage.{append-take, consume, consume-Valid}
use market_data_processor.Tick.{MarketTick, blank_tick, make}
use market_data_processor.Reader.{
  TableRow, answered, Poll, done, lost, Reader, query, publish_row, push_rows, poll_reply,
  poll_symbol,
}

module _ {D : Type 0} ⦃d : Double D⦄ where
  -- Price, volume and epoch of the rows up to the first that does not convert.
  unfoldable pub converted : List (TableRow D) → List (D × D × D)
  converted [] = []
  converted (r ∷ rs) = elim r.price [
    | none ↦ []
    | some price ↦ elim r.volume [
      | none ↦ []
      | some volume ↦ (price, volume, r.epoch) ∷ converted rs
    ]
  ]

  -- Their ticks, all with side 2, from the row with the index `i` on.
  unfoldable pub ticks_of : (ℕ → ℤ) → List ℕ → ℕ → List (D × D × D) → List (MarketTick D)
  ticks_of clock symbol i [] = []
  ticks_of clock symbol i ((price, volume, epoch) ∷ rows) =
      make symbol price volume 2 (clock i) ∷ ticks_of clock symbol (suc i) rows

  -- The largest epoch, by `std::max`.
  unfoldable pub newest : D → List (D × D × D) → D
  newest last [] = last
  newest last ((price, volume, epoch) ∷ rows) =
      newest (if d.lt last epoch then epoch else last) rows

  length-ticks_of :
      (clock : ℕ → ℤ) (symbol : List ℕ) (i : ℕ) (rows : List (D × D × D))
      → length (ticks_of clock symbol i rows) ≡ length rows
  unfolding ticks_of
  length-ticks_of clock symbol i [] = refl
  length-ticks_of clock symbol i (r ∷ rows) = ap suc (length-ticks_of clock symbol (suc i) rows)

  module _ {Out : Type 0} (output : Channel (MarketTick D) Out) {OutValid : Out → Type 0}
      (out_fifo : IsFifo output OutValid) where
    pub record IsValid (s : Reader D Out) : Type 0 where
      pub output_valid : OutValid s.output
      pub published_lt : s.ticks_published < word
      pub dropped_lt : s.ticks_dropped < word

    abbrev room : Reader D Out → ℕ
    room s = output.capacity - length (output.contents s.output)

    -- What the rows, with the ticks `ts`, do to the reader.
    pub record Pushed (ts : List (MarketTick D)) (rows : List (D × D × D)) (s s' : Reader D Out)
        : Type 0 where
      pub valid : IsValid s'
      pub appended : output.contents s'.output ≡ output.contents s.output ++ take (room s) ts
      pub published : s'.ticks_published ≡ (s.ticks_published + min (room s) (length rows)) % word
      pub dropped : s'.ticks_dropped ≡ (s.ticks_dropped + (length rows - room s)) % word
      pub last : s'.last_seen_epoch ≡ newest s.last_seen_epoch rows

    Pushed-nil : (s : Reader D Out) → IsValid s → Pushed [] [] s s
    unfolding newest
    Pushed-nil s v = record {
      valid = v;
      appended =
          ground
            (arith, take-nil {A = MarketTick D} (room s), append-nil (output.contents s.output));
      published = omega (arith, v.published_lt);
      dropped = omega (arith, v.dropped_lt);
      last = refl;
    }

    pub publish_row-IsValid :
        (now : ℤ) (symbol : List ℕ) (price volume epoch : D) (s : Reader D Out)
        → IsValid s
        → IsValid (publish_row output now symbol price volume epoch s)
    unfolding publish_row
    publish_row-IsValid now symbol price volume epoch s v =
        ground (arith, out_fifo.push-Valid (make symbol price volume 2 now) s.output v.output_valid)

    Pushed-cons :
        (now : ℤ) (symbol : List ℕ) (price volume epoch : D) (ts : List (MarketTick D))
        (rows : List (D × D × D)) (s s' : Reader D Out)
        → IsValid s
        → Pushed ts rows (publish_row output now symbol price volume epoch s) s'
        → Pushed (make symbol price volume 2 now ∷ ts) ((price, volume, epoch) ∷ rows) s s'
    unfolding publish_row newest
    Pushed-cons now symbol price volume epoch ts rows s s' v p =
        let t = make symbol price volume 2 now in
        let out = output.contents s.output in
        let push = out_fifo.push_fifo t s.output v.output_valid in
        let longer = length-append out (t ∷ []) in
        record {
          valid = p.valid;
          appended = ground (arith, p.appended, push, append-take output.capacity t out ts);
          published = ground (arith, p.published, push, longer);
          dropped = ground (arith, p.dropped, push, longer);
          last = ground (arith, p.last);
        }

    push_rows-Pushed :
        (clock : ℕ → ℤ) (symbol : List ℕ) (i : ℕ) (rs : List (TableRow D)) (s : Reader D Out)
        → IsValid s
        → let rows = converted rs in
          Pushed (ticks_of clock symbol i rows) rows s (push_rows output clock symbol i rs s).1
          × (((push_rows output clock symbol i rs s).0 ≡ true) ↔ (length rows ≡ length rs))
    unfolding push_rows converted ticks_of
    push_rows-Pushed clock symbol i [] s v = (Pushed-nil s v, (λ _. refl, λ _. refl))
    push_rows-Pushed clock symbol i (r ∷ rs) s v = elim (Option-cases r.price) [
      | inl null ↦ simp null (Pushed-nil s v, (λ h. absurd (cc), λ h. absurd (omega arith)))
      | inr (price, p) ↦ elim (Option-cases r.volume) [
        | inl null ↦ simp (p, null) (Pushed-nil s v, (λ h. absurd (cc), λ h. absurd (omega arith)))
        | inr (volume, q) ↦
            let s1 = publish_row output (clock i) symbol price volume r.epoch s in
            let v1 = publish_row-IsValid (clock i) symbol price volume r.epoch s v in
            let (pushed, all) = push_rows-Pushed clock symbol (suc i) rs s1 v1 in
            simp (p, q)
              (
                Pushed-cons (clock i) symbol price volume r.epoch _ _ s _ v pushed,
                (λ h. ap suc (all.0 h), λ h. all.1 (omega arith)),
              )
      ]
    ]

    -- The reader once the consumer has taken its ticks.
    abbrev pub consumed_by : Poll D → Reader D Out → Reader D Out
    consumed_by p s = record s { output = consume output blank_tick p.consumed s.output }

    -- A poll that the database answers publishes the rows of the answer, up to the first that does
    -- not convert: their ticks go behind the output in order while there is room, and count as
    -- published; those without room are lost, and count as dropped. Either way `last_seen_epoch`
    -- becomes the newest of their epochs. The poll ends by an exception exactly if some row of the
    -- answer does not convert.
    pub poll_symbol_lem :
        (p : Poll D) (symbol : List ℕ) (table : List (TableRow D)) (s : Reader D Out)
        → IsValid s
        → p.reply ≡ answered table
        → let answer = query symbol s.last_seen_epoch table in
          let rows = converted answer in
          let (o, s') = poll_symbol output p symbol s in
          Pushed (ticks_of p.clock symbol 0 rows) rows (consumed_by p s) s'
          × ((o ≡ done) ↔ (length rows ≡ length answer))
          × (o ≢ lost)
    unfolding poll_symbol poll_reply
    poll_symbol_lem p symbol table s v reply =
        let s0 = consumed_by p s in
        let v0 : IsValid s0 = record {
          output_valid =
              consume-Valid output blank_tick out_fifo p.consumed s.output v.output_valid;
          published_lt = v.published_lt;
          dropped_lt = v.dropped_lt;
        } in
        let answer = query symbol s.last_seen_epoch table in
        let (pushed, all) = push_rows-Pushed p.clock symbol 0 answer s0 v0 in
        elim (Bool-cases (push_rows output p.clock symbol 0 answer s0).0) [
          | inl ok ↦ simp (reply, ok) (pushed, (λ _. all.0 ok, λ _. refl), λ h. absurd (cc))
          | inr bad ↦
              simp (reply, bad)
                (
                  pushed,
                  (λ h. absurd (cc), λ h. absurd (ground (arith, all.1 h))),
                  λ h. absurd (cc),
                )
        ]
