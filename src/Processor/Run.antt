-- ===== src/Processor/Run.antt =====
-- `BookProcessor::run`: the loop and the drain after it.
use market_data_processor.Prelude.{
  ℕ, zero, suc, ◌+◌, ◌%◌, ◌<◌, ◌≡◌, subst, arith, true, false, Option, some, List, [], ◌∷◌, length,
  All, Bool-cases, inl, inr,
}
use market_data_processor.Double.{Double, IsOrdered, IsNumber}
use market_data_processor.Channel.{Channel, IsFifo, pop_none, pop_some}
use market_data_processor.Ring.{add_word, word}
use market_data_processor.Stage.Rounds.{Round, stops, arrive, arrive-Valid, arrive-All}
use market_data_processor.Tick.{MarketTick, MarketSnapshot, blank_tick}
use market_data_processor.Processor.{
  BookProcessor, process_tick, drain, run, update_book, push_db, push_signal,
}
use market_data_processor.Processor.Step.{AllBooks, update_book-AllBooks}
use market_data_processor.Processor.Publish.{QueuesValid, process_tick-publishes}

module _ {D : Type 0} ⦃d : Double D⦄ {In Db Sig : Type 0} (input : Channel (MarketTick D) In)
    (db : Channel (MarketSnapshot D) Db) (sig : Channel (MarketSnapshot D) Sig)
    {InValid : In → Type 0} {DbValid : Db → Type 0} {SigValid : Sig → Type 0}
    (in_fifo : IsFifo input InValid) (db_fifo : IsFifo db DbValid) (sig_fifo : IsFifo sig SigValid)
    (laws : IsOrdered d) where
  abbrev pub IsPriced : MarketTick D → Type 0
  IsPriced t = IsNumber t.price

  -- The queues are valid, the books are well formed, and the ticks in the input have prices that are
  -- numbers, as `TickParser` sees to.
  pub record IsValid (s : BookProcessor D In Db Sig) : Type 0 where
    pub input_valid : InValid s.input
    pub queues_valid : QueuesValid input db sig db_fifo sig_fifo s
    pub books : AllBooks s
    pub priced : All IsPriced (input.contents s.input)
    pub processed_lt : s.ticks_processed < word

  with_input :
      (s : BookProcessor D In Db Sig) (q : In)
      → IsValid s
      → InValid q
      → All IsPriced (input.contents q)
      → IsValid (record s { input = q })
  with_input s q v iv p = record {
    input_valid = iv;
    queues_valid = record {
      db_valid = v.queues_valid.db_valid;
      signal_valid = v.queues_valid.signal_valid;
    };
    books = v.books;
    priced = p;
    processed_lt = v.processed_lt;
  }

  process_tick-input :
      (now0 now1 : ℕ) (t : MarketTick D) (s : BookProcessor D In Db Sig)
      → (process_tick input db sig now0 now1 t s).input ≡ s.input
  unfolding process_tick update_book push_db push_signal
  process_tick-input now0 now1 t s = ground arith

  pub process_tick-IsValid :
      (now0 now1 : ℕ) (t : MarketTick D) (s : BookProcessor D In Db Sig)
      → IsValid s
      → IsPriced t
      → IsValid (process_tick input db sig now0 now1 t s)
        × ((process_tick input db sig now0 now1 t s).ticks_processed ≡ add_word s.ticks_processed 1)
  unfolding update_book
  process_tick-IsValid now0 now1 t s v p =
      let effect =
        process_tick-publishes input db sig db_fifo sig_fifo now0 now1 t s v.queues_valid in
      let same = process_tick-input now0 now1 t s in
      let books = effect.4 in
      let processed = effect.6 in
      (
        record {
          input_valid = rw same v.input_valid;
          queues_valid = effect.0;
          books = rw books (update_book-AllBooks input db sig laws t s p v.books);
          priced = rw same v.priced;
          processed_lt = rw processed (omega arith);
        },
        processed,
      )

  popped :
      (s : BookProcessor D In Db Sig)
      → IsValid s
      → (input.try_pop blank_tick s.input).0 ≡ true
      → let t = (input.try_pop blank_tick s.input).1 in
        let s1 = record s { input = (input.try_pop blank_tick s.input).2 } in
        IsValid s1 × IsPriced t × (input.contents s.input ≡ t ∷ input.contents s1.input)
  popped s v one =
      let t = (input.try_pop blank_tick s.input).1 in
      let rest = (input.try_pop blank_tick s.input).2 in
      let e = pop_some input in_fifo blank_tick s.input v.input_valid one in
      let priced : All IsPriced (t ∷ input.contents rest) =
        subst (λ l. All IsPriced l) e v.priced in
      (
        with_input s rest v (in_fifo.pop-Valid blank_tick s.input v.input_valid) priced.1,
        priced.0,
        e,
      )

  emptied :
      (s : BookProcessor D In Db Sig)
      → IsValid s
      → (input.try_pop blank_tick s.input).0 ≡ false
      → let s1 = record s { input = (input.try_pop blank_tick s.input).2 } in
        IsValid s1 × (input.contents s.input ≡ []) × (input.contents s1.input ≡ [])
  emptied s v nothing =
      let rest = (input.try_pop blank_tick s.input).2 in
      let e = pop_none input in_fifo blank_tick s.input v.input_valid nothing in
      (
        with_input s rest v (in_fifo.pop-Valid blank_tick s.input v.input_valid) (rw e.1 tt),
        e.0,
        e.1,
      )

  -- With more fuel than there are ticks the loop after the stop returns. It has then processed every
  -- tick of the input, and counted it.
  pub drain_total :
      (fuel : ℕ) (clock : ℕ → ℕ × ℕ) (s : BookProcessor D In Db Sig)
      → IsValid s
      → length (input.contents s.input) < fuel
      → (s' : BookProcessor D In Db Sig) × (drain input db sig fuel clock s ≡ some s')
        × IsValid s'
        × (input.contents s'.input ≡ [])
        × (s'.ticks_processed ≡ (s.ticks_processed + length (input.contents s.input)) % word)
  unfolding drain
  drain_total zero clock s v more = elim more [ ]
  drain_total (suc fuel) clock s v more = elim (Bool-cases (input.try_pop blank_tick s.input).0) [
    | inl one ↦
        let t = (input.try_pop blank_tick s.input).1 in
        let s1 = record s { input = (input.try_pop blank_tick s.input).2 } in
        let (v1, priced, e) = popped s v one in
        let s2 = process_tick input db sig (clock fuel).0 (clock fuel).1 t s1 in
        let after = process_tick-IsValid (clock fuel).0 (clock fuel).1 t s1 v1 priced in
        let same = process_tick-input (clock fuel).0 (clock fuel).1 t s1 in
        let (s', r, v', none_left, counted) =
          drain_total fuel clock s2 after.0 (ground (arith, same, e)) in
        (s', rw one r, v', none_left, ground (arith, counted, after.1, same, e))
    | inr nothing ↦
        let s1 = record s { input = (input.try_pop blank_tick s.input).2 } in
        let (v1, e, e') = emptied s v nothing in
        (s1, rw nothing, v1, e', ground (arith, e, v.processed_lt))
  ]

  -- What a run leaves.
  abbrev pub Finished : Option (BookProcessor D In Db Sig) → Type 0
  Finished r =
      (s' : BookProcessor D In Db Sig) × (r ≡ some s')
      × (input.contents s'.input ≡ [])
      × AllBooks s'

  -- A run with a round in which a stop has been requested returns, if the fuel of the last loop
  -- exceeds the capacity of the input and the prices that arrive are numbers. It leaves the input
  -- empty, and every book well formed.
  pub run_books :
      (fuel : ℕ) (clock : ℕ → ℕ × ℕ) (rs : List (Round (MarketTick D)))
      (s : BookProcessor D In Db Sig)
      → input.capacity < fuel
      → stops rs ≡ true
      → All (λ r. All IsPriced r.arrivals) rs
      → IsValid s
      → Finished (run input db sig fuel clock rs s)
  unfolding run
  run_books fuel clock [] s big stop priced v = absurd (cc)
  run_books fuel clock (r ∷ rs) s big stop (p, ps) v =
      let q = arrive input r.arrivals s.input in
      let s0 = record s { input = q } in
      let v0 = with_input s q v (arrive-Valid input in_fifo r.arrivals s.input v.input_valid) (
        arrive-All input in_fifo IsPriced blank_tick r.arrivals s.input v.input_valid p v.priced) in
      elim (Bool-cases r.stop) [
        | inl now ↦
            let (s', e, v', none_left, counted) =
              drain_total fuel clock s0 v0 (omega (arith, in_fifo.bounded q v0.input_valid)) in
            rw now (s', e, none_left, v'.books)
        | inr go ↦ elim (Bool-cases (input.try_pop blank_tick q).0) [
          | inl one ↦
              let (v1, priced, e) = popped s0 v0 one in
              let s1 = record s { input = (input.try_pop blank_tick q).2 } in
              let t = (input.try_pop blank_tick q).1 in
              let after =
                process_tick-IsValid (clock (length rs)).0 (clock (length rs)).1 t s1 v1 priced in
              rw (go, one)
                (run_books fuel clock rs
                  (process_tick input db sig (clock (length rs)).0 (clock (length rs)).1 t s1) big
                  (ground arith) ps after.0)
          | inr nothing ↦
              let (v1, e, e') = emptied s0 v0 nothing in
              let s1 = record s { input = (input.try_pop blank_tick q).2 } in
              rw (go, nothing) (run_books fuel clock rs s1 big (ground arith) ps v1)
        ]
      ]
