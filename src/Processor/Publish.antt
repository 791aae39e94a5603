-- ===== src/Processor/Publish.antt =====
-- The end of `BookProcessor::process_tick`: what it publishes to its two queues.
use market_data_processor.Prelude.{
  ℕ, ◌≡◌, inl, inr, refl, ap, ◌∙◌, arith, Bool, true, false, ◌&&◌, not, Option, none, some, List,
  [], ◌∷◌, ◌++◌, length, if◌then◌else◌, Bool-cases, ltb,
}
use market_data_processor.Prelude.Dict.{bytes_eq}
use market_data_processor.Double.{Double, IsOrdered}
use market_data_processor.Channel.{Channel, IsFifo}
use market_data_processor.Ring.{add_word}
use market_data_processor.Tick.{MarketTick, MarketSnapshot, c_string}
use market_data_processor.Book.{
  OrderBook, TopOfBook, apply, counted, best_bid, best_ask, top_of_book,
}
use market_data_processor.Book.Invariant.{IsBook}
use market_data_processor.Book.Views.{best_bid-IsNumber, best_ask-IsNumber}
use market_data_processor.Book.Update.{rejected, apply-rejected}
use market_data_processor.Processor.{
  offer, BookProcessor, open_book, update_book, process_tick, push_db, push_signal, make_snapshot,
  top_changed,
}
use market_data_processor.Processor.Step.{
  delta_of, open_book-IsBook, AllBooks, open_book-update_book,
}

module _ {T Q : Type 0} (c : Channel T Q) where
  -- The contents of a queue that may be missing.
  abbrev pub queued : Option Q → List T
  queued none = []
  queued (some q) = c.contents q

  -- Whether a push is refused: there is a queue, and it is full.
  abbrev pub refuses : Option Q → Bool
  refuses none = false
  refuses (some q) = not (ltb (length (c.contents q)) c.capacity)

  abbrev pub present : Option Q → Bool
  present none = false
  present (some q) = true

  module _ {Valid : Q → Type 0} (fifo : IsFifo c Valid) where
    abbrev pub EachValid : Option Q → Type 0
    EachValid none = Unit
    EachValid (some q) = Valid q

    pub offer_lem :
        (x : T) (o : Option Q)
        → EachValid o
        → let (pushed, o') = offer c x o in
          EachValid o'
          × (pushed ≡ not (refuses o))
          × (queued o' ≡ (if present o && not (refuses o) then queued o ++ (x ∷ []) else queued o))
    unfolding offer
    offer_lem x none v = (tt, refl, refl)
    offer_lem x (some q) v =
        let p = fifo.push_fifo x q v in (fifo.push-Valid x q v, ground arith, ground arith)

module _ {D : Type 0} ⦃d : Double D⦄ {In Db Sig : Type 0} (input : Channel (MarketTick D) In)
    (db : Channel (MarketSnapshot D) Db) (sig : Channel (MarketSnapshot D) Sig)
    {DbValid : Db → Type 0} {SigValid : Sig → Type 0} (db_fifo : IsFifo db DbValid)
    (sig_fifo : IsFifo sig SigValid) where
  pub record QueuesValid (s : BookProcessor D In Db Sig) : Type 0 where
    pub db_valid : EachValid db db_fifo s.db_queue
    pub signal_valid : EachValid sig sig_fifo s.signal_queue

  -- The tops of the book of a tick's symbol before and after the tick, and what is published.
  abbrev pub old_top : ℕ → MarketTick D → BookProcessor D In Db Sig → TopOfBook D
  old_top now t s = top_of_book now (open_book (c_string t.symbol) s)

  abbrev pub new_top : ℕ → MarketTick D → BookProcessor D In Db Sig → TopOfBook D
  new_top now t s =
      top_of_book now (apply (delta_of input db sig t s) (open_book (c_string t.symbol) s))

  abbrev pub published : ℕ → MarketTick D → BookProcessor D In Db Sig → MarketSnapshot D
  published now t s =
      make_snapshot t (new_top now t s)
        (apply (delta_of input db sig t s) (open_book (c_string t.symbol) s)).updates_applied

  process_tick_lem :
      (now0 now1 : ℕ) (t : MarketTick D) (s : BookProcessor D In Db Sig)
      → process_tick input db sig now0 now1 t s ≡ (
          if top_changed (old_top now0 t s) (new_top now1 t s)
          then push_signal input db sig
              (published now1 t s)
              (push_db input db sig (published now1 t s) (update_book input db sig t s))
          else update_book input db sig t s)
  unfolding process_tick
  process_tick_lem now0 now1 t s =
      ap
        (λ b.
          if top_changed (old_top now0 t s) (top_of_book now1 b)
          then push_signal input db sig (make_snapshot t (top_of_book now1 b) b.updates_applied) (
              push_db input db sig (make_snapshot t (top_of_book now1 b) b.updates_applied)
                (update_book input db sig t s))
          else update_book input db sig t s)
        (open_book-update_book input db sig t s)

  -- A tick leaves the queues alone unless it changes the best bid or the best ask of its symbol.
  -- Then the same snapshot goes behind both queues, as far as there are queues with room, and counts
  -- as dropped if the queue of the database is full. The books and the count of ticks are those of
  -- `update_book`.
  pub process_tick-publishes :
      (now0 now1 : ℕ) (t : MarketTick D) (s : BookProcessor D In Db Sig)
      → QueuesValid s
      → let s1 = update_book input db sig t s in
        let s' = process_tick input db sig now0 now1 t s in
        let changed = top_changed (old_top now0 t s) (new_top now1 t s) in
        let snap = published now1 t s in
        QueuesValid s'
        × (queued db s'.db_queue ≡ (
            if changed && (present db s.db_queue && not (refuses db s.db_queue))
            then queued db s.db_queue ++ (snap ∷ [])
            else queued db s.db_queue))
        × (queued sig s'.signal_queue ≡ (
            if changed && (present sig s.signal_queue && not (refuses sig s.signal_queue))
            then queued sig s.signal_queue ++ (snap ∷ [])
            else queued sig s.signal_queue))
        × (s'.snapshots_dropped ≡ (
            if changed && refuses db s.db_queue
            then add_word s.snapshots_dropped 1
            else s.snapshots_dropped))
        × (s'.books ≡ s1.books)
        × (s'.reference_price ≡ s1.reference_price)
        × (s'.ticks_processed ≡ s1.ticks_processed)
  unfolding update_book push_db push_signal
  process_tick-publishes now0 now1 t s v =
      let e = process_tick_lem now0 now1 t s in
      let snap = published now1 t s in
      let to_db = offer_lem db db_fifo snap s.db_queue v.db_valid in
      let to_signal = offer_lem sig sig_fifo snap s.signal_queue v.signal_valid in
      elim (Bool-cases (top_changed (old_top now0 t s) (new_top now1 t s))) [
        | inl changed ↦
            rw (e, changed)
              (
                record { db_valid = to_db.0; signal_valid = to_signal.0 },
                to_db.2,
                to_signal.2,
                ground (arith, to_db.1),
                refl,
                refl,
                refl,
              )
        | inr same ↦
            rw (e, same)
              (
                record { db_valid = v.db_valid; signal_valid = v.signal_valid },
                refl,
                refl,
                refl,
                refl,
                refl,
                refl,
              )
      ]

  -- A book of which nothing but the counters has changed has the same top.
  counted_top :
      (laws : IsOrdered d) (now0 now1 : ℕ) (b : OrderBook D)
      → IsBook b
      → top_changed (top_of_book now0 b) (top_of_book now1 (counted b)) ≡ false
  unfolding top_changed top_of_book best_bid best_ask
  counted_top laws now0 now1 b i =
      let nb = best_bid-IsNumber laws b i in let na = best_ask-IsNumber laws b i in ground arith

  -- A tick that the book rejects changes no level of it and publishes nothing.
  pub process_tick-rejected :
      (laws : IsOrdered d) (now0 now1 : ℕ) (t : MarketTick D) (s : BookProcessor D In Db Sig)
      → let b = open_book (c_string t.symbol) s in
        let b' = apply (delta_of input db sig t s) b in
        let s' = process_tick input db sig now0 now1 t s in
        AllBooks s
        → rejected (delta_of input db sig t s) b ≡ true
        → (b'.bids ≡ b.bids)
          × (b'.asks ≡ b.asks)
          × (s'.db_queue ≡ s.db_queue)
          × (s'.signal_queue ≡ s.signal_queue)
          × (s'.snapshots_dropped ≡ s.snapshots_dropped)
  unfolding update_book
  process_tick-rejected laws now0 now1 t s h r =
      let b = open_book (c_string t.symbol) s in
      let still = apply-rejected (delta_of input db sig t s) b r in
      let same : top_changed (old_top now0 t s) (new_top now1 t s) ≡ false =
        ap (λ x. top_changed (old_top now0 t s) (top_of_book now1 x)) still
        ∙ counted_top laws now0 now1 b (open_book-IsBook (c_string t.symbol) s h) in
      let e = process_tick_lem now0 now1 t s in
      (
        ap (λ x. x.bids) still,
        ap (λ x. x.asks) still,
        rw (e, same) refl,
        rw (e, same) refl,
        rw (e, same) refl,
      )
