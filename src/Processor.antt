-- ===== src/Processor.antt =====
-- `BookProcessor`, stage 4 of the pipeline: src/book/src/BookProcessor.cpp and
-- src/book/include/book/BookProcessor.hpp. Log lines are left out.
pub mod Side
pub mod Step
pub mod Publish
pub mod Run
pub mod Samples
mod Tests
mod RunTests
use market_data_processor.Prelude.{
  ℕ, zero, suc, Bool, true, false, ◌&&◌, ◌||◌, not, Option, none, some, List, [], ◌∷◌, length,
  if◌then◌else◌,
}
use market_data_processor.Prelude.Int.{to_u64, to_i64}
use market_data_processor.Prelude.Dict.{find, assign, bytes_eq}
use market_data_processor.Double.{Double, zero_lit, le}
use market_data_processor.Channel.{Channel}
use market_data_processor.Ring.{add_word}
use market_data_processor.Stage.Rounds.{Round, arrive}
use market_data_processor.Tick.{MarketTick, MarketSnapshot, blank_tick, c_string}
use market_data_processor.Book.{
  OrderSide, bid, ask, BookDelta, TopOfBook, OrderBook, new_book, apply, best_bid, best_ask,
  top_of_book,
}

-- A push through a pointer to a queue, which may be null: whether none was refused, and the queue.
module _ {T Q : Type 0} (c : Channel T Q) where
  unfoldable pub offer : T → Option Q → Bool × Option Q
  offer x none = (true, none)
  offer x (some q) = let (pushed, q') = c.try_push x q in (pushed, some q')

-- The object: its input, the two output queues that it may have, the books and the reference prices
-- by symbol, and its two counters.
pub record BookProcessor (D In Db Sig : Type 0) : Type 0 where
  pub input : In
  pub db_queue : Option Db
  pub signal_queue : Option Sig
  pub books : List (List ℕ × OrderBook D)
  pub reference_price : List (List ℕ × D)
  pub ticks_processed : ℕ
  pub snapshots_dropped : ℕ

module _ {D : Type 0} ⦃d : Double D⦄ where
  -- `kAlpha`, `kMinValidPrice`, `kMaxValidPrice`
  abbrev pub alpha : D
  alpha = d.lit 1 1

  abbrev pub min_valid_price : D
  min_valid_price = d.lit 10 2

  abbrev pub max_valid_price : D
  max_valid_price = d.lit 1000000 0

  abbrev pub side_of : D → D → OrderSide
  side_of price ref = if d.lt price ref then bid else ask

  -- `(best_bid + best_ask) / 2.0`
  abbrev pub mid : OrderBook D → D
  mid b = d.div (d.add (best_bid b) (best_ask b)) (d.lit 20 1)

  -- `would_cross`, for the side that was chosen.
  unfoldable pub would_cross : OrderSide → D → OrderBook D → Bool
  would_cross bid price b = d.lt zero_lit (best_ask b) && le (best_ask b) price
  would_cross ask price b = d.lt zero_lit (best_bid b) && le price (best_bid b)

  -- The part of `determine_side` for a known reference: the side, and the new reference.
  unfoldable pub classify : Option (OrderBook D) → D → D → OrderSide × D
  unfolding would_cross
  classify book price ref0 =
      let side0 = side_of price ref0 in
      let ref : D = elim book [
        | none ↦ ref0
        | some b ↦ if would_cross side0 price b then mid b else ref0
      ] in
      (side_of price ref, d.add (d.mul alpha price) (d.mul (d.sub (d.lit 10 1) alpha) ref))

  unfoldable pub tick_to_delta : MarketTick D → OrderSide → BookDelta D
  tick_to_delta t side = record {
    symbol = t.symbol;
    side = side;
    price = t.price;
    volume = d.trunc_u64 t.volume;
    timestamp_ns = to_u64 t.timestamp_ns;
  }

  -- The mid-price of the two sides, or the price of the side that is there.
  unfoldable pub snapshot_price : TopOfBook D → D
  snapshot_price top =
      if d.lt zero_lit top.best_bid && d.lt zero_lit top.best_ask
      then d.div (d.add top.best_bid top.best_ask) (d.lit 20 1)
      else if d.lt zero_lit top.best_bid
      then top.best_bid
      else top.best_ask

  -- `updates` is what `updates_applied()` returns.
  unfoldable pub make_snapshot : MarketTick D → TopOfBook D → ℕ → MarketSnapshot D
  unfolding snapshot_price
  make_snapshot t top updates = record {
    symbol = t.symbol;
    price = snapshot_price top;
    volume = d.of_u64 (add_word top.bid_volume top.ask_volume);
    timestamp_ns = t.timestamp_ns;
    sequence = to_i64 updates;
  }

  unfoldable pub top_changed : TopOfBook D → TopOfBook D → Bool
  top_changed old new = not (d.eq old.best_bid new.best_bid) || not (d.eq old.best_ask new.best_ask)

module _ {D : Type 0} ⦃d : Double D⦄ {In Db Sig : Type 0} where
  unfoldable pub book : List ℕ → BookProcessor D In Db Sig → Option (OrderBook D)
  book symbol s = find symbol s.books

  unfoldable pub books_active : BookProcessor D In Db Sig → ℕ
  books_active s = length s.books

  -- The side, and the reference prices afterwards.
  unfoldable pub determine_side :
      List ℕ → D → BookProcessor D In Db Sig → OrderSide × List (List ℕ × D)
  unfolding classify book
  determine_side symbol price s =
      if d.lt price min_valid_price || d.lt max_valid_price price
      then (bid, s.reference_price)
      else elim (find symbol s.reference_price) [
        | none ↦ (bid, assign symbol price s.reference_price)
        | some ref ↦
            let (side, ref') = classify (book symbol s) price ref in
            (side, assign symbol ref' s.reference_price)
      ]

  -- The book of the symbol, which is made if there is none.
  unfoldable pub open_book : List ℕ → BookProcessor D In Db Sig → OrderBook D
  unfolding new_book
  open_book symbol s = elim (find symbol s.books) [ none ↦ new_book symbol | some b ↦ b ]

  module _ (input : Channel (MarketTick D) In) (db : Channel (MarketSnapshot D) Db)
      (sig : Channel (MarketSnapshot D) Sig) where
    -- The pushes at the end of `process_tick`; only a push to a full `db_queue` counts as dropped.
    unfoldable pub push_db :
        MarketSnapshot D → BookProcessor D In Db Sig → BookProcessor D In Db Sig
    unfolding offer
    push_db snap s =
        let (pushed, q) = offer db snap s.db_queue in
        record s {
          db_queue = q;
          snapshots_dropped =
              if pushed then s.snapshots_dropped else add_word s.snapshots_dropped 1;
        }

    unfoldable pub push_signal :
        MarketSnapshot D → BookProcessor D In Db Sig → BookProcessor D In Db Sig
    unfolding offer
    push_signal snap s = record s { signal_queue = (offer sig snap s.signal_queue).1 }

    -- Everything up to the counting of the tick: the book is opened and updated.
    unfoldable pub update_book :
        MarketTick D → BookProcessor D In Db Sig → BookProcessor D In Db Sig
    unfolding determine_side tick_to_delta open_book apply
    update_book t s =
        let symbol = c_string t.symbol in
        let b = open_book symbol s in
        let s1 = record s { books = assign symbol b s.books } in
        let (side, refs) = determine_side symbol t.price s1 in
        record s1 {
          reference_price = refs;
          books = assign symbol (apply (tick_to_delta t side) b) s1.books;
          ticks_processed = add_word s.ticks_processed 1;
        }

    -- `now0` and `now1` are what the clock reads for the two tops of the book.
    unfoldable pub process_tick :
        ℕ → ℕ → MarketTick D → BookProcessor D In Db Sig → BookProcessor D In Db Sig
    unfolding update_book push_db push_signal make_snapshot top_changed open_book top_of_book
    process_tick now0 now1 t s =
        let symbol = c_string t.symbol in
        let s1 = update_book t s in
        let b1 = open_book symbol s1 in
        let old_top = top_of_book now0 (open_book symbol s) in
        let new_top = top_of_book now1 b1 in
        if top_changed old_top new_top
        then (let snap = make_snapshot t new_top b1.updates_applied in
            push_signal snap (push_db snap s1))
        else s1

    -- The loop after the stop, on fuel; `none` is a loop that the fuel cuts off. `clock` gives the
    -- readings by the fuel left.
    unfoldable pub drain :
        ℕ → (ℕ → ℕ × ℕ) → BookProcessor D In Db Sig → Option (BookProcessor D In Db Sig)
    unfolding process_tick
    drain zero clock s = none
    drain (suc fuel) clock s =
        let (got, t, rest) = input.try_pop blank_tick s.input in
        let s1 = record s { input = rest } in
        let (now0, now1) = clock fuel in
        let next = drain fuel clock (process_tick now0 now1 t s1) in if got then next else some s1

    -- `none` is a thread that is still in the loop when the given rounds are over.
    unfoldable pub run :
        ℕ
        → (ℕ → ℕ × ℕ)
        → List (Round (MarketTick D))
        → BookProcessor D In Db Sig
        → Option (BookProcessor D In Db Sig)
    unfolding process_tick
    run fuel clock [] s = none
    run fuel clock (r ∷ rs) s =
        let s0 = record s { input = arrive input r.arrivals s.input } in
        let (got, t, rest) = input.try_pop blank_tick s0.input in
        let s1 = record s0 { input = rest } in
        let (now0, now1) = clock (length rs) in
        let next = run fuel clock rs (if got then process_tick now0 now1 t s1 else s1) in
        if r.stop then drain fuel clock s0 else next
