-- ===== src/Book/Views.antt =====
-- What the readers of a book are told: `top_of_book`, `TopOfBook::is_valid`, `snapshot`, `clear`.
use mathlib.Core.List.{reverse-cons}
use market_data_processor.Prelude.{
  ℕ, suc, ◌≡◌, ◌⊎◌, inl, inr, refl, ap, ◌∙◌, arith, true, false, not, some, List, [], ◌∷◌, ◌++◌,
  map, reverse, All, head?, last?, All-head, All-last, head_none, last_none, Option-cases, length,
  length-reverse, All-reverse,
}
use market_data_processor.Double.{Double, IsOrdered, IsNumber, zero_lit}
use market_data_processor.Levels.{Levels, find_level}
use market_data_processor.Levels.Sorted.{IsSorted, IsSorted-IsNumber, find_level-All}
use market_data_processor.Book.{
  OrderSide, bid, ask, PriceLevel, BookDelta, OrderBook, best_bid, best_ask, top_of_book, is_valid,
  snapshot, level, apply, clear, crosses, new_book, bid_levels, ask_levels,
}
use market_data_processor.Book.Invariant.{
  OrderSide-cases, IsBook, NoneBelow, NoneAbove, NoneBelow-head, NoneAbove-last,
}
use market_data_processor.Book.Update.{side_levels, volume_at}

module _ {D : Type 0} ⦃d : Double D⦄ where
  -- Every element stands before the later ones.
  abbrev pub Ordered : (D → D → Type 0) → List (PriceLevel D) → Type 0
  Ordered R [] = Unit
  Ordered R (x ∷ xs) = All (λ y. R x.price y.price) xs × Ordered R xs

  -- No level of the side is better than the price.
  abbrev pub Unbeaten : OrderSide → D → OrderBook D → Type 0
  Unbeaten bid p b = NoneAbove p b.bids
  Unbeaten ask p b = NoneBelow p b.asks

  -- A side shown as empty, or by a level that it has and that no other level beats.
  abbrev pub Shows : OrderSide → OrderBook D → D → ℕ → Type 0
  Shows s b p v =
      ((side_levels s b ≡ []) × (p ≡ zero_lit) × (v ≡ 0))
      ⊎ ((volume_at s p b ≡ some v) × Unbeaten s p b)

  length-levels : (ls : Levels D) → length (map level ls) ≡ length ls
  length-levels [] = refl
  length-levels (l ∷ ls) = ap suc (length-levels ls)

  All-levels :
      (P : D → ℕ → Type 0) (ls : Levels D)
      → All (λ l. P l.0 l.1) ls
      → All (λ l. P l.price l.volume) (map level ls)
  All-levels P [] h = tt
  All-levels P (l ∷ ls) (h, hs) = (h, All-levels P ls hs)

  map-append-All :
      (R : D → D → Type 0) (m : D × ℕ) (ls : Levels D) (l : D × ℕ)
      → All (λ y. R m.0 y.price) (map level ls)
      → R m.0 l.0
      → All (λ y. R m.0 y.price) (map level (ls ++ (l ∷ [])))
  map-append-All R m [] l h k = (k, tt)
  map-append-All R m (n ∷ ls) l (h, hs) k = (h, map-append-All R m ls l hs k)

  -- One more level goes behind all that it must follow.
  Ordered-append :
      (R : D → D → Type 0) (ls : Levels D) (l : D × ℕ)
      → Ordered R (map level ls)
      → All (λ k. R k.0 l.0) ls
      → Ordered R (map level (ls ++ (l ∷ [])))
  Ordered-append R [] l h k = (tt, tt)
  Ordered-append R (m ∷ ls) l (h, hs) (k, ks) =
      (map-append-All R m ls l h k, Ordered-append R ls l hs ks)

  module _ (laws : IsOrdered d) where
    open laws use {lt_irrefl, number_of_lt, eq_iff, zero_number}

    Shows-same :
        (s : OrderSide) (b : OrderBook D) (p p' : D) (v v' : ℕ)
        → p' ≡ p
        → v' ≡ v
        → Shows s b p v
        → Shows s b p' v'
    Shows-same s b p p' v v' e f h = rw (e, f) h

    Shows-bid :
        (now : ℕ) (b : OrderBook D)
        → IsBook b
        → Shows bid b (top_of_book now b).best_bid (top_of_book now b).bid_volume
    unfolding top_of_book best_bid
    Shows-bid now b i = elim (Option-cases (last? b.bids)) [
      | inl e ↦ inl (last_none b.bids e, ground arith, ground arith)
      | inr ((p, v), e) ↦
          let found : find_level p b.bids ≡ some v =
            All-last (λ l. find_level l.0 b.bids ≡ some l.1) b.bids (p, v) e
              (find_level-All laws b.bids i.bids_sorted) in
          Shows-same bid b p (top_of_book now b).best_bid v (top_of_book now b).bid_volume
            (ground arith) (ground arith)
            (inr (found, NoneAbove-last laws p b.bids i.bids_sorted (rw e (lt_irrefl p))))
    ]

    Shows-ask :
        (now : ℕ) (b : OrderBook D)
        → IsBook b
        → Shows ask b (top_of_book now b).best_ask (top_of_book now b).ask_volume
    unfolding top_of_book best_ask
    Shows-ask now b i = elim (Option-cases (head? b.asks)) [
      | inl e ↦ inl (head_none b.asks e, ground arith, ground arith)
      | inr ((p, v), e) ↦
          let found : find_level p b.asks ≡ some v =
            All-head (λ l. find_level l.0 b.asks ≡ some l.1) b.asks (p, v) e
              (find_level-All laws b.asks i.asks_sorted) in
          Shows-same ask b p (top_of_book now b).best_ask v (top_of_book now b).ask_volume
            (ground arith) (ground arith)
            (inr (found, NoneBelow-head laws p b.asks i.asks_sorted (rw e (lt_irrefl p))))
    ]

    -- The top of a book shows each side by zeros if it has no levels, and else by a level of that
    -- side with its volume, of which no level of the side is better.
    top_of_book-Shows :
        (now : ℕ) (b : OrderBook D)
        → IsBook b
        → let t = top_of_book now b in
          Shows bid b t.best_bid t.bid_volume × Shows ask b t.best_ask t.ask_volume
    top_of_book-Shows now b i = (Shows-bid now b i, Shows-ask now b i)

    -- If both best prices are positive, the best bid is not above the best ask, and the top of the
    -- book is valid exactly if it is not locked, that is, if the best bid does not equal the best ask.
    pub is_valid-top_of_book :
        (now : ℕ) (b : OrderBook D)
        → IsBook b
        → let t = top_of_book now b in
          d.lt zero_lit t.best_bid ≡ true
          → d.lt zero_lit t.best_ask ≡ true
          → (d.lt t.best_ask t.best_bid ≡ false) × (is_valid t ≡ not (d.eq t.best_bid t.best_ask))
    unfolding top_of_book best_bid best_ask is_valid
    is_valid-top_of_book now b i pb pa = elim (Option-cases (last? b.bids)) [
      | inl e ↦ absurd (ground (arith, lt_irrefl zero_lit))
      | inr ((p, v), e) ↦ elim (Option-cases (head? b.asks)) [
        | inl f ↦ absurd (ground (arith, lt_irrefl zero_lit))
        | inr ((q, w), f) ↦
            let fits : NoneBelow p b.asks =
              All-last (λ l. NoneBelow l.0 b.asks) b.bids (p, v) e i.uncrossed in
            let apart : d.lt q p ≡ false =
              All-head (λ l. d.lt l.0 p ≡ false) b.asks (q, w) f fits in
            let numbers = number_of_lt zero_lit p in
            let numbers' = number_of_lt zero_lit q in ground (arith, eq_iff p q)
      ]
    ]

    pub best_bid-IsNumber : (b : OrderBook D) → IsBook b → IsNumber (best_bid b)
    unfolding best_bid
    best_bid-IsNumber b i = elim (Option-cases (last? b.bids)) [
      | inl e ↦ rw (best_bid, e) zero_number
      | inr (l, e) ↦
          rw (best_bid, e)
            (All-last (λ l. IsNumber l.0) b.bids l e (IsSorted-IsNumber b.bids i.bids_sorted))
    ]

    pub best_ask-IsNumber : (b : OrderBook D) → IsBook b → IsNumber (best_ask b)
    unfolding best_ask
    best_ask-IsNumber b i = elim (Option-cases (head? b.asks)) [
      | inl e ↦ rw (best_ask, e) zero_number
      | inr (l, e) ↦
          rw (best_ask, e)
            (All-head (λ l. IsNumber l.0) b.asks l e (IsSorted-IsNumber b.asks i.asks_sorted))
    ]

    rising : (ls : Levels D) → IsSorted ls → Ordered (λ p q. d.lt p q ≡ true) (map level ls)
    rising [] s = tt
    rising ((p, v) ∷ ls) (n, above, s) = (All-levels (λ q _. d.lt p q ≡ true) ls above, rising ls s)

    falling :
        (ls : Levels D) → IsSorted ls → Ordered (λ p q. d.lt q p ≡ true) (map level (reverse ls))
    falling [] s = tt
    falling ((p, v) ∷ ls) (n, above, s) = rw reverse-cons (
        Ordered-append (λ p q. d.lt q p ≡ true) (reverse ls) (p, v) (falling ls s)
          (All-reverse (λ l. d.lt p l.0 ≡ true) ls above))

    -- The bids of a snapshot fall and its asks rise; it has every level of the book, with the volume
    -- that the book has at its price.
    pub snapshot_lem :
        (now : ℕ) (b : OrderBook D)
        → IsBook b
        → let s = snapshot now b in
          Ordered (λ p q. d.lt q p ≡ true) s.bids
          × Ordered (λ p q. d.lt p q ≡ true) s.asks
          × (length s.bids ≡ bid_levels b)
          × (length s.asks ≡ ask_levels b)
          × All (λ l. volume_at bid l.price b ≡ some l.volume) s.bids
          × All (λ l. volume_at ask l.price b ≡ some l.volume) s.asks
    unfolding snapshot bid_levels ask_levels
    snapshot_lem now b i =
        let bids = find_level-All laws b.bids i.bids_sorted in
        (
          falling b.bids i.bids_sorted,
          rising b.asks i.asks_sorted,
          length-levels (reverse b.bids) ∙ length-reverse b.bids,
          length-levels b.asks,
          All-levels (λ p v. find_level p b.bids ≡ some v) (reverse b.bids)
              (All-reverse (λ l. find_level l.0 b.bids ≡ some l.1) b.bids bids),
          All-levels (λ p v. find_level p b.asks ≡ some v) b.asks
              (find_level-All laws b.asks i.asks_sorted),
        )

  clear-apply : (delta : BookDelta D) (b : OrderBook D) → clear (apply delta b) ≡ clear b
  unfolding apply clear crosses
  clear-apply delta b = ground (arith, OrderSide-cases delta.side)

  -- The updates in order.
  abbrev pub replay : List (BookDelta D) → OrderBook D → OrderBook D
  replay [] b = b
  replay (delta ∷ deltas) b = replay deltas (apply delta b)

  clears : (deltas : List (BookDelta D)) (b : OrderBook D) → clear (replay deltas b) ≡ clear b
  clears [] b = refl
  clears (delta ∷ deltas) b = clears deltas (apply delta b) ∙ clear-apply delta b

  -- Whatever updates a new book has seen, `clear` makes it the new book again.
  pub clear-replay :
      (deltas : List (BookDelta D)) (symbol : List ℕ)
      → clear (replay deltas (new_book symbol)) ≡ new_book symbol
  unfolding clear new_book
  clear-replay deltas symbol = clears deltas (new_book symbol)
