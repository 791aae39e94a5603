-- ===== src/Book/Invariant.antt =====
-- What every operation of an order book keeps: sorted sides, no empty levels, no crossed book.
use market_data_processor.Prelude.{
  ℕ, ◌<◌, ◌≡◌, ◌⊎◌, refl, arith, false, ◌&&◌, none, some, List, [], ◌∷◌, if◌then◌else◌, All, head?,
  last?, Bool-cases, inl, inr, ltb, ◌==◌,
}
use market_data_processor.Double.{Double, IsOrdered, IsNumber}
use market_data_processor.Levels.{Levels, set_level, erase_level}
use market_data_processor.Levels.Sorted.{
  IsSorted, Above, All-set_level, All-erase_level, set_level-IsSorted, erase_level-IsSorted,
}
use market_data_processor.Book.{
  OrderSide, bid, ask, BookDelta, OrderBook, counted, new_book, crosses, apply, clear,
}

pub OrderSide-cases : (s : OrderSide) → (s ≡ bid) ⊎ (s ≡ ask)
OrderSide-cases bid = inl refl
OrderSide-cases ask = inr refl

module _ {D : Type 0} ⦃d : Double D⦄ where
  -- No ask of the list is below `p`; no bid of the list is above `p`.
  abbrev pub NoneBelow : D → Levels D → Type 0
  NoneBelow p = All λ l. d.lt l.0 p ≡ false

  abbrev pub NoneAbove : D → Levels D → Type 0
  NoneAbove p = All λ l. d.lt p l.0 ≡ false

  pub record IsBook (b : OrderBook D) : Type 0 where
    pub bids_sorted : IsSorted b.bids
    pub asks_sorted : IsSorted b.asks
    pub bids_filled : All (λ l. 0 < l.1) b.bids
    pub asks_filled : All (λ l. 0 < l.1) b.asks
    pub uncrossed : All (λ l. NoneBelow l.0 b.asks) b.bids

  pub new_book-IsBook : (symbol : List ℕ) → IsBook (new_book symbol)
  unfolding new_book
  new_book-IsBook symbol = omega arith

  pub clear-IsBook : (b : OrderBook D) → IsBook (clear b)
  unfolding clear
  clear-IsBook b = omega arith

  module _ (laws : IsOrdered d) where
    open laws use {lt_irrefl, lt_trans, lt_split}

    Above-NoneBelow : (q p : D) (ls : Levels D) → d.lt q p ≡ false → Above q ls → NoneBelow p ls
    Above-NoneBelow q p [] h a = tt
    Above-NoneBelow q p ((r, w) ∷ ls) h (a, rest) =
        (ground (arith, lt_trans q r p a), Above-NoneBelow q p ls h rest)

    -- A price that is not above the first key is above no key.
    pub NoneBelow-head :
        (p : D) (ls : Levels D)
        → IsSorted ls
        → (elim (head? ls) [ none ↦ false | some (q, v) ↦ d.lt q p ]) ≡ false
        → NoneBelow p ls
    NoneBelow-head p [] s h = tt
    NoneBelow-head p ((q, w) ∷ ls) (n, above, s) h = (h, Above-NoneBelow q p ls h above)

    -- A price that is not below the last key is below no key.
    pub NoneAbove-last :
        (p : D) (ls : Levels D)
        → IsSorted ls
        → (elim (last? ls) [ none ↦ false | some (q, v) ↦ d.lt p q ]) ≡ false
        → NoneAbove p ls
    NoneAbove-last p [] s h = tt
    NoneAbove-last p ((q, w) ∷ []) s h = (h, tt)
    NoneAbove-last p ((q, w) ∷ (r, v) ∷ ls) (n, above, s) h =
        let ih = NoneAbove-last p ((r, v) ∷ ls) s h in (ground (arith, ih.0, lt_trans p q r), ih)

    -- No new ask lies below a bid.
    uncrossed_ask :
        (p : D) (v : ℕ) (bids asks : Levels D)
        → NoneAbove p bids
        → All (λ l. NoneBelow l.0 asks) bids
        → All (λ l. NoneBelow l.0 (set_level p v asks)) bids
    uncrossed_ask p v [] asks h u = tt
    uncrossed_ask p v ((q, w) ∷ bids) asks (h, hs) (u, us) = (
      All-set_level (λ l. d.lt l.0 q ≡ false) p v asks (λ _ _ k. k) h u,
      uncrossed_ask p v bids asks hs us,
    )

    uncrossed_erase :
        (p : D) (bids asks : Levels D)
        → All (λ l. NoneBelow l.0 asks) bids
        → All (λ l. NoneBelow l.0 (erase_level p asks).1) bids
    uncrossed_erase p [] asks u = tt
    uncrossed_erase p ((q, w) ∷ bids) asks (u, us) =
        (All-erase_level (λ l. d.lt l.0 q ≡ false) p asks u, uncrossed_erase p bids asks us)

    bid-IsBook :
        (b b' : OrderBook D) (p : D) (v : ℕ)
        → IsBook b
        → IsNumber p
        → (0 < v → NoneBelow p b.asks)
        → b'.asks ≡ b.asks
        → b'.bids ≡ (if v == 0 then (erase_level p b.bids).1 else set_level p v b.bids)
        → IsBook b'
    bid-IsBook b b' p v i n guard asks bids = elim (Bool-cases (v == 0)) [
      | inl none_left ↦
          let gone : b'.bids ≡ (erase_level p b.bids).1 = rw none_left at bids in
          record {
            bids_sorted = rw gone (erase_level-IsSorted laws p b.bids i.bids_sorted);
            asks_sorted = rw asks i.asks_sorted;
            bids_filled = rw gone (All-erase_level (λ l. 0 < l.1) p b.bids i.bids_filled);
            asks_filled = rw asks i.asks_filled;
            uncrossed =
                rw (gone, asks) (All-erase_level (λ l. NoneBelow l.0 b.asks) p b.bids i.uncrossed);
          }
      | inr some_left ↦
          let put : b'.bids ≡ set_level p v b.bids = rw some_left at bids in
          let pos : 0 < v = ground arith in
          record {
            bids_sorted = rw put (set_level-IsSorted laws p v b.bids n i.bids_sorted);
            asks_sorted = rw asks i.asks_sorted;
            bids_filled =
                rw put (All-set_level (λ l. 0 < l.1) p v b.bids (λ _ _ _. pos) pos i.bids_filled);
            asks_filled = rw asks i.asks_filled;
            uncrossed =
                rw (put, asks)
                  (All-set_level (λ l. NoneBelow l.0 b.asks) p v b.bids (λ _ _ k. k) (guard pos)
                    i.uncrossed);
          }
    ]

    ask-IsBook :
        (b b' : OrderBook D) (p : D) (v : ℕ)
        → IsBook b
        → IsNumber p
        → (0 < v → NoneAbove p b.bids)
        → b'.bids ≡ b.bids
        → b'.asks ≡ (if v == 0 then (erase_level p b.asks).1 else set_level p v b.asks)
        → IsBook b'
    ask-IsBook b b' p v i n guard bids asks = elim (Bool-cases (v == 0)) [
      | inl none_left ↦
          let gone : b'.asks ≡ (erase_level p b.asks).1 = rw none_left at asks in
          record {
            bids_sorted = rw bids i.bids_sorted;
            asks_sorted = rw gone (erase_level-IsSorted laws p b.asks i.asks_sorted);
            bids_filled = rw bids i.bids_filled;
            asks_filled = rw gone (All-erase_level (λ l. 0 < l.1) p b.asks i.asks_filled);
            uncrossed = rw (gone, bids) (uncrossed_erase p b.bids b.asks i.uncrossed);
          }
      | inr some_left ↦
          let put : b'.asks ≡ set_level p v b.asks = rw some_left at asks in
          let pos : 0 < v = ground arith in
          record {
            bids_sorted = rw bids i.bids_sorted;
            asks_sorted = rw put (set_level-IsSorted laws p v b.asks n i.asks_sorted);
            bids_filled = rw bids i.bids_filled;
            asks_filled =
                rw put (All-set_level (λ l. 0 < l.1) p v b.asks (λ _ _ _. pos) pos i.asks_filled);
            uncrossed = rw (put, bids) (uncrossed_ask p v b.bids b.asks (guard pos) i.uncrossed);
          }
    ]

    counted-IsBook : (b : OrderBook D) → IsBook b → IsBook (counted b)
    counted-IsBook b i = record {
      bids_sorted = i.bids_sorted;
      asks_sorted = i.asks_sorted;
      bids_filled = i.bids_filled;
      asks_filled = i.asks_filled;
      uncrossed = i.uncrossed;
    }

    -- An update at a price that is a number keeps the sides of the book sorted, leaves no level with
    -- volume 0, and leaves no bid above an ask.
    pub apply-IsBook :
        (delta : BookDelta D) (b : OrderBook D)
        → IsNumber delta.price
        → IsBook b
        → IsBook (apply delta b)
    unfolding apply crosses
    apply-IsBook delta b n i =
        let b1 = counted b in
        let i1 = counted-IsBook b i in
        elim (Bool-cases (ltb 0 delta.volume && crosses b1 delta)) [
          | inl rejected ↦ simp rejected i1
          | inr kept ↦ elim (OrderSide-cases delta.side) [
            | inl e ↦
                bid-IsBook b1 (apply delta b) delta.price delta.volume i1 n
                  (λ pos. NoneBelow-head delta.price b.asks i.asks_sorted (ground arith))
                  (ground arith) (ground arith)
            | inr e ↦
                ask-IsBook b1 (apply delta b) delta.price delta.volume i1 n
                  (λ pos. NoneAbove-last delta.price b.bids i.bids_sorted (ground arith))
                  (ground arith) (ground arith)
          ]
        ]
