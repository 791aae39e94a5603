-- ===== src/Processor/Side.antt =====
-- `BookProcessor::determine_side`: the side of a tick, and the reference price of its symbol.
use market_data_processor.Prelude.{
  ℕ, ◌≡◌, ◌≢◌, inl, inr, refl, ap, arith, true, false, ◌&&◌, not, ◌<◌, none, some, List, [],
  if◌then◌else◌, head?, last?, Option-cases,
}
use market_data_processor.Prelude.Dict.{
  find, bytes_eq, same_bytes_iff, find-assign, find-assign_self,
}
use market_data_processor.Double.{Double, IsOrdered, IsNumber, zero_lit, le}
use market_data_processor.Book.{
  OrderSide, bid, ask, OrderBook, apply, counted, crosses, best_bid, best_ask, top_of_book,
}
use market_data_processor.Book.Invariant.{IsBook}
use market_data_processor.Book.Update.{apply-rejected}
use market_data_processor.Book.Views.{is_valid-top_of_book}
use market_data_processor.Levels.{Levels}
use market_data_processor.Tick.{MarketTick}
use market_data_processor.Processor.{
  BookProcessor, book, determine_side, classify, side_of, mid, alpha, would_cross, min_valid_price,
  max_valid_price, tick_to_delta,
}

module _ {D : Type 0} ⦃d : Double D⦄ {In Db Sig : Type 0} where
  -- A price out of range makes a bid and leaves all references alone; the first price of a symbol
  -- makes a bid and becomes the reference; any other price is classified by the book and the
  -- reference, and moves the reference. The references of other symbols do not change.
  pub determine_side_lem :
      (symbol : List ℕ) (price : D) (s : BookProcessor D In Db Sig)
      → let (side, refs) = determine_side symbol price s in
        let valid = not (d.lt price min_valid_price) && not (d.lt max_valid_price price) in
        ((valid ≡ false) → (side ≡ bid) × (refs ≡ s.reference_price))
        × ((valid ≡ true)
            → find symbol s.reference_price ≡ none
            → (side ≡ bid) × (find symbol refs ≡ some price))
        × ((ref : D)
            → valid ≡ true
            → find symbol s.reference_price ≡ some ref
            → let (side', ref') = classify (book symbol s) price ref in
              (side ≡ side') × (find symbol refs ≡ some ref'))
        × ((key : List ℕ) → key ≢ symbol → find key refs ≡ find key s.reference_price)
  unfolding determine_side
  determine_side_lem symbol price s = (
    λ bad. ground arith,
    λ good new. ground (arith, find-assign_self symbol price s.reference_price),
    λ ref good known.
        ground
          (arith, find-assign_self symbol (classify (book symbol s) price ref).1 s.reference_price),
    λ key other. elim (Option-cases (find symbol s.reference_price)) [
      | inl new ↦
          ground (arith, same_bytes_iff symbol key, find-assign key symbol price s.reference_price)
      | inr (ref, known) ↦ ground (
        arith,
        same_bytes_iff symbol key,
        find-assign key symbol (classify (book symbol s) price ref).1 s.reference_price,
      )
    ],
  )

-- The mid-price of a book lies between its best prices, ends included: true of doubles unless the
-- sum overflows.
module _ {D : Type 0} ⦃d : Double D⦄ where
  pub record IsBetween (b : OrderBook D) : Type 0 where
    pub number : IsNumber (mid b)
    pub above_bid : d.lt (mid b) (best_bid b) ≡ false
    pub below_ask : d.lt (best_ask b) (mid b) ≡ false

  -- The guard of `apply`, told of the best prices.
  crosses_best :
      (t : MarketTick D) (b : OrderBook D) (side : OrderSide)
      → (side ≡ bid → d.lt (best_ask b) t.price ≡ false)
      → (side ≡ ask → d.lt t.price (best_bid b) ≡ false)
      → crosses b (tick_to_delta t side) ≡ false
  unfolding crosses tick_to_delta best_bid best_ask
  crosses_best t b bid up down =
      let h = up refl in
      elim (Option-cases (head? b.asks)) [ inl e ↦ ground arith | inr (l, e) ↦ ground arith ]
  crosses_best t b ask up down =
      let h = down refl in
      elim (Option-cases (last? b.bids)) [ inl e ↦ ground arith | inr (l, e) ↦ ground arith ]

  would_cross_lem :
      (price ref : D) (b : OrderBook D)
      → d.lt zero_lit (best_bid b) ≡ true
      → d.lt zero_lit (best_ask b) ≡ true
      → would_cross (side_of price ref) price b
        ≡ (if d.lt price ref then le (best_ask b) price else le price (best_bid b))
  unfolding would_cross
  would_cross_lem price ref b pb pa = ground arith

  -- Half the best bid: the reference after a reset for a book without asks, whose best ask reads as 0.
  abbrev pub half_bid : OrderBook D → D
  half_bid b = d.div (d.add (best_bid b) zero_lit) (d.lit 20 1)

  module _ (laws : IsOrdered d) where
    open laws use {lt_irrefl, lt_trans, lt_split, number_of_lt, eq_iff}

    -- The same of the bare prices: `low` and `high` are the best bid and the best ask.
    reset_lem :
        (low high middle price ref : D)
        → d.lt high low ≡ false
        → d.lt middle low ≡ false
        → d.lt high middle ≡ false
        → IsNumber low
        → IsNumber high
        → IsNumber middle
        → IsNumber price
        → let crossing = if d.lt price ref then le high price else le price low in
          let lower = d.lt price (if crossing then middle else ref) in
          (lower ≡ true → d.lt high price ≡ false) × (lower ≡ false → d.lt price low ≡ false)
    reset_lem low high middle price ref u ml hm nl nh nm np = ground (
      arith,
      eq_iff high price,
      eq_iff price low,
      lt_split price high low,
      lt_split price middle low,
      lt_trans high price low,
      lt_trans high price middle,
    )

    -- The reset works for a book with two sides, whose best prices are positive: the tick gets a
    -- side on which its price does not cross the book, whatever the reference price was, so `apply`
    -- does not reject it.
    pub classify-crosses :
        (t : MarketTick D) (ref : D) (b : OrderBook D)
        → IsBook b
        → IsBetween b
        → IsNumber t.price
        → d.lt zero_lit (best_bid b) ≡ true
        → d.lt zero_lit (best_ask b) ≡ true
        → crosses b (tick_to_delta t (classify (some b) t.price ref).0) ≡ false
    unfolding classify top_of_book
    classify-crosses t ref b i m n pb pa =
        let nl = (number_of_lt zero_lit (best_bid b) pb).1 in
        let nh = (number_of_lt zero_lit (best_ask b) pa).1 in
        let apart : d.lt (best_ask b) (best_bid b) ≡ false =
          (is_valid-top_of_book laws 0 b i pb pa).0 in
        let r =
          reset_lem (best_bid b) (best_ask b) (mid b) t.price ref apart m.above_bid m.below_ask nl
            nh m.number n in
        let w = would_cross_lem t.price ref b pb pa in
        crosses_best t b (classify (some b) t.price ref).0 (λ e. ground (arith, r, w))
          (λ e. ground (arith, r, w))

    crosses_ask :
        (t : MarketTick D) (b : OrderBook D) (side : OrderSide)
        → side ≡ ask
        → d.lt zero_lit (best_bid b) ≡ true
        → d.lt t.price (best_bid b) ≡ true
        → crosses b (tick_to_delta t side) ≡ true
    unfolding crosses tick_to_delta best_bid
    crosses_ask t b bid e pos h = absurd (cc)
    crosses_ask t b ask e pos h = elim (Option-cases (last? b.bids)) [
      | inl e ↦ absurd (ground (arith, lt_irrefl zero_lit))
      | inr (l, e) ↦ ground arith
    ]

    crosses_bid :
        (t : MarketTick D) (b : OrderBook D) (side : OrderSide)
        → side ≡ bid
        → b.asks ≡ []
        → crosses b (tick_to_delta t side) ≡ false
    unfolding crosses tick_to_delta
    crosses_bid t b bid e none_left =
        ap (λ (l : Levels D). elim (head? l) [ none ↦ false | some (best, v) ↦ d.lt best t.price ])
          none_left
    crosses_bid t b ask e none_left = absurd (cc)

    best_ask-nil : (b : OrderBook D) → b.asks ≡ [] → best_ask b ≡ zero_lit
    unfolding best_ask
    best_ask-nil b none_left =
        ap (λ (l : Levels D). elim (head? l) [ none ↦ zero_lit | some (p, v) ↦ p ]) none_left

    apply_crossing :
        (t : MarketTick D) (b : OrderBook D) (side : OrderSide)
        → crosses b (tick_to_delta t side) ≡ true
        → 0 < d.trunc_u64 t.volume
        → apply (tick_to_delta t side) b ≡ counted b
    unfolding tick_to_delta
    apply_crossing t b side over whole = apply-rejected (tick_to_delta t side) b (ground arith)

    -- What the reset does for a book without asks whose best bid is positive, on a tick that lies below
    -- the best bid and not below the reference: the reference becomes the moving average of half the best
    -- bid and the price. A tick below that half becomes a bid, which does not cross the book. Any other
    -- tick stays an ask and crosses the book, and with a volume of at least 1 `apply` rejects it: it only
    -- counts the call.
    pub classify_one_sided :
        (t : MarketTick D) (ref : D) (b : OrderBook D)
        → b.asks ≡ []
        → d.lt zero_lit (best_bid b) ≡ true
        → d.lt t.price ref ≡ false
        → d.lt t.price (best_bid b) ≡ true
        → let (side, ref') = classify (some b) t.price ref in
          let delta = tick_to_delta t side in
          (ref' ≡ d.add (d.mul alpha t.price) (d.mul (d.sub (d.lit 10 1) alpha) (half_bid b)))
          × (d.lt t.price (half_bid b) ≡ true → (side ≡ bid) × (crosses b delta ≡ false))
          × (d.lt t.price (half_bid b) ≡ false
              → (side ≡ ask)
                × (crosses b delta ≡ true)
                × (0 < d.trunc_u64 t.volume → apply delta b ≡ counted b))
    unfolding classify would_cross
    classify_one_sided t ref b no_asks pos above below =
        let side = (classify (some b) t.price ref).0 in
        let centre : mid b ≡ half_bid b =
          ap (λ x. d.div (d.add (best_bid b) x) (d.lit 20 1)) (best_ask-nil b no_asks) in
        (
          ground (arith, centre),
          λ low.
              let is_bid : side ≡ bid = ground (arith, centre) in
              (is_bid, crosses_bid t b side is_bid no_asks),
          λ high.
              let is_ask : side ≡ ask = ground (arith, centre) in
              let over = crosses_ask t b side is_ask pos below in
              (is_ask, over, λ whole. apply_crossing t b side over whole),
        )
