-- ===== src/Book/Update.antt =====
-- What `OrderBook::apply` does to the levels and the counters, on each of its branches.
use market_data_processor.Prelude.{
  ℕ, ◌≡◌, ◌↔◌, inl, inr, refl, arith, Bool, true, false, ◌&&◌, not, Option, none, some, [], ◌∷◌,
  if◌then◌else◌, head?, last?, ltb, ◌==◌,
}
use market_data_processor.Double.{Double, IsOrdered, IsNumber}
use market_data_processor.Ring.{add_word}
use market_data_processor.Levels.{Levels, same_key, find_level}
use market_data_processor.Levels.Sorted.{
  find_level-set_level, find_level-erase_level, erase_level-count,
}
use market_data_processor.Book.{OrderSide, bid, ask, BookDelta, OrderBook, crosses, apply, counted}
use market_data_processor.Book.Invariant.{
  IsBook, NoneBelow, NoneAbove, NoneBelow-head, NoneAbove-last, OrderSide-cases,
}

abbrev pub same_side : OrderSide → OrderSide → Bool
same_side bid bid = true
same_side ask ask = true
same_side _ _ = false

module _ {D : Type 0} ⦃d : Double D⦄ where
  abbrev pub side_levels : OrderSide → OrderBook D → Levels D
  side_levels bid b = b.bids
  side_levels ask b = b.asks

  -- The book as a partial map: what is quoted on a side at a price.
  abbrev pub volume_at : OrderSide → D → OrderBook D → Option ℕ
  volume_at s q b = find_level q (side_levels s b)

  -- A quote at the price `p` on a side is on the right side of every level of the other side.
  abbrev pub Fits : OrderSide → D → OrderBook D → Type 0
  Fits bid p b = NoneBelow p b.asks
  Fits ask p b = NoneAbove p b.bids

  abbrev pub rejected : BookDelta D → OrderBook D → Bool
  rejected delta b = ltb 0 delta.volume && crosses b delta

  -- A rejected update only counts.
  pub apply-rejected :
      (delta : BookDelta D) (b : OrderBook D) → rejected delta b ≡ true → apply delta b ≡ counted b
  unfolding apply crosses
  apply-rejected delta b r = simp r refl

  module _ (laws : IsOrdered d) where
    head_of :
        (p : D) (ls : Levels D)
        → NoneBelow p ls
        → (elim (head? ls) [ none ↦ false | some (q, v) ↦ d.lt q p ]) ≡ false
    head_of p [] h = refl
    head_of p ((q, v) ∷ ls) (h, hs) = h

    last_of :
        (p : D) (ls : Levels D)
        → NoneAbove p ls
        → (elim (last? ls) [ none ↦ false | some (q, v) ↦ d.lt p q ]) ≡ false
    last_of p [] h = refl
    last_of p ((q, v) ∷ []) (h, hs) = h
    last_of p ((q, v) ∷ (r, w) ∷ ls) (h, hs) = last_of p ((r, w) ∷ ls) hs

    -- The guard looks at the best level of the other side only, which is as good as looking at all
    -- of them: it passes exactly the prices that cross no level.
    pub crosses_iff :
        (delta : BookDelta D) (b : OrderBook D)
        → IsBook b
        → (crosses b delta ≡ false) ↔ Fits delta.side delta.price b
    unfolding crosses
    crosses_iff delta b i = elim (OrderSide-cases delta.side) [
      | inl e ↦ simp e (
        λ h. NoneBelow-head laws delta.price b.asks i.asks_sorted (ground arith),
        λ fits. let h = head_of delta.price b.asks fits in ground arith,
      )
      | inr e ↦ simp e (
        λ h. NoneAbove-last laws delta.price b.bids i.bids_sorted (ground arith),
        λ fits. let h = last_of delta.price b.bids fits in ground arith,
      )
    ]

    -- After `apply` a side quotes at a price what it quoted before, unless the update was accepted
    -- and is for that side and price: then it quotes the new volume, and nothing for a volume of 0.
    pub volume_at-apply :
        (s : OrderSide) (q : D) (delta : BookDelta D) (b : OrderBook D)
        → IsNumber delta.price
        → IsNumber q
        → IsBook b
        → volume_at s q (apply delta b) ≡ (
            if not (rejected delta b) && (same_side delta.side s && same_key delta.price q)
            then (if delta.volume == 0 then none else some delta.volume)
            else volume_at s q b)
    unfolding apply crosses
    volume_at-apply bid q delta b n nq i = ground (
      arith,
      find_level-set_level laws delta.price q delta.volume b.bids n nq i.bids_sorted,
      find_level-erase_level laws delta.price q b.bids n nq i.bids_sorted,
      OrderSide-cases delta.side,
    )
    volume_at-apply ask q delta b n nq i = ground (
      arith,
      find_level-set_level laws delta.price q delta.volume b.asks n nq i.asks_sorted,
      find_level-erase_level laws delta.price q b.asks n nq i.asks_sorted,
      OrderSide-cases delta.side,
    )

    -- Every call counts as an update, a rejected one too; a level counts as removed if an accepted
    -- update with the volume 0 found it.
    apply_counters :
        (delta : BookDelta D) (b : OrderBook D)
        → IsNumber delta.price
        → IsBook b
        → let b' = apply delta b in
          (b'.sequence ≡ add_word b.sequence 1)
          × (b'.updates_applied ≡ add_word b.updates_applied 1)
          × (b'.levels_removed ≡ (
              if delta.volume == 0
              then add_word b.levels_removed
                  (elim (volume_at delta.side delta.price b) [ none ↦ 0 | some _ ↦ 1 ])
              else b.levels_removed))
    unfolding apply crosses
    apply_counters delta b n i = ground (
      arith,
      erase_level-count laws delta.price b.bids n i.bids_sorted,
      erase_level-count laws delta.price b.asks n i.asks_sorted,
      OrderSide-cases delta.side,
    )
