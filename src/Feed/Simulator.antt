-- ===== src/Feed/Simulator.antt =====
-- One round of the loop of `FeedSimulator::run`.
use mathlib.Core.List.{append-nil, append_assoc}
use market_data_processor.Prelude.{
  ℕ, suc, ◌+◌, ◌-◌, ◌%◌, ◌≤◌, ◌<◌, ◌≡◌, inl, inr, refl, sym, ap, ◌∙◌, arith, false, min, List, [],
  ◌∷◌, ◌++◌, map, length, length-append, All, Bool-cases,
}
use market_data_processor.Prelude.Int.{ℤ}
use market_data_processor.Double.{Double, IsOrdered}
use market_data_processor.Channel.{Channel, IsFifo}
use market_data_processor.Ring.{add_word, word}
use market_data_processor.Tick.{MarketTick}
use market_data_processor.Feed.{
  SymbolState, Draws, FeedSimulator, choose, clamp, update_price, tick_of, publish, symbol_loop,
  feed_round,
}

-- The literal bounds are in order.
pub record IsScaled {D : Type 0} (d : Double D) : Type 0 where
  pub btc_mid : d.lt (d.lit 10000000 1) (d.lit 100 1) ≡ false
  pub mid : d.lt (d.lit 100000 1) (d.lit 100 1) ≡ false
  pub btc_spread : d.lt (d.lit 500 1) (d.lit 5 1) ≡ false
  pub spread : d.lt (d.lit 5 2) (d.lit 1 3) ≡ false
  pub size : d.lt (d.lit 100000 1) (d.lit 10 1) ≡ false

module _ {D : Type 0} ⦃d : Double D⦄ where
  -- Neither below `low` nor above `high`, which a NaN is not either.
  abbrev pub IsWithin : D → D → D → Type 0
  IsWithin v low high = (d.lt v low ≡ false) × (d.lt high v ≡ false)

  -- The bounds of the walk of a symbol.
  pub record IsBounded (s : SymbolState D) : Type 0 where
    pub mid_within :
        IsWithin s.mid_price (d.lit 100 1) (choose s.symbol (d.lit 10000000 1) (d.lit 100000 1))
    pub spread_within :
        IsWithin s.spread
          (choose s.symbol (d.lit 5 1) (d.lit 1 3))
          (choose s.symbol (d.lit 500 1) (d.lit 5 2))
    pub bid_within : IsWithin s.bid_size (d.lit 10 1) (d.lit 100000 1)
    pub ask_within : IsWithin s.ask_size (d.lit 10 1) (d.lit 100000 1)

  clamp-IsWithin :
      (laws : IsOrdered d) (v low high : D)
      → d.lt high low ≡ false
      → IsWithin (clamp v low high) low high
  unfolding clamp
  clamp-IsWithin laws v low high h = ground (arith, laws.lt_irrefl low, laws.lt_irrefl high)

  update_price-IsBounded :
      (laws : IsOrdered d) (scale : IsScaled d) (w : Draws D) (s : SymbolState D)
      → IsBounded (update_price w s)
  unfolding update_price
  update_price-IsBounded laws scale w s = record {
    mid_within = clamp-IsWithin laws _ _ _ (ground (arith, scale.btc_mid, scale.mid));
    spread_within = clamp-IsWithin laws _ _ _ (ground (arith, scale.btc_spread, scale.spread));
    bid_within = clamp-IsWithin laws _ _ _ scale.size;
    ask_within = clamp-IsWithin laws _ _ _ scale.size;
  }

  module _ {Out : Type 0} (output : Channel (MarketTick D) Out) {OutValid : Out → Type 0}
      (out_fifo : IsFifo output OutValid) where
    -- What `n` more ticks do to the output and the counters.
    pub record Published (n : ℕ) (s s' : FeedSimulator D Out) : Type 0 where
      pub valid : OutValid s'.output
      pub new : List (MarketTick D)
      pub appended : output.contents s'.output ≡ output.contents s.output ++ new
      pub as_many : length new ≡ min n (output.capacity - length (output.contents s.output))
      pub published : s'.ticks_published ≡ (s.ticks_published + length new) % word
      pub dropped : s'.ticks_dropped ≡ (s.ticks_dropped + (n - length new)) % word

    symbol_loop-Published :
        (draws : ℕ → Draws D) (clock : ℕ → ℤ) (i : ℕ) (xs : List (SymbolState D))
        (s : FeedSimulator D Out)
        → OutValid s.output
        → s.ticks_published < word
        → s.ticks_dropped < word
        → Published (length xs) s (symbol_loop output draws clock i xs s).1
    unfolding symbol_loop publish
    symbol_loop-Published draws clock i [] s v p q = record {
      valid = v;
      new = [];
      appended = sym (append-nil (output.contents s.output));
      as_many = omega arith;
      published = omega arith;
      dropped = omega arith;
    }
    symbol_loop-Published draws clock i (x ∷ xs) s v p q =
        let x' = update_price (draws i) x in
        let t = tick_of s.ticks_published (clock i) x' in
        let s1 = publish output t s in
        let pushed = out_fifo.push_fifo t s.output v in
        let v1 : OutValid s1.output = ground (arith, out_fifo.push-Valid t s.output v) in
        let ih = symbol_loop-Published draws clock (suc i) xs s1 v1 (ground arith) (ground arith) in
        elim (Bool-cases (output.try_push t s.output).0) [
          | inl done ↦
              let put : output.contents s1.output ≡ output.contents s.output ++ (t ∷ []) =
                ground arith in
              let room : length (output.contents s.output) < output.capacity = ground arith in
              let counted : s1.ticks_published ≡ add_word s.ticks_published 1 = ground arith in
              let same : s1.ticks_dropped ≡ s.ticks_dropped = ground arith in
              record {
                valid = ih.valid;
                new = t ∷ ih.new;
                appended =
                    ih.appended
                    ∙ ap (λ l. l ++ ih.new) put
                    ∙ append_assoc (output.contents s.output) (t ∷ []) ih.new;
                as_many = omega (
                  arith,
                  ih.as_many,
                  ap (λ l. length l) put,
                  length-append (output.contents s.output) (t ∷ []),
                  room,
                );
                published = omega (arith, ih.published, counted);
                dropped = omega (arith, ih.dropped, same);
              }
          | inr full ↦
              let put : output.contents s1.output ≡ output.contents s.output = ground arith in
              let none_left : output.capacity ≤ length (output.contents s.output) = ground arith in
              let same : s1.ticks_published ≡ s.ticks_published = ground arith in
              let counted : s1.ticks_dropped ≡ add_word s.ticks_dropped 1 = ground arith in
              record {
                valid = ih.valid;
                new = ih.new;
                appended = ih.appended ∙ ap (λ l. l ++ ih.new) put;
                as_many = omega (arith, ih.as_many, ap (λ l. length l) put, none_left);
                published = omega (arith, ih.published, same);
                dropped =
                    omega
                      (arith, ih.dropped, counted, ih.as_many, ap (λ l. length l) put, none_left);
              }
        ]

    symbol_loop-states :
        (laws : IsOrdered d) (scale : IsScaled d) (draws : ℕ → Draws D) (clock : ℕ → ℤ) (i : ℕ)
        (xs : List (SymbolState D)) (s : FeedSimulator D Out)
        → let (xs', s') = symbol_loop output draws clock i xs s in
          All IsBounded xs' × (map (λ x. x.symbol) xs' ≡ map (λ x. x.symbol) xs)
    unfolding symbol_loop update_price
    symbol_loop-states laws scale draws clock i [] s = (tt, refl)
    symbol_loop-states laws scale draws clock i (x ∷ xs) s =
        let x' = update_price (draws i) x in
        let ih =
          symbol_loop-states laws scale draws clock (suc i) xs
            (publish output (tick_of s.ticks_published (clock i) x') s) in
        ((update_price-IsBounded laws scale (draws i) x, ih.0), ap (λ l. x.symbol ∷ l) ih.1)

    -- In a round every symbol keeps its name and its walk ends within its bounds, whatever the draws
    -- are; one tick per symbol goes behind the output while there is room, and counts as published,
    -- and each of the others counts as dropped.
    pub feed_round_lem :
        (laws : IsOrdered d) (scale : IsScaled d) (draws : ℕ → Draws D) (clock : ℕ → ℤ)
        (s : FeedSimulator D Out)
        → OutValid s.output
        → s.ticks_published < word
        → s.ticks_dropped < word
        → let s' = feed_round output draws clock s in
          All IsBounded s'.symbol_states
          × (map (λ x. x.symbol) s'.symbol_states ≡ map (λ x. x.symbol) s.symbol_states)
          × Published (length s.symbol_states) s s'
    unfolding feed_round
    feed_round_lem laws scale draws clock s v p q =
        let states = symbol_loop-states laws scale draws clock 0 s.symbol_states s in
        let out = symbol_loop-Published draws clock 0 s.symbol_states s v p q in
        (
          states.0,
          states.1,
          record {
            valid = out.valid;
            new = out.new;
            appended = out.appended;
            as_many = out.as_many;
            published = out.published;
            dropped = out.dropped;
          },
        )
