-- ===== src/Normalizer/State.antt =====
-- The maps of `Normalizer` and its tests, against the history.
use market_data_processor.Prelude.{◌≡◌, arith, none, some, List, ◌∷◌, ℕ}
use market_data_processor.Prelude.Dict.{find, find-assign, bytes_eq}
use market_data_processor.Double.{Double}
use market_data_processor.Tick.{MarketTick}
use market_data_processor.Normalizer.{Normalizer, is_duplicate, is_reordered, update_state}
use market_data_processor.Normalizer.History.{latest, repeats, late}

module _ {D : Type 0} ⦃d : Double D⦄ {In Out : Type 0} where
  -- The two maps hold the last tick that was let through, and its time, by symbol.
  pub record Represents (h : List (MarketTick D)) (s : Normalizer D In Out) : Type 0 where
    pub ticks_at : (key : List ℕ) → find key s.last_tick ≡ latest key h
    pub times_at :
        (key : List ℕ)
        → find key s.last_timestamp
          ≡ (elim (latest key h) [ none ↦ none | some l ↦ some l.timestamp_ns ])

  module _ (h : List (MarketTick D)) (t : MarketTick D) (s : Normalizer D In Out)
      (r : Represents h s) where
    pub is_duplicate_lem : is_duplicate t s ≡ repeats h t
    unfolding is_duplicate
    is_duplicate_lem = let ticks = r.ticks_at t.symbol in ground arith

    pub is_reordered_lem : is_reordered t s ≡ late h t
    unfolding is_reordered
    is_reordered_lem = let times = r.times_at t.symbol in ground arith

  pub update_state-Represents :
      (h : List (MarketTick D)) (t : MarketTick D) (s : Normalizer D In Out)
      → Represents h s
      → Represents (t ∷ h) (update_state t s)
  unfolding update_state
  update_state-Represents h t s r = record {
    ticks_at = λ key. ground (arith, find-assign key t.symbol t s.last_tick, r.ticks_at key);
    times_at = λ key.
        ground (arith, find-assign key t.symbol t.timestamp_ns s.last_timestamp, r.times_at key);
  }
