-- ===== src/Signal/Average.antt =====
-- Exponential smoothing of the prices of one symbol, and the step of `SignalEngine` that does it.
use market_data_processor.Prelude.{
  ℕ, ◌≡◌, inl, inr, refl, sym, ap, arith, Option, none, some, List, [], ◌∷◌, ◌++◌, if◌then◌else◌,
  Bool-cases,
}
use market_data_processor.Prelude.Dict.{find, bytes_eq, same_bytes, find-assign, same_bytes_iff}
use market_data_processor.Double.{Double}
use market_data_processor.Tick.{MarketSnapshot, c_string}
use market_data_processor.Signal.{SignalEngine, next_ema, update_ema}

module _ {D : Type 0} ⦃d : Double D⦄ where
  -- Exponential smoothing with the factor `alpha`, from the average `a` on; the oldest price first.
  abbrev pub smooth : D → D → List D → D
  smooth alpha a [] = a
  smooth alpha a (p ∷ ps) =
      smooth alpha (d.add (d.mul p alpha) (d.mul a (d.sub (d.lit 10 1) alpha))) ps

  -- The first price is the first average.
  abbrev pub average : D → Option D → List D → Option D
  average alpha none [] = none
  average alpha none (p ∷ ps) = some (smooth alpha p ps)
  average alpha (some a) ps = some (smooth alpha a ps)

  abbrev pub prices_of : List ℕ → List (MarketSnapshot D) → List D
  prices_of key [] = []
  prices_of key (s ∷ ss) =
      if same_bytes (c_string s.symbol) key then s.price ∷ prices_of key ss else prices_of key ss

  smooth-append :
      (alpha a : D) (ps qs : List D)
      → smooth alpha a (ps ++ qs) ≡ smooth alpha (smooth alpha a ps) qs
  smooth-append alpha a [] qs = refl
  smooth-append alpha a (p ∷ ps) qs =
      smooth-append alpha (d.add (d.mul p alpha) (d.mul a (d.sub (d.lit 10 1) alpha))) ps qs

  pub average-append :
      (alpha : D) (a : Option D) (ps qs : List D)
      → average alpha a (ps ++ qs) ≡ average alpha (average alpha a ps) qs
  average-append alpha none [] qs = refl
  average-append alpha none (p ∷ ps) qs = ap some (smooth-append alpha p ps qs)
  average-append alpha (some a) ps qs = ap some (smooth-append alpha a ps qs)

  pub average-nil : (alpha : D) (a : Option D) → average alpha a [] ≡ a
  average-nil alpha none = refl
  average-nil alpha (some a) = refl

  pub prices_of-append :
      (key : List ℕ) (ss ts : List (MarketSnapshot D))
      → prices_of key (ss ++ ts) ≡ prices_of key ss ++ prices_of key ts
  prices_of-append key [] ts = refl
  prices_of-append key (s ∷ ss) ts = ground (arith, prices_of-append key ss ts)

  module _ {In Out : Type 0} where
    pub find-update_ema :
        (key : List ℕ) (snap : MarketSnapshot D) (s : SignalEngine D In Out)
        → find key (update_ema snap s).0.ema_map
          ≡ average s.alpha (find key s.ema_map) (prices_of key (snap ∷ []))
    unfolding update_ema next_ema
    find-update_ema key snap s =
        let text = c_string snap.symbol in
        let ema = next_ema s.alpha snap.price (find text s.ema_map) in
        let found = find-assign key text ema s.ema_map in
        elim (Bool-cases (same_bytes text key)) [
          | inl same ↦
              let e : text ≡ key = (same_bytes_iff text key).0 same in
              simp (found, same)
                (moved s.alpha snap.price (find text s.ema_map) (find key s.ema_map)
                  (ap (λ k. find k s.ema_map) e))
          | inr other ↦ simp (found, other) (sym (average-nil s.alpha (find key s.ema_map)))
        ]
      where
        moved :
            (alpha price : D) (m n : Option D)
            → m ≡ n
            → some (next_ema alpha price m) ≡ average alpha n (price ∷ [])
        moved alpha price none n e = ap (λ o. average alpha o (price ∷ [])) e
        moved alpha price (some a) n e = ap (λ o. average alpha o (price ∷ [])) e
