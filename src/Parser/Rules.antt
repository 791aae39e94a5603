-- ===== src/Parser/Rules.antt =====
-- `TickParser::validate` and `TickParser::enrich`: which ticks pass, and what becomes of them.
use market_data_processor.Prelude.{
  ℕ, ◌≤◌, ◌≡◌, ◌≢◌, ◌↔◌, refl, sym, ◌∙◌, arith, true, false, length, length-set, get_or,
  get_or-set_self, get_or-set_ne, set-set, min,
}
use market_data_processor.Prelude.Int.{pos, ◌≤ℤ◌}
use market_data_processor.Double.{Double, IsOrdered, zero_lit, le, is_nan}
use market_data_processor.Tick.{MarketTick}
use market_data_processor.Parser.{validate, enrich}

module _ {D : Type 0} ⦃d : Double D⦄ where
  -- What downstream stages may rely on.
  pub record IsClean (t : MarketTick D) : Type 0 where
    pub price_pos : d.lt zero_lit t.price ≡ true
    pub price_finite : d.is_inf t.price ≡ false
    pub volume_pos : d.lt zero_lit t.volume ≡ true
    pub time_pos : pos 1 ≤ℤ t.timestamp_ns
    pub side_le : t.side ≤ 2
    pub named : get_or t.symbol 0 0 ≢ 0

  module _ (laws : IsOrdered d) where
    open laws use {number_of_lt, number_of_eq, eq_iff, zero_number}

    -- `x <= 0.0 || isnan(x)` fails exactly for the numbers above zero.
    above_zero : (x : D) → d.lt zero_lit x ≡ true → (le x zero_lit ≡ false) × (is_nan x ≡ false)
    above_zero x h = ground (
      arith,
      number_of_lt zero_lit x h,
      eq_iff x zero_lit,
      laws.lt_trans zero_lit x zero_lit h,
      laws.lt_irrefl zero_lit,
    )

    not_above_zero : (x : D) → le x zero_lit ≡ false → is_nan x ≡ false → d.lt zero_lit x ≡ true
    not_above_zero x h n = ground (arith, eq_iff x zero_lit, zero_number)

    -- `validate` accepts exactly the ticks with a finite price above zero, a volume above zero
    -- (which may be infinite), a timestamp above zero, a side of at most 2 and a symbol that is not
    -- empty.
    pub validate_iff : (t : MarketTick D) → (validate t ≡ true) ↔ IsClean t
    unfolding validate
    validate_iff t = (
      λ h. ground (arith, not_above_zero t.price, not_above_zero t.volume),
      λ c. ground (arith, above_zero t.price c.price_pos, above_zero t.volume c.volume_pos),
    )

  -- `enrich` ends the symbol with a NUL at index 7 and brings the side down to at most 2; it changes
  -- nothing else, and nothing at all the second time.
  pub enrich_lem :
      (t : MarketTick D)
      → length t.symbol ≡ 8
      → (get_or (enrich t).symbol 7 1 ≡ 0)
        × ((i : ℕ) → i ≢ 7 → get_or (enrich t).symbol i 0 ≡ get_or t.symbol i 0)
        × (length (enrich t).symbol ≡ 8)
        × ((enrich t).side ≡ min t.side 2)
        × ((enrich t).price ≡ t.price)
        × ((enrich t).volume ≡ t.volume)
        × ((enrich t).timestamp_ns ≡ t.timestamp_ns)
        × (enrich (enrich t) ≡ enrich t)
  unfolding enrich
  enrich_lem t h = (
    get_or-set_self t.symbol 7 0 1 (omega arith),
    λ i other. get_or-set_ne t.symbol 7 i 0 0 (λ e. other (sym e)),
    length-set t.symbol 7 0 ∙ h,
    refl,
    refl,
    refl,
    refl,
    λ i. record (enrich t) { symbol = set-set t.symbol 7 0 0 i; side = clamped i },
  )
    where
      clamped : min (min t.side 2) 2 ≡ min t.side 2
      clamped = omega arith
