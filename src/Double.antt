-- ===== src/Double.antt =====
-- The C++ `double` as the program uses it: a type with its literals, comparisons, arithmetic and
-- conversions, taken as an instance. The laws are those of IEEE 754 comparisons.
pub mod Fixed
use market_data_processor.Prelude.{
  ℕ, ◌≡◌, ◌↔◌, ◌⊎◌, inl, inr, refl, Bool, true, false, not, ◌||◌, arith, Bool-cases,
}
use market_data_processor.Prelude.Int.{ℤ}

pub record Double (D : Type 0) : Type 0 where
  -- `lit m e` is the literal m · 10^-e.
  pub lit : ℕ → ℕ → D
  pub lt : D → D → Bool
  pub eq : D → D → Bool
  pub is_inf : D → Bool
  pub add : D → D → D
  pub sub : D → D → D
  pub mul : D → D → D
  pub div : D → D → D
  -- `static_cast<double>` of a `uint64_t`, and `static_cast<uint64_t>` of a double
  pub of_u64 : ℕ → D
  pub trunc_u64 : D → ℕ
  -- The same for `int64_t`.
  pub of_i64 : ℤ → D
  pub trunc_i64 : D → ℤ

module _ {D : Type 0} ⦃d : Double D⦄ where
  abbrev pub zero_lit : D
  zero_lit = d.lit 0 0

  -- `a <= b`; `a > b` and `a >= b` are `b < a` and `b <= a`.
  abbrev pub le : D → D → Bool
  le a b = d.lt a b || d.eq a b

  -- `std::isnan`
  abbrev pub is_nan : D → Bool
  is_nan a = not (d.eq a a)

  abbrev pub IsNumber : D → Type 0
  IsNumber a = d.eq a a ≡ true

-- Comparisons of IEEE 754 numbers: `<` is a strict weak order away from NaN, and `==` holds of two
-- numbers of which neither is the smaller (so of the two zeros).
pub record IsOrdered {D : Type 0} (d : Double D) : Type 0 where
  pub lt_irrefl : (a : D) → d.lt a a ≡ false
  pub lt_trans : (a b c : D) → d.lt a b ≡ true → d.lt b c ≡ true → d.lt a c ≡ true
  pub lt_split :
      (a b c : D) → d.eq b b ≡ true → d.lt a c ≡ true → (d.lt a b ≡ true) ⊎ (d.lt b c ≡ true)
  pub number_of_lt : (a b : D) → d.lt a b ≡ true → (d.eq a a ≡ true) × (d.eq b b ≡ true)
  pub number_of_eq : (a b : D) → d.eq a b ≡ true → (d.eq a a ≡ true) × (d.eq b b ≡ true)
  pub eq_iff :
      (a b : D)
      → d.eq a a ≡ true
      → d.eq b b ≡ true
      → (d.eq a b ≡ true) ↔ ((d.lt a b ≡ false) × (d.lt b a ≡ false))
  pub zero_number : d.eq (d.lit 0 0) (d.lit 0 0) ≡ true

module _ {D : Type 0} ⦃d : Double D⦄ (laws : IsOrdered d) where
  open laws use {lt_irrefl, lt_trans, lt_split, number_of_lt, number_of_eq, eq_iff}

  pub lt_asymm : (a b : D) → d.lt a b ≡ true → d.lt b a ≡ false
  lt_asymm a b h = ground (arith, lt_trans a b a h, lt_irrefl a)

  pub lt_total :
      (a b : D)
      → IsNumber a
      → IsNumber b
      → (d.lt a b ≡ true) ⊎ (d.eq a b ≡ true) ⊎ (d.lt b a ≡ true)
  lt_total a b na nb = ground (arith, eq_iff a b na nb)

  -- Numbers that are neither smaller nor larger compare alike.
  pub lt_congr_left :
      (a b c : D)
      → IsNumber a
      → IsNumber b
      → d.lt a b ≡ false
      → d.lt b a ≡ false
      → d.lt a c ≡ d.lt b c
  lt_congr_left a b c na nb p q = ground (arith, lt_split a b c nb, lt_split b a c na)

  pub lt_congr_right :
      (a b c : D)
      → IsNumber a
      → IsNumber b
      → d.lt a b ≡ false
      → d.lt b a ≡ false
      → d.lt c a ≡ d.lt c b
  lt_congr_right a b c na nb p q = ground (arith, lt_split c b a nb, lt_split c a b na)
