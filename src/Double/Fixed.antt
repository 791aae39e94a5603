-- ===== src/Double/Fixed.antt =====
-- A type of decimal fixed-point numbers with NaN and infinity that meets the laws, for the concrete
-- runs: `num z` is z · 10^-4.
use market_data_processor.Prelude.{
  ℕ, suc, ◌+◌, ◌-◌, ◌*◌, ◌/◌, ◌^◌, ◌≡◌, ◌⊎◌, ◌↔◌, refl, Bool, true, false, arith, leb, ltb,
  if◌then◌else◌,
}
use market_data_processor.Prelude.Int.{ℤ, pos, negsuc, pos_part, neg_part, ltb_ℤ, eqb_ℤ}
use market_data_processor.Double.{Double, IsOrdered}

pub data Fixed : Type 0 where
  nan : Fixed
  num : ℤ → Fixed
  inf : Fixed

-- a - b, as an integer
abbrev sub_ℕ : ℕ → ℕ → ℤ
sub_ℕ a b = if leb b a then pos (a - b) else negsuc (b - a - 1)

abbrev on_numbers : (ℤ → ℤ → Fixed) → Fixed → Fixed → Fixed
on_numbers f (num a) (num b) = f a b
on_numbers f nan _ = nan
on_numbers f _ nan = nan
on_numbers f _ _ = inf

abbrev add : ℤ → ℤ → Fixed
add a b = num (sub_ℕ (pos_part a + pos_part b) (neg_part a + neg_part b))

abbrev sub : ℤ → ℤ → Fixed
sub a b = num (sub_ℕ (pos_part a + neg_part b) (neg_part a + pos_part b))

abbrev mul : ℤ → ℤ → Fixed
mul a b = num (
    sub_ℕ ((pos_part a * pos_part b + neg_part a * neg_part b) / 10 ^ 4)
      ((pos_part a * neg_part b + neg_part a * pos_part b) / 10 ^ 4))

-- Division by a positive number; any other is NaN here.
abbrev div : ℤ → ℤ → Fixed
div a (pos (suc n)) = num (sub_ℕ (pos_part a * 10 ^ 4 / suc n) (neg_part a * 10 ^ 4 / suc n))
div a _ = nan

abbrev lt : Fixed → Fixed → Bool
lt (num a) (num b) = ltb_ℤ a b
lt (num a) inf = true
lt _ _ = false

abbrev eq : Fixed → Fixed → Bool
eq (num a) (num b) = eqb_ℤ a b
eq inf inf = true
eq _ _ = false

abbrev is_inf : Fixed → Bool
is_inf inf = true
is_inf _ = false

abbrev trunc_u64 : Fixed → ℕ
trunc_u64 (num z) = pos_part z / 10 ^ 4
trunc_u64 _ = 0

abbrev of_i64 : ℤ → Fixed
of_i64 (pos n) = num (pos (n * 10 ^ 4))
of_i64 (negsuc n) = num (negsuc ((n + 1) * 10 ^ 4 - 1))

-- Towards zero.
abbrev trunc_i64 : Fixed → ℤ
trunc_i64 (num (pos n)) = pos (n / 10 ^ 4)
trunc_i64 (num (negsuc n)) = if ltb (n + 1) (10 ^ 4) then pos 0 else negsuc ((n + 1) / 10 ^ 4 - 1)
trunc_i64 _ = pos 0

instance abbrev pub fixed_double : Double Fixed
fixed_double = record {
  lit = λ m e. num (pos (m * 10 ^ 4 / 10 ^ e));
  lt = lt;
  eq = eq;
  is_inf = is_inf;
  add = on_numbers add;
  sub = on_numbers sub;
  mul = on_numbers mul;
  div = on_numbers div;
  of_u64 = λ n. num (pos (n * 10 ^ 4));
  trunc_u64 = trunc_u64;
  of_i64 = of_i64;
  trunc_i64 = trunc_i64;
}

-- The decimal m · 10^-e.
abbrev pub dec : ℕ → ℕ → Fixed
dec m e = num (pos (m * 10 ^ 4 / 10 ^ e))

lt_irrefl : (a : Fixed) → lt a a ≡ false
lt_irrefl nan = refl
lt_irrefl (num a) = ground arith
lt_irrefl inf = refl

lt_trans : (a b c : Fixed) → lt a b ≡ true → lt b c ≡ true → lt a c ≡ true
lt_trans (num a) (num b) (num c) h k = ground arith
lt_trans a b c h k = ground arith

lt_split : (a b c : Fixed) → eq b b ≡ true → lt a c ≡ true → (lt a b ≡ true) ⊎ (lt b c ≡ true)
lt_split a b c n h = ground arith

number_of_lt : (a b : Fixed) → lt a b ≡ true → (eq a a ≡ true) × (eq b b ≡ true)
number_of_lt a b h = ground arith

number_of_eq : (a b : Fixed) → eq a b ≡ true → (eq a a ≡ true) × (eq b b ≡ true)
number_of_eq a b h = ground arith

eq_iff :
    (a b : Fixed)
    → eq a a ≡ true
    → eq b b ≡ true
    → (eq a b ≡ true) ↔ ((lt a b ≡ false) × (lt b a ≡ false))
eq_iff a b na nb = ground arith

pub fixed_IsOrdered : IsOrdered fixed_double
fixed_IsOrdered = record {
  lt_irrefl = lt_irrefl;
  lt_trans = lt_trans;
  lt_split = lt_split;
  number_of_lt = number_of_lt;
  number_of_eq = number_of_eq;
  eq_iff = eq_iff;
  zero_number = refl;
}
