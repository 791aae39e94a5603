-- ===== src/Tick/Laws.antt =====
-- The symbol field of a tick.
use market_data_processor.Prelude.{
  ℕ, zero, suc, ◌-◌, ◌≡◌, ◌≢◌, refl, sym, arith, List, [], ◌∷◌, ◌++◌, All, length, length-append,
  length-take, length-replicate, take, replicate,
}
use market_data_processor.Prelude.Int.{ℤ}
use market_data_processor.Double.{Double}
use market_data_processor.Tick.{make, fill, c_string}

pub length-fill : (n : ℕ) (bytes : List ℕ) → length (fill n bytes) ≡ n
unfolding fill
length-fill n bytes = omega (
  arith,
  length-append (take n bytes) (replicate (n - length bytes) 0),
  length-take n bytes,
  length-replicate {A = ℕ} (n - length bytes) 0,
)

c_string-zeros : (n : ℕ) → c_string (replicate n 0) ≡ []
unfolding c_string
c_string-zeros zero = refl
c_string-zeros (suc n) = refl

c_string-append :
    (xs ys : List ℕ) → All (λ b. b ≢ 0) xs → c_string ys ≡ [] → c_string (xs ++ ys) ≡ xs
unfolding c_string
c_string-append [] ys h e = e
c_string-append (x ∷ xs) ys h e = ground (arith, c_string-append xs ys h.1 e)

All-take : (n : ℕ) (xs : List ℕ) → All (λ b. b ≢ 0) xs → All (λ b. b ≢ 0) (take n xs)
All-take zero xs h = tt
All-take (suc n) [] h = tt
All-take (suc n) (x ∷ xs) h = (h.0, All-take n xs h.1)

-- The text that a zero-filled field holds is the text that was put in, cut to the field.
pub c_string-fill :
    (n : ℕ) (bytes : List ℕ) → All (λ b. b ≢ 0) bytes → c_string (fill n bytes) ≡ take n bytes
unfolding fill
c_string-fill n bytes h =
    c_string-append (take n bytes) (replicate (n - length bytes) 0) (All-take n bytes h)
      (c_string-zeros (n - length bytes))

-- A tick made from a symbol with no NUL has a field of 8 bytes that reads back as the first 8
-- characters of the symbol.
pub make-symbol :
    {D : Type 0} ⦃d : Double D⦄ (sym : List ℕ) (price volume : D) (side : ℕ) (now : ℤ)
    → All (λ b. b ≢ 0) sym
    → let t = make sym price volume side now in
      (length t.symbol ≡ 8) × (c_string t.symbol ≡ take 8 sym)
unfolding make
make-symbol sym price volume side now h = (length-fill 8 sym, c_string-fill 8 sym h)
