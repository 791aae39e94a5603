-- ===== src/Service/Symbols.antt =====
-- What `split_symbols` makes of MDP_SYMBOLS.
use market_data_processor.Prelude.{
  ℕ, zero, suc, ◌≤◌, ◌<◌, ◌≡◌, ◌≢◌, inl, inr, refl, arith, some, List, [], ◌∷◌, ◌++◌, length, All,
  List-cases, subst, length-append,
}
use market_data_processor.Service.{getline, split_loop, split_symbols}

-- No comma.
abbrev pub IsPlain : List ℕ → Type 0
IsPlain = All (λ c. c ≢ 44)

-- A symbol has a character and no comma.
abbrev pub IsSymbol : List ℕ → Type 0
IsSymbol s = (s ≢ []) × IsPlain s

-- The symbols with commas between them.
unfoldable pub join : List (List ℕ) → List ℕ
join [] = []
join (s ∷ []) = s
join (s ∷ t ∷ ts) = s ++ (44 ∷ join (t ∷ ts))

getline_lem : (s : List ℕ) → IsPlain (getline s).0 × (length (getline s).1 ≤ length s)
unfolding getline
getline_lem [] = (tt, omega arith)
getline_lem (c ∷ cs) = let (plain, short) = getline_lem cs in ground arith

getline_shorter : (c : ℕ) (cs : List ℕ) → length (getline (c ∷ cs)).1 < suc (length cs)
unfolding getline
getline_shorter c cs = ground (arith, getline_lem cs)

split_loop_total :
    (fuel : ℕ) (s : List ℕ)
    → length s < fuel
    → (symbols : List (List ℕ)) × (split_loop fuel s ≡ some symbols) × All IsSymbol symbols
unfolding split_loop
split_loop_total zero s h = elim h [ ]
split_loop_total (suc fuel) [] h = ([], refl, tt)
split_loop_total (suc fuel) (c ∷ cs) h =
    let (others, e, good) =
      split_loop_total fuel (getline (c ∷ cs)).1 (omega (arith, getline_shorter c cs)) in
    let plain = (getline_lem (c ∷ cs)).0 in
    elim (List-cases (getline (c ∷ cs)).0) [
      | inl nothing ↦ (others, ground arith, good)
      | inr (x, xs, item) ↦
          ((x ∷ xs) ∷ others, ground arith, ((λ k. absurd (cc), subst IsPlain item plain), good))
    ]

-- `split_symbols` returns for every text, with symbols that each have a character and no comma.
pub split_symbols_total :
    (s : List ℕ)
    → (symbols : List (List ℕ)) × (split_symbols s ≡ some symbols) × All IsSymbol symbols
unfolding split_symbols
split_symbols_total s = split_loop_total (suc (length s)) s (omega arith)

-- A plain item ends at the comma after it, or at the end of the text.
getline_item : (s rest : List ℕ) → IsPlain s → getline (s ++ (44 ∷ rest)) ≡ (s, rest)
unfolding getline
getline_item [] rest h = refl
getline_item (c ∷ cs) rest (h, hs) = ground (arith, getline_item cs rest hs)

getline_last : (s : List ℕ) → IsPlain s → getline s ≡ (s, [])
unfolding getline
getline_last [] h = refl
getline_last (c ∷ cs) (h, hs) = ground (arith, getline_last cs hs)

split_loop_nil : (fuel : ℕ) → 0 < fuel → split_loop fuel [] ≡ some []
unfolding split_loop
split_loop_nil zero h = absurd (omega arith)
split_loop_nil (suc fuel) h = refl

split_loop-join :
    (fuel : ℕ) (symbols : List (List ℕ))
    → All IsSymbol symbols
    → length (join symbols) < fuel
    → split_loop fuel (join symbols) ≡ some symbols
unfolding split_loop join
split_loop-join zero symbols good h = absurd (omega arith)
split_loop-join (suc fuel) [] good h = refl
split_loop-join (suc fuel) ([] ∷ ts) good h = absurd (good.0.0 refl)
split_loop-join (suc fuel) ((c ∷ cs) ∷ []) good h =
    ground (arith, getline_last (c ∷ cs) good.0.1, split_loop_nil fuel (omega arith))
split_loop-join (suc fuel) ((c ∷ cs) ∷ t ∷ ts) good h =
    let rest = join (t ∷ ts) in
    let shorter : length rest < fuel = omega (arith, length-append cs (44 ∷ rest)) in
    ground
      (arith, getline_item (c ∷ cs) rest good.0.1, split_loop-join fuel (t ∷ ts) good.1 shorter)

-- Symbols with commas between them, each with a character and none with a comma, are read back as they
-- are.
pub split_symbols-join :
    (symbols : List (List ℕ)) → All IsSymbol symbols → split_symbols (join symbols) ≡ some symbols
unfolding split_symbols
split_symbols-join symbols good =
    split_loop-join (suc (length (join symbols))) symbols good (omega arith)
