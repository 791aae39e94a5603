-- ===== src/Levels.antt =====
-- `std::map<double, uint64_t>`, which holds one side of an order book
-- (src/book/include/book/OrderBook.hpp): the entries in the order of their keys.
pub mod Sorted
use market_data_processor.Prelude.{
  ℕ, Bool, true, false, ◌&&◌, not, Option, none, some, List, [], ◌∷◌, if◌then◌else◌, head?, last?,
}
use market_data_processor.Double.{Double}

abbrev pub Levels : Type 0 → Type 0
Levels D = List (D × ℕ)

module _ {D : Type 0} ⦃d : Double D⦄ where
  -- The map takes keys for the same if neither is less than the other.
  abbrev pub same_key : D → D → Bool
  same_key a b = not (d.lt a b) && not (d.lt b a)

  unfoldable pub find_level : D → Levels D → Option ℕ
  find_level p [] = none
  find_level p ((q, w) ∷ ls) = if same_key q p then some w else find_level p ls

  -- `m[p] = v`: an entry that is there keeps its key.
  unfoldable pub set_level : D → ℕ → Levels D → Levels D
  set_level p v [] = (p, v) ∷ []
  set_level p v ((q, w) ∷ ls) =
      if d.lt q p
      then (q, w) ∷ set_level p v ls
      else if d.lt p q
      then (p, v) ∷ (q, w) ∷ ls
      else (q, v) ∷ ls

  -- `m.erase(p)`, with the number of entries removed.
  unfoldable pub erase_level : D → Levels D → ℕ × Levels D
  erase_level p [] = (0, [])
  erase_level p ((q, w) ∷ ls) =
      let (n, rest) = erase_level p ls in
      if d.lt q p then (n, (q, w) ∷ rest) else if d.lt p q then (0, (q, w) ∷ ls) else (1, ls)
