-- ===== src/Prelude/Merge.antt =====
-- Two lists that interleave to a third: the elements of the third, each sent to the one or the other
-- in order.
use mathlib.Core.List.{List, [], ◌∷◌, ◌++◌, append-nil}
use mathlib.Core.Path.{◌≡◌, refl, ap, subst}
use Prim.Native.Nat.{ℕ, zero, suc}
use market_data_processor.Prelude.Lists.{take, drop, length, All}

module _ {T : Type 0} where
  pub data Merge : List T → List T → List T → Type 0 where
    nil : Merge [] [] []
    left : (x : T) {xs ys zs : List T} → Merge xs ys zs → Merge (x ∷ xs) ys (x ∷ zs)
    right : (y : T) {xs ys zs : List T} → Merge xs ys zs → Merge xs (y ∷ ys) (y ∷ zs)

  pub Merge-append :
      {xs ys zs us vs ws : List T}
      → Merge xs ys zs
      → Merge us vs ws
      → Merge (xs ++ us) (ys ++ vs) (zs ++ ws)
  Merge-append nil n = n
  Merge-append (left x m) n = left x (Merge-append m n)
  Merge-append (right y m) n = right y (Merge-append m n)

  pub Merge-left : (xs : List T) → Merge xs [] xs
  Merge-left [] = nil
  Merge-left (x ∷ xs) = left x (Merge-left xs)

  pub Merge-right : (ys : List T) → Merge [] ys ys
  Merge-right [] = nil
  Merge-right (y ∷ ys) = right y (Merge-right ys)

  pub Merge-take : (n : ℕ) (xs : List T) → Merge (take n xs) (drop n xs) xs
  Merge-take zero xs = Merge-right xs
  Merge-take (suc n) [] = nil
  Merge-take (suc n) (x ∷ xs) = left x (Merge-take n xs)

module _ {T : Type 0} where
  -- The first list, in order, among the elements of the second.
  abbrev pub Sub : List T → List T → Type 0
  Sub xs ys = (rest : List T) × Merge xs rest ys

  pub Sub-nil : (ys : List T) → Sub [] ys
  Sub-nil ys = (ys, Merge-right ys)

  pub Sub-append : {xs ys : List T} (zs : List T) → Sub xs ys → Sub xs (ys ++ zs)
  Sub-append {xs} {ys} zs (rest, m) = (
    rest ++ zs,
    subst (λ l. Merge l (rest ++ zs) (ys ++ zs)) (append-nil xs) (Merge-append m (Merge-right zs)),
  )

  -- A first part of what is merged.
  Sub-take : (n : ℕ) {xs rest ys : List T} → Merge xs rest ys → Sub (take n xs) ys
  Sub-take zero m = Sub-nil _
  Sub-take (suc n) nil = (_, nil)
  Sub-take (suc n) (left x m) = let (r, k) = Sub-take n m in (r, left x k)
  Sub-take (suc n) (right y m) = let (r, k) = Sub-take (suc n) m in (y ∷ r, right y k)

  take-append : (xs ys : List T) → take (length xs) (xs ++ ys) ≡ xs
  take-append [] ys = refl
  take-append (x ∷ xs) ys = ap (λ l. x ∷ l) (take-append xs ys)

  pub Sub_of_append : (xs ys : List T) {rest zs : List T} → Merge (xs ++ ys) rest zs → Sub xs zs
  Sub_of_append xs ys {zs = zs} m =
      subst (λ l. Sub l zs) (take-append xs ys) (Sub-take (length xs) m)

  pub Merge-All {κ} :
      (P : T → Type κ) {xs rest ys : List T} → Merge xs rest ys → All P ys → All P xs
  Merge-All P nil h = tt
  Merge-All P (left x m) (h, hs) = (h, Merge-All P m hs)
  Merge-All P (right y m) (h, hs) = Merge-All P m hs

  -- Without the other list it is the one.
  pub Merge-only : {xs rest ys : List T} → Merge xs rest ys → rest ≡ [] → xs ≡ ys
  Merge-only nil e = refl
  Merge-only (left x m) e = ap (λ l. x ∷ l) (Merge-only m e)
  Merge-only (right y m) e = absurd (cc)
