-- ===== src/Prelude/Dict.antt =====
-- `std::unordered_map` as an association list over keys that can be compared.
use Prim.Native.Nat.{ℕ, ◌+◌}
use mathlib.Core.Path.{◌≡◌, refl}
use mathlib.Core.Logic.{◌↔◌, inl, inr}
use mathlib.Core.Bool.{Bool, true, false, ◌&&◌}
use mathlib.Core.Option.{Option, none, some}
use mathlib.Core.List.{List, [], ◌∷◌}
use native.Mathlib.Omega.{arith}
use market_data_processor.Prelude.Tests.{◌==◌, if◌then◌else◌, Bool-cases}
use market_data_processor.Prelude.Lists.{length, All}

-- `operator==` of a key type, which decides equality.
pub record Eq {ℓ} (K : Type ℓ) : Type ℓ where
  pub beq : K → K → Bool
  pub beq_iff : (a b : K) → (beq a b ≡ true) ↔ (a ≡ b)

module _ {ℓ κ} {K : Type ℓ} {V : Type κ} ⦃e : Eq K⦄ where
  -- `find`, with `none` for `end()`
  abbrev pub find : K → List (K × V) → Option V
  find k [] = none
  find k ((j, v) ∷ m) = if e.beq j k then some v else find k m

  -- `m[k] = v`
  abbrev pub assign : K → V → List (K × V) → List (K × V)
  assign k v [] = (k, v) ∷ []
  assign k v ((j, w) ∷ m) = if e.beq j k then (j, v) ∷ m else (j, w) ∷ assign k v m

module _ {ℓ κ} {K : Type ℓ} {V : Type κ} ⦃e : Eq K⦄ where
  pub find-assign :
      (j k : K) (v : V) (m : List (K × V))
      → find j (assign k v m) ≡ (if e.beq k j then some v else find j m)
  find-assign j k v [] = refl
  find-assign j k v ((i, w) ∷ m) =
      ground (arith, e.beq_iff i k, e.beq_iff i j, e.beq_iff k j, find-assign j k v m)

  pub find-assign_self : (k : K) (v : V) (m : List (K × V)) → find k (assign k v m) ≡ some v
  find-assign_self k v m = ground (arith, e.beq_iff k k, find-assign k k v m)

  -- Only a new key makes the map longer.
  pub length-assign :
      (k : K) (v : V) (m : List (K × V))
      → length (assign k v m) ≡ (elim (find k m) [ none ↦ length m + 1 | some _ ↦ length m ])
  length-assign k v [] = omega arith
  length-assign k v ((j, w) ∷ m) = ground (arith, length-assign k v m)

-- Texts and arrays of characters as lists of byte values.
abbrev pub same_bytes : List ℕ → List ℕ → Bool
same_bytes [] [] = true
same_bytes (a ∷ x) (b ∷ y) = a == b && same_bytes x y
same_bytes _ _ = false

pub same_bytes_iff : (x y : List ℕ) → (same_bytes x y ≡ true) ↔ (x ≡ y)
same_bytes_iff [] [] = (λ _. refl, λ _. refl)
same_bytes_iff [] (b ∷ y) = ground arith
same_bytes_iff (a ∷ x) [] = ground arith
same_bytes_iff (a ∷ x) (b ∷ y) = ground (arith, same_bytes_iff x y)

instance abbrev pub bytes_eq : Eq (List ℕ)
bytes_eq = record { beq = same_bytes; beq_iff = same_bytes_iff }

module _ {ℓ κ} {K : Type ℓ} {V : Type κ} ⦃e : Eq K⦄ where
  -- What holds of all stored values.
  pub All-assign :
      (P : V → Type κ) (k : K) (v : V) (m : List (K × V))
      → P v
      → All (λ e. P e.1) m
      → All (λ e. P e.1) (assign k v m)
  All-assign P k v [] p h = (p, tt)
  All-assign P k v ((j, w) ∷ m) p (h, hs) = elim (Bool-cases (e.beq j k)) [
    | inl same ↦ rw same (p, hs)
    | inr other ↦ rw other (h, All-assign P k v m p hs)
  ]

  pub All-find :
      (P : V → Type κ) (k : K) (v : V) (m : List (K × V))
      → find k m ≡ some v
      → All (λ e. P e.1) m
      → P v
  All-find P k v [] f h = absurd (cc)
  All-find P k v ((j, w) ∷ m) f (h, hs) = elim (Bool-cases (e.beq j k)) [
    | inl same ↦ let eq : w ≡ v = ground (arith, f) in rw (← eq) h
    | inr other ↦ All-find P k v m (ground (arith, f)) hs
  ]

  -- A second assignment to a key replaces the first.
  pub assign-assign :
      (k : K) (v w : V) (m : List (K × V)) → assign k w (assign k v m) ≡ assign k w m
  assign-assign k v w [] = ground (arith, e.beq_iff k k)
  assign-assign k v w ((j, u) ∷ m) = ground (arith, assign-assign k v w m)
