-- ===== src/Ring/Slots.antt =====
-- Windows of a ring: the elements at the slots of consecutive counters.
use native.Mathlib.Nat.{mod-eq_of_lt, mod-eq-sub-mod, mod-lt, mod-add-mod}
use native.Mathlib.Decide.{dec_lt}
use market_data_processor.Prelude.{
  ℕ, zero, suc, ◌+◌, ◌-◌, ◌%◌, ◌≤◌, ◌<◌, ◌≡◌, ◌≢◌, refl, sym, ap, ◌∙◌, List, [], ◌∷◌, ◌++◌, arith,
  length, get_or, set, get_or-set_ne,
}

-- Fewer than `n` steps lead to another slot.
pub mod-ne : (n a d : ℕ) → 0 < d → d < n → (a + d) % n ≢ a % n
mod-ne n a d pos small e = elim (dec_lt (a % n + d) n) [
  | yes fits ↦ omega (arith, mod-add-mod a n d, mod-eq_of_lt fits)
  | no wraps ↦ omega (
    arith,
    mod-add-mod a n d,
    mod-lt a {m = n} (omega arith),
    mod-eq-sub-mod {n = a % n + d} {m = n} (omega arith),
    mod-eq_of_lt {n = a % n + d - n} {m = n} (omega (arith, mod-lt a {m = n} (omega arith))),
  )
]

module _ {ℓ} {T : Type ℓ} (blank : T) (n : ℕ) where
  -- The `k` elements from counter `t` on.
  abbrev pub window : List T → ℕ → ℕ → List T
  window buf t zero = []
  window buf t (suc k) = get_or buf (t % n) blank ∷ window buf (t + 1) k

module _ {ℓ} {T : Type ℓ} (blank : T) (n : ℕ) where
  pub length-window : (buf : List T) (t k : ℕ) → length (window blank n buf t k) ≡ k
  length-window buf t zero = refl
  length-window buf t (suc k) = ap suc (length-window buf (t + 1) k)

  -- Counters of the same slot give the same window.
  pub window_congr :
      (buf : List T) (s t k : ℕ) → s % n ≡ t % n → window blank n buf s k ≡ window blank n buf t k
  window_congr buf s t zero e = refl
  window_congr buf s t (suc k) e =
      let next : (s + 1) % n ≡ (t + 1) % n =
        sym (mod-add-mod s n 1) ∙ ap (λ r. (r + 1) % n) e ∙ mod-add-mod t n 1 in
      rw (e, window_congr buf (s + 1) (t + 1) k next)

  -- The code tests for no elements, `window` matches on their number.
  pub window_of_pos :
      (buf : List T) (t k : ℕ)
      → 0 < k
      → window blank n buf t k ≡ get_or buf (t % n) blank ∷ window blank n buf (t + 1) (k - 1)
  window_of_pos buf t zero h = absurd (omega arith)
  window_of_pos buf t (suc k) h =
      ap (λ j. get_or buf (t % n) blank ∷ window blank n buf (t + 1) j) {y = suc k - 1}
        (omega arith)

  -- A write at a later counter of the same round is outside the window.
  pub window-set :
      (buf : List T) (t k w : ℕ) (x : T)
      → t + k ≤ w
      → w < t + n
      → window blank n (set buf (w % n) x) t k ≡ window blank n buf t k
  window-set buf t zero w x lo hi = refl
  window-set buf t (suc k) w x lo hi =
      let apart : t + (w - t) ≡ w = omega arith in
      let other : w % n ≢ t % n = rw apart at (mod-ne n t (w - t) (omega arith) (omega arith)) in
      rw (
        get_or-set_ne buf (w % n) (t % n) x blank other,
        window-set buf (t + 1) k w x (omega arith) (omega arith),
      )

  pub window-suc :
      (buf : List T) (t k : ℕ)
      → window blank n buf t (suc k)
        ≡ window blank n buf t k ++ (get_or buf ((t + k) % n) blank ∷ [])
  window-suc buf t zero = ap (λ c. get_or buf (c % n) blank ∷ []) (omega arith)
  window-suc buf t (suc k) =
      let next : t + 1 + k ≡ t + suc k = omega arith in
      ap (◌∷◌ (get_or buf (t % n) blank)) (rw next at (window-suc buf (t + 1) k))
