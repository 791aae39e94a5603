-- ===== src/Levels/Sorted.antt =====
-- Sorted lists of levels, as maps.
use market_data_processor.Prelude.{
  ℕ, ◌≡◌, inl, inr, refl, arith, true, none, some, [], ◌∷◌, if◌then◌else◌, All, All-zip, Bool-cases,
}
use market_data_processor.Double.{
  Double, IsOrdered, IsNumber, lt_asymm, lt_congr_left, lt_congr_right,
}
use market_data_processor.Levels.{Levels, same_key, find_level, set_level, erase_level}

module _ {D : Type 0} ⦃d : Double D⦄ where
  abbrev pub Above : D → Levels D → Type 0
  Above p = All λ l. d.lt p l.0 ≡ true

  -- The keys are numbers, and rise.
  abbrev pub IsSorted : Levels D → Type 0
  IsSorted [] = Unit
  IsSorted ((p, v) ∷ ls) = IsNumber p × Above p ls × IsSorted ls

  pub IsSorted-IsNumber : (ls : Levels D) → IsSorted ls → All (λ l. IsNumber l.0) ls
  IsSorted-IsNumber [] s = tt
  IsSorted-IsNumber ((p, v) ∷ ls) (n, above, s) = (n, IsSorted-IsNumber ls s)

  -- What holds of every entry holds of every entry afterwards, if it does not depend on what was
  -- stored before.
  pub All-set_level :
      (P : D × ℕ → Type 0) (p : D) (v : ℕ) (ls : Levels D)
      → ((q : D) (w : ℕ) → P (q, w) → P (q, v))
      → P (p, v)
      → All P ls
      → All P (set_level p v ls)
  unfolding set_level
  All-set_level P p v [] keep h k = (h, tt)
  All-set_level P p v ((q, w) ∷ ls) keep h (k, ks) =
      let ih = All-set_level P p v ls keep h ks in
      elim (Bool-cases (d.lt q p)) [
        | inl less ↦ rw less (k, ih)
        | inr more ↦ elim (Bool-cases (d.lt p q)) [
          | inl before ↦ rw (more, before) (h, (k, ks))
          | inr same ↦ rw (more, same) (keep q w k, ks)
        ]
      ]

  pub All-erase_level :
      (P : D × ℕ → Type 0) (p : D) (ls : Levels D) → All P ls → All P (erase_level p ls).1
  unfolding erase_level
  All-erase_level P p [] h = tt
  All-erase_level P p ((q, w) ∷ ls) (k, ks) =
      let ih = All-erase_level P p ls ks in
      elim (Bool-cases (d.lt q p)) [
        | inl less ↦ rw less (k, ih)
        | inr more ↦ elim (Bool-cases (d.lt p q)) [
          | inl before ↦ rw (more, before) (k, ks)
          | inr same ↦ rw (more, same) ks
        ]
      ]

  module _ (laws : IsOrdered d) where
    open laws use {lt_irrefl, lt_trans}

    pub Above-trans : (p q : D) (ls : Levels D) → d.lt p q ≡ true → Above q ls → Above p ls
    Above-trans p q [] h k = tt
    Above-trans p q ((r, w) ∷ ls) h (k, ks) = (lt_trans p q r h k, Above-trans p q ls h ks)

    pub set_level-IsSorted :
        (p : D) (v : ℕ) (ls : Levels D) → IsNumber p → IsSorted ls → IsSorted (set_level p v ls)
    unfolding set_level
    set_level-IsSorted p v [] n s = (n, tt, tt)
    set_level-IsSorted p v ((q, w) ∷ ls) n (nq, above, s) =
        let ih = set_level-IsSorted p v ls n s in
        elim (Bool-cases (d.lt q p)) [
          | inl less ↦
              rw less
                (nq, All-set_level (λ l. d.lt q l.0 ≡ true) p v ls (λ _ _ k. k) less above, ih)
          | inr more ↦ elim (Bool-cases (d.lt p q)) [
            | inl before ↦
                rw (more, before) (n, (before, Above-trans p q ls before above), (nq, above, s))
            | inr same ↦ rw (more, same) (nq, above, s)
          ]
        ]

    pub erase_level-IsSorted : (p : D) (ls : Levels D) → IsSorted ls → IsSorted (erase_level p ls).1
    unfolding erase_level
    erase_level-IsSorted p [] s = tt
    erase_level-IsSorted p ((q, w) ∷ ls) (nq, above, s) =
        let ih = erase_level-IsSorted p ls s in
        elim (Bool-cases (d.lt q p)) [
          | inl less ↦ rw less (nq, All-erase_level (λ l. d.lt q l.0 ≡ true) p ls above, ih)
          | inr more ↦ elim (Bool-cases (d.lt p q)) [
            | inl before ↦ rw (more, before) (nq, above, s)
            | inr same ↦ rw (more, same) s
          ]
        ]

    -- A key below all others is not among them.
    find_level-Above : (p : D) (ls : Levels D) → Above p ls → find_level p ls ≡ none
    unfolding find_level
    find_level-Above p [] a = refl
    find_level-Above p ((r, w) ∷ ls) (a, rest) = ground (arith, find_level-Above p ls rest)

    -- Keys that the map takes for the same lie below the same keys.
    Above-same :
        (p q : D) (ls : Levels D)
        → IsNumber p
        → IsNumber q
        → same_key p q ≡ true
        → Above p ls
        → Above q ls
    Above-same p q [] np nq h a = tt
    Above-same p q ((r, w) ∷ ls) np nq h (a, rest) =
        (ground (arith, lt_congr_left laws p q r np nq), Above-same p q ls np nq h rest)

    pub find_level-set_level :
        (p q : D) (v : ℕ) (ls : Levels D)
        → IsNumber p
        → IsNumber q
        → IsSorted ls
        → find_level q (set_level p v ls) ≡ (if same_key p q then some v else find_level q ls)
    unfolding find_level set_level
    find_level-set_level p q v [] np nq s = refl
    find_level-set_level p q v ((r, w) ∷ ls) np nq (nr, above, s) = ground (
      arith,
      find_level-set_level p q v ls np nq s,
      lt_congr_left laws r q p nr nq,
      lt_congr_right laws r q p nr nq,
      lt_congr_left laws r p q nr np,
      lt_congr_right laws r p q nr np,
    )

    pub find_level-erase_level :
        (p q : D) (ls : Levels D)
        → IsNumber p
        → IsNumber q
        → IsSorted ls
        → find_level q (erase_level p ls).1 ≡ (if same_key p q then none else find_level q ls)
    unfolding find_level erase_level
    find_level-erase_level p q [] np nq s = ground arith
    find_level-erase_level p q ((r, w) ∷ ls) np nq (nr, above, s) = ground (
      arith,
      find_level-erase_level p q ls np nq s,
      find_level-Above q ls,
      Above-same r q ls nr nq,
      Above-trans p r ls,
      Above-trans q r ls,
      lt_congr_left laws r q p nr nq,
      lt_congr_right laws r q p nr nq,
      lt_congr_left laws r p q nr np,
      lt_congr_right laws r p q nr np,
      lt_congr_left laws p q r np nq,
      lt_congr_right laws p q r np nq,
    )

    -- An erasure counts the entry that was found.
    pub erase_level-count :
        (p : D) (ls : Levels D)
        → IsNumber p
        → IsSorted ls
        → (erase_level p ls).0 ≡ (elim (find_level p ls) [ none ↦ 0 | some _ ↦ 1 ])
    unfolding find_level erase_level
    erase_level-count p [] n s = refl
    erase_level-count p ((q, w) ∷ ls) n (nq, above, s) = ground (
      arith,
      erase_level-count p ls n s,
      find_level-Above p ls,
      Above-trans p q ls,
      lt_asymm laws p q,
    )

    -- Every entry is found under its key.
    pub find_level-All : (ls : Levels D) → IsSorted ls → All (λ l. find_level l.0 ls ≡ some l.1) ls
    unfolding find_level
    find_level-All [] s = tt
    find_level-All ((q, w) ∷ ls) (nq, above, s) = (
      ground (arith, lt_irrefl q),
      All-zip (λ l. d.lt q l.0 ≡ true) (λ l. find_level l.0 ls ≡ some l.1)
          (λ l. find_level l.0 ((q, w) ∷ ls) ≡ some l.1) ls (λ l above found. ground arith) above
          (find_level-All ls s),
    )
