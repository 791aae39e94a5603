-- ===== src/Normalizer/History.antt =====
-- What `Normalizer` promises, told of the list of the ticks it has let through, the newest first.
use mathlib.Core.List.{append-nil, append_assoc}
use market_data_processor.Prelude.Merge.{Merge, nil, left, right, Merge-All}
use market_data_processor.Prelude.{
  ℕ, ◌+◌, ◌≡◌, inl, inr, refl, arith, Bool, true, false, not, ◌&&◌, Option, none, some, List, [],
  ◌∷◌, ◌++◌, if◌then◌else◌, All, All-append, All-drop, drop, length, zero, suc, sym, subst,
  Bool-cases,
}
use market_data_processor.Prelude.Int.{ltb_ℤ, eqb_ℤ, ◌≤ℤ◌}
use market_data_processor.Prelude.Dict.{same_bytes, same_bytes_iff}
use market_data_processor.Double.{Double}
use market_data_processor.Tick.{MarketTick}

module _ {D : Type 0} ⦃d : Double D⦄ where
  -- The last tick of the symbol that was let through.
  abbrev pub latest : List ℕ → List (MarketTick D) → Option (MarketTick D)
  latest key [] = none
  latest key (t ∷ h) = if same_bytes t.symbol key then some t else latest key h

  -- The same price at the same time as the last tick of its symbol.
  abbrev pub repeats : List (MarketTick D) → MarketTick D → Bool
  repeats h t = elim (latest t.symbol h) [
    | none ↦ false
    | some last ↦ d.eq last.price t.price && eqb_ℤ last.timestamp_ns t.timestamp_ns
  ]

  -- Older than the last tick of its symbol.
  abbrev pub late : List (MarketTick D) → MarketTick D → Bool
  late h t = elim (latest t.symbol h) [
    | none ↦ false
    | some last ↦ ltb_ℤ t.timestamp_ns last.timestamp_ns
  ]

  abbrev pub admits : List (MarketTick D) → MarketTick D → Bool
  admits h t = not (repeats h t) && not (late h t)

  -- Every tick was let through by the ticks before it.
  abbrev pub Orderly : List (MarketTick D) → Type 0
  Orderly [] = Unit
  Orderly (t ∷ h) = (admits h t ≡ true) × Orderly h

  -- One more tick arrives, or several, the oldest first.
  abbrev pub step : List (MarketTick D) → MarketTick D → List (MarketTick D)
  step h t = if repeats h t then h else if late h t then h else t ∷ h

  unfoldable pub sift : List (MarketTick D) → List (MarketTick D) → List (MarketTick D)
  sift h [] = h
  sift h (t ∷ ts) = sift (step h t) ts

  -- The ticks that are let through, and the numbers of those that are not.
  unfoldable pub fresh_of : List (MarketTick D) → List (MarketTick D) → List (MarketTick D)
  fresh_of h [] = []
  fresh_of h (t ∷ ts) = if admits h t then t ∷ fresh_of (step h t) ts else fresh_of (step h t) ts

  unfoldable pub repeats_of : List (MarketTick D) → List (MarketTick D) → ℕ
  repeats_of h [] = 0
  repeats_of h (t ∷ ts) = (if repeats h t then 1 else 0) + repeats_of (step h t) ts

  unfoldable pub late_of : List (MarketTick D) → List (MarketTick D) → ℕ
  late_of h [] = 0
  late_of h (t ∷ ts) = (if not (repeats h t) && late h t then 1 else 0) + late_of (step h t) ts

  -- No older than `t`, if of the same symbol.
  abbrev pub UpTo : MarketTick D → MarketTick D → Type 0
  UpTo t u = u.symbol ≡ t.symbol → u.timestamp_ns ≤ℤ t.timestamp_ns

  -- The times of each symbol do not fall; the oldest tick first.
  abbrev pub Monotone : List (MarketTick D) → Type 0
  Monotone [] = Unit
  Monotone (u ∷ us) = All (λ t. UpTo t u) us × Monotone us

  -- Some tick of the same symbol in the history is at least as new.
  abbrev pub Covered : List (MarketTick D) → MarketTick D → Type 0
  Covered h u =
      (l : MarketTick D) × (latest u.symbol h ≡ some l) × (u.timestamp_ns ≤ℤ l.timestamp_ns)

  -- A tick that is let through is no older than what is covered.
  pub Covered-UpTo :
      (h : List (MarketTick D)) (t u : MarketTick D) → admits h t ≡ true → Covered h u → UpTo t u
  Covered-UpTo h t u a (l, e, le) same =
      let found : latest t.symbol h ≡ some l = rw (← same) e in ground arith

  pub Covered-cons :
      (h : List (MarketTick D)) (t u : MarketTick D)
      → admits h t ≡ true
      → Covered h u
      → Covered (t ∷ h) u
  Covered-cons h t u a (l, e, le) = elim (Bool-cases (same_bytes t.symbol u.symbol)) [
    | inl same ↦
        let up =
          Covered-UpTo h t u a (l, e, le) (sym ((same_bytes_iff t.symbol u.symbol).0 same)) in
        (t, rw same refl, up)
    | inr other ↦ (l, rw other e, le)
  ]

  pub Covered-self : (h : List (MarketTick D)) (t : MarketTick D) → Covered (t ∷ h) t
  Covered-self h t = (t, ground (arith, same_bytes_iff t.symbol t.symbol), omega arith)

  pub Covered-cons_All :
      (h us : List (MarketTick D)) (t : MarketTick D)
      → admits h t ≡ true
      → All (Covered h) us
      → All (Covered (t ∷ h)) us
  Covered-cons_All h [] t a c = tt
  Covered-cons_All h (u ∷ us) t a (c, cs) = (Covered-cons h t u a c, Covered-cons_All h us t a cs)

  All-Covered-UpTo :
      (h us : List (MarketTick D)) (t : MarketTick D)
      → admits h t ≡ true
      → All (Covered h) us
      → All (UpTo t) us
  All-Covered-UpTo h [] t a c = tt
  All-Covered-UpTo h (u ∷ us) t a (c, cs) = (Covered-UpTo h t u a c, All-Covered-UpTo h us t a cs)

  Monotone-append :
      (us : List (MarketTick D)) (t : MarketTick D)
      → Monotone us
      → All (UpTo t) us
      → Monotone (us ++ (t ∷ []))
  Monotone-append [] t m h = (tt, tt)
  Monotone-append (u ∷ us) t (m, ms) (h, hs) =
      (All-append (λ v. UpTo v u) us (t ∷ []) m (h, tt), Monotone-append us t ms hs)

  pub Monotone-drop : (n : ℕ) (us : List (MarketTick D)) → Monotone us → Monotone (drop n us)
  Monotone-drop zero us m = m
  Monotone-drop (suc n) [] m = tt
  Monotone-drop (suc n) (u ∷ us) (m, ms) = Monotone-drop n us ms

  -- Ticks that were let through: their times do not fall, and the history covers them.
  pub record Ordered (h us : List (MarketTick D)) : Type 0 where
    pub monotone : Monotone us
    pub covered : All (Covered h) us

  pub Ordered-drop : (n : ℕ) (h us : List (MarketTick D)) → Ordered h us → Ordered h (drop n us)
  Ordered-drop n h us o = record {
    monotone = Monotone-drop n us o.monotone;
    covered = All-drop (Covered h) n us o.covered;
  }

  -- A tick that is let through but lost on its way.
  pub Ordered-lost :
      (h us : List (MarketTick D)) (t : MarketTick D)
      → admits h t ≡ true
      → Ordered h us
      → Ordered (t ∷ h) us
  Ordered-lost h us t a o = record {
    monotone = o.monotone;
    covered = Covered-cons_All h us t a o.covered;
  }

  pub Ordered-append :
      (h us : List (MarketTick D)) (t : MarketTick D)
      → admits h t ≡ true
      → Ordered h us
      → Ordered (t ∷ h) (us ++ (t ∷ []))
  Ordered-append h us t a o = record {
    monotone = Monotone-append us t o.monotone (All-Covered-UpTo h us t a o.covered);
    covered =
        All-append (Covered (t ∷ h)) us (t ∷ []) (Covered-cons_All h us t a o.covered)
          (Covered-self h t, tt);
  }

module _ {D : Type 0} ⦃d : Double D⦄ where
  -- Every tick is let through, or counted as a repetition or as late, and only one of these.
  pub fresh_of_accounts :
      (h ts : List (MarketTick D))
      → length (fresh_of h ts) + repeats_of h ts + late_of h ts ≡ length ts
  unfolding fresh_of repeats_of late_of
  fresh_of_accounts h [] = refl
  fresh_of_accounts h (t ∷ ts) = ground (arith, fresh_of_accounts (step h t) ts)

  pub sift-Orderly : (h ts : List (MarketTick D)) → Orderly h → Orderly (sift h ts)
  unfolding sift
  sift-Orderly h [] o = o
  sift-Orderly h (t ∷ ts) o = sift-Orderly (step h t) ts (ground (arith, o))

  pub fresh_of-append :
      (h ts us : List (MarketTick D))
      → fresh_of h (ts ++ us) ≡ fresh_of h ts ++ fresh_of (sift h ts) us
  unfolding fresh_of sift
  fresh_of-append h [] us = refl
  fresh_of-append h (t ∷ ts) us = ground (arith, fresh_of-append (step h t) ts us)

  pub sift-append : (h ts us : List (MarketTick D)) → sift h (ts ++ us) ≡ sift (sift h ts) us
  unfolding sift
  sift-append h [] us = refl
  sift-append h (t ∷ ts) us = sift-append (step h t) ts us

  -- Behind ticks whose times do not fall, the ticks that are let through do not make them fall.
  pub fresh_of-Monotone :
      (h us ts : List (MarketTick D)) → Ordered h us → Monotone (us ++ fresh_of h ts)
  unfolding fresh_of
  fresh_of-Monotone h us [] o = subst Monotone (sym (append-nil us)) o.monotone
  fresh_of-Monotone h us (t ∷ ts) o = elim (Bool-cases (admits h t)) [
    | inl fresh ↦
        let one : step h t ≡ t ∷ h = ground arith in
        let later = fresh_of-Monotone (t ∷ h) (us ++ (t ∷ [])) ts (Ordered-append h us t fresh o) in
        rw (fresh, one) (subst Monotone (append_assoc us (t ∷ []) (fresh_of (t ∷ h) ts)) later)
    | inr stale ↦
        let same : step h t ≡ h = ground arith in rw (stale, same) (fresh_of-Monotone h us ts o)
  ]

  pub Merge-Monotone :
      {xs rest ys : List (MarketTick D)} → Merge xs rest ys → Monotone ys → Monotone xs
  Merge-Monotone nil m = tt
  Merge-Monotone (left x k) (m, ms) = (Merge-All (λ t. UpTo t x) k m, Merge-Monotone k ms)
  Merge-Monotone (right y k) (m, ms) = Merge-Monotone k ms
