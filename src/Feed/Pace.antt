-- ===== src/Feed/Pace.antt =====
-- `FeedSimulator::rate_control`: the guard before a deadline, and the rhythm of the rounds.
use market_data_processor.Prelude.{
  ℕ, Bool, true, false, ◌||◌, leb, if◌then◌else◌, ◌+◌, ◌-◌, ◌*◌, ◌≤◌, ◌<◌, ◌≡◌, ◌↔◌, inl, inr, refl,
  arith, Option, none, some, List, [], ◌∷◌, Bool-cases, ltb,
}
use market_data_processor.Feed.{guard_of, spin, rate_control}

-- The guard is 50 µs exactly from intervals of 500 µs on, that is up to 2 kHz; it is zero exactly
-- below 10 µs, that is above 100 kHz; and it never exceeds a tenth of the interval.
pub guard_of_lem :
    (interval : ℕ)
    → ((guard_of interval ≡ 50000) ↔ (500000 ≤ interval))
      × ((guard_of interval ≡ 0) ↔ (interval < 10000))
      × (10 * guard_of interval ≤ interval)
unfolding guard_of
guard_of_lem interval =
    ((λ h. omega arith, λ h. omega arith), (λ h. omega arith, λ h. omega arith), omega arith)

-- Some reading has come to the deadline.
abbrev pub reaches : ℕ → List ℕ → Bool
reaches deadline [] = false
reaches deadline (now ∷ later) = leb deadline now || reaches deadline later

spin_lem :
    (deadline : ℕ) (readings : List ℕ)
    → (reaches deadline readings ≡ true
        → (now : ℕ) × (spin deadline readings ≡ some now) × (deadline ≤ now))
      × (reaches deadline readings ≡ false → spin deadline readings ≡ none)
unfolding spin
spin_lem deadline [] = (λ h. absurd (cc), λ _. refl)
spin_lem deadline (now ∷ later) =
    let ih = spin_lem deadline later in
    elim (Bool-cases (ltb now deadline)) [
      | inl early ↦
          let same : reaches deadline (now ∷ later) ≡ reaches deadline later = ground arith in
          (λ h. rw early (ih.0 (ground arith)), λ h. rw early (ih.1 (ground arith)))
      | inr late ↦ (λ h. (now, rw late, ground arith), λ h. absurd (ground arith))
    ]

-- `rate_control` returns exactly if the clock comes to the next deadline, which is one interval after
-- the last one, however late the call is. It returns at or after the deadline, and if it sleeps, then
-- up to a moment before the deadline by the guard.
pub rate_control_lem :
    (first : ℕ) (readings : List ℕ) (next_tick interval : ℕ)
    → let deadline = next_tick + interval in
      (reaches deadline readings ≡ true
        → (slept : Option ℕ) × (now : ℕ) × (rate_control first readings next_tick interval
            ≡ some (slept, now, deadline))
          × (deadline ≤ now)
          × ((until : ℕ)
              → slept ≡ some until
              → (first < until) × (until + guard_of interval ≡ deadline)))
      × (reaches deadline readings ≡ false → rate_control first readings next_tick interval ≡ none)
unfolding rate_control
rate_control_lem first readings next_tick interval =
    let deadline = next_tick + interval in
    let (ends, waits) = spin_lem deadline readings in
    let small = (guard_of_lem interval).2 in
    (
      λ h.
          let (now, e, late) = ends h in
          let target = deadline - guard_of interval in
          (
            if ltb first target then some target else none,
            now,
            ground (arith, e),
            late,
            λ until s. elim (Bool-cases (ltb first target)) [
              | inl sleeps ↦
                  let same : some target ≡ some until = rw sleeps at s in
                  let t : target ≡ until = cc in (ground arith, omega arith)
              | inr skips ↦ let none_slept : none ≡ some until = rw skips at s in absurd (cc)
            ],
          ),
      λ h. ground (arith, waits h),
    )
