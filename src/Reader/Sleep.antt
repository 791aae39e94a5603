-- ===== src/Reader/Sleep.antt =====
-- How long `interruptible_sleep` sleeps, and the wait of the database writers, which is the same.
use market_data_processor.Prelude.{
  ℕ, zero, suc, ◌+◌, ◌-◌, ◌*◌, ◌≤◌, ◌<◌, ◌≡◌, inl, inr, refl, ap, arith, min, Bool, true, false,
  some, ltb, Bool-cases,
}
use market_data_processor.Reader.{sleep_loop, interruptible_sleep}
use market_data_processor.Writer.{retry_wait}

-- Of the tests from round `i` on, the number of those, at most `n`, before the first that finds a stop.
unfoldable pub tests_before : ℕ → (ℕ → Bool) → ℕ → ℕ
tests_before zero stop i = 0
tests_before (suc n) stop i = elim (stop i) [ true ↦ 0 | false ↦ suc (tests_before n stop (suc i)) ]

module _ (stop : ℕ → Bool) (slice : ℕ) (some_slice : 0 < slice) where
  sleep_loop_lem :
      (fuel i remaining n : ℕ)
      → remaining < fuel
      → remaining ≤ n
      → sleep_loop fuel stop i slice remaining
        ≡ some (min remaining (tests_before n stop i * slice))
  unfolding sleep_loop tests_before
  sleep_loop_lem zero i remaining n enough long = absurd (omega arith)
  sleep_loop_lem (suc fuel) i remaining zero enough long = ground arith
  sleep_loop_lem (suc fuel) i remaining (suc n) enough long =
      let t = tests_before n stop (suc i) in
      let more : suc t * slice ≡ slice + t * slice = grind arith in
      let later = sleep_loop_lem fuel (suc i) (remaining - slice) n in
      elim (Bool-cases (ltb 0 remaining)) [
        | inl go ↦ elim (Bool-cases (stop i)) [
          | inl now ↦ ground arith
          | inr on ↦
              let one_more : tests_before (suc n) stop i ≡ suc t = ground arith in
              rw (go, on, later (ground arith) (ground arith))
                (ap some (omega (arith, ap (λ (k : ℕ). k * slice) one_more)))
        ]
        | inr over ↦ ground arith
      ]

  -- The sleep returns. It sleeps for a slice for every test before the first that finds a stop, and
  -- never for longer than the total.
  pub interruptible_sleep_lem :
      (total n : ℕ)
      → total ≤ n
      → interruptible_sleep stop total slice ≡ some (min total (tests_before n stop 0 * slice))
  unfolding interruptible_sleep
  interruptible_sleep_lem total n long = sleep_loop_lem (suc total) 0 total n (omega arith) long

retry_wait-tests :
    (n : ℕ) (stop : ℕ → Bool) (i : ℕ) → retry_wait n stop i ≡ 100 * tests_before n stop i
unfolding retry_wait tests_before
retry_wait-tests zero stop i = refl
retry_wait-tests (suc n) stop i = ground (arith, retry_wait-tests n stop (suc i))

tests_before-le : (n : ℕ) (stop : ℕ → Bool) (i : ℕ) → tests_before n stop i ≤ n
unfolding tests_before
tests_before-le zero stop i = omega arith
tests_before-le (suc n) stop i = ground (arith, tests_before-le n stop (suc i))

-- More tests change nothing once a stop was found.
tests_before-min :
    (n m : ℕ) (stop : ℕ → Bool) (i : ℕ)
    → n ≤ m
    → tests_before n stop i ≡ min n (tests_before m stop i)
unfolding tests_before
tests_before-min zero m stop i h = omega arith
tests_before-min (suc n) zero stop i h = absurd (omega arith)
tests_before-min (suc n) (suc m) stop i h = ground (arith, tests_before-min n m stop (suc i))

-- The wait of the writers, 50 rounds of 100 ms, and the reader's interruptible sleep of 5 s in slices
-- of 100 ms sleep for the same time, whenever a stop comes: for 100 ms for each test before the first
-- that finds it, and for 5 s at most.
retry_wait-interruptible_sleep :
    (stop : ℕ → Bool) → interruptible_sleep stop 5000 100 ≡ some (retry_wait 50 stop 0)
retry_wait-interruptible_sleep stop =
    rw (interruptible_sleep_lem stop 100 (omega arith) 5000 5000 (omega arith))
      (ap some (omega (arith, retry_wait-tests 50 stop 0, tests_before-min 50 5000 stop 0)))
