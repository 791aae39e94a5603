-- ===== src/Ring/Tests.antt =====
-- Runs of the ring buffer, also across the wrap of its counters, and its theorems at them.
use market_data_processor.Prelude.{ℕ, ◌-◌, ◌^◌, ◌≡◌, refl, arith, true, false, [], ◌∷◌}
use market_data_processor.Channel.{push_list, pop_list}
use market_data_processor.Ring.{Ring, power_of_two, try_push, try_pop}
use market_data_processor.Ring.Invariant.{IsValid}
use market_data_processor.Ring.Refines.{contents, try_push_refines, try_pop_refines}

-- The counters stand at 2^64 - 1: the next push wraps `head` to 0.
abbrev near_wrap : Ring ℕ
near_wrap = record { buffer = 7 ∷ 8 ∷ 9 ∷ 6 ∷ []; head = 2 ^ 64 - 1; tail = 2 ^ 64 - 3 }

near_wrap-IsValid : IsValid 4 near_wrap
near_wrap-IsValid = record {
  pow = (2, omega arith, refl);
  stored = refl;
  head_lt = omega arith;
  tail_lt = omega arith;
  within = omega arith;
}

wraps :
    (contents 0 4 near_wrap ≡ 8 ∷ 9 ∷ [])
    × (try_push 4 5 near_wrap
        ≡ (true, record { buffer = 7 ∷ 8 ∷ 9 ∷ 5 ∷ []; head = 0; tail = 2 ^ 64 - 3 }))
unfolding try_push
wraps = (refl, refl)

powers : (power_of_two 4096 ≡ true) × (power_of_two 0 ≡ false) × (power_of_two 12 ≡ false)
unfolding power_of_two
powers = (refl, refl, refl)

try_push_refines_example :
    let (done, r') = try_push 4 5 near_wrap in (done, contents 0 4 r') ≡ push_list 4 5 (8 ∷ 9 ∷ [])
try_push_refines_example = try_push_refines 0 4 5 near_wrap near_wrap-IsValid

try_pop_refines_example :
    let (done, x, r') = try_pop 4 0 near_wrap in
    (done, x, contents 0 4 r') ≡ pop_list 0 (8 ∷ 9 ∷ [])
try_pop_refines_example = try_pop_refines 0 4 0 near_wrap near_wrap-IsValid
