-- ===== src/Thread/Tests.antt =====
-- A thread that is started and stopped, and its theorems at that run.
use market_data_processor.Prelude.{◌≡◌, refl, true, false}
use market_data_processor.Thread.{
  absent, launched, inside, joining, ThreadBase, new_thread, start, begin_stop, enter_run, Steps,
  here, then_step, call_start, call_stop, enter,
}
use market_data_processor.Thread.Lifecycle.{EndsWithin, start-once, stop_ends}

-- In `run`, with the owner in `stop`.
abbrev waiting : ThreadBase
waiting = record {
  owner = joining;
  worker = inside;
  joinable = true;
  stop_flag = true;
  running = true;
}

Steps-waiting : Steps new_thread waiting
unfolding new_thread start begin_stop enter_run
Steps-waiting =
    let r0 : Steps new_thread new_thread = here in
    let r1 : Steps new_thread (start new_thread) = then_step r0 (call_start refl) in
    let r2 : Steps new_thread (enter_run (start new_thread)) = then_step r1 (enter refl) in
    then_step r2 (call_stop refl)

start-once_example :
    (waiting.joinable ≡ false
      → (waiting.worker ≡ absent)
        × (waiting.running ≡ false)
        × ((start waiting).worker ≡ launched)
        × ((start waiting).stop_flag ≡ false))
    × (waiting.joinable ≡ true → start waiting ≡ waiting)
start-once_example = start-once Steps-waiting

stop_ends_example : EndsWithin 4 waiting
stop_ends_example = stop_ends Steps-waiting refl
