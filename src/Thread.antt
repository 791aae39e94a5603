-- ===== src/Thread.antt =====
-- `ThreadBase` (src/core/include/core/ThreadBase.hpp): the life cycle of a stage's thread, as the steps
-- of its owner, who calls `start` and `stop`, and of the worker, which calls `run`.
pub mod Lifecycle
mod Tests
use market_data_processor.Prelude.{◌≡◌, Bool, true, false, if◌then◌else◌}

-- Where the worker stands: there is none, it has been created, it is in `run`, it has seen a stop there
-- and is on its way out, or it has left `run` (by a return or an exception) and cleared `running_`.
pub data Worker : Type 0 where
  absent launched inside stopping finished : Worker

-- The owner is free to call, or waits in the `join` of `stop`.
pub data Owner : Type 0 where
  free joining : Owner

pub record ThreadBase : Type 0 where
  pub owner : Owner
  pub worker : Worker
  pub joinable : Bool
  pub stop_flag : Bool
  pub running : Bool

-- The constructor starts nothing.
unfoldable pub new_thread : ThreadBase
new_thread = record {
  owner = free;
  worker = absent;
  joinable = false;
  stop_flag = false;
  running = false;
}

unfoldable pub start : ThreadBase → ThreadBase
start s =
    if s.joinable then s else record s { stop_flag = false; joinable = true; worker = launched }

-- `stop` up to the `join`: without a thread it returns at once.
unfoldable pub begin_stop : ThreadBase → ThreadBase
begin_stop s = record s { stop_flag = true; owner = if s.joinable then joining else free }

-- The `join` returns.
unfoldable pub end_stop : ThreadBase → ThreadBase
end_stop s = record s { owner = free; joinable = false; worker = absent }

-- The body of the thread before and after the call of `run`.
unfoldable pub enter_run : ThreadBase → ThreadBase
enter_run s = record s { worker = inside; running = true }

unfoldable pub leave_run : ThreadBase → ThreadBase
leave_run s = record s { worker = finished; running = false }

-- `StopToken::stop_requested`, on the flag that `start` has passed on.
unfoldable pub stop_requested : ThreadBase → Bool
stop_requested s = s.stop_flag

-- The test of a loop of `run`: `run` is the subclass's, and ends once it has seen a stop.
unfoldable pub poll_stop : ThreadBase → ThreadBase
unfolding stop_requested
poll_stop s = record s { worker = if stop_requested s then stopping else inside }

pub data Step (s : ThreadBase) : ThreadBase → Type 0 where
  call_start : s.owner ≡ free → Step s (start s)
  call_stop : s.owner ≡ free → Step s (begin_stop s)
  join : s.owner ≡ joining → s.worker ≡ finished → Step s (end_stop s)
  enter : s.worker ≡ launched → Step s (enter_run s)
  poll : s.worker ≡ inside → Step s (poll_stop s)
  leave : s.worker ≡ stopping → Step s (leave_run s)
  leave_early : s.worker ≡ inside → Step s (leave_run s)

pub data Steps (s : ThreadBase) : ThreadBase → Type 0 where
  here : Steps s s
  then_step : {t u : ThreadBase} → Steps s t → Step t u → Steps s u
