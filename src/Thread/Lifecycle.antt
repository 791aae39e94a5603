-- ===== src/Thread/Lifecycle.antt =====
-- What holds of a thread in every state that its owner and its worker can reach.
use market_data_processor.Prelude.{
  ℕ, zero, suc, ◌≤◌, ◌<◌, ◌≢◌, ◌≡◌, ◌↔◌, ◌⊎◌, inl, inr, refl, arith, true, false,
}
use market_data_processor.Thread.{
  Worker, absent, launched, inside, stopping, finished, free, joining, ThreadBase, new_thread,
  start, begin_stop, end_stop, enter_run, leave_run, poll_stop, stop_requested, Step, call_start,
  call_stop, join, enter, leave, poll, leave_early, Steps, here, then_step,
}

-- The flags tell the truth about the worker, and an owner in `join` has asked it to stop.
pub record IsConsistent (s : ThreadBase) : Type 0 where
  pub joinable_iff : (s.joinable ≡ false) ↔ (s.worker ≡ absent)
  pub running_iff : (s.running ≡ true) ↔ ((s.worker ≡ inside) ⊎ (s.worker ≡ stopping))
  pub asked : s.owner ≡ joining → (s.joinable ≡ true) × (s.stop_flag ≡ true)

new_thread-IsConsistent : IsConsistent new_thread
unfolding new_thread
new_thread-IsConsistent = record {
  joinable_iff = (λ _. refl, λ _. refl);
  running_iff = ground arith;
  asked = λ e. absurd (cc);
}

Step-IsConsistent : {s t : ThreadBase} → Step s t → IsConsistent s → IsConsistent t
unfolding start begin_stop end_stop enter_run leave_run poll_stop stop_requested
Step-IsConsistent {s} (call_start free_now) c = ground arith
Step-IsConsistent {s} (call_stop free_now) c = ground arith
Step-IsConsistent {s} (join waits done) c = ground arith
Step-IsConsistent {s} (enter e) c = ground arith
Step-IsConsistent {s} (poll e) c = ground arith
Step-IsConsistent {s} (leave e) c = ground arith
Step-IsConsistent {s} (leave_early e) c = ground arith

-- In every state that can be reached from the constructor the thread is joinable exactly if there is
-- a worker, `is_running` holds exactly while the worker is in `run`, and an owner that waits in
-- `stop` has a thread and has set the stop flag.
pub Steps-IsConsistent : {s : ThreadBase} → Steps new_thread s → IsConsistent s
Steps-IsConsistent here = new_thread-IsConsistent
Steps-IsConsistent (then_step r st) = Step-IsConsistent st (Steps-IsConsistent r)

-- The destructor's assertion is enough: in a reachable state whose thread is not joinable there is
-- no worker, and `is_running` is false. A `start` there launches a worker that sees no stop; a
-- `start` of a joinable thread changes nothing, so there is never a second worker.
pub start-once :
    {s : ThreadBase}
    → Steps new_thread s
    → (s.joinable ≡ false
        → (s.worker ≡ absent)
          × (s.running ≡ false)
          × ((start s).worker ≡ launched)
          × ((start s).stop_flag ≡ false))
      × (s.joinable ≡ true → start s ≡ s)
unfolding start
start-once {s} r = let c = Steps-IsConsistent r in (λ idle. ground arith, λ busy. simp busy refl)

-- How many steps the worker and the `join` still take at most.
abbrev pub rank : Worker → ℕ
rank launched = 4
rank inside = 3
rank stopping = 2
rank finished = 1
rank absent = 0

-- The owner is out of `stop`, and there is no thread.
pub record IsStopped (s : ThreadBase) : Type 0 where
  pub owner_free : s.owner ≡ free
  pub no_thread : s.joinable ≡ false
  pub not_running : s.running ≡ false

-- The `stop` is over, or some step is possible, and after whatever step it ends with one step fewer.
abbrev pub EndsWithin : ℕ → ThreadBase → Type 0
EndsWithin zero s = IsStopped s
EndsWithin (suc n) s =
    IsStopped s ⊎ ((t : ThreadBase) × Step s t) × ((t : ThreadBase) → Step s t → EndsWithin n t)

can_step :
    {s : ThreadBase} (w : Worker)
    → IsConsistent s
    → s.owner ≡ joining
    → s.worker ≡ w
    → (t : ThreadBase) × Step s t
can_step {s} absent c waits e = absurd (ground (arith, c.asked, c.joinable_iff))
can_step {s} launched c waits e = (enter_run s, enter e)
can_step {s} inside c waits e = (poll_stop s, poll e)
can_step {s} stopping c waits e = (leave_run s, leave e)
can_step {s} finished c waits e = (end_stop s, join waits e)

-- While the owner waits, every step ends the `stop` or brings the worker nearer to its end.
Step-joining :
    {s t : ThreadBase}
    → IsConsistent s
    → s.owner ≡ joining
    → Step s t
    → IsStopped t ⊎ (t.owner ≡ joining) × (suc (rank t.worker) ≤ rank s.worker)
unfolding end_stop enter_run leave_run poll_stop stop_requested
Step-joining {s} c waits (call_start free_now) = absurd (cc)
Step-joining {s} c waits (call_stop free_now) = absurd (cc)
Step-joining {s} c waits (join _ done) =
    inl
      (record { owner_free = refl; no_thread = refl; not_running = ground (arith, c.running_iff) })
Step-joining {s} c waits (enter e) = inr (waits, rw e (omega arith))
Step-joining {s} c waits (poll e) =
    let asked = (c.asked waits).1 in inr (waits, simp (e, asked) (omega arith))
Step-joining {s} c waits (leave e) = inr (waits, rw e (omega arith))
Step-joining {s} c waits (leave_early e) = inr (waits, rw e (omega arith))

rank-pos : (w : Worker) → w ≢ absent → 0 < rank w
rank-pos absent h = absurd (h refl)
rank-pos launched h = omega arith
rank-pos inside h = omega arith
rank-pos stopping h = omega arith
rank-pos finished h = omega arith

rank-le : (w : Worker) → rank w ≤ 4
rank-le absent = omega arith
rank-le launched = omega arith
rank-le inside = omega arith
rank-le stopping = omega arith
rank-le finished = omega arith

IsStopped-EndsWithin : (n : ℕ) (s : ThreadBase) → IsStopped s → EndsWithin n s
IsStopped-EndsWithin zero s h = h
IsStopped-EndsWithin (suc n) s h = inl h

ends :
    (n : ℕ) (s : ThreadBase)
    → IsConsistent s
    → s.owner ≡ joining
    → rank s.worker ≤ n
    → EndsWithin n s
ends zero s c waits small =
    let some_worker : s.worker ≢ absent = λ gone. ground (arith, c.asked, c.joinable_iff) in
    absurd (omega (arith, rank-pos s.worker some_worker))
ends (suc n) s c waits small = inr (
  can_step s.worker c waits refl,
  λ t st. elim (Step-joining c waits st) [
    | inl over ↦ IsStopped-EndsWithin n t over
    | inr (still, nearer) ↦ ends n t (Step-IsConsistent st c) still (omega arith)
  ],
)

-- A `stop` that waits ends, in whatever order the threads go on: from every reachable state in which the
-- owner waits in `join`, some step is possible and every run of steps comes, after at most four of them,
-- to a state in which the owner is free and there is no thread. (`run` is taken to test the stop as long
-- as it goes on, and to end once it has seen one; it may also end before.)
pub stop_ends : {s : ThreadBase} → Steps new_thread s → s.owner ≡ joining → EndsWithin 4 s
stop_ends {s} r waits = ends 4 s (Steps-IsConsistent r) waits (rank-le s.worker)
