-- ===== src/Writer/Bounds.antt =====
-- How large the batch of `process_queue` grows, and what an exception loses.
use market_data_processor.Prelude.{
  ◌≤◌, ◌<◌, ◌≡◌, ◌≢◌, not, inl, inr, refl, arith, Bool, true, false, ◌||◌, List, [], ◌∷◌, ◌++◌,
  length, length-append, leb, if◌then◌else◌, Bool-cases, List-cases,
}
use market_data_processor.Channel.{Channel}
use market_data_processor.Stage.Rounds.{arrive}
use market_data_processor.Writer.{
  Writer, Beat, Exit, stopped, threw, waiting, flush, queue_step, close, process_queue,
}

module _ {T Params In : Type 0} (input : Channel T In) (blank : T) (params : T → Params) where
  -- Vacuous for a call that is still in its loop.
  abbrev pub AfterQueue : Exit (Writer T Params In) → Type 0
  AfterQueue waiting = Unit
  AfterQueue (stopped s') = s'.local_batch ≡ []
  AfterQueue (threw s') = (0 < length s'.local_batch) × (length s'.local_batch ≤ 100)

  flush_bound :
      (commits : Bool) (s : Writer T Params In)
      → length s.local_batch ≤ 100
      → let (ok, s') = flush input blank params commits s in
        (ok ≡ true → s'.local_batch ≡ [])
        × (ok ≡ false → (0 < length s'.local_batch) × (length s'.local_batch ≤ 100))
  unfolding flush
  flush_bound commits s h = elim (List-cases s.local_batch) [
    | inl e ↦ ground arith
    | inr (x, ys, e) ↦ ground arith
  ]

  queue_step_bound :
      (r : Beat T) (s : Writer T Params In)
      → length s.local_batch < 100
      → let (ok, s') = queue_step input blank params r s in
        (ok ≡ true → length s'.local_batch < 100)
        × (ok ≡ false → (0 < length s'.local_batch) × (length s'.local_batch ≤ 100))
  unfolding queue_step
  queue_step_bound r s h =
      let q = arrive input r.arrivals s.input in
      let x = (input.try_pop blank q).1 in
      let batch = if (input.try_pop blank q).0 then s.local_batch ++ (x ∷ []) else s.local_batch in
      let s1 = record s { input = (input.try_pop blank q).2; local_batch = batch } in
      let small : length batch ≤ 100 = ground (arith, length-append s.local_batch (x ∷ [])) in
      let flushed = flush_bound r.commits s1 small in
      elim (Bool-cases (leb 100 (length batch) || leb 10 r.elapsed)) [
        | inl due ↦ simp due (λ ok. ground (arith, flushed), flushed.1)
        | inr early ↦ simp early (λ ok. ground arith, λ bad. absurd (cc))
      ]

  -- Whatever the transactions do, the batch never exceeds 100 elements. A call that a stop ends has
  -- nothing left in its batch; one that an exception ends loses its batch, of 1 to 100 elements.
  pub process_queue_bounds :
      (rs : List (Beat T)) (s : Writer T Params In)
      → length s.local_batch < 100
      → AfterQueue (process_queue input blank params rs s)
  unfolding process_queue close
  process_queue_bounds [] s h = tt
  process_queue_bounds (r ∷ rs) s h =
      let b = queue_step_bound r s h in
      let s1 = (queue_step input blank params r s).1 in
      elim (Bool-cases r.stop) [
        | inl now ↦
            simp now (
              closed (flush input blank params r.commits s) (flush_bound r.commits s (omega arith)))
        | inr go ↦ elim (Bool-cases (queue_step input blank params r s).0) [
          | inl ok ↦ simp (go, ok) (process_queue_bounds rs s1 (b.0 ok))
          | inr bad ↦ simp (go, bad) (b.1 bad)
        ]
      ]
    where
      closed :
          (e : Bool × Writer T Params In)
          → (e.0 ≡ true → e.1.local_batch ≡ [])
            × (e.0 ≡ false → (0 < length e.1.local_batch) × (length e.1.local_batch ≤ 100))
          → AfterQueue (close input blank params e)
      closed (true, s') h = h.0 refl
      closed (false, s') h = h.1 refl

module _ {T : Type 0} where
  -- Some transaction throws, should there be one in that round.
  abbrev pub fails : List (Beat T) → Bool
  fails [] = false
  fails (r ∷ rs) = not r.commits || fails rs

module _ {T Params In : Type 0} (input : Channel T In) (blank : T) (params : T → Params) where
  flush-commits : (s : Writer T Params In) → (flush input blank params true s).0 ≡ true
  unfolding flush
  flush-commits s = elim (List-cases s.local_batch) [
    | inl e ↦ ground arith
    | inr (x, ys, e) ↦ ground arith
  ]

  queue_step-commits :
      (r : Beat T) (s : Writer T Params In)
      → r.commits ≡ true
      → (queue_step input blank params r s).0 ≡ true
  unfolding queue_step
  queue_step-commits r s e =
      let q = arrive input r.arrivals s.input in
      let x = (input.try_pop blank q).1 in
      let batch = if (input.try_pop blank q).0 then s.local_batch ++ (x ∷ []) else s.local_batch in
      let s1 = record s { input = (input.try_pop blank q).2; local_batch = batch } in
      ground (arith, flush-commits s1)

  close-ne-threw :
      (e : Bool × Writer T Params In) (s' : Writer T Params In)
      → e.0 ≡ true
      → close input blank params e ≢ threw s'
  unfolding close
  close-ne-threw (true, s) s' h = ground arith
  close-ne-threw (false, s) s' h = absurd (cc)

  -- Only a transaction that throws ends a call by an exception.
  pub process_queue-ne-threw :
      (rs : List (Beat T)) (s s' : Writer T Params In)
      → fails rs ≡ false
      → process_queue input blank params rs s ≢ threw s'
  unfolding process_queue close
  process_queue-ne-threw [] s s' e = ground arith
  process_queue-ne-threw (r ∷ rs) s s' e =
      let good : r.commits ≡ true = ground arith in
      let rest : fails rs ≡ false = ground arith in
      let ok = queue_step-commits r s good in
      let flushed = flush-commits s in
      let s1 = (queue_step input blank params r s).1 in
      elim (Bool-cases r.stop) [
        | inl now ↦
            simp now (close-ne-threw (flush input blank params r.commits s) s' (rw good flushed))
        | inr go ↦ simp (go, ok) (process_queue-ne-threw rs s1 s' rest)
      ]
