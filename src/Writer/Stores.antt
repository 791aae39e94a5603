-- ===== src/Writer/Stores.antt =====
-- What `process_queue` stores.
use mathlib.Core.List.{append-nil, append_assoc, map-append}
use market_data_processor.Prelude.{
  ℕ, ◌-◌, ◌≡◌, inl, inr, refl, sym, ap, ◌∙◌, arith, Bool, true, false, ◌||◌, List, [], ◌∷◌, ◌++◌,
  map, length, tail, take, leb, if◌then◌else◌, All, Bool-cases, List-cases,
}
use market_data_processor.Channel.{Channel, IsFifo, pop_none, pop_some}
use market_data_processor.Stage.Rounds.{arrive, arrive-Valid, contents-arrive}
use market_data_processor.Writer.{Writer, Beat, stopped, flush, queue_step, close, process_queue}

module _ {T : Type 0} where
  -- A stop has been requested in some round.
  abbrev pub ends : List (Beat T) → Bool
  ends [] = false
  ends (r ∷ rs) = r.stop || ends rs

module _ {T : Type 0} (cap : ℕ) where
  -- Of the arrivals, what a buffer with the contents `xs` takes before the stop, if one element is
  -- popped in every round.
  abbrev pub came_of : List (Beat T) → List T → List T
  came_of [] xs = []
  came_of (r ∷ rs) xs =
      let new = take (cap - length xs) r.arrivals in
      if r.stop then [] else new ++ came_of rs (tail (xs ++ new))

module _ {T Params In : Type 0} (input : Channel T In) (blank : T) (params : T → Params)
    {Valid : In → Type 0} (fifo : IsFifo input Valid) where
  -- The committed executions, then those that are still to come.
  abbrev pub stream : Writer T Params In → List Params
  stream s = s.committed ++ map params (s.local_batch ++ input.contents s.input)

  stream-flush :
      (s : Writer T Params In)
      → ((flush input blank params true s).0 ≡ true)
        × (stream (flush input blank params true s).1 ≡ stream s)
        × ((flush input blank params true s).1.local_batch ≡ [])
        × ((flush input blank params true s).1.input ≡ s.input)
  unfolding flush
  stream-flush s = elim (List-cases s.local_batch) [
    | inl e ↦ (ground arith, ground arith, ground arith, ground arith)
    | inr (x, ys, e) ↦ (
      ground arith,
      ground (
        arith,
        map-append params (x ∷ ys) (input.contents s.input),
        append_assoc s.committed (map params (x ∷ ys)) (map params (input.contents s.input)),
      ),
      ground arith,
      ground arith,
    )
  ]

  -- One round with a transaction that commits stores or keeps everything, and takes one element.
  stream-queue_step :
      (r : Beat T) (s : Writer T Params In)
      → Valid s.input
      → r.commits ≡ true
      → let (ok, s1) = queue_step input blank params r s in
        let contents = input.contents s.input in
        let new = take (input.capacity - length contents) r.arrivals in
        (ok ≡ true)
        × Valid s1.input
        × (stream s1 ≡ stream s ++ map params new)
        × (input.contents s1.input ≡ tail (contents ++ new))
  unfolding queue_step
  stream-queue_step r s v commits =
      let q = arrive input r.arrivals s.input in
      let qv = arrive-Valid input fifo r.arrivals s.input v in
      let rest = (input.try_pop blank q).2 in
      let x = (input.try_pop blank q).1 in
      let new = take (input.capacity - length (input.contents s.input)) r.arrivals in
      let came = contents-arrive input fifo r.arrivals s.input v in
      let popped = fifo.pop_fifo blank q qv in
      let batch = if (input.try_pop blank q).0 then s.local_batch ++ (x ∷ []) else s.local_batch in
      let s1 = record s { input = rest; local_batch = batch } in
      let joined : (s.local_batch ++ input.contents s.input) ++ new
          ≡ s.local_batch ++ input.contents q =
        append_assoc s.local_batch (input.contents s.input) new
        ∙ ap (λ l. s.local_batch ++ l) (sym came) in
      let moved : batch ++ input.contents rest ≡ (s.local_batch ++ input.contents s.input) ++ new =
        elim (Bool-cases (input.try_pop blank q).0) [
          | inl one ↦
              let e = pop_some input fifo blank q qv one in
              ground (arith, joined, append_assoc s.local_batch (x ∷ []) (input.contents rest))
          | inr nothing ↦
              let e = pop_none input fifo blank q qv nothing in
              ground (arith, joined, append-nil s.local_batch)
        ] in
      let kept : stream s1 ≡ stream s ++ map params new =
        ap (λ l. s.committed ++ map params l) moved
        ∙ ap (λ l. s.committed ++ l)
            (map-append params (s.local_batch ++ input.contents s.input) new)
        ∙ sym (
            append_assoc s.committed (map params (s.local_batch ++ input.contents s.input))
              (map params new)) in
      let left : input.contents rest ≡ tail (input.contents s.input ++ new) = ground arith in
      let flushed = stream-flush s1 in
      let rest_valid = fifo.pop-Valid blank q qv in
      elim (Bool-cases (leb 100 (length batch) || leb 10 r.elapsed)) [
        | inl due ↦
            simp (due, commits)
              (
                flushed.0,
                rw flushed.3 rest_valid,
                flushed.1 ∙ kept,
                ap (λ q. input.contents q) flushed.3 ∙ left,
              )
        | inr early ↦ simp early (refl, rest_valid, kept, left)
      ]

  -- If every transaction commits and a stop comes, the call returns with an empty batch. The
  -- committed executions and those for what is still in the input are then, in order and each once, the
  -- committed ones of before, and those for what was in the batch and the input and for what the input
  -- took in the meantime.
  pub process_queue_stores :
      (rs : List (Beat T)) (s : Writer T Params In)
      → Valid s.input
      → All (λ r. r.commits ≡ true) rs
      → ends rs ≡ true
      → (s' : Writer T Params In) × (process_queue input blank params rs s ≡ stopped s')
        × (s'.local_batch ≡ [])
        × (stream s' ≡ stream s ++ map params (came_of input.capacity rs (input.contents s.input)))
  unfolding process_queue close
  process_queue_stores [] s v commits stop = absurd (cc)
  process_queue_stores (r ∷ rs) s v (ok, oks) stop =
      let now_flushed = stream-flush s in
      let contents = input.contents s.input in
      let new = take (input.capacity - length contents) r.arrivals in
      elim (Bool-cases r.stop) [
        | inl now ↦ (
          (flush input blank params true s).1,
          simp (now, ok)
              (ap (λ b. close input blank params (b, (flush input blank params true s).1))
                now_flushed.0),
          now_flushed.2,
          simp now (now_flushed.1 ∙ sym (append-nil (stream s))),
        )
        | inr go ↦
            let after = stream-queue_step r s v ok in
            let s1 = (queue_step input blank params r s).1 in
            let (s', e, none_left, all) =
              process_queue_stores rs s1 after.1 oks (ground (arith, stop)) in
            let later = came_of input.capacity rs (tail (contents ++ new)) in
            (
              s',
              simp (go, after.0) e,
              none_left,
              simp go (
                  all
                  ∙ ap (λ l. stream s1 ++ map params (came_of input.capacity rs l)) after.3
                  ∙ ap (λ l. l ++ map params later) after.2
                  ∙ append_assoc (stream s) (map params new) (map params later)
                  ∙ ap (λ l. stream s ++ l) (sym (map-append params new later))),
            )
      ]
