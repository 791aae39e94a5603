-- ===== src/Writer/Run.antt =====
-- `DbWriter::run` and `SignalDbWriter::run`: what a thread that connects again and again stores.
use mathlib.Core.List.{append-nil, append_assoc, map-append}
use market_data_processor.Prelude.{
  ℕ, ◌+◌, ◌*◌, ◌≤◌, ◌≡◌, ◌≢◌, ◌⊎◌, inl, inr, refl, sym, ap, subst, ◌∙◌, arith, Bool, true, false,
  not, ◌&&◌, ◌||◌, some, if◌then◌else◌, List, [], ◌∷◌, ◌++◌, map, length, length-append, Bool-cases,
}
use market_data_processor.Prelude.Merge.{Merge, nil, Merge-append, Merge-left, Merge-right}
use market_data_processor.Channel.{Channel, IsFifo}
use market_data_processor.Writer.{
  Writer, Beat, Session, Exit, stopped, threw, waiting, process_queue, open_batch, run,
}
use market_data_processor.Writer.Stores.{ends}
use market_data_processor.Writer.Moves.{
  arrivals_of, Moved, AfterMoves, process_queue-AfterMoves, process_queue-ne-waiting,
}
use market_data_processor.Writer.Bounds.{
  AfterQueue, process_queue_bounds, fails, process_queue-ne-threw,
}

module _ {T : Type 0} where
  -- The stop comes, and every call of `process_queue` before it sees a stop in the end, should no
  -- exception end it earlier.
  abbrev pub closes : List (Session T) → Bool
  closes [] = false
  closes (c ∷ cs) = c.stop || ((not c.connects || ends c.beats) && closes cs)

  -- The turns of the loop in which a transaction may throw.
  abbrev pub risks : List (Session T) → ℕ
  risks [] = 0
  risks (c ∷ cs) = (if c.connects && fails c.beats then 1 else 0) + risks cs

  abbrev pub all_arrivals : List (Session T) → List T
  all_arrivals [] = []
  all_arrivals (c ∷ cs) = arrivals_of c.beats ++ all_arrivals cs

module _ {T Params In : Type 0} (input : Channel T In) (blank : T) (params : T → Params)
    {Valid : In → Type 0} (fifo : IsFifo input Valid) where
  -- Of what was in the input and what it took from `arrivals`, a first part has left the input. Of
  -- that part some elements have been stored and the others, at most 100 for each attempt, are lost.
  pub record Kept (attempts : ℕ) (arrivals : List T) (s s' : Writer T Params In) : Type 0 where
    pub valid : Valid s'.input
    pub came : List T
    pub refused : List T
    pub merged : Merge came refused arrivals
    pub popped : List T
    pub order : input.contents s.input ++ came ≡ popped ++ input.contents s'.input
    pub stored : List T
    pub lost : List T
    pub split : Merge stored lost popped
    pub committed : s'.committed ≡ s.committed ++ map params stored
    pub loss : length lost ≤ 100 * attempts

  Kept-idle : (n : ℕ) (xs : List T) (s : Writer T Params In) → Valid s.input → Kept n xs s s
  Kept-idle n xs s v = record {
    valid = v;
    came = [];
    refused = xs;
    merged = Merge-right xs;
    popped = [];
    order = append-nil (input.contents s.input);
    stored = [];
    lost = [];
    split = nil;
    committed = sym (append-nil s.committed);
    loss = omega arith;
  }

  Kept-trans :
      {n m : ℕ} {xs ys : List T} {s t u : Writer T Params In}
      → Kept n xs s t
      → Kept m ys t u
      → Kept (n + m) (xs ++ ys) s u
  Kept-trans {s = s} {u = u} k l = record {
    valid = l.valid;
    came = k.came ++ l.came;
    refused = k.refused ++ l.refused;
    merged = Merge-append k.merged l.merged;
    popped = k.popped ++ l.popped;
    order =
        sym (append_assoc (input.contents s.input) k.came l.came)
        ∙ ap (λ x. x ++ l.came) k.order
        ∙ append_assoc k.popped _ l.came
        ∙ ap (λ x. k.popped ++ x) l.order
        ∙ sym (append_assoc k.popped l.popped (input.contents u.input));
    stored = k.stored ++ l.stored;
    lost = k.lost ++ l.lost;
    split = Merge-append k.split l.split;
    committed = simp (l.committed, k.committed, map-append, append_assoc);
    loss = omega (arith, k.loss, l.loss, length-append k.lost l.lost);
  }

  -- One call of `process_queue`: what is in its batch at the end is lost.
  Kept-session :
      (n : ℕ) (xs : List T) (s s' : Writer T Params In)
      → Moved input blank params fifo xs (open_batch input blank params s) s'
      → length s'.local_batch ≤ 100 * n
      → Kept n xs s (open_batch input blank params s')
  unfolding open_batch
  Kept-session n xs s s' m small = record {
    valid = m.valid;
    came = m.came;
    refused = m.refused;
    merged = m.merged;
    popped = m.stored ++ s'.local_batch;
    order = m.order ∙ sym (append_assoc m.stored s'.local_batch (input.contents s'.input));
    stored = m.stored;
    lost = s'.local_batch;
    split =
        subst (λ l. Merge l s'.local_batch (m.stored ++ s'.local_batch)) (append-nil m.stored)
          (Merge-append (Merge-left m.stored) (Merge-right s'.local_batch));
    committed = m.committed;
    loss = omega arith;
  }

  abbrev Serves : ℕ → List T → Writer T Params In → Exit (Writer T Params In) → Type 0
  Serves n xs s e =
      (s' : Writer T Params In) × ((e ≡ stopped s') ⊎ (e ≡ threw s'))
      × Kept n xs s (open_batch input blank params s')

  serves :
      (b : Bool) (xs : List T) (s : Writer T Params In) (e : Exit (Writer T Params In))
      → e ≢ waiting
      → ((s' : Writer T Params In) → b ≡ false → e ≢ threw s')
      → AfterMoves input blank params fifo xs (open_batch input blank params s) e
      → AfterQueue input blank params e
      → Serves (if b then 1 else 0) xs s e
  serves b xs s waiting go ok m h = absurd (go refl)
  serves b xs s (stopped s') go ok m h =
      (s', inl refl, Kept-session (if b then 1 else 0) xs s s' m (rw h (omega arith)))
  serves true xs s (threw s') go ok m h = (s', inr refl, Kept-session 1 xs s s' m h.1)
  serves false xs s (threw s') go ok m h = absurd (ok s' refl refl)

  process_queue-Serves :
      (rs : List (Beat T)) (s : Writer T Params In)
      → Valid s.input
      → ends rs ≡ true
      → Serves
          (if fails rs then 1 else 0)
          (arrivals_of rs)
          s
          (process_queue input blank params rs (open_batch input blank params s))
  unfolding open_batch
  process_queue-Serves rs s v stop =
      let s0 = open_batch input blank params s in
      serves (fails rs) (arrivals_of rs) s _
        (process_queue-ne-waiting input blank params fifo rs s0 stop)
        (λ s' e. process_queue-ne-threw input blank params rs s0 s' e)
        (process_queue-AfterMoves input blank params fifo rs s0 v)
        (process_queue_bounds input blank params rs s0 (omega arith))

  -- If a stop comes, also while a connection is served, the thread ends, however often connecting
  -- fails and transactions throw. What was in the input and what it took in the meantime is then, in
  -- order, partly gone from it and partly still there; for every element of what is gone one
  -- execution of the statement has been committed, in order, or it is lost, and at most 100 are lost for
  -- each turn of the loop in which a transaction throws: none if all transactions commit.
  pub run_keeps :
      (cs : List (Session T)) (s : Writer T Params In)
      → Valid s.input
      → closes cs ≡ true
      → (s' : Writer T Params In) × (run input blank params cs s ≡ some s')
        × Kept (risks cs) (all_arrivals cs) s s'
  unfolding run
  run_keeps [] s v stop = absurd (cc)
  run_keeps (c ∷ cs) s v stop =
      let xs = arrivals_of c.beats in
      elim (Bool-cases c.stop) [
        | inl now ↦ (s, rw now, Kept-idle (risks (c ∷ cs)) (all_arrivals (c ∷ cs)) s v)
        | inr go ↦ elim (Bool-cases c.connects) [
          | inl up ↦
              let (s1, ended, served) = process_queue-Serves c.beats s v (ground (arith, stop)) in
              let (s', r, later) =
                run_keeps cs (open_batch input blank params s1) served.valid
                  (ground (arith, stop)) in
              (
                s',
                elim ended [ inl e ↦ simp (go, up, e) r | inr e ↦ simp (go, up, e) r ],
                subst (λ n. Kept n (all_arrivals (c ∷ cs)) s s')
                    {x = (if fails c.beats then 1 else 0) + risks cs} (simp up refl)
                    (Kept-trans served later),
              )
          | inr down ↦
              let (s', r, later) = run_keeps cs s v (ground (arith, stop)) in
              (
                s',
                simp (go, down) r,
                subst (λ n. Kept n (all_arrivals (c ∷ cs)) s s') {x = 0 + risks cs} (simp down refl)
                    (Kept-trans (Kept-idle 0 xs s v) later),
              )
        ]
      ]
