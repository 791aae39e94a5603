-- ===== src/Writer/Moves.antt =====
-- What one call of `process_queue` moves, also when a transaction throws.
use mathlib.Core.List.{append-nil, append_assoc, map-append}
use market_data_processor.Prelude.{
  ◌-◌, ◌≡◌, ◌≢◌, ◌⊎◌, subst, inl, inr, sym, ap, ◌∙◌, arith, Bool, true, false, ◌||◌, List, [], ◌∷◌,
  ◌++◌, map, length, take, drop, leb, if◌then◌else◌, Bool-cases, List-cases,
}
use market_data_processor.Prelude.Merge.{Merge, Merge-append, Merge-take, Merge-right}
use market_data_processor.Channel.{Channel, IsFifo, pop_none, pop_some}
use market_data_processor.Stage.Rounds.{arrive, arrive-Valid, contents-arrive}
use market_data_processor.Writer.{
  Writer, Beat, Exit, stopped, threw, waiting, flush, queue_step, close, process_queue,
}
use market_data_processor.Writer.Stores.{ends}

-- What the producer pushes in the rounds.
abbrev pub arrivals_of : {T : Type 0} → List (Beat T) → List T
arrivals_of [] = []
arrivals_of (r ∷ rs) = r.arrivals ++ arrivals_of rs

module _ {T Params In : Type 0} (input : Channel T In) (blank : T) (params : T → Params)
    {Valid : In → Type 0} (fifo : IsFifo input Valid) where
  -- What the writer holds in memory, oldest first.
  abbrev pub held : Writer T Params In → List T
  held s = s.local_batch ++ input.contents s.input

  -- Of what was held and what came in from `arrivals`, a prefix has been stored, and the rest is held.
  pub record Moved (arrivals : List T) (s s' : Writer T Params In) : Type 0 where
    pub valid : Valid s'.input
    pub came : List T
    pub refused : List T
    pub merged : Merge came refused arrivals
    pub stored : List T
    pub committed : s'.committed ≡ s.committed ++ map params stored
    pub order : held s ++ came ≡ stored ++ held s'

  pub Moved-trans :
      {xs ys : List T} {s t u : Writer T Params In}
      → Moved xs s t
      → Moved ys t u
      → Moved (xs ++ ys) s u
  Moved-trans {s = s} {u = u} m n = record {
    valid = n.valid;
    came = m.came ++ n.came;
    refused = m.refused ++ n.refused;
    merged = Merge-append m.merged n.merged;
    stored = m.stored ++ n.stored;
    committed = simp (n.committed, m.committed, map-append, append_assoc);
    order =
        sym (append_assoc (held s) m.came n.came)
        ∙ ap (λ l. l ++ n.came) m.order
        ∙ append_assoc m.stored _ n.came
        ∙ ap (λ l. m.stored ++ l) n.order
        ∙ sym (append_assoc m.stored n.stored (held u));
  }

  -- A step that refuses all arrivals.
  pub Moved-idle : (xs : List T) (s : Writer T Params In) → Valid s.input → Moved xs s s
  Moved-idle xs s v = record {
    valid = v;
    came = [];
    refused = xs;
    merged = Merge-right xs;
    stored = [];
    committed = sym (append-nil s.committed);
    order = append-nil (held s);
  }

  -- A transaction that commits stores the batch; one that throws changes nothing.
  flush_lem :
      (commits : Bool) (s : Writer T Params In)
      → let s' = (flush input blank params commits s).1 in
        (s'.input ≡ s.input)
        × ((s'.committed ≡ s.committed) × (s'.local_batch ≡ s.local_batch)
            ⊎ (s'.committed ≡ s.committed ++ map params s.local_batch) × (s'.local_batch ≡ []))
  unfolding flush
  flush_lem commits s = elim (List-cases s.local_batch) [
    | inl e ↦ (ground arith, inl (ground arith, ground arith))
    | inr (x, ys, e) ↦ (
      ground arith,
      elim (Bool-cases commits) [
        | inl done ↦ inr (ground arith, ground arith)
        | inr failed ↦ inl (ground arith, ground arith)
      ],
    )
  ]

  Moved-flush :
      (commits : Bool) (s : Writer T Params In)
      → Valid s.input
      → Moved [] s (flush input blank params commits s).1
  Moved-flush commits s v =
      let s' = (flush input blank params commits s).1 in
      let (same, batch) = flush_lem commits s in
      elim batch [
        | inl (committed, kept) ↦ record {
          valid = rw same v;
          came = [];
          refused = [];
          merged = Merge-right [];
          stored = [];
          committed = committed ∙ sym (append-nil s.committed);
          order = ground (arith, append-nil (held s));
        }
        | inr (committed, cleared) ↦ record {
          valid = rw same v;
          came = [];
          refused = [];
          merged = Merge-right [];
          stored = s.local_batch;
          committed = committed;
          order = ground (arith, append-nil (held s));
        }
      ]

  -- A round takes the oldest element into the batch, and flushes if that is due.
  Moved-queue_step :
      (r : Beat T) (s : Writer T Params In)
      → Valid s.input
      → Moved r.arrivals s (queue_step input blank params r s).1
  unfolding queue_step
  Moved-queue_step r s v =
      let q = arrive input r.arrivals s.input in
      let qv = arrive-Valid input fifo r.arrivals s.input v in
      let rest = (input.try_pop blank q).2 in
      let x = (input.try_pop blank q).1 in
      let room = input.capacity - length (input.contents s.input) in
      let batch = if (input.try_pop blank q).0 then s.local_batch ++ (x ∷ []) else s.local_batch in
      let s1 = record s { input = rest; local_batch = batch } in
      let joined : held s ++ take room r.arrivals ≡ s.local_batch ++ input.contents q =
        append_assoc s.local_batch (input.contents s.input) (take room r.arrivals)
        ∙ ap (λ l. s.local_batch ++ l) (sym (contents-arrive input fifo r.arrivals s.input v)) in
      let order : held s ++ take room r.arrivals ≡ held s1 =
        elim (Bool-cases (input.try_pop blank q).0) [
          | inl one ↦
              let e = pop_some input fifo blank q qv one in
              ground (arith, joined, append_assoc s.local_batch (x ∷ []) (input.contents rest))
          | inr nothing ↦
              let e = pop_none input fifo blank q qv nothing in
              ground (arith, joined, append-nil s.local_batch)
        ] in
      let taken : Moved r.arrivals s s1 = record {
        valid = fifo.pop-Valid blank q qv;
        came = take room r.arrivals;
        refused = drop room r.arrivals;
        merged = Merge-take room r.arrivals;
        stored = [];
        committed = sym (append-nil s.committed);
        order = order;
      } in
      elim (Bool-cases (leb 100 (length batch) || leb 10 r.elapsed)) [
        | inl due ↦
            let flushed = Moved-flush r.commits s1 taken.valid in
            simp due (
              subst (λ l. Moved l s (flush input blank params r.commits s1).1)
                (append-nil r.arrivals) (Moved-trans taken flushed))
        | inr early ↦ simp early taken
      ]

  -- Vacuous for a call that is still in its loop.
  abbrev pub AfterMoves : List T → Writer T Params In → Exit (Writer T Params In) → Type 0
  AfterMoves xs s waiting = Unit
  AfterMoves xs s (stopped s') = Moved xs s s'
  AfterMoves xs s (threw s') = Moved xs s s'

  AfterMoves-trans :
      (xs ys : List T) (s t : Writer T Params In) (e : Exit (Writer T Params In))
      → Moved xs s t
      → AfterMoves ys t e
      → AfterMoves (xs ++ ys) s e
  AfterMoves-trans xs ys s t waiting m n = tt
  AfterMoves-trans xs ys s t (stopped u) m n = Moved-trans m n
  AfterMoves-trans xs ys s t (threw u) m n = Moved-trans m n

  AfterMoves-close :
      (xs : List T) (s : Writer T Params In) (e : Bool × Writer T Params In)
      → Moved xs s e.1
      → AfterMoves xs s (close input blank params e)
  unfolding close
  AfterMoves-close xs s (true, s') m = m
  AfterMoves-close xs s (false, s') m = m

  pub process_queue-AfterMoves :
      (rs : List (Beat T)) (s : Writer T Params In)
      → Valid s.input
      → AfterMoves (arrivals_of rs) s (process_queue input blank params rs s)
  unfolding process_queue
  process_queue-AfterMoves [] s v = tt
  process_queue-AfterMoves (r ∷ rs) s v =
      let step = Moved-queue_step r s v in
      let s1 = (queue_step input blank params r s).1 in
      let others = arrivals_of rs in
      elim (Bool-cases r.stop) [
        | inl now ↦ simp now (
            AfterMoves-close (r.arrivals ++ others) s (flush input blank params r.commits s) (
              Moved-trans (Moved-flush r.commits s v)
                (Moved-idle (r.arrivals ++ others) _ (Moved-flush r.commits s v).valid)))
        | inr go ↦ elim (Bool-cases (queue_step input blank params r s).0) [
          | inl ok ↦
              simp (go, ok)
                (AfterMoves-trans r.arrivals others s s1 _ step
                  (process_queue-AfterMoves rs s1 step.valid))
          | inr bad ↦ simp (go, bad) (Moved-trans step (Moved-idle others s1 step.valid))
        ]
      ]

  -- A call in which a stop is requested leaves its loop.
  pub process_queue-ne-waiting :
      (rs : List (Beat T)) (s : Writer T Params In)
      → ends rs ≡ true
      → process_queue input blank params rs s ≢ waiting
  unfolding process_queue close
  process_queue-ne-waiting [] s stop = absurd (cc)
  process_queue-ne-waiting (r ∷ rs) s stop =
      ground (arith, process_queue-ne-waiting rs (queue_step input blank params r s).1)
