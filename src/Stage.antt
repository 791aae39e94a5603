-- ===== src/Stage.antt =====
-- What the pipeline stages share: the loop of `TickParser::process_tick` and
-- `Normalizer::process_tick` that waits for room in the output buffer
-- (src/processing/src/TickParser.cpp, src/processing/src/Normalizer.cpp).
pub mod Rounds
use mathlib.Core.List.{append-nil, append_assoc}
use market_data_processor.Prelude.{
  ℕ, zero, suc, ◌+◌, ◌-◌, ◌≤◌, ◌<◌, ◌≡◌, ◌≢◌, ◌⊎◌, inl, inr, refl, sym, ap, ◌∙◌, arith, Bool, true,
  false, ◌||◌, Option, none, some, List, [], ◌∷◌, ◌++◌, length, length-drop, drop, drop-drop, take,
  take-cons, take_none, tail, ltb, if◌then◌else◌, Bool-cases, length-append, All, All-drop,
}
use market_data_processor.Channel.{Channel, IsFifo, push_list, pop_list}

-- What the other threads do before one round of a loop: whether a stop has been requested, and how
-- many elements the consumer of the output buffer takes.
pub record Turn : Type 0 where
  pub stop : Bool
  pub consumed : ℕ

module _ {T Q : Type 0} (c : Channel T Q) (blank : T) where
  -- The consumer of the output pops `k` times.
  unfoldable pub consume : ℕ → Q → Q
  consume zero q = q
  consume (suc k) q = consume k (c.try_pop blank q).2

  -- `while (!stop_requested()) { if (output.try_push(tick)) { pushed = true; break; } yield(); }`
  -- The first component of the result is `pushed`; `none` is a loop that still waits when the given
  -- turns are over.
  unfoldable pub push_wait : List Turn → T → Q → Option (Bool × Q)
  push_wait [] x q = none
  push_wait (t ∷ ts) x q =
      let q1 = consume t.consumed q in
      let (done, q2) = c.try_push x q1 in
      let rest = push_wait ts x q2 in
      if t.stop then some (false, q1) else if done then some (true, q2) else rest

-- Some turn asks for a stop or makes room.
unfoldable pub released : List Turn → Bool
released [] = false
released (t ∷ ts) = t.stop || (ltb 0 t.consumed || released ts)

unfoldable pub stopped : List Turn → Bool
stopped [] = false
stopped (t ∷ ts) = t.stop || stopped ts

-- What one more element does to a bounded list.
pub append-take :
    {T : Type 0} (cap : ℕ) (x : T) (out xs : List T)
    → out ++ take (cap - length out) (x ∷ xs) ≡ (
        if ltb (length out) cap
        then (out ++ (x ∷ [])) ++ take (cap - length (out ++ (x ∷ []))) xs
        else out ++ take (cap - length out) xs)
append-take cap x out xs = ground (
  arith,
  length-append out (x ∷ []),
  take-cons (cap - length out) x xs,
  take_none (cap - length out) xs,
  take_none (cap - length out) (x ∷ xs),
  append_assoc out (x ∷ []) (take (cap - length out - 1) xs),
)

module _ {T Q : Type 0} (c : Channel T Q) (blank : T) {Valid : Q → Type 0}
    (fifo : IsFifo c Valid) where
  open fifo use {push-Valid, pop-Valid, push_fifo, pop_fifo, bounded}

  pub consume-Valid : (k : ℕ) (q : Q) → Valid q → Valid (consume c blank k q)
  unfolding consume
  consume-Valid zero q v = v
  consume-Valid (suc k) q v = consume-Valid k (c.try_pop blank q).2 (pop-Valid blank q v)

  drop-pop_list : (k : ℕ) (xs : List T) → drop k (pop_list blank xs).2 ≡ drop (suc k) xs
  drop-pop_list zero [] = refl
  drop-pop_list (suc k) [] = refl
  drop-pop_list k (x ∷ xs) = refl

  -- Popping `k` times drops the `k` oldest elements.
  pub contents-consume :
      (k : ℕ) (q : Q) → Valid q → c.contents (consume c blank k q) ≡ drop k (c.contents q)
  unfolding consume
  contents-consume zero q v = refl
  contents-consume (suc k) q v =
      contents-consume k (c.try_pop blank q).2 (pop-Valid blank q v)
      ∙ ap (λ r. drop k r.2) (pop_fifo blank q v)
      ∙ drop-pop_list k (c.contents q)

  pub consume-All :
      (P : T → Type 0) (k : ℕ) (q : Q)
      → Valid q
      → All P (c.contents q)
      → All P (c.contents (consume c blank k q))
  consume-All P k q v h = rw (contents-consume k q v) (All-drop P k (c.contents q) h)

  -- What `push_wait` leaves when it returns.
  pub record Waited (x : T) (q : Q) (ts : List Turn) (done : Bool) (q' : Q) : Type 0 where
    pub valid : Valid q'
    pub taken : ℕ
    pub left : c.contents q' ≡ drop taken (c.contents q) ++ (if done then x ∷ [] else [])
    pub reason : done ≡ false → stopped ts ≡ true

  -- Vacuous while the loop still waits: `push_wait-ne-none` says when it returns.
  abbrev pub AfterWait : T → Q → List Turn → Option (Bool × Q) → Type 0
  AfterWait x q ts none = Unit
  AfterWait x q ts (some (done, q')) = Waited x q ts done q'

  -- A round that finds the buffer full only lets the consumer on.
  pub later_round :
      (t : Turn) (ts : List Turn) (x : T) (q q2 : Q) (r : Option (Bool × Q))
      → c.contents q2 ≡ drop t.consumed (c.contents q)
      → AfterWait x q2 ts r
      → AfterWait x q (t ∷ ts) r
  unfolding stopped
  later_round t ts x q q2 none e w = tt
  later_round t ts x q q2 (some (done, q')) e w = record {
    valid = w.valid;
    taken = t.consumed + w.taken;
    left =
        w.left
        ∙ ap (λ l. drop w.taken l ++ (if done then x ∷ [] else [])) e
        ∙ ap (λ l. l ++ (if done then x ∷ [] else []))
            (drop-drop w.taken t.consumed (c.contents q));
    reason = λ h. ground (arith, w.reason h);
  }

  -- When the loop returns, the consumer has taken some of the oldest elements and, if the push was
  -- made, the element stands at the end. If it was not made, a stop has been requested.
  pub push_wait-AfterWait :
      (ts : List Turn) (x : T) (q : Q) → Valid q → AfterWait x q ts (push_wait c blank ts x q)
  unfolding push_wait stopped
  push_wait-AfterWait [] x q v = tt
  push_wait-AfterWait (t ∷ ts) x q v =
      let q1 = consume c blank t.consumed q in
      let v1 : Valid q1 = consume-Valid t.consumed q v in
      let e1 : c.contents q1 ≡ drop t.consumed (c.contents q) = contents-consume t.consumed q v in
      let pushes = push_fifo x q1 v1 in
      elim (Bool-cases t.stop) [
        | inl stop ↦ simp stop (record {
          valid = v1;
          taken = t.consumed;
          left = e1 ∙ sym (append-nil _);
          reason = λ _. ground arith;
        })
        | inr go ↦ elim (Bool-cases (c.try_push x q1).0) [
          | inl pushed ↦
              simp (go, pushed)
                (record {
                  valid = push-Valid x q1 v1;
                  taken = t.consumed;
                  left = ground arith;
                  reason = λ h. absurd (cc);
                })
          | inr full ↦
              simp (go, full)
                (later_round t ts x q (c.try_push x q1).1 _ (ground arith)
                  (push_wait-AfterWait ts x (c.try_push x q1).1 (push-Valid x q1 v1)))
        ]
      ]

  -- The loop returns as soon as a stop is requested or the consumer takes an element.
  pub push_wait-ne-none :
      (ts : List Turn) (x : T) (q : Q)
      → Valid q
      → 0 < c.capacity
      → released ts ≡ true
      → push_wait c blank ts x q ≢ none
  unfolding push_wait released
  push_wait-ne-none [] x q v room r = absurd (cc)
  push_wait-ne-none (t ∷ ts) x q v room r =
      let q1 = consume c blank t.consumed q in
      let v1 : Valid q1 = consume-Valid t.consumed q v in
      ground (
        arith,
        push_fifo x q1 v1,
        contents-consume t.consumed q v,
        length-drop t.consumed (c.contents q),
        bounded q v,
        push_wait-ne-none ts x (c.try_push x q1).1 (push-Valid x q1 v1) room,
      )
