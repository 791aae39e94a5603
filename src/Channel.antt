-- ===== src/Channel.antt =====
-- What a pipeline stage uses of a ring buffer (`RingBuffer::try_push` and `try_pop`), and what it
-- may rely on: a channel behaves as the bounded first-in first-out list of its contents.
use mathlib.Core.List.{append-nil}
use market_data_processor.Prelude.{
  ℕ, ◌≡◌, Bool, true, false, List, [], ◌∷◌, ◌++◌, arith, ltb, if◌then◌else◌, length, ◌≤◌, All,
  All-append, Bool-cases, inl, inr,
}

-- The bounded list: oldest element first.
module _ {ℓ} {T : Type ℓ} where
  abbrev pub push_list : ℕ → T → List T → Bool × List T
  push_list capacity x xs = if ltb (length xs) capacity then (true, xs ++ (x ∷ [])) else (false, xs)

  -- The middle component is what `out` holds afterwards.
  abbrev pub pop_list : T → List T → Bool × T × List T
  pop_list out [] = (false, out, [])
  pop_list out (x ∷ xs) = (true, x, xs)

pub record Channel (T : Type 0) (Q : Type 0) : Type 0 where
  pub try_push : T → Q → Bool × Q
  pub try_pop : T → Q → Bool × T × Q
  pub contents : Q → List T
  pub capacity : ℕ

module _ {T Q : Type 0} (c : Channel T Q) where
  pub record IsFifo (Valid : Q → Type 0) : Type 0 where
    pub push-Valid : (x : T) (q : Q) → Valid q → Valid (c.try_push x q).1
    pub pop-Valid : (out : T) (q : Q) → Valid q → Valid (c.try_pop out q).2
    pub push_fifo :
        (x : T) (q : Q)
        → Valid q
        → let (done, q') = c.try_push x q in
          (done, c.contents q') ≡ push_list c.capacity x (c.contents q)
    pub pop_fifo :
        (out : T) (q : Q)
        → Valid q
        → let (done, x, q') = c.try_pop out q in
          (done, x, c.contents q') ≡ pop_list out (c.contents q)
    pub bounded : (q : Q) → Valid q → length (c.contents q) ≤ c.capacity

  module _ {Valid : Q → Type 0} (fifo : IsFifo Valid) (out : T) (q : Q) (v : Valid q) where
    open fifo use {pop_fifo, push_fifo}

    pub pop_none :
        (c.try_pop out q).0 ≡ false → (c.contents q ≡ []) × (c.contents (c.try_pop out q).2 ≡ [])
    pop_none h = ground (arith, pop_fifo out q v)

    pub pop_some :
        (c.try_pop out q).0 ≡ true
        → c.contents q ≡ (c.try_pop out q).1 ∷ c.contents (c.try_pop out q).2
    pop_some h = ground (arith, pop_fifo out q v)

    -- A push that is made appends the element; one that is not changes nothing.
    pub contents-try_push :
        (x : T)
        → c.contents (c.try_push x q).1
          ≡ c.contents q ++ (if (c.try_push x q).0 then x ∷ [] else [])
    contents-try_push x = ground (arith, push_fifo x q v, append-nil (c.contents q))

    -- A property of all elements survives a push of an element that has it.
    pub try_push-All :
        (P : T → Type 0) (x : T)
        → P x
        → All P (c.contents q)
        → All P (c.contents (c.try_push x q).1)
    try_push-All P x p h = elim (Bool-cases (ltb (length (c.contents q)) c.capacity)) [
      | inl room ↦
          let e : c.contents (c.try_push x q).1 ≡ c.contents q ++ (x ∷ []) =
            ground (arith, push_fifo x q v) in
          rw e (All-append P (c.contents q) (x ∷ []) h (p, tt))
      | inr full ↦
          let e : c.contents (c.try_push x q).1 ≡ c.contents q = ground (arith, push_fifo x q v) in
          rw e h
    ]
