-- ===== src/Stage/Rounds.antt =====
-- What the other threads do around the rounds of a stage's `run` loop (`TickParser::run`,
-- `Normalizer::run`, `BookProcessor::run`).
use mathlib.Core.List.{append-nil}
use market_data_processor.Prelude.{
  ◌-◌, ◌++◌, arith, take, take-nil, length, ◌≡◌, Bool, true, false, ◌||◌, List, [], ◌∷◌, All,
}
use market_data_processor.Channel.{Channel, IsFifo, try_push-All}
use market_data_processor.Stage.{Turn, released, append-take}

-- Whether a stop has been requested when the loop tests it, what the producer of the input pushes
-- before the round, and the turns of an inner wait.
pub record Round (T : Type 0) : Type 0 where
  pub stop : Bool
  pub arrivals : List T
  pub turns : List Turn

module _ {T : Type 0} where
  -- Waits that end, and a stop in the last round.
  abbrev pub Ends : List (Round T) → Type 0
  Ends [] = ⊥
  Ends (r ∷ []) = r.stop ≡ true
  Ends (r ∷ r' ∷ rs) = (released r.turns ≡ true) × Ends (r' ∷ rs)

  -- A stop has been requested in some round.
  abbrev pub stops : List (Round T) → Bool
  stops [] = false
  stops (r ∷ rs) = r.stop || stops rs

module _ {T Q : Type 0} (c : Channel T Q) where
  -- The producer of the input pushes; what does not fit is dropped there.
  unfoldable pub arrive : List T → Q → Q
  arrive [] q = q
  arrive (t ∷ ts) q = arrive ts (c.try_push t q).1

module _ {T Q : Type 0} (c : Channel T Q) {Valid : Q → Type 0} (fifo : IsFifo c Valid) where
  pub arrive-Valid : (ts : List T) (q : Q) → Valid q → Valid (arrive c ts q)
  unfolding arrive
  arrive-Valid [] q v = v
  arrive-Valid (t ∷ ts) q v = arrive-Valid ts (c.try_push t q).1 (fifo.push-Valid t q v)

  pub arrive-All :
      (P : T → Type 0) (blank : T) (ts : List T) (q : Q)
      → Valid q
      → All P ts
      → All P (c.contents q)
      → All P (c.contents (arrive c ts q))
  unfolding arrive
  arrive-All P blank [] q v p h = h
  arrive-All P blank (t ∷ ts) q v (p, ps) h =
      arrive-All P blank ts (c.try_push t q).1 (fifo.push-Valid t q v) ps
        (try_push-All c fifo blank q v P t p h)

module _ {T Q : Type 0} (c : Channel T Q) {Valid : Q → Type 0} (fifo : IsFifo c Valid) where
  -- The arrivals go behind the contents as far as there is room.
  pub contents-arrive :
      (ts : List T) (q : Q)
      → Valid q
      → c.contents (arrive c ts q) ≡ c.contents q ++ take (c.capacity - length (c.contents q)) ts
  unfolding arrive
  contents-arrive [] q v =
      ground
        (arith, append-nil (c.contents q), take-nil {A = T} (c.capacity - length (c.contents q)))
  contents-arrive (t ∷ ts) q v = ground (
    arith,
    contents-arrive ts (c.try_push t q).1 (fifo.push-Valid t q v),
    fifo.push_fifo t q v,
    append-take c.capacity t (c.contents q) ts,
  )
