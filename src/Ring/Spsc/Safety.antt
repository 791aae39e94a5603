-- ===== src/Ring/Spsc/Safety.antt =====
-- What holds in every state that one producer and one consumer can reach together.
mod Tests
use market_data_processor.Prelude.{
  ℕ, ◌+◌, ◌%◌, ◌^◌, ◌≤◌, ◌<◌, ◌≡◌, ◌≢◌, refl, sym, ap, ◌∙◌, arith, List, ◌++◌, length,
}
use market_data_processor.Ring.{Ring, word, slot, sub_word}
use market_data_processor.Ring.Slots.{window, window_congr, mod-ne}
use market_data_processor.Ring.Invariant.{IsPow, pow_facts}
use market_data_processor.Ring.Refines.{contents, length-contents}
use market_data_processor.Ring.Spsc.{Producer, Consumer, System, Step, Reach}
use market_data_processor.Ring.Spsc.Invariant.{Reach-Inv, push_slot, pop_slot, room, waiting}
use market_data_processor.Ring.Spsc.Locals.{Inv}

module _ {T : Type 0} (blank : T) (n : ℕ) (pow : IsPow n) where
  open (pow_facts pow) use {small, wrap}

  held-eq-size : {s : System T} (inv : Inv blank n s) → sub_word s.ring.head s.ring.tail ≡ inv.held
  held-eq-size inv = omega (arith, small, inv.within, inv.head_at, inv.tail_at)

  -- In every reachable state the elements pushed so far are the elements popped so far, in the same
  -- order, followed by the at most `n` elements in the buffer.
  pub pushed-eq-popped-append :
      {s : System T}
      → Reach blank n s
      → (s.pushed ≡ s.popped ++ contents blank n s.ring) × (length (contents blank n s.ring) ≤ n)
  pushed-eq-popped-append {s} r = (
    rw (held-eq-size inv, same_window) inv.fifo,
    rw (length-contents blank n s.ring, held-eq-size inv) inv.within,
  )
    where
      inv : Inv blank n s
      inv = Reach-Inv blank n pow r

      same_window :
          window blank n s.ring.buffer s.ring.tail inv.held
          ≡ window blank n s.ring.buffer (length s.popped) inv.held
      same_window =
          window_congr blank n s.ring.buffer s.ring.tail (length s.popped) inv.held
            (ap (λ c. c % n) inv.tail_at ∙ wrap (length s.popped))

  -- In a reachable state where the producer has found room and the consumer has found an element,
  -- the slot that the producer is about to write is not the slot that the consumer is about to read.
  pub write_slot-ne-read_slot :
      {s : System T} (item : T) (head tail tail' head' : ℕ)
      → Reach blank n s
      → s.producer ≡ Producer.has_tail item head tail
      → sub_word head tail ≢ n
      → s.consumer ≡ Consumer.has_head tail' head'
      → head' ≢ tail'
      → slot n head ≢ slot n tail'
  write_slot-ne-read_slot {s} item head tail tail' head' r ep hp ec hc same_slot =
      mod-ne n (length s.popped) inv.held (waiting blank n pow inv tail' head' ec hc)
        (room blank n pow inv item head tail ep hp) (sym write_at ∙ same_slot ∙ read_at)
    where
      inv : Inv blank n s
      inv = Reach-Inv blank n pow r

      write_at : slot n head ≡ (length s.popped + inv.held) % n
      write_at = ap (slot n) (rw ep at inv.producer_ok).0 ∙ push_slot blank n pow inv

      read_at : slot n tail' ≡ length s.popped % n
      read_at = ap (slot n) (rw ec at inv.consumer_ok).0 ∙ pop_slot blank n pow inv
