-- ===== src/Ring/Spsc/Safety/Tests.antt =====
-- A run of the two threads on a buffer of two slots.
use market_data_processor.Prelude.{ℕ, ◌≤◌, ◌≡◌, ◌≢◌, refl, arith, [], ◌∷◌, ◌++◌, length}
use market_data_processor.Ring.{init, slot}
use market_data_processor.Ring.Invariant.{IsPow}
use market_data_processor.Ring.Refines.{contents}
use market_data_processor.Ring.Spsc.{
  Producer, Consumer, System, Reach, begin, next, push_load_head, push_load_tail, push_write,
  push_publish, pop_load_tail, pop_load_head,
}
use market_data_processor.Ring.Spsc.Safety.{pushed-eq-popped-append, write_slot-ne-read_slot}

IsPow-two : IsPow 2
IsPow-two = (1, omega arith, refl)

-- 7 is published; the producer is about to write 9 and the consumer to read 7.
abbrev busy : System ℕ
busy = record {
  ring = record { buffer = 7 ∷ 0 ∷ []; head = 1; tail = 0 };
  producer = Producer.has_tail 9 1 0;
  consumer = Consumer.has_head 0 1;
  pushed = 7 ∷ [];
  popped = [];
}

Reach-busy : Reach 0 2 busy
unfolding init
Reach-busy =
    let r0 : Reach 0 2 _ = begin in
    let r1 : Reach 0 2 _ = next r0 (push_load_head 7 refl) in
    let r2 : Reach 0 2 _ = next r1 (push_load_tail 7 0 refl) in
    let r3 : Reach 0 2 _ = next r2 (push_write 7 0 0 refl (omega arith)) in
    let r4 : Reach 0 2 _ = next r3 (push_publish 7 0 refl) in
    let r5 : Reach 0 2 _ = next r4 (pop_load_tail refl) in
    let r6 : Reach 0 2 _ = next r5 (pop_load_head 0 refl) in
    let r7 : Reach 0 2 _ = next r6 (push_load_head 9 refl) in next r7 (push_load_tail 9 1 refl)

pushed-eq-popped-append_example :
    (7 ∷ [] ≡ [] ++ contents 0 2 busy.ring) × (length (contents 0 2 busy.ring) ≤ 2)
pushed-eq-popped-append_example = pushed-eq-popped-append 0 2 IsPow-two Reach-busy

write_slot-ne-read_slot_example : slot 2 1 ≢ slot 2 0
write_slot-ne-read_slot_example =
    write_slot-ne-read_slot 0 2 IsPow-two 9 1 0 0 1 Reach-busy refl (omega arith) refl (omega arith)
