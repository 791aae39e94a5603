-- ===== src/Ring/Spsc/Invariant.antt =====
-- The invariant of one producer and one consumer holds in every state that they reach.
use mathlib.Core.List.{append_assoc}
use native.Mathlib.Nat.{mod-lt}
use market_data_processor.Prelude.{
  ℕ, suc, ◌+◌, ◌-◌, ◌%◌, ◌<◌, ◌≡◌, ◌≢◌, refl, sym, ap, ◌∙◌, arith, [], ◌∷◌, ◌++◌, length,
  length-append, length-set, length-replicate, get_or, set, get_or-set_self,
}
use market_data_processor.Ring.{slot, add_word, sub_word, init}
use market_data_processor.Ring.Slots.{window, window_of_pos, window-set, window-suc, mod-ne}
use market_data_processor.Ring.Invariant.{IsPow, pow_facts}
use market_data_processor.Ring.Spsc.{
  Producer, Consumer, System, Step, push_load_head, push_load_tail, push_full, push_write,
  push_publish, pop_load_tail, pop_load_head, pop_empty, pop_move, pop_publish, start, Reach, begin,
  next,
}
use market_data_processor.Ring.Spsc.Locals.{
  Inv, ConsumerOk-write, ConsumerOk-publish, ProducerOk-publish, move_producer, move_consumer,
}

module _ {T : Type 0} (blank : T) (n : ℕ) (pow : IsPow n) where
  open (pow_facts pow) use {pos, small, wrap, mask}

  start-Inv : Inv blank n (start blank n)
  unfolding init
  start-Inv = record {
    held = 0;
    within = omega arith;
    stored = length-replicate n blank;
    tail_at = refl;
    head_at = refl;
    fifo = refl;
    producer_ok = tt;
    consumer_ok = tt;
  }

  module _ {s : System T} (inv : Inv blank n s) where
    open inv use {held, within, stored, tail_at, head_at, fifo, producer_ok, consumer_ok}

    abbrev pub out : ℕ
    out = length s.popped

    -- The slot that the producer fills is the one after the window.
    pub push_slot : slot n s.ring.head ≡ (out + held) % n
    push_slot = mask s.ring.head ∙ ap (λ c. c % n) head_at ∙ wrap (out + held)

    pub pop_slot : slot n s.ring.tail ≡ out % n
    pop_slot = mask s.ring.tail ∙ ap (λ c. c % n) tail_at ∙ wrap out

    -- An old tail can only make the buffer look fuller than it is.
    pub room :
        (item : T) (head tail : ℕ)
        → s.producer ≡ Producer.has_tail item head tail
        → sub_word head tail ≢ n
        → held < n
    room item head tail e h =
        let (same, old) = rw e at producer_ok in
        let (j, le, at, bound) = old in omega (arith, small)

    -- An old head can only make the buffer look emptier than it is.
    pub waiting :
        (tail head : ℕ) → s.consumer ≡ Consumer.has_head tail head → head ≢ tail → 0 < held
    waiting tail head e h =
        let (same, old) = rw e at consumer_ok in let (j, le, at) = old in ground (arith, tail_at)

    push_write-Inv :
        (item : T) (head tail : ℕ)
        → s.producer ≡ Producer.has_tail item head tail
        → sub_word head tail ≢ n
        → Inv blank n (record s {
          ring = record s.ring { buffer = set s.ring.buffer (slot n head) item };
          producer = Producer.wrote item head;
        })
    push_write-Inv item head tail e h =
        let (same, old) = rw e at producer_ok in
        let free : held < n = room item head tail e h in
        let place : slot n head ≡ (out + held) % n = ap (slot n) same ∙ push_slot in
        let keeps =
          window-set blank n s.ring.buffer out held (out + held) item (omega arith) (omega arith) in
        record {
          held = held;
          within = within;
          stored = length-set s.ring.buffer (slot n head) item ∙ stored;
          tail_at = tail_at;
          head_at = head_at;
          fifo = rw (place, keeps) fifo;
          producer_ok = (
            same,
            free,
            rw place (
                get_or-set_self s.ring.buffer ((out + held) % n) item blank
                  (omega (arith, mod-lt (out + held) {m = n} pos))),
          );
          consumer_ok =
              ConsumerOk-write blank n s.ring out held (slot n head) item s.consumer
                (λ left. rw place (mod-ne n out held left free)) consumer_ok;
        }

    push_publish-Inv :
        (item : T) (head : ℕ)
        → s.producer ≡ Producer.wrote item head
        → Inv blank n (record s {
          ring = record s.ring { head = add_word head 1 };
          producer = Producer.idle;
          pushed = s.pushed ++ (item ∷ []);
        })
    push_publish-Inv item head e =
        let (same, free, stored_item) = rw e at producer_ok in
        record {
          held = suc held;
          within = free;
          stored = stored;
          tail_at = tail_at;
          head_at = omega arith;
          fifo =
              ap (λ l. l ++ (item ∷ [])) fifo
              ∙ append_assoc s.popped (window blank n s.ring.buffer out held) (item ∷ [])
              ∙ ap (λ l. s.popped ++ l)
                  (rw stored_item at (sym (window-suc blank n s.ring.buffer out held)));
          producer_ok = tt;
          consumer_ok =
              ConsumerOk-publish blank n s.ring out held (add_word head 1) s.consumer consumer_ok;
        }

    pop_publish-Inv :
        (item : T) (tail : ℕ)
        → s.consumer ≡ Consumer.moved item tail
        → Inv blank n (record s {
          ring = record s.ring { tail = add_word tail 1 };
          consumer = Consumer.idle;
          popped = s.popped ++ (item ∷ []);
        })
    pop_publish-Inv item tail e =
        let (same, some_left, read) = rw e at consumer_ok in
        record {
          held = held - 1;
          within = omega arith;
          stored = stored;
          tail_at = omega (arith, length-append s.popped (item ∷ []));
          head_at = omega (arith, length-append s.popped (item ∷ []));
          fifo = rw (length-append s.popped (item ∷ [])) (
              fifo
              ∙ ap (λ l. s.popped ++ l)
                  (rw read at (window_of_pos blank n s.ring.buffer out held some_left))
              ∙ sym (append_assoc s.popped (item ∷ []) _));
          producer_ok = rw (length-append s.popped (item ∷ [])) (
              ProducerOk-publish blank n s.ring out held (add_word tail 1) s.producer some_left
                producer_ok);
          consumer_ok = tt;
        }

  -- Every step keeps the invariant.
  pub Step-Inv : {s t : System T} → Step blank n s t → Inv blank n s → Inv blank n t
  Step-Inv (push_load_head item e) inv = move_producer blank n inv _ refl
  Step-Inv {s} (push_load_tail item head e) inv =
      move_producer blank n inv (Producer.has_tail item head s.ring.tail) (
        rw e at inv.producer_ok,
        (length s.popped, omega arith, inv.tail_at, omega (arith, inv.within)),
      )
  Step-Inv (push_full item head tail e h) inv = move_producer blank n inv Producer.idle tt
  Step-Inv (push_write item head tail e h) inv = push_write-Inv inv item head tail e h
  Step-Inv (push_publish item head e) inv = push_publish-Inv inv item head e
  Step-Inv (pop_load_tail e) inv = move_consumer blank n inv _ refl
  Step-Inv {s} (pop_load_head tail e) inv =
      move_consumer blank n inv (Consumer.has_head tail s.ring.head)
        (rw e at inv.consumer_ok, (inv.held, omega arith, inv.head_at))
  Step-Inv (pop_empty tail head e h) inv = move_consumer blank n inv Consumer.idle tt
  Step-Inv {s} (pop_move tail head e h) inv =
      let (same, old) = rw e at inv.consumer_ok in
      move_consumer blank n inv (Consumer.moved (get_or s.ring.buffer (slot n tail) blank) tail) (
        same,
        waiting inv tail head e h,
        ap (λ i. get_or s.ring.buffer i blank) (sym (ap (slot n) same ∙ pop_slot inv)),
      )
  Step-Inv (pop_publish item tail e) inv = pop_publish-Inv inv item tail e

  pub Reach-Inv : {s : System T} → Reach blank n s → Inv blank n s
  Reach-Inv begin = start-Inv
  Reach-Inv (next r st) = Step-Inv st (Reach-Inv r)
