-- ===== src/Ring/Spsc.antt =====
-- One producer and one consumer on a ring buffer, one shared access at a time, in any order:
-- `try_push` and `try_pop` of src/core/include/core/RingBuffer.hpp as they interleave.
-- The acquire and release orderings make the accesses of the two index counters take effect in one
-- order, with the slot accesses before the store that publishes them; the steps are those accesses.
pub mod Locals
pub mod Invariant
pub mod Safety
use market_data_processor.Prelude.{ℕ, ◌+◌, ◌≡◌, ◌≢◌, List, [], ◌∷◌, ◌++◌, get_or, set}
use market_data_processor.Ring.{Ring, slot, add_word, sub_word, init}

-- Where `try_push` stands, with its locals.
pub data Producer (T : Type 0) : Type 0 where
  idle : Producer T
  has_head : (item : T) (head : ℕ) → Producer T
  has_tail : (item : T) (head tail : ℕ) → Producer T
  wrote : (item : T) (head : ℕ) → Producer T

-- Where `try_pop` stands, with its locals.
pub data Consumer (T : Type 0) : Type 0 where
  idle : Consumer T
  has_tail : (tail : ℕ) → Consumer T
  has_head : (tail head : ℕ) → Consumer T
  moved : (out : T) (tail : ℕ) → Consumer T

-- The buffer, the two threads, and what has been published so far on either side.
pub record System (T : Type 0) : Type 0 where
  pub ring : Ring T
  pub producer : Producer T
  pub consumer : Consumer T
  pub pushed : List T
  pub popped : List T

module _ {T : Type 0} (blank : T) (n : ℕ) where
  pub data Step (s : System T) : System T → Type 0 where
    push_load_head :
        (item : T)
        → s.producer ≡ Producer.idle
        → Step s (record s { producer = Producer.has_head item s.ring.head })
    push_load_tail :
        (item : T) (head : ℕ)
        → s.producer ≡ Producer.has_head item head
        → Step s (record s { producer = Producer.has_tail item head s.ring.tail })
    push_full :
        (item : T) (head tail : ℕ)
        → s.producer ≡ Producer.has_tail item head tail
        → sub_word head tail ≡ n
        → Step s (record s { producer = Producer.idle })
    push_write :
        (item : T) (head tail : ℕ)
        → s.producer ≡ Producer.has_tail item head tail
        → sub_word head tail ≢ n
        → Step s (record s {
          ring = record s.ring { buffer = set s.ring.buffer (slot n head) item };
          producer = Producer.wrote item head;
        })
    push_publish :
        (item : T) (head : ℕ)
        → s.producer ≡ Producer.wrote item head
        → Step s (record s {
          ring = record s.ring { head = add_word head 1 };
          producer = Producer.idle;
          pushed = s.pushed ++ (item ∷ []);
        })
    pop_load_tail :
        s.consumer ≡ Consumer.idle → Step s (record s { consumer = Consumer.has_tail s.ring.tail })
    pop_load_head :
        (tail : ℕ)
        → s.consumer ≡ Consumer.has_tail tail
        → Step s (record s { consumer = Consumer.has_head tail s.ring.head })
    pop_empty :
        (tail head : ℕ)
        → s.consumer ≡ Consumer.has_head tail head
        → head ≡ tail
        → Step s (record s { consumer = Consumer.idle })
    pop_move :
        (tail head : ℕ)
        → s.consumer ≡ Consumer.has_head tail head
        → head ≢ tail
        → Step s
            (record s { consumer = Consumer.moved (get_or s.ring.buffer (slot n tail) blank) tail })
    pop_publish :
        (out : T) (tail : ℕ)
        → s.consumer ≡ Consumer.moved out tail
        → Step s (record s {
          ring = record s.ring { tail = add_word tail 1 };
          consumer = Consumer.idle;
          popped = s.popped ++ (out ∷ []);
        })

  -- A new buffer and two idle threads.
  abbrev pub start : System T
  start = record {
    ring = init n blank;
    producer = Producer.idle;
    consumer = Consumer.idle;
    pushed = [];
    popped = [];
  }

  pub data Reach : System T → Type 0 where
    begin : Reach start
    next : {s t : System T} → Reach s → Step s t → Reach t
