-- ===== src/Ring/Spsc/Locals.antt =====
-- What each thread's locals say of the shared ring, and how the other thread's accesses keep it.
use market_data_processor.Prelude.{
  ℕ, suc, ◌+◌, ◌-◌, ◌%◌, ◌≤◌, ◌<◌, ◌≡◌, ◌≢◌, ◌∙◌, arith, ◌++◌, length, get_or, set, get_or-set_ne,
}
use market_data_processor.Ring.{Ring, word}
use market_data_processor.Ring.Slots.{window}
use market_data_processor.Ring.Spsc.{Producer, Consumer, System}

module _ {T : Type 0} (blank : T) (n : ℕ) where
  -- `c` elements are out, `k` are in the buffer. A tail that the producer has read may be old.
  abbrev pub ProducerOk : Ring T → ℕ → ℕ → Producer T → Type 0
  ProducerOk r c k Producer.idle = Unit
  ProducerOk r c k (Producer.has_head item head) = head ≡ r.head
  ProducerOk r c k (Producer.has_tail item head tail) =
      (head ≡ r.head) × ((j : ℕ) × (j ≤ c) × (tail ≡ j % word) × (c + k ≤ j + n))
  ProducerOk r c k (Producer.wrote item head) =
      (head ≡ r.head) × (k < n) × (get_or r.buffer ((c + k) % n) blank ≡ item)

  -- A head that the consumer has read may be old.
  abbrev pub ConsumerOk : Ring T → ℕ → ℕ → Consumer T → Type 0
  ConsumerOk r c k Consumer.idle = Unit
  ConsumerOk r c k (Consumer.has_tail tail) = tail ≡ r.tail
  ConsumerOk r c k (Consumer.has_head tail head) =
      (tail ≡ r.tail) × ((j : ℕ) × (j ≤ k) × (head ≡ (c + j) % word))
  ConsumerOk r c k (Consumer.moved out tail) =
      (tail ≡ r.tail) × (0 < k) × (get_or r.buffer (c % n) blank ≡ out)

  pub record Inv (s : System T) : Type 0 where
    pub held : ℕ
    pub within : held ≤ n
    pub stored : length s.ring.buffer ≡ n
    pub tail_at : s.ring.tail ≡ length s.popped % word
    pub head_at : s.ring.head ≡ (length s.popped + held) % word
    pub fifo : s.pushed ≡ s.popped ++ window blank n s.ring.buffer (length s.popped) held
    pub producer_ok : ProducerOk s.ring (length s.popped) held s.producer
    pub consumer_ok : ConsumerOk s.ring (length s.popped) held s.consumer

module _ {T : Type 0} (blank : T) (n : ℕ) where
  -- What one thread does leaves the other's locals as good as they were.
  pub ConsumerOk-write :
      (r : Ring T) (c k i : ℕ) (x : T) (p : Consumer T)
      → (0 < k → i ≢ c % n)
      → ConsumerOk blank n r c k p
      → ConsumerOk blank n (record r { buffer = set r.buffer i x }) c k p
  ConsumerOk-write r c k i x Consumer.idle other ok = tt
  ConsumerOk-write r c k i x (Consumer.has_tail tail) other ok = ok
  ConsumerOk-write r c k i x (Consumer.has_head tail head) other ok = ok
  ConsumerOk-write r c k i x (Consumer.moved out tail) other (same, left, read) =
      (same, left, get_or-set_ne r.buffer i (c % n) x blank (other left) ∙ read)

  pub ConsumerOk-publish :
      (r : Ring T) (c k h : ℕ) (p : Consumer T)
      → ConsumerOk blank n r c k p
      → ConsumerOk blank n (record r { head = h }) c (suc k) p
  ConsumerOk-publish r c k h Consumer.idle ok = tt
  ConsumerOk-publish r c k h (Consumer.has_tail tail) ok = ok
  ConsumerOk-publish r c k h (Consumer.has_head tail head) (same, (j, le, at)) =
      (same, (j, omega arith, at))
  ConsumerOk-publish r c k h (Consumer.moved out tail) (same, left, read) =
      (same, omega arith, read)

  pub ProducerOk-publish :
      (r : Ring T) (c k t : ℕ) (p : Producer T)
      → 0 < k
      → ProducerOk blank n r c k p
      → ProducerOk blank n (record r { tail = t }) (c + 1) (k - 1) p
  ProducerOk-publish r c k t Producer.idle left ok = tt
  ProducerOk-publish r c k t (Producer.has_head item head) left ok = ok
  ProducerOk-publish r c k t (Producer.has_tail item head tail) left (same, (j, le, at, fits)) =
      (same, (j, omega arith, at, omega arith))
  ProducerOk-publish r c k t (Producer.wrote item head) left (same, free, stored) =
      let sum : c + 1 + (k - 1) ≡ c + k = omega arith in (same, omega arith, rw sum stored)

  module _ {s : System T} (inv : Inv blank n s) where
    open inv use {held, within, stored, tail_at, head_at, fifo, producer_ok, consumer_ok}

    pub move_producer :
        (p : Producer T)
        → ProducerOk blank n s.ring (length s.popped) held p
        → Inv blank n (record s { producer = p })
    move_producer p ok = record {
      held = held;
      within = within;
      stored = stored;
      tail_at = tail_at;
      head_at = head_at;
      fifo = fifo;
      producer_ok = ok;
      consumer_ok = consumer_ok;
    }

    pub move_consumer :
        (p : Consumer T)
        → ConsumerOk blank n s.ring (length s.popped) held p
        → Inv blank n (record s { consumer = p })
    move_consumer p ok = record {
      held = held;
      within = within;
      stored = stored;
      tail_at = tail_at;
      head_at = head_at;
      fifo = fifo;
      producer_ok = producer_ok;
      consumer_ok = ok;
    }
