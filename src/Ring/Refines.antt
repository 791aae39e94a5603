-- ===== src/Ring/Refines.antt =====
-- The ring buffer against the contract of `Channel`.
use mathlib.Core.Path.{ap₂}
use native.Mathlib.Nat.{mod-lt}
use market_data_processor.Prelude.{
  ℕ, suc, ◌+◌, ◌-◌, ◌%◌, ◌<◌, ◌≡◌, ◌≢◌, ◌↔◌, refl, ap, ◌∙◌, arith, true, List, [], ◌∷◌, ◌++◌,
  length, set, get_or-set_self, get_or_congr,
}
use market_data_processor.Channel.{Channel, IsFifo, push_list, pop_list}
use market_data_processor.Ring.{
  Ring, word, slot, add_word, sub_word, init, try_push, try_pop, size, is_empty, full, capacity,
}
use market_data_processor.Ring.Slots.{
  window, length-window, window_of_pos, window_congr, window-set, window-suc,
}
use market_data_processor.Ring.Invariant.{IsValid, pow_facts, try_push-IsValid, try_pop-IsValid}

module _ {T : Type 0} (blank : T) (n : ℕ) where
  -- The elements in the buffer, oldest first.
  abbrev pub contents : Ring T → List T
  contents r = window blank n r.buffer r.tail (sub_word r.head r.tail)

module _ {T : Type 0} (blank : T) (n : ℕ) where
  pub length-contents : (r : Ring T) → length (contents blank n r) ≡ sub_word r.head r.tail
  length-contents r = length-window blank n r.buffer r.tail (sub_word r.head r.tail)

  pub init-contents : contents blank n (init n blank) ≡ []
  unfolding init
  init-contents = refl

  -- The write of `try_push` extends the window by the element.
  window-push :
      (r : Ring T) (x : T)
      → IsValid n r
      → sub_word r.head r.tail < n
      → window blank n (set r.buffer (slot n r.head) x) r.tail (suc (sub_word r.head r.tail))
        ≡ contents blank n r ++ (x ∷ [])
  window-push r x v room =
      ap (λ i. window blank n (set r.buffer i x) r.tail (suc held)) place
      ∙ window-suc blank n (set r.buffer ((r.tail + held) % n) x) r.tail held
      ∙ ap₂ (λ xs y. xs ++ (y ∷ []))
          (window-set blank n r.buffer r.tail held (r.tail + held) x (omega arith) (omega arith))
          (get_or-set_self r.buffer ((r.tail + held) % n) x blank inside)
    where
      open (pow_facts v.pow) use {pos, wrap, mask}

      held : ℕ
      held = sub_word r.head r.tail

      place : slot n r.head ≡ (r.tail + held) % n
      place =
          mask r.head
          ∙ ap (λ c. c % n) {y = (r.tail + held) % word} (omega arith)
          ∙ wrap (r.tail + held)

      inside : (r.tail + held) % n < length r.buffer
      inside = omega (arith, mod-lt (r.tail + held) {m = n} pos)

  -- On a valid ring `try_push` returns what a push to the bounded list of its contents returns, and
  -- leaves the ring holding that list.
  pub try_push_refines :
      (x : T) (r : Ring T)
      → IsValid n r
      → let (done, r') = try_push n x r in
        (done, contents blank n r') ≡ push_list n x (contents blank n r)
  unfolding try_push
  try_push_refines x r v =
      ground (arith, length-contents r, window-push r x v, (pow_facts v.pow).small)

  -- On a valid ring `try_pop` returns what a pop of the list of its contents returns, and leaves the
  -- ring holding the rest.
  pub try_pop_refines :
      (out : T) (r : Ring T)
      → IsValid n r
      → let (done, x, r') = try_pop n out r in
        (done, x, contents blank n r') ≡ pop_list out (contents blank n r)
  unfolding try_pop
  try_pop_refines out r v = ground (
    arith,
    mask r.tail,
    mod-lt r.tail {m = n} pos,
    get_or_congr r.buffer (r.tail % n) out blank,
    window_of_pos blank n r.buffer r.tail (sub_word r.head r.tail),
    window_congr blank n r.buffer (add_word r.tail 1) (r.tail + 1) (sub_word r.head r.tail - 1)
        (wrap (r.tail + 1)),
    shrinks,
  )
    where
      open (pow_facts v.pow) use {pos, small, wrap, mask}

      shrinks : r.head ≢ r.tail → sub_word r.head (add_word r.tail 1) ≡ sub_word r.head r.tail - 1
      shrinks h = omega arith

  -- The ring buffer keeps the contract of a channel.
  abbrev pub ring_channel : Channel T (Ring T)
  ring_channel = record {
    try_push = try_push n;
    try_pop = try_pop n;
    contents = contents blank n;
    capacity = n;
  }

  pub ring_IsFifo : IsFifo ring_channel (IsValid n)
  ring_IsFifo = record {
    push-Valid = try_push-IsValid n;
    pop-Valid = try_pop-IsValid n;
    push_fifo = try_push_refines;
    pop_fifo = try_pop_refines;
    bounded = λ r v. rw (length-contents r) v.within;
  }

  -- On a valid ring `size` is the number of elements that it holds, `empty` is true exactly when it
  -- holds none, and `full` exactly when it holds as many as its capacity.
  pub monitors_lem :
      (r : Ring T)
      → IsValid n r
      → (size r ≡ length (contents blank n r))
        × ((is_empty r ≡ true) ↔ (contents blank n r ≡ []))
        × ((full n r ≡ true) ↔ (length (contents blank n r) ≡ capacity n))
  unfolding size is_empty full capacity
  monitors_lem r v =
      ground
        (arith, length-contents r, window_of_pos blank n r.buffer r.tail (sub_word r.head r.tail))
