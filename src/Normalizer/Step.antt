-- ===== src/Normalizer/Step.antt =====
-- One call of `Normalizer::process_tick`, over any two channels.
use mathlib.Core.List.{append-nil}
use market_data_processor.Prelude.{
  ℕ, ◌<◌, ◌≡◌, ◌≢◌, inl, inr, refl, sym, ◌∙◌, arith, Bool, true, false, Option, none, some, List,
  [], ◌∷◌, ◌++◌, drop, if◌then◌else◌, Bool-cases,
}
use market_data_processor.Double.{Double}
use market_data_processor.Channel.{Channel, IsFifo, pop_none, pop_some}
use market_data_processor.Ring.{add_word, word}
use market_data_processor.Stage.{
  Turn, push_wait, released, stopped, push_wait-AfterWait, push_wait-ne-none, AfterWait,
}
use market_data_processor.Tick.{MarketTick, blank_tick}
use market_data_processor.Normalizer.{
  Normalizer, is_duplicate, is_reordered, update_state, process_tick, forward, count_duplicate,
  count_reordered, put,
}
use market_data_processor.Normalizer.History.{
  repeats, late, admits, Orderly, Ordered, Ordered-drop, Ordered-lost, Ordered-append,
}
use market_data_processor.Normalizer.State.{
  Represents, is_duplicate_lem, is_reordered_lem, update_state-Represents,
}

module _ {D : Type 0} ⦃d : Double D⦄ {In Out : Type 0} (input : Channel (MarketTick D) In)
    (output : Channel (MarketTick D) Out) where
  -- What one call does to the state `s` with the history `h`: nothing, or it takes the oldest tick
  -- of the input and drops it as a repetition or as late, or lets it through, and may then lose it
  -- to a stop.
  pub data Outcome (turns : List Turn) (h : List (MarketTick D)) (s : Normalizer D In Out)
      (got : Bool) (h' : List (MarketTick D)) (s' : Normalizer D In Out) : Type 0 where
    idle :
        got ≡ false
        → input.contents s.input ≡ []
        → input.contents s'.input ≡ []
        → h' ≡ h
        → s' ≡ record s { input = s'.input }
        → Outcome turns h s got h' s'
    repeated :
        (t : MarketTick D)
        → got ≡ true
        → input.contents s.input ≡ t ∷ input.contents s'.input
        → repeats h t ≡ true
        → h' ≡ h
        → s' ≡ record s { input = s'.input; ticks_deduplicated = add_word s.ticks_deduplicated 1 }
        → Outcome turns h s got h' s'
    reordered :
        (t : MarketTick D)
        → got ≡ true
        → input.contents s.input ≡ t ∷ input.contents s'.input
        → repeats h t ≡ false
        → late h t ≡ true
        → h' ≡ h
        → s' ≡ record s { input = s'.input; ticks_reordered = add_word s.ticks_reordered 1 }
        → Outcome turns h s got h' s'
    admitted :
        (t : MarketTick D) (pushed : Bool) (taken : ℕ)
        → got ≡ true
        → input.contents s.input ≡ t ∷ input.contents s'.input
        → admits h t ≡ true
        → h' ≡ t ∷ h
        → output.contents s'.output
          ≡ drop taken (output.contents s.output) ++ (if pushed then t ∷ [] else [])
        → s'.ticks_forwarded ≡ (if pushed then add_word s.ticks_forwarded 1 else s.ticks_forwarded)
        → s'.ticks_deduplicated ≡ s.ticks_deduplicated
        → s'.ticks_reordered ≡ s.ticks_reordered
        → (pushed ≡ false → stopped turns ≡ true)
        → Outcome turns h s got h' s'

module _ {D : Type 0} ⦃d : Double D⦄ {In Out : Type 0} (input : Channel (MarketTick D) In)
    (output : Channel (MarketTick D) Out) {InValid : In → Type 0} {OutValid : Out → Type 0}
    (in_fifo : IsFifo input InValid) (out_fifo : IsFifo output OutValid) where
  -- A state with the history that it has seen: the maps represent the history, every tick of which
  -- was let through by the earlier ones, and the ticks in the output are among them, in order.
  pub record IsValid (h : List (MarketTick D)) (s : Normalizer D In Out) : Type 0 where
    pub input_valid : InValid s.input
    pub output_valid : OutValid s.output
    pub represents : Represents h s
    pub orderly : Orderly h
    pub ordered : Ordered h (output.contents s.output)
    pub forwarded_lt : s.ticks_forwarded < word
    pub deduplicated_lt : s.ticks_deduplicated < word
    pub reordered_lt : s.ticks_reordered < word

  -- Vacuous for a call that still waits: `process_tick_returns` says when it returns.
  abbrev pub AfterSift :
      List Turn
      → List (MarketTick D)
      → Normalizer D In Out
      → Option (Bool × Normalizer D In Out)
      → Type 0
  AfterSift turns h s none = Unit
  AfterSift turns h s (some (got, s')) =
      (h' : List (MarketTick D)) × IsValid h' s' × Outcome input output turns h s got h' s'

  -- A tick that is let through, once its push was tried.
  pub put-IsValid :
      (h : List (MarketTick D)) (t : MarketTick D) (s : Normalizer D In Out) (taken : ℕ)
      (pushed : Bool) (out : Out)
      → IsValid h s
      → admits h t ≡ true
      → OutValid out
      → output.contents out
        ≡ drop taken (output.contents s.output) ++ (if pushed then t ∷ [] else [])
      → IsValid (t ∷ h) (put pushed out (update_state t s))
  unfolding update_state
  put-IsValid h t s taken pushed out v a ov e =
      let r = update_state-Represents h t s v.represents in
      let kept = Ordered-drop taken h (output.contents s.output) v.ordered in
      record {
        input_valid = v.input_valid;
        output_valid = ov;
        represents = record { ticks_at = r.ticks_at; times_at = r.times_at };
        orderly = (a, v.orderly);
        ordered = rw e (moved pushed kept);
        forwarded_lt = ground (arith, v.forwarded_lt);
        deduplicated_lt = v.deduplicated_lt;
        reordered_lt = v.reordered_lt;
      }
    where
      moved :
          (done : Bool)
          → Ordered h (drop taken (output.contents s.output))
          → Ordered (t ∷ h) (drop taken (output.contents s.output) ++ (if done then t ∷ [] else []))
      moved true o = Ordered-append h (drop taken (output.contents s.output)) t a o
      moved false o = rw append-nil (Ordered-lost h (drop taken (output.contents s.output)) t a o)

  pub counted-IsValid :
      (h : List (MarketTick D)) (s s' : Normalizer D In Out)
      → IsValid h s
      → InValid s'.input
      → s'.output ≡ s.output
      → s'.last_tick ≡ s.last_tick
      → s'.last_timestamp ≡ s.last_timestamp
      → s'.ticks_forwarded < word
      → s'.ticks_deduplicated < word
      → s'.ticks_reordered < word
      → IsValid h s'
  counted-IsValid h s s' v iv o t ts f dd r = record {
    input_valid = iv;
    output_valid = rw o v.output_valid;
    represents = record {
      ticks_at = λ key. rw t (v.represents.ticks_at key);
      times_at = λ key. rw ts (v.represents.times_at key);
    };
    orderly = v.orderly;
    ordered = rw o v.ordered;
    forwarded_lt = f;
    deduplicated_lt = dd;
    reordered_lt = r;
  }

  -- A tick that is let through, once the wait for room is over.
  forwarded :
      (turns : List Turn) (h : List (MarketTick D)) (s : Normalizer D In Out) (rest : In)
      (t : MarketTick D) (r : Option (Bool × Out))
      → let s1 = record s { input = rest } in
        IsValid h s1
        → input.contents s.input ≡ t ∷ input.contents rest
        → admits h t ≡ true
        → AfterWait output blank_tick out_fifo t s.output turns r
        → AfterSift turns h s (forward (update_state t s1) r)
  unfolding forward update_state
  forwarded turns h s rest t none v e a w = tt
  forwarded turns h s rest t (some (pushed, out)) v e a w = (
    t ∷ h,
    put-IsValid h t (record s { input = rest }) w.taken pushed out v a w.valid w.left,
    admitted t pushed w.taken refl e a refl w.left refl refl refl w.reason,
  )

  -- Every call of `process_tick` that returns has one of the outcomes: it finds the input empty and
  -- changes nothing; or it takes the oldest tick and drops it, counted, as a repetition of the last
  -- tick of its symbol or as older than it; or it records the tick as the last of its symbol and
  -- puts it behind what is left in the output, counted, or loses it, uncounted, because of a stop.
  -- The maps always hold the last tick of each symbol, and in the output the times of no symbol fall.
  pub process_tick-AfterSift :
      (turns : List Turn) (h : List (MarketTick D)) (s : Normalizer D In Out)
      → IsValid h s
      → AfterSift turns h s (process_tick input output turns s)
  unfolding process_tick
  process_tick-AfterSift turns h s v =
      let rest = (input.try_pop blank_tick s.input).2 in
      let rest_valid : InValid rest = in_fifo.pop-Valid blank_tick s.input v.input_valid in
      let t = (input.try_pop blank_tick s.input).1 in
      let s1 = record s { input = rest } in
      let v1 : IsValid h s1 =
        counted-IsValid h s s1 v rest_valid refl refl refl v.forwarded_lt v.deduplicated_lt
          v.reordered_lt in
      let dup = is_duplicate_lem h t s1 v1.represents in
      let old = is_reordered_lem h t s1 v1.represents in
      elim (Bool-cases (input.try_pop blank_tick s.input).0) [
        | inl one ↦
            let taken = pop_some input in_fifo blank_tick s.input v.input_valid one in
            elim (Bool-cases (is_duplicate t s1)) [
              | inl yes_dup ↦
                  simp (one, yes_dup)
                    (
                      h,
                      counted-IsValid h s1 (count_duplicate s1) v1 rest_valid refl refl refl
                          v.forwarded_lt (omega arith) v.reordered_lt,
                      repeated t refl taken (sym dup ∙ yes_dup) refl refl,
                    )
              | inr no_dup ↦ elim (Bool-cases (is_reordered t s1)) [
                | inl yes_old ↦
                    simp (one, no_dup, yes_old)
                      (
                        h,
                        counted-IsValid h s1 (count_reordered s1) v1 rest_valid refl refl refl
                            v.forwarded_lt v.deduplicated_lt (omega arith),
                        reordered t refl taken (sym dup ∙ no_dup) (sym old ∙ yes_old) refl refl,
                      )
                | inr no_old ↦
                    simp (one, no_dup, no_old)
                      (forwarded turns h s rest t (push_wait output blank_tick turns t s.output) v1
                        taken (ground (arith, dup, old))
                        (push_wait-AfterWait output blank_tick out_fifo turns t s.output
                          v.output_valid))
              ]
            ]
        | inr none_left ↦
            let empty = pop_none input in_fifo blank_tick s.input v.input_valid none_left in
            simp none_left (h, v1, idle refl empty.0 empty.1 refl refl)
      ]

  -- A call returns as soon as a stop is requested or the consumer of the output takes an element.
  pub process_tick_returns :
      (turns : List Turn) (h : List (MarketTick D)) (s : Normalizer D In Out)
      → IsValid h s
      → 0 < output.capacity
      → released turns ≡ true
      → process_tick input output turns s ≢ none
  unfolding process_tick forward
  process_tick_returns turns h s v room r = ground (
    arith,
    push_wait-ne-none output blank_tick out_fifo turns (input.try_pop blank_tick s.input).1 s.output
        v.output_valid room r,
  )
