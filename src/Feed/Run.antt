-- ===== src/Feed/Run.antt =====
-- `FeedSimulator::run`: when it ends, and what it has published by then.
use market_data_processor.Prelude.{
  ℕ, zero, suc, ◌+◌, ◌*◌, ◌/◌, ◌^◌, ◌%◌, ◌≤◌, ◌<◌, ◌≡◌, ◌⊎◌, inl, inr, refl, sym, ap, ◌∙◌, arith,
  Bool, true, false, ◌&&◌, ◌||◌, none, some, List, [], ◌∷◌, map, length, All, Bool-cases,
  if◌then◌else◌, ◌==◌,
}
use market_data_processor.Double.{Double, IsOrdered}
use market_data_processor.Channel.{Channel, IsFifo}
use market_data_processor.Ring.{word}
use market_data_processor.Stage.{consume, consume-Valid}
use market_data_processor.Tick.{MarketTick, blank_tick}
use market_data_processor.Feed.{
  FeedConfig, FeedRound, SymbolState, FeedSimulator, feed_round, run_loop, run,
}
use market_data_processor.Feed.Simulator.{IsScaled, IsBounded, feed_round_lem}
use market_data_processor.Feed.Pace.{reaches, rate_control_lem}

module _ {D : Type 0} where
  -- The stop comes, and in every round before it the clock comes to the deadline, which is one interval
  -- after the one before.
  abbrev pub keeps_pace : ℕ → ℕ → List (FeedRound D) → Bool
  keeps_pace interval next_tick [] = false
  keeps_pace interval next_tick (r ∷ rs) =
      r.stop
      || (reaches (next_tick + interval) r.readings
          && keeps_pace interval (next_tick + interval) rs)

  -- The rounds before the stop.
  abbrev pub rounds_of : List (FeedRound D) → ℕ
  rounds_of [] = 0
  rounds_of (r ∷ rs) = if r.stop then 0 else suc (rounds_of rs)

zero-or-pos : (k : ℕ) → (k ≡ 0) ⊎ (0 < k)
zero-or-pos zero = inl refl
zero-or-pos (suc k) = inr (omega arith)

module _ {D : Type 0} ⦃d : Double D⦄ {Out : Type 0} (output : Channel (MarketTick D) Out)
    {OutValid : Out → Type 0} (out_fifo : IsFifo output OutValid) where
  abbrev names : FeedSimulator D Out → List (List ℕ)
  names s = map (λ x. x.symbol) s.symbol_states

  -- What `rounds` rounds leave: every tick is counted once.
  pub record Fed (rounds : ℕ) (s s' : FeedSimulator D Out) : Type 0 where
    pub valid : OutValid s'.output
    pub published_lt : s'.ticks_published < word
    pub dropped_lt : s'.ticks_dropped < word
    pub same_names : names s' ≡ names s
    pub bounded : 0 < rounds → All IsBounded s'.symbol_states
    pub still : rounds ≡ 0 → s'.symbol_states ≡ s.symbol_states
    pub counted :
        (s'.ticks_published + s'.ticks_dropped) % word
        ≡ (s.ticks_published + s.ticks_dropped + rounds * length s.symbol_states) % word

  length-map : (xs : List (SymbolState D)) → length (map (λ x. x.symbol) xs) ≡ length xs
  length-map [] = refl
  length-map (x ∷ xs) = ap suc (length-map xs)

  length-names :
      (xs ys : List (SymbolState D))
      → map (λ x. x.symbol) xs ≡ map (λ x. x.symbol) ys
      → length xs ≡ length ys
  length-names xs ys e = sym (length-map xs) ∙ ap (λ l. length l) e ∙ length-map ys

  abbrev taken : FeedRound D → FeedSimulator D Out → FeedSimulator D Out
  taken r s = record s { output = consume output blank_tick r.consumed s.output }

  Fed-zero :
      (s : FeedSimulator D Out)
      → OutValid s.output
      → s.ticks_published < word
      → s.ticks_dropped < word
      → Fed 0 s s
  Fed-zero s v p q = record {
    valid = v;
    published_lt = p;
    dropped_lt = q;
    same_names = refl;
    bounded = λ h. absurd (omega arith);
    still = λ _. refl;
    counted = omega arith;
  }

  module _ (laws : IsOrdered d) (scale : IsScaled d) where
    round_valid :
        (r : FeedRound D) (s : FeedSimulator D Out)
        → OutValid s.output
        → s.ticks_published < word
        → s.ticks_dropped < word
        → let s1 = feed_round output r.draws r.clock (taken r s) in
          OutValid s1.output × (s1.ticks_published < word) × (s1.ticks_dropped < word)
    round_valid r s v p q =
        let v0 = consume-Valid output blank_tick out_fifo r.consumed s.output v in
        let out =
          (feed_round_lem output out_fifo laws scale r.draws r.clock (taken r s) v0 p q).2 in
        (out.valid, omega (arith, out.published), omega (arith, out.dropped))

    -- One more round.
    Fed-suc :
        (k : ℕ) (r : FeedRound D) (s s' : FeedSimulator D Out)
        → OutValid s.output
        → s.ticks_published < word
        → s.ticks_dropped < word
        → Fed k (feed_round output r.draws r.clock (taken r s)) s'
        → Fed (suc k) s s'
    Fed-suc k r s s' v p q rest =
        let s0 = taken r s in
        let s1 = feed_round output r.draws r.clock s0 in
        let v0 = consume-Valid output blank_tick out_fifo r.consumed s.output v in
        let (bounded, same, out) =
          feed_round_lem output out_fifo laws scale r.draws r.clock s0 v0 p q in
        let as_many = length-names s1.symbol_states s.symbol_states same in
        let n = length s.symbol_states in
        let longer : suc k * n ≡ n + k * n = grind arith in
        let fits : length out.new ≤ n = omega (arith, out.as_many) in
        record {
          valid = rest.valid;
          published_lt = rest.published_lt;
          dropped_lt = rest.dropped_lt;
          same_names = rest.same_names ∙ same;
          bounded = λ h. elim (zero-or-pos k) [
            | inl none_left ↦ rw (rest.still none_left) bounded
            | inr more ↦ rest.bounded more
          ];
          still = λ h. absurd (omega arith);
          counted = omega (
            arith,
            rest.counted,
            out.published,
            out.dropped,
            ap (λ (l : ℕ). k * l) as_many,
            longer,
            fits,
          );
        }

    run_loop_lem :
        (interval : ℕ) (rs : List (FeedRound D)) (next_tick : ℕ) (s : FeedSimulator D Out)
        → OutValid s.output
        → s.ticks_published < word
        → s.ticks_dropped < word
        → (keeps_pace interval next_tick rs ≡ true
            → (s' : FeedSimulator D Out) × (run_loop output interval rs next_tick s ≡ some s')
              × Fed (rounds_of rs) s s')
          × (keeps_pace interval next_tick rs ≡ false
              → run_loop output interval rs next_tick s ≡ none)
    unfolding run_loop
    run_loop_lem interval [] next_tick s v p q = (λ h. absurd (cc), λ _. refl)
    run_loop_lem interval (r ∷ rs) next_tick s v p q =
        let (meets, misses) = rate_control_lem r.first r.readings next_tick interval in
        let s1 = feed_round output r.draws r.clock (taken r s) in
        let deadline = next_tick + interval in
        elim (Bool-cases r.stop) [
          | inl now ↦ (λ h. (s, rw now, rw now (Fed-zero s v p q)), λ h. absurd (ground arith))
          | inr go ↦ elim (Bool-cases (reaches deadline r.readings)) [
            | inl met ↦
                let (slept, now, paced, late, how_far) = meets met in
                let (v1, p1, q1) = round_valid r s v p q in
                let (ends, waits) = run_loop_lem interval rs deadline s1 v1 p1 q1 in
                (
                  λ h.
                      let (s', e, fed) = ends (ground arith) in
                      (s', simp (go, paced) e, simp go (Fed-suc (rounds_of rs) r s s' v p q fed)),
                  λ h. simp (go, paced) (waits (ground arith)),
                )
            | inr missed ↦ (λ h. absurd (ground arith), λ h. simp (go, misses missed) refl)
          ]
        ]

    -- Without a rate or without symbols the thread ends at once and changes nothing. Otherwise it
    -- returns exactly if a stop comes and in every round before it the clock comes to the deadline, and
    -- the deadlines are 10^9 / rate nanoseconds (rounded down) apart, whatever the delays: the rate is
    -- that of the rounds, in each of which every symbol makes a tick. The thread has then counted every
    -- tick of every round once, as published or as dropped. The symbols keep their names, and after a
    -- round no mid price, spread or size compares as below its lower or as above its upper bound, which
    -- says nothing of one that is a NaN.
    pub run_paced :
        (c : FeedConfig D) (start : ℕ) (rs : List (FeedRound D)) (s : FeedSimulator D Out)
        → OutValid s.output
        → s.ticks_published < word
        → s.ticks_dropped < word
        → let idle = c.tick_rate_hz == 0 || length c.symbols == 0 in
          let paced = keeps_pace (10 ^ 9 / c.tick_rate_hz) start rs in
          (idle ≡ true → run output c start rs s ≡ some s)
          × (idle ≡ false
              → paced ≡ true
              → (s' : FeedSimulator D Out) × (run output c start rs s ≡ some s')
                × Fed (rounds_of rs) s s')
          × (idle ≡ false → paced ≡ false → run output c start rs s ≡ none)
    unfolding run
    run_paced c start rs s v p q =
        let (ends, waits) = run_loop_lem (10 ^ 9 / c.tick_rate_hz) rs start s v p q in
        (λ idle. rw idle, λ busy h. rw busy (ends h), λ busy h. rw busy (waits h))
