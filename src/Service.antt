-- ===== src/Service.antt =====
-- The program of src/tools/processor_main.cpp: its configuration from the environment, the order in
-- which it starts and stops the stages, and the signals that end it. The environment variables and the
-- signals are parameters; log lines are left out.
pub mod Symbols
pub mod Order
mod Tests
use market_data_processor.Prelude.{
  ℕ, zero, suc, Bool, true, false, ◌||◌, Option, none, some, List, [], ◌∷◌, ◌++◌, map, length,
  replicate, ◌==◌, if◌then◌else◌,
}
use market_data_processor.Double.{Double, zero_lit}
use market_data_processor.Feed.{FeedConfig, default_config}

-- `std::getline(stream, item, ',')` on a stream with the characters left: the item, and what is left.
unfoldable pub getline : List ℕ → List ℕ × List ℕ
getline [] = ([], [])
getline (c ∷ cs) = let (item, rest) = getline cs in if c == 44 then ([], cs) else (c ∷ item, rest)

-- The loop of `split_symbols`, on fuel: it ends where `getline` finds no character.
unfoldable pub split_loop : ℕ → List ℕ → Option (List (List ℕ))
unfolding getline
split_loop zero s = none
split_loop (suc fuel) [] = some []
split_loop (suc fuel) (c ∷ cs) =
    let (item, rest) = getline (c ∷ cs) in
    elim (split_loop fuel rest) [
      | none ↦ none
      | some others ↦ some (elim item [ [] ↦ others | x ∷ xs ↦ (x ∷ xs) ∷ others ])
    ]

unfoldable pub split_symbols : List ℕ → Option (List (List ℕ))
unfolding split_loop
split_symbols s = split_loop (suc (length s)) s

-- The stages of the pipeline.
pub data Stage : Type 0 where
  reader parser norm book db_writer signal_engine signal_db_writer : Stage

-- Which stage pushes into a ring buffer that the other pops from, as they are constructed.
unfoldable pub feeds : Stage → Stage → Bool
feeds reader parser = true
feeds parser norm = true
feeds norm book = true
feeds book db_writer = true
feeds book signal_engine = true
feeds signal_engine signal_db_writer = true
feeds a b = false

abbrev pub start_order : List Stage
start_order = db_writer ∷ signal_db_writer ∷ signal_engine ∷ book ∷ norm ∷ parser ∷ reader ∷ []

abbrev pub stop_order : List Stage
stop_order = reader ∷ parser ∷ norm ∷ book ∷ db_writer ∷ signal_db_writer ∷ signal_engine ∷ []

pub data Event : Type 0 where
  starts stops : Stage → Event

-- `signal_handler`: the flag after a signal. SIGINT is 2, and SIGTERM is 15.
unfoldable pub signal_handler : ℕ → Bool → Bool
signal_handler signal running = if signal == 2 || signal == 15 then false else running

-- The signals that come during one sleep of 100 ms.
unfoldable pub handle_all : List ℕ → Bool → Bool
unfolding signal_handler
handle_all [] running = running
handle_all (s ∷ ss) running = handle_all ss (signal_handler s running)

-- The loop that waits, over the signals of its rounds: whether it ends.
unfoldable pub wait_loop : List (List ℕ) → Bool → Bool
unfolding handle_all
wait_loop rounds false = true
wait_loop [] true = false
wait_loop (ss ∷ rounds) true = wait_loop rounds (handle_all ss true)

module _ {D : Type 0} ⦃d : Double D⦄ where
  -- The feed's configuration.
  unfoldable pub service_config : List (List ℕ) → FeedConfig D
  unfolding default_config
  service_config symbols = record default_config {
    symbols = symbols;
    initial_prices = replicate (length symbols) zero_lit;
    tick_rate_hz = 1;
  }

  -- The test of the list of symbols; `none` is a return of 1.
  unfoldable pub accept : Option (List (List ℕ)) → Option (FeedConfig D)
  unfolding service_config
  accept none = none
  accept (some []) = none
  accept (some (x ∷ xs)) = some (service_config (x ∷ xs))

  -- Everything before the stages are built, on what the two variables hold.
  unfoldable pub configure : Option (List ℕ) → Option (List ℕ) → Option (FeedConfig D)
  unfolding accept
  configure none symbols = none
  configure (some conn) none = none
  configure (some conn) (some symbols) = accept (split_symbols symbols)

-- `main`: the exit code and what it does to the stages. `none` is a program that still waits when the
-- given rounds are over.
unfoldable pub main : {D : Type 0} → Option (FeedConfig D) → List (List ℕ) → Option (ℕ × List Event)
unfolding wait_loop
main none rounds = some (1, [])
main (some config) rounds =
    if wait_loop rounds true then some (0, map starts start_order ++ map stops stop_order) else none
