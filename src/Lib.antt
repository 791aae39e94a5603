-- ===== src/Lib.antt =====
-- The pipeline of the market data processor: threads that are linked by single-producer,
-- single-consumer ring buffers. A feed pushes ticks to the parser, which checks and cleans them; the
-- normalizer drops repetitions and late ticks; the book processor turns ticks into updates of one
-- order book per symbol and publishes snapshots for the database and for the trading signals.
--
-- Files (paths are from the repository's root):
--   Prelude, Prelude/*   lists over native numbers, int64_t and uint64_t conversions, bit masks,
--                        std::unordered_map as an association list
--   Double, Double/*     the C++ double as an instance: its operations are parameters, and the laws
--                        of IEEE 754 comparisons are hypotheses; Double/Fixed is a type that has them
--   Channel              what a ring buffer promises its users: the contract of a bounded FIFO
--   Ring, Ring/*         src/core/include/core/RingBuffer.hpp. try_push, try_pop, empty, full and size
--                        on counters that wrap at 2^64, for any power of two up to 2^63; Ring/Refines
--                        relates it to Channel; Ring/Spsc has the two threads, one access at a time
--   Tick, Tick/*         src/core/include/core/MarketTick.hpp and MarketSnapshot.hpp
--   Stage, Stage/*       what the stages share: the wait for room in the output, and the rounds of
--                        their loops with what the other threads do in between
--   Parser, Parser/*     src/processing/src/TickParser.cpp: validate, enrich, process_tick, drain_input,
--                        run
--   Normalizer, ...      src/processing/src/Normalizer.cpp: is_duplicate, is_reordered, update_state,
--                        process_tick, drain_input, run; Normalizer/History says what they promise
--   Levels, Levels/*     std::map<double, uint64_t>, one side of a book
--   Book, Book/*         src/book/src/OrderBook.cpp and the types of src/book/include/book
--   Processor, ...       src/book/src/BookProcessor.cpp: determine_side, tick_to_delta, process_tick, run
--   Signal, Signal/*     src/strategy/src/SignalEngine.cpp: the average per symbol, the trading rule, run
--   Writer, Writer/*     src/infra/src/DbWriter.cpp and SignalDbWriter.cpp: process_queue, flush_to_db,
--                        run
--   Thread, Thread/*     src/core/include/core/ThreadBase.hpp: start, stop, and the thread around run
--   Feed, Feed/*         src/feed/include/feed/FeedConfig.hpp and src/feed/src/FeedSimulator.cpp: is_valid,
--                        the random walk of a symbol, rate_control and run
--   Reader, Reader/*     src/feed/src/PostgresFeedReader.cpp: interruptible_sleep, poll_symbol, run
--   Metrics, Metrics/*   src/infra/include/infra/MetricsCollector.hpp, and the checks of
--                        src/tools/health_check.cpp
--   Pipeline, ...        the stages of src/tools/health_check.cpp side by side on shared buffers
--   Service, Service/*   src/tools/processor_main.cpp: split_symbols, the configuration, main
--   Samples, Tests, ...  concrete runs, and the theorems at concrete inputs
--
-- State and time. An object is a record of its members, and an operation takes and returns it. A
-- stage uses its buffers through the contract of Channel only, so its theorems hold for the ring
-- buffer. The other threads are explicit: a Turn says whether a stop has been requested and how many
-- elements the consumer takes, a Round what arrives in between. A loop over the given turns or rounds
-- answers none when they run out, and theorems say when it returns. The drain loops run on fuel;
-- fuel above the capacity of the input is enough, since nothing arrives during a drain.
--
-- In Pipeline one step is one access of one stage to what the stages share, and the steps interleave in
-- any order. The theorems on its counters ask for fewer than 2^64 steps, so that no counter wraps.
-- Pipeline/Log is a record of the run that the code does not keep, for the theorems. The database is a
-- parameter: what its table holds at each query, and which calls throw. The theorems that a thread ends
-- take a sequence of rounds in which a stop comes, and let everything else fail in any round.
-- Thread has the threads of ThreadBase without what their run does: there run tests the stop as long as it
-- goes on, ends once it has seen one, and may end before.
--
-- Not modelled: the memory order of the atomics (the two threads of Ring/Spsc interleave single
-- accesses in one order), the log lines, the rendering of numbers as text, of metrics as JSON and of
-- the console report, the conversion of a double out of range (undefined in C++; a parameter here),
-- and the logger.
pub mod Prelude
pub mod Double
pub mod Channel
pub mod Ring
pub mod Stage
pub mod Tick
mod Samples
pub mod Parser
pub mod Normalizer
pub mod Levels
pub mod Book
pub mod Processor
pub mod Signal
pub mod Writer
pub mod Reader
pub mod Metrics
pub mod Pipeline
pub mod Service
pub mod Thread
pub mod Feed
