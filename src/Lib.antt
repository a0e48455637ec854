-- ===== src/Lib.antt =====
-- A verification library for the prediction market engine: the path of a quote from the websocket
-- to the order book, the position and the log file.
--
-- The program (C++, header files under include/, two translation units and main under src/) reads
-- market messages from a websocket, parses them into ticks, and hands the ticks through a single-
-- producer single-consumer queue to a strategy thread, which keeps a limit order book, asks two
-- alphas for scores, trades on paper and logs. The parts, and the files that model them:
--
--   Queue, Queue/*    include/spsc_queue.hpp: `SpscQueue`. `push`, `pop`, the constructor (`empty`) and
--                     the destructor (`destroy`) are one function each. A slot of the raw storage is
--                     `none` where no object lives. The indices are 64-bit words and wrap.
--   Queue/Threads     `push` and `pop` again, as a relation of the two threads' steps: each load and
--                     store of an index and each access to a slot is a step, and an acquire load gives
--                     any value of the other index from the last one seen to the current one.
--   Book, Book/*      include/order_book.hpp: `MarketTick` and `LimitOrderBook`, all operations.
--   Parser/Numbers    include/market_parser.hpp: `parse_u32`, `parse_size_u32`, `parse_price_cents`,
--                     `in_price_range`, with `uint32_t` arithmetic reduced modulo 2 ^ 32 where the
--                     source's wraps. A text is a list of bytes.
--   Parser/Levels     the bodies of the three level loops of `parse_levels`, `parse_object_levels` and
--                     `parse_price_change`.
--   Parser/Messages   `parse_tick`, `parse_message_object` and the loops, with the queue passed along.
--   Parser/Json       what the parser relies on of simdjson, which is not part of the repository: a
--                     record of types and calls that the parser's functions take as a parameter.
--   Positions, ...    include/position_manager.hpp: `PositionManager`. An `int` that overflows makes a call
--                     `none`; `double` is a record of operations (Base/Double) that the definitions take
--                     as a parameter. The theorem on profits has the laws of sums and products without
--                     rounding as its hypothesis, the one on scores the bounds that rounding
--                     keeps (Base/Double/Bounds); the others ask nothing of the arithmetic.
--   Cli, Cli/*        src/main.cpp: `parse_strategy_selection`, `strategy_name` and the positional
--                     arguments of `main`.
--   Alphas, Alphas/*  include/alpha_base.hpp, include/momentum_alpha.hpp, include/ofi_alpha.hpp: the two
--                     alphas and `update` through the interface.
--   Logger, Logger/*  include/async_logger.hpp: `log_event`, `log_active_strategy` and the worker thread. A
--                     run is a sequence of moves: a call logs an event, or the worker makes a round of its
--                     loop. The clock is an input of a round, the printing of numbers a parameter.
--   Engine, Engine/*  include/strategy_engine.hpp, src/strategy_engine.cpp, include/engine_config.hpp:
--                     `StrategyEngine`. The objects it refers to (queue, book, positions, log queue) are
--                     fields of its state. `run` is given the number of rounds before its loop finds
--                     `running_` false; the results of `now_us` are a parameter.
--   Client, Client/*  include/websocket_client.hpp, src/websocket_client.cpp: `WebSocketClient` as the chain
--                     of its completion handlers, with `close` beside it. What Boost and OpenSSL report to
--                     a handler (an error, the bytes of a read) is its input. Client/Feed specifies what
--                     the client puts into the queue.
--   Main, Main/*      src/main.cpp: `main`. Its threads are a sequence of moves, each a handler of the
--                     client, a round of the engine or a round of the logger, in any order; the objects
--                     that they share are passed from one to the other. Main/Market is the specification:
--                     a bounded list of ticks between the messages and a book.
--
-- The parser writes into the queue with `push` of Queue, so that a tick that finds the queue full
-- is dropped, as in the source; the ticks that arrive are those that Book's `apply_tick` takes.
--
-- simdjson's On-Demand values are read as values: a call gives the same answer whenever it is made.
-- An exception that leaves a `noexcept` function is an outcome of its own, `terminated`. Outside
-- Queue/Threads, `push` and `pop` are whole steps. The memory model is taken to be what
-- Queue/Threads says of an acquire load, and a slot's contents to be what the other thread's
-- release store published. The loops that run on fuel are the destructor's and the logger's after
-- the stop; one round more than there are items is enough for both. Loops of the source over a
-- text, an array or the price grid are structural recursion.
--
-- Not modelled: the timeouts and the options of the websocket stream, the signal handlers and the
-- pinning of threads, which are calls of libraries and of the operating system; the Python tools,
-- the build files and the documents.
pub mod Base
pub mod Queue
pub mod Book
pub mod Parser
pub mod Positions
pub mod Alphas
pub mod Logger
pub mod Engine
pub mod Client
pub mod Cli
pub mod Main
mod Tests
