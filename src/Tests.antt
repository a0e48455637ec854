-- ===== src/Tests.antt =====
-- The tests of tests/test_main.cpp, and the theorems at concrete inputs.
mod Queue
mod Book
mod Parser
mod Cents
mod CentsBounds
mod Positions
mod Threads
mod Cli
mod Alphas
mod Logger
mod Engine
mod Client
mod Main
