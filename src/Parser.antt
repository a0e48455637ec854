-- ===== src/Parser.antt =====
-- `MarketParser` of include/market_parser.hpp.
pub mod Numbers
pub mod Json
pub mod Levels
pub mod Messages
pub mod Sample
