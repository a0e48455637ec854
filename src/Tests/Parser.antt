-- ===== src/Tests/Parser.antt =====
-- `MarketParserTest`, and the theorems on `MarketParser` at concrete texts and messages.
pub mod Numbers
pub mod Messages
