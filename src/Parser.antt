-- ===== src/Parser.antt =====
-- The protocol parser: field definitions, extracted values, results, the parser and its registry.
pub mod Field
pub mod Value
pub mod ParseResult
pub mod ProtocolParser
pub mod Registry
mod Tests
