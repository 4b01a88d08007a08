-- ===== src/Parser.antt =====
-- The parser of protocol and stack files (parser/): conversions of numbers, the YAML library's
-- interface, protocol files, the walk over a directory of them, the validator and the stack builder.
pub mod Number
pub mod Yaml
pub mod Protocol
pub mod Validator
pub mod Listing
pub mod StackBuilder
