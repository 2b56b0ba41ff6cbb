-- ===== src/Zeroparser/Parser.antt =====
-- rust/sdk/src/zeroparser/parser.rs: parsed messages, the merge of two messages and the parser.
-- `Message` has the data and the accessors, `Merge` `merge_from`, and `Parse` the parser.
pub mod Message
pub mod Merge
pub mod Parse
pub mod SlotsEnd
pub mod Termination
