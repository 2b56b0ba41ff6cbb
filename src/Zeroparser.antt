-- ===== src/Zeroparser.antt =====
-- rust/sdk/src/zeroparser: the parser of protobuf messages, a module for each of its files.
pub mod Errors
pub mod Wire
pub mod Types
pub mod SparseFieldMap
pub mod Registry
pub mod Parser
mod Runs
