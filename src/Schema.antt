-- ===== src/Schema.antt =====
-- rust/sdk/src/schema.rs: the schema of a table as a protobuf descriptor, and as an Arrow schema.
pub mod Types
pub mod Names
pub mod TypeJson
pub mod FieldTypes
pub mod Descriptor
pub mod DataTypes
pub mod ArrowFields
pub mod Identifiers
pub mod Unique
pub mod Scopes
pub mod Collected
pub mod Messages
pub mod WellFormed
pub mod Supported
pub mod Accepts
pub mod Columns
pub mod Numbers
pub mod Depth
mod Runs
