-- ===== src/GrpcStream.antt =====
-- rust/sdk/src/stream/grpc: the tasks of a stream and the state that they share. An operation
-- that takes several locks one after the other is split where another task may run in between.
pub mod State
pub mod Receiver
pub mod Supervisor
pub mod Outcomes
pub mod History
pub mod Failure
pub mod Acks
mod Runs
