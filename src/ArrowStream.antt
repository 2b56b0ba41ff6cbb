-- ===== src/ArrowStream.antt =====
-- rust/sdk/src/stream/arrow: the Arrow Flight stream. What its tasks share, as one state: each
-- operation of the child modules is the code between two points where another task may run.
pub mod Batch
pub mod Acks
pub mod Ingest
pub mod Recovery
pub mod Rows
pub mod Ranges
pub mod Retain
pub mod Replay
pub mod Valid
pub mod Admits
pub mod Recovers
pub mod Close
pub mod Steps
pub mod Owed
pub mod Retrieval
pub mod Rotation
pub mod Drain
pub mod Process
pub mod Supervise
pub mod Kept
pub mod Ends
pub mod Losses
pub mod Reconnects
pub mod Supervised
pub mod GivesUp
mod Runs
use Prim.Native.String.{String}
use zerobus_sdk.Common.{
  ℕ, ◌+◌, ◌-◌, ◌%◌, ◌^◌, ◌≤◌, ◌≡◌, Bool, true, false, Option, none, some, List, [], length, take,
  drop, if◌then◌else◌, ltb, leb,
}
use zerobus_sdk.Common.Int.{ℤ}
use zerobus_sdk.OffsetGenerator.{OffsetIdGenerator, default}

-- What the stream uses of the `arrow` crates: a batch has rows and a schema, `num_rows` counts the
-- rows, and `slice offset length` is defined inside the batch, where it takes these rows.
pub record Arrow : Type 1 where
  pub RecordBatch : Type 0
  pub Row : Type 0
  pub Schema : Type 0
  pub rows : RecordBatch → List Row
  pub num_rows : RecordBatch → ℕ
  pub num_rows_lem : (b : RecordBatch) → num_rows b ≡ length (rows b)
  pub slice : RecordBatch → ℕ → ℕ → RecordBatch
  pub rows-slice :
      (b : RecordBatch) (offset len : ℕ)
      → offset + len ≤ num_rows b
      → rows (slice b offset len) ≡ take len (drop offset (rows b))
  pub schema : RecordBatch → Schema
  pub same_schema : Schema → Schema → Bool

-- A batch holds a permit of the semaphore `inflight`, which comes back when it is dropped.
pub record PendingBatch (RecordBatch : Type 0) : Type 0 where
  pub batch : RecordBatch
  pub offset_id : ℤ
  pub start_record : ℕ
  pub end_record : ℕ
  pub enqueued_at : ℕ

-- `acquired` counts the permits that calls of `ingest_batch` have and no batch holds yet.
-- `batch_tx` is the sender: none when it is detached, otherwise whether its channel is open.
-- `request_send_failure` is the flag of that name, `supervised` whether `receiver_task` is set.
pub record ArrowStream (RecordBatch E : Type 0) : Type 0 where
  pub pending_batches : List (PendingBatch RecordBatch)
  pub failed_batches : List RecordBatch
  pub offset_generator : OffsetIdGenerator
  pub cumulative_records_assigned : ℕ
  pub submitted_records : ℕ
  pub last_acked_records : ℕ
  pub inflight : ℕ
  pub acquired : ℕ
  pub last_ack : Option ℤ
  pub server_error : Option E
  pub batch_tx : Option Bool
  pub is_paused : Bool
  pub is_closed : Bool
  pub close_teardown_started : Bool
  pub close_flush_error : Option E
  pub request_send_failure : Bool
  pub supervised : Bool

-- The stream once its first connection is open.
unfoldable pub new_stream : {RecordBatch E : Type 0} → ℕ → ArrowStream RecordBatch E
unfolding default
new_stream max_inflight_batches = record {
  pending_batches = [];
  failed_batches = [];
  offset_generator = default;
  cumulative_records_assigned = 0;
  submitted_records = 0;
  last_acked_records = 0;
  inflight = max_inflight_batches;
  acquired = 0;
  last_ack = none;
  server_error = none;
  batch_tx = some true;
  is_paused = false;
  is_closed = false;
  close_teardown_started = false;
  close_flush_error = none;
  request_send_failure = false;
  supervised = true;
}

-- The batches left pending: the permits of those that are dropped come back.
unfoldable pub keep_pending :
    {RecordBatch E : Type 0}
    → List (PendingBatch RecordBatch)
    → ArrowStream RecordBatch E
    → ArrowStream RecordBatch E
keep_pending kept s = record s {
  pending_batches = kept;
  inflight = s.inflight + (length s.pending_batches - length kept);
}

pub data ZerobusResult (E A : Type 0) : Type 0 where
  ok : A → ZerobusResult E A
  err : E → ZerobusResult E A

-- `+` and `fetch_add` on a u64, with the wrap-around of a release build.
unfoldable pub add_u64 : ℕ → ℕ → ℕ
add_u64 a b = (a + b) % 2 ^ 64
