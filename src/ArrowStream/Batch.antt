-- ===== src/ArrowStream/Batch.antt =====
-- rust/sdk/src/stream/arrow/batch.rs, and `configured_deadline` of mod.rs. An `Instant` is a count
-- of milliseconds, and `last_instant` the greatest that the platform's clock has.
use Prim.Native.String.{String}
use zerobus_sdk.Common.{
  ℕ, ◌+◌, ◌-◌, min, Option, none, some, List, [], ◌∷◌, if◌then◌else◌, ltb, leb, ◌==◌, Bool, true,
  false, map,
}
use zerobus_sdk.Common.Int.{ℤ}
use zerobus_sdk.ArrowStream.{Arrow, PendingBatch, ZerobusResult, ok, err, add_u64}
use zerobus_sdk.Errors.{ZerobusError, invalid_argument}

-- `Instant::checked_add`.
unfoldable pub checked_add : ℕ → ℕ → ℕ → Option ℕ
checked_add last_instant started_at delay =
    if leb (started_at + delay) last_instant then some (started_at + delay) else none

-- The argument `timeout_text` is the text of the option's name and value.
unfoldable pub configured_deadline :
    {Status : Type 0} → ℕ → ℕ → ℕ → String → ZerobusResult (ZerobusError Status) ℕ
unfolding checked_add
configured_deadline last_instant started_at timeout timeout_text =
    elim (checked_add last_instant started_at timeout) [
      | some deadline ↦ ok deadline
      | none ↦ err (invalid_argument timeout_text)
    ]

module _ {RecordBatch : Type 0} where
  unfoldable pub is_fully_acknowledged : PendingBatch RecordBatch → ℕ → Bool
  is_fully_acknowledged b acked_records = leb b.end_record acked_records

  unfoldable pub identity : PendingBatch RecordBatch → ℤ × ℕ × ℕ
  identity b = (b.offset_id, b.start_record, b.end_record)

  unfoldable pub find_submitted :
      ℕ → List (PendingBatch RecordBatch) → Option (PendingBatch RecordBatch)
  find_submitted submitted_records [] = none
  find_submitted submitted_records (b ∷ bs) = elim (ltb b.start_record submitted_records) [
    | true ↦ some b
    | false ↦ find_submitted submitted_records bs
  ]

  unfoldable pub oldest_pending_ack_deadline :
      {Status : Type 0}
      → ℕ
      → ℕ
      → String
      → List (PendingBatch RecordBatch)
      → ℕ
      → ZerobusResult (ZerobusError Status) (Option ((ℤ × ℕ × ℕ) × ℕ))
  unfolding find_submitted configured_deadline identity
  oldest_pending_ack_deadline last_instant ack_timeout timeout_text pending submitted_records =
      elim (find_submitted submitted_records pending) [
        | none ↦ ok none
        | some b ↦ elim (configured_deadline last_instant b.enqueued_at ack_timeout timeout_text) [
          | ok deadline ↦ ok (some (identity b, deadline))
          | err e ↦ err e
        ]
      ]

  unfoldable pub refresh_pending_ack_deadlines :
      ℕ → List (PendingBatch RecordBatch) → List (PendingBatch RecordBatch)
  refresh_pending_ack_deadlines now =
      map (λ (b : PendingBatch RecordBatch). record b { enqueued_at = now })

module _ (arrow : Arrow) where
  unfoldable pub unacknowledged_suffix :
      PendingBatch arrow.RecordBatch → ℕ → Option arrow.RecordBatch
  unacknowledged_suffix b acked_before_disconnect =
      let num_rows = arrow.num_rows b.batch in
      let already_acked = min (acked_before_disconnect - b.start_record) num_rows in
      let remaining_rows = num_rows - already_acked in
      if leb acked_before_disconnect b.start_record
      then some b.batch
      else if remaining_rows == 0
      then none
      else some (arrow.slice b.batch already_acked remaining_rows)

  -- The loop: the batches kept with their new ranges, those to send again, and the count.
  unfoldable pub rebuild_loop :
      ℕ
      → ℕ
      → List (PendingBatch arrow.RecordBatch)
      → List (PendingBatch arrow.RecordBatch) × List arrow.RecordBatch × ℕ
  rebuild_loop acked cumulative_records [] = ([], [], cumulative_records)
  rebuild_loop acked cumulative_records (b ∷ bs) = elim (unacknowledged_suffix b acked) [
    | none ↦ rebuild_loop acked cumulative_records bs
    | some batch ↦
        let end_record = add_u64 cumulative_records (arrow.num_rows batch) in
        let (rebuilt, replay, total) = rebuild_loop acked end_record bs in
        (
          record b { batch = batch; start_record = cumulative_records; end_record = end_record }
              ∷ rebuilt,
          batch ∷ replay,
          total,
        )
  ]

  unfoldable pub rebuild_pending_for_replay :
      List (PendingBatch arrow.RecordBatch)
      → ℕ
      → List (PendingBatch arrow.RecordBatch) × List arrow.RecordBatch × ℕ
  unfolding rebuild_loop
  rebuild_pending_for_replay pending acked_before_disconnect =
      rebuild_loop acked_before_disconnect 0 pending
