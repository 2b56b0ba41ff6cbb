-- ===== src/ArrowStream/Acks.antt =====
-- rust/sdk/src/stream/arrow/acks.rs: what an acknowledgement does to the pending batches, and the
-- flag that a failed send raises.
use Prim.Native.String.{String, ◌++◌ as append}
use zerobus_sdk.Common.{
  ℕ, max, Bool, true, false, Option, none, some, List, [], ◌∷◌, if◌then◌else◌, ltb,
}
use zerobus_sdk.Common.Int.{ℤ, ltb_ℤ}
use zerobus_sdk.Common.Text.{to_string}
use zerobus_sdk.ArrowStream.{PendingBatch, ArrowStream, ZerobusResult, ok, err, keep_pending}
use zerobus_sdk.ArrowStream.Batch.{is_fully_acknowledged}
use zerobus_sdk.Errors.{ZerobusError, invalid_state_error}

-- `map_or(offset_id, |offset| offset.max(offset_id))`.
unfoldable pub max_offset : Option ℤ → ℤ → ℤ
max_offset none offset_id = offset_id
max_offset (some offset) offset_id = if ltb_ℤ offset offset_id then offset_id else offset

-- The closure of `retain`, over the pending batches: those kept, and `max_acked_offset`.
unfoldable pub retain_unacked :
    {RecordBatch : Type 0}
    → ℕ
    → List (PendingBatch RecordBatch)
    → Option ℤ
    → List (PendingBatch RecordBatch) × Option ℤ
unfolding is_fully_acknowledged max_offset
retain_unacked acked [] max_acked_offset = ([], max_acked_offset)
retain_unacked acked (b ∷ bs) max_acked_offset = elim (is_fully_acknowledged b acked) [
  | true ↦ retain_unacked acked bs (some (max_offset max_acked_offset b.offset_id))
  | false ↦ let (kept, greatest) = retain_unacked acked bs max_acked_offset in (b ∷ kept, greatest)
]

unfoldable pub claim : ℕ → ℕ → String
unfolding to_string
claim acked_records submitted_records = append "Acknowledgement claims " (
    append (to_string acked_records) (
      append " records, but only "
        (append (to_string submitted_records) " records were submitted")))

module _ {RecordBatch Status : Type 0} where
  -- What an acknowledgement that is accepted does. Without a completed batch the published offset
  -- stays.
  unfoldable pub acknowledge :
      ℕ
      → ArrowStream RecordBatch (ZerobusError Status)
      → ArrowStream RecordBatch (ZerobusError Status)
  unfolding keep_pending
  acknowledge acked_records s =
      let effective_acked_records = max s.last_acked_records acked_records in
      let (kept, max_acked_offset) =
        retain_unacked effective_acked_records s.pending_batches none in
      record (keep_pending kept s) {
        last_acked_records = effective_acked_records;
        last_ack = elim max_acked_offset [ none ↦ s.last_ack | some offset ↦ some offset ];
      }

  unfoldable pub apply :
      ℕ
      → ArrowStream RecordBatch (ZerobusError Status)
      → ZerobusResult (ZerobusError Status) Unit × ArrowStream RecordBatch (ZerobusError Status)
  unfolding claim
  apply acked_records s =
      if ltb s.submitted_records acked_records
      then (err (invalid_state_error (claim acked_records s.submitted_records)), s)
      else (ok tt, acknowledge acked_records s)

module _ {RecordBatch E : Type 0} where
  unfoldable pub report : ArrowStream RecordBatch E → ArrowStream RecordBatch E
  report s = record s { request_send_failure = true }

  unfoldable pub take_failure : ArrowStream RecordBatch E → Bool × ArrowStream RecordBatch E
  take_failure s = (s.request_send_failure, record s { request_send_failure = false })

  unfoldable pub clear : ArrowStream RecordBatch E → ArrowStream RecordBatch E
  clear s = record s { request_send_failure = false }

  unfoldable pub pause_and_detach_sender : ArrowStream RecordBatch E → ArrowStream RecordBatch E
  pause_and_detach_sender s = record s { is_paused = true; batch_tx = none }

  unfoldable pub pause_and_snapshot_submitted :
      ArrowStream RecordBatch E → ℕ × ArrowStream RecordBatch E
  pause_and_snapshot_submitted s = (s.submitted_records, record s { is_paused = true })
