-- ===== src/ArrowStream/Ingest.antt =====
-- rust/sdk/src/stream/arrow/mod.rs: `ingest_batch`. It waits for a permit after its first checks,
-- and for `ingest_mutex` after that: what is between the waits is a step, and the rest is one, which
-- an acknowledgement may interrupt only before the watermark of the new batch is published.
use zerobus_sdk.Common.{
  ℕ, zero, suc, ◌+◌, ◌-◌, Bool, true, false, not, ◌||◌, Option, none, some, List, [], ◌∷◌, ◌++◌,
  if◌then◌else◌, ◌==◌,
}
use zerobus_sdk.Common.Int.{ℤ, eq_ℤ}
use zerobus_sdk.OffsetGenerator.{next}
use zerobus_sdk.ArrowStream.{
  Arrow, PendingBatch, ArrowStream, ZerobusResult, ok, err, keep_pending, add_u64,
}
use zerobus_sdk.ArrowStream.Acks.{report}
use zerobus_sdk.Errors.{Tonic, ZerobusError, stream_closed_error, invalid_argument}
use Prim.Native.String.{String}

abbrev pub is_closing : {RecordBatch E : Type 0} → ArrowStream RecordBatch E → Bool
is_closing s = s.is_closed || s.close_teardown_started

-- `pending.retain(|p| p.offset_id() != offset_id)`.
unfoldable pub without_offset :
    {RecordBatch : Type 0} → ℤ → List (PendingBatch RecordBatch) → List (PendingBatch RecordBatch)
without_offset offset_id [] = []
without_offset offset_id (b ∷ bs) =
    let rest = without_offset offset_id bs in if eq_ℤ b.offset_id offset_id then rest else b ∷ rest

module _ (tonic : Tonic) where
  -- The error of a call that a closing stream refuses, and of one whose connection is gone.
  abbrev pub closing_error : ZerobusError tonic.Status
  closing_error = stream_closed_error (tonic.internal "Stream is closing or closed")

  abbrev pub known_error : Option (ZerobusError tonic.Status) → String → ZerobusError tonic.Status
  known_error none message = stream_closed_error (tonic.internal message)
  known_error (some error) message = error

module _ (tonic : Tonic) (arrow : Arrow) where
  -- The checks before the wait for a permit. `mismatch` is the text for a schema that differs.
  unfoldable pub admit :
      arrow.Schema
      → String
      → arrow.RecordBatch
      → ArrowStream arrow.RecordBatch (ZerobusError tonic.Status)
      → ZerobusResult (ZerobusError tonic.Status) Unit
  admit schema mismatch batch s =
      if is_closing s
      then err (closing_error tonic)
      else if not (arrow.same_schema (arrow.schema batch) schema)
      then err (invalid_argument mismatch)
      else if arrow.num_rows batch == 0
      then err (invalid_argument "Cannot ingest an empty RecordBatch (zero rows)")
      else ok tt

  -- `acquire_owned`: none while no permit is free, and the call waits.
  unfoldable pub acquire :
      ArrowStream arrow.RecordBatch (ZerobusError tonic.Status)
      → Option (ArrowStream arrow.RecordBatch (ZerobusError tonic.Status))
  acquire s = elim s.inflight [
    | zero ↦ none
    | suc n ↦ some (record s { inflight = n; acquired = s.acquired + 1 })
  ]

  -- An offset and a range for the batch, which becomes pending with the permit.
  unfoldable pub assign :
      ℕ
      → arrow.RecordBatch
      → ArrowStream arrow.RecordBatch (ZerobusError tonic.Status)
      → PendingBatch arrow.RecordBatch × ArrowStream arrow.RecordBatch (ZerobusError tonic.Status)
  unfolding add_u64 next
  assign now batch s =
      let (offset_id, generator) = next s.offset_generator in
      let end_record = add_u64 s.cumulative_records_assigned (arrow.num_rows batch) in
      let added : PendingBatch arrow.RecordBatch = record {
        batch = batch;
        offset_id = offset_id;
        start_record = s.cumulative_records_assigned;
        end_record = end_record;
        enqueued_at = now;
      } in
      (
        added,
        record s {
          offset_generator = generator;
          cumulative_records_assigned = end_record;
          pending_batches = s.pending_batches ++ added ∷ [];
          acquired = s.acquired - 1;
        },
      )

  -- From the new pending batch to the end of the call. `late` is the error that is known once the
  -- call has waited for the server's: the wait is bounded, so it may be none.
  unfoldable pub hand_over :
      Bool
      → Option (ZerobusError tonic.Status)
      → PendingBatch arrow.RecordBatch
      → ArrowStream arrow.RecordBatch (ZerobusError tonic.Status)
      → ZerobusResult (ZerobusError tonic.Status) ℤ
        × ArrowStream arrow.RecordBatch (ZerobusError tonic.Status)
  unfolding report keep_pending without_offset
  hand_over recovery late added s =
      if s.is_paused then (ok added.offset_id, s) else elim s.batch_tx [
        | none ↦ (err (known_error tonic s.server_error "Stream sender is closed"), s)
        | some true ↦ (ok added.offset_id, record s { submitted_records = added.end_record })
        | some false ↦ if recovery then (ok added.offset_id, report s) else (
          err (known_error tonic late "Failed to send batch"),
          keep_pending (without_offset added.offset_id s.pending_batches) s,
        )
      ]

  -- The rest of the call, which has a permit, under `ingest_mutex`.
  unfoldable pub ingest_locked :
      Bool
      → Option (ZerobusError tonic.Status)
      → ℕ
      → arrow.RecordBatch
      → ArrowStream arrow.RecordBatch (ZerobusError tonic.Status)
      → ZerobusResult (ZerobusError tonic.Status) ℤ
        × ArrowStream arrow.RecordBatch (ZerobusError tonic.Status)
  unfolding assign hand_over
  ingest_locked recovery late now batch s =
      let (added, t) = assign now batch s in
      if is_closing s
      then (
        err (closing_error tonic),
        record s { acquired = s.acquired - 1; inflight = s.inflight + 1 },
      )
      else hand_over recovery late added t
