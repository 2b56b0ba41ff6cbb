-- ===== src/ArrowStream/Recovery.antt =====
-- rust/sdk/src/stream/arrow/supervisor.rs: replay onto a new connection and finalization, and the
-- retrieval of mod.rs.
use zerobus_sdk.Common.{
  ℕ, zero, suc, true, false, not, none, some, List, [], ◌∷◌, ◌++◌, if◌then◌else◌,
}
use zerobus_sdk.ArrowStream.{
  Arrow, PendingBatch, ArrowStream, ZerobusResult, ok, err, keep_pending, add_u64,
}
use zerobus_sdk.ArrowStream.Batch.{
  unacknowledged_suffix, rebuild_pending_for_replay, refresh_pending_ack_deadlines,
}
use zerobus_sdk.Errors.{Tonic, ZerobusError, stream_closed_error, invalid_state_error}

module _ (arrow : Arrow) where
  -- The loop of `move_pending_to_failed`: what it appends.
  unfoldable pub unacked_suffixes :
      ℕ → List (PendingBatch arrow.RecordBatch) → List arrow.RecordBatch
  unfolding unacknowledged_suffix
  unacked_suffixes acked [] = []
  unacked_suffixes acked (b ∷ bs) =
      let rest = unacked_suffixes acked bs in
      elim (unacknowledged_suffix arrow b acked) [ none ↦ rest | some batch ↦ batch ∷ rest ]

module _ (tonic : Tonic) (arrow : Arrow) where
  -- The batches rebuilt and the counters reset, under the lock of `pending_batches`.
  unfoldable pub install_replay :
      ℕ
      → ArrowStream arrow.RecordBatch (ZerobusError tonic.Status)
      → List arrow.RecordBatch × ArrowStream arrow.RecordBatch (ZerobusError tonic.Status)
  unfolding rebuild_pending_for_replay keep_pending
  install_replay acked_before_disconnect s =
      let (rebuilt, replay, new_cumulative) =
        rebuild_pending_for_replay arrow s.pending_batches acked_before_disconnect in
      (
        replay,
        record (keep_pending rebuilt s) {
          cumulative_records_assigned = new_cumulative;
          submitted_records = 0;
          last_acked_records = 0;
        },
      )

  -- The sends. The channel takes `open_for` batches before it closes. Beside the result are the
  -- batches sent.
  unfoldable pub replay_sends :
      ℕ
      → List arrow.RecordBatch
      → ArrowStream arrow.RecordBatch (ZerobusError tonic.Status)
      → ZerobusResult (ZerobusError tonic.Status) Unit
        × List arrow.RecordBatch
        × ArrowStream arrow.RecordBatch (ZerobusError tonic.Status)
  unfolding add_u64
  replay_sends open_for [] s = (ok tt, [], s)
  replay_sends zero (batch ∷ batches) s =
      (err (stream_closed_error (tonic.internal "Failed to replay batch during recovery")), [], s)
  replay_sends (suc open_for) (batch ∷ batches) s =
      let (result, sent, t) =
        replay_sends open_for batches
          (record s { submitted_records = add_u64 s.submitted_records (arrow.num_rows batch) }) in
      (result, batch ∷ sent, t)

  unfoldable pub replay_pending_batches :
      ℕ
      → ℕ
      → ArrowStream arrow.RecordBatch (ZerobusError tonic.Status)
      → ZerobusResult (ZerobusError tonic.Status) Unit
        × List arrow.RecordBatch
        × ArrowStream arrow.RecordBatch (ZerobusError tonic.Status)
  unfolding install_replay replay_sends
  replay_pending_batches open_for acked_before_disconnect s =
      let (replay, t) = install_replay acked_before_disconnect s in replay_sends open_for replay t

  unfoldable pub commit_reconnect_after_replay :
      ZerobusResult (ZerobusError tonic.Status) Unit
      → ArrowStream arrow.RecordBatch (ZerobusError tonic.Status)
      → ZerobusResult (ZerobusError tonic.Status) Unit
        × ArrowStream arrow.RecordBatch (ZerobusError tonic.Status)
  commit_reconnect_after_replay (err e) s = (err e, s)
  commit_reconnect_after_replay (ok _) s =
      (ok tt, record s { batch_tx = some true; is_paused = false })

  -- The end of `reconnect`, from the result of the replay.
  unfoldable pub resume :
      ℕ
      → ZerobusResult (ZerobusError tonic.Status) Unit
      → ArrowStream arrow.RecordBatch (ZerobusError tonic.Status)
      → ZerobusResult (ZerobusError tonic.Status) Unit
        × ArrowStream arrow.RecordBatch (ZerobusError tonic.Status)
  unfolding commit_reconnect_after_replay refresh_pending_ack_deadlines
  resume now replayed t =
      let (committed, u) = commit_reconnect_after_replay replayed t in
      elim committed [
        | err e ↦ (err e, u)
        | ok _ ↦ (
          ok tt,
          record u { pending_batches = refresh_pending_ack_deadlines now u.pending_batches },
        )
      ]

  -- `reconnect` once the connection is open, with the batches sent on it.
  unfoldable pub reconnect :
      ℕ
      → ℕ
      → ArrowStream arrow.RecordBatch (ZerobusError tonic.Status)
      → ZerobusResult (ZerobusError tonic.Status) Unit
        × List arrow.RecordBatch
        × ArrowStream arrow.RecordBatch (ZerobusError tonic.Status)
  unfolding replay_pending_batches resume
  reconnect now open_for s =
      let (replayed, sent, t) = replay_pending_batches open_for s.last_acked_records s in
      let (result, u) = resume now replayed t in (result, sent, u)

  unfoldable pub move_pending_to_failed :
      ArrowStream arrow.RecordBatch (ZerobusError tonic.Status)
      → ArrowStream arrow.RecordBatch (ZerobusError tonic.Status)
  unfolding unacked_suffixes keep_pending
  move_pending_to_failed s = record (keep_pending [] s) {
    failed_batches =
        s.failed_batches ++ unacked_suffixes arrow s.last_acked_records s.pending_batches;
  }

  unfoldable pub finalize_closed :
      ArrowStream arrow.RecordBatch (ZerobusError tonic.Status)
      → ArrowStream arrow.RecordBatch (ZerobusError tonic.Status)
  unfolding move_pending_to_failed
  finalize_closed s = move_pending_to_failed (record s { is_closed = true })

  unfoldable pub get_unacked_batches :
      ArrowStream arrow.RecordBatch (ZerobusError tonic.Status)
      → ZerobusResult (ZerobusError tonic.Status) (List arrow.RecordBatch)
        × ArrowStream arrow.RecordBatch (ZerobusError tonic.Status)
  unfolding move_pending_to_failed
  get_unacked_batches s =
      let t = move_pending_to_failed s in
      if not s.is_closed
      then (
        err (
            invalid_state_error
              "Cannot get unacked batches from an active stream. Stream must be closed first."),
        s,
      )
      else (ok t.failed_batches, t)
