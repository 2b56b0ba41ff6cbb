-- ===== src/ArrowStream/Close.antt =====
-- rust/sdk/src/stream/arrow/mod.rs: `wait_for_offset_internal`, `flush` and `close`. A wait is a
-- list of rounds of its loop, each what the round reads and what wakes it up, cut off where its
-- timeout ends it. `lower` is the operation's name in lower case. While `close` waits, the task of the
-- supervisor still changes the stream: what it does is an argument.
use Prim.Native.String.{String, ◌++◌ as append}
use zerobus_sdk.Common.{
  Bool, true, false, not, ◌&&◌, Option, none, some, List, [], ◌∷◌, if◌then◌else◌,
}
use zerobus_sdk.Common.Int.{ℤ, ltb_ℤ}
use zerobus_sdk.OffsetGenerator.{last}
use zerobus_sdk.ArrowStream.{Arrow, ArrowStream, ZerobusResult, ok, err}
use zerobus_sdk.ArrowStream.Ingest.{is_closing, known_error}
use zerobus_sdk.ArrowStream.Recovery.{finalize_closed}
use zerobus_sdk.Errors.{Tonic, ZerobusError, stream_closed_error}

-- The watermark, whether the stream is closing, and the watermark and error read after that.
pub record Round (E : Type 0) : Type 0 where
  pub current_ack : Option ℤ
  pub closing : Bool
  pub ack_again : Option ℤ
  pub server_error : Option E
  pub ack_channel_closed : Bool

unfoldable pub reached : ℤ → Option ℤ → Bool
reached offset_to_wait none = false
reached offset_to_wait (some ack_offset) = not (ltb_ℤ ack_offset offset_to_wait)

module _ (tonic : Tonic) where
  unfoldable pub wait_for_offset_internal :
      ℤ
      → String
      → String
      → List (Round (ZerobusError tonic.Status))
      → ZerobusResult (ZerobusError tonic.Status) Unit
  unfolding reached
  wait_for_offset_internal offset_to_wait operation_name lower [] =
      err (stream_closed_error (tonic.deadline_exceeded (append operation_name " timed out")))
  wait_for_offset_internal offset_to_wait operation_name lower (r ∷ rounds) =
      let rest = wait_for_offset_internal offset_to_wait operation_name lower rounds in
      if reached offset_to_wait r.current_ack
      then ok tt
      else if r.closing
      then if reached offset_to_wait r.ack_again
        then ok tt
        else err
            (known_error tonic r.server_error (append "Stream closing or closed during " lower))
      else if r.ack_channel_closed
      then err (stream_closed_error (tonic.internal (append "Ack channel closed during " lower)))
      else rest

module _ (tonic : Tonic) (arrow : Arrow) where
  unfoldable pub flush :
      List (Round (ZerobusError tonic.Status))
      → ArrowStream arrow.RecordBatch (ZerobusError tonic.Status)
      → ZerobusResult (ZerobusError tonic.Status) Unit
  unfolding wait_for_offset_internal
  flush rounds s = elim (last s.offset_generator) [
    | some target_offset ↦ wait_for_offset_internal tonic target_offset "Flush" "flush" rounds
    | none ↦
        if is_closing s
        then err (known_error tonic s.server_error "Cannot flush: stream is closing or closed")
        else ok tt
  ]

  abbrev pub stored :
      Option (ZerobusError tonic.Status) → ZerobusResult (ZerobusError tonic.Status) Unit
  stored none = ok tt
  stored (some e) = err e

  abbrev pub error_of :
      ZerobusResult (ZerobusError tonic.Status) Unit → Option (ZerobusError tonic.Status)
  error_of (ok _) = none
  error_of (err e) = some e

  -- The result of the flush is kept, and the teardown begins.
  abbrev pub keep_result :
      ZerobusResult (ZerobusError tonic.Status) Unit
      → ArrowStream arrow.RecordBatch (ZerobusError tonic.Status)
      → ArrowStream arrow.RecordBatch (ZerobusError tonic.Status)
  keep_result result s = record s {
    close_flush_error = error_of result;
    close_teardown_started = true;
  }

  -- The flush of the call, unless an earlier one has come past it. `waiting` is what the supervisor's
  -- task does to the stream while the flush waits.
  unfoldable pub begin_close :
      List (Round (ZerobusError tonic.Status))
      → (ArrowStream arrow.RecordBatch (ZerobusError tonic.Status)
          → ArrowStream arrow.RecordBatch (ZerobusError tonic.Status))
      → ArrowStream arrow.RecordBatch (ZerobusError tonic.Status)
      → ZerobusResult (ZerobusError tonic.Status) Unit
        × ArrowStream arrow.RecordBatch (ZerobusError tonic.Status)
  begin_close rounds waiting s =
      let result = flush rounds s in
      if s.close_teardown_started
      then (stored s.close_flush_error, s)
      else (result, keep_result result (waiting s))

  -- The supervisor is reaped and the sender detached.
  unfoldable pub tear_down :
      ArrowStream arrow.RecordBatch (ZerobusError tonic.Status)
      → ArrowStream arrow.RecordBatch (ZerobusError tonic.Status)
  tear_down s = record s { supervised = false; batch_tx = none }

  unfoldable pub end_close :
      ArrowStream arrow.RecordBatch (ZerobusError tonic.Status)
      → ArrowStream arrow.RecordBatch (ZerobusError tonic.Status)
  unfolding finalize_closed
  end_close s = record (finalize_closed tonic arrow s) { close_teardown_started = false }

  -- `reaping` is what the supervisor's task does to the stream until it is reaped.
  unfoldable pub close :
      List (Round (ZerobusError tonic.Status))
      → (ArrowStream arrow.RecordBatch (ZerobusError tonic.Status)
          → ArrowStream arrow.RecordBatch (ZerobusError tonic.Status))
      → (ArrowStream arrow.RecordBatch (ZerobusError tonic.Status)
          → ArrowStream arrow.RecordBatch (ZerobusError tonic.Status))
      → ArrowStream arrow.RecordBatch (ZerobusError tonic.Status)
      → ZerobusResult (ZerobusError tonic.Status) Unit
        × ArrowStream arrow.RecordBatch (ZerobusError tonic.Status)
  close rounds waiting reaping s =
      let (flush_result, t) = begin_close rounds waiting s in
      if s.is_closed && not s.close_teardown_started
      then (elim s.server_error [ some e ↦ err e | none ↦ stored s.close_flush_error ], s)
      else (flush_result, end_close (tear_down (reaping t)))
