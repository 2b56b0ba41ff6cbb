-- ===== src/ArrowStream/Rotation.antt =====
-- rust/sdk/src/stream/arrow/acks.rs: deadlines and errors of a rotation that the server asks for,
-- and the drain that ends it. Instants and durations are milliseconds.
use zerobus_sdk.Common.{
  ℕ, ◌-◌, ◌*◌, min, Bool, true, false, not, ◌&&◌, Option, none, some, List, [], ◌∷◌, if◌then◌else◌,
  ltb,
}
use zerobus_sdk.ArrowStream.{ArrowStream, ZerobusResult, ok, err}
use zerobus_sdk.ArrowStream.Batch.{checked_add}
use zerobus_sdk.ArrowStream.Acks.{apply, pause_and_detach_sender}
use zerobus_sdk.Errors.{Tonic, ZerobusError, stream_closed_error, is_retryable}

abbrev pub rotation_drain_timeout_ms : ℕ
rotation_drain_timeout_ms = 500

abbrev pub max_server_rotation_grace : ℕ
max_server_rotation_grace = 365 * 24 * 60 * 60 * 1000

pub record RotationDeadlines : Type 0 where
  pub ack : ℕ
  pub drain : ℕ

abbrev pub or_else : {A : Type 0} → A → Option A → A
or_else a none = a
or_else a (some b) = b

unfoldable pub rotation_deadlines_at : ℕ → ℕ → ℕ → Option ℕ → RotationDeadlines
unfolding checked_add
rotation_deadlines_at last_instant rotation_started_at server_duration_ms configured_ack_wait_ms =
    let server_grace = min server_duration_ms max_server_rotation_grace in
    let server_deadline =
      or_else rotation_started_at (checked_add last_instant rotation_started_at server_grace) in
    let available_ack_wait = server_grace - rotation_drain_timeout_ms in
    let ack_wait = min available_ack_wait (or_else available_ack_wait configured_ack_wait_ms) in
    record {
      ack = or_else server_deadline (checked_add last_instant rotation_started_at ack_wait);
      drain =
          if ltb server_grace rotation_drain_timeout_ms
          then or_else server_deadline
              (checked_add last_instant rotation_started_at rotation_drain_timeout_ms)
          else server_deadline;
    }

unfoldable pub bounded_rotation_drain_deadline : ℕ → ℕ → ℕ → ℕ
unfolding checked_add
bounded_rotation_drain_deadline last_instant now close_deadline =
    min close_deadline
      (or_else close_deadline (checked_add last_instant now rotation_drain_timeout_ms))

-- What the drain may see: its deadline, the end of the request, and of the response an
-- acknowledgement (none when its metadata does not parse), an error and the end.
pub data DrainEvent (Status : Type 0) : Type 0 where
  deadline : DrainEvent Status
  request_eof : DrainEvent Status
  metadata : Option ℕ → DrainEvent Status
  response_error : Status → DrainEvent Status
  response_end : DrainEvent Status

module _ (tonic : Tonic) where
  abbrev pub rotation_error : ZerobusError tonic.Status
  rotation_error =
      stream_closed_error (tonic.unavailable "Server requested graceful stream rotation")

  unfoldable pub update_rotation_error :
      Option (ZerobusError tonic.Status)
      → ZerobusError tonic.Status
      → Option (ZerobusError tonic.Status)
  update_rotation_error none candidate = some candidate
  update_rotation_error (some error) candidate =
      if not (is_retryable tonic error) && is_retryable tonic candidate
      then some error
      else some candidate

module _ (tonic : Tonic) where
  unfoldable pub note_failure :
      Option (ZerobusError tonic.Status)
      → ZerobusResult (ZerobusError tonic.Status) Unit
      → Option (ZerobusError tonic.Status)
  unfolding update_rotation_error
  note_failure terminal_error (ok _) = terminal_error
  note_failure terminal_error (err e) = update_rotation_error tonic terminal_error e

module _ (tonic : Tonic) {RecordBatch : Type 0} where
  -- An acknowledgement during the drain.
  unfoldable pub drain_metadata :
      Option ℕ
      → Option (ZerobusError tonic.Status)
      → ArrowStream RecordBatch (ZerobusError tonic.Status)
      → Option (ZerobusError tonic.Status) × ArrowStream RecordBatch (ZerobusError tonic.Status)
  unfolding note_failure
  drain_metadata none terminal_error s = (terminal_error, s)
  drain_metadata (some ack_up_to_records) terminal_error s =
      let (result, t) = apply ack_up_to_records s in
      if ltb 0 ack_up_to_records
      then (note_failure tonic terminal_error result, t)
      else (terminal_error, s)

  -- The loop of `close_request_and_drain_response`: the events in the order in which the loop takes
  -- them. Where they end, the deadline has passed. The call always returns an error.
  unfoldable pub drain_loop :
      List (DrainEvent tonic.Status)
      → Bool
      → Bool
      → Option (ZerobusError tonic.Status)
      → ArrowStream RecordBatch (ZerobusError tonic.Status)
      → ZerobusError tonic.Status × ArrowStream RecordBatch (ZerobusError tonic.Status)
  drain_loop [] request_finished response_finished terminal_error s =
      (or_else (rotation_error tonic) terminal_error, s)
  drain_loop (event ∷ events) request_finished response_finished terminal_error s =
      if request_finished && response_finished
      then (or_else (rotation_error tonic) terminal_error, s)
      else elim event [
        | deadline ↦ (or_else (rotation_error tonic) terminal_error, s)
        | request_eof ↦ drain_loop events true response_finished terminal_error s
        | metadata ack ↦ elim response_finished [
          | true ↦ drain_loop events request_finished true terminal_error s
          | false ↦
              let (error, t) = drain_metadata ack terminal_error s in
              drain_loop events request_finished false error t
        ]
        | response_error status ↦ elim response_finished [
          | true ↦ drain_loop events request_finished true terminal_error s
          | false ↦
              drain_loop events request_finished true
                (update_rotation_error tonic terminal_error (stream_closed_error status)) s
        ]
        | response_end ↦ drain_loop events request_finished true terminal_error s
      ]

  unfoldable pub close_request_and_drain_response :
      List (DrainEvent tonic.Status)
      → Bool
      → Option (ZerobusError tonic.Status)
      → ArrowStream RecordBatch (ZerobusError tonic.Status)
      → ZerobusError tonic.Status × ArrowStream RecordBatch (ZerobusError tonic.Status)
  unfolding drain_loop pause_and_detach_sender
  close_request_and_drain_response events response_finished terminal_error s =
      drain_loop events false response_finished terminal_error (pause_and_detach_sender s)
