-- ===== src/ArrowStream/Process.antt =====
-- rust/sdk/src/stream/arrow/acks.rs: `AckProcessor::process`, and metadata.rs for what a response
-- carries. A round of the loop is the instants at which it starts and at which it has its event, and
-- the event that its select takes; which of the ready events that is, and so the tie rule of an
-- expired deadline, is not modelled. In `process` no other task touches the stream between two rounds.
use Prim.Native.String.{String}
use zerobus_sdk.Common.{
  ℕ, Bool, true, false, ◌&&◌, ◌||◌, Option, none, some, List, [], ◌∷◌, if◌then◌else◌, ltb, leb,
  ◌==◌,
}
use zerobus_sdk.Common.Int.{ℤ, eq_ℤ}
use zerobus_sdk.ArrowStream.{Arrow, ArrowStream, ZerobusResult, ok, err}
use zerobus_sdk.ArrowStream.Batch.{oldest_pending_ack_deadline}
use zerobus_sdk.ArrowStream.Acks.{apply, take_failure, pause_and_snapshot_submitted}
use zerobus_sdk.ArrowStream.Rotation.{
  RotationDeadlines, rotation_deadlines_at, or_else, DrainEvent, close_request_and_drain_response,
}
use zerobus_sdk.Errors.{Tonic, ZerobusError, stream_closed_error}

pub record FlightAckMetadata : Type 0 where
  pub ack_up_to_offset : ℤ
  pub ack_up_to_records : ℕ
  pub close_stream_duration_ms : Option ℕ

-- `last_instant` is the end of the platform's clock, `timeout_text` the text of a timeout beyond it.
pub record Config : Type 0 where
  pub last_instant : ℕ
  pub server_lack_of_ack_timeout_ms : ℕ
  pub timeout_text : String
  pub stream_paused_max_wait_time_ms : Option ℕ

pub data RotationState : Type 0 where
  not_rotating : RotationState
  waiting_for_acks : ℕ → RotationDeadlines → RotationState

pub data AckEvent (Status : Type 0) : Type 0 where
  response : FlightAckMetadata → AckEvent Status
  response_not_parsed : AckEvent Status
  response_failed : Status → AckEvent Status
  response_ended : AckEvent Status
  pending_batch_available : AckEvent Status
  request_send_failed : AckEvent Status
  ack_deadline : (ℤ × ℕ × ℕ) × ℕ → AckEvent Status
  ack_wait_elapsed : AckEvent Status

abbrev same_identity : ℤ × ℕ × ℕ → ℤ × ℕ × ℕ → Bool
same_identity (o, s, e) (o', s', e') = eq_ℤ o o' && (s == s') && (e == e')

module _ (tonic : Tonic) (arrow : Arrow) where
  abbrev pub Stream : Type 0
  Stream = ArrowStream arrow.RecordBatch (ZerobusError tonic.Status)

  -- What a round comes to: the next round, a return, or the drain of the transport.
  pub data Outcome : Type 0 where
    continues : RotationState → Stream → Outcome
    returns : ZerobusResult (ZerobusError tonic.Status) Unit → Stream → Outcome
    drains : Bool → Option (ZerobusError tonic.Status) → Stream → Outcome

  -- An error while the stream waits for acknowledgements is kept for the drain.
  unfoldable pub fail : RotationState → ZerobusError tonic.Status → Bool → Stream → Outcome
  fail not_rotating e response_finished s = returns (err e) s
  fail (waiting_for_acks target deadlines) e response_finished s =
      drains response_finished (some e) s

  unfoldable pub expired :
      Config → ℕ → (ℤ × ℕ × ℕ) × ℕ → Stream → ZerobusResult (ZerobusError tonic.Status) Bool
  unfolding oldest_pending_ack_deadline
  expired c now (expected, _) s =
      elim (oldest_pending_ack_deadline c.last_instant c.server_lack_of_ack_timeout_ms
        c.timeout_text s.pending_batches s.submitted_records) [
          | err e ↦ err e
          | ok none ↦ ok false
          | ok (some (identity, deadline)) ↦
              ok (same_identity identity expected && leb deadline now)
        ]

  -- A close signal, with its duration, pauses the stream and starts a rotation, unless one is under
  -- way.
  unfoldable pub begin_rotation :
      Config → ℕ → Option ℕ → RotationState → Stream → RotationState × Stream
  unfolding pause_and_snapshot_submitted rotation_deadlines_at
  begin_rotation c now none rotation s = (rotation, s)
  begin_rotation c now (some duration) (waiting_for_acks target deadlines) s =
      (waiting_for_acks target deadlines, s)
  begin_rotation c now (some duration) not_rotating s =
      let (target_records, t) = pause_and_snapshot_submitted s in
      (
        waiting_for_acks target_records
            (rotation_deadlines_at c.last_instant now duration c.stream_paused_max_wait_time_ms),
        t,
      )

  unfoldable pub after_apply :
      RotationState → ZerobusResult (ZerobusError tonic.Status) Unit → Stream → Outcome
  unfolding fail
  after_apply rotation (ok _) s = continues rotation s
  after_apply rotation (err e) s = fail rotation e false s

  unfoldable pub on_response : Config → ℕ → FlightAckMetadata → RotationState → Stream → Outcome
  unfolding begin_rotation after_apply
  on_response c now ack rotation s =
      let (rotation', t) = begin_rotation c now ack.close_stream_duration_ms rotation s in
      let (result, u) = apply ack.ack_up_to_records t in
      if ltb 0 ack.ack_up_to_records then after_apply rotation' result u else continues rotation' t

  unfoldable pub on_expiry :
      ZerobusResult (ZerobusError tonic.Status) Bool → RotationState → Stream → Outcome
  on_expiry (err e) rotation s = returns (err e) s
  on_expiry (ok false) rotation s = continues rotation s
  on_expiry (ok true) rotation s =
      returns (err (stream_closed_error (tonic.deadline_exceeded "Server ack timeout"))) s

  unfoldable pub on_event : Config → ℕ → AckEvent tonic.Status → RotationState → Stream → Outcome
  unfolding on_response take_failure expired on_expiry
  on_event c now (response ack) rotation s = on_response c now ack rotation s
  on_event c now response_not_parsed rotation s = continues rotation s
  on_event c now pending_batch_available rotation s = continues rotation s
  on_event c now ack_wait_elapsed rotation s = continues rotation s
  on_event c now request_send_failed rotation s =
      let (failed, t) = take_failure s in
      if failed
      then returns
          (err
            (stream_closed_error (tonic.unavailable "Flight request stream closed while sending")))
          t
      else continues rotation t
  on_event c now (ack_deadline expected) rotation s =
      on_expiry (expired c now expected s) rotation s
  on_event c now (response_failed status) not_rotating s =
      returns (err (stream_closed_error status))
        (record s { server_error = some (stream_closed_error status) })
  on_event c now (response_failed status) (waiting_for_acks target deadlines) s =
      drains true (some (stream_closed_error status)) s
  on_event c now response_ended not_rotating s =
      returns (err (stream_closed_error (tonic.unknown_status "Server closed the stream"))) s
  on_event c now response_ended (waiting_for_acks target deadlines) s = drains true none s

  unfoldable pub deadline_error :
      ZerobusResult (ZerobusError tonic.Status) (Option ((ℤ × ℕ × ℕ) × ℕ)) → Stream → Option Outcome
  deadline_error (err e) s = some (returns (err e) s)
  deadline_error (ok _) s = none

  -- The start of a round on a stream that is not closed: none when the loop goes on to wait for an
  -- event.
  unfoldable pub check : Config → ℕ → RotationState → Stream → Option Outcome
  unfolding oldest_pending_ack_deadline deadline_error
  check c now (waiting_for_acks target deadlines) s =
      if leb target s.last_acked_records || leb deadlines.ack now
      then some (drains false none s)
      else none
  check c now not_rotating s =
      deadline_error
        (oldest_pending_ack_deadline c.last_instant c.server_lack_of_ack_timeout_ms c.timeout_text
          s.pending_batches s.submitted_records)
        s

  unfoldable pub round : Config → ℕ → ℕ → AckEvent tonic.Status → RotationState → Stream → Outcome
  unfolding check on_event
  round c started now event rotation s =
      let next = on_event c now event rotation s in
      if s.is_closed then returns (ok tt) s else or_else next (check c started rotation s)

  -- The loop; `drained` is what the drain sees when it comes to one. None where the rounds given end
  -- first.
  unfoldable pub process :
      Config
      → List (DrainEvent tonic.Status)
      → List (ℕ × ℕ × AckEvent tonic.Status)
      → RotationState
      → Stream
      → Option (ZerobusResult (ZerobusError tonic.Status) Unit × Stream)
  unfolding round close_request_and_drain_response
  process c drained [] rotation s = none
  process c drained ((started, now, event) ∷ rounds) rotation s =
      elim (round c started now event rotation s) [
        | continues rotation' t ↦ process c drained rounds rotation' t
        | returns result t ↦ some (result, t)
        | drains response_finished terminal_error t ↦
            let (e, u) =
              close_request_and_drain_response tonic drained response_finished terminal_error t in
            some (err e, u)
      ]
