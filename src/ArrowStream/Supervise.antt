-- ===== src/ArrowStream/Supervise.antt =====
-- rust/sdk/src/stream/arrow/supervisor.rs: `Supervisor::run`, which goes from one connection to the
-- next. Each round of the loop is given what the acknowledgement processor sees on its connection,
-- and what the attempt to reconnect meets.
use Prim.Native.String.{String, ◌++◌}
use zerobus_sdk.Common.{
  ℕ, ◌+◌, ◌%◌, ◌^◌, Bool, true, false, ◌&&◌, ◌||◌, Option, none, some, List, [], ◌∷◌, if◌then◌else◌,
  leb,
}
use zerobus_sdk.Common.Text.{to_string}
use zerobus_sdk.ArrowStream.{Arrow, ZerobusResult, ok, err}
use zerobus_sdk.ArrowStream.Batch.{configured_deadline}
use zerobus_sdk.ArrowStream.Acks.{clear, pause_and_detach_sender}
use zerobus_sdk.ArrowStream.Recovery.{
  replay_pending_batches, commit_reconnect_after_replay, reconnect, finalize_closed,
}
use zerobus_sdk.ArrowStream.Rotation.{DrainEvent}
use zerobus_sdk.ArrowStream.Process.{Stream, Config, AckEvent, not_rotating, process}
use zerobus_sdk.Errors.{Tonic, ZerobusError, connection_timeout, is_retryable, is_auth_rejection}

-- The options that the supervisor and the acknowledgement processor read.
pub record ArrowStreamConfigurationOptions : Type 0 where
  pub recovery : Bool
  pub recovery_retries : ℕ
  pub recovery_timeout_ms : ℕ
  pub recovery_timeout_text : String
  pub ack : Config

-- Where the deadline cuts an attempt short: at the connection, after some of the sends of the replay,
-- or when the new sender is in place.
pub data Interrupted : Type 0 where
  connecting : Interrupted
  replaying : ℕ → Interrupted
  committed : ℕ → Interrupted

pub data Attempt (E : Type 0) : Type 0 where
  reconnected : ℕ → ℕ → Attempt E
  not_connected : E → Attempt E
  timed_out : Interrupted → Attempt E

-- `invalidated` says whether the headers provider answers before the deadline.
pub record Round (Status : Type 0) : Type 0 where
  pub rounds : List (ℕ × ℕ × AckEvent Status)
  pub drained : List (DrainEvent Status)
  pub recovery_started : ℕ
  pub attempt : Attempt (ZerobusError Status)
  pub invalidated : Bool

pub record Supervisor (E : Type 0) : Type 0 where
  pub pending_error : Option E
  pub reconnect_auth_retry : Bool
  pub recovery_attempts : ℕ

module _ (tonic : Tonic) (arrow : Arrow) where
  pub data Verdict : Type 0 where
    supervises : Supervisor (ZerobusError tonic.Status) → Stream tonic arrow → Verdict
    exits : ZerobusResult (ZerobusError tonic.Status) Unit → Stream tonic arrow → Verdict

  -- The terminal error is published before and after the stream is finalized.
  unfoldable pub terminate : ZerobusError tonic.Status → Stream tonic arrow → Stream tonic arrow
  unfolding finalize_closed
  terminate e s =
      let t = finalize_closed tonic arrow (record s { server_error = some e }) in
      record t { server_error = some e }

  unfoldable pub interrupt : Interrupted → Stream tonic arrow → Stream tonic arrow
  unfolding replay_pending_batches commit_reconnect_after_replay
  interrupt connecting s = s
  interrupt (replaying sends) s =
      let (result, sent, t) = replay_pending_batches tonic arrow sends s.last_acked_records s in t
  interrupt (committed sends) s =
      let (result, sent, t) = replay_pending_batches tonic arrow sends s.last_acked_records s in
      let (done, u) = commit_reconnect_after_replay tonic arrow result t in u

  -- A failed reconnection. An auth rejection is retried once the headers are invalidated.
  unfoldable pub not_reconnected :
      Bool
      → ZerobusError tonic.Status
      → Supervisor (ZerobusError tonic.Status)
      → Stream tonic arrow
      → Verdict
  unfolding terminate
  not_reconnected invalidated e v s =
      if is_auth_rejection tonic e
      then (if invalidated
          then supervises (record v { pending_error = some e; reconnect_auth_retry = true }) s
          else exits (err e) (terminate e s))
      else supervises (record v { pending_error = some e }) s

  unfoldable pub after_reconnect :
      Bool
      → ZerobusResult (ZerobusError tonic.Status) Unit
      → Supervisor (ZerobusError tonic.Status)
      → Stream tonic arrow
      → Verdict
  unfolding not_reconnected
  after_reconnect invalidated (ok _) v s = supervises (record v { recovery_attempts = 0 }) s
  after_reconnect invalidated (err e) v s = not_reconnected invalidated e v s

  unfoldable pub attempt_reconnect :
      ArrowStreamConfigurationOptions
      → Round tonic.Status
      → Attempt (ZerobusError tonic.Status)
      → Supervisor (ZerobusError tonic.Status)
      → Stream tonic arrow
      → Verdict
  unfolding reconnect after_reconnect interrupt
  attempt_reconnect o r (reconnected now open_for) v s =
      let (result, sent, t) = reconnect tonic arrow now open_for s in
      after_reconnect r.invalidated result v t
  attempt_reconnect o r (not_connected e) v s = not_reconnected r.invalidated e v s
  attempt_reconnect o r (timed_out at) v s =
      let message = "Reconnection timed out after " ++ to_string o.recovery_timeout_ms ++ "ms" in
      supervises (record v { pending_error = some (connection_timeout message) }) (interrupt at s)

  unfoldable pub with_deadline :
      ArrowStreamConfigurationOptions
      → Round tonic.Status
      → ZerobusResult (ZerobusError tonic.Status) ℕ
      → Supervisor (ZerobusError tonic.Status)
      → Stream tonic arrow
      → Verdict
  unfolding attempt_reconnect
  with_deadline o r (err e) v s = supervises (record v { pending_error = some e }) s
  with_deadline o r (ok deadline) v s = attempt_reconnect o r r.attempt v s

  unfoldable pub recover :
      ArrowStreamConfigurationOptions
      → Round tonic.Status
      → ZerobusError tonic.Status
      → Supervisor (ZerobusError tonic.Status)
      → Stream tonic arrow
      → Verdict
  unfolding terminate with_deadline configured_deadline clear pause_and_detach_sender
  recover o r e v s =
      let attempts = v.recovery_attempts in
      let w = record v {
        reconnect_auth_retry = false;
        recovery_attempts = (attempts + 1) % 2 ^ 32;
      } in
      let t = record (clear (pause_and_detach_sender s)) { server_error = none } in
      let deadline =
        configured_deadline o.ack.last_instant r.recovery_started o.recovery_timeout_ms
          o.recovery_timeout_text in
      if leb o.recovery_retries attempts
      then exits (err e) (terminate e s)
      else with_deadline o r deadline w t

  -- What the loop does with the result of the acknowledgement processor.
  unfoldable pub handle :
      ArrowStreamConfigurationOptions
      → Round tonic.Status
      → ZerobusResult (ZerobusError tonic.Status) Unit
      → Supervisor (ZerobusError tonic.Status)
      → Stream tonic arrow
      → Verdict
  unfolding recover
  handle o r (ok _) v s = exits (ok tt) s
  handle o r (err e) v s =
      if s.is_closed
      then exits (err e) s
      else (if (is_retryable tonic e || v.reconnect_auth_retry) && o.recovery
          then recover o r e v s
          else exits (err e) (terminate e s))

  -- The error of a failed reconnection, or the result of the acknowledgement processor.
  unfoldable pub processed :
      ArrowStreamConfigurationOptions
      → Round tonic.Status
      → Option (ZerobusError tonic.Status)
      → Stream tonic arrow
      → Option (ZerobusResult (ZerobusError tonic.Status) Unit × Stream tonic arrow)
  unfolding process
  processed o r (some e) s = some (err e, s)
  processed o r none s = process tonic arrow o.ack r.drained r.rounds not_rotating s

  unfoldable pub judge :
      ArrowStreamConfigurationOptions
      → Round tonic.Status
      → Supervisor (ZerobusError tonic.Status)
      → Option (ZerobusResult (ZerobusError tonic.Status) Unit × Stream tonic arrow)
      → Option Verdict
  unfolding handle
  judge o r v none = none
  judge o r v (some (result, t)) = some (handle o r result (record v { pending_error = none }) t)

  -- One round of the loop.
  unfoldable pub supervise :
      ArrowStreamConfigurationOptions
      → Round tonic.Status
      → Supervisor (ZerobusError tonic.Status)
      → Stream tonic arrow
      → Option Verdict
  unfolding judge processed
  supervise o r v s =
      if s.is_closed then some (exits (ok tt) s) else judge o r v (processed o r v.pending_error s)

  unfoldable pub run :
      ArrowStreamConfigurationOptions
      → List (Round tonic.Status)
      → Supervisor (ZerobusError tonic.Status)
      → Stream tonic arrow
      → Option (ZerobusResult (ZerobusError tonic.Status) Unit × Stream tonic arrow)
  unfolding supervise
  run o [] v s = none
  run o (r ∷ rs) v s = elim (supervise o r v s) [
    | none ↦ none
    | some (supervises w u) ↦ run o rs w u
    | some (exits result u) ↦ some (result, u)
  ]
