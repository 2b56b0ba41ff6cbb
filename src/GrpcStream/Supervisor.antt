-- ===== src/GrpcStream/Supervisor.antt =====
-- rust/sdk/src/stream/grpc/supervisor.rs between the two tasks of one connection and those of the
-- next, and `get_unacked_batches` of acks.rs.
use Prim.Native.String.{String}
use zerobus_sdk.Common.{
  Bool, true, false, not, ◌||◌, List, [], ◌∷◌, ◌++◌, map, Option, none, some, if◌then◌else◌,
}
use zerobus_sdk.Errors.{
  Tonic, ZerobusError, stream_closed_error, invalid_argument, is_retryable, is_auth_rejection,
}
use zerobus_sdk.LandingZone.{remove_all, reset_observe}
use zerobus_sdk.GrpcStream.State.{
  StreamState, IngestRequest, Connection, CallbackMessage, failed, answer, notify, new_connection,
}

module _ {ℓ} {E : Type 0} {P : Type ℓ} where
  -- What a connection that is open starts with: after the first, the error is cleared.
  unfoldable pub connected : Bool → StreamState E P → Connection × StreamState E P
  unfolding reset_observe new_connection
  connected initial_stream_creation s =
      let (resent_batches, z) = reset_observe s.landing_zone in
      let error = if initial_stream_creation then s.server_error else none in
      (new_connection, record s { landing_zone = z; server_error = error })

module _ {ℓ} {E : Type 0} {P : Type ℓ} (to_string : E → String) where
  -- A round of the loop of `fail_all_pending_records`.
  unfoldable pub fail_one : E → IngestRequest P → StreamState E P → StreamState E P
  unfolding answer notify
  fail_one e record_ s =
      let kept = record s { failed_records = s.failed_records ++ record_.payload ∷ [] } in
      notify (CallbackMessage.error record_.offset_id (to_string e))
        (answer record_.offset_id (failed e) kept)

  -- The loop, over the records that were drained.
  unfoldable pub fail_loop : E → List (IngestRequest P) → StreamState E P → StreamState E P
  fail_loop e [] s = s
  fail_loop e (record_ ∷ records) s = fail_loop e records (fail_one e record_ s)

  unfoldable pub fail_all_pending_records : E → StreamState E P → StreamState E P
  unfolding fail_loop remove_all
  fail_all_pending_records e s =
      let (records, z) = remove_all s.landing_zone in
      fail_loop e records (record s { landing_zone = z })

  -- The attempts to connect have failed for good: the task returns the error.
  unfoldable pub creation_failed : Bool → E → StreamState E P → StreamState E P
  unfolding fail_all_pending_records
  creation_failed initial_stream_creation e s =
      if initial_stream_creation
      then s
      else fail_all_pending_records e (record s { is_closed = true })

-- The error that the supervisor reports for the error of a task.
abbrev pub reported : (tonic : Tonic) → ZerobusError tonic.Status → ZerobusError tonic.Status
reported tonic (stream_closed_error status) =
    if tonic.same (tonic.code status) tonic.invalid_argument
    then invalid_argument (tonic.message status)
    else stream_closed_error status
reported tonic other = other

module _ {ℓ} (tonic : Tonic) {P : Type ℓ} where
  -- The result of the tasks was an error: whether the supervisor returns it, whether it
  -- invalidates the credentials, and the state.
  unfoldable pub on_failure :
      (ZerobusError tonic.Status → String)
      → Bool
      → ZerobusError tonic.Status
      → StreamState (ZerobusError tonic.Status) P
      → Bool × Bool × StreamState (ZerobusError tonic.Status) P
  unfolding fail_all_pending_records
  on_failure to_string recovery error s =
      let e = reported tonic error in
      let told = record s { server_error = some e } in
      if not (is_retryable tonic e) || not recovery
      then (
        true,
        is_auth_rejection tonic e,
        fail_all_pending_records to_string e (record told { is_closed = true }),
      )
      else (false, false, told)

  -- `get_unacked_batches`; `none` is the error that the stream is active.
  unfoldable pub get_unacked_batches :
      StreamState (ZerobusError tonic.Status) P
      → Option (List P × StreamState (ZerobusError tonic.Status) P)
  unfolding remove_all
  get_unacked_batches s =
      let (records, z) = remove_all s.landing_zone in
      let all = s.failed_records ++ map (λ (r : IngestRequest P). r.payload) records in
      if s.is_closed then some (all, record s { landing_zone = z; failed_records = all }) else none
