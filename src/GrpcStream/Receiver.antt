-- ===== src/GrpcStream/Receiver.antt =====
-- rust/sdk/src/stream/grpc/receiver.rs: what the receiver task does with each message.
use zerobus_sdk.Common.{
  ℕ, zero, suc, ◌+◌, ◌-◌, ◌*◌, ◌/◌, ◌%◌, ◌^◌, min, Bool, true, false, not, ◌&&◌, Option, none, some,
  leb, ◌==◌, if◌then◌else◌,
}
use zerobus_sdk.Common.Int.{ℤ, pos, negsuc, eq_ℤ, as_usize}
use zerobus_sdk.Errors.{Tonic, ZerobusError, stream_closed_error}
use zerobus_sdk.LandingZone.{ok, err, remove_observed, is_observed_empty}
use zerobus_sdk.OffsetGenerator.{add_one}
use zerobus_sdk.GrpcStream.State.{StreamState, Connection, ack, acked, answer, notify}

-- The number of rounds of `for _ in low..=high`.
abbrev pub range_len : ℤ → ℤ → ℕ
range_len (pos a) (pos b) = suc b - a
range_len (pos a) (negsuc b) = 0
range_len (negsuc a) (pos b) = suc a + suc b
range_len (negsuc a) (negsuc b) = suc a - b

module _ {ℓ} {E : Type 0} {P : Type ℓ} where
  -- A round of the loop, with the logical offset of the record that it removes; `none` where
  -- `remove_observed` fails, and the round does nothing.
  unfoldable pub ack_one : StreamState E P → Option (ℤ × StreamState E P)
  unfolding remove_observed answer notify
  ack_one s =
      let (removed, z) = remove_observed s.landing_zone in
      elim removed [
        | err e ↦ none
        | ok record_ ↦
            let offset = record_.offset_id in
            let answered = answer offset (acked offset) (record s { landing_zone = z }) in
            some (offset, notify (ack offset) answered)
      ]

  -- The loop, with `last_logical_acked_offset`.
  unfoldable pub ack_loop : ℕ → ℤ → StreamState E P → ℤ × StreamState E P
  ack_loop zero last_logical s = (last_logical, s)
  ack_loop (suc n) last_logical s = elim (ack_one s) [
    | none ↦ ack_loop n last_logical s
    | some (offset, s') ↦ ack_loop n offset s'
  ]

  -- An acknowledgement up to a physical offset, of which `last_acked_offset` was the last before.
  unfoldable pub ack_up_to : ℤ → Connection → StreamState E P → Connection × StreamState E P
  unfolding ack_loop add_one
  ack_up_to durability_ack_up_to_offset c s =
      let rounds = range_len (add_one c.last_acked_offset) durability_ack_up_to_offset in
      let (last_logical, s') = ack_loop rounds (negsuc 1) s in
      (
        record c { last_acked_offset = durability_ack_up_to_offset },
        if eq_ℤ last_logical (negsuc 1)
            then s'
            else record s' { last_received_offset_id = some last_logical },
      )

-- A message of the service; a duration is its seconds and nanoseconds.
pub data ResponsePayload : Type 0 where
  ingest_record_response : Option ℤ → ResponsePayload
  close_stream_signal : Option (ℤ × ℤ) → ResponsePayload
  unexpected : ResponsePayload

-- What the wait for a message ends with.
pub data Inbound (Status : Type 0) : Type 0 where
  message : ResponsePayload → Inbound Status
  closed : Inbound Status
  broken : Status → Inbound Status
  timeout : Inbound Status

pub data Outcome (E : Type 0) : Type 0 where
  continues breaks : Outcome E
  returns_err : E → Outcome E

pub record Options : Type 0 where
  pub recovery : Bool
  pub stream_paused_max_wait_time_ms : Option ℕ

abbrev duration_ms : Option (ℤ × ℤ) → ℕ
duration_ms none = 0
duration_ms (some (seconds, nanos)) =
    (as_usize seconds * 1000 % 2 ^ 64 + as_usize nanos / 1_000_000) % 2 ^ 64

-- `wait_duration_ms`, which is 0 where the stream is to recover at once.
abbrev wait_duration : Option ℕ → ℕ → ℕ
wait_duration none server = server
wait_duration (some max_wait) server = min max_wait server

-- The test at the head of the loop; an instant is a count of milliseconds.
unfoldable pub must_break {ℓ} : {E : Type 0} {P : Type ℓ} → ℕ → Connection → StreamState E P → Bool
unfolding is_observed_empty
must_break now c s = elim c.pause_deadline [
  | none ↦ false
  | some deadline ↦ if leb deadline now then true else is_observed_empty s.landing_zone
]

abbrev is_none {ℓ} : {A : Type ℓ} → Option A → Bool
is_none none = true
is_none (some a) = false

-- The answer to a signal that the service will close the stream.
unfoldable pub on_close_signal :
    (tonic : Tonic)
    → Options
    → ℕ
    → Option (ℤ × ℤ)
    → Connection
    → Outcome (ZerobusError tonic.Status) × Connection
on_close_signal tonic options now duration c =
    let wait = wait_duration options.stream_paused_max_wait_time_ms (duration_ms duration) in
    if not options.recovery
    then (continues, c)
    else if wait == 0
    then (breaks, c)
    else (continues, record c { is_paused = true; pause_deadline = some (now + wait) })

module _ {ℓ} (tonic : Tonic) {P : Type ℓ} (options : Options) where
  unfoldable pub fails_with :
      tonic.Status
      → Connection
      → StreamState (ZerobusError tonic.Status) P
      → Outcome (ZerobusError tonic.Status) × Connection × StreamState (ZerobusError tonic.Status) P
  fails_with status c s =
      let e = stream_closed_error status in (returns_err e, c, record s { server_error = some e })

  -- The body of the loop after the wait.
  unfoldable pub receive :
      ℕ
      → Inbound tonic.Status
      → Connection
      → StreamState (ZerobusError tonic.Status) P
      → Outcome (ZerobusError tonic.Status) × Connection × StreamState (ZerobusError tonic.Status) P
  unfolding ack_up_to fails_with on_close_signal is_observed_empty
  receive now (message (ingest_record_response (some offset))) c s =
      (let (c', s') = ack_up_to offset c s in (continues, c', s'))
  receive now (message (ingest_record_response none)) c s =
      fails_with (tonic.internal "Missing ack offset in server response") c s
  receive now (message (close_stream_signal duration)) c s =
      let (outcome, c') = on_close_signal tonic options now duration c in (outcome, c', s)
  receive now (message unexpected) c s =
      fails_with (tonic.internal "Unexpected response from server") c s
  receive now closed c s = fails_with (tonic.ok "Stream closed by server without errors.") c s
  receive now (broken status) c s = fails_with status c s
  receive now timeout c s =
      if is_none c.pause_deadline && not (is_observed_empty s.landing_zone)
      then fails_with (tonic.deadline_exceeded "Server ack timeout") c s
      else (continues, c, s)
