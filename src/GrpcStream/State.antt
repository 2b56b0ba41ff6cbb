-- ===== src/GrpcStream/State.antt =====
-- rust/sdk/src/stream/grpc/types.rs and the fields of `ZerobusStream` that the tasks share, with
-- `ingest_internal_v2` of ingest.rs and the sender task of sender.rs.
use Prim.Native.String.{String}
use zerobus_sdk.Common.{
  ℕ, Bool, false, not, ◌&&◌, List, [], ◌∷◌, ◌++◌, Option, none, some, ltb, if◌then◌else◌,
}
use zerobus_sdk.Common.Int.{ℤ, eq_ℤ, eq_ℤ_iff}
use zerobus_sdk.Common.Assoc.{KeyEq, lookup, erase}
use zerobus_sdk.Errors.{Tonic, ZerobusError, stream_closed_error, invalid_argument}
use zerobus_sdk.LandingZone.{LandingZone, add, observe}
use zerobus_sdk.OffsetGenerator.{OffsetIdGenerator, next, default}

pub record IngestRequest {ℓ} (P : Type ℓ) : Type ℓ where
  pub payload : P
  pub offset_id : ℤ

pub data CallbackMessage : Type 0 where
  ack : ℤ → CallbackMessage
  error : ℤ → String → CallbackMessage

-- What is sent to a oneshot channel.
pub data Answer (E : Type 0) : Type 0 where
  acked : ℤ → Answer E
  failed : E → Answer E

-- A oneshot sender is the number of its channel, and `answers` is what the channels were sent.
-- `callbacks` is what was sent to the callback task, if `has_callback` says that there is one.
pub record StreamState {ℓ} (E : Type 0) (P : Type ℓ) : Type ℓ where
  pub landing_zone : LandingZone (IngestRequest P)
  pub logical_offset_id_generator : OffsetIdGenerator
  pub oneshot_map : List (ℤ × ℕ)
  pub answers : List (ℕ × Answer E)
  pub has_callback : Bool
  pub callbacks : List CallbackMessage
  pub last_received_offset_id : Option ℤ
  pub failed_records : List P
  pub server_error : Option E
  pub is_closed : Bool

-- The state of the two tasks of one connection.
pub record Connection : Type 0 where
  pub last_acked_offset : ℤ
  pub pause_deadline : Option ℕ
  pub is_paused : Bool
  pub physical_offset_id_generator : OffsetIdGenerator

unfoldable pub new_connection : Connection
unfolding default
new_connection = record {
  last_acked_offset = ℤ.negsuc 0;
  pause_deadline = none;
  is_paused = false;
  physical_offset_id_generator = default;
}

abbrev pub offset_eq : KeyEq ℤ
offset_eq = record { beq = eq_ℤ; beq_iff = eq_ℤ_iff }

module _ {ℓ} {E : Type 0} {P : Type ℓ} where
  -- `map.remove(&offset)`, and a send to the sender that it returns.
  unfoldable pub answer : ℤ → Answer E → StreamState E P → StreamState E P
  answer offset a s = elim (lookup offset_eq offset s.oneshot_map) [
    | none ↦ s
    | some sender ↦ record s {
      oneshot_map = erase offset_eq offset s.oneshot_map;
      answers = s.answers ++ (sender, a) ∷ [];
    }
  ]

  unfoldable pub notify : CallbackMessage → StreamState E P → StreamState E P
  notify message s =
      if s.has_callback then record s { callbacks = s.callbacks ++ message ∷ [] } else s

  -- `ingest_internal_v2` under `sync_mutex`, which it holds from the offset to the end of `add`;
  -- `none` means that `add` waits.
  unfoldable pub ingest_locked : P → StreamState E P → Option (ℤ × StreamState E P)
  unfolding next add
  ingest_locked payload s =
      let (offset_id, g) = next s.logical_offset_id_generator in
      elim (add (record { payload = payload; offset_id = offset_id }) s.landing_zone) [
        | none ↦ none
        | some z ↦ some (offset_id, record s { landing_zone = z; logical_offset_id_generator = g })
      ]

-- The answers of a call: it waits, or it returns a value or an error.
pub data Call {ℓ} (E : Type 0) (A : Type ℓ) : Type ℓ where
  waits : Call E A
  returns : A → Call E A
  fails : E → Call E A

module _ {ℓ} (tonic : Tonic) {P : Type ℓ} (total_byte_size : P → ℕ) where
  -- The text of the error for a payload that is too large is the argument `too_large`.
  unfoldable pub ingest :
      (ℕ → ℕ → String)
      → ℕ
      → P
      → StreamState (ZerobusError tonic.Status) P
      → Call (ZerobusError tonic.Status) (ℤ × StreamState (ZerobusError tonic.Status) P)
  unfolding ingest_locked
  ingest too_large max_payload_bytes payload s =
      if ltb max_payload_bytes (total_byte_size payload)
      then fails (invalid_argument (too_large (total_byte_size payload) max_payload_bytes))
      else if s.is_closed
      then fails (stream_closed_error (tonic.internal "Stream closed"))
      else elim (ingest_locked payload s) [ none ↦ waits | some r ↦ returns r ]

module _ {ℓ} (tonic : Tonic) {P : Type ℓ} where
  -- One round of the sender up to the send: the physical offset and the payload to be sent. The
  -- flag is read before the wait: it does not stop a sender that was `waiting` when it was set.
  unfoldable pub send_next :
      Bool
      → Connection
      → StreamState (ZerobusError tonic.Status) P
      → Option ((ℤ × P) × Connection × StreamState (ZerobusError tonic.Status) P)
  unfolding observe next
  send_next waiting c s =
      if c.is_paused && not waiting then none else elim (observe s.landing_zone) [
        | none ↦ none
        | some (item, z) ↦
            let (offset_id, g) = next c.physical_offset_id_generator in
            some (
              (offset_id, item.payload),
              record c { physical_offset_id_generator = g },
              record s { landing_zone = z },
            )
      ]

  -- A send that fails ends the task with this error.
  unfoldable pub send_failed :
      StreamState (ZerobusError tonic.Status) P
      → ZerobusError tonic.Status × StreamState (ZerobusError tonic.Status) P
  send_failed s =
      let e = stream_closed_error (tonic.internal "Failed to send record") in
      (e, record s { server_error = some e })
