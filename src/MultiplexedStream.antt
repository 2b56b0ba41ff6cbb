-- ===== src/MultiplexedStream.antt =====
-- rust/sdk/src/multiplexed_stream.rs: the stream that spreads records over sub-streams. A sub-stream
-- is used through what `ZerobusStream` offers; a wait for capacity is the list of what its rounds
-- read. An i64 and a usize are their bit patterns.
pub mod Message
pub mod Routing
mod Runs
use Prim.Native.String.{String, ◌++◌ as append}
use zerobus_sdk.Common.{
  ℕ, ◌+◌, ◌*◌, ◌%◌, ◌^◌, min, Bool, true, false, ◌||◌, Option, none, some, List, [], ◌∷◌, ◌++◌, map,
  length, set, get_elem?, if◌then◌else◌, ltb,
}
use zerobus_sdk.Common.Text.{to_string}
use zerobus_sdk.MultiplexedStream.Message.{message_id, stream_index, sub_offset}
use zerobus_sdk.Errors.{Tonic, ZerobusError, invalid_state_error, invalid_argument}

pub data MuxResult (E A : Type 0) : Type 0 where
  ok : A → MuxResult E A
  err : E → MuxResult E A

-- The operations of a sub-stream that the multiplexer calls.
pub record SubStream (E : Type 0) : Type 1 where
  pub Stream : Type 0
  pub Record : Type 0
  pub is_closed : Stream → Bool
  pub ingest_record_offset : Record → Stream → MuxResult E ℕ × Stream
  pub flush : Stream → MuxResult E Unit × Stream
  pub close : Stream → MuxResult E Unit × Stream
  pub signal_shutdown : Stream → Stream
  pub wait_for_offset : ℕ → Stream → MuxResult E Unit × Stream
  pub get_unacked_records : Stream → MuxResult E (List Record) × Stream

pub record MultiplexedStream (Stream : Type 0) : Type 0 where
  pub streams : List Stream
  pub round_robin_counter : ℕ
  pub is_closed : Bool

-- A round of the loop of `wait_for_capacity`.
pub record Round : Type 0 where
  pub mux_closed : Bool
  pub stream_closed : Bool
  pub has_capacity : Bool

-- The next pause of that loop, in milliseconds.
unfoldable pub next_backoff : ℕ → ℕ
next_backoff backoff_ms = min (backoff_ms * 2) 50

-- How a wait for capacity ends; it is cut off where it goes on.
pub data Wait : Type 0 where
  ready closed_mux closed_stream waiting : Wait

unfoldable pub wait_for_capacity : List Round → Wait
wait_for_capacity [] = waiting
wait_for_capacity (r ∷ rounds) =
    let rest = wait_for_capacity rounds in
    if r.mux_closed
    then closed_mux
    else if r.stream_closed
    then closed_stream
    else if r.has_capacity
    then ready
    else rest

module _ (tonic : Tonic) (sub : SubStream (ZerobusError tonic.Status)) where
  abbrev pub Mux : Type 0
  Mux = MultiplexedStream sub.Stream

  abbrev pub mux_closed_error : ZerobusError tonic.Status
  mux_closed_error = invalid_state_error "MultiplexedStream is closed"

  -- `new` asserts that there is at least one sub-stream, and that there are at most 64.
  unfoldable pub new : List sub.Stream → Option Mux
  new [] = none
  new (s ∷ streams) =
      if ltb 64 (length (s ∷ streams))
      then none
      else some (record { streams = s ∷ streams; round_robin_counter = 0; is_closed = false })

  -- Each sub-stream after an operation on all of them.
  unfoldable pub on_all :
      {A : Type 0} → (sub.Stream → A × sub.Stream) → List sub.Stream → List sub.Stream
  on_all f [] = []
  on_all f (s ∷ streams) = (f s).1 ∷ on_all f streams

  unfoldable pub shutdown_on_failure : Mux → Mux
  unfolding on_all
  shutdown_on_failure m = if m.is_closed then m else record m {
    is_closed = true;
    streams = map sub.signal_shutdown (on_all sub.flush m.streams);
  }

  -- The index picked, and the counter after it.
  unfoldable pub pick_substream : Mux → ℕ × Mux
  pick_substream m = (
    m.round_robin_counter % length m.streams,
    record m { round_robin_counter = (m.round_robin_counter + 1) % 2 ^ 64 },
  )

  -- An ingest into sub-stream `idx` once it has capacity.
  abbrev pub handle_ingest_error : sub.Stream → Mux → Mux
  handle_ingest_error stream m = if sub.is_closed stream then shutdown_on_failure m else m

  unfoldable pub ingest_into : ℕ → sub.Record → Mux → MuxResult (ZerobusError tonic.Status) ℕ × Mux
  ingest_into idx item m = elim (get_elem? m.streams idx) [
    | none ↦ (err mux_closed_error, m)
    | some s ↦
        let (result, t) = sub.ingest_record_offset item s in
        let after = record m { streams = set m.streams idx t } in
        if m.is_closed then (err mux_closed_error, m) else elim result [
          | ok off ↦ (ok (message_id idx off), after)
          | err e ↦ (err e, handle_ingest_error t after)
        ]
  ]

  -- What follows the wait for capacity: `none` while the call waits.
  unfoldable pub proceed :
      Wait → ℕ → sub.Record → Mux → Option (MuxResult (ZerobusError tonic.Status) ℕ × Mux)
  unfolding ingest_into shutdown_on_failure
  proceed waiting idx item m = none
  proceed closed_mux idx item m = some (err mux_closed_error, m)
  proceed closed_stream idx item m = some (
    err (
        invalid_state_error (append "Sub-stream " (append (to_string idx) " closed unexpectedly"))),
    shutdown_on_failure m,
  )
  proceed ready idx item m = some (ingest_into idx item m)

  unfoldable pub ingest_record :
      List Round → sub.Record → Mux → Option (MuxResult (ZerobusError tonic.Status) ℕ × Mux)
  unfolding pick_substream proceed wait_for_capacity
  ingest_record rounds item m =
      let (idx, picked) = pick_substream m in
      if m.is_closed
      then some (err mux_closed_error, m)
      else proceed (wait_for_capacity rounds) idx item picked

  unfoldable pub wait_for_message_id : ℕ → Mux → MuxResult (ZerobusError tonic.Status) Unit × Mux
  unfolding shutdown_on_failure
  wait_for_message_id id m = elim (get_elem? m.streams (stream_index id)) [
    | none ↦ (
      err (
          invalid_argument (
            append "Invalid stream index "
              (append (to_string (stream_index id)) " in message id"))),
      m,
    )
    | some s ↦
        let (result, t) = sub.wait_for_offset (sub_offset id) s in
        let after = record m { streams = set m.streams (stream_index id) t } in
        elim result [ ok _ ↦ (ok tt, after) | err e ↦ (err e, handle_ingest_error t after) ]
  ]

  -- The first error of an operation on all sub-streams.
  unfoldable pub first_error :
      (sub.Stream → MuxResult (ZerobusError tonic.Status) Unit × sub.Stream)
      → List sub.Stream
      → Option (ZerobusError tonic.Status)
  first_error f [] = none
  first_error f (s ∷ streams) =
      let rest = first_error f streams in elim (f s).0 [ ok _ ↦ rest | err e ↦ some e ]

  -- Whether a sub-stream failed to flush and is closed.
  unfoldable pub any_closed : List sub.Stream → Bool
  any_closed [] = false
  any_closed (s ∷ streams) =
      let rest = any_closed streams in
      let (result, t) = sub.flush s in elim result [ ok _ ↦ rest | err e ↦ sub.is_closed t || rest ]

  unfoldable pub flush : Mux → MuxResult (ZerobusError tonic.Status) Unit × Mux
  unfolding on_all first_error any_closed shutdown_on_failure
  flush m =
      let after = record m { streams = on_all sub.flush m.streams } in
      if m.is_closed then (err mux_closed_error, m) else elim (first_error sub.flush m.streams) [
        | none ↦ (ok tt, after)
        | some e ↦ (err e, if any_closed m.streams then shutdown_on_failure after else after)
      ]

  unfoldable pub close : Mux → MuxResult (ZerobusError tonic.Status) Unit × Mux
  unfolding on_all first_error
  close m =
      let flushed = on_all sub.flush m.streams in
      let after = record m { is_closed = true; streams = on_all sub.close flushed } in
      elim (first_error sub.flush m.streams) [
        | some e ↦ (err e, after)
        | none ↦ elim (first_error sub.close flushed) [
          | some e ↦ (err e, after)
          | none ↦ (ok tt, after)
        ]
      ]

  -- The loop of `get_unacked_records`: an error ends it.
  unfoldable pub collect : List sub.Stream → MuxResult (ZerobusError tonic.Status) (List sub.Record)
  collect [] = ok []
  collect (s ∷ streams) =
      let rest = collect streams in
      elim (sub.get_unacked_records s).0 [
        | err e ↦ err e
        | ok records ↦ elim rest [ ok more ↦ ok (records ++ more) | err e ↦ err e ]
      ]

  unfoldable pub get_unacked_records : Mux → MuxResult (ZerobusError tonic.Status) (List sub.Record)
  unfolding close collect
  get_unacked_records m = collect (close m).1.streams
