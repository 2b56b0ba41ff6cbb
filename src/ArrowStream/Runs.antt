-- ===== src/ArrowStream/Runs.antt =====
-- Batches that are lists of rows, and runs of a stream of them.
use Prim.Native.String.{String}
use zerobus_sdk.Common.{
  ℕ, ◌<◌, ◌≡◌, ◌⊎◌, refl, arith, true, false, none, some, List, [], ◌∷◌, ◌++◌, length, take, drop,
  All,
}
use zerobus_sdk.Common.Int.{pos}
use zerobus_sdk.OffsetGenerator.{next, default, add_one}
use zerobus_sdk.ArrowStream.{
  Arrow, PendingBatch, new_stream, keep_pending, add_u64, ZerobusResult, ok,
}
use zerobus_sdk.ArrowStream.Batch.{is_fully_acknowledged}
use zerobus_sdk.ArrowStream.Acks.{apply, acknowledge, retain_unacked}
use zerobus_sdk.ArrowStream.Ingest.{acquire, assign, hand_over, ingest_locked}
use zerobus_sdk.ArrowStream.Recovery.{
  reconnect, finalize_closed, get_unacked_batches, move_pending_to_failed,
}
use zerobus_sdk.ArrowStream.Close.{close}
use zerobus_sdk.ArrowStream.Valid.{IsValid}
use zerobus_sdk.ArrowStream.Steps.{Stream, acquires, ingests, acknowledges}
use zerobus_sdk.ArrowStream.Owed.{
  owed, Serves, idle, then_step, Reach, here, Reach-IsValid, Reach-owed,
}
use zerobus_sdk.ArrowStream.Owed
use zerobus_sdk.ArrowStream.Recovers.{Reconnected, reconnect-Reconnected}
use zerobus_sdk.ArrowStream.Retrieval.{get_unacked_batches-owed, apply_publishes, later, close_lem}
use zerobus_sdk.ArrowStream.Rotation.{rotation_deadlines_at, drain_loop, deadline, response_error}
use zerobus_sdk.ArrowStream.Rows.{all_rows}
use zerobus_sdk.ArrowStream.Drain.{drain_loop-permanent}
use zerobus_sdk.ArrowStream.Rotation.{response_end}
use zerobus_sdk.ArrowStream.Process.{
  Config, FlightAckMetadata, AckEvent, response, response_not_parsed, response_ended,
  request_send_failed, ack_wait_elapsed, waiting_for_acks, process,
}
use zerobus_sdk.ArrowStream.Supervise.{
  ArrowStreamConfigurationOptions, Round, Supervisor, reconnected, not_connected, timed_out,
  replaying, run, supervise, processed, judge, handle, recover, with_deadline, attempt_reconnect,
  after_reconnect, not_reconnected,
}
use zerobus_sdk.ArrowStream.Supervised.{total_reports, Closes, run-Closes}
use zerobus_sdk.ArrowStream.GivesUp.{AllFail, gives_up}
use zerobus_sdk.ArrowStream.Ends.{rotation_ends}
use zerobus_sdk.Errors.{
  ZerobusError, connection_timeout, invalid_argument, is_retryable, is_auth_rejection, contains,
}
use zerobus_sdk.Errors.Runs.{grpc}

abbrev lists : Arrow
lists = record {
  RecordBatch = List ℕ;
  Row = ℕ;
  Schema = Unit;
  rows = λ b. b;
  num_rows = length;
  num_rows_lem = λ b. refl;
  slice = λ b offset len. take len (drop offset b);
  rows-slice = λ b offset len h. refl;
  schema = λ b. tt;
  same_schema = λ a b. true;
}

abbrev fresh : Stream grpc lists
fresh = new_stream 2

abbrev three : List ℕ
three = 10 ∷ 11 ∷ 12 ∷ []

-- A stream with a permit taken, then with a batch of three rows, then with two acknowledged.
abbrev held : Stream grpc lists
held = record (new_stream {RecordBatch = List ℕ} 2) { inflight = 1; acquired = 1 }

abbrev filled : Stream grpc lists
filled = (ingest_locked grpc lists true none 7 three held).1

abbrev partial : Stream grpc lists
partial = (apply 2 filled).1

held_reached : Reach grpc lists 2 held [] []
unfolding acquire new_stream
held_reached = Owed.next here (acquires refl refl refl)

filled_reached : Reach grpc lists 2 filled three []
unfolding new_stream ingest_locked hand_over assign default next add_one add_u64
filled_reached = Owed.next held_reached (
    ingests none 7 three (ok (pos 0)) (omega arith) (omega arith) (omega arith) (λ e. cc) refl refl
      refl)

partial_reached : Reach grpc lists 2 partial three (10 ∷ 11 ∷ [])
unfolding new_stream ingest_locked hand_over assign default next add_one add_u64 apply acknowledge
    retain_unacked is_fully_acknowledged keep_pending
partial_reached = Owed.next filled_reached (acknowledges 2 (ok tt) refl refl refl)

Reach-owed_example : three ≡ (10 ∷ 11 ∷ []) ++ owed grpc lists partial
Reach-owed_example = Reach-owed grpc lists partial_reached

Reach-IsValid_example : IsValid lists 2 partial
Reach-IsValid_example = Reach-IsValid grpc lists partial_reached

reconnect-Reconnected_example : Reconnected grpc lists 2 partial (reconnect grpc lists 9 1 partial)
reconnect-Reconnected_example =
    reconnect-Reconnected grpc lists 2 9 1 partial (Reach-IsValid grpc lists partial_reached)

get_unacked_batches-owed_example :
    let s = finalize_closed grpc lists partial in
    let t = (get_unacked_batches grpc lists s).1 in
    (batches : List (List ℕ)) × ((get_unacked_batches grpc lists s).0 ≡ ok batches)
    × (all_rows lists batches ≡ owed grpc lists s)
    × (get_unacked_batches grpc lists t ≡ (ok batches, t))
unfolding finalize_closed move_pending_to_failed keep_pending
get_unacked_batches-owed_example =
    get_unacked_batches-owed grpc lists (finalize_closed grpc lists partial) refl

apply_publishes_example :
    let t = (apply 3 filled).1 in
    (t.last_ack ≡ none)
    ⊎ ((j : ℕ) × (t.last_ack ≡ some (pos j))
        × All
            (λ (b : PendingBatch (List ℕ)). (k : ℕ) × (b.offset_id ≡ pos k) × (j < k))
            t.pending_batches)
unfolding new_stream ingest_locked hand_over assign add_u64
apply_publishes_example =
    apply_publishes grpc lists 2 3 filled (Reach-IsValid grpc lists filled_reached) (omega arith)

-- The server acknowledges two rows while the flush waits.
abbrev acknowledging : Stream grpc lists → Stream grpc lists
acknowledging s = (apply 2 s).1

abbrev resting : Stream grpc lists → Stream grpc lists
resting s = s

served : Serves grpc lists filled (acknowledging filled) (10 ∷ 11 ∷ [])
unfolding new_stream ingest_locked hand_over assign default next add_one add_u64 apply acknowledge
    retain_unacked is_fully_acknowledged keep_pending
served = then_step {s = filled} {t = partial} (acknowledges 2 (ok tt) refl refl refl) refl idle

close_lem_example :
    let (result, t) = close grpc lists [] acknowledging resting filled in
    (t.is_closed ≡ true)
    × (t.pending_batches ≡ [])
    × (t.batch_tx ≡ none)
    × (t.supervised ≡ false)
    × (owed grpc lists filled ≡ (10 ∷ 11 ∷ []) ++ ([] ++ owed grpc lists t))
    × (close grpc lists [] acknowledging resting t ≡ later grpc lists t.server_error result t)
unfolding new_stream ingest_locked hand_over assign apply acknowledge keep_pending
close_lem_example =
    close_lem grpc lists [] acknowledging resting filled 2 [] (10 ∷ 11 ∷ []) []
      (Reach-IsValid grpc lists filled_reached) refl served idle

drain_loop-permanent_example :
    is_retryable grpc
      (drain_loop grpc
        (response_error (14, "gone") ∷ deadline ∷ [])
        false
        false
        (some (invalid_argument "schema"))
        partial).0
    ≡ false
unfolding is_retryable
drain_loop-permanent_example =
    drain_loop-permanent grpc (response_error (14, "gone") ∷ deadline ∷ []) false false
      (some (invalid_argument "schema")) partial refl

abbrev config : Config
config = record {
  last_instant = 1_000_000;
  server_lack_of_ack_timeout_ms = 60_000;
  timeout_text = "60s";
  stream_paused_max_wait_time_ms = none;
}

-- The service asks for a rotation, with two of three rows acknowledged, and the response ends.
abbrev close_signal : FlightAckMetadata
close_signal = record {
  ack_up_to_offset = pos 0;
  ack_up_to_records = 2;
  close_stream_duration_ms = some 2000;
}

abbrev rounds : List (ℕ × ℕ × AckEvent (ℕ × String))
rounds =
    (100, 101, response_not_parsed)
    ∷ (101, 102, response close_signal)
    ∷ (102, 1602, ack_wait_elapsed)
    ∷ (1602, 1602, ack_wait_elapsed)
    ∷ []

abbrev options : ArrowStreamConfigurationOptions
options = record {
  recovery = true;
  recovery_retries = 1;
  recovery_timeout_ms = 1000;
  recovery_timeout_text = "recovery_timeout_ms (1000ms)";
  ack = config;
}

-- The rotation, then a reconnection, a connection that ends, and an attempt that is too slow.
abbrev connections : List (Round (ℕ × String))
connections =
    record {
      rounds = rounds;
      drained = response_end ∷ [];
      recovery_started = 1700;
      attempt = reconnected 1800 5;
      invalidated = true;
    }
    ∷ record {
      rounds = (1900, 1901, response_ended) ∷ [];
      drained = [];
      recovery_started = 1950;
      attempt = timed_out (replaying 0);
      invalidated = true;
    }
    ∷ record {
      rounds = [];
      drained = [];
      recovery_started = 3000;
      attempt = not_connected (invalid_argument "endpoint");
      invalidated = true;
    }
    ∷ []

abbrev supervisor : Supervisor (ZerobusError (ℕ × String))
supervisor = record { pending_error = none; reconnect_auth_retry = false; recovery_attempts = 0 }

run-Closes_example :
    Closes grpc lists 2
      (total_reports connections)
      filled
      (run grpc lists options connections supervisor filled)
run-Closes_example =
    run-Closes grpc lists 2 options connections supervisor filled
      (Reach-IsValid grpc lists filled_reached)

rotation_ends_example :
    (result : ZerobusResult (ZerobusError (ℕ × String)) Unit) × (t : Stream grpc lists) × (process
        grpc lists config
        (response_end ∷ [])
        ((102, 103, response close_signal) ∷ (1602, 1603, request_send_failed) ∷ [])
        (waiting_for_acks 3 (rotation_deadlines_at 1_000_000 102 2000 none))
        filled
      ≡ some (result, t))
unfolding rotation_deadlines_at
rotation_ends_example =
    rotation_ends grpc lists config (response_end ∷ []) ((102, 103, response close_signal) ∷ [])
      1602 1603 request_send_failed 3 (rotation_deadlines_at 1_000_000 102 2000 none) filled refl

-- The first attempt has failed, and the two that are left fail too.
abbrev failures : List (Round (ℕ × String))
failures =
    record {
      rounds = [];
      drained = [];
      recovery_started = 1950;
      attempt = reconnected 1960 0;
      invalidated = true;
    }
    ∷ record {
      rounds = [];
      drained = [];
      recovery_started = 3000;
      attempt = not_connected (connection_timeout "connect");
      invalidated = true;
    }
    ∷ []

abbrev failing : Supervisor (ZerobusError (ℕ × String))
failing = record {
  pending_error = some (connection_timeout "connect");
  reconnect_auth_retry = false;
  recovery_attempts = 0;
}

-- The first of them connects and fails in the replay.
all_fail : AllFail grpc lists options failures failing filled
unfolding supervise processed judge handle recover with_deadline attempt_reconnect reconnect
    after_reconnect not_reconnected is_retryable is_auth_rejection ingest_locked new_stream contains
all_fail = ((_, refl), (tt, tt))

gives_up_example :
    (result : ZerobusResult (ZerobusError (ℕ × String)) Unit) × (t : Stream grpc lists) × (run grpc
        lists options failures failing filled
      ≡ some (result, t))
gives_up_example =
    gives_up grpc lists options failures failing filled (connection_timeout "connect") refl all_fail
      (omega arith) (omega arith) (omega arith)
