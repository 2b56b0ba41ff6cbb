-- ===== src/GrpcStream/Runs.antt =====
-- Runs of a stream on concrete records, numbered by their payloads.
use Prim.Native.String.{String}
use zerobus_sdk.Common.{
  ℕ, ◌+◌, ◌-◌, ◌≡◌, refl, arith, true, false, none, some, List, [], ◌∷◌, ◌++◌, length,
}
use zerobus_sdk.Common.Int.{ℤ, pos, negsuc}
use zerobus_sdk.Common.Assoc.{lookup}
use zerobus_sdk.Errors.{ZerobusError, connection_timeout}
use zerobus_sdk.Errors.Runs.{grpc}
use zerobus_sdk.OffsetGenerator.Sequence.{before, range_from}
use zerobus_sdk.GrpcStream.State.{
  IngestRequest, Connection, CallbackMessage, ack, new_connection, ingest_locked, send_next,
}
use zerobus_sdk.GrpcStream.Receiver.{ack_up_to, ack_one}
use zerobus_sdk.GrpcStream.Supervisor.{
  fail_one, fail_all_pending_records, creation_failed, get_unacked_batches,
}
use zerobus_sdk.GrpcStream.Outcomes.{told, pending}
use zerobus_sdk.GrpcStream.History.{
  StreamOf, StreamReach, opened, then_step, ingests, sends, acks, fails, one_callback_each,
  new_stream,
}
use zerobus_sdk.GrpcStream.Failure.{payloads, not_created, GivesUp-get_unacked_batches}
use zerobus_sdk.GrpcStream.Acks.{ack_up_to-acknowledges}

abbrev text : ZerobusError (ℕ × String) → String
text e = "failed"

abbrev request : ℕ → IngestRequest ℕ
request n = record { payload = n; offset_id = pos n }

abbrev stream_with :
    List (IngestRequest ℕ) → List (IngestRequest ℕ) → List CallbackMessage → StreamOf grpc ℕ
stream_with queue observed callbacks = record {
  landing_zone = record {
    queue = queue;
    observed_items = observed;
    semaphore = 1;
    acquired = 0;
    permits = length queue + length observed;
  };
  logical_offset_id_generator = record { last_offset_id = pos 2 };
  oneshot_map = (pos 1, 7) ∷ [];
  answers = [];
  has_callback = true;
  callbacks = callbacks;
  last_received_offset_id = none;
  failed_records = [];
  server_error = none;
  is_closed = false;
}

abbrev two_sent : StreamOf grpc ℕ
two_sent = stream_with (request 2 ∷ []) (request 0 ∷ request 1 ∷ []) []

abbrev no_acks : Connection
no_acks = record {
  last_acked_offset = negsuc 0;
  pause_deadline = none;
  is_paused = false;
  physical_offset_id_generator = record { last_offset_id = pos 1 };
}

ack_up_to-acknowledges_example :
    let (c', t) = ack_up_to (before (0 + 2)) no_acks two_sent in
    (t.callbacks ≡ [] ++ ack (pos 0) ∷ ack (pos 1) ∷ [])
    × (t.landing_zone.observed_items ≡ [])
    × (t.landing_zone.queue ≡ request 2 ∷ [])
    × (c'.last_acked_offset ≡ before (0 + 2))
ack_up_to-acknowledges_example =
    ack_up_to-acknowledges 0 (request 0 ∷ request 1 ∷ []) [] no_acks two_sent refl refl
      (omega arith) refl

abbrev closed_stream : StreamOf grpc ℕ
closed_stream = record two_sent { is_closed = true; failed_records = 9 ∷ [] }

GivesUp-get_unacked_batches_example :
    (u : StreamOf grpc ℕ) × (get_unacked_batches grpc
        (creation_failed text false (connection_timeout "slow") two_sent)
      ≡ some (payloads grpc ℕ two_sent, u))
GivesUp-get_unacked_batches_example =
    GivesUp-get_unacked_batches grpc ℕ text two_sent
      (creation_failed text false (connection_timeout "slow") two_sent)
      (not_created (connection_timeout "slow") refl)

-- One record is taken in, sent and acknowledged, and another is taken in and fails.
abbrev at :
    List (IngestRequest ℕ) → List (IngestRequest ℕ) → ℤ → List CallbackMessage → StreamOf grpc ℕ
at queue observed last callbacks = record {
  landing_zone = record {
    queue = queue;
    observed_items = observed;
    semaphore = 2 - (length queue + length observed);
    acquired = 0;
    permits = length queue + length observed;
  };
  logical_offset_id_generator = record { last_offset_id = last };
  oneshot_map = [];
  answers = [];
  has_callback = true;
  callbacks = callbacks;
  last_received_offset_id = none;
  failed_records = [];
  server_error = none;
  is_closed = false;
}

abbrev Run : ℕ → StreamOf grpc ℕ → Type 0
Run n s = StreamReach grpc ℕ 2 n s

abbrev taken_in : StreamOf grpc ℕ
taken_in = at (request 0 ∷ []) [] (pos 0) []

abbrev sent : StreamOf grpc ℕ
sent = at [] (request 0 ∷ []) (pos 0) []

abbrev acknowledged : StreamOf grpc ℕ
acknowledged = at [] [] (pos 0) (ack (pos 0) ∷ [])

abbrev second : StreamOf grpc ℕ
second = at (request 1 ∷ []) [] (pos 1) (ack (pos 0) ∷ [])

taken_in-Run : Run 1 taken_in
unfolding new_stream ingest_locked
taken_in-Run = then_step opened (ingests 0 (pos 0) taken_in refl)

sent-Run : Run 1 sent
unfolding send_next new_connection
sent-Run = then_step taken_in-Run (
    sends false new_connection
      (record no_acks { physical_offset_id_generator = record { last_offset_id = pos 0 } })
      (pos 0, 0) sent refl)

acknowledged-Run : Run 1 acknowledged
unfolding ack_one lookup
acknowledged-Run = then_step sent-Run (acks (pos 0) acknowledged refl)

second-Run : Run 2 second
unfolding ingest_locked
second-Run = then_step acknowledged-Run (ingests 1 (pos 1) second refl)

abbrev failed_stream : StreamOf grpc ℕ
failed_stream = fail_all_pending_records text (connection_timeout "slow") second

failed-Run : Run 2 failed_stream
failed-Run = then_step second-Run (fails text (connection_timeout "slow"))

one_callback_each_example : told failed_stream ++ pending failed_stream ≡ range_from 0 2
one_callback_each_example = one_callback_each grpc ℕ 2 2 failed_stream (omega arith) failed-Run

told_in_order : failed_stream.callbacks ≡ ack (pos 0) ∷ CallbackMessage.error (pos 1) "failed" ∷ []
unfolding fail_all_pending_records fail_one lookup
told_in_order = refl
