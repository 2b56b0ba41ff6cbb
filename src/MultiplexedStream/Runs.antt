-- ===== src/MultiplexedStream/Runs.antt =====
-- Sub-streams that are lists of records, and runs of a multiplexer of them.
use zerobus_sdk.Common.{
  ℕ, ◌%◌, ◌^◌, ◌<◌, ◌≡◌, ◌≢◌, refl, ap, arith, true, false, some, List, [], ◌∷◌, ◌++◌, length,
}
use native.Mathlib.Nat.{mod-lt}
use zerobus_sdk.MultiplexedStream.{
  SubStream, Round, ok, err, Mux, mux_closed_error, shutdown_on_failure, pick_substream,
  ingest_record, flush, ingest_into, proceed, wait_for_capacity,
}
use zerobus_sdk.MultiplexedStream.Message.{message_id, stream_index, sub_offset, message_id_lem}
use zerobus_sdk.MultiplexedStream.Routing.{
  shutdown_poisons, picks_differ, picked, ingest_record-routes, Routed,
}
use zerobus_sdk.Errors.{ZerobusError}
use zerobus_sdk.Errors.Runs.{grpc}

abbrev lists : SubStream (ZerobusError grpc.Status)
lists = record {
  Stream = List ℕ;
  Record = ℕ;
  is_closed = λ s. false;
  ingest_record_offset = λ r s. (ok (length s % 2 ^ 58), s ++ r ∷ []);
  flush = λ s. (ok tt, s);
  close = λ s. (ok tt, s);
  signal_shutdown = λ s. s;
  wait_for_offset = λ o s. (ok tt, s);
  get_unacked_records = λ s. (ok s, s);
}

-- Three sub-streams, the second of which holds a record and is the next to be picked.
abbrev three : Mux grpc lists
three = record { streams = [] ∷ (5 ∷ []) ∷ [] ∷ []; round_robin_counter = 1; is_closed = false }

abbrev has_room : Round
has_room = record { mux_closed = false; stream_closed = false; has_capacity = true }

lists_small : (s t : List ℕ) (off : ℕ) → lists.ingest_record_offset 9 s ≡ (ok off, t) → off < 2 ^ 58
lists_small s t off e =
    let same : ok (length s % 2 ^ 58) ≡ ok off = ap (λ x. x.0) e in
    let eq : length s % 2 ^ 58 ≡ off = cc in
    omega (arith, mod-lt (length s) {m = 2 ^ 58} (omega arith))

ingest_record-routes_example :
    Routed grpc lists 9 three
      (record { streams = [] ∷ (5 ∷ 9 ∷ []) ∷ [] ∷ []; round_robin_counter = 2; is_closed = false })
      (message_id 1 1)
unfolding ingest_record proceed ingest_into pick_substream wait_for_capacity
ingest_record-routes_example =
    ingest_record-routes grpc lists (has_room ∷ []) 9 three
      (record { streams = [] ∷ (5 ∷ 9 ∷ []) ∷ [] ∷ []; round_robin_counter = 2; is_closed = false })
      (message_id 1 1) (omega arith) (omega arith) lists_small refl

shutdown_poisons_example :
    let closed = shutdown_on_failure grpc lists three in
    (shutdown_on_failure grpc lists closed ≡ closed)
    × (ingest_record grpc lists (has_room ∷ []) 9 closed
        ≡ some (err (mux_closed_error grpc lists), closed))
    × (flush grpc lists closed ≡ (err (mux_closed_error grpc lists), closed))
shutdown_poisons_example = shutdown_poisons grpc lists (has_room ∷ []) 9 three

picks_differ_example :
    (pick_substream grpc lists (picked grpc lists 0 three)).0
    ≢ (pick_substream grpc lists (picked grpc lists 2 three)).0
picks_differ_example = picks_differ grpc lists 0 2 three (omega arith) (omega arith) (omega arith)

message_id_lem_example :
    (stream_index (message_id 63 7) ≡ 63)
    × (sub_offset (message_id 63 7) ≡ 7)
    × (message_id (stream_index 12) (sub_offset 12) ≡ 12)
message_id_lem_example = message_id_lem 63 7 12 (omega arith) (omega arith) (omega arith)
