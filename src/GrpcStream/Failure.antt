-- ===== src/GrpcStream/Failure.antt =====
-- What a failure of the stream leaves for `get_unacked_batches`.
use Prim.Native.String.{String}
use zerobus_sdk.Common.{◌≡◌, refl, arith, Bool, true, false, some, List, ◌++◌, map}
use mathlib.Core.List.{append-nil}
use zerobus_sdk.Errors.{Tonic, ZerobusError}
use zerobus_sdk.LandingZone.{remove_all}
use zerobus_sdk.LandingZone.History.{contents}
use zerobus_sdk.GrpcStream.State.{StreamState, IngestRequest}
use zerobus_sdk.GrpcStream.Supervisor.{
  fail_all_pending_records, creation_failed, on_failure, get_unacked_batches, reported,
}
use zerobus_sdk.GrpcStream.Outcomes.{fail_loop-kept}

module _ {ℓ} (tonic : Tonic) (P : Type ℓ) where
  -- The payloads that were set aside, and those still in the zone, in order.
  unfoldable pub payloads : StreamState (ZerobusError tonic.Status) P → List P
  payloads s =
      s.failed_records ++ map (λ (r : IngestRequest P). r.payload) (contents s.landing_zone)

  get_unacked_lem :
      (s : StreamState (ZerobusError tonic.Status) P)
      → s.is_closed ≡ true
      → (t : StreamState (ZerobusError tonic.Status) P) × (get_unacked_batches tonic s
          ≡ some (payloads s, t))
        × (payloads t ≡ payloads s)
        × (t.is_closed ≡ true)
  unfolding payloads get_unacked_batches remove_all
  get_unacked_lem s h = (
    record s { landing_zone = (remove_all s.landing_zone).1; failed_records = payloads s },
    rw h refl,
    append-nil (payloads s),
    h,
  )

  -- Calls of `get_unacked_batches` on a stream that is closed all return the same: the payloads
  -- set aside and then those in the zone.
  get_unacked_batches_again :
      (s : StreamState (ZerobusError tonic.Status) P)
      → s.is_closed ≡ true
      → (t u : StreamState (ZerobusError tonic.Status) P) × (get_unacked_batches tonic s
          ≡ some (payloads s, t))
        × (get_unacked_batches tonic t ≡ some (payloads s, u))
  get_unacked_batches_again s h =
      let (t, e, same, closed) = get_unacked_lem s h in
      let (u, e', same', closed') = get_unacked_lem t closed in (t, u, e, rw same at e')

module _ {ℓ} (tonic : Tonic) (P : Type ℓ) (to_string : ZerobusError tonic.Status → String) where
  fail_all-payloads :
      (e : ZerobusError tonic.Status) (s : StreamState (ZerobusError tonic.Status) P)
      → (payloads tonic P (fail_all_pending_records to_string e s) ≡ payloads tonic P s)
        × ((fail_all_pending_records to_string e s).failed_records ≡ payloads tonic P s)
        × ((fail_all_pending_records to_string e s).is_closed ≡ s.is_closed)
  unfolding payloads fail_all_pending_records remove_all
  fail_all-payloads e s =
      let drained : StreamState (ZerobusError tonic.Status) P = record s {
        landing_zone = (remove_all s.landing_zone).1;
      } in
      let ((z, g, c), f, d) = fail_loop-kept to_string e (remove_all s.landing_zone).0 drained in
      (rw (z, f) (append-nil _), f, d)

  gives_up :
      (recovery : Bool) (e : ZerobusError tonic.Status)
      (s : StreamState (ZerobusError tonic.Status) P)
      → (on_failure tonic to_string recovery e s).0 ≡ true
      → (payloads tonic P (on_failure tonic to_string recovery e s).2 ≡ payloads tonic P s)
        × ((on_failure tonic to_string recovery e s).2.is_closed ≡ true)
  unfolding on_failure payloads
  gives_up recovery e s h = ground (
    arith,
    fail_all-payloads (reported tonic e)
        (record s { server_error = some (reported tonic e); is_closed = true }),
  )

  -- From `s` to `t` the supervisor gives up: on a failure of a connection, or since a stream cannot be
  -- created again.
  pub data GivesUp (s t : StreamState (ZerobusError tonic.Status) P) : Type ℓ where
    fails :
        (recovery : Bool) (e : ZerobusError tonic.Status)
        → (on_failure tonic to_string recovery e s).0 ≡ true
        → t ≡ (on_failure tonic to_string recovery e s).2
        → GivesUp s t
    not_created :
        (e : ZerobusError tonic.Status) → t ≡ creation_failed to_string false e s → GivesUp s t

  GivesUp-payloads :
      (s t : StreamState (ZerobusError tonic.Status) P)
      → GivesUp s t
      → (payloads tonic P t ≡ payloads tonic P s) × (t.is_closed ≡ true)
  unfolding creation_failed payloads
  GivesUp-payloads s t (fails recovery e h same) = rw same (gives_up recovery e s h)
  GivesUp-payloads s t (not_created e same) =
      let (kept, _, closed) = fail_all-payloads e (record s { is_closed = true }) in
      rw same (kept, closed)

  -- When the supervisor gives up, on a failure of a connection or since a stream cannot be created
  -- again, the next call of `get_unacked_batches` returns every payload that was not acknowledged, in
  -- order: those set aside before and those that were in the zone.
  pub GivesUp-get_unacked_batches :
      (s t : StreamState (ZerobusError tonic.Status) P)
      → GivesUp s t
      → (u : StreamState (ZerobusError tonic.Status) P) × (get_unacked_batches tonic t
          ≡ some (payloads tonic P s, u))
  GivesUp-get_unacked_batches s t h =
      let (same, closed) = GivesUp-payloads s t h in
      let (u, got, _, _) = get_unacked_lem tonic P t closed in (u, rw same at got)
