-- ===== src/ArrowStream/Reconnects.antt =====
-- rust/sdk/src/stream/arrow/supervisor.rs: what a recovery of `Supervisor::run` keeps.
use zerobus_sdk.Common.{ℕ, ◌≡◌, refl, ◌∙◌, Bool, true, false, some, List, leb, if◌then◌else◌}
use zerobus_sdk.ArrowStream.{Arrow, ZerobusResult, ok, err}
use zerobus_sdk.ArrowStream.Acks.{clear, pause_and_detach_sender}
use zerobus_sdk.ArrowStream.Recovery.{
  replay_pending_batches, commit_reconnect_after_replay, reconnect, finalize_closed,
}
use zerobus_sdk.ArrowStream.Supervise.{
  ArrowStreamConfigurationOptions, Interrupted, connecting, replaying, committed, Attempt,
  reconnected, not_connected, timed_out, Round, Supervisor, Verdict, supervises, exits, terminate,
  interrupt, not_reconnected, after_reconnect, attempt_reconnect, with_deadline, recover,
}
use zerobus_sdk.ArrowStream.Valid.{IsValid}
use zerobus_sdk.ArrowStream.Steps.{Stream, finalize-IsValid}
use zerobus_sdk.ArrowStream.Owed.{owed, finalize-owed}
use zerobus_sdk.ArrowStream.Recovers.{Reconnected, replay-Reconnected, reconnect-Reconnected}
use zerobus_sdk.Errors.{Tonic, ZerobusError, is_auth_rejection}

module _ (tonic : Tonic) (arrow : Arrow) where
  -- The stream is valid and owes the same rows.
  abbrev pub Same : ℕ → Stream tonic arrow → Stream tonic arrow → Type 0
  Same capacity s t = IsValid arrow capacity t × (owed tonic arrow t ≡ owed tonic arrow s)

  pub terminate-Same :
      (capacity : ℕ) (e : ZerobusError tonic.Status) (s t : Stream tonic arrow)
      → Same capacity s t
      → Same capacity s (terminate tonic arrow e t) × ((terminate tonic arrow e t).is_closed ≡ true)
  unfolding terminate finalize_closed
  terminate-Same capacity e s t (v, h) =
      let t' : Stream tonic arrow = record t { server_error = some e } in
      ((finalize-IsValid tonic arrow capacity t' v, finalize-owed tonic arrow t' ∙ h), refl)

  Reconnected-Same :
      (capacity : ℕ) (s t : Stream tonic arrow)
      (result : ZerobusResult (ZerobusError tonic.Status) Unit) (sent : List arrow.RecordBatch)
      → Reconnected tonic arrow capacity s (result, sent, t)
      → Same capacity s t
  Reconnected-Same capacity s t result sent (v, rows, failed, _) = (v, rw (rows, failed) refl)

  commit-Same :
      (capacity : ℕ) (s t : Stream tonic arrow)
      (result : ZerobusResult (ZerobusError tonic.Status) Unit)
      → Same capacity s t
      → Same capacity s (commit_reconnect_after_replay tonic arrow result t).1
  unfolding commit_reconnect_after_replay
  commit-Same capacity s t (err e) h = h
  commit-Same capacity s t (ok _) ((c, p, sender, opened, closed), h) =
      ((c, p, (λ a b. (true, refl)), opened, closed), h)

  interrupt-Same :
      (capacity : ℕ) (at : Interrupted) (s : Stream tonic arrow)
      → IsValid arrow capacity s
      → Same capacity s (interrupt tonic arrow at s)
  unfolding interrupt
  interrupt-Same capacity connecting s v = (v, refl)
  interrupt-Same capacity (replaying sends) s v =
      let (result, sent, t) = replay_pending_batches tonic arrow sends s.last_acked_records s in
      Reconnected-Same capacity s t result sent (replay-Reconnected tonic arrow capacity sends s v)
  interrupt-Same capacity (committed sends) s v =
      let (result, sent, t) = replay_pending_batches tonic arrow sends s.last_acked_records s in
      commit-Same capacity s t result (
        Reconnected-Same capacity s t result sent
          (replay-Reconnected tonic arrow capacity sends s v))

  -- A supervisor that goes on, or exits, with a stream that owes the same; on an exit it is closed.
  abbrev pub SameIn : ℕ → Stream tonic arrow → Verdict tonic arrow → Type 0
  SameIn capacity s (supervises v t) = Same capacity s t
  SameIn capacity s (exits result t) = Same capacity s t × (t.is_closed ≡ true)

  pub if_SameIn :
      (capacity : ℕ) (s : Stream tonic arrow) (b : Bool) (o o' : Verdict tonic arrow)
      → SameIn capacity s o
      → SameIn capacity s o'
      → SameIn capacity s (if b then o else o')
  if_SameIn capacity s true o o' h h' = h
  if_SameIn capacity s false o o' h h' = h'

  not_reconnected-SameIn :
      (capacity : ℕ) (invalidated : Bool) (e : ZerobusError tonic.Status)
      (v : Supervisor (ZerobusError tonic.Status)) (s t : Stream tonic arrow)
      → Same capacity s t
      → SameIn capacity s (not_reconnected tonic arrow invalidated e v t)
  unfolding not_reconnected
  not_reconnected-SameIn capacity invalidated e v s t h =
      if_SameIn capacity s (is_auth_rejection tonic e) _ _
        (if_SameIn capacity s invalidated _ _ h (terminate-Same capacity e s t h)) h

  after_reconnect-SameIn :
      (capacity : ℕ) (invalidated : Bool) (result : ZerobusResult (ZerobusError tonic.Status) Unit)
      (v : Supervisor (ZerobusError tonic.Status)) (s t : Stream tonic arrow)
      → Same capacity s t
      → SameIn capacity s (after_reconnect tonic arrow invalidated result v t)
  unfolding after_reconnect
  after_reconnect-SameIn capacity invalidated (ok _) v s t h = h
  after_reconnect-SameIn capacity invalidated (err e) v s t h =
      not_reconnected-SameIn capacity invalidated e v s t h

  attempt-SameIn :
      (capacity : ℕ) (o : ArrowStreamConfigurationOptions) (r : Round tonic.Status)
      (a : Attempt (ZerobusError tonic.Status)) (v : Supervisor (ZerobusError tonic.Status))
      (s : Stream tonic arrow)
      → IsValid arrow capacity s
      → SameIn capacity s (attempt_reconnect tonic arrow o r a v s)
  unfolding attempt_reconnect
  attempt-SameIn capacity o r (reconnected now open_for) v s i =
      let (result, sent, t) = reconnect tonic arrow now open_for s in
      after_reconnect-SameIn capacity r.invalidated result v s t (
        Reconnected-Same capacity s t result sent
          (reconnect-Reconnected tonic arrow capacity now open_for s i))
  attempt-SameIn capacity o r (not_connected e) v s i =
      not_reconnected-SameIn capacity r.invalidated e v s s (i, refl)
  attempt-SameIn capacity o r (timed_out at) v s i = interrupt-Same capacity at s i

  with_deadline-SameIn :
      (capacity : ℕ) (o : ArrowStreamConfigurationOptions) (r : Round tonic.Status)
      (d : ZerobusResult (ZerobusError tonic.Status) ℕ) (v : Supervisor (ZerobusError tonic.Status))
      (s : Stream tonic arrow)
      → IsValid arrow capacity s
      → SameIn capacity s (with_deadline tonic arrow o r d v s)
  unfolding with_deadline
  with_deadline-SameIn capacity o r (err e) v s i = (i, refl)
  with_deadline-SameIn capacity o r (ok d) v s i = attempt-SameIn capacity o r r.attempt v s i

  pub recover-SameIn :
      (capacity : ℕ) (o : ArrowStreamConfigurationOptions) (r : Round tonic.Status)
      (e : ZerobusError tonic.Status) (v : Supervisor (ZerobusError tonic.Status))
      (s : Stream tonic arrow)
      → IsValid arrow capacity s
      → SameIn capacity s (recover tonic arrow o r e v s)
  unfolding recover clear pause_and_detach_sender
  recover-SameIn capacity o r e v s (c, p, sender, opened, closed) =
      if_SameIn capacity s (leb o.recovery_retries v.recovery_attempts) _ _
        (terminate-Same capacity e s s ((c, p, sender, opened, closed), refl))
        (with_deadline-SameIn capacity o r _ _ _
          (c, p, (λ a b. let bad : true ≡ false = a in cc), opened, closed))
