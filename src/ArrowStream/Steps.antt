-- ===== src/ArrowStream/Steps.antt =====
-- The steps of a stream whose option `recovery` is on, and what they keep.
use zerobus_sdk.Common.{
  ℕ, ◌+◌, ◌-◌, ◌^◌, ◌<◌, ◌≡◌, ◌≢◌, inl, inr, refl, ap, subst, arith, true, false, not, ◌&&◌, Option,
  some, List, [], take, Bool-cases,
}
use zerobus_sdk.Common.Int.{ℤ, pos}
use zerobus_sdk.ArrowStream.{Arrow, ArrowStream, ZerobusResult, ok, err, keep_pending}
use zerobus_sdk.ArrowStream.Acks.{
  apply, pause_and_detach_sender, pause_and_snapshot_submitted, clear,
}
use zerobus_sdk.ArrowStream.Ingest.{acquire, ingest_locked}
use zerobus_sdk.ArrowStream.Recovery.{reconnect, finalize_closed, move_pending_to_failed}
use zerobus_sdk.ArrowStream.Close.{Round, keep_result, begin_close, tear_down, end_close}
use zerobus_sdk.ArrowStream.Rows.{unacked_rows}
use zerobus_sdk.ArrowStream.Valid.{IsValid, apply-IsValid, acquire-IsValid}
use zerobus_sdk.ArrowStream.Admits.{ingest-IsValid}
use zerobus_sdk.ArrowStream.Recovers.{reconnect-Reconnected}
use zerobus_sdk.Errors.{Tonic, ZerobusError}

module _ (tonic : Tonic) (arrow : Arrow) where
  abbrev pub Stream : Type 0
  Stream = ArrowStream arrow.RecordBatch (ZerobusError tonic.Status)

  abbrev pub accepted :
      arrow.RecordBatch → ZerobusResult (ZerobusError tonic.Status) ℤ → List arrow.Row
  accepted batch (ok _) = arrow.rows batch
  accepted batch (err _) = []

  -- `put` are the rows whose offset a call returns in the step, `taken` those that the server
  -- acknowledges in it.
  pub data Step : Stream → Stream → List arrow.Row → List arrow.Row → Type 0 where
    acquires :
        {s t : Stream} {put taken : List arrow.Row}
        → acquire tonic arrow s ≡ some t
        → put ≡ []
        → taken ≡ []
        → Step s t put taken
    ingests :
        {s t : Stream} {put taken : List arrow.Row} (late : Option (ZerobusError tonic.Status))
        (now : ℕ) (batch : arrow.RecordBatch) (result : ZerobusResult (ZerobusError tonic.Status) ℤ)
        → 0 < s.acquired
        → 0 < arrow.num_rows batch
        → s.cumulative_records_assigned + arrow.num_rows batch < 2 ^ 64
        → s.offset_generator.last_offset_id ≢ pos (2 ^ 63 - 1)
        → ingest_locked tonic arrow true late now batch s ≡ (result, t)
        → put ≡ accepted batch result
        → taken ≡ []
        → Step s t put taken
    acknowledges :
        {s t : Stream} {put taken : List arrow.Row} (n : ℕ)
        (result : ZerobusResult (ZerobusError tonic.Status) Unit)
        → apply n s ≡ (result, t)
        → put ≡ []
        → taken
          ≡ take
              (t.last_acked_records - s.last_acked_records)
              (unacked_rows arrow s.last_acked_records s.pending_batches)
        → Step s t put taken
    channel_closes :
        {s t : Stream} {put taken : List arrow.Row}
        → s.batch_tx ≡ some true
        → t ≡ record s { batch_tx = some false }
        → put ≡ []
        → taken ≡ []
        → Step s t put taken
    pauses :
        {s t : Stream} {put taken : List arrow.Row}
        → t ≡ (pause_and_snapshot_submitted s).1
        → put ≡ []
        → taken ≡ []
        → Step s t put taken
    detaches :
        {s t : Stream} {put taken : List arrow.Row}
        → t ≡ clear (pause_and_detach_sender s)
        → put ≡ []
        → taken ≡ []
        → Step s t put taken
    reconnects :
        {s t : Stream} {put taken : List arrow.Row} (now open_for : ℕ)
        (result : ZerobusResult (ZerobusError tonic.Status) Unit) (sent : List arrow.RecordBatch)
        → reconnect tonic arrow now open_for s ≡ (result, sent, t)
        → put ≡ []
        → taken ≡ []
        → Step s t put taken
    finalizes :
        {s t : Stream} {put taken : List arrow.Row}
        → t ≡ finalize_closed tonic arrow s
        → put ≡ []
        → taken ≡ []
        → Step s t put taken
    -- What the flush of `close` waits for are the steps before.
    begins_close :
        {s t : Stream} {put taken : List arrow.Row}
        (rounds : List (Round (ZerobusError tonic.Status)))
        → (s.is_closed && not s.close_teardown_started) ≡ false
        → t ≡ (begin_close tonic arrow rounds (λ x. x) s).1
        → put ≡ []
        → taken ≡ []
        → Step s t put taken
    tears_down :
        {s t : Stream} {put taken : List arrow.Row}
        → s.close_teardown_started ≡ true
        → t ≡ tear_down tonic arrow s
        → put ≡ []
        → taken ≡ []
        → Step s t put taken
    ends_close :
        {s t : Stream} {put taken : List arrow.Row}
        → t ≡ end_close tonic arrow s
        → put ≡ []
        → taken ≡ []
        → Step s t put taken

  pub finalize-IsValid :
      (capacity : ℕ) (s : Stream)
      → IsValid arrow capacity s
      → IsValid arrow capacity (finalize_closed tonic arrow s)
  unfolding finalize_closed move_pending_to_failed keep_pending
  finalize-IsValid capacity s
        ((base, m, l, co, num, gen, i64, u, acked, sub, small), p, sender, open_, closed) =
      (
        (
          s.cumulative_records_assigned,
          m,
          (λ e. let bad : true ≡ false = e in cc),
          refl,
          omega arith,
          gen,
          i64,
          tt,
          acked,
          sub,
          small,
        ),
        omega arith,
        (λ a e. let bad : true ≡ false = e in cc),
        (λ e. let bad : true ≡ false = e in cc),
        (λ e. refl),
      )

  pub keep_result-IsValid :
      (capacity : ℕ) (result : ZerobusResult (ZerobusError tonic.Status) Unit) (s : Stream)
      → IsValid arrow capacity s
      → IsValid arrow capacity (keep_result tonic arrow result s)
  keep_result-IsValid capacity result s (c, p, sender, open_, closed) =
      (c, p, (λ a b. ground arith), open_, closed)

  begin_close-IsValid :
      (capacity : ℕ) (rounds : List (Round (ZerobusError tonic.Status))) (s : Stream)
      → IsValid arrow capacity s
      → IsValid arrow capacity (begin_close tonic arrow rounds (λ x. x) s).1
  unfolding begin_close
  begin_close-IsValid capacity rounds s (c, p, sender, open_, closed) =
      elim (Bool-cases s.close_teardown_started) [
        | inl e ↦ rw (e, begin_close) (c, p, (λ a b. ground arith), open_, closed)
        | inr e ↦ rw (e, begin_close) (c, p, (λ a b. ground arith), open_, closed)
      ]

  pub Step-IsValid :
      (capacity : ℕ) {s t : Stream} {put taken : List arrow.Row}
      → IsValid arrow capacity s
      → Step s t put taken
      → IsValid arrow capacity t
  unfolding pause_and_snapshot_submitted pause_and_detach_sender clear begin_close tear_down
      end_close
  Step-IsValid capacity {s} {t} v (acquires e p k) = acquire-IsValid tonic arrow capacity s t v e
  Step-IsValid capacity {s} v (ingests late now batch result permit rows h k e p q) =
      subst (IsValid arrow capacity) (ap (λ r. r.1) e)
        (ingest-IsValid tonic arrow capacity late now batch s v permit rows h k)
  Step-IsValid capacity {s} v (acknowledges n result e p k) =
      subst (IsValid arrow capacity) (ap (λ r. r.1) e) (apply-IsValid tonic arrow capacity n s v)
  Step-IsValid capacity {s} (c, p, sender, open_, closed) (channel_closes h e put taken) =
      rw e (c, p, (λ a b. (false, refl)), open_, closed)
  Step-IsValid capacity (c, p, sender, open_, closed) (pauses e put taken) =
      rw e (c, p, (λ a b. let bad : true ≡ false = a in cc), open_, closed)
  Step-IsValid capacity (c, p, sender, open_, closed) (detaches e put taken) =
      rw e (c, p, (λ a b. let bad : true ≡ false = a in cc), open_, closed)
  Step-IsValid capacity {s} v (reconnects now open_for result sent e p k) =
      subst (IsValid arrow capacity) (ap (λ r. r.2) e)
        (reconnect-Reconnected tonic arrow capacity now open_for s v).0
  Step-IsValid capacity {s} v (finalizes e p k) = rw e (finalize-IsValid capacity s v)
  Step-IsValid capacity {s} v (begins_close rounds h e put taken) =
      rw e (begin_close-IsValid capacity rounds s v)
  Step-IsValid capacity (c, p, sender, open_, closed) (tears_down h e put taken) =
      rw e (c, p, (λ a b. let closing = h in ground arith), open_, closed)
  Step-IsValid capacity {s} v (ends_close e put taken) =
      let (c, p, sender, open_, closed) = finalize-IsValid capacity s v in
      rw e (c, p, (λ a b. let bad : true ≡ false = b in cc), open_, closed)
