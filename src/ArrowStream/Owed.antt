-- ===== src/ArrowStream/Owed.antt =====
-- The rows of a stream whose option `recovery` is on: where they are after a step.
use zerobus_sdk.Common.{
  ℕ, ◌-◌, max, ◌≤◌, ◌≡◌, inl, inr, refl, ap, ◌∙◌, sym, subst, arith, true, Option, none, List, [],
  ◌∷◌, ◌++◌, take, drop, take-append-drop, take_all, Bool-cases, le_or_lt,
}
use mathlib.Core.List.{append-nil, append_assoc}
use zerobus_sdk.Common.Int.{ℤ}
use zerobus_sdk.ArrowStream.{Arrow, PendingBatch, ZerobusResult, keep_pending, new_stream}
use zerobus_sdk.ArrowStream.Acks.{
  apply, acknowledge, pause_and_detach_sender, pause_and_snapshot_submitted, clear, report,
  retain_unacked,
}
use zerobus_sdk.ArrowStream.Ingest.{is_closing, acquire, assign, ingest_locked}
use zerobus_sdk.ArrowStream.Recovery.{
  reconnect, finalize_closed, move_pending_to_failed, unacked_suffixes,
}
use zerobus_sdk.ArrowStream.Close.{Round, begin_close, tear_down, end_close}
use zerobus_sdk.ArrowStream.Rows.{unacked_rows, all_rows, suffixes-rows}
use zerobus_sdk.ArrowStream.Ranges.{unacked_rows-Contiguous}
use zerobus_sdk.ArrowStream.Retain.{retain-Kept}
use zerobus_sdk.ArrowStream.Valid.{
  IsValid, apply_accepts, apply_rejects, acquire-some, new_stream-IsValid,
}
use zerobus_sdk.ArrowStream.Admits.{ingest_taken, ingest_refused}
use zerobus_sdk.ArrowStream.Recovers.{reconnect-Reconnected, all_rows-append}
use zerobus_sdk.Errors.{Tonic, ZerobusError}
use zerobus_sdk.ArrowStream.Steps.{
  Stream, accepted, Step, acquires, ingests, acknowledges, channel_closes, pauses, detaches,
  reconnects, finalizes, begins_close, tears_down, ends_close, Step-IsValid,
}

module _ (tonic : Tonic) (arrow : Arrow) where
  -- The rows that a stream owes: those to hand back, and those of the pending batches that are not
  -- acknowledged.
  abbrev pub owed : Stream tonic arrow → List arrow.Row
  owed s =
      all_rows arrow s.failed_batches ++ unacked_rows arrow s.last_acked_records s.pending_batches

  no_rows : (n : ℕ) → take {A = arrow.Row} n [] ≡ []
  no_rows n = take_all n [] (omega arith)

  pub finalize-owed : (s : Stream tonic arrow) → owed (finalize_closed tonic arrow s) ≡ owed s
  unfolding finalize_closed move_pending_to_failed keep_pending
  finalize-owed s =
      let suffixes = unacked_suffixes arrow s.last_acked_records s.pending_batches in
      append-nil (all_rows arrow (s.failed_batches ++ suffixes))
      ∙ all_rows-append tonic arrow s.failed_batches suffixes
      ∙ ap (◌++◌ (all_rows arrow s.failed_batches))
          (suffixes-rows arrow s.last_acked_records s.pending_batches)

  pub begin_close-owed :
      (rounds : List (Round (ZerobusError tonic.Status))) (s : Stream tonic arrow)
      → owed (begin_close tonic arrow rounds (λ x. x) s).1 ≡ owed s
  unfolding begin_close
  begin_close-owed rounds s = elim (Bool-cases s.close_teardown_started) [
    | inl e ↦ rw (e, begin_close) refl
    | inr e ↦ rw (e, begin_close) refl
  ]

  unacked_rows-push :
      (acked : ℕ) (bs : List (PendingBatch arrow.RecordBatch)) (b : PendingBatch arrow.RecordBatch)
      → acked ≤ b.start_record
      → unacked_rows arrow acked (bs ++ b ∷ []) ≡ unacked_rows arrow acked bs ++ arrow.rows b.batch
  unacked_rows-push acked [] b h =
      let same : acked - b.start_record ≡ 0 = omega arith in
      rw same (append-nil (arrow.rows b.batch))
  unacked_rows-push acked (a ∷ bs) b h = rw (unacked_rows-push acked bs b h) (
      sym (
        append_assoc (drop (acked - a.start_record) (arrow.rows a.batch))
          (unacked_rows arrow acked bs) (arrow.rows b.batch)))

  assign-owed :
      (now : ℕ) (batch : arrow.RecordBatch) (s : Stream tonic arrow)
      → s.last_acked_records ≤ s.cumulative_records_assigned
      → owed (assign tonic arrow now batch s).1 ≡ owed s ++ arrow.rows batch
  unfolding assign
  assign-owed now batch s h =
      ap (◌++◌ (all_rows arrow s.failed_batches))
        (unacked_rows-push s.last_acked_records s.pending_batches _ h)
      ∙ sym (
          append_assoc (all_rows arrow s.failed_batches)
            (unacked_rows arrow s.last_acked_records s.pending_batches) (arrow.rows batch))

  -- With the option `recovery` on, an ingest on a valid stream adds the rows of its batch to those owed
  -- when it returns an offset, and none when it returns an error.
  ingest-owed :
      (capacity : ℕ) (late : Option (ZerobusError tonic.Status)) (now : ℕ)
      (batch : arrow.RecordBatch) (s : Stream tonic arrow)
      → IsValid arrow capacity s
      → let (result, t) = ingest_locked tonic arrow true late now batch s in
        owed t ≡ owed s ++ accepted tonic arrow batch result
  unfolding report
  ingest-owed capacity late now batch s (c, p, sender, open_, closed) =
      let (base, m, l, co, num, gen, i64, u, acked, sub, small) = c in
      let grown = assign-owed now batch s (omega arith) in
      elim (Bool-cases (is_closing s)) [
        | inl e ↦
            rw (ingest_refused tonic arrow true late now batch s e) (sym (append-nil (owed s)))
        | inr running ↦ elim (ingest_taken tonic arrow late now batch s running sender) [
          | inl e ↦ rw e grown
          | inr (inl e) ↦ rw e grown
          | inr (inr e) ↦ rw e grown
        ]
      ]

  acknowledge-owed :
      (capacity n : ℕ) (s : Stream tonic arrow)
      → IsValid arrow capacity s
      → owed s
        ≡ take
            (max s.last_acked_records n - s.last_acked_records)
            (unacked_rows arrow s.last_acked_records s.pending_batches)
          ++ owed (acknowledge n s)
  unfolding acknowledge keep_pending retain_unacked
  acknowledge-owed capacity n s
        ((base, m, l, co, num, gen, i64, u, acked, sub, small), p, sender, open_, closed) =
      let (lo, first, below, c', num', _, u', rows) =
        retain-Kept arrow (max s.last_acked_records n) base s.cumulative_records_assigned 0 m
          s.pending_batches none co num (inl refl) in
      elim (Bool-cases s.is_closed) [
        | inl e ↦ rw (closed e, no_rows (max s.last_acked_records n - s.last_acked_records)) refl
        | inr e ↦
            rw
              (
                open_ e,
                rows,
                unacked_rows-Contiguous arrow s.last_acked_records (max s.last_acked_records n) base
                    s.cumulative_records_assigned s.pending_batches co (l e) (omega arith),
              )
              (sym (
                take-append-drop (max s.last_acked_records n - s.last_acked_records)
                  (unacked_rows arrow s.last_acked_records s.pending_batches)))
      ]

  pub apply-owed :
      (capacity n : ℕ) (s : Stream tonic arrow)
      → IsValid arrow capacity s
      → let t = (apply n s).1 in
        owed s
        ≡ take
            (t.last_acked_records - s.last_acked_records)
            (unacked_rows arrow s.last_acked_records s.pending_batches)
          ++ owed t
  unfolding acknowledge
  apply-owed capacity n s v = elim (le_or_lt n s.submitted_records) [
    | inl below ↦ rw (apply_accepts tonic arrow n s below) (acknowledge-owed capacity n s v)
    | inr above ↦
        let same : s.last_acked_records - s.last_acked_records ≡ 0 = omega arith in
        rw (apply_rejects tonic arrow n s above, same) refl
  ]

  reconnect-owed :
      (capacity now open_for : ℕ) (s : Stream tonic arrow)
      → IsValid arrow capacity s
      → owed s ≡ owed (reconnect tonic arrow now open_for s).2
  reconnect-owed capacity now open_for s v =
      let (_, same, failed, _) = reconnect-Reconnected tonic arrow capacity now open_for s v in
      rw (same, failed) refl

  -- In a step, what a stream owed and what is put make up what is taken and what it owes then.
  Step-owed :
      (capacity : ℕ) {s t : Stream tonic arrow} {put taken : List arrow.Row}
      → IsValid arrow capacity s
      → Step tonic arrow s t put taken
      → owed s ++ put ≡ taken ++ owed t
  unfolding acquire pause_and_snapshot_submitted pause_and_detach_sender clear tear_down end_close
  Step-owed capacity {s} {t} v (acquires e p k) =
      let (n, h, same) = acquire-some tonic arrow s.inflight s t refl e in
      rw (p, k, ← same) (append-nil (owed s))
  Step-owed capacity {s} v (ingests late now batch result permit rows h k e p q) =
      rw (p, q)
        (sym (
          subst
            (λ (r : ZerobusResult (ZerobusError tonic.Status) ℤ × Stream tonic arrow).
              owed r.1 ≡ owed s ++ accepted tonic arrow batch r.0)
            e (ingest-owed capacity late now batch s v)))
  Step-owed capacity {s} {t} v (acknowledges n result e p k) =
      rw (p, k)
        (append-nil (owed s)
          ∙ subst
              (λ (r : ZerobusResult (ZerobusError tonic.Status) Unit × Stream tonic arrow).
                owed s
                ≡ take (r.1.last_acked_records - s.last_acked_records)
                    (unacked_rows arrow s.last_acked_records s.pending_batches)
                  ++ owed r.1)
              e (apply-owed capacity n s v))
  Step-owed capacity {s} v (channel_closes h e p k) = rw (e, p, k) (append-nil (owed s))
  Step-owed capacity {s} v (pauses e p k) = rw (e, p, k) (append-nil (owed s))
  Step-owed capacity {s} v (detaches e p k) = rw (e, p, k) (append-nil (owed s))
  Step-owed capacity {s} v (reconnects now open_for result sent e p k) =
      rw (p, k)
        (append-nil (owed s)
          ∙ subst
              (λ (r : ZerobusResult (ZerobusError tonic.Status) Unit
                  × List arrow.RecordBatch
                  × Stream tonic arrow).
                owed s ≡ owed r.2)
              e (reconnect-owed capacity now open_for s v))
  Step-owed capacity {s} v (finalizes e p k) =
      rw (e, p, k) (append-nil (owed s) ∙ sym (finalize-owed s))
  Step-owed capacity {s} v (begins_close rounds h e p k) =
      rw (e, p, k) (append-nil (owed s) ∙ sym (begin_close-owed rounds s))
  Step-owed capacity {s} v (tears_down h e p k) = rw (e, p, k) (append-nil (owed s))
  Step-owed capacity {s} v (ends_close e p k) =
      rw (e, p, k) (append-nil (owed s) ∙ sym (finalize-owed s))

  -- A run from a new stream: what was put in it and what was taken.
  pub data Reach (capacity : ℕ)
      : Stream tonic arrow → List arrow.Row → List arrow.Row → Type 0 where
    here : Reach capacity (new_stream capacity) [] []
    next :
        {s t : Stream tonic arrow} {put taken more gone : List arrow.Row}
        → Reach capacity s put taken
        → Step tonic arrow s t more gone
        → Reach capacity t (put ++ more) (taken ++ gone)

  -- In every run of steps from a new stream, with the option `recovery` on, the stream is valid: see
  -- `IsValid`.
  pub Reach-IsValid :
      {capacity : ℕ} {s : Stream tonic arrow} {put taken : List arrow.Row}
      → Reach capacity s put taken
      → IsValid arrow capacity s
  Reach-IsValid {capacity} here = new_stream-IsValid arrow (ZerobusError tonic.Status) capacity
  Reach-IsValid {capacity} (next r s) = Step-IsValid tonic arrow capacity (Reach-IsValid r) s

  -- In every run of steps from a new stream, with the option `recovery` on: the rows whose offset was
  -- returned are, in order, those that the server acknowledged and then those that the stream owes.
  pub Reach-owed :
      {capacity : ℕ} {s : Stream tonic arrow} {put taken : List arrow.Row}
      → Reach capacity s put taken
      → put ≡ taken ++ owed s
  unfolding new_stream
  Reach-owed here = refl
  Reach-owed {capacity} (next {s} {t} {put} {taken} {more} {gone} r step) = rw (Reach-owed r) (
      append_assoc taken (owed s) more
      ∙ ap (◌++◌ taken) (Step-owed capacity (Reach-IsValid r) step)
      ∙ sym (append_assoc taken gone (owed t)))

  -- Steps one after another in which no offset is returned and the result of the flush of `close` is
  -- left alone, and what the server acknowledges in them.
  pub data Serves : Stream tonic arrow → Stream tonic arrow → List arrow.Row → Type 0 where
    idle : {s : Stream tonic arrow} → Serves s s []
    then_step :
        {s t u : Stream tonic arrow} {taken more : List arrow.Row}
        → Step tonic arrow s t [] taken
        → t.close_flush_error ≡ s.close_flush_error
        → Serves t u more
        → Serves s u (taken ++ more)

  pub Serves-owed :
      (capacity : ℕ) {s t : Stream tonic arrow} {taken : List arrow.Row}
      → IsValid arrow capacity s
      → Serves s t taken
      → IsValid arrow capacity t
        × (owed s ≡ taken ++ owed t)
        × (t.close_flush_error ≡ s.close_flush_error)
  Serves-owed capacity v idle = (v, refl, refl)
  Serves-owed capacity v (then_step {s} {t} {u} {taken} {more} step kept rest) =
      let (valid, same, later) =
        Serves-owed capacity (Step-IsValid tonic arrow capacity v step) rest in
      (
        valid,
        sym (append-nil (owed s))
            ∙ Step-owed capacity v step
            ∙ ap (◌++◌ taken) same
            ∙ sym (append_assoc taken more (owed u)),
        later ∙ kept,
      )
