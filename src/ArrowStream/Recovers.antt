-- ===== src/ArrowStream/Recovers.antt =====
-- Recovery and closing keep a stream valid.
use zerobus_sdk.Common.{
  ℕ, zero, suc, ◌+◌, ◌^◌, ◌≤◌, ◌<◌, ◌≡◌, ◌⊎◌, inl, inr, refl, ap, ◌∙◌, sym, arith, true, List, [],
  ◌∷◌, ◌++◌, length, length-append,
}
use mathlib.Core.List.{append_assoc}
use zerobus_sdk.ArrowStream.{Arrow, PendingBatch, ArrowStream, keep_pending, ZerobusResult, ok, err}
use zerobus_sdk.ArrowStream.Rows.{unacked_rows}
use zerobus_sdk.ArrowStream.Ranges.{Contiguous, Contiguous-Ordered, length-unacked_rows}
use zerobus_sdk.ArrowStream.Retain.{Numbered, AllUnacked}
use zerobus_sdk.ArrowStream.Replay.{rebuild-Rebuilt, Contiguous-AllUnacked, add_u64_lem}
use zerobus_sdk.Errors.{Tonic, ZerobusError}
use zerobus_sdk.ArrowStream.Batch.{
  refresh_pending_ack_deadlines, rebuild_pending_for_replay, rebuild_loop,
}
use zerobus_sdk.ArrowStream.Rows.{all_rows}
use zerobus_sdk.ArrowStream.Recovery.{
  install_replay, replay_sends, replay_pending_batches, commit_reconnect_after_replay, reconnect,
  resume,
}
use zerobus_sdk.ArrowStream.Valid.{IsValid}

module _ (arrow : Arrow) where
  refresh-Contiguous :
      (now lo hi : ℕ) (bs : List (PendingBatch arrow.RecordBatch))
      → Contiguous arrow lo bs hi
      → Contiguous arrow lo (refresh_pending_ack_deadlines now bs) hi
  unfolding refresh_pending_ack_deadlines
  refresh-Contiguous now lo hi [] c = c
  refresh-Contiguous now lo hi (b ∷ bs) (e, r, c) =
      (e, r, refresh-Contiguous now b.end_record hi bs c)

  refresh-Numbered :
      (now lo hi : ℕ) (bs : List (PendingBatch arrow.RecordBatch))
      → Numbered lo bs hi
      → Numbered lo (refresh_pending_ack_deadlines now bs) hi
  unfolding refresh_pending_ack_deadlines
  refresh-Numbered now lo hi [] h = h
  refresh-Numbered now lo hi (b ∷ bs) (n, e, l, h) = (n, e, l, refresh-Numbered now (suc n) hi bs h)

  refresh-AllUnacked :
      (now acked : ℕ) (bs : List (PendingBatch arrow.RecordBatch))
      → AllUnacked acked bs
      → AllUnacked acked (refresh_pending_ack_deadlines now bs)
  unfolding refresh_pending_ack_deadlines
  refresh-AllUnacked now acked [] h = h
  refresh-AllUnacked now acked (b ∷ bs) (l, h) = (l, refresh-AllUnacked now acked bs h)

  pub refresh-unacked_rows :
      (now acked : ℕ) (bs : List (PendingBatch arrow.RecordBatch))
      → (unacked_rows arrow acked (refresh_pending_ack_deadlines now bs)
          ≡ unacked_rows arrow acked bs)
        × (length (refresh_pending_ack_deadlines now bs) ≡ length bs)
  unfolding refresh_pending_ack_deadlines
  refresh-unacked_rows now acked [] = (refl, refl)
  refresh-unacked_rows now acked (b ∷ bs) =
      let (rows, count) = refresh-unacked_rows now acked bs in (rw rows refl, ap suc count)

refresh_nil :
    {RecordBatch : Type 0} (now : ℕ) (bs : List (PendingBatch RecordBatch))
    → bs ≡ []
    → refresh_pending_ack_deadlines now bs ≡ []
unfolding refresh_pending_ack_deadlines
refresh_nil now bs h = rw h refl

module _ (tonic : Tonic) (arrow : Arrow) where
  -- The sends change the watermark `submitted_records` only: it grows by the rows sent, which are
  -- the first of those to send, and all of them when the result is no error.
  abbrev Sent :
      List arrow.RecordBatch
      → ArrowStream arrow.RecordBatch (ZerobusError tonic.Status)
      → ZerobusResult (ZerobusError tonic.Status) Unit
        × List arrow.RecordBatch
        × ArrowStream arrow.RecordBatch (ZerobusError tonic.Status)
      → Type 0
  Sent replay s (result, sent, t) =
      (rest : List arrow.RecordBatch) × (replay ≡ sent ++ rest)
      × ((rest ≡ []) ⊎ ((e : ZerobusError tonic.Status) × (result ≡ err e)))
      × (t ≡ record s { submitted_records = s.submitted_records + length (all_rows arrow sent) })

  replay_sends-Sent :
      (open_for : ℕ) (replay : List arrow.RecordBatch)
      (s : ArrowStream arrow.RecordBatch (ZerobusError tonic.Status))
      → s.submitted_records + length (all_rows arrow replay) < 2 ^ 64
      → Sent replay s (replay_sends tonic arrow open_for replay s)
  unfolding replay_sends
  replay_sends-Sent open_for [] s h =
      let same : s.submitted_records ≡ s.submitted_records + 0 = omega arith in
      ([], refl, inl refl, ap (λ (n : ℕ). record s { submitted_records = n }) same)
  replay_sends-Sent zero (b ∷ bs) s h =
      let same : s.submitted_records ≡ s.submitted_records + 0 = omega arith in
      (b ∷ bs, refl, inr (_, refl), ap (λ (n : ℕ). record s { submitted_records = n }) same)
  replay_sends-Sent (suc open_for) (b ∷ bs) s h =
      let count = arrow.num_rows_lem b in
      let len = length-append (arrow.rows b) (all_rows arrow bs) in
      let end = add_u64_lem s.submitted_records (arrow.num_rows b) (omega (arith, h, count, len)) in
      let s' : ArrowStream arrow.RecordBatch (ZerobusError tonic.Status) = record s {
        submitted_records = s.submitted_records + arrow.num_rows b;
      } in
      let (rest, e, all, same) = replay_sends-Sent open_for bs s' (omega (arith, h, count, len)) in
      let sent = (replay_sends tonic arrow open_for bs s').1 in
      let sum : s.submitted_records + arrow.num_rows b + length (all_rows arrow sent)
          ≡ s.submitted_records + length (arrow.rows b ++ all_rows arrow sent) =
        omega (arith, count, length-append (arrow.rows b) (all_rows arrow sent)) in
      rw end
        (rest, ap (◌∷◌ b) e, all, same ∙ ap (λ (n : ℕ). record s { submitted_records = n }) sum)

  pub all_rows-append :
      (xs ys : List arrow.RecordBatch)
      → all_rows arrow (xs ++ ys) ≡ all_rows arrow xs ++ all_rows arrow ys
  all_rows-append [] ys = refl
  all_rows-append (x ∷ xs) ys =
      rw (all_rows-append xs ys)
        (sym (append_assoc (arrow.rows x) (all_rows arrow xs) (all_rows arrow ys)))

  install_replay_lem :
      (capacity : ℕ) (s : ArrowStream arrow.RecordBatch (ZerobusError tonic.Status))
      → IsValid arrow capacity s
      → let (replay, t) = install_replay tonic arrow s.last_acked_records s in
        IsValid arrow capacity t
        × (all_rows arrow replay ≡ unacked_rows arrow s.last_acked_records s.pending_batches)
        × (unacked_rows arrow 0 t.pending_batches
            ≡ unacked_rows arrow s.last_acked_records s.pending_batches)
        × (t.cumulative_records_assigned ≡ length (all_rows arrow replay))
  unfolding install_replay rebuild_pending_for_replay keep_pending rebuild_loop
  install_replay_lem capacity s
        ((base, m, l, c, num, gen, i64, u, acked, sub, small), p, sender, open_, closed) =
      let o = Contiguous-Ordered arrow base s.cumulative_records_assigned s.pending_batches c in
      let owed =
        length-unacked_rows arrow s.last_acked_records base s.cumulative_records_assigned
          s.pending_batches o in
      let (c', num', t, rows, rows', few) =
        rebuild-Rebuilt arrow s.last_acked_records 0 base s.cumulative_records_assigned 0 m
          s.pending_batches o num (omega arith) in
      (
        (
          (
            0,
            m,
            (λ e. omega arith),
            c',
            num',
            gen,
            i64,
            Contiguous-AllUnacked arrow 0 0 _ _ c' (omega arith),
            omega arith,
            omega arith,
            omega arith,
          ),
          omega arith,
          sender,
          open_,
          (λ e. ap (λ bs. (rebuild_loop arrow s.last_acked_records 0 bs).0) (closed e)),
        ),
        rows,
        rows',
        (omega (arith, ap length rows, t)),
      )

  -- What a call of `reconnect` leaves: a valid stream that owes the same rows. The rows sent are
  -- the first of them, and all of them unless the result is an error.
  abbrev pub Reconnected :
      ℕ
      → ArrowStream arrow.RecordBatch (ZerobusError tonic.Status)
      → ZerobusResult (ZerobusError tonic.Status) Unit
        × List arrow.RecordBatch
        × ArrowStream arrow.RecordBatch (ZerobusError tonic.Status)
      → Type 0
  Reconnected capacity s (result, sent, t) =
      IsValid arrow capacity t
      × (unacked_rows arrow t.last_acked_records t.pending_batches
          ≡ unacked_rows arrow s.last_acked_records s.pending_batches)
      × (t.failed_batches ≡ s.failed_batches)
      × ((rest : List arrow.Row) × (unacked_rows arrow s.last_acked_records s.pending_batches
            ≡ all_rows arrow sent ++ rest)
          × ((rest ≡ []) ⊎ ((e : ZerobusError tonic.Status) × (result ≡ err e)))
          × (t.submitted_records ≡ length (all_rows arrow sent)))

  pub replay-Reconnected :
      (capacity open_for : ℕ) (s : ArrowStream arrow.RecordBatch (ZerobusError tonic.Status))
      → IsValid arrow capacity s
      → Reconnected capacity s (replay_pending_batches tonic arrow open_for s.last_acked_records s)
  unfolding replay_pending_batches
  replay-Reconnected capacity open_for s v =
      let (replay, t) = install_replay tonic arrow s.last_acked_records s in
      let ((c, p, sender, open_, closed), rows, owed, total) = install_replay_lem capacity s v in
      let (base, m, l, co, num, gen, i64, u, acked, sub, small) = c in
      let (rest, e, all, same) = replay_sends-Sent open_for replay t (omega arith) in
      let sent = (replay_sends tonic arrow open_for replay t).1 in
      let split = ap (all_rows arrow) e ∙ all_rows-append sent rest in
      let few = length-append (all_rows arrow sent) (all_rows arrow rest) in
      let most : length (all_rows arrow sent) ≤ t.cumulative_records_assigned =
        omega (arith, ap length split, few, total) in
      let sent_all : (all_rows arrow rest ≡ [])
          ⊎ ((f : ZerobusError tonic.Status) × ((replay_sends tonic arrow open_for replay t).0
                ≡ err f)) =
        elim all [ inl h ↦ inl (ap (all_rows arrow) h) | inr f ↦ inr f ] in
      rw same (
        (
          (base, m, l, co, num, gen, i64, u, omega arith, omega (arith, most), small),
          p,
          sender,
          open_,
          closed,
        ),
        owed,
        refl,
        (all_rows arrow rest, sym rows ∙ split, sent_all, omega arith),
      )

  resume-Reconnected :
      (capacity now : ℕ) (s : ArrowStream arrow.RecordBatch (ZerobusError tonic.Status))
      (replayed : ZerobusResult (ZerobusError tonic.Status) Unit) (sent : List arrow.RecordBatch)
      (t : ArrowStream arrow.RecordBatch (ZerobusError tonic.Status))
      → Reconnected capacity s (replayed, sent, t)
      → let (result, u) = resume tonic arrow now replayed t in
        Reconnected capacity s (result, sent, u)
  unfolding resume commit_reconnect_after_replay
  resume-Reconnected capacity now s (err e) sent t r = r
  resume-Reconnected capacity now s (ok _) sent t
        (
          ((base, m, l, co, num, gen, i64, u, acked, sub, small), p, sender, open_, closed),
          owed,
          same,
          rest,
        ) =
      let (rows, few) = refresh-unacked_rows arrow now t.last_acked_records t.pending_batches in
      (
        (
          (
            base,
            m,
            l,
            refresh-Contiguous arrow now base t.cumulative_records_assigned t.pending_batches co,
            refresh-Numbered arrow now 0 m t.pending_batches num,
            gen,
            i64,
            refresh-AllUnacked arrow now t.last_acked_records t.pending_batches u,
            acked,
            sub,
            small,
          ),
          omega (arith, few),
          (λ h k. (true, refl)),
          open_,
          (λ h. refresh_nil now t.pending_batches (closed h)),
        ),
        rows ∙ owed,
        same,
        rest,
      )

  -- A reconnection on a valid stream leaves a valid stream that owes the same rows; it sends the first
  -- of them, in order, all of them unless it returns an error, and these count as submitted.
  pub reconnect-Reconnected :
      (capacity now open_for : ℕ) (s : ArrowStream arrow.RecordBatch (ZerobusError tonic.Status))
      → IsValid arrow capacity s
      → Reconnected capacity s (reconnect tonic arrow now open_for s)
  unfolding reconnect
  reconnect-Reconnected capacity now open_for s v =
      let (replayed, sent, t) =
        replay_pending_batches tonic arrow open_for s.last_acked_records s in
      resume-Reconnected capacity now s replayed sent t (replay-Reconnected capacity open_for s v)
