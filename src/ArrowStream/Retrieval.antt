-- ===== src/ArrowStream/Retrieval.antt =====
-- What a closed stream hands back, what an acknowledgement publishes, and what `close` leaves.
use zerobus_sdk.Common.{
  ℕ, suc, ◌+◌, ◌-◌, max, ◌≤◌, ◌<◌, ◌≡◌, ◌⊎◌, inl, inr, refl, ap, ◌∙◌, sym, arith, Bool, true, false,
  not, ◌&&◌, Option, none, some, List, [], ◌∷◌, ◌++◌, All, Bool-cases,
}
use mathlib.Core.List.{append-nil}
use zerobus_sdk.Common.Int.{pos}
use zerobus_sdk.ArrowStream.{Arrow, PendingBatch, ZerobusResult, ok, err, keep_pending}
use zerobus_sdk.ArrowStream.Acks.{acknowledge, apply}
use zerobus_sdk.ArrowStream.Recovery.{
  get_unacked_batches, move_pending_to_failed, finalize_closed, unacked_suffixes,
}
use zerobus_sdk.ArrowStream.Close.{
  Round, flush, stored, error_of, keep_result, close, begin_close, end_close, tear_down,
}
use zerobus_sdk.ArrowStream.Rows.{all_rows, suffixes-rows}
use zerobus_sdk.ArrowStream.Retain.{Numbered, retain-Kept}
use zerobus_sdk.ArrowStream.Valid.{IsValid, apply_accepts}
use zerobus_sdk.ArrowStream.Steps.{Stream, keep_result-IsValid}
use zerobus_sdk.ArrowStream.Owed.{owed, finalize-owed, Serves, Serves-owed}
use zerobus_sdk.ArrowStream.Recovers.{all_rows-append}
use zerobus_sdk.Errors.{Tonic, ZerobusError}

module _ (tonic : Tonic) (arrow : Arrow) where
  moved_twice :
      (s : Stream tonic arrow)
      → move_pending_to_failed tonic arrow (move_pending_to_failed tonic arrow s)
        ≡ move_pending_to_failed tonic arrow s
  unfolding move_pending_to_failed keep_pending unacked_suffixes
  moved_twice s =
      let t = move_pending_to_failed tonic arrow s in
      let free : t.inflight + (0 - 0) ≡ t.inflight = omega arith in
      rw (free, append-nil t.failed_batches) refl

  moved-owed :
      (s : Stream tonic arrow)
      → all_rows arrow (move_pending_to_failed tonic arrow s).failed_batches ≡ owed tonic arrow s
  unfolding move_pending_to_failed keep_pending
  moved-owed s =
      all_rows-append tonic arrow s.failed_batches _
      ∙ ap (◌++◌ (all_rows arrow s.failed_batches))
          (suffixes-rows arrow s.last_acked_records s.pending_batches)

  abbrev handed :
      Stream tonic arrow
      → ZerobusResult (ZerobusError tonic.Status) (List arrow.RecordBatch) × Stream tonic arrow
  handed t = (ok t.failed_batches, t)

  retrieved :
      (s : Stream tonic arrow)
      → s.is_closed ≡ true
      → let t = move_pending_to_failed tonic arrow s in
        get_unacked_batches tonic arrow s ≡ (ok t.failed_batches, t)
  unfolding get_unacked_batches
  retrieved s h = rw h refl

  retrieved_again :
      (s : Stream tonic arrow)
      → s.is_closed ≡ true
      → let t = move_pending_to_failed tonic arrow s in
        get_unacked_batches tonic arrow t ≡ (ok t.failed_batches, t)
  unfolding move_pending_to_failed
  retrieved_again s h =
      retrieved (move_pending_to_failed tonic arrow s) h ∙ ap handed (moved_twice s)

  -- On a closed stream, the retrieval hands back batches whose rows are just those that the stream
  -- owes, and a second retrieval hands back the same and changes nothing.
  pub get_unacked_batches-owed :
      (s : Stream tonic arrow)
      → s.is_closed ≡ true
      → let t = (get_unacked_batches tonic arrow s).1 in
        (batches : List arrow.RecordBatch) × ((get_unacked_batches tonic arrow s).0 ≡ ok batches)
        × (all_rows arrow batches ≡ owed tonic arrow s)
        × (get_unacked_batches tonic arrow t ≡ (ok batches, t))
  get_unacked_batches-owed s h = rw (retrieved s h) (
    (move_pending_to_failed tonic arrow s).failed_batches,
    refl,
    moved-owed s,
    retrieved_again s h,
  )

  offsets_above :
      (j n last : ℕ) (bs : List (PendingBatch arrow.RecordBatch))
      → Numbered n bs last
      → j < n
      → All (λ (b : PendingBatch arrow.RecordBatch). (k : ℕ) × (b.offset_id ≡ pos k) × (j < k)) bs
  offsets_above j n last [] h l = tt
  offsets_above j n last (b ∷ bs) (k, e, m, h) l =
      ((k, e, omega arith), offsets_above j (suc k) last bs h (omega arith))

  -- An accepted acknowledgement on a valid stream leaves the published offset, or publishes one that
  -- is below those of all the batches still pending.
  pub apply_publishes :
      (capacity n : ℕ) (s : Stream tonic arrow)
      → IsValid arrow capacity s
      → n ≤ s.submitted_records
      → let t = (apply n s).1 in
        (t.last_ack ≡ s.last_ack)
        ⊎ ((j : ℕ) × (t.last_ack ≡ some (pos j))
            × All
                (λ (b : PendingBatch arrow.RecordBatch). (k : ℕ) × (b.offset_id ≡ pos k) × (j < k))
                t.pending_batches)
  unfolding acknowledge keep_pending
  apply_publishes capacity n s (c, _, _, _, _) h =
      let (base, m, l, co, num, _, _, _, _, _, _) = c in
      let (lo, first, below, c', num', published, u', rows) =
        retain-Kept arrow (max s.last_acked_records n) base s.cumulative_records_assigned 0 m
          s.pending_batches none co num (inl refl) in
      rw (apply_accepts tonic arrow n s h) (elim published [
        | inl e ↦ inl (rw (e, acknowledge) refl)
        | inr (j, e, below_j) ↦
            inr (j, rw (e, acknowledge) refl, offsets_above j first m _ num' below_j)
      ])

  begun :
      (rounds : List (Round (ZerobusError tonic.Status)))
      (waiting : Stream tonic arrow → Stream tonic arrow) (s : Stream tonic arrow)
      → s.close_teardown_started ≡ false
      → let result = flush tonic arrow rounds s in
        begin_close tonic arrow rounds waiting s
        ≡ (result, keep_result tonic arrow result (waiting s))
  unfolding begin_close
  begun rounds waiting s e = rw (e, begin_close) refl

  begun_again :
      (rounds : List (Round (ZerobusError tonic.Status)))
      (waiting : Stream tonic arrow → Stream tonic arrow) (s : Stream tonic arrow)
      → s.close_teardown_started ≡ true
      → begin_close tonic arrow rounds waiting s ≡ (stored tonic arrow s.close_flush_error, s)
  unfolding begin_close
  begun_again rounds waiting s e = rw (e, begin_close) refl

  stored-error_of :
      (r : ZerobusResult (ZerobusError tonic.Status) Unit)
      → stored tonic arrow (error_of tonic arrow r) ≡ r
  stored-error_of (ok tt) = refl
  stored-error_of (err e) = refl

  stored-begin_close :
      (rounds : List (Round (ZerobusError tonic.Status)))
      (waiting : Stream tonic arrow → Stream tonic arrow) (s : Stream tonic arrow)
      → stored tonic arrow (begin_close tonic arrow rounds waiting s).1.close_flush_error
        ≡ (begin_close tonic arrow rounds waiting s).0
  stored-begin_close rounds waiting s = elim (Bool-cases s.close_teardown_started) [
    | inl e ↦ rw (begun_again rounds waiting s e) refl
    | inr e ↦ rw (begun rounds waiting s e) (stored-error_of (flush tonic arrow rounds s))
  ]

  -- The rows acknowledged in the flush, which a call that resumes a teardown does not repeat.
  abbrev pub flushed : Bool → List arrow.Row → List arrow.Row
  flushed true taken = []
  flushed false taken = taken

  flushed_first :
      (b : Bool) (taken rest : List arrow.Row) → b ≡ false → taken ++ rest ≡ flushed b taken ++ rest
  flushed_first true taken rest e = cc
  flushed_first false taken rest e = refl

  begin_close-owed :
      (capacity : ℕ) (rounds : List (Round (ZerobusError tonic.Status)))
      (waiting : Stream tonic arrow → Stream tonic arrow) (s : Stream tonic arrow)
      (taken : List arrow.Row)
      → IsValid arrow capacity s
      → Serves tonic arrow s (waiting s) taken
      → let t = (begin_close tonic arrow rounds waiting s).1 in
        IsValid arrow capacity t
        × (owed tonic arrow s ≡ flushed s.close_teardown_started taken ++ owed tonic arrow t)
  begin_close-owed capacity rounds waiting s taken v h =
      elim (Bool-cases s.close_teardown_started) [
        | inl e ↦
            (rw (begun_again rounds waiting s e) v, rw (begun_again rounds waiting s e, e) refl)
        | inr e ↦
            let (valid, same, _) = Serves-owed tonic arrow capacity v h in
            let result = flush tonic arrow rounds s in
            (
              rw (begun rounds waiting s e)
                  (keep_result-IsValid tonic arrow capacity result (waiting s) valid),
              rw (begun rounds waiting s e)
                  (same ∙ flushed_first s.close_teardown_started taken _ e),
            )
      ]

  -- What a call of `close` on a closed stream returns, given its two errors.
  abbrev pub later :
      Option (ZerobusError tonic.Status)
      → ZerobusResult (ZerobusError tonic.Status) Unit
      → Stream tonic arrow
      → ZerobusResult (ZerobusError tonic.Status) Unit × Stream tonic arrow
  later none result t = (result, t)
  later (some e) result t = (err e, t)

  closed_again :
      (rounds : List (Round (ZerobusError tonic.Status)))
      (waiting reaping : Stream tonic arrow → Stream tonic arrow) (s : Stream tonic arrow)
      → s.is_closed ≡ true
      → s.close_teardown_started ≡ false
      → close tonic arrow rounds waiting reaping s
        ≡ later s.server_error (stored tonic arrow s.close_flush_error) s
  unfolding close
  closed_again rounds waiting reaping s h k = ground arith

  module _ (rounds : List (Round (ZerobusError tonic.Status)))
      (waiting reaping : Stream tonic arrow → Stream tonic arrow) (s : Stream tonic arrow) where
    close_through :
        (s.is_closed && not s.close_teardown_started) ≡ false
        → let (flush_result, t) = begin_close tonic arrow rounds waiting s in
          close tonic arrow rounds waiting reaping s
          ≡ (flush_result, end_close tonic arrow (tear_down tonic arrow (reaping t)))
    unfolding close
    close_through h = rw h refl

    -- A call of `close` that goes through, on a valid stream that is not closed or whose teardown was
    -- interrupted, while the supervisor's task takes steps in the flush and then until it is reaped: the
    -- stream is closed with nothing pending and no task or sender, and what it owed is what the server
    -- acknowledged in those steps and then what it owes. A later call changes nothing and returns the
    -- server's error or the same result.
    pub close_lem :
        (capacity : ℕ) (again : List (Round (ZerobusError tonic.Status)))
        (taken more : List arrow.Row)
        → IsValid arrow capacity s
        → (s.is_closed && not s.close_teardown_started) ≡ false
        → Serves tonic arrow s (waiting s) taken
        → Serves tonic arrow
            (begin_close tonic arrow rounds waiting s).1
            (reaping (begin_close tonic arrow rounds waiting s).1)
            more
        → let (result, t) = close tonic arrow rounds waiting reaping s in
          (t.is_closed ≡ true)
          × (t.pending_batches ≡ [])
          × (t.batch_tx ≡ none)
          × (t.supervised ≡ false)
          × (owed tonic arrow s
              ≡ flushed s.close_teardown_started taken ++ (more ++ owed tonic arrow t))
          × (close tonic arrow again waiting reaping t ≡ later t.server_error result t)
    unfolding end_close tear_down finalize_closed move_pending_to_failed keep_pending
    close_lem capacity again taken more v h served reaped =
        let t = (begin_close tonic arrow rounds waiting s).1 in
        let u = tear_down tonic arrow (reaping t) in
        let (valid, first) = begin_close-owed capacity rounds waiting s taken v served in
        let (_, second, kept) = Serves-owed tonic arrow capacity valid reaped in
        rw (close_through h) (
          refl,
          refl,
          refl,
          refl,
          first
              ∙ ap (◌++◌ (flushed s.close_teardown_started taken))
                  (second ∙ ap (◌++◌ more) (sym (finalize-owed tonic arrow u))),
          closed_again again waiting reaping (end_close tonic arrow u) refl refl
              ∙ ap (λ r. later u.server_error r (end_close tonic arrow u))
                  (ap (stored tonic arrow) kept ∙ stored-begin_close rounds waiting s),
        )
