-- ===== src/ArrowStream/Admits.antt =====
-- An ingest on a stream whose option `recovery` is on.
use zerobus_sdk.Common.{
  ℕ, suc, ◌+◌, ◌-◌, ◌^◌, ◌<◌, ◌≡◌, ◌≢◌, ◌⊎◌, inl, inr, refl, ap, ◌∙◌, sym, arith, Bool, true, false,
  Option, some, [], ◌∷◌, length, length-append, Bool-cases,
}
use zerobus_sdk.Common.Int.{pos}
use zerobus_sdk.OffsetGenerator.{add_one}
use zerobus_sdk.OffsetGenerator.Sequence.{add_one-before}
use zerobus_sdk.ArrowStream.{Arrow, ArrowStream, ok, err}
use zerobus_sdk.ArrowStream.Acks.{report}
use zerobus_sdk.ArrowStream.Ingest.{is_closing, closing_error, assign, hand_over, ingest_locked}
use zerobus_sdk.ArrowStream.Replay.{add_u64_lem}
use zerobus_sdk.Errors.{Tonic, ZerobusError}
use zerobus_sdk.ArrowStream.Valid.{
  Covers, IsValid, Contiguous-push, Numbered-push, AllUnacked-push, before_max,
}

module _ (tonic : Tonic) (arrow : Arrow) where
  -- The new batch on a valid stream.
  assign-Covers :
      (now : ℕ) (batch : arrow.RecordBatch)
      (s : ArrowStream arrow.RecordBatch (ZerobusError tonic.Status))
      → Covers arrow s.is_closed s.pending_batches s.cumulative_records_assigned s.submitted_records
          s.last_acked_records s.offset_generator
      → 0 < arrow.num_rows batch
      → s.cumulative_records_assigned + arrow.num_rows batch < 2 ^ 64
      → s.offset_generator.last_offset_id ≢ pos (2 ^ 63 - 1)
      → let (added, t) = assign tonic arrow now batch s in
        Covers arrow t.is_closed t.pending_batches t.cumulative_records_assigned t.submitted_records
          t.last_acked_records t.offset_generator
        × (added.end_record ≡ s.cumulative_records_assigned + arrow.num_rows batch)
  unfolding assign
  assign-Covers now batch s (base, m, l, c, num, gen, i64, u, acked, sub, small) p h k =
      let m_lt = before_max m (λ e. k (gen ∙ e)) i64 in
      let next_id : add_one s.offset_generator.last_offset_id ≡ pos m =
        ap add_one gen ∙ add_one-before m (omega arith) in
      let end = add_u64_lem s.cumulative_records_assigned (arrow.num_rows batch) h in
      (
        (
          base,
          suc m,
          l,
          Contiguous-push arrow base s.cumulative_records_assigned s.pending_batches _ c refl end p,
          Numbered-push arrow 0 m s.pending_batches _ num next_id,
          next_id,
          m_lt,
          AllUnacked-push arrow s.last_acked_records s.pending_batches _ u (omega arith),
          acked,
          omega arith,
          omega arith,
        ),
        end,
      )

  -- A call that is refused under the lock drops its permit.
  pub ingest_refused :
      (recovery : Bool) (late : Option (ZerobusError tonic.Status)) (now : ℕ)
      (batch : arrow.RecordBatch) (s : ArrowStream arrow.RecordBatch (ZerobusError tonic.Status))
      → is_closing s ≡ true
      → ingest_locked tonic arrow recovery late now batch s ≡ (
        err (closing_error tonic),
        record s { acquired = s.acquired - 1; inflight = s.inflight + 1 },
      )
  unfolding ingest_locked
  ingest_refused recovery late now batch s h = rw h refl

  -- Otherwise it becomes pending, and its offset is returned, with `recovery` on.
  pub ingest_taken :
      (late : Option (ZerobusError tonic.Status)) (now : ℕ) (batch : arrow.RecordBatch)
      (s : ArrowStream arrow.RecordBatch (ZerobusError tonic.Status))
      → is_closing s ≡ false
      → (s.is_paused ≡ false → is_closing s ≡ false → (b : Bool) × (s.batch_tx ≡ some b))
      → let (added, t) = assign tonic arrow now batch s in
        let after = ingest_locked tonic arrow true late now batch s in
        (after ≡ (ok added.offset_id, t))
        ⊎ (after ≡ (ok added.offset_id, record t { submitted_records = added.end_record }))
        ⊎ (after ≡ (ok added.offset_id, report t))
  unfolding ingest_locked hand_over assign
  ingest_taken late now batch s open_ sender = elim (Bool-cases s.is_paused) [
    | inl paused ↦ inl (rw (open_, paused) refl)
    | inr running ↦
        let (b, tx) = sender running open_ in
        elim (Bool-cases b) [ inl e ↦ inr (inl (ground arith)) | inr e ↦ inr (inr (ground arith)) ]
  ]

  not_closed :
      (s : ArrowStream arrow.RecordBatch (ZerobusError tonic.Status))
      → is_closing s ≡ false
      → s.is_closed ≡ false
  not_closed s h = ground arith

  assign-IsValid :
      (capacity now : ℕ) (batch : arrow.RecordBatch)
      (s : ArrowStream arrow.RecordBatch (ZerobusError tonic.Status))
      → IsValid arrow capacity s
      → is_closing s ≡ false
      → 0 < s.acquired
      → 0 < arrow.num_rows batch
      → s.cumulative_records_assigned + arrow.num_rows batch < 2 ^ 64
      → s.offset_generator.last_offset_id ≢ pos (2 ^ 63 - 1)
      → let (added, t) = assign tonic arrow now batch s in
        IsValid arrow capacity t
        × IsValid arrow capacity (record t { submitted_records = added.end_record })
  unfolding assign
  assign-IsValid capacity now batch s (c, p, sender, open_, closed) running permit some_rows h k =
      let ((base, m, l, co, num, gen, i64, u, acked, sub, small), end) =
        assign-Covers now batch s c some_rows h k in
      let (b0, m0, l0, co0, num0, gen0, i640, u0, acked0, sub0, small0) = c in
      let grown : length (assign tonic arrow now batch s).1.pending_batches
          ≡ suc (length s.pending_batches) =
        omega (arith, length-append s.pending_batches ((assign tonic arrow now batch s).0 ∷ [])) in
      let not_closed_s = not_closed s running in
      (
        (
          (base, m, l, co, num, gen, i64, u, acked, sub, small),
          omega (arith, grown),
          sender,
          open_,
          (λ e. let bad : false ≡ true = sym not_closed_s ∙ e in cc),
        ),
        (
          (base, m, l, co, num, gen, i64, u, omega arith, omega arith, small),
          omega (arith, grown),
          sender,
          open_,
          (λ e. let bad : false ≡ true = sym not_closed_s ∙ e in cc),
        ),
      )

  -- With `recovery` on, a call that has a permit keeps a valid stream valid.
  pub ingest-IsValid :
      (capacity : ℕ) (late : Option (ZerobusError tonic.Status)) (now : ℕ)
      (batch : arrow.RecordBatch) (s : ArrowStream arrow.RecordBatch (ZerobusError tonic.Status))
      → IsValid arrow capacity s
      → 0 < s.acquired
      → 0 < arrow.num_rows batch
      → s.cumulative_records_assigned + arrow.num_rows batch < 2 ^ 64
      → s.offset_generator.last_offset_id ≢ pos (2 ^ 63 - 1)
      → IsValid arrow capacity (ingest_locked tonic arrow true late now batch s).1
  unfolding report
  ingest-IsValid capacity late now batch s (c, p, sender, open_, closed) permit some_rows h k =
      elim (Bool-cases (is_closing s)) [
        | inl closing ↦
            rw (ingest_refused true late now batch s closing)
              (c, omega arith, sender, open_, closed)
        | inr running ↦
            let (v, w) =
              assign-IsValid capacity now batch s (c, p, sender, open_, closed) running permit
                some_rows h k in
            elim (ingest_taken late now batch s running sender) [
              | inl e ↦ rw e v
              | inr (inl e) ↦ rw e w
              | inr (inr e) ↦ rw e v
            ]
      ]
