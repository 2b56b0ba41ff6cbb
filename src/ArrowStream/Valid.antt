-- ===== src/ArrowStream/Valid.antt =====
-- What every operation keeps true of a stream whose option `recovery` is on.
use zerobus_sdk.Common.{
  ℕ, zero, suc, ◌+◌, ◌-◌, ◌^◌, max, ◌≤◌, ◌<◌, ◌≡◌, ◌≢◌, inl, inr, refl, ap, ◌∙◌, sym, subst, arith,
  Bool, true, false, Option, none, some, List, [], ◌∷◌, ◌++◌, length, le_or_lt, lt→ltb, le→ltb,
}
use zerobus_sdk.Common.Int.{ℤ, pos}
use zerobus_sdk.OffsetGenerator.{OffsetIdGenerator, default}
use zerobus_sdk.OffsetGenerator.Sequence.{before}
use zerobus_sdk.ArrowStream.{Arrow, PendingBatch, ArrowStream, new_stream, keep_pending, ok, err}
use zerobus_sdk.ArrowStream.Acks.{apply, acknowledge, claim, retain_unacked}
use zerobus_sdk.ArrowStream.Ingest.{is_closing, acquire}
use zerobus_sdk.ArrowStream.Ranges.{Contiguous}
use zerobus_sdk.ArrowStream.Retain.{Numbered, AllUnacked, retain-Kept, retain_dropped, retain_kept}
use zerobus_sdk.ArrowStream.Replay.{Numbered-weaken}
use zerobus_sdk.Errors.{Tonic, ZerobusError, invalid_state_error}

module _ (arrow : Arrow) where
  -- The pending ranges follow each other without a gap, up to the count of the records assigned,
  -- and on an open stream from a record that is acknowledged;
  -- their offsets ascend below the next one; each has a record that is not acknowledged; and no
  -- more records are acknowledged than submitted, nor submitted than assigned.
  abbrev pub Covers :
      Bool → List (PendingBatch arrow.RecordBatch) → ℕ → ℕ → ℕ → OffsetIdGenerator → Type 0
  Covers closed pending cumulative submitted acked generator =
      (base n : ℕ) × (closed ≡ false → base ≤ acked)
      × Contiguous arrow base pending cumulative
      × Numbered 0 pending n
      × (generator.last_offset_id ≡ before n)
      × (n ≤ 2 ^ 63)
      × AllUnacked acked pending
      × (acked ≤ submitted)
      × (submitted ≤ cumulative)
      × (cumulative < 2 ^ 64)

  abbrev pub IsValid : {E : Type 0} → ℕ → ArrowStream arrow.RecordBatch E → Type 0
  IsValid capacity s =
      Covers s.is_closed s.pending_batches s.cumulative_records_assigned s.submitted_records
        s.last_acked_records s.offset_generator
      × (length s.pending_batches + s.inflight + s.acquired ≡ capacity)
      × (s.is_paused ≡ false → is_closing s ≡ false → (b : Bool) × (s.batch_tx ≡ some b))
      × (s.is_closed ≡ false → s.failed_batches ≡ [])
      × (s.is_closed ≡ true → s.pending_batches ≡ [])

  pub Contiguous-push :
      (lo hi : ℕ) (bs : List (PendingBatch arrow.RecordBatch)) (b : PendingBatch arrow.RecordBatch)
      → Contiguous arrow lo bs hi
      → b.start_record ≡ hi
      → b.end_record ≡ hi + arrow.num_rows b.batch
      → 0 < arrow.num_rows b.batch
      → Contiguous arrow lo (bs ++ b ∷ []) b.end_record
  Contiguous-push lo hi [] b c s e p = (c ∙ sym s, (omega arith, p), refl)
  Contiguous-push lo hi (a ∷ bs) b (same, r, c) s e p =
      (same, r, Contiguous-push a.end_record hi bs b c s e p)

  pub Numbered-push :
      (lo n : ℕ) (bs : List (PendingBatch arrow.RecordBatch)) (b : PendingBatch arrow.RecordBatch)
      → Numbered lo bs n
      → b.offset_id ≡ pos n
      → Numbered lo (bs ++ b ∷ []) (suc n)
  Numbered-push lo n [] b h e = (n, e, h, omega arith)
  Numbered-push lo n (a ∷ bs) b (k, same, l, h) e = (k, same, l, Numbered-push (suc k) n bs b h e)

  pub AllUnacked-push :
      (acked : ℕ) (bs : List (PendingBatch arrow.RecordBatch)) (b : PendingBatch arrow.RecordBatch)
      → AllUnacked acked bs
      → acked < b.end_record
      → AllUnacked acked (bs ++ b ∷ [])
  AllUnacked-push acked [] b h l = (l, tt)
  AllUnacked-push acked (a ∷ bs) b (h, hs) l = (h, AllUnacked-push acked bs b hs l)

  pub new_stream-IsValid :
      (E : Type 0) (capacity : ℕ) → IsValid {E = E} capacity (new_stream capacity)
  unfolding new_stream default
  new_stream-IsValid E capacity = (
    (
      0,
      0,
      (λ c. omega arith),
      refl,
      omega arith,
      refl,
      omega arith,
      tt,
      omega arith,
      omega arith,
      omega arith,
    ),
    omega arith,
    (λ p c. (true, refl)),
    (λ c. refl),
    (λ c. refl),
  )

  retain_length :
      (acked : ℕ) (bs : List (PendingBatch arrow.RecordBatch)) (o : Option ℤ)
      → length (retain_unacked acked bs o).0 ≤ length bs
  unfolding retain_unacked
  retain_length acked [] o = omega arith
  retain_length acked (b ∷ bs) o = elim (le_or_lt b.end_record acked) [
    | inl done ↦ rw (retain_dropped acked b bs o done) (omega (arith, retain_length acked bs _))
    | inr left ↦ rw (retain_kept acked b bs o left) (omega (arith, retain_length acked bs o))
  ]

pub before_max : (n : ℕ) → before n ≢ pos (2 ^ 63 - 1) → n ≤ 2 ^ 63 → n < 2 ^ 63
before_max n h l = elim (le_or_lt (2 ^ 63) n) [
  | inl over ↦ let end : n ≡ 2 ^ 63 = omega arith in absurd (h (rw end refl))
  | inr below ↦ below
]

module _ (tonic : Tonic) (arrow : Arrow) where
  pub acquire-some :
      (free : ℕ) (s t : ArrowStream arrow.RecordBatch (ZerobusError tonic.Status))
      → s.inflight ≡ free
      → acquire tonic arrow s ≡ some t
      → (n : ℕ) × (s.inflight ≡ suc n) × (record s { inflight = n; acquired = s.acquired + 1 } ≡ t)
  unfolding acquire
  acquire-some zero s t h e =
      let waits : acquire tonic arrow s ≡ none = rw h refl in
      let bad : none ≡ some t = sym waits ∙ e in cc
  acquire-some (suc n) s t h e =
      let taken : acquire tonic arrow s
          ≡ some (record s { inflight = n; acquired = s.acquired + 1 }) =
        rw h refl in
      let same : some (record s { inflight = n; acquired = s.acquired + 1 }) ≡ some t =
        sym taken ∙ e in
      (n, h, cc)

  pub acquire-IsValid :
      (capacity : ℕ) (s t : ArrowStream arrow.RecordBatch (ZerobusError tonic.Status))
      → IsValid arrow capacity s
      → acquire tonic arrow s ≡ some t
      → IsValid arrow capacity t
  acquire-IsValid capacity s t (c, p, sender, open_, closed) e =
      let (n, h, same) = acquire-some s.inflight s t refl e in
      subst (IsValid arrow capacity) same (c, omega arith, sender, open_, closed)

  pub apply_rejects :
      (n : ℕ) (s : ArrowStream arrow.RecordBatch (ZerobusError tonic.Status))
      → s.submitted_records < n
      → apply n s ≡ (err (invalid_state_error (claim n s.submitted_records)), s)
  unfolding apply
  apply_rejects n s h = rw (lt→ltb s.submitted_records n h) refl

  pub apply_accepts :
      (n : ℕ) (s : ArrowStream arrow.RecordBatch (ZerobusError tonic.Status))
      → n ≤ s.submitted_records
      → apply n s ≡ (ok tt, acknowledge n s)
  unfolding apply
  apply_accepts n s h = rw (le→ltb s.submitted_records n h) refl

  acknowledge-IsValid :
      (capacity n : ℕ) (s : ArrowStream arrow.RecordBatch (ZerobusError tonic.Status))
      → IsValid arrow capacity s
      → n ≤ s.submitted_records
      → IsValid arrow capacity (acknowledge n s)
  unfolding acknowledge keep_pending retain_unacked
  acknowledge-IsValid capacity n s
        ((base, m, l, c, num, gen, i64, u, acked, sub, small), p, sender, open_, closed) h =
      let few = retain_length arrow (max s.last_acked_records n) s.pending_batches none in
      let (lo, first, below, c', num', _, u', _) =
        retain-Kept arrow (max s.last_acked_records n) base s.cumulative_records_assigned 0 m
          s.pending_batches none c num (inl refl) in
      (
        (
          lo,
          m,
          (λ e. below (let b = l e in omega arith)),
          c',
          Numbered-weaken 0 first m _ (omega arith) num',
          gen,
          i64,
          u',
          omega arith,
          sub,
          small,
        ),
        omega arith,
        sender,
        open_,
        (λ e. ap (λ bs. (retain_unacked (max s.last_acked_records n) bs none).0) (closed e)),
      )

  pub apply-IsValid :
      (capacity n : ℕ) (s : ArrowStream arrow.RecordBatch (ZerobusError tonic.Status))
      → IsValid arrow capacity s
      → IsValid arrow capacity (apply n s).1
  apply-IsValid capacity n s v = elim (le_or_lt n s.submitted_records) [
    | inl below ↦ rw (apply_accepts n s below) (acknowledge-IsValid capacity n s v below)
    | inr above ↦ rw (apply_rejects n s above) v
  ]
