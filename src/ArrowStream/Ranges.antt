-- ===== src/ArrowStream/Ranges.antt =====
-- The ranges of the pending batches, and how much they hold.
use zerobus_sdk.Common.{
  ℕ, ◌+◌, ◌-◌, max, ◌≤◌, ◌<◌, ◌≡◌, refl, sym, arith, List, [], ◌∷◌, length, drop, length-drop,
  length-append, drop-drop, drop_all, drop-append_within, drop-append_past, le_or_lt, inl, inr,
}
use zerobus_sdk.ArrowStream.{Arrow, PendingBatch}
use zerobus_sdk.ArrowStream.Rows.{unacked_rows}

module _ (arrow : Arrow) where
  abbrev pub IsRange : PendingBatch arrow.RecordBatch → Type 0
  IsRange b =
      (b.end_record ≡ b.start_record + arrow.num_rows b.batch) × (0 < arrow.num_rows b.batch)

  -- From `lo` to `hi`, ranges that are not empty follow each other; there may be gaps.
  abbrev pub Ordered : ℕ → List (PendingBatch arrow.RecordBatch) → ℕ → Type 0
  Ordered lo [] hi = lo ≤ hi
  Ordered lo (b ∷ bs) hi = (lo ≤ b.start_record) × IsRange b × Ordered b.end_record bs hi

  -- The same without gaps.
  abbrev pub Contiguous : ℕ → List (PendingBatch arrow.RecordBatch) → ℕ → Type 0
  Contiguous lo [] hi = lo ≡ hi
  Contiguous lo (b ∷ bs) hi = (lo ≡ b.start_record) × IsRange b × Contiguous b.end_record bs hi

  pub Contiguous-Ordered :
      (lo hi : ℕ) (bs : List (PendingBatch arrow.RecordBatch))
      → Contiguous lo bs hi
      → Ordered lo bs hi
  Contiguous-Ordered lo hi [] h = omega (arith, h)
  Contiguous-Ordered lo hi (b ∷ bs) (e, r, h) =
      (omega arith, r, Contiguous-Ordered b.end_record hi bs h)

  pub Ordered-le :
      (lo hi : ℕ) (bs : List (PendingBatch arrow.RecordBatch)) → Ordered lo bs hi → lo ≤ hi
  Ordered-le lo hi [] h = h
  Ordered-le lo hi (b ∷ bs) (e, (r, _), h) = omega (arith, Ordered-le b.end_record hi bs h)

  -- The rows that are not acknowledged are no more than the records not acknowledged.
  pub length-unacked_rows :
      (acked lo hi : ℕ) (bs : List (PendingBatch arrow.RecordBatch))
      → Ordered lo bs hi
      → length (unacked_rows arrow acked bs) ≤ hi - max lo acked
  length-unacked_rows acked lo hi [] h = omega arith
  length-unacked_rows acked lo hi (b ∷ bs) (e, (r, p), h) = omega (
    arith,
    Ordered-le b.end_record hi bs h,
    length-unacked_rows acked b.end_record hi bs h,
    arrow.num_rows_lem b.batch,
    length-drop (acked - b.start_record) (arrow.rows b.batch),
    length-append (drop (acked - b.start_record) (arrow.rows b.batch))
        (unacked_rows arrow acked bs),
  )

  -- From a watermark that is at most `lo`, nothing is dropped.
  pub unacked_rows-below :
      (a a' lo hi : ℕ) (bs : List (PendingBatch arrow.RecordBatch))
      → Ordered lo bs hi
      → a ≤ lo
      → a' ≤ lo
      → unacked_rows arrow a bs ≡ unacked_rows arrow a' bs
  unacked_rows-below a a' lo hi [] h l l' = refl
  unacked_rows-below a a' lo hi (b ∷ bs) (e, (r, _), h) l l' =
      let same : a - b.start_record ≡ a' - b.start_record = omega arith in
      rw (same, unacked_rows-below a a' b.end_record hi bs h (omega arith) (omega arith)) refl

  -- Without gaps, the rows from a watermark on are all but the first so many.
  unacked_rows_from :
      (a lo hi : ℕ) (bs : List (PendingBatch arrow.RecordBatch))
      → Contiguous lo bs hi
      → lo ≤ a
      → unacked_rows arrow a bs ≡ drop (a - lo) (unacked_rows arrow lo bs)
  unacked_rows_from a lo hi [] h l = sym (drop_all (a - lo) [] (omega arith))
  unacked_rows_from a lo hi (b ∷ bs) (e, (r, _), h) l =
      let o = Contiguous-Ordered b.end_record hi bs h in
      let start : lo - b.start_record ≡ 0 = omega arith in
      let same : a - b.start_record ≡ a - lo = omega arith in
      let past : a - lo - length (arrow.rows b.batch) ≡ a - b.end_record =
        omega (arith, arrow.num_rows_lem b.batch) in
      let later =
        unacked_rows-below lo b.end_record b.end_record hi bs o (omega arith) (omega arith) in
      rw (start, same, later)
        (elim (le_or_lt a b.end_record) [
          | inl below ↦
              rw (unacked_rows-below a b.end_record b.end_record hi bs o below (omega arith)) (
                sym (
                  drop-append_within (a - lo) (arrow.rows b.batch)
                    (unacked_rows arrow b.end_record bs)
                    (omega (arith, arrow.num_rows_lem b.batch))))
          | inr above ↦
              rw
                (
                  drop_all (a - lo) (arrow.rows b.batch)
                      (omega (arith, arrow.num_rows_lem b.batch)),
                  unacked_rows_from a b.end_record hi bs h (omega arith),
                  drop-append_past (a - lo) (arrow.rows b.batch)
                      (unacked_rows arrow b.end_record bs)
                      (omega (arith, arrow.num_rows_lem b.batch)),
                  past,
                )
                refl
        ])

  -- So a later watermark leaves all but the first so many of what an earlier one leaves.
  pub unacked_rows-Contiguous :
      (a a' lo hi : ℕ) (bs : List (PendingBatch arrow.RecordBatch))
      → Contiguous lo bs hi
      → lo ≤ a
      → a ≤ a'
      → unacked_rows arrow a' bs ≡ drop (a' - a) (unacked_rows arrow a bs)
  unacked_rows-Contiguous a a' lo hi bs h l k =
      let same : a - lo + (a' - a) ≡ a' - lo = omega arith in
      rw
        (
          unacked_rows_from a lo hi bs h l,
          unacked_rows_from a' lo hi bs h (omega arith),
          drop-drop (a' - a) (a - lo) (unacked_rows arrow lo bs),
          same,
        )
        refl
