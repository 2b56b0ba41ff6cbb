-- ===== src/ArrowStream/Retain.antt =====
-- What an acknowledgement keeps of the pending batches.
use zerobus_sdk.Common.{
  ℕ, suc, ◌-◌, ◌≤◌, ◌<◌, ◌≡◌, ◌⊎◌, inl, inr, refl, arith, Option, none, some, List, [], ◌∷◌,
  drop_all, le_or_lt, All,
}
use zerobus_sdk.Common.Int.{ℤ, pos}
use zerobus_sdk.ArrowStream.{Arrow, PendingBatch}
use zerobus_sdk.ArrowStream.Batch.{is_fully_acknowledged}
use zerobus_sdk.ArrowStream.Acks.{retain_unacked, max_offset}
use zerobus_sdk.ArrowStream.Rows.{unacked_rows}
use zerobus_sdk.ArrowStream.Ranges.{Ordered, Contiguous, Contiguous-Ordered}

abbrev pub Below : ℕ → Option ℤ → Type 0
Below n o = (o ≡ none) ⊎ ((j : ℕ) × (o ≡ some (pos j)) × (j < n))

max_offset-Below : (n lo : ℕ) (o : Option ℤ) → Below lo o → lo ≤ n → max_offset o (pos n) ≡ pos n
unfolding max_offset
max_offset-Below n lo o (inl e) h = rw e refl
max_offset-Below n lo o (inr (j, e, l)) h = rw e (ground arith)

module _ {RecordBatch : Type 0} where
  -- The offsets ascend from `lo`, and are below `hi`.
  abbrev pub Numbered : ℕ → List (PendingBatch RecordBatch) → ℕ → Type 0
  Numbered lo [] hi = lo ≤ hi
  Numbered lo (b ∷ bs) hi = (n : ℕ) × (b.offset_id ≡ pos n) × (lo ≤ n) × Numbered (suc n) bs hi

  abbrev pub AllUnacked : ℕ → List (PendingBatch RecordBatch) → Type 0
  AllUnacked acked = All (λ (b : PendingBatch RecordBatch). acked < b.end_record)

  pub retain_dropped :
      (acked : ℕ) (b : PendingBatch RecordBatch) (bs : List (PendingBatch RecordBatch))
      (o : Option ℤ)
      → b.end_record ≤ acked
      → retain_unacked acked (b ∷ bs) o ≡ retain_unacked acked bs (some (max_offset o b.offset_id))
  unfolding retain_unacked is_fully_acknowledged
  retain_dropped acked b bs o h = ground arith

  pub retain_kept :
      (acked : ℕ) (b : PendingBatch RecordBatch) (bs : List (PendingBatch RecordBatch))
      (o : Option ℤ)
      → acked < b.end_record
      → retain_unacked acked (b ∷ bs) o
        ≡ (b ∷ (retain_unacked acked bs o).0, (retain_unacked acked bs o).1)
  unfolding retain_unacked is_fully_acknowledged
  retain_kept acked b bs o h = ground arith

module _ (arrow : Arrow) where
  -- Past the first batch that stays, all stay.
  retain_all :
      (acked lo hi : ℕ) (bs : List (PendingBatch arrow.RecordBatch)) (o : Option ℤ)
      → Ordered arrow lo bs hi
      → acked < lo
      → (retain_unacked acked bs o ≡ (bs, o)) × AllUnacked acked bs
  unfolding retain_unacked
  retain_all acked lo hi [] o h l = (refl, tt)
  retain_all acked lo hi (b ∷ bs) o (e, (r, _), h) l =
      let (same, rest) = retain_all acked b.end_record hi bs o h (omega arith) in
      (rw (retain_kept acked b bs o (omega arith), same) refl, (omega arith, rest))

  -- The batches kept follow each other, from an acknowledged record if they did before; the offset found is
  -- below theirs; and the rows not acknowledged are the same as before.
  abbrev Kept :
      ℕ
      → ℕ
      → ℕ
      → ℕ
      → List (PendingBatch arrow.RecordBatch)
      → List (PendingBatch arrow.RecordBatch) × Option ℤ
      → Type 0
  Kept acked start hi last bs (kept, o) =
      (lo : ℕ) × (n : ℕ) × (start ≤ acked → lo ≤ acked)
      × Contiguous arrow lo kept hi
      × Numbered n kept last
      × Below n o
      × AllUnacked acked kept
      × (unacked_rows arrow acked kept ≡ unacked_rows arrow acked bs)

  pub retain-Kept :
      (acked lo hi n last : ℕ) (bs : List (PendingBatch arrow.RecordBatch)) (o : Option ℤ)
      → Contiguous arrow lo bs hi
      → Numbered n bs last
      → Below n o
      → Kept acked lo hi last bs (retain_unacked acked bs o)
  unfolding retain_unacked
  retain-Kept acked lo hi n last [] o c m b = (lo, n, (λ l. l), c, m, b, tt, refl)
  retain-Kept acked lo hi n last (b ∷ bs) o (e, (r, p), c) (k, same, m, ms) o_below =
      elim (le_or_lt b.end_record acked) [
        | inl done ↦
            let (lo', n', l', c', m', b', u', rows') =
              retain-Kept acked b.end_record hi (suc k) last bs (some (pos k)) c ms
                (inr (k, refl, omega arith)) in
            rw
              (
                retain_dropped acked b bs o done,
                same,
                max_offset-Below k n o o_below m,
                drop_all (acked - b.start_record) (arrow.rows b.batch)
                    (omega (arith, arrow.num_rows_lem b.batch)),
              )
              (lo', n', (λ l. l' done), c', m', b', u', rows')
        | inr left ↦
            let (all, u) =
              retain_all acked b.end_record hi bs o (Contiguous-Ordered arrow b.end_record hi bs c)
                left in
            rw (retain_kept acked b bs o left, all)
              (lo, n, (λ l. l), (e, (r, p), c), (k, same, m, ms), o_below, (left, u), refl)
      ]
