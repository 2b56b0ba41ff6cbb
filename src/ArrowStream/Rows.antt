-- ===== src/ArrowStream/Rows.antt =====
-- The rows that a stream still owes to the server, and what a suffix is of a batch's rows.
use zerobus_sdk.Common.{
  ℕ, ◌-◌, min, ◌≡◌, ◌≢◌, refl, ◌∙◌, arith, Option, none, some, List, [], ◌∷◌, ◌++◌, drop, drop_all,
  take_all, length-drop,
}
use zerobus_sdk.ArrowStream.{Arrow, PendingBatch}
use zerobus_sdk.ArrowStream.Batch.{unacknowledged_suffix}
use zerobus_sdk.ArrowStream.Recovery.{unacked_suffixes}

module _ (arrow : Arrow) where
  abbrev pub rows_of : Option arrow.RecordBatch → List arrow.Row
  rows_of none = []
  rows_of (some batch) = arrow.rows batch

  abbrev pub all_rows : List arrow.RecordBatch → List arrow.Row
  all_rows [] = []
  all_rows (b ∷ bs) = arrow.rows b ++ all_rows bs

  -- The rows of the pending batches whose number is `acked` or more.
  abbrev pub unacked_rows : ℕ → List (PendingBatch arrow.RecordBatch) → List arrow.Row
  unacked_rows acked [] = []
  unacked_rows acked (b ∷ bs) =
      drop (acked - b.start_record) (arrow.rows b.batch) ++ unacked_rows acked bs

  slice_rest :
      (batch : arrow.RecordBatch) (n : ℕ)
      → arrow.num_rows batch - min n (arrow.num_rows batch) ≢ 0
      → arrow.rows (
          arrow.slice batch
            (min n (arrow.num_rows batch))
            (arrow.num_rows batch - min n (arrow.num_rows batch)))
        ≡ drop n (arrow.rows batch)
  slice_rest batch n h =
      let same : min n (arrow.num_rows batch) ≡ n = omega arith in
      rw same (
        arrow.rows-slice batch n (arrow.num_rows batch - n) (omega arith)
        ∙ take_all (arrow.num_rows batch - n) (drop n (arrow.rows batch))
            (omega (arith, length-drop n (arrow.rows batch), arrow.num_rows_lem batch)))

  pub suffix-rows :
      (b : PendingBatch arrow.RecordBatch) (acked : ℕ)
      → rows_of (unacknowledged_suffix arrow b acked)
        ≡ drop (acked - b.start_record) (arrow.rows b.batch)
  unfolding unacknowledged_suffix
  suffix-rows b acked = ground (
    arith,
    slice_rest b.batch (acked - b.start_record),
    arrow.num_rows_lem b.batch,
    drop_all (acked - b.start_record) (arrow.rows b.batch),
  )

  pub suffixes-rows :
      (acked : ℕ) (bs : List (PendingBatch arrow.RecordBatch))
      → all_rows (unacked_suffixes arrow acked bs) ≡ unacked_rows acked bs
  unfolding unacked_suffixes
  suffixes-rows acked [] = refl
  suffixes-rows acked (b ∷ bs) = ground (arith, suffix-rows b acked, suffixes-rows acked bs)
