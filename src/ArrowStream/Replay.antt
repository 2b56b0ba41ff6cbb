-- ===== src/ArrowStream/Replay.antt =====
-- What a reconnection sends again, and the ranges it gives.
use zerobus_sdk.Common.{
  ℕ, suc, ◌+◌, ◌-◌, ◌^◌, ◌≤◌, ◌<◌, ◌≡◌, inl, inr, refl, ap, ◌∙◌, sym, subst, arith, none, some,
  List, [], ◌∷◌, ◌++◌, length, drop, length-drop, length-append, Option-cases, le_or_lt,
}
use zerobus_sdk.ArrowStream.{Arrow, PendingBatch, add_u64}
use zerobus_sdk.ArrowStream.Batch.{unacknowledged_suffix, rebuild_loop}
use zerobus_sdk.ArrowStream.Rows.{unacked_rows, all_rows, rows_of, suffix-rows}
use zerobus_sdk.ArrowStream.Ranges.{Ordered, Contiguous}
use zerobus_sdk.ArrowStream.Retain.{Numbered, AllUnacked}

pub add_u64_lem : (a b : ℕ) → a + b < 2 ^ 64 → add_u64 a b ≡ a + b
unfolding add_u64
add_u64_lem a b h = omega arith

pub Numbered-weaken :
    {RecordBatch : Type 0} (m n last : ℕ) (bs : List (PendingBatch RecordBatch))
    → m ≤ n
    → Numbered n bs last
    → Numbered m bs last
Numbered-weaken m n last [] l h = omega arith
Numbered-weaken m n last (b ∷ bs) l (k, same, h, hs) = (k, same, omega arith, hs)

module _ (arrow : Arrow) where
  suffix_none :
      (b : PendingBatch arrow.RecordBatch) (acked : ℕ)
      → 0 < arrow.num_rows b.batch
      → arrow.num_rows b.batch ≤ acked - b.start_record
      → unacknowledged_suffix arrow b acked ≡ none
  unfolding unacknowledged_suffix
  suffix_none b acked p h = ground arith

  suffix_not_empty :
      (b : PendingBatch arrow.RecordBatch) (acked : ℕ) (batch : arrow.RecordBatch)
      → 0 < arrow.num_rows b.batch
      → unacknowledged_suffix arrow b acked ≡ some batch
      → 0 < arrow.num_rows batch
  suffix_not_empty b acked batch p e =
      let rows = sym (ap (rows_of arrow) e) ∙ suffix-rows arrow b acked in
      elim (le_or_lt (arrow.num_rows b.batch) (acked - b.start_record)) [
        | inl over ↦ let bad : none ≡ some batch = sym (suffix_none b acked p over) ∙ e in cc
        | inr left ↦ omega (
          arith,
          ap length rows,
          arrow.num_rows_lem batch,
          arrow.num_rows_lem b.batch,
          length-drop (acked - b.start_record) (arrow.rows b.batch),
        )
      ]

  abbrev Rebuilt :
      ℕ
      → ℕ
      → ℕ
      → ℕ
      → List (PendingBatch arrow.RecordBatch)
      → List (PendingBatch arrow.RecordBatch) × List arrow.RecordBatch × ℕ
      → Type 0
  Rebuilt acked c n last bs (rebuilt, replay, total) =
      Contiguous arrow c rebuilt total
      × Numbered n rebuilt last
      × (total ≡ c + length (unacked_rows arrow acked bs))
      × (all_rows arrow replay ≡ unacked_rows arrow acked bs)
      × (unacked_rows arrow 0 rebuilt ≡ unacked_rows arrow acked bs)
      × (length rebuilt ≤ length bs)

  pub rebuild-Rebuilt :
      (acked c lo hi n last : ℕ) (bs : List (PendingBatch arrow.RecordBatch))
      → Ordered arrow lo bs hi
      → Numbered n bs last
      → c + length (unacked_rows arrow acked bs) < 2 ^ 64
      → Rebuilt acked c n last bs (rebuild_loop arrow acked c bs)
  unfolding rebuild_loop
  rebuild-Rebuilt acked c lo hi n last [] o m h = (refl, m, omega arith, refl, refl, omega arith)
  rebuild-Rebuilt acked c lo hi n last (b ∷ bs) (l, (r, p), o) (k, same, m, ms) h =
      let rows = suffix-rows arrow b acked in
      elim (Option-cases (unacknowledged_suffix arrow b acked)) [
        | inl e ↦
            let gone : drop (acked - b.start_record) (arrow.rows b.batch) ≡ [] =
              sym rows ∙ ap (rows_of arrow) e in
            let (c', m', t, a, u, len) =
              rebuild-Rebuilt acked c b.end_record hi n last bs o
                (Numbered-weaken n (suc k) last bs (omega arith) ms)
                (subst (λ r. c + length (r ++ unacked_rows arrow acked bs) < 2 ^ 64) gone h) in
            rw (e, rebuild_loop, gone) (c', m', t, a, u, omega arith)
        | inr (batch, e) ↦
            let left : arrow.rows batch ≡ drop (acked - b.start_record) (arrow.rows b.batch) =
              sym (ap (rows_of arrow) e) ∙ rows in
            let count = arrow.num_rows_lem batch in
            let len = length-append (arrow.rows batch) (unacked_rows arrow acked bs) in
            let h' : c + length (arrow.rows batch ++ unacked_rows arrow acked bs) < 2 ^ 64 =
              rw left h in
            let end : add_u64 c (arrow.num_rows batch) ≡ c + arrow.num_rows batch =
              add_u64_lem c (arrow.num_rows batch) (omega (arith, count, len, h')) in
            let (c', m', t, a, u, few) =
              rebuild-Rebuilt acked (c + arrow.num_rows batch) b.end_record hi (suc k) last bs o ms
                (omega (arith, count, len, h')) in
            rw (e, rebuild_loop, ← left, end)
              (
                (refl, (refl, suffix_not_empty b acked batch p e), c'),
                (k, same, m, m'),
                omega (arith, t, count, len),
                rw a refl,
                (let start : 0 - c ≡ 0 = omega arith in rw (start, u) refl),
                omega arith,
              )
      ]

  pub Contiguous-AllUnacked :
      (acked lo hi : ℕ) (bs : List (PendingBatch arrow.RecordBatch))
      → Contiguous arrow lo bs hi
      → acked ≤ lo
      → AllUnacked acked bs
  Contiguous-AllUnacked acked lo hi [] h l = tt
  Contiguous-AllUnacked acked lo hi (b ∷ bs) (e, (r, p), h) l =
      (omega arith, Contiguous-AllUnacked acked b.end_record hi bs h (omega arith))
