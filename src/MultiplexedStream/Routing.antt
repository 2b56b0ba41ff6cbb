-- ===== src/MultiplexedStream/Routing.antt =====
-- Where the multiplexer sends records, and what it does once it is closed.
use zerobus_sdk.Common.{
  ℕ, zero, suc, ◌+◌, ◌*◌, ◌/◌, ◌%◌, ◌^◌, ◌≤◌, ◌<◌, ◌≡◌, ◌≢◌, ◌⊎◌, refl, ap, ◌∙◌, sym, arith, true,
  false, none, some, List, length, set, get_elem?, Bool-cases, Option-cases, le_or_lt, inl, inr,
}
use native.Mathlib.Nat.{div-add-mod, mul-le-mul_left, mod-lt}
use zerobus_sdk.MultiplexedStream.{
  MuxResult, ok, err, SubStream, Round, Wait, ready, closed_mux, closed_stream, waiting, Mux,
  mux_closed_error, shutdown_on_failure, pick_substream, ingest_into, ingest_record, proceed, flush,
  wait_for_capacity,
}
use zerobus_sdk.MultiplexedStream.Message.{
  message_id, stream_index, sub_offset, message_id_lem, stream_bits,
}
use zerobus_sdk.Errors.{Tonic, ZerobusError}

remainders_differ : (a b n : ℕ) → a < b → b < a + n → a % n ≢ b % n
remainders_differ a b n l h e = elim (le_or_lt (b / n) (a / n)) [
  | inl below ↦ omega (arith, div-add-mod a n, div-add-mod b n, e, mul-le-mul_left n below)
  | inr above ↦
      let more : a / n + 1 ≤ b / n = omega arith in
      let product : n * (a / n + 1) ≡ n * (a / n) + n = omega arith in
      omega (arith, div-add-mod a n, div-add-mod b n, e, mul-le-mul_left n more, product)
]

module _ (tonic : Tonic) (sub : SubStream (ZerobusError tonic.Status)) where
  -- After a shutdown, a second one changes nothing, and an ingest or a flush returns the error of a
  -- closed stream and reaches no sub-stream.
  pub shutdown_poisons :
      (rounds : List Round) (item : sub.Record) (m : Mux tonic sub)
      → let closed = shutdown_on_failure tonic sub m in
        (shutdown_on_failure tonic sub closed ≡ closed)
        × (ingest_record tonic sub rounds item closed
            ≡ some (err (mux_closed_error tonic sub), closed))
        × (flush tonic sub closed ≡ (err (mux_closed_error tonic sub), closed))
  unfolding shutdown_on_failure ingest_record flush
  shutdown_poisons rounds item m = elim (Bool-cases m.is_closed) [
    | inl e ↦ (ground arith, ground arith, ground arith)
    | inr e ↦ (ground arith, ground arith, ground arith)
  ]

  -- The state after `n` picks.
  abbrev pub picked : ℕ → Mux tonic sub → Mux tonic sub
  picked zero m = m
  picked (suc n) m = picked n (pick_substream tonic sub m).1

  picked_counter :
      (n : ℕ) (m : Mux tonic sub)
      → m.round_robin_counter + n < 2 ^ 64
      → ((picked n m).round_robin_counter ≡ m.round_robin_counter + n)
        × ((picked n m).streams ≡ m.streams)
  unfolding pick_substream
  picked_counter zero m h = (omega arith, refl)
  picked_counter (suc n) m h =
      let small : (m.round_robin_counter + 1) % 2 ^ 64 ≡ m.round_robin_counter + 1 = omega arith in
      let (count, same) = picked_counter n (pick_substream tonic sub m).1 (omega (arith, small)) in
      (omega (arith, count, small), same)

  -- Until the counter wraps around, any two picks fewer apart than there are sub-streams choose
  -- different ones: consecutive picks go through all of them.
  pub picks_differ :
      (i j : ℕ) (m : Mux tonic sub)
      → i < j
      → j < i + length m.streams
      → m.round_robin_counter + j < 2 ^ 64
      → (pick_substream tonic sub (picked i m)).0 ≢ (pick_substream tonic sub (picked j m)).0
  unfolding pick_substream
  picks_differ i j m l h k =
      let (ci, si) = picked_counter i m (omega arith) in
      let (cj, sj) = picked_counter j m k in
      rw (ci, si, cj, sj)
        (remainders_differ (m.round_robin_counter + i) (m.round_robin_counter + j)
          (length m.streams) (omega arith) (omega arith))

  MuxResult-cases :
      {A : Type 0} (r : MuxResult (ZerobusError tonic.Status) A)
      → ((a : A) × (r ≡ ok a)) ⊎ ((e : ZerobusError tonic.Status) × (r ≡ err e))
  MuxResult-cases (ok a) = inl (a, refl)
  MuxResult-cases (err e) = inr (e, refl)

  waits : {A : Type 0} {a : A} → none ≡ some a → ⊥
  waits e = cc

  some_same : {A : Type 0} {a b : A} → some a ≡ some b → a ≡ b
  some_same e = cc

  -- The sub-stream that `id` names took the record, and no other changed.
  abbrev pub Routed : sub.Record → Mux tonic sub → Mux tonic sub → ℕ → Type 0
  Routed item m after id =
      (s t : sub.Stream) × (get_elem? m.streams (stream_index id) ≡ some s)
      × (sub.ingest_record_offset item s ≡ (ok (sub_offset id), t))
      × (after.streams ≡ set m.streams (stream_index id) t)

  ingest_into_ok :
      (idx off : ℕ) (item : sub.Record) (s t : sub.Stream) (m : Mux tonic sub)
      → get_elem? m.streams idx ≡ some s
      → sub.ingest_record_offset item s ≡ (ok off, t)
      → m.is_closed ≡ false
      → ingest_into tonic sub idx item m
        ≡ (ok (message_id idx off), record m { streams = set m.streams idx t })
  unfolding ingest_into
  ingest_into_ok idx off item s t m e f c = ground arith

  into_none :
      (idx : ℕ) (item : sub.Record) (m : Mux tonic sub)
      → get_elem? m.streams idx ≡ none
      → (ingest_into tonic sub idx item m).0 ≡ err (mux_closed_error tonic sub)
  unfolding ingest_into
  into_none idx item m h = ground arith

  into_closed :
      (idx : ℕ) (item : sub.Record) (m : Mux tonic sub) (s : sub.Stream)
      → get_elem? m.streams idx ≡ some s
      → m.is_closed ≡ true
      → (ingest_into tonic sub idx item m).0 ≡ err (mux_closed_error tonic sub)
  unfolding ingest_into
  into_closed idx item m s h k = ground arith

  into_err :
      (idx : ℕ) (item : sub.Record) (m : Mux tonic sub) (s : sub.Stream)
      (f : ZerobusError tonic.Status)
      → get_elem? m.streams idx ≡ some s
      → m.is_closed ≡ false
      → (sub.ingest_record_offset item s).0 ≡ err f
      → (ingest_into tonic sub idx item m).0 ≡ err f
  unfolding ingest_into
  into_err idx item m s f h k r = ground arith

  not_err :
      (r : MuxResult (ZerobusError tonic.Status) ℕ × Mux tonic sub) (f : ZerobusError tonic.Status)
      (id : ℕ) (after : Mux tonic sub)
      → r.0 ≡ err f
      → r ≡ (ok id, after)
      → ⊥
  not_err r f id after h e = let bad : ok id ≡ err f = sym (ap (λ x. x.0) e) ∙ h in cc

  ingest_into-Routed :
      (idx id : ℕ) (item : sub.Record) (m after : Mux tonic sub)
      → idx < 2 ^ stream_bits
      → ((s t : sub.Stream) (off : ℕ)
          → sub.ingest_record_offset item s ≡ (ok off, t)
          → off < 2 ^ 58)
      → ingest_into tonic sub idx item m ≡ (ok id, after)
      → Routed item m after id
  ingest_into-Routed idx id item m after h small e = elim (Option-cases (get_elem? m.streams idx)) [
    | inl gone ↦ absurd (not_err _ _ id after (into_none idx item m gone) e)
    | inr (s, there) ↦ elim (Bool-cases m.is_closed) [
      | inl closed ↦ absurd (not_err _ _ id after (into_closed idx item m s there closed) e)
      | inr open_ ↦ elim (MuxResult-cases (sub.ingest_record_offset item s).0) [
        | inl (off, r) ↦
            let t = (sub.ingest_record_offset item s).1 in
            let taken : sub.ingest_record_offset item s ≡ (ok off, t) = ground arith in
            let done = sym (ingest_into_ok idx off item s t m there taken open_) ∙ e in
            let id_ok : ok (message_id idx off) ≡ ok id = ap (λ x. x.0) done in
            let same : message_id idx off ≡ id = cc in
            let (index, offset, _) =
              message_id_lem idx off 0 h (small s t off taken) (omega arith) in
            let i : stream_index id ≡ idx = ap stream_index (sym same) ∙ index in
            let o : sub_offset id ≡ off = ap sub_offset (sym same) ∙ offset in
            rw (i, o) (s, t, there, taken, sym (ap (λ x. x.1.streams) done))
        | inr (f, r) ↦ absurd (not_err _ _ id after (into_err idx item m s f there open_ r) e)
      ]
    ]
  ]

  proceed-Routed :
      (w : Wait) (idx id : ℕ) (item : sub.Record) (m after : Mux tonic sub)
      → idx < 2 ^ stream_bits
      → ((s t : sub.Stream) (off : ℕ)
          → sub.ingest_record_offset item s ≡ (ok off, t)
          → off < 2 ^ 58)
      → proceed tonic sub w idx item m ≡ some (ok id, after)
      → Routed item m after id
  unfolding proceed
  proceed-Routed waiting idx id item m after h small e = absurd (waits e)
  proceed-Routed closed_mux idx id item m after h small e =
      absurd (not_err _ _ id after refl (some_same e))
  proceed-Routed closed_stream idx id item m after h small e =
      absurd (not_err _ _ id after refl (some_same e))
  proceed-Routed ready idx id item m after h small e =
      ingest_into-Routed idx id item m after h small (some_same e)

  record_closed :
      (rounds : List Round) (item : sub.Record) (m : Mux tonic sub)
      → m.is_closed ≡ true
      → ingest_record tonic sub rounds item m ≡ some (err (mux_closed_error tonic sub), m)
  unfolding ingest_record
  record_closed rounds item m h = ground arith

  record_open :
      (rounds : List Round) (item : sub.Record) (m : Mux tonic sub)
      → m.is_closed ≡ false
      → let (idx, after) = pick_substream tonic sub m in
        ingest_record tonic sub rounds item m
        ≡ proceed tonic sub (wait_for_capacity rounds) idx item after
  unfolding ingest_record
  record_open rounds item m h = ground arith

  -- On a stream of at most 64 sub-streams whose offsets are below 2 ^ 58: when an ingest returns a
  -- message id, the sub-stream that the id names took the record and returned the id's offset, and
  -- no other sub-stream changed.
  pub ingest_record-routes :
      (rounds : List Round) (item : sub.Record) (m after : Mux tonic sub) (id : ℕ)
      → length m.streams ≤ 2 ^ stream_bits
      → 0 < length m.streams
      → ((s t : sub.Stream) (off : ℕ)
          → sub.ingest_record_offset item s ≡ (ok off, t)
          → off < 2 ^ 58)
      → ingest_record tonic sub rounds item m ≡ some (ok id, after)
      → Routed item m after id
  unfolding pick_substream
  ingest_record-routes rounds item m after id h p small e = elim (Bool-cases m.is_closed) [
    | inl closed ↦
        absurd
          (not_err _ _ id after refl (some_same (sym (record_closed rounds item m closed) ∙ e)))
    | inr open_ ↦
        proceed-Routed (wait_for_capacity rounds) (m.round_robin_counter % length m.streams) id item
          (pick_substream tonic sub m).1 after (omega (arith, mod-lt m.round_robin_counter p)) small
          (sym (record_open rounds item m open_) ∙ e)
  ]
