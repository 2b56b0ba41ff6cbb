-- ===== src/GrpcStream/Acks.antt =====
-- What one acknowledgement does.
use zerobus_sdk.Common.{
  ℕ, zero, suc, ◌+◌, ◌<◌, ◌^◌, ◌≡◌, refl, sym, ap, ◌∙◌, arith, true, some, List, [], ◌∷◌, ◌++◌, map,
  length,
}
use mathlib.Core.List.{append_assoc, append-nil}
use zerobus_sdk.Common.Int.{ℤ, pos, negsuc}
use zerobus_sdk.LandingZone.{remove_observed, release_front}
use zerobus_sdk.OffsetGenerator.{add_one}
use zerobus_sdk.OffsetGenerator.Sequence.{before, add_one-before}
use zerobus_sdk.GrpcStream.State.{
  StreamState, Connection, IngestRequest, CallbackMessage, ack, acked, answer, notify,
}
use zerobus_sdk.GrpcStream.Receiver.{ack_one, ack_loop, ack_up_to, range_len}

range_before : (m : ℕ) → range_len (pos m) (before m) ≡ 0
range_before zero = refl
range_before (suc m) = omega arith

range_len-before : (m k : ℕ) → m + k < 2 ^ 63 → range_len (add_one (before m)) (before (m + k)) ≡ k
range_len-before m zero h =
    let same : m + 0 ≡ m = omega arith in rw (same, add_one-before m (omega arith)) (range_before m)
range_len-before m (suc k) h =
    let same : m + suc k ≡ suc (m + k) = omega arith in
    rw (same, add_one-before m (omega arith)) (omega arith)

module _ {ℓ} {E : Type 0} {P : Type ℓ} where
  -- The callbacks of `t` are those of `s` and then acknowledgements of `records`; `rest` is what is
  -- observed in `t`, and the queue is that of `s`.
  abbrev Acked :
      List (IngestRequest P) → List (IngestRequest P) → StreamState E P → StreamState E P → Type ℓ
  Acked records rest s t =
      (t.callbacks ≡ s.callbacks ++ map (λ (r : IngestRequest P). ack r.offset_id) records)
      × (t.landing_zone.observed_items ≡ rest)
      × (t.landing_zone.queue ≡ s.landing_zone.queue)
      × (t.has_callback ≡ s.has_callback)

  ack_one-Acked :
      (r : IngestRequest P) (rest : List (IngestRequest P)) (s : StreamState E P)
      → s.has_callback ≡ true
      → s.landing_zone.observed_items ≡ r ∷ rest
      → (t : StreamState E P) × (ack_one s ≡ some (r.offset_id, t)) × Acked (r ∷ []) rest s t
  unfolding ack_one remove_observed release_front answer notify
  ack_one-Acked r rest s has e =
      let removed : StreamState E P = record s {
        landing_zone = (remove_observed s.landing_zone).1;
      } in
      (
        notify (ack r.offset_id) (answer r.offset_id (acked r.offset_id) removed),
        ground arith,
        (ground arith, ground arith, ground arith, ground arith),
      )

  ack_loop-Acked :
      (records rest : List (IngestRequest P)) (l : ℤ) (s : StreamState E P)
      → s.has_callback ≡ true
      → s.landing_zone.observed_items ≡ records ++ rest
      → Acked records rest s (ack_loop (length records) l s).1
  unfolding ack_loop
  ack_loop-Acked [] rest l s has e = (sym (append-nil s.callbacks), e, refl, refl)
  ack_loop-Acked (r ∷ records) rest l s has e =
      let (t, one, (a, b, c, d)) = ack_one-Acked r (records ++ rest) s has e in
      let (a', b', c', d') = ack_loop-Acked records rest r.offset_id t (d ∙ has) b in
      rw (one, ack_loop)
        (
          a'
              ∙ ap
                  (λ (l : List CallbackMessage).
                    l ++ map (λ (r : IngestRequest P). ack r.offset_id) records)
                  a
              ∙ append_assoc s.callbacks (ack r.offset_id ∷ []) _,
          b',
          c' ∙ c,
          d' ∙ d,
        )

  -- With a callback handler, on a connection on which m records were acknowledged: an
  -- acknowledgement of k more, with these at the front of the observed items, removes just them,
  -- sends one callback for each, in order, and leaves m + k acknowledged.
  pub ack_up_to-acknowledges :
      (m : ℕ) (records rest : List (IngestRequest P)) (c : Connection) (s : StreamState E P)
      → s.has_callback ≡ true
      → c.last_acked_offset ≡ before m
      → m + length records < 2 ^ 63
      → s.landing_zone.observed_items ≡ records ++ rest
      → let (c', t) = ack_up_to (before (m + length records)) c s in
        (t.callbacks ≡ s.callbacks ++ map (λ (r : IngestRequest P). ack r.offset_id) records)
        × (t.landing_zone.observed_items ≡ rest)
        × (t.landing_zone.queue ≡ s.landing_zone.queue)
        × (c'.last_acked_offset ≡ before (m + length records))
  unfolding ack_up_to
  ack_up_to-acknowledges m records rest c s has e h o =
      let (a, b, q, _) = ack_loop-Acked records rest (negsuc 1) s has o in
      rw (e, range_len-before m (length records) h) (ground arith)
