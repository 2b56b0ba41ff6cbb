-- ===== src/GrpcStream/Outcomes.antt =====
-- What becomes of the records of a stream over its whole history, through any number of
-- connections.
use Prim.Native.String.{String}
use zerobus_sdk.Common.{
  ℕ, ◌+◌, ◌≤◌, ◌^◌, ◌≡◌, refl, sym, ap, ◌∙◌, arith, Bool, true, some, List, [], ◌∷◌, ◌++◌, map,
}
use mathlib.Core.List.{append_assoc, append-nil, map-append}
use zerobus_sdk.Common.Int.{ℤ, pos}
use zerobus_sdk.LandingZone.{add, acquire, push, remove_observed, release_front, remove_all, ok}
use zerobus_sdk.LandingZone.History.{contents}
use zerobus_sdk.LandingZone.Reset.{reset_observe_lem}
use zerobus_sdk.OffsetGenerator.{next}
use zerobus_sdk.OffsetGenerator.Sequence.{before, add_one-before}
use zerobus_sdk.GrpcStream.State.{
  StreamState, IngestRequest, CallbackMessage, ack, Answer, answer, notify, ingest_locked,
}
use zerobus_sdk.GrpcStream.Receiver.{ack_one}
use zerobus_sdk.GrpcStream.Supervisor.{connected, fail_one, fail_loop, fail_all_pending_records}

abbrev pub offset_of : CallbackMessage → ℤ
offset_of (ack offset) = offset
offset_of (CallbackMessage.error offset text) = offset

module _ {ℓ} {E : Type 0} {P : Type ℓ} where
  -- The offsets that the callback task was told of, in order, and those of the records in the zone.
  abbrev pub told : StreamState E P → List ℤ
  told s = map offset_of s.callbacks

  abbrev pub pending : StreamState E P → List ℤ
  pending s = map (λ (r : IngestRequest P). r.offset_id) (contents s.landing_zone)

  -- The parts of the state that an operation on the channels leaves alone.
  abbrev SameBut : StreamState E P → StreamState E P → Type ℓ
  SameBut s t =
      (t.landing_zone ≡ s.landing_zone)
      × (t.logical_offset_id_generator ≡ s.logical_offset_id_generator)
      × (t.has_callback ≡ s.has_callback)

  answer-SameBut :
      (o : ℤ) (a : Answer E) (s : StreamState E P)
      → SameBut s (answer o a s) × ((answer o a s).callbacks ≡ s.callbacks)
  unfolding answer
  answer-SameBut o a s = ground arith

  notify-SameBut :
      (m : CallbackMessage) (s : StreamState E P)
      → SameBut s (notify m s)
        × (s.has_callback ≡ true → (notify m s).callbacks ≡ s.callbacks ++ m ∷ [])
  unfolding notify
  notify-SameBut m s = ground arith

  -- `s` becomes `t`, and the offsets that were pending in `s` are told of up to those in `t`.
  abbrev pub Moves : StreamState E P → StreamState E P → Type 0
  Moves s t =
      (told t ++ pending t ≡ told s ++ pending s)
      × (t.logical_offset_id_generator ≡ s.logical_offset_id_generator)
      × (t.has_callback ≡ s.has_callback)

  observed_cons :
      (r : IngestRequest P) (s : StreamState E P)
      → (remove_observed s.landing_zone).0 ≡ ok r
      → contents s.landing_zone ≡ r ∷ contents (remove_observed s.landing_zone).1
  unfolding remove_observed release_front
  observed_cons r s h = ground arith

  pub ack_one-Moves :
      (s t : StreamState E P) (o : ℤ) → s.has_callback ≡ true → ack_one s ≡ some (o, t) → Moves s t
  unfolding ack_one remove_observed answer notify release_front
  ack_one-Moves s t o has e = ground (
    arith,
    map-append offset_of s.callbacks (ack o ∷ []),
    append_assoc (told s) (o ∷ []) (pending t),
  )

  -- What failing records leaves alone, and the payloads that it keeps.
  fail_one-kept :
      (to_string : E → String) (e : E) (r : IngestRequest P) (s : StreamState E P)
      → SameBut s (fail_one to_string e r s)
        × ((fail_one to_string e r s).failed_records ≡ s.failed_records ++ r.payload ∷ [])
        × ((fail_one to_string e r s).is_closed ≡ s.is_closed)
  unfolding fail_one answer notify
  fail_one-kept to_string e r s = ground arith

  pub fail_loop-kept :
      (to_string : E → String) (e : E) (records : List (IngestRequest P)) (s : StreamState E P)
      → SameBut s (fail_loop to_string e records s)
        × ((fail_loop to_string e records s).failed_records
            ≡ s.failed_records ++ map (λ (r : IngestRequest P). r.payload) records)
        × ((fail_loop to_string e records s).is_closed ≡ s.is_closed)
  unfolding fail_loop
  fail_loop-kept to_string e [] s = ((refl, refl, refl), sym (append-nil s.failed_records), refl)
  fail_loop-kept to_string e (r ∷ records) s =
      let ((z, g, c), f, d) = fail_one-kept to_string e r s in
      let ((z', g', c'), f', d') = fail_loop-kept to_string e records (fail_one to_string e r s) in
      (
        (z' ∙ z, g' ∙ g, c' ∙ c),
        f'
            ∙ ap (λ (l : List P). l ++ map (λ (r : IngestRequest P). r.payload) records) f
            ∙ append_assoc s.failed_records (r.payload ∷ []) _,
        d' ∙ d,
      )

  fail_one-told :
      (to_string : E → String) (e : E) (r : IngestRequest P) (s : StreamState E P)
      → s.has_callback ≡ true
      → told (fail_one to_string e r s) ≡ told s ++ r.offset_id ∷ []
  unfolding fail_one answer notify
  fail_one-told to_string e r s has = ground (
    arith,
    map-append offset_of s.callbacks (CallbackMessage.error r.offset_id (to_string e) ∷ []),
  )

  fail_loop-told :
      (to_string : E → String) (e : E) (records : List (IngestRequest P)) (s : StreamState E P)
      → s.has_callback ≡ true
      → told (fail_loop to_string e records s)
        ≡ told s ++ map (λ (r : IngestRequest P). r.offset_id) records
  unfolding fail_loop
  fail_loop-told to_string e [] s has = sym (append-nil (told s))
  fail_loop-told to_string e (r ∷ records) s has =
      let ((z, g, c), f, d) = fail_one-kept to_string e r s in
      fail_loop-told to_string e records (fail_one to_string e r s) (c ∙ has)
      ∙ ap (λ (l : List ℤ). l ++ map (λ (r : IngestRequest P). r.offset_id) records)
          (fail_one-told to_string e r s has)
      ∙ append_assoc (told s) (r.offset_id ∷ []) _

  pub ingest_locked_lem :
      (payload : P) (s t : StreamState E P) (o : ℤ) (n : ℕ)
      → n + 1 ≤ 2 ^ 63
      → s.logical_offset_id_generator.last_offset_id ≡ before n
      → ingest_locked payload s ≡ some (o, t)
      → (t.logical_offset_id_generator.last_offset_id ≡ pos n)
        × (t.has_callback ≡ s.has_callback)
        × (told t ≡ told s)
        × (pending t ≡ pending s ++ pos n ∷ [])
  unfolding ingest_locked add acquire push next
  ingest_locked_lem payload s t o n h g e = ground (
    arith,
    add_one-before n h,
    append_assoc s.landing_zone.observed_items s.landing_zone.queue
        (record { payload = payload; offset_id = pos n } ∷ []),
    map-append (λ (r : IngestRequest P). r.offset_id) (contents s.landing_zone)
        (record { payload = payload; offset_id = pos n } ∷ []),
  )

  pub fail_all_lem :
      (to_string : E → String) (e : E) (s : StreamState E P)
      → s.has_callback ≡ true
      → (told (fail_all_pending_records to_string e s) ≡ told s ++ pending s)
        × (pending (fail_all_pending_records to_string e s) ≡ [])
        × ((fail_all_pending_records to_string e s).logical_offset_id_generator
            ≡ s.logical_offset_id_generator)
        × ((fail_all_pending_records to_string e s).has_callback ≡ true)
  unfolding fail_all_pending_records remove_all
  fail_all_lem to_string e s has =
      let drained : StreamState E P = record s { landing_zone = (remove_all s.landing_zone).1 } in
      let ((z, g, c), f, d) = fail_loop-kept to_string e (remove_all s.landing_zone).0 drained in
      (
        fail_loop-told to_string e (remove_all s.landing_zone).0 drained has,
        ap (λ z. map (λ (r : IngestRequest P). r.offset_id) (contents z)) z,
        g,
        c ∙ has,
      )

  pub connected-Moves : (initial : Bool) (s : StreamState E P) → Moves s (connected initial s).1
  unfolding connected
  connected-Moves initial s = ground (arith, reset_observe_lem s.landing_zone)
