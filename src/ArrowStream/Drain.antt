-- ===== src/ArrowStream/Drain.antt =====
-- Bounds of the rotation's deadlines, and what the drain keeps.
use zerobus_sdk.Common.{
  ℕ, ◌≡◌, Bool, true, false, Option, none, some, List, [], ◌∷◌, ltb, Bool-cases, inl, inr,
}
use zerobus_sdk.ArrowStream.{ArrowStream, ZerobusResult, ok, err}
use zerobus_sdk.ArrowStream.Acks.{apply}
use zerobus_sdk.ArrowStream.Rotation.{
  update_rotation_error, or_else, note_failure, drain_metadata, drain_loop, DrainEvent, deadline,
  request_eof, metadata, response_error, response_end,
}
use zerobus_sdk.Errors.{Tonic, ZerobusError, stream_closed_error, is_retryable}

module _ (tonic : Tonic) where
  -- An error that no retry follows.
  abbrev pub IsPermanent : Option (ZerobusError tonic.Status) → Type 0
  IsPermanent none = ⊥
  IsPermanent (some e) = is_retryable tonic e ≡ false

  update-IsPermanent :
      (current : Option (ZerobusError tonic.Status)) (candidate : ZerobusError tonic.Status)
      → IsPermanent current
      → IsPermanent (update_rotation_error tonic current candidate)
  unfolding update_rotation_error
  update-IsPermanent none candidate h = absurd h
  update-IsPermanent (some e) candidate h = elim (Bool-cases (is_retryable tonic candidate)) [
    | inl r ↦ rw (h, r) h
    | inr r ↦ rw (h, r) r
  ]

  note_failure-IsPermanent :
      (e : Option (ZerobusError tonic.Status)) (r : ZerobusResult (ZerobusError tonic.Status) Unit)
      → IsPermanent e
      → IsPermanent (note_failure tonic e r)
  unfolding note_failure
  note_failure-IsPermanent e (ok _) h = h
  note_failure-IsPermanent e (err f) h = update-IsPermanent e f h

  permanent_or_else :
      (e : Option (ZerobusError tonic.Status)) (f : ZerobusError tonic.Status)
      → IsPermanent e
      → is_retryable tonic (or_else f e) ≡ false
  permanent_or_else none f h = absurd h
  permanent_or_else (some e) f h = h

module _ (tonic : Tonic) {RecordBatch : Type 0} where
  drain_metadata-IsPermanent :
      (ack : Option ℕ) (e : Option (ZerobusError tonic.Status))
      (s : ArrowStream RecordBatch (ZerobusError tonic.Status))
      → IsPermanent tonic e
      → IsPermanent tonic (drain_metadata tonic ack e s).0
  unfolding drain_metadata
  drain_metadata-IsPermanent none e s h = h
  drain_metadata-IsPermanent (some n) e s h = elim (Bool-cases (ltb 0 n)) [
    | inl p ↦ rw p (note_failure-IsPermanent tonic e (apply n s).0 h)
    | inr p ↦ rw p h
  ]

  -- A drain that holds an error that is not retryable, from the start or from a response, returns one
  -- that is not retryable, whatever comes after.
  pub drain_loop-permanent :
      (events : List (DrainEvent tonic.Status)) (request_finished response_finished : Bool)
      (e : Option (ZerobusError tonic.Status))
      (s : ArrowStream RecordBatch (ZerobusError tonic.Status))
      → IsPermanent tonic e
      → is_retryable tonic (drain_loop tonic events request_finished response_finished e s).0
        ≡ false
  unfolding drain_loop
  drain_loop-permanent [] q r e s h = permanent_or_else tonic e _ h
  drain_loop-permanent (event ∷ events) true true e s h = permanent_or_else tonic e _ h
  drain_loop-permanent (deadline ∷ events) true false e s h = permanent_or_else tonic e _ h
  drain_loop-permanent (deadline ∷ events) false r e s h = permanent_or_else tonic e _ h
  drain_loop-permanent (request_eof ∷ events) true false e s h =
      drain_loop-permanent events true false e s h
  drain_loop-permanent (request_eof ∷ events) false r e s h =
      drain_loop-permanent events true r e s h
  drain_loop-permanent (metadata a ∷ events) true false e s h =
      drain_loop-permanent events true false _ _ (drain_metadata-IsPermanent a e s h)
  drain_loop-permanent (metadata a ∷ events) false false e s h =
      drain_loop-permanent events false false _ _ (drain_metadata-IsPermanent a e s h)
  drain_loop-permanent (metadata a ∷ events) false true e s h =
      drain_loop-permanent events false true e s h
  drain_loop-permanent (response_error f ∷ events) true false e s h =
      drain_loop-permanent events true true _ s
        (update-IsPermanent tonic e (stream_closed_error f) h)
  drain_loop-permanent (response_error f ∷ events) false false e s h =
      drain_loop-permanent events false true _ s
        (update-IsPermanent tonic e (stream_closed_error f) h)
  drain_loop-permanent (response_error f ∷ events) false true e s h =
      drain_loop-permanent events false true e s h
  drain_loop-permanent (response_end ∷ events) true false e s h =
      drain_loop-permanent events true true e s h
  drain_loop-permanent (response_end ∷ events) false r e s h =
      drain_loop-permanent events false true e s h
