-- ===== src/ArrowStream/Ends.antt =====
-- rust/sdk/src/stream/arrow/acks.rs: a rotation of `AckProcessor::process` comes to an end.
use zerobus_sdk.Common.{
  ℕ, ◌≡◌, inl, inr, refl, subst, Bool, true, false, ◌||◌, Option, none, some, List, [], ◌∷◌, ◌++◌,
  ltb, leb, if◌then◌else◌,
}
use zerobus_sdk.ArrowStream.{Arrow, ZerobusResult, ok, err}
use zerobus_sdk.ArrowStream.Acks.{take_failure}
use zerobus_sdk.ArrowStream.Rotation.{
  RotationDeadlines, DrainEvent, close_request_and_drain_response, or_else,
}
use zerobus_sdk.ArrowStream.Process.{
  Config, RotationState, waiting_for_acks, AckEvent, response, response_not_parsed, response_failed,
  response_ended, pending_batch_available, request_send_failed, ack_deadline, ack_wait_elapsed,
  Outcome, continues, returns, drains, fail, begin_rotation, after_apply, on_response, on_expiry,
  on_event, expired, check, round, process,
}
use zerobus_sdk.ArrowStream.Losses.{Outcome-cases}
use zerobus_sdk.ArrowStream.Steps.{Stream}
use zerobus_sdk.Errors.{Tonic, ZerobusError}

module _ (tonic : Tonic) (arrow : Arrow) where
  -- A rotation that goes on keeps its target and its deadlines.
  abbrev Waits : RotationState → Outcome tonic arrow → Type 0
  Waits waiting (continues rotation t) = rotation ≡ waiting
  Waits waiting (returns result t) = Unit
  Waits waiting (drains finished e t) = Unit

  if_Waits :
      (waiting : RotationState) (b : Bool) (o o' : Outcome tonic arrow)
      → Waits waiting o
      → Waits waiting o'
      → Waits waiting (if b then o else o')
  if_Waits waiting true o o' h h' = h
  if_Waits waiting false o o' h h' = h'

  after_apply-Waits :
      (target : ℕ) (d : RotationDeadlines) (rotation : RotationState)
      (r : ZerobusResult (ZerobusError tonic.Status) Unit) (s : Stream tonic arrow)
      → rotation ≡ waiting_for_acks target d
      → Waits (waiting_for_acks target d) (after_apply tonic arrow rotation r s)
  unfolding after_apply fail
  after_apply-Waits target d rotation (ok _) s p = p
  after_apply-Waits target d rotation (err e) s p = rw p tt

  begin_rotation_waiting :
      (c : Config) (now : ℕ) (close : Option ℕ) (target : ℕ) (d : RotationDeadlines)
      (s : Stream tonic arrow)
      → (begin_rotation tonic arrow c now close (waiting_for_acks target d) s).0
        ≡ waiting_for_acks target d
  unfolding begin_rotation
  begin_rotation_waiting c now none target d s = refl
  begin_rotation_waiting c now (some duration) target d s = refl

  on_expiry-Waits :
      (r : ZerobusResult (ZerobusError tonic.Status) Bool) (rotation : RotationState)
      (s : Stream tonic arrow)
      → Waits rotation (on_expiry tonic arrow r rotation s)
  unfolding on_expiry
  on_expiry-Waits (err e) rotation s = tt
  on_expiry-Waits (ok false) rotation s = refl
  on_expiry-Waits (ok true) rotation s = tt

  on_event-Waits :
      (c : Config) (now : ℕ) (event : AckEvent tonic.Status) (target : ℕ) (d : RotationDeadlines)
      (s : Stream tonic arrow)
      → Waits
          (waiting_for_acks target d)
          (on_event tonic arrow c now event (waiting_for_acks target d) s)
  unfolding on_event on_response take_failure
  on_event-Waits c now (response ack) target d s =
      let p = begin_rotation_waiting c now ack.close_stream_duration_ms target d s in
      if_Waits (waiting_for_acks target d) (ltb 0 ack.ack_up_to_records) _ _
        (after_apply-Waits target d _ _ _ p) p
  on_event-Waits c now response_not_parsed target d s = refl
  on_event-Waits c now pending_batch_available target d s = refl
  on_event-Waits c now ack_wait_elapsed target d s = refl
  on_event-Waits c now request_send_failed target d s =
      if_Waits (waiting_for_acks target d) s.request_send_failure _ _ tt refl
  on_event-Waits c now (ack_deadline expected) target d s =
      on_expiry-Waits (expired tonic arrow c now expected s) (waiting_for_acks target d) s
  on_event-Waits c now (response_failed f) target d s = tt
  on_event-Waits c now response_ended target d s = tt

  check-Waits :
      (b : Bool) (waiting : RotationState) (next : Outcome tonic arrow) (s : Stream tonic arrow)
      → Waits waiting next
      → Waits waiting (or_else next (if b then some (drains false none s) else none))
  check-Waits true waiting next s h = tt
  check-Waits false waiting next s h = h

  round-Waits :
      (c : Config) (started now : ℕ) (event : AckEvent tonic.Status) (target : ℕ)
      (d : RotationDeadlines) (s : Stream tonic arrow)
      → Waits
          (waiting_for_acks target d)
          (round tonic arrow c started now event (waiting_for_acks target d) s)
  unfolding round check
  round-Waits c started now event target d s =
      if_Waits (waiting_for_acks target d) s.is_closed _ _ tt (
        check-Waits (leb target s.last_acked_records || leb d.ack started)
          (waiting_for_acks target d) _ s (on_event-Waits c now event target d s))

  -- A round that starts at the deadline does not go on.
  abbrev Stops : Outcome tonic arrow → Type 0
  Stops (continues rotation t) = ⊥
  Stops (returns result t) = Unit
  Stops (drains finished e t) = Unit

  drains_Stops :
      (reached late : Bool) (next : Outcome tonic arrow) (s : Stream tonic arrow)
      → late ≡ true
      → Stops (or_else next (if reached || late then some (drains false none s) else none))
  drains_Stops true late next s e = tt
  drains_Stops false late next s e = rw e tt

  if_Stops :
      (b : Bool) (o o' : Outcome tonic arrow) → Stops o → Stops o' → Stops (if b then o else o')
  if_Stops true o o' h h' = h
  if_Stops false o o' h h' = h'

  round-Stops :
      (c : Config) (started now : ℕ) (event : AckEvent tonic.Status) (target : ℕ)
      (d : RotationDeadlines) (s : Stream tonic arrow)
      → leb d.ack started ≡ true
      → Stops (round tonic arrow c started now event (waiting_for_acks target d) s)
  unfolding round check
  round-Stops c started now event target d s late =
      if_Stops s.is_closed _ _ tt
        (drains_Stops (leb target s.last_acked_records) (leb d.ack started) _ s late)

  -- A rotation ends: once a round starts at or after the deadline for acknowledgements, the call
  -- has returned, whatever came before.
  pub rotation_ends :
      (c : Config) (drained : List (DrainEvent tonic.Status))
      (rounds : List (ℕ × ℕ × AckEvent tonic.Status)) (started now : ℕ)
      (event : AckEvent tonic.Status) (target : ℕ) (d : RotationDeadlines) (s : Stream tonic arrow)
      → leb d.ack started ≡ true
      → (result : ZerobusResult (ZerobusError tonic.Status) Unit) × (t : Stream tonic arrow)
        × (process tonic arrow c drained
              (rounds ++ (started, now, event) ∷ [])
              (waiting_for_acks target d)
              s
            ≡ some (result, t))
  unfolding process
  rotation_ends c drained [] started now event target d s late =
      let stops = round-Stops c started now event target d s late in
      elim (Outcome-cases tonic arrow
        (round tonic arrow c started now event (waiting_for_acks target d) s)) [
          | inl (rotation, t, e) ↦ absurd (subst (λ o. Stops o) e stops)
          | inr (inl (result, t, e)) ↦ (result, t, rw (e, process) refl)
          | inr (inr (finished, f, t, e)) ↦
              let (error, u) = close_request_and_drain_response tonic drained finished f t in
              (err error, u, rw (e, process) refl)
        ]
  rotation_ends c drained ((before, at, first) ∷ rounds) started now event target d s late =
      let waits = round-Waits c before at first target d s in
      elim (Outcome-cases tonic arrow
        (round tonic arrow c before at first (waiting_for_acks target d) s)) [
          | inl (rotation, t, e) ↦
              let p = subst (λ o. Waits (waiting_for_acks target d) o) e waits in
              let (result, u, q) =
                rotation_ends c drained rounds started now event target d t late in
              (result, u, rw (e, process, p) q)
          | inr (inl (result, t, e)) ↦ (result, t, rw (e, process) refl)
          | inr (inr (finished, f, t, e)) ↦
              let (error, u) = close_request_and_drain_response tonic drained finished f t in
              (err error, u, rw (e, process) refl)
        ]
