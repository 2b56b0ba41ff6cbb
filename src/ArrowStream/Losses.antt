-- ===== src/ArrowStream/Losses.antt =====
-- rust/sdk/src/stream/arrow/acks.rs: what the rounds of `AckProcessor::process` keep.
use zerobus_sdk.Common.{
  ℕ, ◌≤◌, max, arith, ◌≡◌, ◌⊎◌, inl, inr, refl, Bool, true, false, ◌||◌, Option, none, some, List,
  [], ◌∷◌, ltb, leb, Bool-cases, subst, if◌then◌else◌,
}
use zerobus_sdk.Common.Int.{ℤ}
use zerobus_sdk.ArrowStream.{Arrow, ZerobusResult, ok, err}
use zerobus_sdk.ArrowStream.Acks.{apply, take_failure, pause_and_snapshot_submitted}
use zerobus_sdk.ArrowStream.Rotation.{DrainEvent, close_request_and_drain_response, or_else}
use zerobus_sdk.ArrowStream.Process.{
  FlightAckMetadata, Config, RotationState, not_rotating, waiting_for_acks, AckEvent, response,
  response_not_parsed, response_failed, response_ended, pending_batch_available,
  request_send_failed, ack_deadline, ack_wait_elapsed, deadline_error, Outcome, continues, returns,
  drains, fail, begin_rotation, after_apply, on_response, on_expiry, on_event, expired, check,
  round, process,
}
use zerobus_sdk.ArrowStream.Valid.{IsValid}
use zerobus_sdk.ArrowStream.Steps.{Stream}
use zerobus_sdk.Errors.{Tonic, ZerobusError}
use zerobus_sdk.ArrowStream.Kept.{
  Keeps, Keeps-refl, Keeps-trans, drain_reports, apply-Keeps,
  close_request_and_drain_response-Keeps,
}

-- The records that a response counts, and the most that one of several counts.
abbrev pub counted : {Status : Type 0} → AckEvent Status → ℕ
counted (response ack) = ack.ack_up_to_records
counted other = 0

abbrev pub reports : {Status : Type 0} → List (ℕ × ℕ × AckEvent Status) → ℕ
reports [] = 0
reports ((started, now, event) ∷ rounds) = max (counted event) (reports rounds)

module _ (tonic : Tonic) (arrow : Arrow) where
  -- A round keeps the stream, and returns no success unless the stream is closed.
  abbrev KeepsIn : ℕ → ℕ → Stream tonic arrow → Outcome tonic arrow → Type 0
  KeepsIn capacity m s (continues rotation t) = Keeps tonic arrow capacity m s t
  KeepsIn capacity m s (returns result t) =
      Keeps tonic arrow capacity m s t
      × ((t.is_closed ≡ true) ⊎ ((e : ZerobusError tonic.Status) × (result ≡ err e)))
  KeepsIn capacity m s (drains finished e t) = Keeps tonic arrow capacity m s t

  if_KeepsIn :
      (capacity m : ℕ) (s : Stream tonic arrow) (b : Bool) (o o' : Outcome tonic arrow)
      → KeepsIn capacity m s o
      → KeepsIn capacity m s o'
      → KeepsIn capacity m s (if b then o else o')
  if_KeepsIn capacity m s true o o' h h' = h
  if_KeepsIn capacity m s false o o' h h' = h'

  fail-KeepsIn :
      (capacity m : ℕ) (rotation : RotationState) (e : ZerobusError tonic.Status) (finished : Bool)
      (s t : Stream tonic arrow)
      → Keeps tonic arrow capacity m s t
      → KeepsIn capacity m s (fail tonic arrow rotation e finished t)
  unfolding fail
  fail-KeepsIn capacity m not_rotating e finished s t k = (k, inr (e, refl))
  fail-KeepsIn capacity m (waiting_for_acks target deadlines) e finished s t k = k

  after_apply-KeepsIn :
      (capacity m : ℕ) (rotation : RotationState)
      (r : ZerobusResult (ZerobusError tonic.Status) Unit) (s t : Stream tonic arrow)
      → Keeps tonic arrow capacity m s t
      → KeepsIn capacity m s (after_apply tonic arrow rotation r t)
  unfolding after_apply
  after_apply-KeepsIn capacity m rotation (ok _) s t k = k
  after_apply-KeepsIn capacity m rotation (err e) s t k =
      fail-KeepsIn capacity m rotation e false s t k

  begin_rotation-Keeps :
      (capacity m : ℕ) (c : Config) (now : ℕ) (d : Option ℕ) (rotation : RotationState)
      (s : Stream tonic arrow)
      → IsValid arrow capacity s
      → Keeps tonic arrow capacity m s (begin_rotation tonic arrow c now d rotation s).1
  unfolding begin_rotation pause_and_snapshot_submitted
  begin_rotation-Keeps capacity m c now none rotation s v = (Keeps-refl tonic arrow capacity m s v)
  begin_rotation-Keeps capacity m c now (some d) (waiting_for_acks target deadlines) s v =
      (Keeps-refl tonic arrow capacity m s v)
  begin_rotation-Keeps capacity m c now (some d) not_rotating s (v, p, sender, opened, closed) =
      Keeps-refl tonic arrow capacity m (pause_and_snapshot_submitted s).1
        (v, p, (λ a b. let bad : true ≡ false = a in cc), opened, closed)

  on_response-KeepsIn :
      (capacity m : ℕ) (c : Config) (now : ℕ) (ack : FlightAckMetadata) (rotation : RotationState)
      (s : Stream tonic arrow)
      → IsValid arrow capacity s
      → ack.ack_up_to_records ≤ m
      → KeepsIn capacity m s (on_response tonic arrow c now ack rotation s)
  unfolding on_response
  on_response-KeepsIn capacity m c now ack rotation s v h =
      let (rotation', t) =
        begin_rotation tonic arrow c now ack.close_stream_duration_ms rotation s in
      let k = begin_rotation-Keeps capacity m c now ack.close_stream_duration_ms rotation s v in
      let (result, u) = apply ack.ack_up_to_records t in
      elim (Bool-cases (ltb 0 ack.ack_up_to_records)) [
        | inl p ↦ rw p (
            after_apply-KeepsIn capacity m rotation' result s u (
              Keeps-trans tonic arrow capacity m s t u k
                (apply-Keeps tonic arrow capacity m ack.ack_up_to_records t k.0 h)))
        | inr p ↦ rw p k
      ]

  on_expiry-KeepsIn :
      (capacity m : ℕ) (r : ZerobusResult (ZerobusError tonic.Status) Bool)
      (rotation : RotationState) (s : Stream tonic arrow)
      → IsValid arrow capacity s
      → KeepsIn capacity m s (on_expiry tonic arrow r rotation s)
  unfolding on_expiry
  on_expiry-KeepsIn capacity m (err e) rotation s v =
      ((Keeps-refl tonic arrow capacity m s v), inr (e, refl))
  on_expiry-KeepsIn capacity m (ok false) rotation s v = (Keeps-refl tonic arrow capacity m s v)
  on_expiry-KeepsIn capacity m (ok true) rotation s v =
      ((Keeps-refl tonic arrow capacity m s v), inr (_, refl))

  on_event-KeepsIn :
      (capacity m : ℕ) (c : Config) (now : ℕ) (event : AckEvent tonic.Status)
      (rotation : RotationState) (s : Stream tonic arrow)
      → IsValid arrow capacity s
      → counted event ≤ m
      → KeepsIn capacity m s (on_event tonic arrow c now event rotation s)
  unfolding on_event take_failure
  on_event-KeepsIn capacity m c now (response ack) rotation s v h =
      on_response-KeepsIn capacity m c now ack rotation s v h
  on_event-KeepsIn capacity m c now response_not_parsed rotation s v h =
      (Keeps-refl tonic arrow capacity m s v)
  on_event-KeepsIn capacity m c now pending_batch_available rotation s v h =
      (Keeps-refl tonic arrow capacity m s v)
  on_event-KeepsIn capacity m c now ack_wait_elapsed rotation s v h =
      (Keeps-refl tonic arrow capacity m s v)
  on_event-KeepsIn capacity m c now request_send_failed rotation s v h =
      if_KeepsIn capacity m s s.request_send_failure _ _
        ((Keeps-refl tonic arrow capacity m s v), inr (_, refl))
        (Keeps-refl tonic arrow capacity m s v)
  on_event-KeepsIn capacity m c now (ack_deadline expected) rotation s v h =
      on_expiry-KeepsIn capacity m (expired tonic arrow c now expected s) rotation s v
  on_event-KeepsIn capacity m c now (response_failed f) not_rotating s v h =
      ((Keeps-refl tonic arrow capacity m s v), inr (_, refl))
  on_event-KeepsIn capacity m c now (response_failed f) (waiting_for_acks target deadlines) s v h =
      (Keeps-refl tonic arrow capacity m s v)
  on_event-KeepsIn capacity m c now response_ended not_rotating s v h =
      ((Keeps-refl tonic arrow capacity m s v), inr (_, refl))
  on_event-KeepsIn capacity m c now response_ended (waiting_for_acks target deadlines) s v h =
      (Keeps-refl tonic arrow capacity m s v)

  abbrev KeepsIf : ℕ → ℕ → Stream tonic arrow → Option (Outcome tonic arrow) → Type 0
  KeepsIf capacity m s none = Unit
  KeepsIf capacity m s (some o) = KeepsIn capacity m s o

  or_else-KeepsIn :
      (capacity m : ℕ) (s : Stream tonic arrow) (next : Outcome tonic arrow)
      (o : Option (Outcome tonic arrow))
      → KeepsIn capacity m s next
      → KeepsIf capacity m s o
      → KeepsIn capacity m s (or_else next o)
  or_else-KeepsIn capacity m s next none h k = h
  or_else-KeepsIn capacity m s next (some found) h k = k

  if_KeepsIf :
      (capacity m : ℕ) (s : Stream tonic arrow) (b : Bool) (o : Outcome tonic arrow)
      → KeepsIn capacity m s o
      → KeepsIf capacity m s (if b then some o else none)
  if_KeepsIf capacity m s true o h = h
  if_KeepsIf capacity m s false o h = tt

  deadline_error-KeepsIf :
      (capacity m : ℕ) (s : Stream tonic arrow)
      (r : ZerobusResult (ZerobusError tonic.Status) (Option ((ℤ × ℕ × ℕ) × ℕ)))
      → IsValid arrow capacity s
      → KeepsIf capacity m s (deadline_error tonic arrow r s)
  unfolding deadline_error
  deadline_error-KeepsIf capacity m s (err e) v =
      ((Keeps-refl tonic arrow capacity m s v), inr (e, refl))
  deadline_error-KeepsIf capacity m s (ok d) v = tt

  check-KeepsIf :
      (capacity m : ℕ) (c : Config) (now : ℕ) (rotation : RotationState) (s : Stream tonic arrow)
      → IsValid arrow capacity s
      → KeepsIf capacity m s (check tonic arrow c now rotation s)
  unfolding check
  check-KeepsIf capacity m c now (waiting_for_acks target deadlines) s v =
      if_KeepsIf capacity m s (leb target s.last_acked_records || leb deadlines.ack now) _
        (Keeps-refl tonic arrow capacity m s v)
  check-KeepsIf capacity m c now not_rotating s v = deadline_error-KeepsIf capacity m s _ v

  if_closed-KeepsIn :
      (capacity m : ℕ) (s : Stream tonic arrow) (b : Bool) (o : Outcome tonic arrow)
      → s.is_closed ≡ b
      → IsValid arrow capacity s
      → KeepsIn capacity m s o
      → KeepsIn capacity m s (if b then returns (ok tt) s else o)
  if_closed-KeepsIn capacity m s true o e v h = ((Keeps-refl tonic arrow capacity m s v), inl e)
  if_closed-KeepsIn capacity m s false o e v h = h

  round-KeepsIn :
      (capacity m : ℕ) (c : Config) (started now : ℕ) (event : AckEvent tonic.Status)
      (rotation : RotationState) (s : Stream tonic arrow)
      → IsValid arrow capacity s
      → counted event ≤ m
      → KeepsIn capacity m s (round tonic arrow c started now event rotation s)
  unfolding round
  round-KeepsIn capacity m c started now event rotation s v h =
      if_closed-KeepsIn capacity m s s.is_closed _ refl v (
        or_else-KeepsIn capacity m s _ _ (on_event-KeepsIn capacity m c now event rotation s v h)
          (check-KeepsIf capacity m c started rotation s v))

  -- What the loop comes to keeps the stream, and is no success unless the stream is closed.
  abbrev pub Ends :
      ℕ
      → ℕ
      → Stream tonic arrow
      → Option (ZerobusResult (ZerobusError tonic.Status) Unit × Stream tonic arrow)
      → Type 0
  Ends capacity m s none = Unit
  Ends capacity m s (some (result, t)) =
      Keeps tonic arrow capacity m s t
      × ((t.is_closed ≡ true) ⊎ ((e : ZerobusError tonic.Status) × (result ≡ err e)))

  Ends-trans :
      (capacity m : ℕ) (s t : Stream tonic arrow)
      (o : Option (ZerobusResult (ZerobusError tonic.Status) Unit × Stream tonic arrow))
      → Keeps tonic arrow capacity m s t
      → Ends capacity m t o
      → Ends capacity m s o
  Ends-trans capacity m s t none k h = tt
  Ends-trans capacity m s t (some (result, u)) k (l, h) =
      (Keeps-trans tonic arrow capacity m s t u k l, h)

  pub Outcome-cases :
      (o : Outcome tonic arrow)
      → ((rotation : RotationState) × (t : Stream tonic arrow) × (o ≡ continues rotation t))
        ⊎ (((result : ZerobusResult (ZerobusError tonic.Status) Unit) × (t : Stream tonic arrow)
              × (o ≡ returns result t))
            ⊎ ((finished : Bool) × (e : Option (ZerobusError tonic.Status)) × (t : Stream tonic
                  arrow)
                × (o ≡ drains finished e t)))
  Outcome-cases (continues rotation t) = inl (rotation, t, refl)
  Outcome-cases (returns result t) = inr (inl (result, t, refl))
  Outcome-cases (drains finished e t) = inr (inr (finished, e, t, refl))

  -- On a valid stream, whatever the responses, failures and deadlines and wherever a rotation comes:
  -- when the loop returns, the stream is valid and owes the rows it owed, less as many of the first as
  -- the watermark has advanced at most, which is not above the highest count of a response; and the
  -- loop reports no success unless the stream is closed.
  pub process-Ends :
      (capacity m : ℕ) (c : Config) (drained : List (DrainEvent tonic.Status))
      (rounds : List (ℕ × ℕ × AckEvent tonic.Status)) (rotation : RotationState)
      (s : Stream tonic arrow)
      → IsValid arrow capacity s
      → reports rounds ≤ m
      → drain_reports drained ≤ m
      → Ends capacity m s (process tonic arrow c drained rounds rotation s)
  unfolding process
  process-Ends capacity m c drained [] rotation s v h d = tt
  process-Ends capacity m c drained ((started, now, event) ∷ rounds) rotation s v p d =
      let h = round-KeepsIn capacity m c started now event rotation s v (omega arith) in
      elim (Outcome-cases (round tonic arrow c started now event rotation s)) [
        | inl (rotation', t, e) ↦
            let k = subst (λ o. KeepsIn capacity m s o) e h in
            rw (e, process)
              (Ends-trans capacity m s t (process tonic arrow c drained rounds rotation' t) k
                (process-Ends capacity m c drained rounds rotation' t k.0 (omega arith) d))
        | inr (inl (result, t, e)) ↦ rw (e, process) (subst (λ o. KeepsIn capacity m s o) e h)
        | inr (inr (finished, f, t, e)) ↦
            let k = subst (λ o. KeepsIn capacity m s o) e h in
            rw (e, process)
              (
                Keeps-trans tonic arrow capacity m s t
                    (close_request_and_drain_response tonic drained finished f t).1 k
                    (close_request_and_drain_response-Keeps tonic arrow capacity m drained finished
                      f t k.0 d),
                inr (_, refl),
              )
      ]
