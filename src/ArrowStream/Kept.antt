-- ===== src/ArrowStream/Kept.antt =====
-- The rows that a stream still owes after acknowledgements, and after the drain of a rotation.
use zerobus_sdk.Common.{
  ℕ, zero, suc, ◌≡◌, inl, inr, refl, ap, ◌∙◌, sym, Bool, true, false, Option, none, some, List, [],
  ◌∷◌, ◌++◌, ltb, Bool-cases, ◌+◌, ◌-◌, ◌≤◌, max, length, length-append, take, arith, le_or_lt,
}
use mathlib.Core.List.{append_assoc}
use zerobus_sdk.ArrowStream.{Arrow}
use zerobus_sdk.ArrowStream.Acks.{apply, acknowledge, pause_and_detach_sender}
use zerobus_sdk.ArrowStream.Rotation.{
  DrainEvent, deadline, request_eof, metadata, response_error, response_end, drain_metadata,
  drain_loop, close_request_and_drain_response,
}
use zerobus_sdk.ArrowStream.Valid.{IsValid, apply-IsValid, apply_accepts, apply_rejects}
use zerobus_sdk.ArrowStream.Rows.{unacked_rows}
use zerobus_sdk.ArrowStream.Steps.{Stream}
use zerobus_sdk.ArrowStream.Owed.{owed, apply-owed}
use zerobus_sdk.Errors.{Tonic, ZerobusError}

-- The records that a response of a drain counts, and the most that one of several counts.
abbrev pub noted : Option ℕ → ℕ
noted none = 0
noted (some n) = n

abbrev pub drain_reports : {Status : Type 0} → List (DrainEvent Status) → ℕ
drain_reports [] = 0
drain_reports (deadline ∷ events) = drain_reports events
drain_reports (request_eof ∷ events) = drain_reports events
drain_reports (metadata ack ∷ events) = max (noted ack) (drain_reports events)
drain_reports (response_error f ∷ events) = drain_reports events
drain_reports (response_end ∷ events) = drain_reports events

length-take_le {ℓ} : {A : Type ℓ} (n : ℕ) (xs : List A) → length (take n xs) ≤ n
length-take_le zero xs = omega arith
length-take_le (suc n) [] = omega arith
length-take_le (suc n) (x ∷ xs) = omega (arith, length-take_le n xs)

module _ (tonic : Tonic) (arrow : Arrow) where
  -- From `s` to `t`, where no response counts more than `m` records: the stream is still valid, and owes
  -- the rows that it owed but for some at the front, no more than the watermark has advanced.
  abbrev pub Keeps : ℕ → ℕ → Stream tonic arrow → Stream tonic arrow → Type 0
  Keeps capacity m s t =
      IsValid arrow capacity t
      × (t.last_acked_records ≤ max s.last_acked_records m)
      × ((gone : List arrow.Row) × (owed tonic arrow s ≡ gone ++ owed tonic arrow t)
          × (length gone + s.last_acked_records ≤ t.last_acked_records))

  pub Keeps-refl :
      (capacity m : ℕ) (s : Stream tonic arrow) → IsValid arrow capacity s → Keeps capacity m s s
  Keeps-refl capacity m s v = (v, omega arith, ([], refl, omega arith))

  pub Keeps-trans :
      (capacity m : ℕ) (s t u : Stream tonic arrow)
      → Keeps capacity m s t
      → Keeps capacity m t u
      → Keeps capacity m s u
  Keeps-trans capacity m s t u (_, b, (xs, p, l)) (v, c, (ys, q, k)) = (
    v,
    omega arith,
    (
      xs ++ ys,
      p ∙ ap (◌++◌ xs) q ∙ sym (append_assoc xs ys (owed tonic arrow u)),
      omega (arith, length-append xs ys),
    ),
  )

  apply_advances :
      (n : ℕ) (s : Stream tonic arrow)
      → let t = (apply n s).1 in
        (s.last_acked_records ≤ t.last_acked_records)
        × (t.last_acked_records ≤ max s.last_acked_records n)
  unfolding acknowledge
  apply_advances n s = elim (le_or_lt n s.submitted_records) [
    | inl below ↦ rw (apply_accepts tonic arrow n s below) (omega arith, omega arith)
    | inr above ↦ rw (apply_rejects tonic arrow n s above) (omega arith, omega arith)
  ]

  pub apply-Keeps :
      (capacity m n : ℕ) (s : Stream tonic arrow)
      → IsValid arrow capacity s
      → n ≤ m
      → Keeps capacity m s (apply n s).1
  apply-Keeps capacity m n s v h =
      let t = (apply n s).1 in
      let (lo, hi) = apply_advances n s in
      let fits =
        length-take_le (t.last_acked_records - s.last_acked_records)
          (unacked_rows arrow s.last_acked_records s.pending_batches) in
      (
        apply-IsValid tonic arrow capacity n s v,
        omega arith,
        (_, apply-owed tonic arrow capacity n s v, omega (arith, fits)),
      )

  drain_metadata-Keeps :
      (capacity m : ℕ) (ack : Option ℕ) (e : Option (ZerobusError tonic.Status))
      (s : Stream tonic arrow)
      → IsValid arrow capacity s
      → noted ack ≤ m
      → Keeps capacity m s (drain_metadata tonic ack e s).1
  unfolding drain_metadata
  drain_metadata-Keeps capacity m none e s v h = Keeps-refl capacity m s v
  drain_metadata-Keeps capacity m (some n) e s v h = elim (Bool-cases (ltb 0 n)) [
    | inl p ↦ rw p (apply-Keeps capacity m n s v h)
    | inr p ↦ rw p (Keeps-refl capacity m s v)
  ]

  drain_loop-Keeps :
      (capacity m : ℕ) (events : List (DrainEvent tonic.Status)) (q r : Bool)
      (e : Option (ZerobusError tonic.Status)) (s : Stream tonic arrow)
      → IsValid arrow capacity s
      → drain_reports events ≤ m
      → Keeps capacity m s (drain_loop tonic events q r e s).1
  unfolding drain_loop
  drain_loop-Keeps capacity m [] q r e s v h = Keeps-refl capacity m s v
  drain_loop-Keeps capacity m (event ∷ events) true true e s v h = Keeps-refl capacity m s v
  drain_loop-Keeps capacity m (deadline ∷ events) true false e s v h = Keeps-refl capacity m s v
  drain_loop-Keeps capacity m (deadline ∷ events) false r e s v h = Keeps-refl capacity m s v
  drain_loop-Keeps capacity m (request_eof ∷ events) true false e s v h =
      drain_loop-Keeps capacity m events true false e s v (omega arith)
  drain_loop-Keeps capacity m (request_eof ∷ events) false r e s v h =
      drain_loop-Keeps capacity m events true r e s v (omega arith)
  drain_loop-Keeps capacity m (metadata a ∷ events) true false e s v h =
      let (e', t) = drain_metadata tonic a e s in
      let k = drain_metadata-Keeps capacity m a e s v (omega arith) in
      Keeps-trans capacity m s t (drain_loop tonic events true false e' t).1 k
        (drain_loop-Keeps capacity m events true false e' t k.0 (omega arith))
  drain_loop-Keeps capacity m (metadata a ∷ events) false false e s v h =
      let (e', t) = drain_metadata tonic a e s in
      let k = drain_metadata-Keeps capacity m a e s v (omega arith) in
      Keeps-trans capacity m s t (drain_loop tonic events false false e' t).1 k
        (drain_loop-Keeps capacity m events false false e' t k.0 (omega arith))
  drain_loop-Keeps capacity m (metadata a ∷ events) false true e s v h =
      drain_loop-Keeps capacity m events false true e s v (omega arith)
  drain_loop-Keeps capacity m (response_error f ∷ events) true false e s v h =
      drain_loop-Keeps capacity m events true true _ s v (omega arith)
  drain_loop-Keeps capacity m (response_error f ∷ events) false false e s v h =
      drain_loop-Keeps capacity m events false true _ s v (omega arith)
  drain_loop-Keeps capacity m (response_error f ∷ events) false true e s v h =
      drain_loop-Keeps capacity m events false true e s v (omega arith)
  drain_loop-Keeps capacity m (response_end ∷ events) true false e s v h =
      drain_loop-Keeps capacity m events true true e s v (omega arith)
  drain_loop-Keeps capacity m (response_end ∷ events) false r e s v h =
      drain_loop-Keeps capacity m events false true e s v (omega arith)

  pub close_request_and_drain_response-Keeps :
      (capacity m : ℕ) (events : List (DrainEvent tonic.Status)) (finished : Bool)
      (e : Option (ZerobusError tonic.Status)) (s : Stream tonic arrow)
      → IsValid arrow capacity s
      → drain_reports events ≤ m
      → Keeps capacity m s (close_request_and_drain_response tonic events finished e s).1
  unfolding close_request_and_drain_response pause_and_detach_sender
  close_request_and_drain_response-Keeps capacity m events finished e s
        (v, p, sender, opened, closed) h =
      drain_loop-Keeps capacity m events false finished e _
        (v, p, (λ a b. let bad : true ≡ false = a in cc), opened, closed) h
