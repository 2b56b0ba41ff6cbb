-- ===== src/ArrowStream/GivesUp.antt =====
-- rust/sdk/src/stream/arrow/supervisor.rs: `Supervisor::run` gives up when no attempt to reconnect
-- succeeds.
use zerobus_sdk.Common.{
  ℕ, ◌+◌, ◌%◌, ◌^◌, ◌≤◌, ◌<◌, ◌≡◌, inl, inr, refl, subst, arith, Bool, true, false, ◌&&◌, ◌||◌,
  Option, none, some, List, [], ◌∷◌, if◌then◌else◌, leb, length,
}
use zerobus_sdk.ArrowStream.{Arrow, ZerobusResult, ok, err}
use zerobus_sdk.ArrowStream.Acks.{clear, pause_and_detach_sender}
use zerobus_sdk.ArrowStream.Recovery.{reconnect}
use zerobus_sdk.ArrowStream.Supervise.{
  ArrowStreamConfigurationOptions, Attempt, reconnected, not_connected, timed_out, Round,
  Supervisor, Verdict, supervises, exits, not_reconnected, after_reconnect, attempt_reconnect,
  with_deadline, recover, handle, processed, judge, supervise, run,
}
use zerobus_sdk.ArrowStream.Supervised.{supervise-cases}
use zerobus_sdk.ArrowStream.Steps.{Stream}
use zerobus_sdk.Errors.{Tonic, ZerobusError, is_retryable, is_auth_rejection}

module _ (tonic : Tonic) (arrow : Arrow) where
  -- The attempt gets no connection, takes too long, or connects and then fails: to replay the pending
  -- batches, or to put the new sender in place.
  abbrev pub Fails : Attempt (ZerobusError tonic.Status) → Stream tonic arrow → Type 0
  Fails (reconnected now open_for) s =
      (e : ZerobusError tonic.Status) × ((reconnect tonic arrow now open_for s).0 ≡ err e)
  Fails (not_connected e) s = Unit
  Fails (timed_out at) s = Unit

  -- The stream at an attempt: paused, without a sender and without the last error.
  abbrev pub recovering : Stream tonic arrow → Stream tonic arrow
  recovering s = record (clear (pause_and_detach_sender s)) { server_error = none }

  abbrev pub GoesOn :
      (Supervisor (ZerobusError tonic.Status) → Stream tonic arrow → Type 0)
      → Option (Verdict tonic arrow)
      → Type 0
  GoesOn P none = Unit
  GoesOn P (some (supervises w s)) = P w s
  GoesOn P (some (exits result s)) = Unit

  -- The attempts that the supervisor comes to all fail.
  abbrev pub AllFail :
      ArrowStreamConfigurationOptions
      → List (Round tonic.Status)
      → Supervisor (ZerobusError tonic.Status)
      → Stream tonic arrow
      → Type 0
  AllFail o [] v s = Unit
  AllFail o (r ∷ rs) v s =
      Fails r.attempt (recovering s)
      × GoesOn (λ w t. AllFail o rs w t) (supervise tonic arrow o r v s)

  -- A supervisor that goes on has an error, and has counted so many attempts.
  abbrev Held : ℕ → Verdict tonic arrow → Type 0
  Held k (supervises w s) =
      ((e : ZerobusError tonic.Status) × (w.pending_error ≡ some e)) × (w.recovery_attempts ≡ k)
  Held k (exits result s) = Unit

  if_Held :
      (k : ℕ) (b : Bool) (o o' : Verdict tonic arrow)
      → Held k o
      → Held k o'
      → Held k (if b then o else o')
  if_Held k true o o' h h' = h
  if_Held k false o o' h h' = h'

  not_reconnected-Held :
      (k : ℕ) (invalidated : Bool) (e : ZerobusError tonic.Status)
      (v : Supervisor (ZerobusError tonic.Status)) (s : Stream tonic arrow)
      → v.recovery_attempts ≡ k
      → Held k (not_reconnected tonic arrow invalidated e v s)
  unfolding not_reconnected
  not_reconnected-Held k invalidated e v s h =
      if_Held k (is_auth_rejection tonic e) _ _ (if_Held k invalidated _ _ ((e, refl), h) tt)
        ((e, refl), h)

  after_reconnect-Held :
      (k : ℕ) (invalidated : Bool) (result : ZerobusResult (ZerobusError tonic.Status) Unit)
      (v : Supervisor (ZerobusError tonic.Status)) (s : Stream tonic arrow)
      {e : ZerobusError tonic.Status}
      → result ≡ err e
      → v.recovery_attempts ≡ k
      → Held k (after_reconnect tonic arrow invalidated result v s)
  unfolding after_reconnect
  after_reconnect-Held k invalidated (ok _) v s f h = cc
  after_reconnect-Held k invalidated (err e) v s f h = not_reconnected-Held k invalidated e v s h

  attempt-Held :
      (k : ℕ) (o : ArrowStreamConfigurationOptions) (r : Round tonic.Status)
      (a : Attempt (ZerobusError tonic.Status)) (v : Supervisor (ZerobusError tonic.Status))
      (s : Stream tonic arrow)
      → Fails a s
      → v.recovery_attempts ≡ k
      → Held k (attempt_reconnect tonic arrow o r a v s)
  unfolding attempt_reconnect
  attempt-Held k o r (reconnected now open_for) v s (e, f) h =
      let (result, sent, t) = reconnect tonic arrow now open_for s in
      after_reconnect-Held k r.invalidated result v t f h
  attempt-Held k o r (not_connected e) v s f h = not_reconnected-Held k r.invalidated e v s h
  attempt-Held k o r (timed_out at) v s f h = ((_, refl), h)

  with_deadline-Held :
      (k : ℕ) (o : ArrowStreamConfigurationOptions) (r : Round tonic.Status)
      (d : ZerobusResult (ZerobusError tonic.Status) ℕ) (v : Supervisor (ZerobusError tonic.Status))
      (s : Stream tonic arrow)
      → Fails r.attempt s
      → v.recovery_attempts ≡ k
      → Held k (with_deadline tonic arrow o r d v s)
  unfolding with_deadline
  with_deadline-Held k o r (err e) v s f h = ((e, refl), h)
  with_deadline-Held k o r (ok d) v s f h = attempt-Held k o r r.attempt v s f h

  -- As `Held`, and one more attempt was still allowed.
  abbrev Counts : ℕ → ℕ → Verdict tonic arrow → Type 0
  Counts retries k (supervises w s) = Held (k + 1) (supervises w s) × (k < retries)
  Counts retries k (exits result s) = Unit

  counted :
      (retries k : ℕ) (o : Verdict tonic arrow)
      → Held ((k + 1) % 2 ^ 32) o
      → k < retries
      → retries < 2 ^ 32
      → Counts retries k o
  counted retries k (supervises w s) (e, h) l b =
      let small : (k + 1) % 2 ^ 32 ≡ k + 1 = omega arith in ((e, omega arith), l)
  counted retries k (exits result s) h l b = tt

  if_Counts :
      (retries k : ℕ) (b : Bool) (o o' : Verdict tonic arrow)
      → Counts retries k o
      → (b ≡ false → Counts retries k o')
      → Counts retries k (if b then o else o')
  if_Counts retries k true o o' h h' = h
  if_Counts retries k false o o' h h' = h' refl

  recover-Counts :
      (o : ArrowStreamConfigurationOptions) (r : Round tonic.Status) (e : ZerobusError tonic.Status)
      (v : Supervisor (ZerobusError tonic.Status)) (s : Stream tonic arrow)
      → Fails r.attempt (recovering s)
      → o.recovery_retries < 2 ^ 32
      → Counts o.recovery_retries v.recovery_attempts (recover tonic arrow o r e v s)
  unfolding recover clear pause_and_detach_sender
  recover-Counts o r e v s f b =
      if_Counts o.recovery_retries v.recovery_attempts (leb o.recovery_retries v.recovery_attempts)
        _ _ tt
        (λ less.
          counted o.recovery_retries v.recovery_attempts _
            (with_deadline-Held ((v.recovery_attempts + 1) % 2 ^ 32) o r _ _ _ f refl)
            (ground (arith, less)) b)

  handle-Counts :
      (o : ArrowStreamConfigurationOptions) (r : Round tonic.Status)
      (result : ZerobusResult (ZerobusError tonic.Status) Unit)
      (v : Supervisor (ZerobusError tonic.Status)) (s : Stream tonic arrow)
      → Fails r.attempt (recovering s)
      → o.recovery_retries < 2 ^ 32
      → Counts o.recovery_retries v.recovery_attempts (handle tonic arrow o r result v s)
  unfolding handle
  handle-Counts o r (ok _) v s f b = tt
  handle-Counts o r (err e) v s f b =
      if_Counts o.recovery_retries v.recovery_attempts s.is_closed _ _ tt (λ open_.
        if_Counts o.recovery_retries v.recovery_attempts
          ((is_retryable tonic e || v.reconnect_auth_retry) && o.recovery) _ _
          (recover-Counts o r e v s f b) (λ no. tt))

  -- With an error in hand a round comes to a verdict, which counts.
  abbrev Decides : ℕ → ℕ → Option (Verdict tonic arrow) → Type 0
  Decides retries k none = ⊥
  Decides retries k (some o) = Counts retries k o

  if_Decides :
      (retries k : ℕ) (b : Bool) (o o' : Option (Verdict tonic arrow))
      → Decides retries k o
      → Decides retries k o'
      → Decides retries k (if b then o else o')
  if_Decides retries k true o o' h h' = h
  if_Decides retries k false o o' h h' = h'

  judge-Decides :
      (o : ArrowStreamConfigurationOptions) (r : Round tonic.Status)
      (v : Supervisor (ZerobusError tonic.Status)) (p : Option (ZerobusError tonic.Status))
      (s : Stream tonic arrow) {e : ZerobusError tonic.Status}
      → p ≡ some e
      → Fails r.attempt (recovering s)
      → o.recovery_retries < 2 ^ 32
      → Decides o.recovery_retries v.recovery_attempts
          (judge tonic arrow o r v (processed tonic arrow o r p s))
  unfolding judge processed
  judge-Decides o r v none s h f b = cc
  judge-Decides o r v (some e') s h f b =
      handle-Counts o r (err e') (record v { pending_error = none }) s f b

  supervise-Decides :
      (o : ArrowStreamConfigurationOptions) (r : Round tonic.Status)
      (v : Supervisor (ZerobusError tonic.Status)) (s : Stream tonic arrow)
      {e : ZerobusError tonic.Status}
      → v.pending_error ≡ some e
      → Fails r.attempt (recovering s)
      → o.recovery_retries < 2 ^ 32
      → Decides o.recovery_retries v.recovery_attempts (supervise tonic arrow o r v s)
  unfolding supervise
  supervise-Decides o r v s h f b =
      if_Decides o.recovery_retries v.recovery_attempts s.is_closed _ _ tt
        (judge-Decides o r v v.pending_error s h f b)

  -- When an attempt to reconnect has failed, no more attempts are counted than the option
  -- recovery_retries (a u32) allows, and none of the next ones succeeds, whether it gets no connection,
  -- takes too long, or fails in the replay or after it, the supervisor returns after as many of them as
  -- the option leaves, and one more.
  pub gives_up :
      (o : ArrowStreamConfigurationOptions) (rs : List (Round tonic.Status))
      (v : Supervisor (ZerobusError tonic.Status)) (s : Stream tonic arrow)
      (e : ZerobusError tonic.Status)
      → v.pending_error ≡ some e
      → AllFail o rs v s
      → o.recovery_retries < 2 ^ 32
      → v.recovery_attempts ≤ o.recovery_retries
      → o.recovery_retries < v.recovery_attempts + length rs
      → (result : ZerobusResult (ZerobusError tonic.Status) Unit) × (t : Stream tonic arrow) × (run
            tonic arrow o rs v s
          ≡ some (result, t))
  unfolding run
  gives_up o [] v s e h f b l m = absurd (omega arith)
  gives_up o (r ∷ rs) v s e h (f, fs) b l m =
      let d = supervise-Decides o r v s h f b in
      elim (supervise-cases tonic arrow (supervise tonic arrow o r v s)) [
        | inl q ↦ absurd (subst (λ x. Decides o.recovery_retries v.recovery_attempts x) q d)
        | inr (inl (w, t, q)) ↦
            let (((e', g), k), less) =
              subst (λ x. Decides o.recovery_retries v.recovery_attempts x) q d in
            let next = subst (λ x. GoesOn (λ w' t'. AllFail o rs w' t') x) q fs in
            let (result, u, p) = gives_up o rs w t e' g next b (omega arith) (omega arith) in
            (result, u, rw (q, run) p)
        | inr (inr (result, t, q)) ↦ (result, t, rw (q, run) refl)
      ]
