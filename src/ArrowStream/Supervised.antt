-- ===== src/ArrowStream/Supervised.antt =====
-- rust/sdk/src/stream/arrow/supervisor.rs: what `Supervisor::run` keeps, from one connection to the
-- next.
use zerobus_sdk.Common.{
  ℕ, ◌+◌, ◌≤◌, max, arith, length, length-append, ◌≡◌, ◌⊎◌, inl, inr, refl, ap, ◌∙◌, sym, subst,
  Bool, true, false, ◌&&◌, ◌||◌, Option, none, some, List, [], ◌∷◌, ◌++◌, if◌then◌else◌,
}
use mathlib.Core.List.{append_assoc}
use zerobus_sdk.ArrowStream.{Arrow, ZerobusResult, ok, err}
use zerobus_sdk.ArrowStream.Process.{not_rotating}
use zerobus_sdk.ArrowStream.Supervise.{
  ArrowStreamConfigurationOptions, Round, Supervisor, Verdict, supervises, exits, handle, processed,
  judge, supervise, run,
}
use zerobus_sdk.ArrowStream.Valid.{IsValid}
use zerobus_sdk.ArrowStream.Steps.{Stream}
use zerobus_sdk.ArrowStream.Owed.{owed}
use zerobus_sdk.ArrowStream.Kept.{Keeps, Keeps-refl, drain_reports}
use zerobus_sdk.ArrowStream.Losses.{Ends, process-Ends, reports}
use zerobus_sdk.Errors.{Tonic, ZerobusError, is_retryable}
use zerobus_sdk.ArrowStream.Reconnects.{Same, SameIn, terminate-Same, if_SameIn, recover-SameIn}

-- The most records that a response of a connection counts, and the sum over the connections.
abbrev pub round_reports : {Status : Type 0} → Round Status → ℕ
round_reports r = max (reports r.rounds) (drain_reports r.drained)

abbrev pub total_reports : {Status : Type 0} → List (Round Status) → ℕ
total_reports [] = 0
total_reports (r ∷ rs) = round_reports r + total_reports rs

module _ (tonic : Tonic) (arrow : Arrow) where
  if_closed-SameIn :
      (capacity : ℕ) (s : Stream tonic arrow) (b : Bool)
      (result : ZerobusResult (ZerobusError tonic.Status) Unit) (o : Verdict tonic arrow)
      → s.is_closed ≡ b
      → IsValid arrow capacity s
      → SameIn tonic arrow capacity s o
      → SameIn tonic arrow capacity s (if b then exits result s else o)
  if_closed-SameIn capacity s true result o e i h = ((i, refl), e)
  if_closed-SameIn capacity s false result o e i h = h

  handle-SameIn :
      (capacity : ℕ) (o : ArrowStreamConfigurationOptions) (r : Round tonic.Status)
      (result : ZerobusResult (ZerobusError tonic.Status) Unit)
      (v : Supervisor (ZerobusError tonic.Status)) (s : Stream tonic arrow)
      → IsValid arrow capacity s
      → (s.is_closed ≡ true) ⊎ ((e : ZerobusError tonic.Status) × (result ≡ err e))
      → SameIn tonic arrow capacity s (handle tonic arrow o r result v s)
  unfolding handle
  handle-SameIn capacity o r (ok _) v s i (inl closed) = ((i, refl), closed)
  handle-SameIn capacity o r (ok _) v s i (inr (e, bad)) = cc
  handle-SameIn capacity o r (err e) v s i h =
      if_closed-SameIn capacity s s.is_closed (err e) _ refl i (
        if_SameIn tonic arrow capacity s
          ((is_retryable tonic e || v.reconnect_auth_retry) && o.recovery) _ _
          (recover-SameIn tonic arrow capacity o r e v s i)
          (terminate-Same tonic arrow capacity e s s (i, refl)))

  -- The stream is valid, and owes the same rows but for at most `m` of the first.
  abbrev pub Drops : ℕ → ℕ → Stream tonic arrow → Stream tonic arrow → Type 0
  Drops capacity m s t =
      IsValid arrow capacity t
      × ((gone : List arrow.Row) × (owed tonic arrow s ≡ gone ++ owed tonic arrow t)
          × (length gone ≤ m))

  Drops-refl :
      (capacity m : ℕ) (s : Stream tonic arrow) → IsValid arrow capacity s → Drops capacity m s s
  Drops-refl capacity m s i = (i, ([], refl, omega arith))

  Drops-trans :
      (capacity m n : ℕ) (s t u : Stream tonic arrow)
      → Drops capacity m s t
      → Drops capacity n t u
      → Drops capacity (m + n) s u
  Drops-trans capacity m n s t u (_, (xs, p, l)) (v, (ys, q, k)) = (
    v,
    (
      xs ++ ys,
      p ∙ ap (◌++◌ xs) q ∙ sym (append_assoc xs ys (owed tonic arrow u)),
      omega (arith, length-append xs ys),
    ),
  )

  abbrev DropsIn : ℕ → ℕ → Stream tonic arrow → Option (Verdict tonic arrow) → Type 0
  DropsIn capacity m s none = Unit
  DropsIn capacity m s (some (supervises v t)) = Drops capacity m s t
  DropsIn capacity m s (some (exits result t)) = Drops capacity m s t × (t.is_closed ≡ true)

  Keeps-Same :
      (capacity m : ℕ) (s t u : Stream tonic arrow)
      → Keeps tonic arrow capacity m s t
      → Same tonic arrow capacity t u
      → Drops capacity m s u
  Keeps-Same capacity m s t u (_, b, (gone, p, l)) (i, h) =
      (i, (gone, p ∙ ap (◌++◌ gone) (sym h), omega arith))

  SameIn-DropsIn :
      (capacity m : ℕ) (s t : Stream tonic arrow) (o : Verdict tonic arrow)
      → Keeps tonic arrow capacity m s t
      → SameIn tonic arrow capacity t o
      → DropsIn capacity m s (some o)
  SameIn-DropsIn capacity m s t (supervises v u) k h = Keeps-Same capacity m s t u k h
  SameIn-DropsIn capacity m s t (exits result u) k (h, closed) =
      (Keeps-Same capacity m s t u k h, closed)

  processed-Ends :
      (capacity : ℕ) (o : ArrowStreamConfigurationOptions) (r : Round tonic.Status)
      (e : Option (ZerobusError tonic.Status)) (s : Stream tonic arrow)
      → IsValid arrow capacity s
      → Ends tonic arrow capacity (round_reports r) s (processed tonic arrow o r e s)
  unfolding processed
  processed-Ends capacity o r (some e) s i =
      (Keeps-refl tonic arrow capacity (round_reports r) s i, inr (e, refl))
  processed-Ends capacity o r none s i =
      process-Ends tonic arrow capacity (round_reports r) o.ack r.drained r.rounds not_rotating s i
        (omega arith) (omega arith)

  judge-DropsIn :
      (capacity : ℕ) (o : ArrowStreamConfigurationOptions) (r : Round tonic.Status)
      (v : Supervisor (ZerobusError tonic.Status)) (s : Stream tonic arrow)
      (p : Option (ZerobusResult (ZerobusError tonic.Status) Unit × Stream tonic arrow))
      → Ends tonic arrow capacity (round_reports r) s p
      → DropsIn capacity (round_reports r) s (judge tonic arrow o r v p)
  unfolding judge
  judge-DropsIn capacity o r v s none h = tt
  judge-DropsIn capacity o r v s (some (result, t)) (k, h) =
      SameIn-DropsIn capacity (round_reports r) s t _ k
        (handle-SameIn capacity o r result _ t k.0 h)

  if_closed-DropsIn :
      (capacity m : ℕ) (s : Stream tonic arrow) (b : Bool) (o : Option (Verdict tonic arrow))
      → s.is_closed ≡ b
      → IsValid arrow capacity s
      → DropsIn capacity m s o
      → DropsIn capacity m s (if b then some (exits (ok tt) s) else o)
  if_closed-DropsIn capacity m s true o e i h = (Drops-refl capacity m s i, e)
  if_closed-DropsIn capacity m s false o e i h = h

  supervise-DropsIn :
      (capacity : ℕ) (o : ArrowStreamConfigurationOptions) (r : Round tonic.Status)
      (v : Supervisor (ZerobusError tonic.Status)) (s : Stream tonic arrow)
      → IsValid arrow capacity s
      → DropsIn capacity (round_reports r) s (supervise tonic arrow o r v s)
  unfolding supervise
  supervise-DropsIn capacity o r v s i =
      if_closed-DropsIn capacity (round_reports r) s s.is_closed _ refl i (
        judge-DropsIn capacity o r v s (processed tonic arrow o r v.pending_error s)
          (processed-Ends capacity o r v.pending_error s i))

  abbrev pub Closes :
      ℕ
      → ℕ
      → Stream tonic arrow
      → Option (ZerobusResult (ZerobusError tonic.Status) Unit × Stream tonic arrow)
      → Type 0
  Closes capacity m s none = Unit
  Closes capacity m s (some (result, t)) = Drops capacity m s t × (t.is_closed ≡ true)

  Closes-trans :
      (capacity m n : ℕ) (s t : Stream tonic arrow)
      (o : Option (ZerobusResult (ZerobusError tonic.Status) Unit × Stream tonic arrow))
      → Drops capacity m s t
      → Closes capacity n t o
      → Closes capacity (m + n) s o
  Closes-trans capacity m n s t none k h = tt
  Closes-trans capacity m n s t (some (result, u)) k (l, h) =
      (Drops-trans capacity m n s t u k l, h)

  Closes-le :
      (capacity m n : ℕ) (s : Stream tonic arrow)
      (o : Option (ZerobusResult (ZerobusError tonic.Status) Unit × Stream tonic arrow))
      → m ≤ n
      → Closes capacity m s o
      → Closes capacity n s o
  Closes-le capacity m n s none le h = tt
  Closes-le capacity m n s (some (result, t)) le ((v, (gone, p, l)), h) =
      ((v, (gone, p, omega arith)), h)

  pub supervise-cases :
      (o : Option (Verdict tonic arrow))
      → (o ≡ none)
        ⊎ (((v : Supervisor (ZerobusError tonic.Status)) × (t : Stream tonic arrow) × (o
                ≡ some (supervises v t)))
            ⊎ ((result : ZerobusResult (ZerobusError tonic.Status) Unit) × (t : Stream tonic arrow)
                × (o ≡ some (exits result t))))
  supervise-cases none = inl refl
  supervise-cases (some (supervises v t)) = inr (inl (v, t, refl))
  supervise-cases (some (exits result t)) = inr (inr (result, t, refl))

  -- On a valid stream, through any number of connections, rotations, replays, deadlines and failed
  -- attempts: when the supervisor returns, the stream is valid and closed, and owes the rows that it
  -- owed less some of the first, which are no more than the sum, over the connections, of the highest
  -- count that a response of the service acknowledged there.
  pub run-Closes :
      (capacity : ℕ) (o : ArrowStreamConfigurationOptions) (rs : List (Round tonic.Status))
      (v : Supervisor (ZerobusError tonic.Status)) (s : Stream tonic arrow)
      → IsValid arrow capacity s
      → Closes capacity (total_reports rs) s (run tonic arrow o rs v s)
  unfolding run
  run-Closes capacity o [] v s i = tt
  run-Closes capacity o (r ∷ rs) v s i =
      let m = round_reports r in
      let n = total_reports rs in
      let h = supervise-DropsIn capacity o r v s i in
      elim (supervise-cases (supervise tonic arrow o r v s)) [
        | inl e ↦ rw (e, run) tt
        | inr (inl (w, t, e)) ↦
            let k = subst (λ x. DropsIn capacity m s x) e h in
            rw (e, run)
              (Closes-trans capacity m n s t (run tonic arrow o rs w t) k
                (run-Closes capacity o rs w t k.0))
        | inr (inr (result, t, e)) ↦
            rw (e, run)
              (Closes-le capacity m (m + n) s (some (result, t)) (omega arith)
                (subst (λ x. DropsIn capacity m s x) e h))
      ]
