-- ===== src/GrpcStream/History.antt =====
-- The records of a stream over its whole history, through any number of connections.
use Prim.Native.String.{String}
use zerobus_sdk.Common.{
  ℕ, zero, suc, ◌+◌, ◌≤◌, ◌^◌, ◌≡◌, refl, sym, ap, ◌∙◌, arith, Bool, true, false, Option, none,
  some, List, [], ◌∷◌, ◌++◌, Option-cases, inl, inr, subst,
}
use mathlib.Core.List.{append_assoc, append-nil}
use zerobus_sdk.Common.Int.{ℤ, pos}
use zerobus_sdk.Errors.{Tonic, ZerobusError}
use zerobus_sdk.LandingZone.{LandingZone, observe, new as new_zone}
use zerobus_sdk.LandingZone.History.{contents}
use zerobus_sdk.OffsetGenerator.{default}
use zerobus_sdk.OffsetGenerator.Sequence.{before, range_from}
use zerobus_sdk.GrpcStream.State.{StreamState, Connection, ingest_locked, send_next}
use zerobus_sdk.GrpcStream.Receiver.{ack_one}
use zerobus_sdk.GrpcStream.Supervisor.{connected, fail_all_pending_records}
use zerobus_sdk.GrpcStream.Outcomes.{
  told, pending, Moves, ack_one-Moves, ingest_locked_lem, fail_all_lem, connected-Moves,
}

-- A stream with a callback handler, before any record is taken in.
unfoldable pub new_stream {ℓ} : (E : Type 0) (P : Type ℓ) → ℕ → StreamState E P
unfolding default new_zone
new_stream E P max_inflight_requests = record {
  landing_zone = new_zone max_inflight_requests;
  logical_offset_id_generator = default;
  oneshot_map = [];
  answers = [];
  has_callback = true;
  callbacks = [];
  last_received_offset_id = none;
  failed_records = [];
  server_error = none;
  is_closed = false;
}

abbrev pub StreamOf {ℓ} : Tonic → Type ℓ → Type ℓ
StreamOf tonic P = StreamState (ZerobusError tonic.Status) P

-- The count of the records taken in, after a step that takes one in or does not.
abbrev pub counted : Bool → ℕ → ℕ
counted true n = suc n
counted false n = n

-- One step of any task, and whether it takes a record in. `reports` is any change of
-- the fields that waiters read.
pub data StreamStep {ℓ} (tonic : Tonic) (P : Type ℓ) (s : StreamOf tonic P)
    : Bool → StreamOf tonic P → Type ℓ where
  ingests :
      (p : P) (o : ℤ) (t : StreamOf tonic P)
      → ingest_locked p s ≡ some (o, t)
      → StreamStep tonic P s true t
  sends :
      (waiting : Bool) (c c' : Connection) (sent : ℤ × P) (t : StreamOf tonic P)
      → send_next tonic waiting c s ≡ some (sent, c', t)
      → StreamStep tonic P s false t
  acks : (o : ℤ) (t : StreamOf tonic P) → ack_one s ≡ some (o, t) → StreamStep tonic P s false t
  connects : (initial : Bool) → StreamStep tonic P s false (connected initial s).1
  fails :
      (to_string : ZerobusError tonic.Status → String) (e : ZerobusError tonic.Status)
      → StreamStep tonic P s false (fail_all_pending_records to_string e s)
  reports :
      (e : Option (ZerobusError tonic.Status)) (closed : Bool) (offset : Option ℤ)
      → StreamStep tonic P s false
          (record s { server_error = e; is_closed = closed; last_received_offset_id = offset })

-- The states after `n` records were taken in. `get_unacked_batches` takes out records without a
-- callback, and is no step here.
pub data StreamReach {ℓ} (tonic : Tonic) (P : Type ℓ) (capacity : ℕ)
    : ℕ → StreamOf tonic P → Type ℓ where
  opened : StreamReach tonic P capacity 0 (new_stream (ZerobusError tonic.Status) P capacity)
  then_step :
      {n : ℕ} {k : Bool} {s t : StreamOf tonic P}
      → StreamReach tonic P capacity n s
      → StreamStep tonic P s k t
      → StreamReach tonic P capacity (counted k n) t

range_from-suc : (v n : ℕ) → range_from v (suc n) ≡ range_from v n ++ pos (v + n) ∷ []
range_from-suc v zero = ground arith
range_from-suc v (suc n) =
    let same : suc v + n ≡ v + suc n = omega arith in
    ap (◌∷◌ (pos v)) (
      subst (λ (m : ℕ). range_from (suc v) (suc n) ≡ range_from (suc v) n ++ pos m ∷ []) same
        (range_from-suc (suc v) n))

observe-contents {ℓ} :
    {T : Type ℓ} (z w : LandingZone T) (x : T) → observe z ≡ some (x, w) → contents w ≡ contents z
unfolding observe
observe-contents z w x e = ground (arith, append_assoc z.observed_items (x ∷ []) w.queue)

counted_le : (k : Bool) (n : ℕ) {b : ℕ} → counted k n ≤ b → n ≤ b
counted_le true n h = omega arith
counted_le false n h = h

module _ {ℓ} (tonic : Tonic) (P : Type ℓ) where
  sends-Moves :
      (waiting : Bool) (c c' : Connection) (sent : ℤ × P) (s t : StreamOf tonic P)
      → send_next tonic waiting c s ≡ some (sent, c', t)
      → Moves s t
  unfolding send_next
  sends-Moves waiting c c' sent s t e = elim (Option-cases (observe s.landing_zone)) [
    | inl waits ↦ ground arith
    | inr ((x, w), seen) ↦ ground (arith, observe-contents s.landing_zone w x seen)
  ]

  abbrev Told : ℕ → StreamOf tonic P → Type 0
  Told n s =
      (told s ++ pending s ≡ range_from 0 n)
      × (s.logical_offset_id_generator.last_offset_id ≡ before n)
      × (s.has_callback ≡ true)

  Moves-Told : (n : ℕ) (s t : StreamOf tonic P) → Moves s t → Told n s → Told n t
  Moves-Told n s t (a, b, c) (told', gen, has) =
      (a ∙ told', ap (λ g. g.last_offset_id) b ∙ gen, c ∙ has)

  ingests-Told :
      (n : ℕ) (s t : StreamOf tonic P) (p : P) (o : ℤ)
      → n + 1 ≤ 2 ^ 63
      → Told n s
      → ingest_locked p s ≡ some (o, t)
      → Told (suc n) t
  ingests-Told n s t p o h (told', gen, has) e =
      let (g, c, same, more) = ingest_locked_lem p s t o n h gen e in
      let longer : told t ++ pending t ≡ range_from 0 n ++ pos n ∷ [] =
        rw (same, more)
          (sym (append_assoc (told s) (pending s) (pos n ∷ []))
            ∙ ap (λ (l : List ℤ). l ++ pos n ∷ []) told') in
      let same_offset : 0 + n ≡ n = omega arith in
      (longer ∙ sym (rw same_offset at (range_from-suc 0 n)), g, c ∙ has)

  step-Told :
      (n : ℕ) (k : Bool) (s t : StreamOf tonic P)
      → counted k n ≤ 2 ^ 63
      → Told n s
      → StreamStep tonic P s k t
      → Told (counted k n) t
  step-Told n k s t h i (ingests p o t' e) = ingests-Told n s t' p o (omega arith) i e
  step-Told n k s t h i (sends waiting c c' sent t' e) =
      Moves-Told n s t' (sends-Moves waiting c c' sent s t' e) i
  step-Told n k s t h i (acks o t' e) = Moves-Told n s t' (ack_one-Moves s t' o (i.2) e) i
  step-Told n k s t h i (connects initial) =
      Moves-Told n s (connected initial s).1 (connected-Moves initial s) i
  step-Told n k s t h (told', gen, has) (fails to_string e) =
      let (a, b, g, c) = fail_all_lem to_string e s has in
      (rw (a, b) (append-nil (told s ++ pending s) ∙ told'), rw g gen, c)
  step-Told n k s t h i (reports e closed offset) = i

  Reach-Told :
      (capacity n : ℕ) (s : StreamOf tonic P)
      → n ≤ 2 ^ 63
      → StreamReach tonic P capacity n s
      → Told n s
  unfolding new_stream default new_zone
  Reach-Told capacity n s h opened = (refl, refl, refl)
  Reach-Told capacity n s h (then_step {n = m} {k = k} {s = s'} {t = t} r st) =
      step-Told m k s' t h (Reach-Told capacity m s' (counted_le k m h) r) st

  -- With a callback handler, and as long as at most 2^63 records were taken in, the callbacks
  -- so far and the records in the zone are all the offsets from 0 on, in order: each record that
  -- was taken in has had exactly one callback, an acknowledgement or an error, or is in the zone
  -- and has had none, through any number of connections.
  pub one_callback_each :
      (capacity n : ℕ) (s : StreamOf tonic P)
      → n ≤ 2 ^ 63
      → StreamReach tonic P capacity n s
      → told s ++ pending s ≡ range_from 0 n
  one_callback_each capacity n s h r = (Reach-Told capacity n s h r).0
