-- ===== src/TokenCache/Fresh.antt =====
-- What the cache promises on the tokens that it returns.
use Prim.Native.String.{String}
use zerobus_sdk.Common.{
  ℕ, ◌+◌, ◌≤◌, ◌<◌, ◌≡◌, List, [], ◌∷◌, ◌++◌, refl, arith, Bool, true, false, Option, none, some,
}
use zerobus_sdk.Common.{
  inl, inr, ◌⊎◌, length, length-append, get_elem?, set, get_elem?-set_self, ◌∙◌,
}
use zerobus_sdk.Common.Assoc.{KeyEq, lookup, lookup-insert}
use zerobus_sdk.TokenCache.{
  Slot, FetchedToken, find_slot, prune_expired, get_or_fetch, with_slot, MintReason, cold_miss,
  cached_at, TokenCache, CachedToken, Decision, serves, mints, decide, needs_refresh, settle,
  Fetched, ok, err, token, is_expired,
}

-- A token that is served without a fetch is the one in the slot, and it does not expire before the
-- refresh buffer has passed.
pub decide-serves :
    {K : Type 0} (max_instant now : ℕ) (c : TokenCache K) (guard : Option CachedToken) (v : String)
    → decide max_instant c now guard ≡ serves v
    → (t : CachedToken) × (guard ≡ some t) × (v ≡ t.value) × (now + c.refresh_buffer < t.expires_at)
unfolding decide needs_refresh
decide-serves max_instant now c none v h = cc
decide-serves max_instant now c (some t) v h = (t, refl, ground arith, ground arith)

-- A token that a call returns after its fetch is the one fetched, or, after an error that is
-- retryable, the one in the slot, which has not expired.
settle-token :
    {E : Type 0} (is_retryable : E → Bool) (max_instant now : ℕ) (f : Fetched E)
    (guard : Option CachedToken) (v : String)
    → (settle is_retryable max_instant now f guard).0 ≡ token v
    → ((x : FetchedToken) × (f ≡ ok x) × (v ≡ x.token))
      ⊎ ((p : E) × (t : CachedToken) × (f ≡ err p)
          × (is_retryable p ≡ true)
          × (guard ≡ some t)
          × (v ≡ t.value)
          × (now < t.expires_at))
unfolding settle is_expired
settle-token is_retryable max_instant now (ok x) guard v h = inl (x, refl, ground arith)
settle-token is_retryable max_instant now (err p) none v h = cc
settle-token is_retryable max_instant now (err p) (some t) v h =
    inr (p, t, refl, ground arith, refl, ground arith, ground arith)

decision_cases :
    (d : Decision) → ((v : String) × (d ≡ serves v)) ⊎ ((r : MintReason) × (d ≡ mints r))
decision_cases (serves v) = inl (v, refl)
decision_cases (mints r) = inr (r, refl)

-- A token that a call returns was fetched by this call, or was in the slot when the call took its
-- lock. In that case it does not expire before the refresh buffer has passed since then, or the fetch
-- failed with an error that is retryable, and it expires after the instant at which the fetch returned.
pub with_slot-token :
    {K : Type 0} {E : Type 0} (is_retryable : E → Bool) (max_instant now later i : ℕ)
    (fetch : MintReason → Fetched E) (c : TokenCache K) (v : String)
    → (with_slot is_retryable max_instant now later fetch i c).0 ≡ token v
    → ((r : MintReason) × (x : FetchedToken) × (fetch r ≡ ok x) × (v ≡ x.token))
      ⊎ ((t : CachedToken) × (cached_at c.slots i ≡ some t)
          × (v ≡ t.value)
          × ((now + c.refresh_buffer < t.expires_at)
              ⊎ ((r : MintReason) × (p : E) × (fetch r ≡ err p)
                  × (is_retryable p ≡ true)
                  × (later < t.expires_at))))
unfolding with_slot
with_slot-token is_retryable max_instant now later i fetch c v h =
    elim (decision_cases (decide max_instant c now (cached_at c.slots i))) [
      | inl (w, s) ↦
          let (t, g, same, fresh) = decide-serves max_instant now c (cached_at c.slots i) w s in
          inr (t, g, ground (arith, s), inl fresh)
      | inr (r, s) ↦
          elim (settle-token is_retryable max_instant later (fetch r) (cached_at c.slots i) v
            (ground (arith, s))) [
              | inl (x, f, same) ↦ inl (r, x, f, same)
              | inr (p, t, f, q, g, same, fresh) ↦ inr (t, g, same, inr (r, p, f, q, fresh))
            ]
    ]

abbrev empty_slot : Slot
empty_slot = record { cached = none; locked = false }

abbrev full_slot : CachedToken → Slot
full_slot t = record { cached = some t; locked = false }

get_elem?-end {ℓ} :
    {A : Type ℓ} (xs : List A) (x : A) → get_elem? (xs ++ x ∷ []) (length xs) ≡ some x
get_elem?-end [] x = refl
get_elem?-end (y ∷ xs) x = get_elem?-end xs x

cached_at-end : (slots : List Slot) → cached_at (slots ++ empty_slot ∷ []) (length slots) ≡ none
unfolding cached_at
cached_at-end slots = rw (get_elem?-end slots empty_slot, cached_at) refl

cached_at-set :
    (slots : List Slot) (i : ℕ) (t : CachedToken)
    → i < length slots
    → cached_at (set slots i (full_slot t)) i ≡ some t
unfolding cached_at
cached_at-set slots i t h = rw (get_elem?-set_self slots i (full_slot t) h, cached_at) refl

-- A fetch that succeeds with a lifetime that the clock can take.
settle-caches :
    {E : Type 0} (is_retryable : E → Bool) (max_instant later ttl : ℕ) (x : FetchedToken)
    → x.expires_in ≡ some ttl
    → later + ttl ≤ max_instant
    → settle is_retryable max_instant later (ok x) none
      ≡ (token x.token, some (record { value = x.token; expires_at = later + ttl }))
unfolding settle
settle-caches is_retryable max_instant later ttl x l fits = ground arith

-- A call on an empty slot with such a fetch.
with_slot-mints :
    {K : Type 0} {E : Type 0} (is_retryable : E → Bool) (max_instant now later i ttl : ℕ)
    (fetch : MintReason → Fetched E) (x : FetchedToken) (c : TokenCache K)
    → cached_at c.slots i ≡ none
    → fetch cold_miss ≡ ok x
    → x.expires_in ≡ some ttl
    → later + ttl ≤ max_instant
    → with_slot is_retryable max_instant now later fetch i c ≡ (
      token x.token,
      record c {
        slots = set c.slots i (full_slot (record { value = x.token; expires_at = later + ttl }));
      },
    )
unfolding decide with_slot
with_slot-mints is_retryable max_instant now later i ttl fetch x c empty_ f l fits =
    rw (empty_, with_slot, f, empty_, settle-caches is_retryable max_instant later ttl x l fits)
      refl

module _ {K : Type 0} (e : KeyEq K) where
  find_slot-some :
      (now i : ℕ) (key : K) (c : TokenCache K)
      → lookup e key c.entries ≡ some i
      → find_slot e now key c ≡ (i, c)
  unfolding find_slot
  find_slot-some now i key c h = rw (h, find_slot) refl

  -- A new slot is empty, and the key leads to it.
  find_slot-none :
      (now : ℕ) (key : K) (c : TokenCache K)
      → lookup e key c.entries ≡ none
      → let (i, found) = find_slot e now key c in
        (i ≡ length c.slots)
        × (found.slots ≡ c.slots ++ empty_slot ∷ [])
        × (lookup e key found.entries ≡ some (length c.slots))
        × (found.refresh_buffer ≡ c.refresh_buffer)
        × (found.enabled ≡ c.enabled)
  unfolding find_slot prune_expired
  find_slot-none now key c h =
      rw (h, find_slot)
        (
          refl,
          refl,
          ground (
            arith,
            lookup-insert e key key (length c.slots) (prune_expired now c).entries,
            e.beq_iff key key,
          ),
          refl,
          refl,
        )

  held-serves :
      {E : Type 0} (is_retryable : E → Bool) (max_instant now later i : ℕ)
      (fetch : MintReason → Fetched E) (key : K) (t : CachedToken) (c : TokenCache K)
      → c.enabled ≡ true
      → lookup e key c.entries ≡ some i
      → cached_at c.slots i ≡ some t
      → now + c.refresh_buffer < t.expires_at
      → t.expires_at ≤ max_instant
      → get_or_fetch is_retryable max_instant e key now later fetch c ≡ (token t.value, c)
  unfolding get_or_fetch with_slot decide needs_refresh
  held-serves is_retryable max_instant now later i fetch key t c on here_ at_ fresh fits =
      rw (find_slot-some now i key c here_) (ground arith)

  get_or_fetch_enabled :
      {E : Type 0} (is_retryable : E → Bool) (max_instant now later : ℕ)
      (fetch : MintReason → Fetched E) (key : K) (c : TokenCache K)
      → c.enabled ≡ true
      → get_or_fetch is_retryable max_instant e key now later fetch c
        ≡ with_slot is_retryable max_instant now later fetch
            (find_slot e now key c).0
            (find_slot e now key c).1
  unfolding get_or_fetch
  get_or_fetch_enabled is_retryable max_instant now later fetch key c on = ground arith

  -- An enabled cache without an entry for the key mints one token, and until the refresh buffer is
  -- reached the next call returns that token, whatever `fetch` would return then.
  pub minted_once :
      {E : Type 0} (is_retryable : E → Bool) (max_instant now later now' later' ttl : ℕ)
      (fetch fetch' : MintReason → Fetched E) (key : K) (x : FetchedToken) (c : TokenCache K)
      → c.enabled ≡ true
      → lookup e key c.entries ≡ none
      → fetch cold_miss ≡ ok x
      → x.expires_in ≡ some ttl
      → later + ttl ≤ max_instant
      → now' + c.refresh_buffer < later + ttl
      → let first = get_or_fetch is_retryable max_instant e key now later fetch c in
        (first.0 ≡ token x.token)
        × (get_or_fetch is_retryable max_instant e key now' later' fetch' first.1
            ≡ (token x.token, first.1))
  minted_once is_retryable max_instant now later now' later' ttl fetch fetch' key x c on miss f l
        fits fresh =
      let (ei, es, el, eb, eo) = find_slot-none now key c miss in
      let (i, found) = find_slot e now key c in
      let t : CachedToken = record { value = x.token; expires_at = later + ttl } in
      let filled : TokenCache K = record found { slots = set found.slots i (full_slot t) } in
      let empty_ : cached_at found.slots i ≡ none = rw (ei, es) (cached_at-end c.slots) in
      let inside : i < length found.slots =
        rw (ei, es) (omega (arith, length-append c.slots (empty_slot ∷ []))) in
      let minted =
        with_slot-mints is_retryable max_instant now later i ttl fetch x found empty_ f l fits in
      let first : get_or_fetch is_retryable max_instant e key now later fetch c
          ≡ (token x.token, filled) =
        get_or_fetch_enabled is_retryable max_instant now later fetch key c on ∙ minted in
      rw first (
        refl,
        held-serves is_retryable max_instant now' later' i fetch' key t filled (eo ∙ on) (rw ei el)
            (cached_at-set found.slots i t inside) (rw eb fresh) fits,
      )
