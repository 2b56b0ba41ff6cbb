-- ===== src/TokenCache.antt =====
-- rust/sdk/src/token_cache.rs: the tokens of a table, served until they near their expiry. The
-- slots are a store, since a call keeps its slot while another may drop the entry: `entries` maps
-- a key to the index of its slot. Instants and durations are numbers; an instant above
-- `max_instant` overflows the clock.
pub mod Fresh
mod Runs
use Prim.Native.String.{String}
use text.Mathlib.Text.{◌==◌ as str_eq}
use zerobus_sdk.Common.{
  ℕ, zero, suc, ◌+◌, Bool, true, false, not, ◌&&◌, List, [], ◌∷◌, ◌++◌, length, get_elem?, set,
  Option, none, some, leb, if◌then◌else◌,
}
use zerobus_sdk.Common.Assoc.{KeyEq, lookup, insert, erase}

pub record CachedToken : Type 0 where
  pub value : String
  pub expires_at : ℕ

pub record Slot : Type 0 where
  pub cached : Option CachedToken
  pub locked : Bool

-- `D` is the type of SHA-256 digests.
pub record TokenKey (D : Type 0) : Type 0 where
  pub client_id : String
  pub secret_digest : D
  pub table_name : String

unfoldable pub new_key : {D : Type 0} → (String → D) → String → String → String → TokenKey D
new_key digest client_id client_secret table_name = record {
  client_id = client_id;
  secret_digest = digest client_secret;
  table_name = table_name;
}

pub record TokenCache (K : Type 0) : Type 0 where
  pub entries : List (K × ℕ)
  pub slots : List Slot
  pub refresh_buffer : ℕ
  pub enabled : Bool

pub data MintReason : Type 0 where
  cache_disabled refresh cold_miss : MintReason

-- `FetchedToken`: the token, and the lifetime that the server reported.
pub record FetchedToken : Type 0 where
  pub token : String
  pub expires_in : Option ℕ

pub data Fetched (E : Type 0) : Type 0 where
  ok : FetchedToken → Fetched E
  err : E → Fetched E

pub data Got (E : Type 0) : Type 0 where
  token : String → Got E
  error : E → Got E

-- What a call does once it holds the lock of its slot.
pub data Decision : Type 0 where
  serves : String → Decision
  mints : MintReason → Decision

abbrev pub checked_add : ℕ → ℕ → ℕ → Option ℕ
checked_add max_instant now d = if leb (now + d) max_instant then some (now + d) else none

unfoldable pub is_expired : ℕ → CachedToken → Bool
is_expired now c = leb c.expires_at now

unfoldable pub cached_at : List Slot → ℕ → Option CachedToken
cached_at slots i = elim (get_elem? slots i) [ none ↦ none | some s ↦ s.cached ]

abbrev pub is_expired_some : ℕ → Option CachedToken → Bool
is_expired_some now none = false
is_expired_some now (some c) = is_expired now c

abbrev is_locked : Option Slot → Bool
is_locked none = false
is_locked (some s) = s.locked

-- The predicate of `retain`: a slot that is locked is kept.
unfoldable pub is_kept : ℕ → List Slot → ℕ → Bool
unfolding is_expired
is_kept now slots i =
    if is_locked (get_elem? slots i) then true else not (is_expired_some now (cached_at slots i))

module _ {K : Type 0} where
  unfoldable pub prune_loop : ℕ → List Slot → List (K × ℕ) → List (K × ℕ)
  unfolding is_kept
  prune_loop now slots [] = []
  prune_loop now slots ((k, i) ∷ entries) =
      let rest = prune_loop now slots entries in if is_kept now slots i then (k, i) ∷ rest else rest

  unfoldable pub prune_expired : ℕ → TokenCache K → TokenCache K
  unfolding prune_loop
  prune_expired now c = record c { entries = prune_loop now c.slots c.entries }

  unfoldable pub new_cache : Bool → ℕ → TokenCache K
  new_cache enabled refresh_buffer = record {
    entries = [];
    slots = [];
    refresh_buffer = refresh_buffer;
    enabled = enabled;
  }

  -- The block under the lock of `entries`: the slot of the key, made if there is none.
  unfoldable pub find_slot : KeyEq K → ℕ → K → TokenCache K → ℕ × TokenCache K
  unfolding prune_expired
  find_slot e now key c = elim (lookup e key c.entries) [
    | some i ↦ (i, c)
    | none ↦
        let pruned = prune_expired now c in
        (
          length c.slots,
          record pruned {
            entries = insert e key (length c.slots) pruned.entries;
            slots = c.slots ++ record { cached = none; locked = false } ∷ [];
          },
        )
  ]

  unfoldable pub needs_refresh : ℕ → TokenCache K → ℕ → CachedToken → Bool
  needs_refresh max_instant c now cached = elim (checked_add max_instant now c.refresh_buffer) [
    | none ↦ true
    | some deadline ↦ leb cached.expires_at deadline
  ]

  -- The test on the slot, under its lock.
  unfoldable pub decide : ℕ → TokenCache K → ℕ → Option CachedToken → Decision
  unfolding needs_refresh
  decide max_instant c now none = mints cold_miss
  decide max_instant c now (some cached) =
      if needs_refresh max_instant c now cached then mints refresh else serves cached.value

abbrev pub expiry : ℕ → ℕ → Option ℕ → Option ℕ
expiry max_instant now none = none
expiry max_instant now (some ttl) = checked_add max_instant now ttl

-- The end of the call after `fetch`, still under the lock: the answer, and what the slot holds.
unfoldable pub settle :
    {E : Type 0} → (E → Bool) → ℕ → ℕ → Fetched E → Option CachedToken → Got E × Option CachedToken
unfolding is_expired
settle is_retryable max_instant now (err e) none = (error e, none)
settle is_retryable max_instant now (err e) (some cached) =
    if is_retryable e && not (is_expired now cached)
    then (token cached.value, some cached)
    else (error e, some cached)
settle is_retryable max_instant now (ok fetched) guard =
    elim (expiry max_instant now fetched.expires_in) [
      | some expires_at ↦
          (token fetched.token, some (record { value = fetched.token; expires_at = expires_at }))
      | none ↦ (token fetched.token, kept_guard guard)
    ]
  where
    kept_guard : Option CachedToken → Option CachedToken
    kept_guard none = none
    kept_guard (some cached) = if is_expired now cached then none else some cached

abbrev pub without_cache : {E : Type 0} → Fetched E → Got E
without_cache (ok fetched) = token fetched.token
without_cache (err problem) = error problem

module _ {K : Type 0} {E : Type 0} (is_retryable : E → Bool) (max_instant : ℕ) where
  -- A call under the lock of its slot: `now` when it takes the lock, `later` when `fetch` has
  -- returned. What `fetch` returns may depend on the reason.
  unfoldable pub with_slot :
      ℕ → ℕ → (MintReason → Fetched E) → ℕ → TokenCache K → Got E × TokenCache K
  with_slot now later fetch i c = elim (decide max_instant c now (cached_at c.slots i)) [
    | serves value ↦ (token value, c)
    | mints reason ↦
        let (got, cached) =
          settle is_retryable max_instant later (fetch reason) (cached_at c.slots i) in
        (got, record c { slots = set c.slots i (record { cached = cached; locked = false }) })
  ]

  -- A whole call, between whose two locks no other call touches the cache.
  unfoldable pub get_or_fetch :
      KeyEq K → K → ℕ → ℕ → (MintReason → Fetched E) → TokenCache K → Got E × TokenCache K
  get_or_fetch e key now later fetch c =
      let (i, found) = find_slot e now key c in
      if not c.enabled
      then (without_cache (fetch cache_disabled), c)
      else with_slot now later fetch i found

module _ {K : Type 0} (e : KeyEq K) where
  unfoldable pub invalidate : K → TokenCache K → TokenCache K
  invalidate key c = if not c.enabled then c else record c { entries = erase e key c.entries }
