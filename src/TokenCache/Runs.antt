-- ===== src/TokenCache/Runs.antt =====
-- Runs of the token cache, with errors that are numbers and retryable below 10.
use Prim.Native.String.{String}
use zerobus_sdk.Common.{
  ℕ, ◌+◌, ◌<◌, ◌≡◌, ◌⊎◌, refl, arith, Bool, true, some, [], ◌∷◌, ltb, ◌^◌, false,
}
use zerobus_sdk.Zeroparser.Registry.{string_eq}
use zerobus_sdk.Common.Assoc.{lookup}
use zerobus_sdk.TokenCache.{
  TokenCache, CachedToken, FetchedToken, Fetched, ok, err, token, MintReason, get_or_fetch,
  with_slot, cached_at, is_expired, decide, needs_refresh, settle,
}
use zerobus_sdk.TokenCache.Fresh.{minted_once, with_slot-token}

abbrev is_transient : ℕ → Bool
is_transient e = ltb e 10

abbrev first_token : FetchedToken
first_token = record { token = "abc"; expires_in = some 3600 }

abbrev fetch_first : MintReason → Fetched ℕ
fetch_first reason = ok first_token

abbrev fetch_fails : MintReason → Fetched ℕ
fetch_fails reason = err 3

abbrev fresh_cache : TokenCache String
fresh_cache = record { entries = []; slots = []; refresh_buffer = 300; enabled = true }

minted_once_example :
    let first = get_or_fetch is_transient (2 ^ 60) string_eq "main.t" 0 5 fetch_first fresh_cache in
    (first.0 ≡ token "abc")
    × (get_or_fetch is_transient (2 ^ 60) string_eq "main.t" 3000 3001 fetch_fails first.1
        ≡ (token "abc", first.1))
unfolding lookup
minted_once_example =
    minted_once string_eq is_transient (2 ^ 60) 0 5 3000 3001 3600 fetch_first fetch_fails "main.t"
      first_token fresh_cache refl refl refl refl (omega arith) (omega arith)

abbrev stale_cache : TokenCache String
stale_cache = record fresh_cache {
  entries = ("main.t", 0) ∷ [];
  slots =
      record { cached = some (record { value = "old"; expires_at = 100 }); locked = false } ∷ [];
}

with_slot-token_example :
    ((r : MintReason) × (x : FetchedToken) × (fetch_fails r ≡ ok x) × ("old" ≡ x.token))
    ⊎ ((t : CachedToken) × (cached_at stale_cache.slots 0 ≡ some t)
        × ("old" ≡ t.value)
        × ((50 + stale_cache.refresh_buffer < t.expires_at)
            ⊎ ((r : MintReason) × (p : ℕ) × (fetch_fails r ≡ err p)
                × (is_transient p ≡ true)
                × (60 < t.expires_at))))
unfolding with_slot decide needs_refresh settle is_expired cached_at
with_slot-token_example =
    with_slot-token is_transient (2 ^ 60) 50 60 0 fetch_fails stale_cache "old" refl
