-- ===== src/Errors/Retries.antt =====
-- What the retry policy of the first connection promises over the errors of its attempts.
use zerobus_sdk.Common.{
  ℕ, suc, ◌≤◌, ◌≡◌, refl, arith, Bool, true, false, not, ◌&&◌, List, [], ◌∷◌, if◌then◌else◌,
}
use zerobus_sdk.Errors.{
  Tonic, ZerobusError, stream_closed_error, create_stream_error, unretriable_status_codes, contains,
  is_retryable, is_auth_rejection, should_retry_initial_connection, is_auth_code,
}

module _ (tonic : Tonic) where
  auth_code_is_unretriable :
      (c : tonic.Code)
      → is_auth_code tonic c ≡ true
      → contains tonic (unretriable_status_codes tonic) c ≡ true
  unfolding contains unretriable_status_codes
  auth_code_is_unretriable c h = ground arith

  -- A rejection of the credentials is never retryable.
  pub auth_rejection_is_final :
      (e : ZerobusError tonic.Status)
      → is_auth_rejection tonic e ≡ true
      → is_retryable tonic e ≡ false
  unfolding is_retryable is_auth_rejection
  auth_rejection_is_final (create_stream_error s) h =
      rw (auth_code_is_unretriable (tonic.code s) h) refl
  auth_rejection_is_final (stream_closed_error s) h =
      rw (auth_code_is_unretriable (tonic.code s) h) refl
  auth_rejection_is_final other h = cc

  -- Over the errors of attempts in a row: how many of those that are not retryable are retried.
  unfoldable pub extra_retries : Bool → Bool → List (ZerobusError tonic.Status) → ℕ
  extra_retries recovery available [] = 0
  extra_retries recovery available (e ∷ errors) =
      let answer = should_retry_initial_connection tonic e recovery available in
      let later = extra_retries recovery (answer.1) errors in
      if answer.0 && not (is_retryable tonic e) then suc later else later

  -- Of the attempts in a row at the first connection, at most one that fails with an error that is
  -- not retryable is tried again, and none if no such retry is available or recovery is off.
  pub extra_retries_le_one :
      (recovery available : Bool) (errors : List (ZerobusError tonic.Status))
      → extra_retries recovery available errors ≤ (if recovery && available then 1 else 0)
  unfolding extra_retries should_retry_initial_connection
  extra_retries_le_one recovery available [] = ground arith
  extra_retries_le_one recovery available (e ∷ errors) = ground (
    arith,
    extra_retries_le_one recovery available errors,
    extra_retries_le_one recovery false errors,
  )
