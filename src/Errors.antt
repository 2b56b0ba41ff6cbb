-- ===== src/Errors.antt =====
-- rust/sdk/src/errors.rs: the errors of the SDK and their classification.
pub mod Retries
pub mod Runs
use Prim.Native.String.{String}
use zerobus_sdk.Common.{
  Bool, true, false, not, ◌&&◌, ◌||◌, List, [], ◌∷◌, Option, ◌≡◌, if◌then◌else◌,
}

-- What the SDK uses of `tonic`: statuses with their code and message, the codes that the source
-- names, their equality, which is reflexive, and the constructors of a status.
pub record Tonic : Type 1 where
  pub Status : Type 0
  pub Code : Type 0
  pub code : Status → Code
  pub same : Code → Code → Bool
  pub same_refl : (c : Code) → same c c ≡ true
  pub invalid_argument : Code
  pub unauthenticated : Code
  pub permission_denied : Code
  pub out_of_range : Code
  pub unimplemented : Code
  pub not_found : Code
  pub message : Status → String
  pub internal : String → Status
  pub ok : String → Status
  pub deadline_exceeded : String → Status
  pub unavailable : String → Status
  pub unknown_status : String → Status

pub data SchemaValidationCause : Type 0 where
  field_not_in_table missing_required_column field_out_of_order : SchemaValidationCause
  type_incompatible field_count_mismatch : SchemaValidationCause
  unknown : String → SchemaValidationCause

pub data ZerobusError (Status : Type 0) : Type 0 where
  channel_creation_error : String → ZerobusError Status
  create_stream_error : Status → ZerobusError Status
  failed_to_establish_tls_connection_error : ZerobusError Status
  invalid_zerobus_endpoint_error : String → ZerobusError Status
  invalid_table_name : String → ZerobusError Status
  invalid_uc_endpoint_error : String → ZerobusError Status
  invalid_uc_token_error : String → ZerobusError Status
  stream_closed_error : Status → ZerobusError Status
  invalid_argument : String → ZerobusError Status
  invalid_schema : String → List SchemaValidationCause → Option String → ZerobusError Status
  unexpected_stream_response_error : String → ZerobusError Status
  invalid_state_error : String → ZerobusError Status
  connection_timeout : String → ZerobusError Status
  token_fetch_error : String → ZerobusError Status

module _ (tonic : Tonic) where
  unfoldable pub unretriable_status_codes : List tonic.Code
  unretriable_status_codes =
      tonic.invalid_argument ∷ tonic.unauthenticated ∷ tonic.permission_denied ∷ tonic.out_of_range
      ∷ tonic.unimplemented ∷ tonic.not_found ∷ []

  unfoldable pub contains : List tonic.Code → tonic.Code → Bool
  contains [] c = false
  contains (d ∷ codes) c = tonic.same d c || contains codes c

  unfoldable pub is_retryable : ZerobusError tonic.Status → Bool
  unfolding unretriable_status_codes
  is_retryable (invalid_argument m) = false
  is_retryable (invalid_schema m causes code) = false
  is_retryable (stream_closed_error status) =
      not (contains unretriable_status_codes (tonic.code status))
  is_retryable (create_stream_error status) =
      not (contains unretriable_status_codes (tonic.code status))
  is_retryable (channel_creation_error m) = true
  is_retryable failed_to_establish_tls_connection_error = true
  is_retryable (invalid_zerobus_endpoint_error m) = false
  is_retryable (invalid_table_name m) = false
  is_retryable (invalid_uc_endpoint_error m) = false
  is_retryable (invalid_uc_token_error m) = false
  is_retryable (unexpected_stream_response_error m) = true
  is_retryable (invalid_state_error m) = false
  is_retryable (connection_timeout m) = true
  is_retryable (token_fetch_error m) = true

  abbrev is_auth_code : tonic.Code → Bool
  is_auth_code c = tonic.same tonic.unauthenticated c || tonic.same tonic.permission_denied c

  unfoldable pub is_auth_rejection : ZerobusError tonic.Status → Bool
  is_auth_rejection (create_stream_error status) = is_auth_code (tonic.code status)
  is_auth_rejection (stream_closed_error status) = is_auth_code (tonic.code status)
  is_auth_rejection other = false

  -- The answer, and `auth_retry_available` after the call.
  unfoldable pub should_retry_initial_connection :
      ZerobusError tonic.Status → Bool → Bool → Bool × Bool
  should_retry_initial_connection error recovery_enabled auth_retry_available =
      if not recovery_enabled
      then (false, auth_retry_available)
      else if is_retryable error
      then (true, auth_retry_available)
      else if is_auth_rejection error && auth_retry_available
      then (true, false)
      else (false, auth_retry_available)
