-- ===== src/Errors/Runs.antt =====
-- A concrete `tonic`, and runs of the retry policy.
use Prim.Native.String.{String}
use zerobus_sdk.Common.{ℕ, ◌≤◌, ◌≡◌, arith, true, [], ◌∷◌, ◌==◌}
use zerobus_sdk.Errors.{Tonic, ZerobusError, create_stream_error, connection_timeout}
use zerobus_sdk.Errors.Retries.{extra_retries, extra_retries_le_one}

-- Each number is itself.
pub same_code : (c : ℕ) → c == c ≡ true
same_code c = ground arith

-- A status is its gRPC code and its message.
abbrev pub grpc : Tonic
grpc = record {
  Status = ℕ × String;
  Code = ℕ;
  code = λ s. s.0;
  same = ◌==◌;
  same_refl = same_code;
  invalid_argument = 3;
  unauthenticated = 16;
  permission_denied = 7;
  out_of_range = 11;
  unimplemented = 12;
  not_found = 5;
  message = λ s. s.1;
  internal = λ m. (13, m);
  ok = λ m. (0, m);
  deadline_exceeded = λ m. (4, m);
  unavailable = λ m. (14, m);
  unknown_status = λ m. (2, m);
}

abbrev stale : ZerobusError (ℕ × String)
stale = create_stream_error (16, "stale token")

extra_retries_le_one_example :
    extra_retries grpc true true (stale ∷ connection_timeout "slow" ∷ stale ∷ []) ≤ 1
extra_retries_le_one_example =
    extra_retries_le_one grpc true true (stale ∷ connection_timeout "slow" ∷ stale ∷ [])
