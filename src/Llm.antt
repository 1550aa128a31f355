-- ===== src/Llm.antt =====
-- internal/llm/llm.go: the answer of a model provider, its errors, and `FailureCode`.
pub mod Validate
use incident_pilot.Common.{not, ◌&&◌, [], ◌++◌, if◌then◌else◌}
use incident_pilot.Common.Int.{ℤ, pos, eq_int}
use incident_pilot.Text.{Bytes, lit, ◌==◌, show_int}

-- the parts of a ChatResponse that the investigator reads
pub record ChatResponse : Type 0 where
  pub content : Bytes
  pub input_tokens : ℤ
  pub output_tokens : ℤ

-- an error, as the cases of `FailureCode` tell them apart
pub data ProviderFailure : Type 0 where
  -- ProviderHTTPError, the delay in nanoseconds
  http_failure : (status : ℤ) → (retry_after : ℤ) → (detail : Bytes) → ProviderFailure
  -- invalidResponseError
  invalid_response : (code : Bytes) → ProviderFailure
  -- ErrInvalidResponse on its own
  no_response : ProviderFailure
  deadline_exceeded canceled transport invalid_request unsupported_capability unknown :
      ProviderFailure

unfoldable pub failure_code : ProviderFailure → Bytes
unfolding eq_int show_int
failure_code (http_failure status retry_after detail) =
    if eq_int status (pos 400) && not (detail == [])
    then lit "provider_http_400_" ++ detail
    else lit "provider_http_" ++ show_int status
failure_code (invalid_response code) = lit "invalid_response_" ++ code
failure_code deadline_exceeded = lit "timeout"
failure_code canceled = lit "canceled"
failure_code transport = lit "transport"
failure_code invalid_request = lit "invalid_request"
failure_code unsupported_capability = lit "unsupported_capability"
failure_code no_response = lit "invalid_response"
failure_code unknown = lit "unknown"
