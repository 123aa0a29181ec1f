-- ===== src/Execution/Errors.antt =====
-- services/orchestrator/src/runtime/run-execution.service.ts: `enhanceProviderError`, and what an error
-- says. `toLowerCase` and the words of the run manager's errors are arguments.
use Prim.Native.String.{◌++◌ as ◌<>◌}
use minerva.Base.{String, Bool, false, List, [], ◌∷◌, ◌||◌, if◌then◌else◌}
use minerva.Base.Text.{contains}

pub data ProviderErrorKind : Type 0 where
  rate_limit authentication timeout quota plain : ProviderErrorKind

abbrev mentions : String → List String → Bool
mentions message [] = false
mentions message (word ∷ words) = contains message word || mentions message words

module _ (to_lower_case : String → String) where
  -- The tests of `enhanceProviderError`, in their order, on the message in lower case.
  unfoldable pub classify : String → ProviderErrorKind
  classify original =
      let message = to_lower_case original in
      if mentions message ("rate limit" ∷ "too many requests" ∷ "429" ∷ [])
      then rate_limit
      else if mentions message
          ("authentication" ∷ "unauthorized" ∷ "401" ∷ "invalid api key" ∷ "api key invalid" ∷ [])
      then authentication
      else if mentions message ("timeout" ∷ "etimedout" ∷ "econnreset" ∷ [])
      then timeout
      else if mentions message ("quota" ∷ "exceeded" ∷ "billing" ∷ [])
      then quota
      else plain

  unfoldable pub advice : ProviderErrorKind → String
  advice rate_limit = "Rate limit exceeded. Please wait before retrying. Original error: "
  advice authentication =
      "Authentication failed. Please check your API key configuration. Original error: "
  advice timeout =
      "Request timed out. The provider may be experiencing high load or the request may be too large. Original error: "
  advice quota = "API quota exceeded. Please check your billing and usage limits. Original error: "
  advice plain = ""

  -- The message of the error that `enhanceProviderError` returns for an `Error` with this message.
  unfoldable pub enhance_provider_error : String → String
  unfolding classify advice
  enhance_provider_error message = advice (classify message) <> message
