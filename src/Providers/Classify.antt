-- ===== src/Providers/Classify.antt =====
-- pkg/providers/error_classifier.go: from the text of an error to the reason of the failure.
pub mod Patterns
pub mod Laws
pub mod Status
use nook_claw.Prelude.{
  ℕ, ◌+◌, ◌-◌, ◌*◌, ◌≤◌, Bool, true, false, ◌||◌, ◌&&◌, Option, none, some, List, [], ◌∷◌, leb, ltb,
  ◌==◌, if◌then◌else◌,
}
use nook_claw.Prelude.Text.{Text, codes, to_lower}
use nook_claw.Prelude.Regexp.{find_submatch, Pattern}
use nook_claw.Providers.Types.{
  Error, canceled, deadline_exceeded, other, FailoverError, FailoverReason, auth, rate_limit,
  billing, timeout, format, overloaded, unknown, unset,
}
use Patterns.{
  ErrorPattern, matches_any, rate_limit_patterns, overloaded_patterns, timeout_patterns,
  billing_patterns, auth_patterns, format_patterns, image_dimension_patterns, image_size_patterns,
  http_status_patterns,
}

-- err.Error()
abbrev pub error_text : Error → Text
error_text canceled = codes "context canceled"
error_text deadline_exceeded = codes "context deadline exceeded"
error_text (other msg) = msg

unfoldable pub is_image_dimension_error : Text → Bool
is_image_dimension_error msg = matches_any msg image_dimension_patterns

unfoldable pub is_image_size_error : Text → Bool
is_image_size_error msg = matches_any msg image_size_patterns

unfoldable pub is_transient_status : ℕ → Bool
is_transient_status s =
    s == 500 || s == 502 || s == 503 || s == 521 || s == 522 || s == 523 || s == 524 || s == 529

unfoldable pub classify_by_status : ℕ → FailoverReason
unfolding is_transient_status
classify_by_status s =
    if s == 401 || s == 403
    then auth
    else if s == 402
    then billing
    else if s == 408
    then timeout
    else if s == 429
    then rate_limit
    else if s == 400
    then format
    else if is_transient_status s
    then timeout
    else unset

unfoldable pub classify_by_message : Text → FailoverReason
classify_by_message msg =
    if matches_any msg rate_limit_patterns
    then rate_limit
    else if matches_any msg overloaded_patterns
    then rate_limit
    else if matches_any msg billing_patterns
    then billing
    else if matches_any msg timeout_patterns
    then timeout
    else if matches_any msg auth_patterns
    then auth
    else if matches_any msg format_patterns
    then format
    else unset

-- parseDigits, from the value `n` of the digits so far.
unfoldable pub parse_digits_from : ℕ → Text → ℕ
parse_digits_from n [] = n
parse_digits_from n (c ∷ cs) =
    parse_digits_from (if leb b'0' c && leb c b'9' then n * 10 + (c - b'0') else n) cs

unfoldable pub parse_digits : Text → ℕ
unfolding parse_digits_from
parse_digits s = parse_digits_from 0 s

unfoldable pub first_status : List Pattern → Text → ℕ
first_status [] msg = 0
first_status (p ∷ ps) msg = elim (find_submatch p msg) [
  | none ↦ first_status ps msg
  | some m ↦ parse_digits m
]

unfoldable pub extract_http_status : Text → ℕ
unfolding first_status parse_digits
extract_http_status msg = first_status http_status_patterns msg

-- A reason that is not the empty string.
abbrev pub is_set : FailoverReason → Bool
is_set unset = false
is_set _ = true

module _ (err : Error) (provider model : Text) where
  abbrev pub failover : FailoverReason → ℕ → FailoverError
  failover reason status = record {
    reason = reason;
    provider = provider;
    model = model;
    status = status;
    wrapped = err;
  }

  -- The last step: by the patterns.
  unfoldable pub classify_text : Text → Option FailoverError
  classify_text msg =
      let reason = classify_by_message msg in
      if is_set reason then some (failover reason 0) else none

  -- The steps on a text in lower case: images, the status code, the patterns.
  unfoldable pub classify_lower : Text → Option FailoverError
  classify_lower msg =
      let status = extract_http_status msg in
      let reason = classify_by_status status in
      if is_image_dimension_error msg || is_image_size_error msg
      then some (failover format 0)
      else if ltb 0 status && is_set reason
      then some (failover reason status)
      else classify_text msg

-- A nil error, which the code also accepts, is no argument here: callers pass errors.
unfoldable pub classify_error : Error → Text → Text → Option FailoverError
unfolding classify_lower classify_text
classify_error canceled provider model = none
classify_error deadline_exceeded provider model =
    some (failover deadline_exceeded provider model timeout 0)
classify_error (other msg) provider model = classify_lower (other msg) provider model (to_lower msg)
