-- ===== src/Providers/Classify/Patterns.antt =====
-- The pattern tables of pkg/providers/error_classifier.go.
use nook_claw.Prelude.{Bool, false, ◌||◌, List, [], ◌∷◌, ◌++◌}
use nook_claw.Prelude.Text.{Text, codes, contains}
use nook_claw.Prelude.Regexp.{
  Pattern, one, many, maybe, grouped, word_boundary, digit, blank, any, one_of, literal,
  at_least_one, match_string,
}

pub data ErrorPattern : Type 0 where
  substr : Text → ErrorPattern
  rxp : Pattern → ErrorPattern

unfoldable pub matches : Text → ErrorPattern → Bool
matches msg (substr []) = false
matches msg (substr (c ∷ cs)) = contains msg (c ∷ cs)
matches msg (rxp p) = match_string p msg

unfoldable pub matches_any : Text → List ErrorPattern → Bool
unfolding matches contains match_string
matches_any msg [] = false
matches_any msg (p ∷ ps) = matches msg p || matches_any msg ps

-- `(\d{3})`
abbrev three_digits : Pattern
three_digits = grouped digit ∷ grouped digit ∷ grouped digit ∷ []

-- A number between word boundaries.
abbrev whole_word : Pattern → Pattern
whole_word p = word_boundary ∷ p ++ word_boundary ∷ []

unfoldable pub http_status_patterns : List Pattern
http_status_patterns =
    (literal "status" ++ at_least_one (λ c. one_of ":" c || blank c) ++ three_digits)
    ∷ (literal "http"
        ++ at_least_one (λ c. one_of "/" c || blank c)
        ++ many digit ∷ maybe (one_of ".") ∷ many digit ∷ at_least_one blank
        ++ three_digits)
    ∷ whole_word (grouped (one_of "345") ∷ grouped digit ∷ grouped digit ∷ [])
    ∷ []

unfoldable pub rate_limit_patterns : List ErrorPattern
rate_limit_patterns =
    rxp (literal "rate" ++ one (one_of "_ ") ∷ literal "limit")
    ∷ substr (codes "too many requests")
    ∷ substr (codes "429")
    ∷ substr (codes "exceeded your current quota")
    ∷ rxp (literal "exceeded" ++ many any ∷ literal "quota")
    ∷ rxp (literal "resource has been exhausted")
    ∷ rxp (literal "resource" ++ many any ∷ literal "exhausted")
    ∷ substr (codes "resource_exhausted")
    ∷ substr (codes "quota exceeded")
    ∷ substr (codes "usage limit")
    ∷ []

unfoldable pub overloaded_patterns : List ErrorPattern
overloaded_patterns =
    rxp (literal "overloaded_error")
    ∷ rxp (
        one (one_of "\"") ∷ literal "type"
        ++ one (one_of "\"")
          ∷ many blank
          ∷ one (one_of ":")
          ∷ many blank
          ∷ one (one_of "\"")
          ∷ literal "overloaded_error"
        ++ one (one_of "\"") ∷ [])
    ∷ substr (codes "overloaded")
    ∷ []

unfoldable pub timeout_patterns : List ErrorPattern
timeout_patterns =
    substr (codes "timeout")
    ∷ substr (codes "timed out")
    ∷ substr (codes "deadline exceeded")
    ∷ substr (codes "context deadline exceeded")
    ∷ []

unfoldable pub billing_patterns : List ErrorPattern
billing_patterns =
    rxp (whole_word (literal "402"))
    ∷ substr (codes "payment required")
    ∷ substr (codes "insufficient credits")
    ∷ substr (codes "credit balance")
    ∷ substr (codes "plans & billing")
    ∷ substr (codes "insufficient balance")
    ∷ []

unfoldable pub auth_patterns : List ErrorPattern
auth_patterns =
    rxp (
      literal "invalid"
      ++ maybe (one_of "_ ") ∷ literal "api"
      ++ maybe (one_of "_ ") ∷ literal "key")
    ∷ substr (codes "incorrect api key")
    ∷ substr (codes "invalid token")
    ∷ substr (codes "authentication")
    ∷ substr (codes "re-authenticate")
    ∷ substr (codes "oauth token refresh failed")
    ∷ substr (codes "unauthorized")
    ∷ substr (codes "forbidden")
    ∷ substr (codes "access denied")
    ∷ substr (codes "expired")
    ∷ substr (codes "token has expired")
    ∷ rxp (whole_word (literal "401"))
    ∷ rxp (whole_word (literal "403"))
    ∷ substr (codes "no credentials found")
    ∷ substr (codes "no api key found")
    ∷ []

unfoldable pub format_patterns : List ErrorPattern
format_patterns =
    substr (codes "string should match pattern")
    ∷ substr (codes "tool_use.id")
    ∷ substr (codes "tool_use_id")
    ∷ substr (codes "messages.1.content.1.tool_use.id")
    ∷ substr (codes "invalid request format")
    ∷ []

unfoldable pub image_dimension_patterns : List ErrorPattern
image_dimension_patterns = rxp (literal "image dimensions exceed max") ∷ []

unfoldable pub image_size_patterns : List ErrorPattern
image_size_patterns = rxp (literal "image exceeds" ++ many any ∷ literal "mb") ∷ []
