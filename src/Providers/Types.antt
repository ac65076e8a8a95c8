-- ===== src/Providers/Types.antt =====
-- pkg/providers/types.go: why a request failed, and the error that carries the reason.
use nook_claw.Prelude.{ℕ, Bool, true, false, not}
use nook_claw.Prelude.Text.{Text}

-- The constants of FailoverReason; `unset` is the empty string, for no reason.
pub data FailoverReason : Type 0 where
  auth rate_limit billing timeout format overloaded unknown unset : FailoverReason

abbrev pub is_billing : FailoverReason → Bool
is_billing billing = true
is_billing _ = false

abbrev pub is_format : FailoverReason → Bool
is_format format = true
is_format _ = false

-- An error of Go: the two of package context, which are compared by identity, and any other, by
-- its text.
pub data Error : Type 0 where
  canceled deadline_exceeded : Error
  other : Text → Error

pub record FailoverError : Type 0 where
  pub reason : FailoverReason
  pub provider : Text
  pub model : Text
  pub status : ℕ
  pub wrapped : Error

-- Every reason but a format error lets the next candidate be tried.
unfoldable pub is_retriable : FailoverError → Bool
is_retriable e = not (is_format e.reason)
