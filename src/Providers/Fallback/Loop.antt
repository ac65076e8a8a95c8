-- ===== src/Providers/Fallback/Loop.antt =====
-- The loop that Execute and ExecuteImage of pkg/providers/fallback.go share: a round either ends
-- the loop or leaves an attempt and passes on to the next candidate.
pub mod Laws
pub mod Trace
use nook_claw.Prelude.{ℕ, ◌≡◌, refl, Bool, List, [], ◌∷◌, ◌++◌}
use nook_claw.Prelude.Text.{Text}
use nook_claw.Providers.Types.{Error, FailoverError, FailoverReason}
use nook_claw.Providers.ModelRef.{FallbackCandidate}

-- The error of an attempt: the cooldown that skipped it with the time that remains, the provider's
-- error as it is, or as it was classified.
pub data AttemptError : Type 0 where
  in_cooldown : Text → ℕ → AttemptError
  raw : Error → AttemptError
  classified : FailoverError → AttemptError

pub record FallbackAttempt : Type 0 where
  pub provider : Text
  pub model : Text
  pub error : AttemptError
  pub reason : FailoverReason
  pub duration : ℕ
  pub skipped : Bool

pub record FallbackResult (R : Type 0) : Type 0 where
  pub response : R
  pub provider : Text
  pub model : Text
  pub attempts : List FallbackAttempt

-- The errors that the chain returns. `exhausted` is FallbackExhaustedError.
pub data ExecuteError : Type 0 where
  no_candidates context_canceled : ExecuteError
  unclassified : Text → Text → Error → ExecuteError
  failed : FailoverError → ExecuteError
  exhausted : List FallbackAttempt → ExecuteError

pub data Returned (R : Type 0) : Type 0 where
  ok : FallbackResult R → Returned R
  err : ExecuteError → Returned R

pub data Step (R : Type 0) : Type 0 where
  done : Returned R → Step R
  passed : FallbackAttempt → Step R

abbrev pub Round : Type 0 → Type 0 → Type 0
Round S R = FallbackCandidate → List FallbackAttempt → S → Step R × S

module _ {S R : Type 0} where
  abbrev pub resume :
      Step R
      → List FallbackAttempt
      → S
      → (List FallbackAttempt → S → Returned R × S)
      → Returned R × S
  resume (done r) attempts s next = (r, s)
  resume (passed a) attempts s next = next (attempts ++ a ∷ []) s

  -- The last candidate's early return gives the error that the loop's end gives.
  unfoldable pub try_each :
      Round S R → List FallbackCandidate → List FallbackAttempt → S → Returned R × S
  try_each attempt [] attempts s = (err (exhausted attempts), s)
  try_each attempt (c ∷ cs) attempts s =
      let (step, s') = attempt c attempts s in resume step attempts s' (try_each attempt cs)
