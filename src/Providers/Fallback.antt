-- ===== src/Providers/Fallback.antt =====
-- pkg/providers/fallback.go: the chain that tries one candidate after another. The context, the
-- clock and the provider's call belong to the environment, whose state every use may change.
pub mod Loop
pub mod Attempts
pub mod Image
pub mod Frame
pub mod Cooling
use nook_claw.Prelude.{
  ℕ, ◌+◌, ◌-◌, ◌%◌, ◌*◌, Bool, true, false, ◌||◌, Option, none, some, List, [], ◌∷◌, ltb,
  if◌then◌else◌,
}
use nook_claw.Prelude.Text.{Text, to_lower}
use nook_claw.Providers.Types.{
  Error, FailoverError, FailoverReason, rate_limit, format, unset, is_retriable,
}
use nook_claw.Providers.Cooldown.{
  CooldownTracker, millisecond, is_available, cooldown_remaining, mark_failure, mark_success,
}
use nook_claw.Providers.ModelRef.{FallbackCandidate}
use nook_claw.Providers.Classify.{
  classify_error, error_text, is_image_dimension_error, is_image_size_error,
}
use Loop.{
  FallbackAttempt, AttemptError, in_cooldown, raw, classified, FallbackResult, Returned, ok, err,
  no_candidates, context_canceled, unclassified, failed, Step, done, passed, try_each,
}

-- What the provider's call returns.
pub data Outcome (R : Type 0) : Type 0 where
  response : R → Outcome R
  failure : Error → Outcome R

pub record Env (W R : Type 0) : Type 0 where
  pub clock : W → ℕ × W
  pub canceled : W → Bool × W
  pub run : Text → Text → W → Outcome R × W

-- time.Duration.Round(time.Second) of a duration that is not negative
unfoldable pub round_second : ℕ → ℕ
round_second d =
    let second = 1000 * millisecond in
    let r = d % second in if ltb (r + r) second then d - r else d + second - r

unfoldable pub skipped_attempt : FallbackCandidate → ℕ → FallbackAttempt
skipped_attempt c remaining = record {
  provider = c.provider;
  model = c.model;
  error = in_cooldown c.provider (round_second remaining);
  reason = rate_limit;
  duration = 0;
  skipped = true;
}

unfoldable pub failed_attempt :
    FallbackCandidate → AttemptError → FailoverReason → ℕ → FallbackAttempt
failed_attempt c error reason elapsed = record {
  provider = c.provider;
  model = c.model;
  error = error;
  reason = reason;
  duration = elapsed;
  skipped = false;
}

module _ {W R : Type 0} (env : Env W R) where
  abbrev pub succeed : FallbackCandidate → List FallbackAttempt → R → Step R
  succeed c attempts resp =
      done (
        ok
          (record { response = resp; provider = c.provider; model = c.model; attempts = attempts }))

  -- The attempts that the code records before it returns another error are dropped with the
  -- result, so they are left out here.
  unfoldable pub on_classified :
      FallbackCandidate
      → Error
      → ℕ
      → CooldownTracker × W
      → Option FailoverError
      → Step R × (CooldownTracker × W)
  unfolding failed_attempt
  on_classified c error elapsed (ct, w) none =
      (done (err (unclassified c.provider c.model error)), (ct, w))
  on_classified c error elapsed (ct, w) (some fail) =
      if is_retriable fail
      then (let (now, w') = env.clock w in
          (
            passed (failed_attempt c (classified fail) fail.reason elapsed),
            (mark_failure now c.provider fail.reason ct, w'),
          ))
      else (done (err (failed fail)), (ct, w))

  -- The provider returned: `start` and `end` are the clock's readings round the call.
  unfoldable pub on_outcome :
      FallbackCandidate
      → List FallbackAttempt
      → ℕ
      → CooldownTracker × W
      → Outcome R
      → Step R × (CooldownTracker × W)
  unfolding on_classified
  on_outcome c attempts elapsed (ct, w) (response resp) =
      (succeed c attempts resp, (mark_success c.provider ct, w))
  on_outcome c attempts elapsed (ct, w) (failure error) =
      let (aborted, w') = env.canceled w in
      if aborted
      then (done (err context_canceled), (ct, w'))
      else on_classified c error elapsed (ct, w') (classify_error error c.provider c.model)

  unfoldable pub skip : FallbackCandidate → CooldownTracker × W → Step R × (CooldownTracker × W)
  unfolding skipped_attempt round_second
  skip c (ct, w) =
      let (now, w') = env.clock w in
      (passed (skipped_attempt c (cooldown_remaining now c.provider ct)), (ct, w'))

  unfoldable pub call :
      FallbackCandidate
      → List FallbackAttempt
      → CooldownTracker × W
      → Step R × (CooldownTracker × W)
  unfolding on_outcome
  call c attempts (ct, w) =
      let (start, w1) = env.clock w in
      let (outcome, w2) = env.run c.provider c.model w1 in
      let (end, w3) = env.clock w2 in on_outcome c attempts (end - start) (ct, w3) outcome

  -- One round of Execute's loop.
  unfoldable pub attempt :
      FallbackCandidate
      → List FallbackAttempt
      → CooldownTracker × W
      → Step R × (CooldownTracker × W)
  unfolding skip call
  attempt c attempts (ct, w) =
      let (aborted, w1) = env.canceled w in
      let (now, w2) = env.clock w1 in
      if aborted
      then (done (err context_canceled), (ct, w1))
      else if is_available now c.provider ct
      then call c attempts (ct, w2)
      else skip c (ct, w2)

  unfoldable pub execute :
      List FallbackCandidate → CooldownTracker × W → Returned R × (CooldownTracker × W)
  unfolding try_each
  execute [] s = (err no_candidates, s)
  execute (c ∷ cs) s = try_each attempt (c ∷ cs) [] s

  unfoldable pub on_image_error : FallbackCandidate → Error → ℕ → Step R
  unfolding failed_attempt
  on_image_error c error elapsed =
      let msg = to_lower (error_text error) in
      if is_image_dimension_error msg || is_image_size_error msg
      then done (
          err (
            failed (record {
              reason = format;
              provider = c.provider;
              model = c.model;
              status = 0;
              wrapped = error;
            })))
      else passed (failed_attempt c (raw error) unset elapsed)

  unfoldable pub on_image_outcome :
      FallbackCandidate → List FallbackAttempt → ℕ → W → Outcome R → Step R × W
  unfolding on_image_error
  on_image_outcome c attempts elapsed w (response resp) = (succeed c attempts resp, w)
  on_image_outcome c attempts elapsed w (failure error) =
      let (aborted, w') = env.canceled w in
      if aborted then (done (err context_canceled), w') else (on_image_error c error elapsed, w')

  -- One round of ExecuteImage's loop.
  unfoldable pub attempt_image : FallbackCandidate → List FallbackAttempt → W → Step R × W
  unfolding on_image_outcome
  attempt_image c attempts w =
      let (aborted, w1) = env.canceled w in
      let (start, w2) = env.clock w1 in
      let (outcome, w3) = env.run c.provider c.model w2 in
      let (end, w4) = env.clock w3 in
      if aborted
      then (done (err context_canceled), w1)
      else on_image_outcome c attempts (end - start) w4 outcome

  unfoldable pub execute_image : List FallbackCandidate → W → Returned R × W
  unfolding try_each
  execute_image [] w = (err no_candidates, w)
  execute_image (c ∷ cs) w = try_each attempt_image (c ∷ cs) [] w
