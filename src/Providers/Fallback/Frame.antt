-- ===== src/Providers/Fallback/Frame.antt =====
-- What the chain of pkg/providers/fallback.go does to providers that are not its candidates.
use nook_claw.Prelude.{
  ℕ, ◌-◌, ◌≡◌, refl, ◌∙◌, Bool, false, Option, none, some, List, [], ◌∷◌, All, arith,
}
use nook_claw.Prelude.Text.{Text, text_eq}
use nook_claw.Providers.Types.{Error, FailoverError, unset}
use nook_claw.Providers.Cooldown.{CooldownTracker, is_available}
use nook_claw.Providers.Cooldown.Timers.{other_providers_unchanged}
use nook_claw.Providers.ModelRef.{FallbackCandidate}
use nook_claw.Providers.Classify.{classify_error}
use nook_claw.Providers.Fallback.Loop.{FallbackAttempt, Step, done, passed, resume, try_each}
use nook_claw.Providers.Fallback.{
  Outcome, response, failure, Env, attempt, call, skip, on_outcome, on_classified, execute,
}

module _ {W R : Type 0} (env : Env W R) (p : Text) (t : ℕ) where
  abbrev State : Type 0
  State = CooldownTracker × W

  -- What the tracker says about the provider at the time.
  abbrev says : State → Bool
  says s = is_available t p s.0

  abbrev IsOther : FallbackCandidate → Type 0
  IsOther c = text_eq c.provider p ≡ false

  on_classified_frame :
      (c : FallbackCandidate) (error : Error) (elapsed : ℕ) (s : State) (o : Option FailoverError)
      → IsOther c
      → says (on_classified env c error elapsed s o).1 ≡ says s
  unfolding on_classified
  on_classified_frame c error elapsed s none h = refl
  on_classified_frame c error elapsed (ct, w) (some f) h =
      let now = (env.clock w).0 in
      ground (arith, other_providers_unchanged ct c.provider p f.reason unset now t h)

  on_outcome_frame :
      (c : FallbackCandidate) (before : List FallbackAttempt) (elapsed : ℕ) (s : State)
      (o : Outcome R)
      → IsOther c
      → says (on_outcome env c before elapsed s o).1 ≡ says s
  unfolding on_outcome
  on_outcome_frame c before elapsed (ct, w) (response resp) h =
      (other_providers_unchanged ct c.provider p unset unset t t h).3
  on_outcome_frame c before elapsed (ct, w) (failure error) h =
      let w' = (env.canceled w).1 in
      let o = classify_error error c.provider c.model in
      ground (arith, on_classified_frame c error elapsed (ct, w') o h)

  attempt_frame :
      (c : FallbackCandidate) (before : List FallbackAttempt) (s : State)
      → IsOther c
      → says (attempt env c before s).1 ≡ says s
  unfolding attempt call skip
  attempt_frame c before (ct, w) h =
      let w2 = (env.clock (env.canceled w).1).1 in
      let w3 = (env.clock w2).1 in
      let (outcome, w4) = env.run c.provider c.model w3 in
      let elapsed = (env.clock w4).0 - (env.clock w2).0 in
      ground (arith, on_outcome_frame c before elapsed (ct, (env.clock w4).1) outcome h)

  try_each_frame :
      (cs : List FallbackCandidate) (before : List FallbackAttempt) (s : State)
      → All IsOther cs
      → says (try_each (attempt env) cs before s).1 ≡ says s
  unfolding try_each
  try_each_frame [] before s h = refl
  try_each_frame (c ∷ cs) before s h =
      let (step, s') = attempt env c before s in
      resumed step s' (λ more v. try_each_frame cs more v h.1) ∙ attempt_frame c before s h.0
    where
      resumed :
          (step : Step R) (s' : State)
          → ((more : List FallbackAttempt) (v : State)
              → says (try_each (attempt env) cs more v).1 ≡ says v)
          → says (resume step before s' (try_each (attempt env) cs)).1 ≡ says s'
      resumed (done r) s' ih = refl
      resumed (passed a) s' ih = ih _ s'

  -- Whatever Execute runs into, it changes nothing about the availability, at any time, of a
  -- provider that none of its candidates has.
  pub execute_frame :
      (cs : List FallbackCandidate) (s : CooldownTracker × W)
      → All (λ c. text_eq c.provider p ≡ false) cs
      → is_available t p (execute env cs s).1.0 ≡ is_available t p s.0
  unfolding execute
  execute_frame [] s h = refl
  execute_frame (c ∷ cs) s h = try_each_frame (c ∷ cs) [] s h
