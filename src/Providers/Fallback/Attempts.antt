-- ===== src/Providers/Fallback/Attempts.antt =====
-- The results and the attempts that Execute of pkg/providers/fallback.go reports.
use nook_claw.Prelude.{
  ℕ, ◌-◌, ◌≡◌, refl, Bool, true, false, ◌⊎◌, inl, inr, Option, none, some, List, [], ◌∷◌,
  Bool-cases, if◌then◌else◌,
}
use nook_claw.Providers.Types.{Error, FailoverError, rate_limit, unset, is_retriable}
use nook_claw.Providers.Cooldown.{CooldownTracker, is_available, error_count, mark_failure}
use nook_claw.Providers.Cooldown.Timers.{mark_success_clears}
use nook_claw.Providers.ModelRef.{FallbackCandidate}
use nook_claw.Providers.Classify.{classify_error}
use nook_claw.Providers.Fallback.Loop.{
  FallbackAttempt, classified, FallbackResult, context_canceled, err, Step, done,
}
use nook_claw.Providers.Fallback.Loop.Trace.{Takes, Ends, try_each-Ends}
use nook_claw.Providers.Fallback.{
  Outcome, response, failure, Env, attempt, call, skip, on_outcome, on_classified, execute,
}

module _ {W R : Type 0} (env : Env W R) where
  -- The clock's reading in a round from this state: the context is looked at before it.
  abbrev pub checked_at : CooldownTracker × W → ℕ
  checked_at s = (env.clock (env.canceled s.1).1).0

  -- The provider of the candidate is not in cooldown when the round looks.
  abbrev pub is_free : CooldownTracker × W → FallbackCandidate → Bool
  is_free s c = is_available (checked_at s) c.provider s.0

  -- What the provider returns where the round calls it: the clock is read twice before the call.
  abbrev pub answer : CooldownTracker × W → FallbackCandidate → Outcome R
  answer s c = (env.run c.provider c.model (env.clock (env.clock (env.canceled s.1).1).1).1).0

  -- The provider was called, and its error was classified and lets the next candidate be tried. The
  -- tracker has recorded the failure.
  pub record Failed (s : CooldownTracker × W) (c : FallbackCandidate) (a : FallbackAttempt)
      (t : CooldownTracker × W) : Type 0 where
    pub free : is_free s c ≡ true
    pub not_skipped : a.skipped ≡ false
    pub error : Error
    pub answered : answer s c ≡ failure error
    pub fail : FailoverError
    pub is_classified : classify_error error c.provider c.model ≡ some fail
    pub retriable : is_retriable fail ≡ true
    pub reported : a.error ≡ classified fail
    pub reason : a.reason ≡ fail.reason
    pub at : ℕ
    pub marked : t.0 ≡ mark_failure at c.provider fail.reason s.0

  -- The provider was in cooldown and was not called. The tracker is as it was.
  abbrev pub Skipped :
      CooldownTracker × W → FallbackCandidate → FallbackAttempt → CooldownTracker × W → Type 0
  Skipped s c a t =
      (is_free s c ≡ false) × (a.skipped ≡ true) × (a.reason ≡ rate_limit) × (t.0 ≡ s.0)

  abbrev pub PassedOver :
      CooldownTracker × W → FallbackCandidate → FallbackAttempt → CooldownTracker × W → Type 0
  PassedOver s c a t =
      (a.provider ≡ c.provider) × (a.model ≡ c.model) × (Skipped s c a t ⊎ Failed s c a t)

  -- The provider was not in cooldown, and its response is the result's. From then on it is available
  -- at any time and has no failure counted.
  abbrev pub Answered : CooldownTracker × W → FallbackResult R → CooldownTracker × W → Type 0
  Answered s r t =
      let c : FallbackCandidate = record { provider = r.provider; model = r.model } in
      (is_free s c ≡ true)
      × (answer s c ≡ response r.response)
      × ((now : ℕ) → is_available now r.provider t.0 ≡ true)
      × (error_count r.provider t.0 ≡ 0)

  -- A round from `s` does this.
  abbrev Does :
      CooldownTracker × W
      → FallbackCandidate
      → List FallbackAttempt
      → Step R × (CooldownTracker × W)
      → Type 0
  Does s c before p = Takes PassedOver Answered c before s p.0 p.1

  module _ (s : CooldownTracker × W) (c : FallbackCandidate) (before : List FallbackAttempt) where
    on_classified-Takes :
        (error : Error) (elapsed : ℕ) (w : W) (o : Option FailoverError)
        → is_free s c ≡ true
        → answer s c ≡ failure error
        → classify_error error c.provider c.model ≡ o
        → Does s c before (on_classified env c error elapsed (s.0, w) o)
    unfolding on_classified
    on_classified-Takes error elapsed w none free answered e = tt
    on_classified-Takes error elapsed w (some f) free answered e =
        elim (Bool-cases (is_retriable f)) [
          | inl retriable ↦
              let at = (env.clock w).0 in
              rw retriable (
                refl,
                refl,
                inr (record {
                  free = free;
                  not_skipped = refl;
                  error = error;
                  answered = answered;
                  fail = f;
                  is_classified = e;
                  retriable = retriable;
                  reported = refl;
                  reason = refl;
                  at = at;
                  marked = refl;
                }),
              )
          | inr final ↦ rw final tt
        ]

    on_outcome-Takes :
        (elapsed : ℕ) (w : W) (o : Outcome R)
        → is_free s c ≡ true
        → answer s c ≡ o
        → Does s c before (on_outcome env c before elapsed (s.0, w) o)
    unfolding on_outcome
    on_outcome-Takes elapsed w (response resp) free answered =
        let cleared = λ (now : ℕ). mark_success_clears s.0 c.provider now unset in
        (refl, refl, refl, (free, answered, λ now. (cleared now).0, (cleared 0).2))
    on_outcome-Takes elapsed w (failure error) free answered =
        let (aborted, w') = env.canceled w in stop_or_classify aborted w'
      where
        stop_or_classify :
            (aborted : Bool) (w' : W)
            → Does s c before (
                if aborted
                then (done (err context_canceled), (s.0, w'))
                else on_classified env c error elapsed
                    (s.0, w')
                    (classify_error error c.provider c.model))
        stop_or_classify true w' = tt
        stop_or_classify false w' =
            on_classified-Takes error elapsed w' (classify_error error c.provider c.model) free
              answered refl

  attempt-Takes :
      (c : FallbackCandidate) (before : List FallbackAttempt) (s : CooldownTracker × W)
      → Does s c before (attempt env c before s)
  unfolding attempt
  attempt-Takes c before s =
      let w1 = (env.canceled s.1).1 in
      let w2 = (env.clock w1).1 in choose (env.canceled s.1).0 (is_free s c) w1 refl
    where
      choose :
          (aborted free : Bool) (w1 : W)
          → is_free s c ≡ free
          → let w2 = (env.clock (env.canceled s.1).1).1 in
            Does s c before (
              if aborted
              then (done (err context_canceled), (s.0, w1))
              else if free
              then call env c before (s.0, w2)
              else skip env c (s.0, w2))
      choose true free w1 e = tt
      choose false true w1 e =
          let w2 = (env.clock (env.canceled s.1).1).1 in
          let start = env.clock w2 in
          let outcome = env.run c.provider c.model start.1 in
          let end = env.clock outcome.1 in
          unfold call in on_outcome-Takes s c before (end.0 - start.0) end.1 outcome.0 e refl
      choose false false w1 e = unfold skip in (refl, refl, inl (e, refl, refl, refl))

  -- When Execute succeeds, the result is the response of one candidate's provider, and every candidate
  -- before it has one attempt in the result, in order. At its turn the candidate was in cooldown by
  -- the tracker as the attempts before it left it, and was skipped without a change to the tracker;
  -- or it was not, its provider was called and returned an error that allows a fallback, and the
  -- tracker recorded the failure. The provider that answered was not in cooldown either, and from
  -- then on is available at any time, with no failure counted. When the chain is exhausted, every
  -- candidate has such an attempt.
  pub execute-Ends :
      (cs : List FallbackCandidate) (s : CooldownTracker × W)
      → Ends PassedOver Answered cs [] s (execute env cs s).0 (execute env cs s).1
  unfolding execute
  execute-Ends [] s = tt
  execute-Ends (c ∷ cs) s =
      try_each-Ends PassedOver Answered (attempt env) attempt-Takes (c ∷ cs) [] s
