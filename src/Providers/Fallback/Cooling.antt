-- ===== src/Providers/Fallback/Cooling.antt =====
-- The chain of pkg/providers/fallback.go on candidates in cooldown.
use nook_claw.Prelude.{ℕ, ◌<◌, ◌≡◌, refl, Bool, true, false, List, [], ◌∷◌, All, if◌then◌else◌}
use nook_claw.Prelude.Text.{Text}
use nook_claw.Providers.Cooldown.{CooldownTracker, is_available}
use nook_claw.Providers.ModelRef.{FallbackCandidate}
use nook_claw.Providers.Fallback.Loop.{
  FallbackAttempt, Returned, Step, done, err, context_canceled, resume, try_each,
}
use nook_claw.Providers.Fallback.{Outcome, Env, attempt, skip, execute}

module _ {W R : Type 0} (env : Env W R) (run' : Text → Text → W → Outcome R × W) where
  -- The same environment with other answers of the providers.
  abbrev pub other_run : Env W R
  other_run = record env { run = run' }

  module _ (deadline : ℕ) (before_deadline : (w : W) → (env.clock w).0 < deadline)
      (ct : CooldownTracker) where
    -- Unavailable at every time before the deadline.
    abbrev pub IsCooling : FallbackCandidate → Type 0
    IsCooling c = (now : ℕ) → now < deadline → is_available now c.provider ct ≡ false

    -- A round on a candidate that cools: the same for every provider, and it leaves the tracker.
    abbrev quiet : FallbackCandidate → W → Bool → Step R × (CooldownTracker × W)
    quiet c w aborted =
        let w1 = (env.canceled w).1 in
        if aborted
        then (done (err context_canceled), (ct, w1))
        else skip env c (ct, (env.clock w1).1)

    attempt_cooling :
        (c : FallbackCandidate) (before : List FallbackAttempt) (w : W)
        → IsCooling c
        → (attempt other_run c before (ct, w) ≡ quiet c w (env.canceled w).0)
          × (attempt env c before (ct, w) ≡ quiet c w (env.canceled w).0)
    unfolding attempt skip
    attempt_cooling c before w cooling =
        let w1 = (env.canceled w).1 in
        rw (cooling (env.clock w1).0 (before_deadline w1)) (refl, refl)

    abbrev Same : List FallbackCandidate → List FallbackAttempt → W → Type 0
    Same cs before w =
        (try_each (attempt other_run) cs before (ct, w) ≡ try_each (attempt env) cs before (ct, w))
        × ((try_each (attempt env) cs before (ct, w)).1.0 ≡ ct)

    abbrev resumed :
        Env W R
        → List FallbackCandidate
        → List FallbackAttempt
        → Step R × (CooldownTracker × W)
        → Returned R × (CooldownTracker × W)
    resumed e cs before p = resume p.0 before p.1 (try_each (attempt e) cs)

    try_each_cooling :
        (cs : List FallbackCandidate) (before : List FallbackAttempt) (w : W)
        → All IsCooling cs
        → Same cs before w
    unfolding try_each skip
    try_each_cooling [] before w h = (refl, refl)
    try_each_cooling (c ∷ cs) before w h =
        let same = attempt_cooling c before w h.0 in
        let ih = λ (more : List FallbackAttempt) (v : W). try_each_cooling cs more v h.1 in
        rw (same.0, same.1) (settle (env.canceled w).0 ih)
      where
        settle :
            (aborted : Bool)
            → ((more : List FallbackAttempt) (v : W) → Same cs more v)
            → (resumed other_run cs before (quiet c w aborted)
                ≡ resumed env cs before (quiet c w aborted))
              × ((resumed env cs before (quiet c w aborted)).1.0 ≡ ct)
        settle true ih = (refl, refl)
        settle false ih = ih _ _

    -- While every candidate is in cooldown, Execute asks no provider: whatever the providers would
    -- answer, it returns the same, and it leaves the tracker as it was.
    pub execute_cooling :
        (cs : List FallbackCandidate) (w : W)
        → All IsCooling cs
        → (execute other_run cs (ct, w) ≡ execute env cs (ct, w))
          × ((execute env cs (ct, w)).1.0 ≡ ct)
    unfolding execute
    execute_cooling [] w h = (refl, refl)
    execute_cooling (c ∷ cs) w h = try_each_cooling (c ∷ cs) [] w h
