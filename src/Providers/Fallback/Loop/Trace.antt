-- ===== src/Providers/Fallback/Loop/Trace.antt =====
-- The loop of the fallback chain with the state before and after each of its rounds, for any round.
use nook_claw.Prelude.{◌≡◌, refl, sym, ap, ◌∙◌, List, [], ◌∷◌, ◌++◌}
use mathlib.Core.List.{append_assoc, append-nil}
use nook_claw.Providers.ModelRef.{FallbackCandidate}
use nook_claw.Providers.Fallback.Loop.{
  FallbackAttempt, FallbackResult, exhausted, Returned, ok, err, Step, done, passed, Round, resume,
  try_each,
}

module _ {S R : Type 0} (P : S → FallbackCandidate → FallbackAttempt → S → Type 0)
    (Q : S → FallbackResult R → S → Type 0) where
  -- One attempt for each candidate, in order, each from the state that the one before it left.
  abbrev pub Trace : List FallbackCandidate → List FallbackAttempt → S → S → Type 0
  Trace [] [] s t = s ≡ t
  Trace (c ∷ cs) (a ∷ as') s t = (u : S) × P s c a u × Trace cs as' u t
  Trace _ _ s t = ⊥

  -- What a round does to a state: it leaves an attempt that `P` allows, a result for its candidate
  -- that `Q` allows, or an error that is not the loop's own.
  abbrev pub Takes : FallbackCandidate → List FallbackAttempt → S → Step R → S → Type 0
  Takes c before s (passed a) t = P s c a t
  Takes c before s (done (ok r)) t =
      (r.attempts ≡ before) × (r.provider ≡ c.provider) × (r.model ≡ c.model) × Q s r t
  Takes c before s (done (err (exhausted as'))) t = ⊥
  Takes c before s (done (err _)) t = Unit

  -- A result comes from one candidate, after one attempt for each candidate before it; the chain
  -- is exhausted with one attempt for every candidate.
  abbrev pub Ends : List FallbackCandidate → List FallbackAttempt → S → Returned R → S → Type 0
  Ends cs before s (ok r) t =
      (tried : List FallbackCandidate) × (new : List FallbackAttempt) × (c : FallbackCandidate)
      × (rest : List FallbackCandidate) × (u : S) × (cs ≡ tried ++ c ∷ rest)
      × (r.attempts ≡ before ++ new)
      × Trace tried new s u
      × (r.provider ≡ c.provider)
      × (r.model ≡ c.model)
      × Q u r t
  Ends cs before s (err (exhausted all)) t =
      (new : List FallbackAttempt) × (all ≡ before ++ new) × Trace cs new s t
  Ends cs before s (err _) t = Unit

  Ends-cons :
      (c : FallbackCandidate) (a : FallbackAttempt) (cs : List FallbackCandidate)
      (before : List FallbackAttempt) (s u : S) (r : Returned R) (t : S)
      → P s c a u
      → Ends cs (before ++ a ∷ []) u r t
      → Ends (c ∷ cs) before s r t
  Ends-cons c a cs before s u (ok r) t p
        (tried, new, d, rest, v, split, attempts, trace, provider, model, q) =
      (
        c ∷ tried,
        a ∷ new,
        d,
        rest,
        v,
        ap (◌∷◌ c) split,
        attempts ∙ append_assoc before (a ∷ []) new,
        (u, p, trace),
        provider,
        model,
        q,
      )
  Ends-cons c a cs before s u (err (exhausted all)) t p (new, e, trace) =
      (a ∷ new, e ∙ append_assoc before (a ∷ []) new, (u, p, trace))
  Ends-cons c a cs before s u (err _) t p e = tt

  resume-Ends :
      (c : FallbackCandidate) (cs : List FallbackCandidate) (before : List FallbackAttempt) (s : S)
      (step : Step R) (u : S) (next : List FallbackAttempt → S → Returned R × S)
      → Takes c before s step u
      → ((more : List FallbackAttempt) (v : S) → Ends cs more v (next more v).0 (next more v).1)
      → Ends (c ∷ cs) before s (resume step before u next).0 (resume step before u next).1
  resume-Ends c cs before s (passed a) u next p ih =
      let (r, t) = next (before ++ a ∷ []) u in
      Ends-cons c a cs before s u r t p (ih (before ++ a ∷ []) u)
  resume-Ends c cs before s (done (ok r)) u next (kept, provider, model, q) ih =
      ([], [], c, cs, s, refl, kept ∙ sym (append-nil before), refl, provider, model, q)
  resume-Ends c cs before s (done (err (exhausted all))) u next p ih = absurd p
  resume-Ends c cs before s (done (err _)) u next p ih = tt

  pub try_each-Ends :
      (attempt : Round S R)
      → ((c : FallbackCandidate) (before : List FallbackAttempt) (s : S)
          → Takes c before s (attempt c before s).0 (attempt c before s).1)
      → (cs : List FallbackCandidate) (before : List FallbackAttempt) (s : S)
      → Ends cs before s (try_each attempt cs before s).0 (try_each attempt cs before s).1
  unfolding try_each
  try_each-Ends attempt good [] before s = ([], sym (append-nil before), refl)
  try_each-Ends attempt good (c ∷ cs) before s =
      let (step, t) = attempt c before s in
      resume-Ends c cs before s step t (try_each attempt cs) (good c before s)
        (try_each-Ends attempt good cs)
