-- ===== src/Providers/Fallback/Loop/Laws.antt =====
-- How the loop of the fallback chain can end, for any round.
use nook_claw.Prelude.{◌≡◌, refl, sym, ap, ◌∙◌, List, [], ◌∷◌, ◌++◌}
use mathlib.Core.List.{append_assoc, append-nil}
use nook_claw.Providers.ModelRef.{FallbackCandidate}
use nook_claw.Providers.Fallback.Loop.{
  FallbackAttempt, FallbackResult, exhausted, Returned, ok, err, Step, done, passed, Round, resume,
  try_each,
}

-- One attempt for each candidate, in order, and `P` of each pair.
abbrev pub Aligned :
    (FallbackCandidate → FallbackAttempt → Type 0)
    → List FallbackCandidate
    → List FallbackAttempt
    → Type 0
Aligned P [] [] = Unit
Aligned P (c ∷ cs) (a ∷ as') = P c a × Aligned P cs as'
Aligned P _ _ = ⊥

module _ {S R : Type 0} (P : FallbackCandidate → FallbackAttempt → Type 0)
    (Q : FallbackResult R → S → Type 0) where
  -- What a round leaves: an attempt that `P` allows, a result for its candidate, or an error that
  -- is not the loop's own.
  abbrev pub IsGoodStep : FallbackCandidate → List FallbackAttempt → Step R → S → Type 0
  IsGoodStep c before (passed a) s = P c a
  IsGoodStep c before (done (ok r)) s =
      (r.attempts ≡ before) × (r.provider ≡ c.provider) × (r.model ≡ c.model) × Q r s
  IsGoodStep c before (done (err (exhausted as'))) s = ⊥
  IsGoodStep c before (done (err _)) s = Unit

  -- A result comes from one candidate, after one attempt for each candidate before it; the chain
  -- is exhausted with one attempt for every candidate.
  abbrev pub Ends : List FallbackCandidate → List FallbackAttempt → Returned R → S → Type 0
  Ends cs before (ok r) s =
      (tried : List FallbackCandidate) × (new : List FallbackAttempt) × (c : FallbackCandidate)
      × (rest : List FallbackCandidate) × (cs ≡ tried ++ c ∷ rest)
      × (r.attempts ≡ before ++ new)
      × Aligned P tried new
      × (r.provider ≡ c.provider)
      × (r.model ≡ c.model)
      × Q r s
  Ends cs before (err (exhausted all)) s =
      (new : List FallbackAttempt) × (all ≡ before ++ new) × Aligned P cs new
  Ends cs before (err _) s = Unit

  Ends-cons :
      (c : FallbackCandidate) (a : FallbackAttempt) (cs : List FallbackCandidate)
      (before : List FallbackAttempt) (r : Returned R) (s : S)
      → P c a
      → Ends cs (before ++ a ∷ []) r s
      → Ends (c ∷ cs) before r s
  Ends-cons c a cs before (ok r) s p
        (tried, new, d, rest, split, attempts, aligned, provider, model, q) =
      (
        c ∷ tried,
        a ∷ new,
        d,
        rest,
        ap (◌∷◌ c) split,
        attempts ∙ append_assoc before (a ∷ []) new,
        (p, aligned),
        provider,
        model,
        q,
      )
  Ends-cons c a cs before (err (exhausted all)) s p (new, e, aligned) =
      (a ∷ new, e ∙ append_assoc before (a ∷ []) new, (p, aligned))
  Ends-cons c a cs before (err _) s p e = tt

  resume-Ends :
      (c : FallbackCandidate) (cs : List FallbackCandidate) (before : List FallbackAttempt)
      (step : Step R) (s : S) (next : List FallbackAttempt → S → Returned R × S)
      → IsGoodStep c before step s
      → ((more : List FallbackAttempt) (t : S) → Ends cs more (next more t).0 (next more t).1)
      → Ends (c ∷ cs) before (resume step before s next).0 (resume step before s next).1
  resume-Ends c cs before (passed a) s next p ih =
      let (r, t) = next (before ++ a ∷ []) s in
      Ends-cons c a cs before r t p (ih (before ++ a ∷ []) s)
  resume-Ends c cs before (done (ok r)) s next (kept, provider, model, q) ih =
      ([], [], c, cs, refl, kept ∙ sym (append-nil before), tt, provider, model, q)
  resume-Ends c cs before (done (err (exhausted all))) s next p ih = absurd p
  resume-Ends c cs before (done (err _)) s next p ih = tt

  pub try_each-Ends :
      (attempt : Round S R)
      → ((c : FallbackCandidate) (before : List FallbackAttempt) (s : S)
          → IsGoodStep c before (attempt c before s).0 (attempt c before s).1)
      → (cs : List FallbackCandidate) (before : List FallbackAttempt) (s : S)
      → Ends cs before (try_each attempt cs before s).0 (try_each attempt cs before s).1
  unfolding try_each
  try_each-Ends attempt good [] before s = ([], sym (append-nil before), tt)
  try_each-Ends attempt good (c ∷ cs) before s =
      let (step, t) = attempt c before s in
      resume-Ends c cs before step t (try_each attempt cs) (good c before s)
        (try_each-Ends attempt good cs)
