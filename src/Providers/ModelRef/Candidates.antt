-- ===== src/Providers/ModelRef/Candidates.antt =====
-- ResolveCandidatesWithLookup of pkg/providers/fallback.go against the references it is given.
use nook_claw.Prelude.{
  ◌≡◌, refl, true, false, ◌||◌, inl, inr, Option, none, some, List, [], ◌∷◌, map, subst, sym, arith,
  All, Bool-cases,
}
use nook_claw.Prelude.Text.{Text, text_eq_iff, text_eq_refl}
use nook_claw.Providers.ModelRef.{
  ModelRef, ModelConfig, FallbackCandidate, Lookup, is_seen, model_key, ref_key, to_candidate,
  reference, add_candidates, resolve_candidates_with_lookup,
}

abbrev pub key_of : FallbackCandidate → Text
key_of c = model_key c.provider c.model

abbrev pub keys : List FallbackCandidate → List Text
keys = map key_of

abbrev pub AllDistinct : List Text → Type 0
AllDistinct [] = Unit
AllDistinct (k ∷ ks) = (is_seen k ks ≡ false) × AllDistinct ks

abbrev Fresh : List Text → List FallbackCandidate → Type 0
Fresh seen = All (λ c. is_seen (key_of c) seen ≡ false)

Fresh-cons :
    (k : Text) (seen : List Text) (cs : List FallbackCandidate)
    → Fresh (k ∷ seen) cs
    → Fresh seen cs × (is_seen k (keys cs) ≡ false)
unfolding is_seen
Fresh-cons k seen [] h = (tt, refl)
Fresh-cons k seen (c ∷ cs) h =
    ground (arith, text_eq_iff k (key_of c), text_eq_iff (key_of c) k, Fresh-cons k seen cs h.1)

add_candidates-distinct :
    (seen : List Text) (refs : List (Option ModelRef))
    → Fresh seen (add_candidates seen refs) × AllDistinct (keys (add_candidates seen refs))
unfolding add_candidates
add_candidates-distinct seen [] = (tt, tt)
add_candidates-distinct seen (none ∷ refs) = add_candidates-distinct seen refs
add_candidates-distinct seen (some ref ∷ refs) = elim (Bool-cases (is_seen (ref_key ref) seen)) [
  | inl old ↦ rw old (add_candidates-distinct seen refs)
  | inr new ↦
      let k = ref_key ref in
      let ih = add_candidates-distinct (k ∷ seen) refs in
      let fresh = Fresh-cons k seen (add_candidates (k ∷ seen) refs) ih.0 in
      rw new ((new, fresh.0), (fresh.1, ih.1))
]

-- A reference that was parsed has its key among the keys.
abbrev pub Covers : List Text → Option ModelRef → Type 0
Covers ks none = Unit
Covers ks (some ref) = is_seen (ref_key ref) ks ≡ true

abbrev CoveredBy : List Text → List Text → Option ModelRef → Type 0
CoveredBy seen ks none = Unit
CoveredBy seen ks (some ref) = is_seen (ref_key ref) seen || is_seen (ref_key ref) ks ≡ true

CoveredBy-shift :
    (k : Text) (seen ks : List Text) (refs : List (Option ModelRef))
    → All (CoveredBy (k ∷ seen) ks) refs
    → All (CoveredBy seen (k ∷ ks)) refs
unfolding is_seen
CoveredBy-shift k seen ks [] h = tt
CoveredBy-shift k seen ks (none ∷ refs) h = (tt, CoveredBy-shift k seen ks refs h.1)
CoveredBy-shift k seen ks (some ref ∷ refs) h = (ground arith, CoveredBy-shift k seen ks refs h.1)

module _ (seen : List Text) (ref : ModelRef) (refs : List (Option ModelRef)) where
  add_candidates_old :
      is_seen (ref_key ref) seen ≡ true
      → add_candidates seen (some ref ∷ refs) ≡ add_candidates seen refs
  unfolding add_candidates
  add_candidates_old old = rw old

  add_candidates_new :
      is_seen (ref_key ref) seen ≡ false
      → add_candidates seen (some ref ∷ refs)
        ≡ to_candidate ref ∷ add_candidates (ref_key ref ∷ seen) refs
  unfolding add_candidates
  add_candidates_new new = rw new

add_candidates-none :
    (seen : List Text) (refs : List (Option ModelRef))
    → All (CoveredBy seen (keys (add_candidates seen refs))) (none ∷ refs)
    → All (CoveredBy seen (keys (add_candidates seen (none ∷ refs)))) (none ∷ refs)
unfolding add_candidates
add_candidates-none seen refs h = h

add_candidates_complete :
    (seen : List Text) (refs : List (Option ModelRef))
    → All (CoveredBy seen (keys (add_candidates seen refs))) refs
add_candidates_complete seen [] = tt
add_candidates_complete seen (none ∷ refs) =
    add_candidates-none seen refs (tt, add_candidates_complete seen refs)
add_candidates_complete seen (some ref ∷ refs) =
    let Goal : List FallbackCandidate → Type 0 =
      λ cs. All (CoveredBy seen (keys cs)) (some ref ∷ refs) in
    elim (Bool-cases (is_seen (ref_key ref) seen)) [
      | inl old ↦
          subst Goal (sym (add_candidates_old seen ref refs old))
            (ground (arith, old), add_candidates_complete seen refs)
      | inr new ↦
          let k = ref_key ref in
          let ks = keys (add_candidates (k ∷ seen) refs) in
          subst Goal (sym (add_candidates_new seen ref refs new)) (
            unfold is_seen in ground (arith, text_eq_refl k),
            CoveredBy-shift k seen ks refs (add_candidates_complete (k ∷ seen) refs),
          )
    ]

All-CoveredBy-nil :
    (ks : List Text) (refs : List (Option ModelRef))
    → All (CoveredBy [] ks) refs
    → All (Covers ks) refs
unfolding is_seen
All-CoveredBy-nil ks [] h = tt
All-CoveredBy-nil ks (none ∷ refs) h = (tt, All-CoveredBy-nil ks refs h.1)
All-CoveredBy-nil ks (some ref ∷ refs) h = (h.0, All-CoveredBy-nil ks refs h.1)

-- The candidates are some of the references, in their order.
pub data InOrder : List FallbackCandidate → List (Option ModelRef) → Type 0 where
  nil : InOrder [] []
  skip :
      {cs : List FallbackCandidate} {refs : List (Option ModelRef)} (o : Option ModelRef)
      → InOrder cs refs
      → InOrder cs (o ∷ refs)
  keep :
      {cs : List FallbackCandidate} {refs : List (Option ModelRef)} (ref : ModelRef)
      → InOrder cs refs
      → InOrder (to_candidate ref ∷ cs) (some ref ∷ refs)

add_candidates-InOrder :
    (seen : List Text) (refs : List (Option ModelRef)) → InOrder (add_candidates seen refs) refs
unfolding add_candidates
add_candidates-InOrder seen [] = nil
add_candidates-InOrder seen (none ∷ refs) = skip none (add_candidates-InOrder seen refs)
add_candidates-InOrder seen (some ref ∷ refs) = elim (Bool-cases (is_seen (ref_key ref) seen)) [
  | inl old ↦ rw old (skip (some ref) (add_candidates-InOrder seen refs))
  | inr new ↦ rw new (keep ref (add_candidates-InOrder (ref_key ref ∷ seen) refs))
]

-- The references of a configuration: its primary model's first, then those of its fallbacks.
abbrev pub references : ModelConfig → Text → Lookup → List (Option ModelRef)
references cfg default_provider lookup =
    map (reference lookup default_provider) (cfg.primary ∷ cfg.fallbacks)

-- The candidates are references of the configuration in its order, no two of them have the same
-- key, and the key of every reference that parses is the key of a candidate.
pub resolve_candidates_dedupe :
    (cfg : ModelConfig) (default_provider : Text) (lookup : Lookup)
    → let cs = resolve_candidates_with_lookup cfg default_provider lookup in
      let refs = references cfg default_provider lookup in
      InOrder cs refs × AllDistinct (keys cs) × All (Covers (keys cs)) refs
unfolding resolve_candidates_with_lookup
resolve_candidates_dedupe cfg default_provider lookup =
    let refs = references cfg default_provider lookup in
    (
      add_candidates-InOrder [] refs,
      (add_candidates-distinct [] refs).1,
      All-CoveredBy-nil _ refs (add_candidates_complete [] refs),
    )
