-- ===== src/Routing/AgentId/Normal.antt =====
-- Identifiers of pkg/routing/agent_id.go that are normalised again.
use nook_claw.Prelude.{
  ℕ, zero, suc, ◌<◌, ◌≡◌, ◌⊎◌, refl, sym, ap, ◌∙◌, true, false, [], ◌∷◌, length, take, arith,
  Bool-cases, inl, inr, if◌then◌else◌,
}
use nook_claw.Prelude.Text.{Text, is_empty, trim_space, to_lower}
use nook_claw.Routing.AgentId.{
  all_id_chars, is_valid_id, collapse_invalid, trim_leading_dashes, trim_trailing_dashes,
  sanitize_id, normalize_id, normalize_agent_id, default_agent_id, or_default,
}
use nook_claw.Routing.AgentId.Laws.{
  IsId, normalize-IsId, starts_with_dash, take_all, to_lower-id, trim_space-id,
}

collapse-id : (t : Text) → all_id_chars t ≡ true → collapse_invalid false t ≡ t
unfolding collapse_invalid all_id_chars
collapse-id [] h = refl
collapse-id (c ∷ cs) h = ground (arith, collapse-id cs)

leading-id : (t : Text) → starts_with_dash t ≡ false → trim_leading_dashes t ≡ t
unfolding trim_leading_dashes
leading-id [] h = refl
leading-id (c ∷ cs) h = ground arith

trailing_idem : (t : Text) → trim_trailing_dashes (trim_trailing_dashes t) ≡ trim_trailing_dashes t
unfolding trim_trailing_dashes
trailing_idem [] = refl
trailing_idem (c ∷ cs) = ground (arith, trailing_idem cs)

take_short : (n : ℕ) (t : Text) → length (take n t) < n → take n t ≡ t
take_short zero t h = absurd (omega arith)
take_short (suc n) [] h = refl
take_short (suc n) (c ∷ cs) h = ap (◌∷◌ c) (take_short n cs (omega arith))

-- Valid as it stands, or without a dash at the end.
abbrev IsTidy : Text → Type 0
IsTidy t = (is_valid_id t ≡ true) ⊎ (trim_trailing_dashes t ≡ t)

sanitize-IsTidy :
    (default t : Text)
    → is_valid_id default ≡ true
    → length (or_default default (sanitize_id t)) < 64
    → IsTidy (or_default default (sanitize_id t))
unfolding sanitize_id
sanitize-IsTidy default t v h =
    let trailing = trim_trailing_dashes (trim_leading_dashes (collapse_invalid false t)) in
    settle (take 64 trailing) (λ s. take_short 64 trailing s)
      (trailing_idem (trim_leading_dashes (collapse_invalid false t))) h
  where
    settle :
        {u : Text} (r : Text)
        → (length r < 64 → r ≡ u)
        → trim_trailing_dashes u ≡ u
        → length (or_default default r) < 64
        → IsTidy (or_default default r)
    settle [] whole e h = inl v
    settle (c ∷ cs) whole e h = inr (ap trim_trailing_dashes (whole h) ∙ e ∙ sym (whole h))

normalize_id-IsTidy :
    (default id : Text)
    → is_valid_id default ≡ true
    → length (normalize_id default id) < 64
    → IsTidy (normalize_id default id)
unfolding normalize_id
normalize_id-IsTidy default id h =
    let t = to_lower (trim_space id) in
    elim (Bool-cases (is_empty (trim_space id))) [
      | inl e ↦ rw e (λ short. inl h)
      | inr e ↦ elim (Bool-cases (is_valid_id t)) [
        | inl v ↦ rw (e, v) (λ short. inl v)
        | inr v ↦ rw (e, v) (λ short. sanitize-IsTidy default t h short)
      ]
    ]

normalize_tidy : (default t : Text) → IsId t → IsTidy t → normalize_id default t ≡ t
unfolding normalize_id sanitize_id is_empty
normalize_tidy default t h tidy =
    rw (trim_space-id t h.chars, to_lower-id t h.chars, collapse-id t h.chars, leading-id t h.led)
      (settle t h tidy)
  where
    settle :
        (t : Text)
        → IsId t
        → IsTidy t
        → (if is_empty t
            then default
            else if is_valid_id t
            then t
            else or_default default (take 64 (trim_trailing_dashes t)))
          ≡ t
    settle [] h tidy = absurd (omega (arith, h.long))
    settle (c ∷ cs) h (inl v) = rw v
    settle (c ∷ cs) h (inr e) = ground (arith, e, take_all 64 (c ∷ cs) h.short)

-- An agent id that was normalised and not cut off at 64 characters stays as it is when it is
-- normalised again, as the code does on the way from a binding to a session key.
pub normalize_agent_id_idem :
    (id : Text)
    → length (normalize_agent_id id) < 64
    → normalize_agent_id (normalize_agent_id id) ≡ normalize_agent_id id
unfolding normalize_agent_id is_valid_id
normalize_agent_id_idem id h =
    normalize_tidy default_agent_id (normalize_id default_agent_id id) (normalize-IsId id).0
      (normalize_id-IsTidy default_agent_id id refl h)
