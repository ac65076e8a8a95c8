-- ===== src/Routing/AgentId/Laws.antt =====
-- What an identifier of pkg/routing/agent_id.go looks like.
use nook_claw.Prelude.{
  ℕ, zero, suc, ◌≤◌, ◌≡◌, refl, ap, Bool, true, false, [], ◌∷◌, length, take, arith, ◌==◌,
  Bool-cases, inl, inr,
}
use nook_claw.Prelude.Text.{
  Text, is_empty, trim_space, trim_left, trim_right, to_lower, is_space, lower,
}
use nook_claw.Routing.AgentId.{
  is_id_char, all_id_chars, is_valid_id, collapse_invalid, trim_leading_dashes,
  trim_trailing_dashes, sanitize_id, normalize_id, normalize_agent_id, normalize_account_id,
  default_agent_id, default_account_id, or_default,
}

abbrev pub starts_with_dash : Text → Bool
starts_with_dash [] = false
starts_with_dash (c ∷ cs) = c == b'-'

-- 1 to 64 of the characters a to z, 0 to 9, underscore and dash, the first of which is no dash.
pub record IsId (t : Text) : Type 0 where
  pub chars : all_id_chars t ≡ true
  pub long : 1 ≤ length t
  pub short : length t ≤ 64
  pub led : starts_with_dash t ≡ false

collapse-chars : (in_run : Bool) (t : Text) → all_id_chars (collapse_invalid in_run t) ≡ true
unfolding collapse_invalid all_id_chars
collapse-chars in_run [] = refl
collapse-chars in_run (c ∷ cs) = ground (arith, collapse-chars false cs, collapse-chars true cs)

leading-chars : (t : Text) → all_id_chars t ≡ true → all_id_chars (trim_leading_dashes t) ≡ true
unfolding trim_leading_dashes all_id_chars
leading-chars [] h = refl
leading-chars (c ∷ cs) h = ground (arith, leading-chars cs)

leading-led : (t : Text) → starts_with_dash (trim_leading_dashes t) ≡ false
unfolding trim_leading_dashes
leading-led [] = refl
leading-led (c ∷ cs) = ground (arith, leading-led cs)

trailing-chars : (t : Text) → all_id_chars t ≡ true → all_id_chars (trim_trailing_dashes t) ≡ true
unfolding trim_trailing_dashes all_id_chars
trailing-chars [] h = refl
trailing-chars (c ∷ cs) h = ground (arith, trailing-chars cs)

trailing-led :
    (t : Text) → starts_with_dash t ≡ false → starts_with_dash (trim_trailing_dashes t) ≡ false
unfolding trim_trailing_dashes
trailing-led [] h = refl
trailing-led (c ∷ cs) h = ground arith

take-chars : (n : ℕ) (t : Text) → all_id_chars t ≡ true → all_id_chars (take n t) ≡ true
unfolding all_id_chars
take-chars zero t h = refl
take-chars (suc n) [] h = refl
take-chars (suc n) (c ∷ cs) h = ground (arith, take-chars n cs)

take-led : (n : ℕ) (t : Text) → starts_with_dash t ≡ false → starts_with_dash (take n t) ≡ false
take-led zero t h = refl
take-led (suc n) [] h = refl
take-led (suc n) (c ∷ cs) h = h

length-take : (n : ℕ) (t : Text) → length (take n t) ≤ n
length-take zero t = omega arith
length-take (suc n) [] = omega arith
length-take (suc n) (c ∷ cs) = omega (arith, length-take n cs)

pub take_all : (n : ℕ) (t : Text) → length t ≤ n → take n t ≡ t
take_all zero [] h = refl
take_all zero (c ∷ cs) h = absurd (omega arith)
take_all (suc n) [] h = refl
take_all (suc n) (c ∷ cs) h = ap (◌∷◌ c) (take_all n cs (omega arith))

or_default-IsId :
    (default t : Text)
    → IsId default
    → all_id_chars t ≡ true
    → length t ≤ 64
    → starts_with_dash t ≡ false
    → IsId (or_default default t)
or_default-IsId default [] h chars short led = h
or_default-IsId default (c ∷ cs) h chars short led = record {
  chars = chars;
  long = omega arith;
  short = short;
  led = led;
}

sanitize-IsId : (default t : Text) → IsId default → IsId (or_default default (sanitize_id t))
unfolding sanitize_id
sanitize-IsId default t h =
    let collapsed = collapse_invalid false t in
    let led = trim_leading_dashes collapsed in
    or_default-IsId default _ h
      (take-chars 64 (trim_trailing_dashes led)
        (trailing-chars led (leading-chars collapsed (collapse-chars false t))))
      (length-take 64 (trim_trailing_dashes led))
      (take-led 64 (trim_trailing_dashes led) (trailing-led led (leading-led collapsed)))

valid-IsId : (t : Text) → is_valid_id t ≡ true → IsId t
unfolding is_valid_id all_id_chars
valid-IsId [] h = absurd (ground arith)
valid-IsId (c ∷ cs) h = record {
  chars = ground arith;
  long = omega arith;
  short = ground arith;
  led = ground arith;
}

normalize_id-IsId : (default id : Text) → IsId default → IsId (normalize_id default id)
unfolding normalize_id
normalize_id-IsId default id h =
    let t = to_lower (trim_space id) in
    elim (Bool-cases (is_empty (trim_space id))) [
      | inl e ↦ rw e h
      | inr e ↦ elim (Bool-cases (is_valid_id t)) [
        | inl v ↦ rw (e, v) (valid-IsId t v)
        | inr v ↦ rw (e, v) (sanitize-IsId default t h)
      ]
    ]

-- Whatever the configuration or a platform gives, the normalised agent and account ids have 1 to
-- 64 characters, all of them lower-case letters, digits, underscores or dashes, and begin with no
-- dash.
pub normalize-IsId : (id : Text) → IsId (normalize_agent_id id) × IsId (normalize_account_id id)
unfolding normalize_agent_id normalize_account_id all_id_chars
normalize-IsId id = (
  normalize_id-IsId default_agent_id id
      (record { chars = refl; long = omega arith; short = omega arith; led = refl }),
  normalize_id-IsId default_account_id id
      (record { chars = refl; long = omega arith; short = omega arith; led = refl }),
)

pub to_lower-id : (t : Text) → all_id_chars t ≡ true → to_lower t ≡ t
unfolding to_lower lower all_id_chars
to_lower-id [] h = refl
to_lower-id (c ∷ cs) h = ground (arith, to_lower-id cs)

space-id : (c : ℕ) → is_id_char c ≡ true → is_space c ≡ false
unfolding is_space
space-id c h = ground arith

trim_right-id : (t : Text) → all_id_chars t ≡ true → trim_right t ≡ t
unfolding trim_right all_id_chars
trim_right-id [] h = refl
trim_right-id (c ∷ cs) h = ground (arith, trim_right-id cs, space-id c)

pub trim_space-id : (t : Text) → all_id_chars t ≡ true → trim_space t ≡ t
unfolding trim_space trim_left all_id_chars
trim_space-id [] h = refl
trim_space-id (c ∷ cs) h = ground (arith, trim_right-id (c ∷ cs), space-id c)
