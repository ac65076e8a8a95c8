-- ===== src/Providers/Classify/Status.antt =====
-- The size of what extractHTTPStatus of pkg/providers/error_classifier.go reads.
use mathlib.Core.Bool.{xor}
use nook_claw.Prelude.{
  ℕ, suc, ◌<◌, ◌≡◌, refl, Bool, true, false, inl, inr, Option, none, some, List, [], ◌∷◌, arith,
  All, length, Option-cases, ◌∙◌, subst,
}
use nook_claw.Prelude.Text.{Text}
use nook_claw.Prelude.Regexp.{
  Pattern, one, many, maybe, grouped, word_boundary, digit, match_at, find_from, find_submatch,
  or_else, group_with, one_of, is_word, next_is_word,
}
use nook_claw.Providers.Classify.{extract_http_status, first_status, parse_digits}
use nook_claw.Providers.Classify.Patterns.{http_status_patterns}

abbrev GroupsAreDigits : Pattern → Type 0
GroupsAreDigits [] = Unit
GroupsAreDigits (grouped p ∷ re) = ((c : ℕ) → p c ≡ true → digit c ≡ true) × GroupsAreDigits re
GroupsAreDigits (_ ∷ re) = GroupsAreDigits re

abbrev group_length : Pattern → ℕ
group_length [] = 0
group_length (grouped p ∷ re) = suc (group_length re)
group_length (_ ∷ re) = group_length re

abbrev AreDigits : ℕ → Option Text → Type 0
AreDigits n none = Unit
AreDigits n (some t) = (length t ≡ n) × All (λ c. digit c ≡ true) t

or_else-AreDigits :
    (n : ℕ) (a b : Option Text) → AreDigits n a → AreDigits n b → AreDigits n (or_else a b)
or_else-AreDigits n none b h k = k
or_else-AreDigits n (some t) b h k = h

group_with-AreDigits :
    (n c : ℕ) (o : Option Text)
    → digit c ≡ true
    → AreDigits n o
    → AreDigits (suc n) (group_with c o)
group_with-AreDigits n c none d h = tt
group_with-AreDigits n c (some t) d h = (omega arith, (d, h.1))

abbrev branch : Bool → Option Text → Option Text → Option Text
branch b x y = elim b [ true ↦ x | false ↦ y ]

branch-AreDigits :
    (n : ℕ) (b : Bool) (x y : Option Text)
    → (b ≡ true → AreDigits n x)
    → AreDigits n y
    → AreDigits n (branch b x y)
branch-AreDigits n true x y h k = h refl
branch-AreDigits n false x y h k = k

match_at-AreDigits :
    (re : Pattern) (before : Bool) (s : Text)
    → GroupsAreDigits re
    → AreDigits (group_length re) (match_at re before s)
unfolding match_at
match_at-AreDigits [] before s h = (refl, tt)
match_at-AreDigits (word_boundary ∷ re) before s h =
    branch-AreDigits (group_length re) (xor before (next_is_word s)) (match_at re before s) none
      (λ _. match_at-AreDigits re before s h) tt
match_at-AreDigits (one p ∷ re) before [] h = tt
match_at-AreDigits (one p ∷ re) before (c ∷ cs) h =
    branch-AreDigits (group_length re) (p c) (match_at re (is_word c) cs) none
      (λ _. match_at-AreDigits re (is_word c) cs h) tt
match_at-AreDigits (grouped p ∷ re) before [] h = tt
match_at-AreDigits (grouped p ∷ re) before (c ∷ cs) h =
    branch-AreDigits _ _ _ _
      (λ e. group_with-AreDigits _ c _ (h.0 c e) (match_at-AreDigits re (is_word c) cs h.1)) tt
match_at-AreDigits (maybe p ∷ re) before [] h = match_at-AreDigits re before [] h
match_at-AreDigits (maybe p ∷ re) before (c ∷ cs) h =
    branch-AreDigits _ _ _ _
      (λ _.
        or_else-AreDigits _ _ _ (match_at-AreDigits re (is_word c) cs h)
          (match_at-AreDigits re before (c ∷ cs) h))
      (match_at-AreDigits re before (c ∷ cs) h)
match_at-AreDigits (many p ∷ re) before [] h = match_at-AreDigits re before [] h
match_at-AreDigits (many p ∷ re) before (c ∷ cs) h =
    branch-AreDigits _ _ _ _
      (λ _.
        or_else-AreDigits _ _ _ (match_at-AreDigits (many p ∷ re) (is_word c) cs h)
          (match_at-AreDigits re before (c ∷ cs) h))
      (match_at-AreDigits re before (c ∷ cs) h)

find_from-AreDigits :
    (re : Pattern) (before : Bool) (s : Text)
    → GroupsAreDigits re
    → AreDigits (group_length re) (find_from re before s)
unfolding find_from
find_from-AreDigits re before [] h = match_at-AreDigits re before [] h
find_from-AreDigits re before (c ∷ cs) h =
    or_else-AreDigits _ _ _ (match_at-AreDigits re before (c ∷ cs) h)
      (find_from-AreDigits re (is_word c) cs h)

parse_digits-lt : (t : Text) → length t ≡ 3 → All (λ c. digit c ≡ true) t → parse_digits t < 1000
unfolding parse_digits
parse_digits-lt (a ∷ b ∷ c ∷ []) n h = ground arith
parse_digits-lt [] n h = absurd (omega arith)
parse_digits-lt (a ∷ []) n h = absurd (omega arith)
parse_digits-lt (a ∷ b ∷ []) n h = absurd (omega arith)
parse_digits-lt (a ∷ b ∷ c ∷ d ∷ t) n h = absurd (omega arith)

abbrev HasThreeDigits : Pattern → Type 0
HasThreeDigits re = GroupsAreDigits re × (group_length re ≡ 3)

first_status-lt :
    (ps : List Pattern) (msg : Text) → All HasThreeDigits ps → first_status ps msg < 1000
unfolding first_status find_submatch
first_status-lt [] msg h = omega arith
first_status-lt (p ∷ ps) msg h = elim (Option-cases (find_from p false msg)) [
  | inl e ↦ rw (e, first_status) (first_status-lt ps msg h.1)
  | inr (t, e) ↦
      let d = subst (AreDigits (group_length p)) e (find_from-AreDigits p false msg h.0.0) in
      rw (e, first_status) (parse_digits-lt t (d.0 ∙ h.0.1) d.1)
]

same_digit : (c : ℕ) → digit c ≡ true → digit c ≡ true
same_digit c h = h

leading_digit : (c : ℕ) → one_of "345" c ≡ true → digit c ≡ true
leading_digit c h = ground arith

status_patterns-HasThreeDigits : All HasThreeDigits http_status_patterns
unfolding http_status_patterns
status_patterns-HasThreeDigits = (
  ((same_digit, (same_digit, (same_digit, tt))), refl),
  (
    ((same_digit, (same_digit, (same_digit, tt))), refl),
    (((leading_digit, (same_digit, (same_digit, tt))), refl), tt),
  ),
)

-- Whatever the message, the status code that is read from it has three digits at most.
pub extract_http_status-lt : (msg : Text) → extract_http_status msg < 1000
unfolding extract_http_status
extract_http_status-lt msg = first_status-lt http_status_patterns msg status_patterns-HasThreeDigits
