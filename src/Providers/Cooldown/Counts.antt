-- ===== src/Providers/Cooldown/Counts.antt =====
-- The counters of pkg/providers/cooldown.go over histories of MarkFailure and MarkSuccess.
use nook_claw.Prelude.{
  ℕ, ◌+◌, ◌-◌, ◌≤◌, ◌≡◌, refl, inl, inr, List, [], ◌∷◌, map, ap, ◌∙◌, arith, length, if◌then◌else◌,
  Option-cases,
}
use nook_claw.Prelude.Text.{Text, text_eq, text_eq_iff, text_eq_refl}
use nook_claw.Prelude.Dict.{lookup, lookup-insert}
use nook_claw.Providers.Types.{
  FailoverReason, auth, rate_limit, billing, timeout, format, overloaded, unknown, unset,
}
use nook_claw.Providers.Cooldown.{
  Counts, CooldownEntry, CooldownTracker, new_cooldown_tracker, cleared, increment, get_or_create,
  reset_stale, count_failure, set_cooldown, failed_entry, mark_failure, mark_success, error_count,
  failure_count,
}

-- A call of the tracker that changes it.
pub data Event : Type 0 where
  failed : ℕ → Text → FailoverReason → Event
  succeeded : Text → Event

abbrev pub step : CooldownTracker → Event → CooldownTracker
step ct (failed now p reason) = mark_failure now p reason ct
step ct (succeeded p) = mark_success p ct

unfoldable pub run : CooldownTracker → List Event → CooldownTracker
run ct [] = ct
run ct (e ∷ es) = run (step ct e) es

abbrev pub total : Counts → ℕ
total c =
    c auth + c rate_limit + c billing + c timeout + c format + c overloaded + c unknown + c unset

total-increment : (r : FailoverReason) (c : Counts) → total (increment r c) ≡ total c + 1
unfolding increment
total-increment auth c = omega arith
total-increment _ c = omega arith

abbrev IsCounted : CooldownEntry → Type 0
IsCounted entry = entry.error_count ≡ total entry.failure_counts

failed_entry-IsCounted :
    (now : ℕ) (p : Text) (reason : FailoverReason) (ct : CooldownTracker)
    → IsCounted (get_or_create ct p)
    → IsCounted (failed_entry now p reason ct)
unfolding failed_entry reset_stale count_failure set_cooldown
failed_entry-IsCounted now p reason ct h = ground (
  arith,
  total-increment reason (get_or_create ct p).failure_counts,
  total-increment reason (λ r. 0),
)

get_or_create-mark_failure :
    (now : ℕ) (q p : Text) (reason : FailoverReason) (ct : CooldownTracker)
    → get_or_create (mark_failure now q reason ct) p
      ≡ (if text_eq q p then failed_entry now q reason ct else get_or_create ct p)
unfolding mark_failure get_or_create
get_or_create-mark_failure now q p reason ct =
    ground (arith, lookup-insert q p (failed_entry now q reason ct) ct.entries)

get_or_create-mark_success :
    (q p : Text) (ct : CooldownTracker)
    → get_or_create (mark_success q ct) p
      ≡ (if text_eq q p then cleared (get_or_create ct q) else get_or_create ct p)
unfolding mark_success get_or_create
get_or_create-mark_success q p ct = elim (Option-cases (lookup q ct.entries)) [
  | inl e ↦ ground (arith, e, text_eq_iff q p)
  | inr (entry, e) ↦ ground (arith, e, lookup-insert q p (cleared entry) ct.entries)
]

abbrev IsConsistent : CooldownTracker → Type 0
IsConsistent ct = (p : Text) → IsCounted (get_or_create ct p)

step-IsConsistent : (e : Event) (ct : CooldownTracker) → IsConsistent ct → IsConsistent (step ct e)
step-IsConsistent (failed now q reason) ct h p =
    rw (get_or_create-mark_failure now q p reason ct)
      (ground (arith, failed_entry-IsCounted now q reason ct (h q), h p))
step-IsConsistent (succeeded q) ct h p =
    rw (get_or_create-mark_success q p ct) (ground (arith, h p))

run-IsConsistent :
    (ct : CooldownTracker) (es : List Event) → IsConsistent ct → IsConsistent (run ct es)
unfolding run
run-IsConsistent ct [] h = h
run-IsConsistent ct (e ∷ es) h = run-IsConsistent (step ct e) es (step-IsConsistent e ct h)

new-IsConsistent : IsConsistent new_cooldown_tracker
unfolding get_or_create lookup
new-IsConsistent p = refl

error_count-get_or_create :
    (p : Text) (ct : CooldownTracker) → error_count p ct ≡ (get_or_create ct p).error_count
unfolding error_count get_or_create
error_count-get_or_create p ct = ground arith

failure_count-get_or_create :
    (p : Text) (r : FailoverReason) (ct : CooldownTracker)
    → failure_count p r ct ≡ (get_or_create ct p).failure_counts r
unfolding failure_count get_or_create
failure_count-get_or_create p r ct = ground arith

-- After any history of failures and successes, at any times, the error count of every provider is
-- the sum of its failure counts over all reasons.
pub error_count-eq-total :
    (es : List Event) (p : Text)
    → error_count p (run new_cooldown_tracker es)
      ≡ total (λ r. failure_count p r (run new_cooldown_tracker es))
error_count-eq-total es p =
    let ct = run new_cooldown_tracker es in
    simp (error_count-get_or_create, failure_count-get_or_create)
      (run-IsConsistent new_cooldown_tracker es new-IsConsistent p)

abbrev pub Failures : Type 0
Failures = List (ℕ × FailoverReason)

-- Each failure comes within the window after the one before it, the first after `last`.
abbrev pub WithinWindow : ℕ → ℕ → Failures → Type 0
WithinWindow window last [] = Unit
WithinWindow window last ((now, reason) ∷ fs) = (now - last ≤ window) × WithinWindow window now fs

abbrev pub failures_of : Text → Failures → List Event
failures_of p = map (λ f. failed f.0 p f.1)

failed_entry-streak :
    (now : ℕ) (p : Text) (reason : FailoverReason) (ct : CooldownTracker)
    → now - (get_or_create ct p).last_failure ≤ ct.failure_window
    → ((failed_entry now p reason ct).error_count ≡ (get_or_create ct p).error_count + 1)
      × ((failed_entry now p reason ct).last_failure ≡ now)
unfolding failed_entry reset_stale count_failure set_cooldown
failed_entry-streak now p reason ct h = ground arith

window-mark_failure :
    (now : ℕ) (p : Text) (reason : FailoverReason) (ct : CooldownTracker)
    → (mark_failure now p reason ct).failure_window ≡ ct.failure_window
unfolding mark_failure
window-mark_failure now p reason ct = refl

get_or_create-mark_failure_self :
    (now : ℕ) (p : Text) (reason : FailoverReason) (ct : CooldownTracker)
    → get_or_create (mark_failure now p reason ct) p ≡ failed_entry now p reason ct
get_or_create-mark_failure_self now p reason ct =
    ground (arith, get_or_create-mark_failure now p p reason ct, text_eq_refl p)

streak_from :
    (p : Text) (ct : CooldownTracker) (fs : Failures)
    → WithinWindow ct.failure_window (get_or_create ct p).last_failure fs
    → (get_or_create (run ct (failures_of p fs)) p).error_count
      ≡ (get_or_create ct p).error_count + length fs
unfolding run
streak_from p ct [] h = omega arith
streak_from p ct ((now, reason) ∷ fs) h =
    let self = get_or_create-mark_failure_self now p reason ct in
    let counted = failed_entry-streak now p reason ct h.0 in
    let window = window-mark_failure now p reason ct in
    omega (
      arith,
      ap (λ e. e.error_count) self,
      counted.0,
      streak_from p (mark_failure now p reason ct) fs (rw (self, window, counted.1) h.1),
    )

failed_entry-first :
    (now : ℕ) (p : Text) (reason : FailoverReason) (ct : CooldownTracker)
    → (get_or_create ct p).error_count ≡ 0
    → ((failed_entry now p reason ct).error_count ≡ 1)
      × ((failed_entry now p reason ct).last_failure ≡ now)
unfolding failed_entry reset_stale count_failure set_cooldown
failed_entry-first now p reason ct h = ground arith

window-mark_success :
    (p : Text) (ct : CooldownTracker) → (mark_success p ct).failure_window ≡ ct.failure_window
unfolding mark_success
window-mark_success p ct = ground arith

-- After a success, failures in a row that each come within the failure window of the one before
-- count up one by one, whatever their reasons and however long ago the provider failed before.
pub streak_after_success :
    (ct : CooldownTracker) (p : Text) (now : ℕ) (reason : FailoverReason) (fs : Failures)
    → WithinWindow ct.failure_window now fs
    → error_count p (run ct (succeeded p ∷ failures_of p ((now, reason) ∷ fs))) ≡ length fs + 1
unfolding run
streak_after_success ct p now reason fs h =
    let done = mark_success p ct in
    let start = mark_failure now p reason done in
    let self = get_or_create-mark_failure_self now p reason done in
    let first = failed_entry-first now p reason done (first_zero ct p) in
    let window = window-mark_failure now p reason done ∙ window-mark_success p ct in
    omega (
      arith,
      error_count-get_or_create p (run start (failures_of p fs)),
      ap (λ e. e.error_count) self,
      first.0,
      streak_from p start fs (rw (self, window, first.1) h),
    )
  where
    first_zero :
        (ct : CooldownTracker) (p : Text) → (get_or_create (mark_success p ct) p).error_count ≡ 0
    first_zero ct p = ground (arith, get_or_create-mark_success p p ct, text_eq_refl p)
