-- ===== src/Providers/Cooldown/Timers.antt =====
-- The timers of pkg/providers/cooldown.go: when a provider is available again.
use nook_claw.Prelude.{
  ℕ, ◌+◌, ◌*◌, ◌≤◌, ◌≡◌, true, false, inl, inr, arith, Option-cases, leb, if◌then◌else◌,
}
use nook_claw.Prelude.Text.{Text, text_eq}
use nook_claw.Prelude.Dict.{lookup, lookup-insert_self, lookup-insert_ne}
use nook_claw.Providers.Types.{FailoverReason, billing, is_billing}
use nook_claw.Providers.Cooldown.{
  CooldownEntry, CooldownTracker, extend_remaining, entry_available, is_available,
  cooldown_remaining, mark_failure, mark_success, set_cooldown, error_count, failure_count,
  failed_entry, cleared, reset_stale, count_failure, get_or_create, calculate_standard_cooldown,
  calculate_billing_cooldown,
}
use nook_claw.Providers.Cooldown.Backoff.{minute, standard_cooldown_bounds, billing_cooldown_bounds}

entry_wait :
    (entry : CooldownEntry) (now t : ℕ)
    → now ≤ t
    → entry_available t entry
      ≡ leb
          (now
            + extend_remaining now entry.cooldown_end (extend_remaining now entry.disabled_until 0))
          t
entry_wait entry now t h = ground arith

-- What CooldownRemaining returns is the exact wait: from now on the provider is available at the
-- times that are not before now plus it, and at no other.
pub is_available-remaining :
    (ct : CooldownTracker) (provider : Text) (now t : ℕ)
    → now ≤ t
    → is_available t provider ct ≡ leb (now + cooldown_remaining now provider ct) t
unfolding is_available cooldown_remaining
is_available-remaining ct provider now t h = ground arith

-- The backoff that a failure with this reason starts, by the counters that it leaves.
abbrev pub backoff : Text → FailoverReason → CooldownTracker → ℕ
backoff p reason after =
    if is_billing reason
    then calculate_billing_cooldown (failure_count p billing after)
    else calculate_standard_cooldown (error_count p after)

set_cooldown_blocks :
    (reason : FailoverReason) (now t : ℕ) (entry : CooldownEntry)
    → entry_available t (set_cooldown now reason entry) ≡ true
    → now
        + (if is_billing reason
            then calculate_billing_cooldown (entry.failure_counts billing)
            else calculate_standard_cooldown entry.error_count)
      ≤ t
unfolding set_cooldown
set_cooldown_blocks reason now t entry h = ground (
  arith,
  standard_cooldown_bounds entry.error_count,
  billing_cooldown_bounds (entry.failure_counts billing),
)

abbrev entry_backoff : FailoverReason → CooldownEntry → ℕ
entry_backoff reason entry =
    if is_billing reason
    then calculate_billing_cooldown (entry.failure_counts billing)
    else calculate_standard_cooldown entry.error_count

failed_entry_blocked :
    (ct : CooldownTracker) (p : Text) (reason : FailoverReason) (now t : ℕ)
    → entry_available t (failed_entry now p reason ct) ≡ true
    → now + entry_backoff reason (failed_entry now p reason ct) ≤ t
unfolding failed_entry set_cooldown
failed_entry_blocked ct p reason now t = ground (
  arith,
  set_cooldown_blocks reason now t
      (count_failure now reason (reset_stale ct.failure_window now (get_or_create ct p))),
)

backoff_least :
    (reason : FailoverReason) (entry : CooldownEntry)
    → (if is_billing reason then 300 else 1) * minute ≤ entry_backoff reason entry
backoff_least reason entry = ground (
  arith,
  standard_cooldown_bounds entry.error_count,
  billing_cooldown_bounds (entry.failure_counts billing),
)

-- A provider that has just failed is not available before its backoff has passed, which is at
-- least a minute, and for a billing error at least five hours.
pub is_available-mark_failure :
    (ct : CooldownTracker) (p : Text) (reason : FailoverReason) (now t : ℕ)
    → is_available t p (mark_failure now p reason ct) ≡ true
    → (now + backoff p reason (mark_failure now p reason ct) ≤ t)
      × ((if is_billing reason then 300 else 1) * minute
          ≤ backoff p reason (mark_failure now p reason ct))
unfolding mark_failure is_available error_count failure_count
is_available-mark_failure ct p reason now t h =
    let entry = failed_entry now p reason ct in
    let found = lookup-insert_self p entry ct.entries in
    ground (arith, found, failed_entry_blocked ct p reason now t, backoff_least reason entry)

-- A provider that has just answered is available at once, with no failure counted.
pub mark_success_clears :
    (ct : CooldownTracker) (p : Text) (now : ℕ) (reason : FailoverReason)
    → (is_available now p (mark_success p ct) ≡ true)
      × (cooldown_remaining now p (mark_success p ct) ≡ 0)
      × (error_count p (mark_success p ct) ≡ 0)
      × (failure_count p reason (mark_success p ct) ≡ 0)
unfolding mark_success is_available cooldown_remaining error_count failure_count
mark_success_clears ct p now reason = elim (Option-cases (lookup p ct.entries)) [
  | inl e ↦ ground (arith, e)
  | inr (entry, e) ↦ ground (arith, e, lookup-insert_self p (cleared entry) ct.entries)
]

-- What is recorded about one provider changes no answer about another.
pub other_providers_unchanged :
    (ct : CooldownTracker) (p q : Text) (reason r : FailoverReason) (now t : ℕ)
    → text_eq p q ≡ false
    → (is_available t q (mark_failure now p reason ct) ≡ is_available t q ct)
      × (cooldown_remaining t q (mark_failure now p reason ct) ≡ cooldown_remaining t q ct)
      × (failure_count q r (mark_failure now p reason ct) ≡ failure_count q r ct)
      × (is_available t q (mark_success p ct) ≡ is_available t q ct)
      × (cooldown_remaining t q (mark_success p ct) ≡ cooldown_remaining t q ct)
      × (failure_count q r (mark_success p ct) ≡ failure_count q r ct)
unfolding mark_failure mark_success is_available cooldown_remaining failure_count
other_providers_unchanged ct p q reason r now t h =
    let other = lookup-insert_ne p q (failed_entry now p reason ct) ct.entries h in
    elim (Option-cases (lookup p ct.entries)) [
      | inl e ↦ ground (arith, e, other)
      | inr (entry, e) ↦ ground (arith, e, other, lookup-insert_ne p q (cleared entry) ct.entries h)
    ]
