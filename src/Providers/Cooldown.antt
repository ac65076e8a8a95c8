-- ===== src/Providers/Cooldown.antt =====
-- pkg/providers/cooldown.go: the tracker that keeps failing providers out of the fallback chain.
-- Times are nanoseconds since Go's zero time, which is 0; the clock's reading is an argument.
pub mod Backoff
pub mod Timers
pub mod Counts
use nook_claw.Prelude.{
  ℕ, ◌+◌, ◌-◌, ◌*◌, ◌^◌, min, max, Bool, true, false, not, ◌&&◌, Option, none, some, List, [], ◌∷◌,
  ltb, ◌==◌, if◌then◌else◌,
}
use nook_claw.Prelude.Text.{Text}
use nook_claw.Prelude.Dict.{Dict, lookup, insert}
use nook_claw.Providers.Types.{
  FailoverReason, auth, rate_limit, billing, timeout, format, overloaded, unknown, unset,
  is_billing,
}

-- map[FailoverReason]int: a reason without an entry counts 0.
abbrev pub Counts : Type 0
Counts = FailoverReason → ℕ

abbrev pub no_failures : Counts
no_failures _ = 0

pub record CooldownEntry : Type 0 where
  pub error_count : ℕ
  pub failure_counts : Counts
  pub cooldown_end : ℕ
  pub disabled_until : ℕ
  pub disabled_reason : FailoverReason
  pub last_failure : ℕ

abbrev pub new_entry : CooldownEntry
new_entry = record {
  error_count = 0;
  failure_counts = no_failures;
  cooldown_end = 0;
  disabled_until = 0;
  disabled_reason = unset;
  last_failure = 0;
}

pub record CooldownTracker : Type 0 where
  pub entries : Dict CooldownEntry
  pub failure_window : ℕ

abbrev pub millisecond : ℕ
millisecond = 1_000_000

-- 24 hours
abbrev pub default_failure_window : ℕ
default_failure_window = 86_400_000 * millisecond

abbrev pub new_cooldown_tracker : CooldownTracker
new_cooldown_tracker = record { entries = []; failure_window = default_failure_window }

unfoldable pub calculate_standard_cooldown : ℕ → ℕ
calculate_standard_cooldown error_count =
    let n = max 1 error_count in
    let exp = min (n - 1) 3 in let ms = 60_000 * 5 ^ exp in min 3_600_000 ms * millisecond

abbrev base_ms : ℕ
base_ms = 5 * 60 * 60 * 1000

abbrev max_ms : ℕ
max_ms = 24 * 60 * 60 * 1000

unfoldable pub calculate_billing_cooldown : ℕ → ℕ
calculate_billing_cooldown billing_error_count =
    let n = max 1 billing_error_count in
    let exp = min (n - 1) 10 in min max_ms (base_ms * 2 ^ exp) * millisecond

-- entry.FailureCounts[reason]++
unfoldable pub increment : FailoverReason → Counts → Counts
increment auth c = λ r. elim r [ auth ↦ c auth + 1 | o ↦ c o ]
increment rate_limit c = λ r. elim r [ rate_limit ↦ c rate_limit + 1 | o ↦ c o ]
increment billing c = λ r. elim r [ billing ↦ c billing + 1 | o ↦ c o ]
increment timeout c = λ r. elim r [ timeout ↦ c timeout + 1 | o ↦ c o ]
increment format c = λ r. elim r [ format ↦ c format + 1 | o ↦ c o ]
increment overloaded c = λ r. elim r [ overloaded ↦ c overloaded + 1 | o ↦ c o ]
increment unknown c = λ r. elim r [ unknown ↦ c unknown + 1 | o ↦ c o ]
increment unset c = λ r. elim r [ unset ↦ c unset + 1 | o ↦ c o ]

abbrev pub or_new : Option CooldownEntry → CooldownEntry
or_new none = new_entry
or_new (some entry) = entry

unfoldable pub get_or_create : CooldownTracker → Text → CooldownEntry
get_or_create ct provider = or_new (lookup provider ct.entries)

-- The counters start again after a failure window without a failure. `now - last` is 0 where the
-- clock went back, which no window is below.
unfoldable pub reset_stale : ℕ → ℕ → CooldownEntry → CooldownEntry
reset_stale window now entry =
    if not (entry.last_failure == 0) && ltb window (now - entry.last_failure)
    then record entry { error_count = 0; failure_counts = no_failures }
    else entry

unfoldable pub count_failure : ℕ → FailoverReason → CooldownEntry → CooldownEntry
unfolding increment
count_failure now reason entry = record entry {
  error_count = entry.error_count + 1;
  failure_counts = increment reason entry.failure_counts;
  last_failure = now;
}

unfoldable pub set_cooldown : ℕ → FailoverReason → CooldownEntry → CooldownEntry
set_cooldown now reason entry =
    if is_billing reason
    then record entry {
      disabled_until = now + calculate_billing_cooldown (entry.failure_counts billing);
      disabled_reason = billing;
    }
    else record entry { cooldown_end = now + calculate_standard_cooldown entry.error_count }

-- The entry that MarkFailure leaves.
unfoldable pub failed_entry : ℕ → Text → FailoverReason → CooldownTracker → CooldownEntry
unfolding get_or_create reset_stale count_failure set_cooldown
failed_entry now provider reason ct =
    let entry = reset_stale ct.failure_window now (get_or_create ct provider) in
    set_cooldown now reason (count_failure now reason entry)

unfoldable pub mark_failure : ℕ → Text → FailoverReason → CooldownTracker → CooldownTracker
mark_failure now provider reason ct = record ct {
  entries = insert provider (failed_entry now provider reason ct) ct.entries;
}

abbrev pub cleared : CooldownEntry → CooldownEntry
cleared entry = record entry {
  error_count = 0;
  failure_counts = no_failures;
  cooldown_end = 0;
  disabled_until = 0;
  disabled_reason = unset;
}

unfoldable pub mark_success : Text → CooldownTracker → CooldownTracker
mark_success provider ct = elim (lookup provider ct.entries) [
  | none ↦ ct
  | some entry ↦ record ct { entries = insert provider (cleared entry) ct.entries }
]

-- !t.IsZero() && now.Before(t)
abbrev pub pending : ℕ → ℕ → Bool
pending now t = not (t == 0) && ltb now t

abbrev pub entry_available : ℕ → CooldownEntry → Bool
entry_available now entry =
    if pending now entry.disabled_until
    then false
    else if pending now entry.cooldown_end
    then false
    else true

unfoldable pub is_available : ℕ → Text → CooldownTracker → Bool
is_available now provider ct = elim (lookup provider ct.entries) [
  | none ↦ true
  | some entry ↦ entry_available now entry
]

-- One of the two blocks of CooldownRemaining.
abbrev pub extend_remaining : ℕ → ℕ → ℕ → ℕ
extend_remaining now t remaining =
    if pending now t then (if ltb remaining (t - now) then t - now else remaining) else remaining

unfoldable pub cooldown_remaining : ℕ → Text → CooldownTracker → ℕ
cooldown_remaining now provider ct = elim (lookup provider ct.entries) [
  | none ↦ 0
  | some entry ↦
      extend_remaining now entry.cooldown_end (extend_remaining now entry.disabled_until 0)
]

unfoldable pub error_count : Text → CooldownTracker → ℕ
error_count provider ct = elim (lookup provider ct.entries) [
  | none ↦ 0
  | some entry ↦ entry.error_count
]

unfoldable pub failure_count : Text → FailoverReason → CooldownTracker → ℕ
failure_count provider reason ct = elim (lookup provider ct.entries) [
  | none ↦ 0
  | some entry ↦ entry.failure_counts reason
]
