-- ===== src/Tests/Cooldown.antt =====
-- The cooldown tracker of pkg/providers/cooldown.go on concrete histories.
use nook_claw.Prelude.{◌+◌, ◌-◌, ◌*◌, ◌≤◌, ◌≡◌, refl, true, false, List, [], ◌∷◌, arith, leb}
use nook_claw.Prelude.Text.{Text, codes, text_eq}
use nook_claw.Prelude.Dict.{lookup, insert}
use nook_claw.Providers.Types.{rate_limit, billing, timeout}
use nook_claw.Providers.Cooldown.{
  CooldownTracker, new_cooldown_tracker, is_available, cooldown_remaining, mark_failure,
  mark_success, error_count, failure_count, failed_entry, get_or_create, reset_stale, count_failure,
  set_cooldown, calculate_standard_cooldown, calculate_billing_cooldown,
}
use nook_claw.Providers.Cooldown.Backoff.{minute, standard_cooldown-table, billing_cooldown-table}
use nook_claw.Providers.Cooldown.Timers.{
  backoff, is_available-remaining, is_available-mark_failure, mark_success_clears,
  other_providers_unchanged,
}
use nook_claw.Providers.Cooldown.Counts.{
  Event, failed, succeeded, run, total, failures_of, error_count-eq-total, streak_after_success,
}

abbrev openai : Text
openai = codes "openai"

abbrev groq : Text
groq = codes "groq"

-- One failure of openai at the hundredth minute.
abbrev failed_once : CooldownTracker
failed_once = mark_failure (100 * minute) openai rate_limit new_cooldown_tracker

standard_cooldown-table_3 : calculate_standard_cooldown 3 ≡ 25 * minute
standard_cooldown-table_3 = standard_cooldown-table 3

billing_cooldown-table_2 : calculate_billing_cooldown 2 ≡ 10 * (60 * minute)
billing_cooldown-table_2 = billing_cooldown-table 2

is_available-remaining_example :
    is_available (101 * minute) openai failed_once
    ≡ leb (100 * minute + cooldown_remaining (100 * minute) openai failed_once) (101 * minute)
is_available-remaining_example =
    is_available-remaining failed_once openai (100 * minute) (101 * minute) (omega arith)

available_again : is_available (200 * minute) openai failed_once ≡ true
unfolding is_available mark_failure failed_entry get_or_create reset_stale count_failure
    set_cooldown insert lookup text_eq calculate_standard_cooldown
available_again = refl

not_yet : is_available (100 * minute + 1) openai failed_once ≡ false
unfolding is_available mark_failure failed_entry get_or_create reset_stale count_failure
    set_cooldown insert lookup text_eq calculate_standard_cooldown
not_yet = refl

is_available-mark_failure_example :
    (100 * minute + backoff openai rate_limit failed_once ≤ 200 * minute)
    × (1 * minute ≤ backoff openai rate_limit failed_once)
is_available-mark_failure_example =
    is_available-mark_failure new_cooldown_tracker openai rate_limit (100 * minute) (200 * minute)
      available_again

mark_success_clears_example :
    (is_available (100 * minute) openai (mark_success openai failed_once) ≡ true)
    × (cooldown_remaining (100 * minute) openai (mark_success openai failed_once) ≡ 0)
    × (error_count openai (mark_success openai failed_once) ≡ 0)
    × (failure_count openai rate_limit (mark_success openai failed_once) ≡ 0)
mark_success_clears_example = mark_success_clears failed_once openai (100 * minute) rate_limit

openai_not_groq : text_eq openai groq ≡ false
unfolding text_eq
openai_not_groq = refl

other_providers_unchanged_example :
    (is_available 7 groq (mark_failure 5 openai billing failed_once)
      ≡ is_available 7 groq failed_once)
    × (cooldown_remaining 7 groq (mark_failure 5 openai billing failed_once)
        ≡ cooldown_remaining 7 groq failed_once)
    × (failure_count groq timeout (mark_failure 5 openai billing failed_once)
        ≡ failure_count groq timeout failed_once)
    × (is_available 7 groq (mark_success openai failed_once) ≡ is_available 7 groq failed_once)
    × (cooldown_remaining 7 groq (mark_success openai failed_once)
        ≡ cooldown_remaining 7 groq failed_once)
    × (failure_count groq timeout (mark_success openai failed_once)
        ≡ failure_count groq timeout failed_once)
other_providers_unchanged_example =
    other_providers_unchanged failed_once openai groq billing timeout 5 7 openai_not_groq

abbrev history : List Event
history =
    failed 1 openai rate_limit
    ∷ failed 2 openai billing
    ∷ succeeded groq
    ∷ failed 3 groq timeout
    ∷ []

error_count-eq-total_example :
    error_count openai (run new_cooldown_tracker history)
    ≡ total (λ r. failure_count openai r (run new_cooldown_tracker history))
error_count-eq-total_example = error_count-eq-total history openai

each_within :
    (300 * minute - 200 * minute ≤ failed_once.failure_window)
    × ((200 * minute - 300 * minute ≤ failed_once.failure_window) × Unit {0})
unfolding mark_failure
each_within = (omega arith, (omega arith, tt))

streak_after_success_example :
    error_count openai (
      run failed_once (
        succeeded openai
        ∷ failures_of openai
            ((200 * minute, timeout) ∷ (300 * minute, billing) ∷ (200 * minute, timeout) ∷ [])))
    ≡ 3
streak_after_success_example =
    streak_after_success failed_once openai (200 * minute) timeout
      ((300 * minute, billing) ∷ (200 * minute, timeout) ∷ []) each_within
