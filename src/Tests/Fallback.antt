-- ===== src/Tests/Fallback.antt =====
-- The fallback chain of pkg/providers/fallback.go in a world that is a clock: groq answers, the
-- others have reached their rate limit.
use nook_claw.Prelude.{
  ℕ, ◌+◌, ◌*◌, ◌<◌, ◌≡◌, refl, false, List, [], ◌∷◌, All, arith, Bool-cases, inl, inr,
  if◌then◌else◌,
}
use nook_claw.Prelude.Text.{Text, codes, text_eq}
use nook_claw.Providers.Types.{other, rate_limit}
use nook_claw.Providers.Cooldown.{CooldownTracker, new_cooldown_tracker, is_available, mark_failure}
use nook_claw.Providers.Cooldown.Backoff.{minute}
use nook_claw.Providers.Cooldown.Timers.{is_available-mark_failure}
use nook_claw.Providers.ModelRef.{FallbackCandidate}
use nook_claw.Providers.Fallback.{Outcome, response, failure, Env, execute}
use nook_claw.Providers.Fallback.Loop.Laws.{Ends}
use nook_claw.Providers.Fallback.Loop.Trace
use nook_claw.Providers.Fallback.Attempts.{PassedOver, Answered, execute-Ends}
use nook_claw.Providers.Fallback.Frame.{execute_frame}
use nook_claw.Providers.Fallback.Cooling.{other_run, execute_cooling}

abbrev answer : Text → Text → ℕ → Outcome Text × ℕ
answer provider model w = (
  if text_eq provider (codes "groq")
      then response (codes "hello")
      else failure (other (codes "rate limit")),
  w + 1,
)

abbrev ticking : Env ℕ Text
ticking = record { clock = λ w. (w, w + 1); canceled = λ w. (false, w); run = answer }

abbrev two : List FallbackCandidate
two =
    record { provider = codes "openai"; model = codes "o1" }
    ∷ record { provider = codes "groq"; model = codes "llama" }
    ∷ []

execute-Ends_example :
    let r = execute ticking two (new_cooldown_tracker, 1) in
    Trace.Ends (PassedOver ticking) (Answered ticking) two [] (new_cooldown_tracker, 1) r.0 r.1
execute-Ends_example = execute-Ends ticking two (new_cooldown_tracker, 1)

neither_zai : All (λ (c : FallbackCandidate). text_eq c.provider (codes "zai") ≡ false) two
unfolding text_eq
neither_zai = (refl, (refl, tt))

execute_frame_example :
    is_available 9 (codes "zai") (execute ticking two (new_cooldown_tracker, 1)).1.0
    ≡ is_available 9 (codes "zai") new_cooldown_tracker
execute_frame_example =
    execute_frame ticking (codes "zai") 9 two (new_cooldown_tracker, 1) neither_zai

-- The clock stands at the fifth minute.
abbrev frozen : Env ℕ Text
frozen = record ticking { clock = λ w. (5 * minute, w) }

abbrev openai_failed : CooldownTracker
openai_failed = mark_failure (5 * minute) (codes "openai") rate_limit new_cooldown_tracker

abbrev only_openai : List FallbackCandidate
only_openai = record { provider = codes "openai"; model = codes "o1" } ∷ []

openai_cools :
    (now : ℕ) → now < 6 * minute → is_available now (codes "openai") openai_failed ≡ false
openai_cools now early = elim (Bool-cases (is_available now (codes "openai") openai_failed)) [
  | inl e ↦
      let waited =
        is_available-mark_failure new_cooldown_tracker (codes "openai") rate_limit (5 * minute) now
          e in
      absurd (omega (arith, waited.0, waited.1))
  | inr e ↦ e
]

always_answers : Text → Text → ℕ → Outcome Text × ℕ
always_answers provider model w = (response (codes "hi"), w)

execute_cooling_example :
    (execute (other_run frozen always_answers) only_openai (openai_failed, 0)
      ≡ execute frozen only_openai (openai_failed, 0))
    × ((execute frozen only_openai (openai_failed, 0)).1.0 ≡ openai_failed)
execute_cooling_example =
    execute_cooling frozen always_answers (6 * minute) (λ w. omega arith) openai_failed only_openai
      0 (openai_cools, tt)
