-- ===== src/Cron/Schedule.antt =====
-- The times that pkg/cron/service.go computes, and when the loop finds something to do.
use nook_claw.Prelude.{
  ℕ, zero, suc, ◌+◌, ◌-◌, ◌^◌, ◌<◌, ◌≤◌, ◌≡◌, Bool, true, false, ◌||◌, Option, none, some, List, [],
  ◌∷◌, arith, if◌then◌else◌,
}
use nook_claw.Prelude.Text.{Text, codes, text_eq}
use nook_claw.Prelude.Int.{ℤ, pos, negsuc}
use nook_claw.Cron.{
  CronSchedule, CronJob, NextTick, int64, is_after, is_due_at, next_at, next_every,
  compute_next_run, is_scheduled_by, due_job_ids, sooner, next_wake_from, get_next_wake_ms,
}

-- What gronx says of NextTickAfter: the tick that it finds is later than the reference time.
abbrev pub IsLater : NextTick → Type 0
IsLater next_tick =
    (expr : Text) (now : ℕ) (t : ℤ) → next_tick expr now ≡ some t → is_after now t ≡ true

-- The sum of the clock and the interval is one of 63 bits.
abbrev pub Fits : ℕ → Option ℤ → Type 0
Fits now (some (pos every)) = now + every < 2 ^ 63
Fits now _ = Unit

next_at-after : (now : ℕ) (o : Option ℤ) (t : ℤ) → next_at now o ≡ some t → is_after now t ≡ true
next_at-after now o t e = ground arith

next_every-after :
    (now : ℕ) (o : Option ℤ) (t : ℤ)
    → Fits now o
    → next_every now o ≡ some t
    → is_after now t ≡ true
next_every-after now none t h e = absurd (ground arith)
next_every-after now (some (negsuc n)) t h e = absurd (ground arith)
next_every-after now (some (pos zero)) t h e = absurd (ground arith)
next_every-after now (some (pos (suc n))) t h e = ground arith

after-due : (now : ℕ) (t : ℤ) → is_after now t ≡ true → is_due_at now t ≡ false
after-due now t h = ground arith

-- Where the interval of the schedule fits beside the clock's time, the next run that is computed is
-- later than now, so that it is not due at once.
pub compute_next_run-after :
    (next_tick : NextTick) (schedule : CronSchedule) (now : ℕ) (t : ℤ)
    → IsLater next_tick
    → Fits now schedule.every_ms
    → compute_next_run next_tick schedule now ≡ some t
    → (is_after now t ≡ true) × (is_due_at now t ≡ false)
unfolding compute_next_run
compute_next_run-after next_tick schedule now t later fits e =
    let after : is_after now t ≡ true = ground (
      arith,
      e,
      next_at-after now schedule.at_ms t,
      next_every-after now schedule.every_ms t fits,
      later schedule.expr now t,
    ) in
    (after, after-due now t after)

int64-negative : (n : ℕ) → 2 ^ 63 ≤ n → n < 2 ^ 64 → int64 n ≡ negsuc (2 ^ 64 - n - 1)
int64-negative n h k = ground arith

-- Where the interval does not fit, the sum wraps around: the next run is before 1970, and the job is
-- due at every time from then on.
pub every-wraps :
    (next_tick : NextTick) (schedule : CronSchedule) (now every now' : ℕ)
    → text_eq schedule.kind (codes "at") ≡ false
    → text_eq schedule.kind (codes "every") ≡ true
    → schedule.every_ms ≡ some (pos every)
    → now < 2 ^ 63
    → every < 2 ^ 63
    → 2 ^ 63 ≤ now + every
    → is_scheduled_by now' (compute_next_run next_tick schedule now) ≡ true
unfolding compute_next_run
every-wraps next_tick schedule now zero now' k l e hn he h = absurd (omega arith)
every-wraps next_tick schedule now (suc every) now' k l e hn he h =
    ground (arith, k, l, e, int64-negative (now + suc every) h (omega arith))

sooner-due :
    (now : ℕ) (w o : Option ℤ)
    → is_scheduled_by now (sooner w o) ≡ is_scheduled_by now w || is_scheduled_by now o
sooner-due now w o = ground arith

abbrev pub has_any : List Text → Bool
has_any [] = false
has_any (id ∷ ids) = true

next_wake_from-due :
    (now : ℕ) (wake : Option ℤ) (jobs : List CronJob)
    → is_scheduled_by now (next_wake_from wake jobs)
      ≡ is_scheduled_by now wake || has_any (due_job_ids now jobs)
unfolding next_wake_from due_job_ids
next_wake_from-due now wake [] = ground arith
next_wake_from-due now wake (job ∷ jobs) = ground (
  arith,
  sooner-due now wake job.state.next_run_at_ms,
  next_wake_from-due now (if job.enabled then sooner wake job.state.next_run_at_ms else wake) jobs,
)

-- The wake time that Status reports is exact: it has come at a time just where some job is due
-- then, and there is none where no job will be due.
pub next_wake-due :
    (now : ℕ) (jobs : List CronJob)
    → is_scheduled_by now (get_next_wake_ms jobs) ≡ has_any (due_job_ids now jobs)
unfolding get_next_wake_ms
next_wake-due now jobs = next_wake_from-due now none jobs
