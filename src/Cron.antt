-- ===== src/Cron.antt =====
-- pkg/cron/service.go: the jobs, their schedules, and what is asked of the list of jobs. Times are
-- milliseconds since 1970; those of the clock are natural numbers, those of a job are of 64 bits
-- with a sign. The expressions of cron are read by the package gronx, so its NextTickAfter is an
-- argument: `none` where it fails.
pub mod Service
pub mod Jobs
pub mod Schedule
pub mod Claims
pub mod Find
pub mod Distinct
pub mod Reach
pub mod Durable
pub mod Recovery
pub mod Execution
use nook_claw.Prelude.{
  ℕ, suc, ◌+◌, ◌-◌, ◌%◌, ◌^◌, Bool, true, false, ◌&&◌, Option, none, some, List, [], ◌∷◌, length,
  ltb, leb, if◌then◌else◌,
}
use nook_claw.Prelude.Text.{Text, codes, text_eq, is_empty}
use nook_claw.Prelude.Int.{ℤ, pos, negsuc}

pub record CronSchedule : Type 0 where
  pub kind : Text
  pub at_ms : Option ℤ
  pub every_ms : Option ℤ
  pub expr : Text
  pub tz : Text

pub record CronPayload : Type 0 where
  pub kind : Text
  pub message : Text
  pub command : Text
  pub deliver : Bool
  pub channel : Text
  pub to : Text

pub record CronJobState : Type 0 where
  pub next_run_at_ms : Option ℤ
  pub last_run_at_ms : Option ℕ
  pub last_status : Text
  pub last_error : Text

pub record CronJob : Type 0 where
  pub id : Text
  pub name : Text
  pub enabled : Bool
  pub schedule : CronSchedule
  pub payload : CronPayload
  pub state : CronJobState
  pub created_at_ms : ℕ
  pub updated_at_ms : ℕ
  pub delete_after_run : Bool

-- gronx.NextTickAfter(expr, now, false), in milliseconds.
abbrev pub NextTick : Type 0
NextTick = Text → ℕ → Option ℤ

-- A number of 64 bits, read with its sign.
abbrev pub int64 : ℕ → ℤ
int64 n = let m = n % 2 ^ 64 in if ltb m (2 ^ 63) then pos m else negsuc (2 ^ 64 - m - 1)

-- t > now
abbrev pub is_after : ℕ → ℤ → Bool
is_after now (pos t) = ltb now t
is_after now (negsuc t) = false

-- t <= now
abbrev pub is_due_at : ℕ → ℤ → Bool
is_due_at now (pos t) = leb t now
is_due_at now (negsuc t) = true

-- t < u
abbrev pub is_earlier : ℤ → ℤ → Bool
is_earlier (pos t) (pos u) = ltb t u
is_earlier (pos t) (negsuc u) = false
is_earlier (negsuc t) (pos u) = true
is_earlier (negsuc t) (negsuc u) = ltb u t

abbrev pub next_at : ℕ → Option ℤ → Option ℤ
next_at now none = none
next_at now (some t) = if is_after now t then some t else none

abbrev pub next_every : ℕ → Option ℤ → Option ℤ
next_every now (some (pos (suc every))) = some (int64 (now + suc every))
next_every now _ = none

unfoldable pub compute_next_run : NextTick → CronSchedule → ℕ → Option ℤ
compute_next_run next_tick schedule now =
    if text_eq schedule.kind (codes "at")
    then next_at now schedule.at_ms
    else if text_eq schedule.kind (codes "every")
    then next_every now schedule.every_ms
    else if text_eq schedule.kind (codes "cron")
    then if is_empty schedule.expr then none else next_tick schedule.expr now
    else none

-- The loop of recomputeNextRuns.
unfoldable pub recompute_next_runs : NextTick → ℕ → List CronJob → List CronJob
recompute_next_runs next_tick now [] = []
recompute_next_runs next_tick now (job ∷ jobs) =
    let rest = recompute_next_runs next_tick now jobs in
    if job.enabled
    then record job {
      state = record job.state { next_run_at_ms = compute_next_run next_tick job.schedule now };
    }
      ∷ rest
    else job ∷ rest

abbrev pub is_scheduled_by : ℕ → Option ℤ → Bool
is_scheduled_by now none = false
is_scheduled_by now (some t) = is_due_at now t

abbrev pub is_due : ℕ → CronJob → Bool
is_due now job = job.enabled && is_scheduled_by now job.state.next_run_at_ms

-- The first loop of checkJobs.
unfoldable pub due_job_ids : ℕ → List CronJob → List Text
due_job_ids now [] = []
due_job_ids now (job ∷ jobs) =
    let rest = due_job_ids now jobs in if is_due now job then job.id ∷ rest else rest

abbrev pub sooner : Option ℤ → Option ℤ → Option ℤ
sooner wake none = wake
sooner none (some t) = some t
sooner (some w) (some t) = if is_earlier t w then some t else some w

-- The loop of getNextWakeMS, with the wake time that it has found so far.
unfoldable pub next_wake_from : Option ℤ → List CronJob → Option ℤ
next_wake_from wake [] = wake
next_wake_from wake (job ∷ jobs) =
    next_wake_from (if job.enabled then sooner wake job.state.next_run_at_ms else wake) jobs

unfoldable pub get_next_wake_ms : List CronJob → Option ℤ
unfolding next_wake_from
get_next_wake_ms jobs = next_wake_from none jobs

unfoldable pub enabled_jobs : List CronJob → List CronJob
enabled_jobs [] = []
enabled_jobs (job ∷ jobs) = let rest = enabled_jobs jobs in if job.enabled then job ∷ rest else rest

abbrev pub list_jobs : Bool → List CronJob → List CronJob
list_jobs true jobs = jobs
list_jobs false jobs = enabled_jobs jobs

unfoldable pub find_job : Text → List CronJob → Option CronJob
find_job id [] = none
find_job id (job ∷ jobs) = if text_eq job.id id then some job else find_job id jobs

-- What the loops that stop at the first job with the identifier do to the list.
unfoldable pub update_first : Text → (CronJob → CronJob) → List CronJob → List CronJob
update_first id f [] = []
update_first id f (job ∷ jobs) =
    let rest = update_first id f jobs in if text_eq job.id id then f job ∷ jobs else job ∷ rest

-- The loop of removeJobUnsafe.
unfoldable pub without_job : Text → List CronJob → List CronJob
without_job id [] = []
without_job id (job ∷ jobs) =
    let rest = without_job id jobs in if text_eq job.id id then rest else job ∷ rest

abbrev pub is_listed : Text → List Text → Bool
is_listed id [] = false
is_listed id (j ∷ ids) = if text_eq j id then true else is_listed id ids

-- The second loop of checkJobs.
unfoldable pub claim : List Text → List CronJob → List CronJob
claim ids [] = []
claim ids (job ∷ jobs) =
    let rest = claim ids jobs in
    if is_listed job.id ids
    then record job { state = record job.state { next_run_at_ms = none } } ∷ rest
    else job ∷ rest
