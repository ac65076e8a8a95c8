-- ===== src/Cron/Claims.antt =====
-- The runs of a job of pkg/cron/service.go that checkJobs has collected, and the steps that may give
-- it a new one.
pub mod Once
use nook_claw.Prelude.{
  ℕ, ◌≡◌, refl, Bool, true, false, not, ◌&&◌, ◌||◌, Option, none, some, List, [], ◌∷◌, ◌++◌, arith,
  if◌then◌else◌, Bool-cases, inl, inr,
}
use nook_claw.Prelude.Text.{Text, codes, text_eq, text_eq_iff}
use nook_claw.Prelude.Int.{ℤ}
use nook_claw.Cron.{
  CronJob, NextTick, is_scheduled_by, is_due, due_job_ids, find_job, update_first, without_job,
  is_listed, claim,
}
use nook_claw.Cron.Service.{
  CronService, save_store, collect_due, remove_job_unsafe, Handled, Moments, recorded, switched_off,
  with_next_run, finish_found, finish_job, update_job_in, stop,
}
use nook_claw.Cron.Jobs.{
  new_job, add_job, update_job, update_found, remove_job, enable_found, enabled_job, enable_job,
  Step, restarted, stopped, collected, finished, reloaded, added, updated, removed, enabled,
}
use nook_claw.Cron.Find.{saved-jobs}

abbrev pub is_set : Option ℤ → Bool
is_set none = false
is_set (some t) = true

abbrev pub is_armed_job : Text → CronJob → Bool
is_armed_job id job = text_eq job.id id && is_set job.state.next_run_at_ms

-- A job with this identifier has a next run.
unfoldable pub is_armed : Text → List CronJob → Bool
is_armed id [] = false
is_armed id (job ∷ jobs) = is_armed_job id job || is_armed id jobs

pub due-armed :
    (id : Text) (now : ℕ) (jobs : List CronJob)
    → is_armed id jobs ≡ false
    → is_listed id (due_job_ids now jobs) ≡ false
unfolding due_job_ids is_armed
due-armed id now [] h = refl
due-armed id now (job ∷ jobs) h = ground (arith, due-armed id now jobs)

pub claim-armed :
    (id : Text) (ids : List Text) (jobs : List CronJob)
    → is_armed id jobs && not (is_listed id ids) ≡ false
    → is_armed id (claim ids jobs) ≡ false
unfolding claim is_armed
claim-armed id ids [] h = refl
claim-armed id ids (job ∷ jobs) h = ground (arith, claim-armed id ids jobs, text_eq_iff job.id id)

claim-kept :
    (id : Text) (ids : List Text) (jobs : List CronJob)
    → is_armed id jobs ≡ false
    → is_armed id (claim ids jobs) ≡ false
claim-kept id ids jobs h = claim-armed id ids jobs (ground (arith, h))

pub update_first-armed :
    (id id' : Text) (f : CronJob → CronJob) (jobs : List CronJob)
    → ((j : CronJob) → text_eq j.id id' ≡ true → is_armed_job id (f j) ≡ false)
    → is_armed id jobs ≡ false
    → is_armed id (update_first id' f jobs) ≡ false
unfolding update_first is_armed
update_first-armed id id' f [] k h = refl
update_first-armed id id' f (job ∷ jobs) k h =
    ground (arith, k job, update_first-armed id id' f jobs k)

without_job-armed :
    (id id' : Text) (jobs : List CronJob)
    → is_armed id jobs ≡ false
    → is_armed id (without_job id' jobs) ≡ false
unfolding without_job is_armed
without_job-armed id id' [] h = refl
without_job-armed id id' (job ∷ jobs) h = ground (arith, without_job-armed id id' jobs)

pub append-armed :
    (id : Text) (job : CronJob) (jobs : List CronJob)
    → text_eq job.id id ≡ false
    → is_armed id jobs ≡ false
    → is_armed id (jobs ++ (job ∷ [])) ≡ false
unfolding is_armed
append-armed id job [] k h = ground (arith, k)
append-armed id job (j ∷ jobs) k h = ground (arith, append-armed id job jobs k)

pub other_job :
    (id id' : Text) (job : CronJob)
    → text_eq id' id ≡ false
    → text_eq job.id id' ≡ true
    → text_eq job.id id ≡ false
other_job id id' job ne h = ground (arith, text_eq_iff job.id id', ne)

-- The step may give a job with this identifier a new run: a start, a load of the file, the end
-- of its own execution, a new job of that identifier, or an update of the job or enabling it by a caller.
unfoldable pub rearms :
    (id : Text) {next_tick : NextTick} {s t : CronService} → Step next_tick s t → Bool
rearms id (restarted now written) = true
rearms id stopped = false
rearms id (collected now written) = false
rearms id (finished id' result m) = text_eq id' id
rearms id reloaded = true
rearms id (added now n written) = text_eq n.id id
rearms id (updated job now written) = text_eq job.id id
rearms id (removed id' written) = false
rearms id (enabled id' true at now written) = text_eq id' id
rearms id (enabled id' false at now written) = false

-- Steps that do not give it a new run.
pub data Quiet (id : Text) (next_tick : NextTick) (s : CronService) : CronService → Type 0 where
  here : Quiet id next_tick s s
  then_step :
      {t u : CronService}
      → Quiet id next_tick s t
      → (step : Step next_tick t u) → rearms id step ≡ false
      → Quiet id next_tick s u

pub collect_due-armed :
    (id : Text) (now : ℕ) (written : Bool) (s : CronService)
    → is_armed id s.jobs ≡ false
    → is_armed id (collect_due now written s).1.jobs ≡ false
unfolding collect_due
collect_due-armed id now written s h =
    let ids = due_job_ids now s.jobs in
    ground
      (arith, claim-kept id ids s.jobs h, saved-jobs written (record s { jobs = claim ids s.jobs }))

pub remove-armed :
    (id id' : Text) (written : Bool) (s : CronService)
    → is_armed id s.jobs ≡ false
    → is_armed id (remove_job_unsafe id' written s).1.jobs ≡ false
unfolding remove_job_unsafe
remove-armed id id' written s h = ground (
  arith,
  without_job-armed id id' s.jobs h,
  saved-jobs written (record s { jobs = without_job id' s.jobs }),
)

pub update_first-other :
    (id id' : Text) (f : CronJob → CronJob) (jobs : List CronJob)
    → text_eq id' id ≡ false
    → ((j : CronJob) → (f j).id ≡ j.id)
    → is_armed id jobs ≡ false
    → is_armed id (update_first id' f jobs) ≡ false
update_first-other id id' f jobs ne keeps h =
    update_first-armed id id' f jobs (λ j e. ground (arith, other_job id id' j ne e, keeps j)) h
