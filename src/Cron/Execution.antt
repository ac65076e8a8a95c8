-- ===== src/Cron/Execution.antt =====
-- What an execution in pkg/cron/service.go leaves of the job, and when the job runs again.
use nook_claw.Prelude.{
  ℕ, ◌≡◌, refl, ◌∙◌, ap, Bool, true, false, not, ◌&&◌, Option, none, some, [], arith, if◌then◌else◌,
}
use nook_claw.Prelude.Text.{Text, codes, text_eq, text_eq_iff}
use nook_claw.Prelude.Int.{ℤ}
use nook_claw.Cron.{
  CronJob, NextTick, compute_next_run, is_scheduled_by, find_job, without_job, is_listed,
}
use nook_claw.Cron.Service.{
  CronService, collect_due, remove_job_unsafe, Handled, done, failed, Moments, recorded,
  switched_off, with_next_run, finish_found, finish_job, update_job_in,
}
use nook_claw.Cron.Find.{
  saved-jobs, saved-running, save_found-running, save_found-jobs, recorded-id, find-update_first,
  find-without, IsDistinct, is_due_found, due-find,
}
use nook_claw.Cron.Reach.{finish_job-IsDistinct}

abbrev pub status_of : Handled → Text
status_of done = codes "ok"
status_of (failed error) = codes "error"

abbrev pub error_of : Handled → Text
error_of done = []
error_of (failed error) = error

-- The job with the outcome and the times of an execution, enabled or not, and with this next run.
abbrev pub ended : Handled → Moments → Bool → Option ℤ → CronJob → CronJob
ended result m on next job = record {
  id = job.id;
  name = job.name;
  enabled = on;
  schedule = job.schedule;
  payload = job.payload;
  state = record {
    next_run_at_ms = next;
    last_run_at_ms = some m.start_time;
    last_status = status_of result;
    last_error = error_of result;
  };
  created_at_ms = job.created_at_ms;
  updated_at_ms = m.updated;
  delete_after_run = job.delete_after_run;
}

-- A job of a single run is removed or switched off, any other waits for its next run.
abbrev pub after_run : NextTick → Handled → Moments → CronJob → Option CronJob
after_run next_tick result m job =
    if text_eq job.schedule.kind (codes "at")
    then if job.delete_after_run then none else some (ended result m false none job)
    else some
        (ended result m job.enabled (compute_next_run next_tick job.schedule m.rescheduled) job)

switched_off-recorded :
    (result : Handled) (m : Moments) (job : CronJob)
    → switched_off (recorded result m job) ≡ ended result m false none job
switched_off-recorded done m job = refl
switched_off-recorded (failed error) m job = refl

with_next_run-recorded :
    (next_tick : NextTick) (result : Handled) (m : Moments) (job : CronJob)
    → with_next_run next_tick m.rescheduled (recorded result m job)
      ≡ ended result m job.enabled (compute_next_run next_tick job.schedule m.rescheduled) job
with_next_run-recorded next_tick done m job = refl
with_next_run-recorded next_tick (failed error) m job = refl

abbrev pub after_execution : NextTick → Handled → Moments → Option CronJob → Option CronJob
after_execution next_tick result m none = none
after_execution next_tick result m (some job) = after_run next_tick result m job

find-remove :
    (id id' : Text) (written : Bool) (s : CronService)
    → find_job id' (remove_job_unsafe id written s).1.jobs
      ≡ (if text_eq id id' then none else find_job id' s.jobs)
unfolding remove_job_unsafe
find-remove id id' written s = ground (
  arith,
  find-without id id' s.jobs,
  saved-jobs written (record s { jobs = without_job id s.jobs }),
)

find-finish_found :
    (id id' : Text) (next_tick : NextTick) (result : Handled) (m : Moments) (s : CronService)
    (o : Option CronJob)
    → find_job id s.jobs ≡ o
    → find_job id' (finish_found next_tick id result m s o).jobs
      ≡ (if text_eq id id' then after_execution next_tick result m o else find_job id' s.jobs)
find-finish_found id id' next_tick result m s none e = ground (arith, e, text_eq_iff id id')
find-finish_found id id' next_tick result m s (some job) e =
    let r = recorded result m in
    let keeps = λ (j : CronJob) (_ : text_eq j.id id ≡ true). recorded-id result m j in
    ground (
      arith,
      e,
      switched_off-recorded result m job,
      with_next_run-recorded next_tick result m job,
      find-remove id id' m.removal_written (update_job_in id r s),
      find-update_first id id' r s.jobs keeps,
      find-update_first id id' (λ j. switched_off (r j)) s.jobs keeps,
      find-update_first id id' (λ j. with_next_run next_tick m.rescheduled (r j)) s.jobs keeps,
    )

-- After an execution has ended, its job is gone if it was one of a single run that is deleted. If it
-- was another of a single run it is not enabled and has no next run; if it was any other it has the
-- next run that its schedule gives from the end of the execution. In both cases it has the time at
-- which the execution started, the status "ok" and no error, or "error" and the handler's error, the
-- time of the update, and all else as before. If the job was removed meanwhile it stays away. Every
-- other job is as before.
pub find-finish :
    (id id' : Text) (next_tick : NextTick) (result : Handled) (m : Moments) (s : CronService)
    → find_job id' (finish_job next_tick id result m s).jobs ≡ (
        if text_eq id id'
        then after_execution next_tick result m (find_job id s.jobs)
        else find_job id' s.jobs)
unfolding finish_job
find-finish id id' next_tick result m s =
    let o = find_job id s.jobs in
    ap (find_job id') (save_found-jobs m.written o (finish_found next_tick id result m s o))
    ∙ find-finish_found id id' next_tick result m s o refl

remove-running :
    (id : Text) (written : Bool) (s : CronService)
    → (remove_job_unsafe id written s).1.running ≡ s.running
unfolding remove_job_unsafe
remove-running id written s =
    ground (arith, saved-running written (record s { jobs = without_job id s.jobs }))

finish_found-running :
    (id : Text) (next_tick : NextTick) (result : Handled) (m : Moments) (s : CronService)
    (o : Option CronJob)
    → (finish_found next_tick id result m s o).running ≡ s.running
finish_found-running id next_tick result m s none = refl
finish_found-running id next_tick result m s (some job) =
    ground (arith, remove-running id m.removal_written (update_job_in id (recorded result m) s))

finish_job-running :
    (id : Text) (next_tick : NextTick) (result : Handled) (m : Moments) (s : CronService)
    → (finish_job next_tick id result m s).running ≡ s.running
unfolding finish_job
finish_job-running id next_tick result m s =
    let o = find_job id s.jobs in
    save_found-running m.written o (finish_found next_tick id result m s o)
    ∙ finish_found-running id next_tick result m s o

collected_if_due :
    (id : Text) (now : ℕ) (written : Bool) (s : CronService)
    → IsDistinct s.jobs
    → s.running ≡ true
    → is_listed id (collect_due now written s).0 ≡ is_due_found now (find_job id s.jobs)
unfolding collect_due
collected_if_due id now written s d on = ground (arith, on, due-find id now s.jobs d)

due_after_run :
    (next_tick : NextTick) (result : Handled) (m : Moments) (now : ℕ) (job : CronJob)
    → is_due_found now (after_run next_tick result m job)
      ≡ not (text_eq job.schedule.kind (codes "at"))
        && job.enabled
        && is_scheduled_by now (compute_next_run next_tick job.schedule m.rescheduled)
due_after_run next_tick done m now job = ground arith
due_after_run next_tick (failed error) m now job = ground arith

-- The jobs have different identifiers and the service runs. After an execution of a job, whether its
-- handler failed or not, a later check collects it again just where the job was enabled, is not one
-- of a single run, and the next run that its schedule gives from the end of the execution is due. So
-- a job of a single run is never collected again, and a recurring one always is when its time comes.
pub collect-finish :
    (id : Text) (next_tick : NextTick) (result : Handled) (m : Moments) (s : CronService)
    (job : CronJob) (now : ℕ) (written : Bool)
    → IsDistinct s.jobs
    → s.running ≡ true
    → find_job id s.jobs ≡ some job
    → is_listed id (collect_due now written (finish_job next_tick id result m s)).0
      ≡ not (text_eq job.schedule.kind (codes "at"))
        && job.enabled
        && is_scheduled_by now (compute_next_run next_tick job.schedule m.rescheduled)
collect-finish id next_tick result m s job now written d on e =
    let s' = finish_job next_tick id result m s in
    let left : find_job id s'.jobs ≡ after_run next_tick result m job =
      ground (arith, find-finish id id next_tick result m s, text_eq_iff id id, e) in
    collected_if_due id now written s' (finish_job-IsDistinct id next_tick result m s d)
      (finish_job-running id next_tick result m s ∙ on)
    ∙ ap (is_due_found now) left
    ∙ due_after_run next_tick result m now job
