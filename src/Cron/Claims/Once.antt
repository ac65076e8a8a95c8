-- ===== src/Cron/Claims/Once.antt =====
-- The steps of pkg/cron/service.go on a job that has been collected.
use nook_claw.Prelude.{ℕ, ◌≡◌, Bool, true, false, Option, none, some, [], ◌∷◌, ◌++◌, arith}
use nook_claw.Prelude.Text.{Text, text_eq}
use nook_claw.Cron.{CronJob, NextTick, due_job_ids, find_job, update_first, is_listed, claim}
use nook_claw.Cron.Service.{
  CronService, collect_due, Handled, Moments, recorded, switched_off, with_next_run, finish_found,
  finish_job, update_job_in, stop,
}
use nook_claw.Cron.Jobs.{
  new_job, add_job, update_job, update_found, enable_found, enabled_job, enable_job, Step,
  restarted, stopped, collected, finished, reloaded, added, updated, removed, enabled,
}
use nook_claw.Cron.Claims.{
  is_armed, is_armed_job, rearms, other_job, Quiet, here, then_step, due-armed, claim-armed,
  update_first-armed, append-armed, collect_due-armed, remove-armed, update_first-other,
}
use nook_claw.Cron.Find.{saved-jobs, save_found-jobs, recorded-id}

finish_found-armed :
    (id id' : Text) (next_tick : NextTick) (result : Handled) (m : Moments) (s : CronService)
    (o : Option CronJob)
    → text_eq id' id ≡ false
    → is_armed id s.jobs ≡ false
    → is_armed id (finish_found next_tick id' result m s o).jobs ≡ false
finish_found-armed id id' next_tick result m s none ne h = h
finish_found-armed id id' next_tick result m s (some job) ne h =
    let r = recorded result m in
    let keeps = recorded-id result m in
    let marked : is_armed id (update_first id' r s.jobs) ≡ false =
      update_first-other id id' r s.jobs ne keeps h in
    ground (
      arith,
      remove-armed id id' m.removal_written (update_job_in id' r s) marked,
      update_first-other id id' (λ j. switched_off (r j)) s.jobs ne keeps h,
      update_first-other id id' (λ j. with_next_run next_tick m.rescheduled (r j)) s.jobs ne keeps
          h,
    )

finish_job-armed :
    (id id' : Text) (next_tick : NextTick) (result : Handled) (m : Moments) (s : CronService)
    → text_eq id' id ≡ false
    → is_armed id s.jobs ≡ false
    → is_armed id (finish_job next_tick id' result m s).jobs ≡ false
unfolding finish_job
finish_job-armed id id' next_tick result m s ne h =
    let o = find_job id' s.jobs in
    rw (save_found-jobs m.written o (finish_found next_tick id' result m s o))
      (finish_found-armed id id' next_tick result m s o ne h)

update_found-armed :
    (id : Text) (job : CronJob) (now : ℕ) (written : Bool) (s : CronService) (o : Option CronJob)
    → text_eq job.id id ≡ false
    → is_armed id s.jobs ≡ false
    → is_armed id (update_found job now written s o).1.jobs ≡ false
update_found-armed id job now written s none ne h = h
update_found-armed id job now written s (some found) ne h =
    let f : CronJob → CronJob = λ j. record job { updated_at_ms = now } in
    rw (saved-jobs written (update_job_in job.id f s))
      (update_first-armed id job.id f s.jobs (λ j e. ground (arith, ne)) h)

enable_found-armed :
    (id id' : Text) (f : CronJob → CronJob) (written : Bool) (s : CronService) (o : Option CronJob)
    → ((j : CronJob) → text_eq j.id id' ≡ true → is_armed_job id (f j) ≡ false)
    → is_armed id s.jobs ≡ false
    → is_armed id (enable_found id' f written s o).1.jobs ≡ false
enable_found-armed id id' f written s none k h = h
enable_found-armed id id' f written s (some job) k h =
    rw (saved-jobs written (update_job_in id' f s)) (update_first-armed id id' f s.jobs k h)

Step-armed :
    (id : Text) (next_tick : NextTick) {s t : CronService} (step : Step next_tick s t)
    → rearms id step ≡ false
    → is_armed id s.jobs ≡ false
    → is_armed id t.jobs ≡ false
unfolding stop add_job update_job enable_job rearms
Step-armed id next_tick (restarted now written) q h = absurd (ground arith)
Step-armed id next_tick {s} stopped q h = ground (arith, h)
Step-armed id next_tick {s} (collected now written) q h = collect_due-armed id now written s h
Step-armed id next_tick {s} (finished id' result m) q h =
    finish_job-armed id id' next_tick result m s q h
Step-armed id next_tick reloaded q h = absurd (ground arith)
Step-armed id next_tick {s} (added now n written) q h =
    let job = new_job next_tick now n in
    rw (saved-jobs written (record s { jobs = s.jobs ++ (job ∷ []) }))
      (append-armed id job s.jobs q h)
Step-armed id next_tick {s} (updated job now written) q h =
    update_found-armed id job now written s (find_job job.id s.jobs) q h
Step-armed id next_tick {s} (removed id' written) q h = remove-armed id id' written s h
Step-armed id next_tick {s} (enabled id' true at now written) q h =
    enable_found-armed id id' (enabled_job next_tick true at now) written s (find_job id' s.jobs)
      (λ j e. ground (arith, other_job id id' j q e)) h
Step-armed id next_tick {s} (enabled id' false at now written) q h =
    enable_found-armed id id' (enabled_job next_tick false at now) written s (find_job id' s.jobs)
      (λ j e. ground arith) h

pub Quiet-armed :
    (id : Text) (next_tick : NextTick) {s t : CronService}
    → Quiet id next_tick s t
    → is_armed id s.jobs ≡ false
    → is_armed id t.jobs ≡ false
Quiet-armed id next_tick here h = h
Quiet-armed id next_tick (then_step r step q) h =
    Step-armed id next_tick step q (Quiet-armed id next_tick r h)

pub not_collected :
    (id : Text) (now : ℕ) (written : Bool) (s : CronService)
    → is_armed id s.jobs ≡ false
    → is_listed id (collect_due now written s).0 ≡ false
unfolding collect_due
not_collected id now written s h = ground (arith, due-armed id now s.jobs h)

collected-armed :
    (id : Text) (now : ℕ) (written : Bool) (s : CronService)
    → is_listed id (collect_due now written s).0 ≡ true
    → is_armed id (collect_due now written s).1.jobs ≡ false
unfolding collect_due
collected-armed id now written s h =
    let ids = due_job_ids now s.jobs in
    ground
      (arith, claim-armed id ids s.jobs, saved-jobs written (record s { jobs = claim ids s.jobs }))

-- A job that checkJobs has collected is not collected again, at whatever time, before a step that
-- may give it a new run: the end of its execution, a start, a load of the file, or a caller that adds, updates or
-- enables a job of that identifier. Other jobs may be added, collected, executed, changed and
-- removed, and saves of the file may fail.
pub collected_once :
    (id : Text) (next_tick : NextTick) (now : ℕ) (written : Bool) (s t : CronService)
    → is_listed id (collect_due now written s).0 ≡ true
    → Quiet id next_tick (collect_due now written s).1 t
    → (now' : ℕ) (written' : Bool) → is_listed id (collect_due now' written' t).0 ≡ false
collected_once id next_tick now written s t h r now' written' =
    not_collected id now' written' t
      (Quiet-armed id next_tick r (collected-armed id now written s h))
