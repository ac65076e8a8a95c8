-- ===== src/Cron/Reach.antt =====
-- The states that pkg/cron/service.go reaches: its identifiers and its file.
use nook_claw.Prelude.{
  ℕ, ◌≡◌, refl, Bool, true, false, Option, none, some, [], ◌∷◌, ◌++◌, arith, if_both, Bool-cases,
  inl, inr, ltb, length,
}
use nook_claw.Prelude.Text.{Text, codes, text_eq, text_eq_iff}
use nook_claw.Cron.{CronJob, NextTick, find_job, without_job, claim, due_job_ids}
use nook_claw.Cron.Service.{
  CronService, StoreFile, CronError, loaded, save_store, start_loaded, start, stop, collect_due,
  remove_job_unsafe, Handled, Moments, recorded, switched_off, with_next_run, finish_found,
  finish_job, update_job_in, new_cron_service,
}
use nook_claw.Cron.Jobs.{
  new_job, add_job, update_job, update_found, enable_found, enabled_job, enable_job, Step,
  restarted, stopped, collected, finished, reloaded, added, updated, removed, enabled,
}
use nook_claw.Cron.Find.{saved-jobs, collect_due-jobs, save_found-jobs, recorded-id, IsDistinct}
use nook_claw.Cron.Distinct.{
  update_first-IsDistinct, without_job-IsDistinct, claim-IsDistinct, recompute-IsDistinct,
  append-IsDistinct,
}

abbrev pub IsDistinctFile : StoreFile → Type 0
IsDistinctFile file = IsDistinct (loaded file).1

pub data Reachable (next_tick : NextTick) (file : StoreFile) : CronService → Type 0 where
  created : Reachable next_tick file (new_cron_service file)
  then_step :
      {s t : CronService}
      → Reachable next_tick file s
      → Step next_tick s t
      → Reachable next_tick file t

remove-IsDistinct :
    (id : Text) (written : Bool) (s : CronService)
    → IsDistinct s.jobs
    → IsDistinct (remove_job_unsafe id written s).1.jobs
unfolding remove_job_unsafe
remove-IsDistinct id written s h =
    let s' = record s { jobs = without_job id s.jobs } in
    let kept = without_job-IsDistinct id s.jobs h in
    if_both (λ (r : Bool × CronService). IsDistinct r.1.jobs)
      (ltb (length (without_job id s.jobs)) (length s.jobs)) (true, (save_store written s').1)
      (false, s') (rw (saved-jobs written s') kept) kept

finish_found-IsDistinct :
    (id : Text) (next_tick : NextTick) (result : Handled) (m : Moments) (s : CronService)
    (o : Option CronJob)
    → IsDistinct s.jobs
    → IsDistinct (finish_found next_tick id result m s o).jobs
finish_found-IsDistinct id next_tick result m s none h = h
finish_found-IsDistinct id next_tick result m s (some job) h =
    let r = recorded result m in
    let keeps = λ (j : CronJob) (_ : text_eq j.id id ≡ true). recorded-id result m j in
    elim (Bool-cases (text_eq job.schedule.kind (codes "at"))) [
      | inl e ↦ rw e (elim (Bool-cases job.delete_after_run) [
        | inl d ↦ rw d (
            remove-IsDistinct id m.removal_written (update_job_in id r s)
              (update_first-IsDistinct id r s.jobs keeps h))
        | inr d ↦ rw d (update_first-IsDistinct id (λ j. switched_off (r j)) s.jobs keeps h)
      ])
      | inr e ↦ rw e (
          update_first-IsDistinct id (λ j. with_next_run next_tick m.rescheduled (r j)) s.jobs keeps
            h)
    ]

pub finish_job-IsDistinct :
    (id : Text) (next_tick : NextTick) (result : Handled) (m : Moments) (s : CronService)
    → IsDistinct s.jobs
    → IsDistinct (finish_job next_tick id result m s).jobs
unfolding finish_job
finish_job-IsDistinct id next_tick result m s h =
    let o = find_job id s.jobs in
    rw (save_found-jobs m.written o (finish_found next_tick id result m s o))
      (finish_found-IsDistinct id next_tick result m s o h)

collect_due-IsDistinct :
    (now : ℕ) (written : Bool) (s : CronService)
    → IsDistinct s.jobs
    → IsDistinct (collect_due now written s).1.jobs
collect_due-IsDistinct now written s h =
    let kept = claim-IsDistinct (due_job_ids now s.jobs) s.jobs h in
    rw (collect_due-jobs now written s)
      (if_both IsDistinct s.running (claim (due_job_ids now s.jobs) s.jobs) s.jobs kept h)

start_loaded-IsDistinct :
    (next_tick : NextTick) (now : ℕ) (written : Bool) (error : Option CronError) (s : CronService)
    → IsDistinct s.jobs
    → IsDistinct (start_loaded next_tick now written (error, s)).1.jobs
start_loaded-IsDistinct next_tick now written (some error) s h = h
start_loaded-IsDistinct next_tick now true none s h = recompute-IsDistinct next_tick now s.jobs h
start_loaded-IsDistinct next_tick now false none s h = recompute-IsDistinct next_tick now s.jobs h

start-IsDistinct :
    (next_tick : NextTick) (now : ℕ) (written : Bool) (s : CronService)
    → IsDistinct s.jobs
    → IsDistinctFile s.file
    → IsDistinct (start next_tick now written s).1.jobs
unfolding start
start-IsDistinct next_tick now written s h k =
    let (error, jobs) = loaded s.file in
    let s' = record s { jobs = jobs } in
    if_both (λ r. IsDistinct r.1.jobs) s.running (none, s)
      (start_loaded next_tick now written (error, s')) h
      (start_loaded-IsDistinct next_tick now written error s' k)

update_found-IsDistinct :
    (job : CronJob) (now : ℕ) (written : Bool) (s : CronService) (o : Option CronJob)
    → IsDistinct s.jobs
    → IsDistinct (update_found job now written s o).1.jobs
update_found-IsDistinct job now written s none h = h
update_found-IsDistinct job now written s (some found) h =
    let f : CronJob → CronJob = λ j. record job { updated_at_ms = now } in
    rw (saved-jobs written (update_job_in job.id f s))
      (update_first-IsDistinct job.id f s.jobs (λ j e. ground (arith, text_eq_iff j.id job.id)) h)

enable_found-IsDistinct :
    (id : Text) (f : CronJob → CronJob) (written : Bool) (s : CronService) (o : Option CronJob)
    → ((j : CronJob) → text_eq j.id id ≡ true → (f j).id ≡ j.id)
    → IsDistinct s.jobs
    → IsDistinct (enable_found id f written s o).1.jobs
enable_found-IsDistinct id f written s none keeps h = h
enable_found-IsDistinct id f written s (some job) keeps h =
    rw (saved-jobs written (update_job_in id f s)) (update_first-IsDistinct id f s.jobs keeps h)

enabled_job-id :
    (next_tick : NextTick) (on : Bool) (at now : ℕ) (job : CronJob)
    → (enabled_job next_tick on at now job).id ≡ job.id
enabled_job-id next_tick true at now job = refl
enabled_job-id next_tick false at now job = refl

-- A job that the step adds has an identifier that no job in memory has.
abbrev pub IsFresh : (next_tick : NextTick) {s t : CronService} → Step next_tick s t → Type 0
IsFresh next_tick {s} (added now n written) = find_job n.id s.jobs ≡ none
IsFresh next_tick _ = Unit

-- Every job that was added had such an identifier.
abbrev pub AreFresh :
    (next_tick : NextTick) (file : StoreFile) {s : CronService}
    → Reachable next_tick file s
    → Type 0
AreFresh next_tick file created = Unit
AreFresh next_tick file (then_step r step) = AreFresh next_tick file r × IsFresh next_tick step

pub Step-IsDistinct :
    (next_tick : NextTick) {s t : CronService} (step : Step next_tick s t)
    → IsFresh next_tick step
    → IsDistinct s.jobs
    → IsDistinctFile s.file
    → IsDistinct t.jobs
unfolding stop add_job update_job enable_job
Step-IsDistinct next_tick {s} (restarted now written) fresh h k =
    start-IsDistinct next_tick now written s h k
Step-IsDistinct next_tick {s} stopped fresh h k =
    if_both (λ r. IsDistinct r.jobs) s.running (record s { running = false }) s h h
Step-IsDistinct next_tick {s} (collected now written) fresh h k =
    collect_due-IsDistinct now written s h
Step-IsDistinct next_tick {s} (finished id result m) fresh h k =
    finish_job-IsDistinct id next_tick result m s h
Step-IsDistinct next_tick reloaded fresh h k = k
Step-IsDistinct next_tick {s} (added now n written) fresh h k =
    let job = new_job next_tick now n in
    rw (saved-jobs written (record s { jobs = s.jobs ++ (job ∷ []) }))
      (append-IsDistinct job s.jobs fresh h)
Step-IsDistinct next_tick {s} (updated job now written) fresh h k =
    update_found-IsDistinct job now written s (find_job job.id s.jobs) h
Step-IsDistinct next_tick {s} (removed id written) fresh h k = remove-IsDistinct id written s h
Step-IsDistinct next_tick {s} (enabled id on at now written) fresh h k =
    enable_found-IsDistinct id (enabled_job next_tick on at now) written s (find_job id s.jobs)
      (λ j e. enabled_job-id next_tick on at now j) h
