-- ===== src/Cron/Durable.antt =====
-- The file of pkg/cron/service.go beside the jobs in memory.
use nook_claw.Prelude.{
  ap, ℕ, ◌≤◌, ◌≡◌, refl, ◌⊎◌, Bool, true, false, Option, none, some, List, [], ◌∷◌, ◌++◌, arith,
  if◌then◌else◌, if_both, Bool-cases, inl, inr, ltb, length,
}
use nook_claw.Prelude.Text.{Text, codes, text_eq}
use nook_claw.Cron.{
  CronJob, NextTick, recompute_next_runs, find_job, without_job, claim, due_job_ids,
}
use nook_claw.Cron.Service.{
  CronService, StoreFile, absent, unreadable, garbled, holds, CronError, loaded, save_store,
  started, start_loaded, start, stop, collect_due, remove_job_unsafe, Handled, Moments, recorded,
  switched_off, with_next_run, finish_found, save_found, finish_job, update_job_in,
}
use nook_claw.Cron.Jobs.{
  new_job, add_job, update_job, update_found, enable_found, enabled_job, enable_job, Step,
  restarted, stopped, collected, finished, reloaded, added, updated, removed, enabled,
}

-- The file holds the jobs that are in memory.
abbrev pub IsSaved : CronService → Type 0
IsSaved s = s.file ≡ holds s.jobs

-- Either the new jobs are in the file, or the file is as it was. The second is the case only where
-- the last write failed (`written` is false) or the jobs are those that the file held.
abbrev pub Follows : Bool → CronService → CronService → Type 0
Follows written s t =
    IsSaved t ⊎ ((t.file ≡ s.file) × (written ≡ true → IsSaved s → t.jobs ≡ s.jobs))

save_store-Follows :
    (written : Bool) (s s' : CronService)
    → s'.file ≡ s.file
    → Follows written s (save_store written s').1
save_store-Follows true s s' e = inl refl
save_store-Follows false s s' e = inr (e, λ w. absurd (ground arith))

same-Follows : (written : Bool) (s : CronService) → Follows written s s
same-Follows written s = inr (refl, λ w k. refl)

started-Follows :
    (written : Bool) (s s' : CronService)
    → s'.file ≡ s.file
    → Follows written s (started (save_store written s')).1
started-Follows true s s' e = inl refl
started-Follows false s s' e = inr (e, λ w. absurd (ground arith))

length-without : (id : Text) (jobs : List CronJob) → length (without_job id jobs) ≤ length jobs
unfolding without_job
length-without id [] = omega arith
length-without id (job ∷ jobs) = ground (arith, length-without id jobs)

without-same :
    (id : Text) (jobs : List CronJob)
    → ltb (length (without_job id jobs)) (length jobs) ≡ false
    → without_job id jobs ≡ jobs
unfolding without_job
without-same id [] h = refl
without-same id (job ∷ jobs) h = ground (arith, length-without id jobs, without-same id jobs)

remove-Follows :
    (id : Text) (written : Bool) (s : CronService)
    → Follows written s (remove_job_unsafe id written s).1
unfolding remove_job_unsafe
remove-Follows id written s =
    let s' = record s { jobs = without_job id s.jobs } in
    elim (Bool-cases (ltb (length (without_job id s.jobs)) (length s.jobs))) [
      | inl e ↦ rw e (save_store-Follows written s s' refl)
      | inr e ↦ rw e (inr (refl, λ w k. without-same id s.jobs e))
    ]

start_loaded-Follows :
    (next_tick : NextTick) (now : ℕ) (written : Bool) (file : StoreFile) (s : CronService)
    → s.file ≡ file
    → let (error, jobs) = loaded file in
      Follows written s (start_loaded next_tick now written (error, record s { jobs = jobs })).1
start_loaded-Follows next_tick now written absent s e =
    started-Follows written s (record s { jobs = recompute_next_runs next_tick now [] }) refl
start_loaded-Follows next_tick now written unreadable s e =
    inr (refl, λ w k. absurd (ground (arith, e, k)))
start_loaded-Follows next_tick now written (garbled jobs) s e =
    inr (refl, λ w k. absurd (ground (arith, e, k)))
start_loaded-Follows next_tick now written (holds jobs) s e =
    started-Follows written s (record s { jobs = recompute_next_runs next_tick now jobs }) refl

start-Follows :
    (next_tick : NextTick) (now : ℕ) (written : Bool) (s : CronService)
    → Follows written s (start next_tick now written s).1
unfolding start
start-Follows next_tick now written s =
    let (error, jobs) = loaded s.file in
    let s' = record s { jobs = jobs } in
    if_both (λ (r : Option CronError × CronService). Follows written s r.1) s.running (none, s)
      (start_loaded next_tick now written (error, s')) (same-Follows written s)
      (start_loaded-Follows next_tick now written s.file s refl)

collect_due-Follows :
    (now : ℕ) (written : Bool) (s : CronService) → Follows written s (collect_due now written s).1
unfolding collect_due
collect_due-Follows now written s =
    let ids = due_job_ids now s.jobs in
    let s' = record s { jobs = claim ids s.jobs } in
    if_both (λ (r : List Text × CronService). Follows written s r.1) s.running
      (ids, (save_store written s').1) ([], s) (save_store-Follows written s s' refl)
      (same-Follows written s)

finish_found-file :
    (id : Text) (next_tick : NextTick) (result : Handled) (m : Moments) (s : CronService)
    (job : CronJob)
    → let s' = finish_found next_tick id result m s (some job) in IsSaved s' ⊎ (s'.file ≡ s.file)
finish_found-file id next_tick result m s job =
    let r = recorded result m in
    let off = update_job_in id (λ j. switched_off (r j)) s in
    let gone = (remove_job_unsafe id m.removal_written (update_job_in id r s)).1 in
    let next = update_job_in id (λ j. with_next_run next_tick m.rescheduled (r j)) s in
    let P : CronService → Type 0 = λ s'. IsSaved s' ⊎ (s'.file ≡ s.file) in
    let removed : P gone = elim (remove-Follows id m.removal_written (update_job_in id r s)) [
      | inl h ↦ inl h
      | inr h ↦ inr h.0
    ] in
    if_both P (text_eq job.schedule.kind (codes "at")) (if job.delete_after_run then gone else off)
      next (if_both P job.delete_after_run gone off removed (inr refl)) (inr refl)

saved-Follows :
    (written : Bool) (s s' : CronService)
    → (IsSaved s' ⊎ (s'.file ≡ s.file))
    → Follows written s (save_store written s').1
saved-Follows true s s' h = inl refl
saved-Follows false s s' (inl h) = inl h
saved-Follows false s s' (inr e) = inr (e, λ w. absurd (ground arith))

finish-Follows :
    (id : Text) (next_tick : NextTick) (result : Handled) (m : Moments) (s : CronService)
    (o : Option CronJob)
    → Follows m.written s (save_found m.written o (finish_found next_tick id result m s o))
finish-Follows id next_tick result m s none = same-Follows m.written s
finish-Follows id next_tick result m s (some job) =
    saved-Follows m.written s (finish_found next_tick id result m s (some job))
      (finish_found-file id next_tick result m s job)

update_found-Follows :
    (job : CronJob) (now : ℕ) (written : Bool) (s : CronService) (o : Option CronJob)
    → Follows written s (update_found job now written s o).1
update_found-Follows job now written s none = same-Follows written s
update_found-Follows job now written s (some found) =
    save_store-Follows written s (update_job_in job.id (λ j. record job { updated_at_ms = now }) s)
      refl

enable_found-Follows :
    (id : Text) (f : CronJob → CronJob) (written : Bool) (s : CronService) (o : Option CronJob)
    → Follows written s (enable_found id f written s o).1
enable_found-Follows id f written s none = same-Follows written s
enable_found-Follows id f written s (some job) =
    save_store-Follows written s (update_job_in id f s) refl

-- The last write of the file in the step goes well, if it has one.
unfoldable pub writes : {next_tick : NextTick} {s t : CronService} → Step next_tick s t → Bool
writes (restarted now written) = written
writes stopped = true
writes (collected now written) = written
writes (finished id result m) = m.written
writes reloaded = true
writes (added now n written) = written
writes (updated job now written) = written
writes (removed id written) = written
writes (enabled id on at now written) = written

pub Step-Follows :
    (next_tick : NextTick) {s t : CronService} (step : Step next_tick s t)
    → Follows (writes step) s t
unfolding writes stop add_job update_job enable_job finish_job
Step-Follows next_tick {s} (restarted now written) = start-Follows next_tick now written s
Step-Follows next_tick {s} stopped =
    if_both (Follows true s) s.running (record s { running = false }) s (inr (refl, λ w k. refl))
      (same-Follows true s)
Step-Follows next_tick {s} (collected now written) = collect_due-Follows now written s
Step-Follows next_tick {s} (finished id result m) =
    finish-Follows id next_tick result m s (find_job id s.jobs)
Step-Follows next_tick {s} reloaded = inr (refl, λ w k. ap (λ f. (loaded f).1) k)
Step-Follows next_tick {s} (added now n written) =
    save_store-Follows written s (record s { jobs = s.jobs ++ (new_job next_tick now n ∷ []) }) refl
Step-Follows next_tick {s} (updated job now written) =
    update_found-Follows job now written s (find_job job.id s.jobs)
Step-Follows next_tick {s} (removed id written) = remove-Follows id written s
Step-Follows next_tick {s} (enabled id on at now written) =
    enable_found-Follows id (enabled_job next_tick on at now) written s (find_job id s.jobs)
