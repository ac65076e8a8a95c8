-- ===== src/Cron/Service.antt =====
-- pkg/cron/service.go: the operations of the service. The lock makes an operation one step; its
-- readings of the clock, the new identifier and whether the file is written are arguments.
-- WriteFileAtomic writes the whole file or leaves it as it was. The file is kept as the jobs that
-- its JSON stands for. A job's handler runs without the lock, so it may use the service, and what
-- others do to the service meanwhile is part of what it does.
use nook_claw.Prelude.{
  ℕ, zero, suc, Bool, true, false, Option, none, some, List, [], ◌∷◌, length, ltb, if◌then◌else◌,
}
use nook_claw.Prelude.Text.{Text, codes, text_eq}
use nook_claw.Cron.{
  CronJobState, CronJob, NextTick, compute_next_run, recompute_next_runs, due_job_ids, find_job,
  update_first, without_job, claim,
}

-- The store's file: it does not exist, cannot be read, does not decode (what has been decoded up to
-- the error is in the store), or holds a list of jobs.
pub data StoreFile : Type 0 where
  absent unreadable : StoreFile
  garbled : List CronJob → StoreFile
  holds : List CronJob → StoreFile

pub data CronError : Type 0 where
  not_read not_decoded not_saved job_not_found : CronError

pub record CronService : Type 0 where
  pub jobs : List CronJob
  pub running : Bool
  pub file : StoreFile

abbrev pub loaded : StoreFile → Option CronError × List CronJob
loaded absent = (none, [])
loaded unreadable = (some not_read, [])
loaded (garbled jobs) = (some not_decoded, jobs)
loaded (holds jobs) = (none, jobs)

abbrev pub load_store : CronService → Option CronError × CronService
load_store s = let (error, jobs) = loaded s.file in (error, record s { jobs = jobs })

-- NewCronService does not look at the error.
abbrev pub new_cron_service : StoreFile → CronService
new_cron_service file = record { jobs = (loaded file).1; running = false; file = file }

abbrev pub save_store : Bool → CronService → Option CronError × CronService
save_store true s = (none, record s { file = holds s.jobs })
save_store false s = (some not_saved, s)

abbrev pub started : Option CronError × CronService → Option CronError × CronService
started (none, s) = (none, record s { running = true })
started (some error, s) = (some error, s)

abbrev pub start_loaded :
    NextTick → ℕ → Bool → Option CronError × CronService → Option CronError × CronService
start_loaded next_tick now written (some error, s) = (some error, s)
start_loaded next_tick now written (none, s) =
    started (save_store written (record s { jobs = recompute_next_runs next_tick now s.jobs }))

unfoldable pub start : NextTick → ℕ → Bool → CronService → Option CronError × CronService
start next_tick now written s =
    if s.running then (none, s) else start_loaded next_tick now written (load_store s)

unfoldable pub stop : CronService → CronService
stop s = if s.running then record s { running = false } else s

-- checkJobs up to where it gives the lock back: the jobs to execute.
unfoldable pub collect_due : ℕ → Bool → CronService → List Text × CronService
unfolding due_job_ids claim
collect_due now written s =
    let ids = due_job_ids now s.jobs in
    if s.running
    then (ids, (save_store written (record s { jobs = claim ids s.jobs })).1)
    else ([], s)

-- What the handler returns: no error, or the error's text.
pub data Handled : Type 0 where
  done : Handled
  failed : Text → Handled

abbrev pub JobHandler : Type 0
JobHandler = CronJob → CronService → Handled × CronService

-- What one execution reads of the clock, and whether its writes of the file go well: the one of
-- removeJobUnsafe, and the last.
pub record Moments : Type 0 where
  pub start_time : ℕ
  pub updated : ℕ
  pub rescheduled : ℕ
  pub removal_written : Bool
  pub written : Bool

unfoldable pub remove_job_unsafe : Text → Bool → CronService → Bool × CronService
unfolding without_job
remove_job_unsafe id written s =
    let jobs = without_job id s.jobs in
    let s' = record s { jobs = jobs } in
    if ltb (length jobs) (length s.jobs) then (true, (save_store written s').1) else (false, s')

abbrev pub recorded_state : Handled → ℕ → CronJobState → CronJobState
recorded_state done start_time state = record state {
  last_run_at_ms = some start_time;
  last_status = codes "ok";
  last_error = [];
}
recorded_state (failed error) start_time state = record state {
  last_run_at_ms = some start_time;
  last_status = codes "error";
  last_error = error;
}

abbrev pub recorded : Handled → Moments → CronJob → CronJob
recorded result m job = record job {
  state = recorded_state result m.start_time job.state;
  updated_at_ms = m.updated;
}

-- The job is one of a single run that stays in the list.
abbrev pub switched_off : CronJob → CronJob
switched_off job = record job {
  enabled = false;
  state = record job.state { next_run_at_ms = none };
}

abbrev pub with_next_run : NextTick → ℕ → CronJob → CronJob
with_next_run next_tick now job = record job {
  state = record job.state { next_run_at_ms = compute_next_run next_tick job.schedule now };
}

abbrev pub update_job_in : Text → (CronJob → CronJob) → CronService → CronService
update_job_in id f s = record s { jobs = update_first id f s.jobs }

-- What executeJobByID makes of the job after its handler, up to the last write of the file.
abbrev pub finish_found :
    NextTick → Text → Handled → Moments → CronService → Option CronJob → CronService
finish_found next_tick id result m s none = s
finish_found next_tick id result m s (some job) =
    if text_eq job.schedule.kind (codes "at")
    then if job.delete_after_run
      then (remove_job_unsafe id m.removal_written (update_job_in id (recorded result m) s)).1
      else update_job_in id (λ j. switched_off (recorded result m j)) s
    else update_job_in id (λ j. with_next_run next_tick m.rescheduled (recorded result m j)) s

abbrev pub save_found : Bool → Option CronJob → CronService → CronService
save_found written none s = s
save_found written (some job) s = (save_store written s).1

-- executeJobByID from where it takes the lock again.
unfoldable pub finish_job : NextTick → Text → Handled → Moments → CronService → CronService
unfolding remove_job_unsafe
finish_job next_tick id result m s =
    save_found m.written (find_job id s.jobs)
      (finish_found next_tick id result m s (find_job id s.jobs))

abbrev pub call : Option JobHandler → CronJob → CronService → Handled × CronService
call none job s = (done, s)
call (some handler) job s = handler job s

abbrev pub execute_found :
    NextTick → Option JobHandler → Text → Moments → CronService → Option CronJob → CronService
execute_found next_tick on_job id m s none = s
execute_found next_tick on_job id m s (some job) =
    let (result, s') = call on_job job s in finish_job next_tick id result m s'

unfoldable pub execute_job_by_id :
    NextTick → Option JobHandler → Text → Moments → CronService → CronService
execute_job_by_id next_tick on_job id m s =
    execute_found next_tick on_job id m s (find_job id s.jobs)

-- The last loop of checkJobs.
unfoldable pub execute_all :
    NextTick → Option JobHandler → List Text → (ℕ → Moments) → CronService → CronService
unfolding execute_job_by_id
execute_all next_tick on_job [] m s = s
execute_all next_tick on_job (id ∷ ids) m s =
    execute_all next_tick on_job ids (λ i. m (suc i))
      (execute_job_by_id next_tick on_job id (m zero) s)

unfoldable pub check_jobs :
    NextTick → Option JobHandler → ℕ → Bool → (ℕ → Moments) → CronService → CronService
unfolding collect_due execute_all
check_jobs next_tick on_job now written m s =
    let (ids, s') = collect_due now written s in execute_all next_tick on_job ids m s'
