-- ===== src/Cron/Jobs.antt =====
-- pkg/cron/service.go: the operations on one job that the cron tool and the commands call, and the
-- steps of the service.
use nook_claw.Prelude.{ℕ, Bool, true, false, Option, none, some, [], ◌∷◌, ◌++◌, length}
use nook_claw.Prelude.Text.{Text, codes, text_eq}
use nook_claw.Prelude.Int.{ℤ}
use nook_claw.Cron.{CronSchedule, CronJob, NextTick, compute_next_run, get_next_wake_ms, find_job}
use nook_claw.Cron.Service.{
  CronError, job_not_found, CronService, load_store, save_store, remove_job_unsafe, update_job_in,
  start, stop, collect_due, Handled, Moments, finish_job, with_next_run, switched_off,
}

-- What AddJob is called with. The identifier is that of generateID.
pub record NewJob : Type 0 where
  pub id : Text
  pub name : Text
  pub schedule : CronSchedule
  pub message : Text
  pub deliver : Bool
  pub channel : Text
  pub to : Text

abbrev pub new_job : NextTick → ℕ → NewJob → CronJob
new_job next_tick now n = record {
  id = n.id;
  name = n.name;
  enabled = true;
  schedule = n.schedule;
  payload = record {
    kind = codes "agent_turn";
    message = n.message;
    command = [];
    deliver = n.deliver;
    channel = n.channel;
    to = n.to;
  };
  state = record {
    next_run_at_ms = compute_next_run next_tick n.schedule now;
    last_run_at_ms = none;
    last_status = [];
    last_error = [];
  };
  created_at_ms = now;
  updated_at_ms = now;
  delete_after_run = text_eq n.schedule.kind (codes "at");
}

unfoldable pub add_job : NextTick → ℕ → NewJob → Bool → CronService → Option CronError × CronService
add_job next_tick now n written s =
    save_store written (record s { jobs = s.jobs ++ (new_job next_tick now n ∷ []) })

abbrev pub update_found :
    CronJob → ℕ → Bool → CronService → Option CronJob → Option CronError × CronService
update_found job now written s none = (some job_not_found, s)
update_found job now written s (some found) =
    save_store written (update_job_in job.id (λ j. record job { updated_at_ms = now }) s)

unfoldable pub update_job : CronJob → ℕ → Bool → CronService → Option CronError × CronService
update_job job now written s = update_found job now written s (find_job job.id s.jobs)

abbrev pub remove_job : Text → Bool → CronService → Bool × CronService
remove_job = remove_job_unsafe

-- The two readings of the clock are `updated` and `now`.
abbrev pub enabled_job : NextTick → Bool → ℕ → ℕ → CronJob → CronJob
enabled_job next_tick true updated now job =
    with_next_run next_tick now (record job { enabled = true; updated_at_ms = updated })
enabled_job next_tick false updated now job = switched_off (record job { updated_at_ms = updated })

abbrev pub enable_found :
    Text → (CronJob → CronJob) → Bool → CronService → Option CronJob → Option CronJob × CronService
enable_found id f written s none = (none, s)
enable_found id f written s (some job) =
    (some (f job), (save_store written (update_job_in id f s)).1)

unfoldable pub enable_job :
    NextTick → Text → Bool → ℕ → ℕ → Bool → CronService → Option CronJob × CronService
enable_job next_tick id enabled updated now written s =
    enable_found id (enabled_job next_tick enabled updated now) written s (find_job id s.jobs)

pub record CronStatus : Type 0 where
  pub enabled : Bool
  pub jobs : ℕ
  pub next_wake_at_ms : Option ℤ

unfoldable pub status : CronService → CronStatus
status s = record {
  enabled = s.running;
  jobs = length s.jobs;
  next_wake_at_ms = get_next_wake_ms s.jobs;
}

-- One step of the service: of its loop, of the end of an execution, or of a caller. AddJob does not
-- look whether its identifier is new.
pub data Step (next_tick : NextTick) (s : CronService) : CronService → Type 0 where
  restarted : (now : ℕ) (written : Bool) → Step next_tick s (start next_tick now written s).1
  stopped : Step next_tick s (stop s)
  collected : (now : ℕ) (written : Bool) → Step next_tick s (collect_due now written s).1
  finished :
      (id : Text) (result : Handled) (m : Moments)
      → Step next_tick s (finish_job next_tick id result m s)
  reloaded : Step next_tick s (load_store s).1
  added :
      (now : ℕ) (n : NewJob) (written : Bool)
      → Step next_tick s (add_job next_tick now n written s).1
  updated :
      (job : CronJob) (now : ℕ) (written : Bool) → Step next_tick s (update_job job now written s).1
  removed : (id : Text) (written : Bool) → Step next_tick s (remove_job id written s).1
  enabled :
      (id : Text) (enabled : Bool) (updated now : ℕ) (written : Bool)
      → Step next_tick s (enable_job next_tick id enabled updated now written s).1
