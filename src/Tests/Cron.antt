-- ===== src/Tests/Cron.antt =====
-- The scheduler of pkg/cron/service.go with a recurring job and one of a single run.
use nook_claw.Prelude.{
  ◌+◌, ◌-◌, ◌^◌, ◌≡◌, refl, true, false, not, ◌&&◌, none, some, List, [], ◌∷◌, arith, if◌then◌else◌,
}
use nook_claw.Prelude.Text.{Text, codes, text_eq}
use nook_claw.Prelude.Int.{pos}
use nook_claw.Cron.{
  CronSchedule, CronJob, NextTick, is_after, is_due_at, compute_next_run, due_job_ids,
  is_scheduled_by, recompute_next_runs, get_next_wake_ms, next_wake_from, find_job, update_first,
  without_job, is_listed, claim,
}
use nook_claw.Cron.Service
use nook_claw.Cron.Service.{
  CronService, StoreFile, absent, holds, start, stop, collect_due, Handled, done, failed, Moments,
  finish_job, new_cron_service,
}
use nook_claw.Cron.Jobs.{
  NewJob, new_job, add_job, Step, restarted, reloaded, added, collected, finished,
}
use nook_claw.Cron.Schedule.{
  IsLater, Fits, compute_next_run-after, every-wraps, has_any, next_wake-due,
}
use nook_claw.Cron.Claims.{here, then_step, rearms}
use nook_claw.Cron.Claims.Once.{collected_once}
use nook_claw.Cron.Find.{IsDistinct, map_job, recomputed}
use nook_claw.Cron.Execution.{after_execution, find-finish, collect-finish}
use nook_claw.Cron.Reach.{IsDistinctFile, Reachable, created}
use nook_claw.Cron.Reach
use nook_claw.Cron.Durable.{writes}
use nook_claw.Cron.Recovery.{
  Reachable-IsDistinct, none_yet, and_then, recovered, with_run, missed_one_shot,
}

-- A scheduler of expressions that finds the next minute.
abbrev minute_tick : NextTick
minute_tick expr now = some (pos (now + 60000))

minute_tick-IsLater : IsLater minute_tick
minute_tick-IsLater expr now t e = ground arith

abbrev each_second : CronSchedule
each_second = record {
  kind = codes "every";
  at_ms = none;
  every_ms = some (pos 1000);
  expr = [];
  tz = [];
}

abbrev at_five : CronSchedule
at_five = record { kind = codes "at"; at_ms = some (pos 5000); every_ms = none; expr = []; tz = [] }

abbrev huge_interval : CronSchedule
huge_interval = record each_second { every_ms = some (pos (2 ^ 63 - 1)) }

abbrev new_tick : NewJob
new_tick = record {
  id = codes "a";
  name = codes "tick";
  schedule = each_second;
  message = codes "hi";
  deliver = true;
  channel = codes "cli";
  to = [];
}

abbrev new_reminder : NewJob
new_reminder = record new_tick { id = codes "b"; name = codes "reminder"; schedule = at_five }

abbrev tick_job : CronJob
tick_job = new_job minute_tick 1000 new_tick

abbrev reminder : CronJob
reminder = new_job minute_tick 1000 new_reminder

abbrev both : List CronJob
both = tick_job ∷ reminder ∷ []

abbrev service : CronService
service = record { jobs = both; running = true; file = holds both }

abbrev down : CronService
down = record service { running = false }

both-IsDistinct : IsDistinct both
unfolding IsDistinct find_job text_eq
both-IsDistinct = (refl, (refl, tt))

tick_in_time : Fits 1000 each_second.every_ms
tick_in_time = omega arith

tick_at_two : compute_next_run minute_tick each_second 1000 ≡ some (pos 2000)
unfolding compute_next_run text_eq
tick_at_two = refl

compute_next_run-after_example :
    (is_after 1000 (pos 2000) ≡ true) × (is_due_at 1000 (pos 2000) ≡ false)
compute_next_run-after_example =
    compute_next_run-after minute_tick each_second 1000 (pos 2000) minute_tick-IsLater tick_in_time
      tick_at_two

every_is_not_at : text_eq huge_interval.kind (codes "at") ≡ false
unfolding text_eq
every_is_not_at = refl

every_is_every : text_eq huge_interval.kind (codes "every") ≡ true
unfolding text_eq
every_is_every = refl

every-wraps_example : is_scheduled_by 5 (compute_next_run minute_tick huge_interval 1000) ≡ true
every-wraps_example =
    every-wraps minute_tick huge_interval 1000 (2 ^ 63 - 1) 5 every_is_not_at every_is_every refl
      (omega arith) (omega arith) (omega arith)

next_wake-due_example :
    is_scheduled_by 2000 (get_next_wake_ms both) ≡ has_any (due_job_ids 2000 both)
next_wake-due_example = next_wake-due 2000 both

tick_is_due : due_job_ids 2000 both ≡ codes "a" ∷ []
unfolding due_job_ids compute_next_run text_eq
tick_is_due = refl

reminder_still_waits : get_next_wake_ms (claim (codes "a" ∷ []) both) ≡ some (pos 5000)
unfolding get_next_wake_ms next_wake_from claim compute_next_run text_eq
reminder_still_waits = refl

tick_collected : is_listed (codes "a") (collect_due 2000 true service).0 ≡ true
unfolding collect_due due_job_ids compute_next_run text_eq
tick_collected = refl

abbrev moments : Moments
moments = record {
  start_time = 2000;
  updated = 2500;
  rescheduled = 2500;
  removal_written = true;
  written = true;
}

-- While the first job is executed, the second is executed and removed.
abbrev reminder_finished :
    Step minute_tick
      (collect_due 2000 true service).1
      (finish_job minute_tick (codes "b") done moments (collect_due 2000 true service).1)
reminder_finished = finished (codes "b") done moments

not_rearmed : rearms (codes "a") reminder_finished ≡ false
unfolding rearms text_eq
not_rearmed = refl

collected_once_example :
    is_listed
      (codes "a")
      (collect_due 9000 true
        (finish_job minute_tick (codes "b") done moments (collect_due 2000 true service).1)).0
    ≡ false
collected_once_example =
    collected_once (codes "a") minute_tick 2000 true service
      (finish_job minute_tick (codes "b") done moments (collect_due 2000 true service).1)
      tick_collected (then_step here reminder_finished not_rearmed) 9000 true

find-finish_example :
    find_job (codes "b") (finish_job minute_tick (codes "a") done moments service).jobs ≡ (
      if text_eq (codes "a") (codes "b")
      then after_execution minute_tick done moments (find_job (codes "a") service.jobs)
      else find_job (codes "b") service.jobs)
find-finish_example = find-finish (codes "a") (codes "b") minute_tick done moments service

reminder_gone :
    find_job (codes "b") (finish_job minute_tick (codes "b") (failed []) moments service).jobs
    ≡ none
unfolding finish_job find_job update_first text_eq Service.remove_job_unsafe without_job
    compute_next_run
reminder_gone = refl

tick_found : find_job (codes "a") service.jobs ≡ some tick_job
unfolding find_job text_eq
tick_found = refl

collect-finish_example :
    is_listed
      (codes "a")
      (collect_due 3500 true (finish_job minute_tick (codes "a") (failed []) moments service)).0
    ≡ not (text_eq (codes "every") (codes "at"))
      && true
      && is_scheduled_by 3500 (compute_next_run minute_tick each_second 2500)
collect-finish_example =
    collect-finish (codes "a") minute_tick (failed []) moments service tick_job 3500 true
      both-IsDistinct refl tick_found

tick_runs_again : is_scheduled_by 3500 (compute_next_run minute_tick each_second 2500) ≡ true
unfolding compute_next_run text_eq
tick_runs_again = refl

abbrev restarted_once : CronService
restarted_once = (start minute_tick 4000 true (new_cron_service (holds both))).1

abbrev new_third : NewJob
new_third = record new_tick { id = codes "c" }

abbrev third_added : CronService
third_added = (add_job minute_tick 4500 new_third true restarted_once).1

-- The service starts, gets a third job and loads its file again.
abbrev three_reached : Reachable minute_tick (holds both) (Service.load_store third_added).1
three_reached =
    Reach.then_step
      (Reach.then_step (Reach.then_step created (restarted 4000 true)) (added 4500 new_third true))
      reloaded

third_is_new : find_job (codes "c") restarted_once.jobs ≡ none
unfolding start find_job text_eq compute_next_run recompute_next_runs
third_is_new = refl

Reachable-IsDistinct_example :
    let s = (Service.load_store third_added).1 in IsDistinct s.jobs × IsDistinctFile s.file
Reachable-IsDistinct_example =
    Reachable-IsDistinct minute_tick (holds both) (Service.load_store third_added).1 both-IsDistinct
      three_reached (((tt, tt), third_is_new), tt)

abbrev collected_step : Step minute_tick service (collect_due 2000 true service).1
collected_step = collected 2000 true

collected_written : writes collected_step ≡ true
unfolding writes
collected_written = refl

-- A crash between the collection of a job and its execution.
recovered_example :
    let t = (collect_due 2000 true service).1 in
    let s' = (start minute_tick 2600 true (new_cron_service t.file)).1 in
    ((new_cron_service t.file).jobs ≡ t.jobs)
    × (s'.running ≡ true)
    × ((id : Text)
        → find_job id s'.jobs ≡ map_job (recomputed minute_tick 2600) (find_job id t.jobs))
recovered_example =
    recovered minute_tick service (collect_due 2000 true service).1 2600 refl
      (and_then none_yet collected_step collected_written)

reminder_found : find_job (codes "b") both ≡ some reminder
unfolding find_job text_eq
reminder_found = refl

at_is_at : text_eq (codes "at") (codes "at") ≡ true
unfolding text_eq
at_is_at = refl

missed_one_shot_example :
    let s' = (start minute_tick 6000 true down).1 in
    (find_job (codes "b") s'.jobs ≡ some (with_run none reminder))
    × (is_listed (codes "b") (collect_due 7000 true s').0 ≡ false)
missed_one_shot_example =
    missed_one_shot minute_tick 6000 down (start minute_tick 6000 true down).1 both reminder
      (pos 5000) refl refl both-IsDistinct reminder_found refl at_is_at refl refl here 7000 true
