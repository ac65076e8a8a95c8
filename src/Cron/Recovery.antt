-- ===== src/Cron/Recovery.antt =====
-- pkg/cron/service.go after a crash: what the file gives back, and what Start makes of it.
use nook_claw.Prelude.{
  ℕ, ◌≡◌, refl, sym, ◌∙◌, ap, Bool, true, false, Option, none, some, List, [], ◌∷◌, arith, inl, inr,
}
use nook_claw.Prelude.Text.{Text, codes, text_eq, text_eq_iff}
use nook_claw.Prelude.Int.{ℤ}
use nook_claw.Cron.{
  CronJob, NextTick, compute_next_run, is_after, recompute_next_runs, find_job, is_listed,
}
use nook_claw.Cron.Service.{
  CronService, StoreFile, holds, loaded, start, collect_due, new_cron_service,
}
use nook_claw.Cron.Jobs.{Step}
use nook_claw.Cron.Find.{map_job, recomputed, find-recompute, IsDistinct}
use nook_claw.Cron.Distinct.{recompute-IsDistinct}
use nook_claw.Cron.Reach.{IsDistinctFile, Step-IsDistinct, Reachable, created, then_step, AreFresh}
use nook_claw.Cron.Durable.{IsSaved, writes, Step-Follows}
use nook_claw.Cron.Claims.{is_set, is_armed, Quiet}
use nook_claw.Cron.Claims.Once.{not_collected, Quiet-armed}

-- Whatever steps follow on the creation of the service, loads of the file among them, and however
-- its writes go, no two jobs in memory have the same identifier, and no two in the file, if none had
-- in the first file and AddJob was always given an identifier that no job in memory had.
pub Reachable-IsDistinct :
    (next_tick : NextTick) (file : StoreFile) (s : CronService)
    → IsDistinctFile file
    → (r : Reachable next_tick file s) → AreFresh next_tick file r
    → IsDistinct s.jobs × IsDistinctFile s.file
Reachable-IsDistinct next_tick file _ h created fresh = (h, h)
Reachable-IsDistinct next_tick file t h (then_step {s} r step) fresh =
    let (ms, fs) = Reachable-IsDistinct next_tick file s h r fresh.0 in
    let ds = Step-IsDistinct next_tick step fresh.1 ms fs in
    (ds, elim (Step-Follows next_tick step) [ inl k ↦ rw k ds | inr k ↦ rw k.0 fs ])

-- Steps whose last writes of the file go well.
pub data Written (next_tick : NextTick) (s : CronService) : CronService → Type 0 where
  none_yet : Written next_tick s s
  and_then :
      {t u : CronService}
      → Written next_tick s t
      → (step : Step next_tick t u) → writes step ≡ true
      → Written next_tick s u

Written-IsSaved :
    (next_tick : NextTick) (s t : CronService) → IsSaved s → Written next_tick s t → IsSaved t
Written-IsSaved next_tick s _ h none_yet = h
Written-IsSaved next_tick s u h (and_then {t} r step w) =
    let k = Written-IsSaved next_tick s t h r in
    elim (Step-Follows next_tick step) [ inl e ↦ e | inr e ↦ e.0 ∙ k ∙ ap holds (sym (e.1 w k)) ]

start-saved :
    (next_tick : NextTick) (now : ℕ) (s : CronService) (jobs : List CronJob)
    → s.running ≡ false
    → s.file ≡ holds jobs
    → let s' = (start next_tick now true s).1 in
      (s'.jobs ≡ recompute_next_runs next_tick now jobs) × (s'.running ≡ true)
unfolding start
start-saved next_tick now s jobs r e = ground (arith, r, e)

-- As long as the writes of the file go well, a crash after any step loses no job: the file gives
-- back the jobs that were in memory, and Start computes the next run of every enabled one from its
-- schedule, also of a job that was collected and whose execution was cut off.
pub recovered :
    (next_tick : NextTick) (s t : CronService) (now : ℕ)
    → IsSaved s
    → Written next_tick s t
    → let s' = (start next_tick now true (new_cron_service t.file)).1 in
      ((new_cron_service t.file).jobs ≡ t.jobs)
      × (s'.running ≡ true)
      × ((id : Text)
          → find_job id s'.jobs ≡ map_job (recomputed next_tick now) (find_job id t.jobs))
recovered next_tick s t now h r =
    let e : IsSaved t = Written-IsSaved next_tick s t h r in
    let k = start-saved next_tick now (new_cron_service t.file) t.jobs refl e in
    (
      ap (λ f. (loaded f).1) e,
      k.1,
      λ id. ap (find_job id) k.0 ∙ find-recompute id next_tick now t.jobs,
    )

absent-armed :
    (id : Text) (jobs : List CronJob) → find_job id jobs ≡ none → is_armed id jobs ≡ false
unfolding find_job is_armed
absent-armed id [] h = refl
absent-armed id (job ∷ jobs) h = ground (arith, absent-armed id jobs)

abbrev armed_found : Option CronJob → Bool
armed_found none = false
armed_found (some job) = is_set job.state.next_run_at_ms

armed-find :
    (id : Text) (jobs : List CronJob)
    → IsDistinct jobs
    → is_armed id jobs ≡ armed_found (find_job id jobs)
unfolding find_job IsDistinct is_armed
armed-find id [] h = refl
armed-find id (job ∷ jobs) h =
    ground (arith, armed-find id jobs h.1, absent-armed id jobs, text_eq_iff job.id id, h.0)

abbrev pub with_run : Option ℤ → CronJob → CronJob
with_run next job = record job { state = record job.state { next_run_at_ms = next } }

missed_run :
    (next_tick : NextTick) (now : ℕ) (job : CronJob) (t : ℤ)
    → text_eq job.schedule.kind (codes "at") ≡ true
    → job.schedule.at_ms ≡ some t
    → is_after now t ≡ false
    → compute_next_run next_tick job.schedule now ≡ none
unfolding compute_next_run
missed_run next_tick now job t k e h = ground (arith, k, e, h)

-- A job of a single run whose time has passed when the service starts, as when the process was down
-- then or crashed before the execution, stays in the list enabled and without a run, and no check
-- collects it until a caller changes it or loads the file again.
pub missed_one_shot :
    (next_tick : NextTick) (now : ℕ) (s t : CronService) (jobs : List CronJob) (job : CronJob)
    (at : ℤ)
    → s.running ≡ false
    → s.file ≡ holds jobs
    → IsDistinct jobs
    → find_job job.id jobs ≡ some job
    → job.enabled ≡ true
    → text_eq job.schedule.kind (codes "at") ≡ true
    → job.schedule.at_ms ≡ some at
    → is_after now at ≡ false
    → Quiet job.id next_tick (start next_tick now true s).1 t
    → (now' : ℕ) (written : Bool)
    → (find_job job.id (start next_tick now true s).1.jobs ≡ some (with_run none job))
      × (is_listed job.id (collect_due now' written t).0 ≡ false)
missed_one_shot next_tick now s t jobs job at stopped e d found on kind time passed quiet now' w =
    let none_left = missed_run next_tick now job at kind time passed in
    let k = (start-saved next_tick now s jobs stopped e).0 in
    let left : find_job job.id (recompute_next_runs next_tick now jobs) ≡ some (with_run none job) =
      ground (arith, find-recompute job.id next_tick now jobs, found, on, none_left) in
    let unarmed : is_armed job.id (recompute_next_runs next_tick now jobs) ≡ false =
      armed-find job.id (recompute_next_runs next_tick now jobs)
        (recompute-IsDistinct next_tick now jobs d)
      ∙ ap armed_found left in
    (
      ap (find_job job.id) k ∙ left,
      not_collected job.id now' w t
          (Quiet-armed job.id next_tick quiet (ap (is_armed job.id) k ∙ unarmed)),
    )
