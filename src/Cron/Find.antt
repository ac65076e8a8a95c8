-- ===== src/Cron/Find.antt =====
-- How the job with an identifier is found after the list of pkg/cron/service.go has changed, and
-- that saving does not change the list.
use nook_claw.Prelude.{
  ℕ, ◌≡◌, refl, Bool, true, false, Option, none, some, List, [], ◌∷◌, ◌++◌, arith, if◌then◌else◌,
}
use nook_claw.Prelude.Text.{Text, text_eq, text_eq_iff}
use nook_claw.Cron.{
  CronJob, NextTick, compute_next_run, recompute_next_runs, is_due, due_job_ids, find_job,
  update_first, without_job, is_listed, claim,
}
use nook_claw.Cron.Service.{
  CronService, collect_due, save_store, save_found, Handled, done, failed, Moments, recorded,
}

pub saved-jobs : (written : Bool) (s : CronService) → (save_store written s).1.jobs ≡ s.jobs
saved-jobs true s = refl
saved-jobs false s = refl

pub saved-running :
    (written : Bool) (s : CronService) → (save_store written s).1.running ≡ s.running
saved-running true s = refl
saved-running false s = refl

pub save_found-running :
    (written : Bool) (o : Option CronJob) (s : CronService)
    → (save_found written o s).running ≡ s.running
save_found-running written none s = refl
save_found-running written (some job) s = saved-running written s

pub save_found-jobs :
    (written : Bool) (o : Option CronJob) (s : CronService) → (save_found written o s).jobs ≡ s.jobs
save_found-jobs written none s = refl
save_found-jobs written (some job) s = saved-jobs written s

pub collect_due-jobs :
    (now : ℕ) (written : Bool) (s : CronService)
    → (collect_due now written s).1.jobs
      ≡ (if s.running then claim (due_job_ids now s.jobs) s.jobs else s.jobs)
unfolding collect_due
collect_due-jobs now written s =
    ground (arith, saved-jobs written (record s { jobs = claim (due_job_ids now s.jobs) s.jobs }))

pub recorded-id :
    (result : Handled) (m : Moments) (job : CronJob) → (recorded result m job).id ≡ job.id
recorded-id done m job = refl
recorded-id (failed error) m job = refl

abbrev pub map_job : (CronJob → CronJob) → Option CronJob → Option CronJob
map_job f none = none
map_job f (some job) = some (f job)

pub find-id :
    (id : Text) (jobs : List CronJob) (job : CronJob)
    → find_job id jobs ≡ some job
    → text_eq job.id id ≡ true
unfolding find_job
find-id id [] job e = absurd (ground arith)
find-id id (j ∷ jobs) job e = ground (arith, find-id id jobs job)

pub find-update_first :
    (id id' : Text) (f : CronJob → CronJob) (jobs : List CronJob)
    → ((j : CronJob) → text_eq j.id id ≡ true → (f j).id ≡ j.id)
    → find_job id' (update_first id f jobs)
      ≡ (if text_eq id id' then map_job f (find_job id jobs) else find_job id' jobs)
unfolding find_job update_first
find-update_first id id' f [] keeps = ground arith
find-update_first id id' f (job ∷ jobs) keeps = ground (
  arith,
  find-update_first id id' f jobs keeps,
  keeps job,
  text_eq_iff id id',
  text_eq_iff job.id id,
  text_eq_iff job.id id',
)

pub find-without :
    (id id' : Text) (jobs : List CronJob)
    → find_job id' (without_job id jobs) ≡ (if text_eq id id' then none else find_job id' jobs)
unfolding find_job without_job
find-without id id' [] = ground arith
find-without id id' (job ∷ jobs) = ground (
  arith,
  find-without id id' jobs,
  text_eq_iff id id',
  text_eq_iff job.id id,
  text_eq_iff job.id id',
)

-- No two jobs have the same identifier.
unfoldable pub IsDistinct : List CronJob → Type 0
IsDistinct [] = Unit
IsDistinct (job ∷ jobs) = (find_job job.id jobs ≡ none) × IsDistinct jobs

abbrev pub is_due_found : ℕ → Option CronJob → Bool
is_due_found now none = false
is_due_found now (some job) = is_due now job

pub due-absent :
    (id : Text) (now : ℕ) (jobs : List CronJob)
    → find_job id jobs ≡ none
    → is_listed id (due_job_ids now jobs) ≡ false
unfolding find_job due_job_ids
due-absent id now [] h = refl
due-absent id now (job ∷ jobs) h = ground (arith, due-absent id now jobs)

pub due-find :
    (id : Text) (now : ℕ) (jobs : List CronJob)
    → IsDistinct jobs
    → is_listed id (due_job_ids now jobs) ≡ is_due_found now (find_job id jobs)
unfolding find_job due_job_ids IsDistinct
due-find id now [] h = refl
due-find id now (job ∷ jobs) h =
    ground (arith, due-find id now jobs h.1, due-absent id now jobs, text_eq_iff job.id id, h.0)

abbrev pub recomputed : NextTick → ℕ → CronJob → CronJob
recomputed next_tick now job =
    if job.enabled
    then record job {
      state = record job.state { next_run_at_ms = compute_next_run next_tick job.schedule now };
    }
    else job

pub find-recompute :
    (id : Text) (next_tick : NextTick) (now : ℕ) (jobs : List CronJob)
    → find_job id (recompute_next_runs next_tick now jobs)
      ≡ map_job (recomputed next_tick now) (find_job id jobs)
unfolding find_job recompute_next_runs
find-recompute id next_tick now [] = refl
find-recompute id next_tick now (job ∷ jobs) = ground (arith, find-recompute id next_tick now jobs)

abbrev pub unarmed : List Text → CronJob → CronJob
unarmed ids job =
    if is_listed job.id ids
    then record job { state = record job.state { next_run_at_ms = none } }
    else job

pub find-claim :
    (id : Text) (ids : List Text) (jobs : List CronJob)
    → find_job id (claim ids jobs) ≡ map_job (unarmed ids) (find_job id jobs)
unfolding find_job claim
find-claim id ids [] = refl
find-claim id ids (job ∷ jobs) = ground (arith, find-claim id ids jobs)

pub find-append :
    (id : Text) (job : CronJob) (jobs : List CronJob)
    → find_job id jobs ≡ none
    → find_job id (jobs ++ (job ∷ [])) ≡ (if text_eq job.id id then some job else none)
unfolding find_job
find-append id job [] h = refl
find-append id job (j ∷ jobs) h = ground (arith, find-append id job jobs)
