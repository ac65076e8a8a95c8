-- ===== src/Cron/Distinct.antt =====
-- The identifiers of the jobs of pkg/cron/service.go, as its operations change the list.
use nook_claw.Prelude.{ℕ, ◌≡◌, refl, true, none, List, [], ◌∷◌, ◌++◌, arith, Bool-cases, inl, inr}
use nook_claw.Prelude.Text.{Text, text_eq, text_eq_iff}
use nook_claw.Cron.{
  CronJob, NextTick, recompute_next_runs, find_job, update_first, without_job, is_listed, claim,
}
use nook_claw.Cron.Find.{
  find-update_first, find-without, IsDistinct, find-recompute, find-claim, find-append,
}

pub update_first-IsDistinct :
    (id : Text) (f : CronJob → CronJob) (jobs : List CronJob)
    → ((j : CronJob) → text_eq j.id id ≡ true → (f j).id ≡ j.id)
    → IsDistinct jobs
    → IsDistinct (update_first id f jobs)
unfolding update_first IsDistinct
update_first-IsDistinct id f [] keeps h = tt
update_first-IsDistinct id f (job ∷ jobs) keeps h = elim (Bool-cases (text_eq job.id id)) [
  | inl e ↦ rw e (ground (arith, keeps job e, h.0), h.1)
  | inr e ↦ rw e (
    ground (arith, e, find-update_first id job.id f jobs keeps, text_eq_iff id job.id, h.0),
    update_first-IsDistinct id f jobs keeps h.1,
  )
]

pub without_job-IsDistinct :
    (id : Text) (jobs : List CronJob) → IsDistinct jobs → IsDistinct (without_job id jobs)
unfolding without_job IsDistinct
without_job-IsDistinct id [] h = tt
without_job-IsDistinct id (job ∷ jobs) h = elim (Bool-cases (text_eq job.id id)) [
  | inl e ↦ rw e (without_job-IsDistinct id jobs h.1)
  | inr e ↦
      rw e (ground (arith, find-without id job.id jobs, h.0), without_job-IsDistinct id jobs h.1)
]

pub claim-IsDistinct :
    (ids : List Text) (jobs : List CronJob) → IsDistinct jobs → IsDistinct (claim ids jobs)
unfolding claim IsDistinct
claim-IsDistinct ids [] h = tt
claim-IsDistinct ids (job ∷ jobs) h =
    let absent' : find_job job.id (claim ids jobs) ≡ none =
      ground (arith, find-claim job.id ids jobs, h.0) in
    elim (Bool-cases (is_listed job.id ids)) [
      | inl e ↦ rw e (absent', claim-IsDistinct ids jobs h.1)
      | inr e ↦ rw e (absent', claim-IsDistinct ids jobs h.1)
    ]

pub recompute-IsDistinct :
    (next_tick : NextTick) (now : ℕ) (jobs : List CronJob)
    → IsDistinct jobs
    → IsDistinct (recompute_next_runs next_tick now jobs)
unfolding recompute_next_runs IsDistinct
recompute-IsDistinct next_tick now [] h = tt
recompute-IsDistinct next_tick now (job ∷ jobs) h =
    let absent' : find_job job.id (recompute_next_runs next_tick now jobs) ≡ none =
      ground (arith, find-recompute job.id next_tick now jobs, h.0) in
    elim (Bool-cases job.enabled) [
      | inl e ↦ rw e (absent', recompute-IsDistinct next_tick now jobs h.1)
      | inr e ↦ rw e (absent', recompute-IsDistinct next_tick now jobs h.1)
    ]

pub append-IsDistinct :
    (job : CronJob) (jobs : List CronJob)
    → find_job job.id jobs ≡ none
    → IsDistinct jobs
    → IsDistinct (jobs ++ (job ∷ []))
unfolding IsDistinct find_job
append-IsDistinct job [] k h = (refl, tt)
append-IsDistinct job (j ∷ jobs) k h = (
  ground
      (arith, find-append j.id job jobs h.0, text_eq_iff job.id j.id, text_eq_iff j.id job.id, k),
  append-IsDistinct job jobs (ground (arith, k)) h.1,
)
