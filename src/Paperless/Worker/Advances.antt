-- ===== src/Paperless/Worker/Advances.antt =====
-- apps/worker/src/paperless-tag.processor.ts: a job row that a handler moves on, write by write.
use versi_go.Prelude.{
  ℕ, suc, ◌≤◌, Text, eq_text, false, ltb, ◌≡◌, refl, ap, ◌∙◌, ◌⊎◌, inl, inr, some, List, map, find,
  Bool-cases, arith,
}
use versi_go.Paperless.{PaperlessTagJob, pending, Store, is_active, update_job}
use versi_go.Paperless.World.{World}
use versi_go.Paperless.Jobs.{Handled, store_of, retry_or_fail, to_failed, to_retry}
use versi_go.Paperless.Worker.Rows.{find_job, find_job-update}

-- What a dispatch makes of a job's row: it is over, or it waits for the next dispatch with one retry
-- more, which its limit allows.
abbrev pub Advances : PaperlessTagJob → PaperlessTagJob → Type 0
Advances old new =
    (is_active new.status ≡ false)
    ⊎ ((new.status ≡ pending)
        × (new.retry_count ≡ suc old.retry_count)
        × (new.max_retries ≡ old.max_retries)
        × (suc old.retry_count ≤ old.max_retries))

abbrev pub Advanced : Text → PaperlessTagJob → Handled → Type 0
Advanced job_id old h =
    (new : PaperlessTagJob) × ((find_job job_id (store_of h) ≡ some new) × Advances old new)

-- The row of a job that is still under way.
abbrev pub IsBudgeted : Text → PaperlessTagJob → List PaperlessTagJob → Type 0
IsBudgeted job_id old jobs =
    (row : PaperlessTagJob) × ((find (λ j. eq_text j.id job_id) jobs ≡ some row)
      × ((row.retry_count ≡ old.retry_count) × (row.max_retries ≡ old.max_retries)))

-- A write that changes neither the id nor the retries.
pub IsBudgeted-update :
    (job_id : Text) (old : PaperlessTagJob) (f : PaperlessTagJob → PaperlessTagJob)
    (jobs : List PaperlessTagJob)
    → ((j : PaperlessTagJob) → (f j).id ≡ j.id)
    → ((j : PaperlessTagJob) → (f j).retry_count ≡ j.retry_count)
    → ((j : PaperlessTagJob) → (f j).max_retries ≡ j.max_retries)
    → IsBudgeted job_id old jobs
    → IsBudgeted job_id old (map (update_job job_id f) jobs)
IsBudgeted-update job_id old f jobs id retries limit (row, (e, (r, m))) =
    (f row, (find_job-update job_id f jobs row id e, (retries row ∙ r, limit row ∙ m)))

-- A write that ends the job.
pub update-Advanced :
    (job_id : Text) (old : PaperlessTagJob) (f : PaperlessTagJob → PaperlessTagJob)
    (jobs : List PaperlessTagJob)
    → ((j : PaperlessTagJob) → (f j).id ≡ j.id)
    → ((j : PaperlessTagJob) → is_active (f j).status ≡ false)
    → IsBudgeted job_id old jobs
    → (new : PaperlessTagJob) × ((find (λ j. eq_text j.id job_id) (map (update_job job_id f) jobs)
          ≡ some new)
        × Advances old new)
update-Advanced job_id old f jobs id over (row, (e, b)) =
    (f row, (find_job-update job_id f jobs row id e, inl (over row)))

pub retry_or_fail-Advanced :
    (w : World) (job_id code : Text) (old : PaperlessTagJob) (s : Store)
    → IsBudgeted job_id old s.jobs
    → Advanced job_id old (retry_or_fail w job_id old.retry_count old.max_retries code s)
unfolding retry_or_fail
retry_or_fail-Advanced w job_id code old s b =
    elim (Bool-cases (ltb old.retry_count old.max_retries)) [
      | inl more ↦
          let (row, (e, (r, m))) = b in
          rw more (
            to_retry code row,
            (
              find_job-update job_id (to_retry code) s.jobs row (λ j. refl) e,
              inr (refl, ap suc r, m, ground arith),
            ),
          )
      | inr none_left ↦
          rw none_left
            (update-Advanced job_id old (to_failed w code) s.jobs (λ j. refl) (λ j. refl) b)
    ]

-- A failure that is not to be retried.
pub fail-Advanced :
    (w : World) (job_id code : Text) (old : PaperlessTagJob) (s : Store)
    → IsBudgeted job_id old s.jobs
    → Advanced job_id old (retry_or_fail w job_id old.max_retries old.max_retries code s)
unfolding retry_or_fail
fail-Advanced w job_id code old s b =
    rw (not_below old.max_retries)
      (update-Advanced job_id old (to_failed w code) s.jobs (λ j. refl) (λ j. refl) b)
  where
    not_below : (n : ℕ) → ltb n n ≡ false
    not_below n = ground arith
