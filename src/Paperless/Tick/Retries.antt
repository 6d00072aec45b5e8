-- ===== src/Paperless/Tick/Retries.antt =====
-- The retries of a job: how many dispatches end it.
use versi_go.Prelude.{
  ℕ, ◌+◌, ◌≤◌, ◌<◌, Text, codes, Bool, true, false, ◌&&◌, ◌≡◌, refl, sym, subst, ◌⊎◌, inl, inr,
  Option, none, some, List, [], ◌∷◌, find, Bool-cases, arith, length, All, if◌then◌else◌,
}
use versi_go.Paperless.{
  PaperlessTagJob, PaperlessTagJobKind, sync_policy, tag_document, PolicyDocument,
  PolicyPaperlessTag, pending, Store, is_active, is_pending, write_job, write_document,
  tagging_pending,
}
use versi_go.Paperless.Client.{or_value}
use versi_go.Paperless.Client.Assignment.{assign_tag_to_document, TagAssignmentResult}
use versi_go.Paperless.World.{World, at_lookup}
use versi_go.Paperless.Worker.{to_tagging}
use versi_go.Paperless.Jobs.{Handled, answered, escaped, store_of, to_completed, to_failed}
use versi_go.Paperless.Worker.Rows.{find_job, IsIdle, IsFaultless, find_job-id}
use versi_go.Paperless.Worker.Progress.{
  skip_job-Advanced, guarded-Advanced, handle_sync_policy-Advanced,
}
use versi_go.Paperless.Worker.Advances.{
  Advances, Advanced, IsBudgeted, IsBudgeted-update, update-Advanced, retry_or_fail-Advanced,
}
use versi_go.Paperless.Tick.{
  conclude_tagging, tag_found, tag_target, handle_tag_document, handle, process, JobName,
  sync_policy_job, tag_document_job, is_retryable, is_target, link_ref, to_started, answer_of,
}

module _ (w : World) (idle : IsIdle w) (old : PaperlessTagJob) where
  conclude_tagging-Advanced :
      (document_id : Text) (result : TagAssignmentResult) (s : Store)
      → IsBudgeted old.id old s.jobs
      → Advanced old.id old (conclude_tagging w old document_id result s)
  unfolding conclude_tagging
  conclude_tagging-Advanced document_id result s b =
      let code = or_value result.error_code (codes "UNKNOWN") in
      elim (Bool-cases (result.success && result.verified)) [
        | inl done ↦
            rw done (update-Advanced old.id old (to_completed w) s.jobs (λ j. refl) (λ j. refl) b)
        | inr not_done ↦ elim (Bool-cases (is_retryable code)) [
          | inl again ↦
              rw (not_done, again)
                (retry_or_fail-Advanced w old.id code old
                  (write_document document_id (to_tagging tagging_pending (some code)) s) b)
          | inr final ↦
              rw (not_done, final)
                (update-Advanced old.id old (to_failed w code) s.jobs (λ j. refl) (λ j. refl) b)
        ]
      ]

  tag_target-Advanced :
      (tag_id : ℕ) (o : Option PolicyDocument) (s : Store)
      → IsBudgeted old.id old s.jobs
      → Advanced old.id old (tag_target w old tag_id o s)
  unfolding tag_target
  tag_target-Advanced tag_id none s b = skip_job-Advanced w old.id (codes "DOCUMENT_GONE") old s b
  tag_target-Advanced tag_id (some d) s b = at_ref (link_ref d)
    where
      started : Store
      started = w.others at_lookup (write_job old.id to_started s)

      started_budget : IsBudgeted old.id old started.jobs
      started_budget =
          subst (IsBudgeted old.id old) (sym (idle at_lookup (write_job old.id to_started s)))
            (IsBudgeted-update old.id old to_started s.jobs (λ j. refl) (λ j. refl) (λ j. refl) b)

      at_ref : (o : Option Text) → Advanced old.id old (tag_found w old tag_id d.id o s)
      at_ref none = unfold tag_found in skip_job-Advanced w old.id (codes "DOCUMENT_GONE") old s b
      at_ref (some ref) =
          unfold tag_found in
          conclude_tagging-Advanced d.id (assign_tag_to_document w.connection ref tag_id) started
            started_budget

handle_tag_document-Advanced :
    (w : World) (idle : IsIdle w) (job_id policy_id : Text) (s : Store) (old : PaperlessTagJob)
    → find_job job_id s ≡ some old
    → Advanced job_id old (handle_tag_document w job_id policy_id s)
unfolding handle_tag_document
handle_tag_document-Advanced w idle job_id policy_id s old e =
    guarded-Advanced w job_id policy_id s old _ e works
  where
    works :
        (config : PolicyPaperlessTag)
        → Advanced job_id old (
            tag_target w old config.paperless_tag_id
              (find (is_target (or_value old.document_id []) policy_id) s.documents)
              s)
    works config =
        let key = find_job-id job_id s.jobs old e in
        subst
          (λ i. Advanced i old (
            tag_target w old config.paperless_tag_id
              (find (is_target (or_value old.document_id []) policy_id) s.documents) s))
          key
          (tag_target-Advanced w idle old config.paperless_tag_id
            (find (is_target (or_value old.document_id []) policy_id) s.documents) s
            (old, (subst (λ i. find_job i s ≡ some old) (sym key) e, (refl, refl))))

-- The message of a job.
abbrev pub job_name : PaperlessTagJobKind → Text → Text → JobName
job_name sync_policy job_id policy_id = sync_policy_job job_id policy_id
job_name tag_document job_id policy_id = tag_document_job job_id policy_id

answer_of-store : (h : Handled) → (answer_of h).1 ≡ store_of h
answer_of-store (answered answer s) = refl
answer_of-store (escaped message s) = refl

-- A dispatch of a job of either kind, in a run in which no other transaction writes jobs and no
-- insertion meets an unexpected error: it ends the job, or makes it wait with one retry more.
pub process-Advances :
    (w : World) (idle : IsIdle w) (faultless : IsFaultless w) (kind : PaperlessTagJobKind)
    (job_id policy_id : Text) (s : Store) (old : PaperlessTagJob)
    → find_job job_id s ≡ some old
    → (new : PaperlessTagJob) × ((find_job job_id (process w (job_name kind job_id policy_id) s).1
          ≡ some new)
        × Advances old new)
unfolding process
process-Advances w idle faultless kind job_id policy_id s old e =
    let h = handle w (job_name kind job_id policy_id) s in
    subst (λ t. (new : PaperlessTagJob) × ((find_job job_id t ≡ some new) × Advances old new))
      (sym (answer_of-store h)) (at_kind kind)
  where
    at_kind :
        (k : PaperlessTagJobKind) → Advanced job_id old (handle w (job_name k job_id policy_id) s)
    at_kind sync_policy =
        unfold handle in handle_sync_policy-Advanced w idle faultless job_id policy_id s old e
    at_kind tag_document =
        unfold handle in handle_tag_document-Advanced w idle job_id policy_id s old e

abbrev pub is_waiting : Option PaperlessTagJob → Bool
is_waiting none = false
is_waiting (some j) = is_pending j.status

-- The dispatches of a job, each in its own world: the tick sends the message again while the row is
-- PENDING.
unfoldable pub dispatches : List World → PaperlessTagJobKind → Text → Text → Store → Store
dispatches [] kind job_id policy_id s = s
dispatches (w ∷ ws) kind job_id policy_id s =
    let rest =
      dispatches ws kind job_id policy_id (process w (job_name kind job_id policy_id) s).1 in
    if is_waiting (find_job job_id s) then rest else s

abbrev pub IsCalm : World → Type 0
IsCalm w = IsIdle w × IsFaultless w

dispatches-over :
    (ws : List World) (kind : PaperlessTagJobKind) (job_id policy_id : Text) (s : Store)
    (job : PaperlessTagJob)
    → All IsCalm ws
    → find_job job_id s ≡ some job
    → (is_active job.status ≡ false)
      ⊎ ((job.status ≡ pending)
          × (job.max_retries < job.retry_count + length ws)
          × (job.retry_count ≤ job.max_retries))
    → (last : PaperlessTagJob) × ((find_job job_id (dispatches ws kind job_id policy_id s)
          ≡ some last)
        × (is_active last.status ≡ false))
unfolding dispatches
dispatches-over [] kind job_id policy_id s job calm e (inl over) = (job, (e, over))
dispatches-over [] kind job_id policy_id s job calm e (inr (waits, more, within)) =
    absurd (spent more within)
  where
    spent : job.max_retries < job.retry_count + 0 → job.retry_count ≤ job.max_retries → ⊥
    spent more within = omega arith
dispatches-over (w ∷ ws) kind job_id policy_id s job calm e (inl over) =
    rw (settled (find_job job_id s) e over) (job, (e, over))
  where
    settled :
        (o : Option PaperlessTagJob)
        → o ≡ some job
        → is_active job.status ≡ false
        → is_waiting o ≡ false
    settled none e over = refl
    settled (some j) e over = ground arith
dispatches-over (w ∷ ws) kind job_id policy_id s job ((idle, faultless), calm) e
      (inr (waits, more, within)) =
    let (new, (e', advances)) = process-Advances w idle faultless kind job_id policy_id s job e in
    rw (waiting (find_job job_id s) e waits) (
      dispatches-over ws kind job_id policy_id (process w (job_name kind job_id policy_id) s).1 new
        calm e' (next new advances))
  where
    waiting :
        (o : Option PaperlessTagJob) → o ≡ some job → job.status ≡ pending → is_waiting o ≡ true
    waiting none e waits = ground arith
    waiting (some j) e waits = ground arith

    next :
        (new : PaperlessTagJob)
        → Advances job new
        → (is_active new.status ≡ false)
          ⊎ ((new.status ≡ pending)
              × (new.max_retries < new.retry_count + length ws)
              × (new.retry_count ≤ new.max_retries))
    next new (inl over) = inl over
    next new (inr (p, r, m, le)) = inr (p, omega arith, omega arith)

-- A PENDING job of either kind is over (COMPLETED, FAILED or SKIPPED) after one dispatch more than the
-- retries that are left to it, whatever Paperless answers and however other transactions change the
-- configuration and the documents in the meantime. The dispatches meet no unexpected error at an
-- insertion, and nothing else writes jobs while they run.
pub dispatches-ends :
    (ws : List World) (kind : PaperlessTagJobKind) (job_id policy_id : Text) (s : Store)
    (job : PaperlessTagJob)
    → All IsCalm ws
    → find_job job_id s ≡ some job
    → job.status ≡ pending
    → job.retry_count ≤ job.max_retries
    → job.max_retries < job.retry_count + length ws
    → (last : PaperlessTagJob) × ((find_job job_id (dispatches ws kind job_id policy_id s)
          ≡ some last)
        × (is_active last.status ≡ false))
dispatches-ends ws kind job_id policy_id s job calm e waits within more =
    dispatches-over ws kind job_id policy_id s job calm e (inr (waits, more, within))
