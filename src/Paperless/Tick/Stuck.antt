-- ===== src/Paperless/Tick/Stuck.antt =====
-- The ticks after an exception in a sync run.
use mathlib.Core.List.{append-nil}
use versi_go.Prelude.{
  filter-append, find-Mem, Text, eq_text, eq_text_iff, Bool, true, false, not, ◌||◌, ◌&&◌, ◌≡◌,
  refl, sym, ap, subst, ◌∙◌, inl, inr, none, some, List, [], ◌∷◌, ◌++◌, filter, any, any_iff, take,
  Bool-cases, arith, length,
}
use versi_go.Paperless.{
  PaperlessTagJob, PolicyPaperlessTag, sync_policy, Store, is_sync_policy, new_job,
}
use versi_go.Paperless.Client.{or_value}
use versi_go.Paperless.World.{World}
use versi_go.Paperless.Worker.{handle_sync_policy}
use versi_go.Paperless.Jobs.{escaped, failure, store_of}
use versi_go.Paperless.Worker.Rows.{find_job, IsIdle, find_job-append}
use versi_go.Paperless.Tick.{
  process, handle, sync_policy_job, schedule_due, schedule_policy, is_syncing, is_due, enqueue_rows,
  handle_reconcile, is_pending_job, answer_of,
}
use versi_go.Paperless.Tick.Schedule.{due_configs, enqueue_rows-jobs}
use versi_go.Paperless.Tick.Escape.{IsRunning, handle_sync_policy-Escapes, Escapes}

-- A sync job of the policy, in any state.
abbrev pub is_sync_of : Text → PaperlessTagJob → Bool
is_sync_of policy_id j = eq_text j.policy_id policy_id && is_sync_policy j.kind

-- What a tick leaves of a policy with a running sync job: the same sync jobs, and the running one.
abbrev Holds : Text → Text → List PaperlessTagJob → List PaperlessTagJob → Type 0
Holds job_id policy_id before after =
    (filter (is_sync_of policy_id) after ≡ filter (is_sync_of policy_id) before)
    × IsRunning job_id policy_id after

module _ (w : World) (job_id policy_id : Text) where
  IsRunning-syncing :
      (jobs : List PaperlessTagJob)
      → IsRunning job_id policy_id jobs
      → any (is_syncing policy_id) jobs ≡ true
  IsRunning-syncing jobs (row, (e, (r, k, p))) = (any_iff (is_syncing policy_id) jobs).1 (
    row,
    (find-Mem (λ j. eq_text j.id job_id) jobs row e),
    (rw (r, k) (rw ((eq_text_iff row.policy_id policy_id).1 p) refl)),
  )

  schedule_due-Holds :
      (configs : List PolicyPaperlessTag) (s : Store)
      → IsRunning job_id policy_id s.jobs
      → Holds job_id policy_id s.jobs (schedule_due w configs s).jobs
  unfolding schedule_due
  schedule_due-Holds [] s r = (refl, r)
  schedule_due-Holds (c ∷ configs) s r =
      elim (Bool-cases (not (is_due w c) || any (is_syncing c.policy_id) s.jobs)) [
        | inl skipped ↦ rw skipped (schedule_due-Holds configs s r)
        | inr free ↦
            let (row, (e, rest)) = r in
            let (same, last) =
              schedule_due-Holds configs (schedule_policy w c s)
                (row, (find_job-append job_id s.jobs (job ∷ []) row e, rest)) in
            rw free (
              same
                  ∙ filter-append (is_sync_of policy_id) s.jobs (job ∷ [])
                  ∙ ap (λ ys. filter (is_sync_of policy_id) s.jobs ++ ys) (other free)
                  ∙ append-nil (filter (is_sync_of policy_id) s.jobs),
              last,
            )
      ]
    where
      job : PaperlessTagJob
      job = new_job (w.uuid (length s.jobs)) c.policy_id none sync_policy c.config_version

      other :
          (not (is_due w c) || any (is_syncing c.policy_id) s.jobs) ≡ false
          → filter (is_sync_of policy_id) (job ∷ []) ≡ []
      other free = elim (Bool-cases (eq_text c.policy_id policy_id)) [
        | inr differs ↦ rw differs refl
        | inl same ↦
            let busy : any (is_syncing c.policy_id) s.jobs ≡ true =
              subst (λ p. any (is_syncing p) s.jobs ≡ true)
                (sym ((eq_text_iff c.policy_id policy_id).0 same)) (IsRunning-syncing s.jobs r) in
            ground arith
      ]

  handle_reconcile-Holds :
      (s : Store)
      → IsRunning job_id policy_id s.jobs
      → Holds job_id policy_id s.jobs (store_of (handle_reconcile w s)).jobs
  unfolding handle_reconcile
  handle_reconcile-Holds s r =
      let rows = take 200 (filter is_pending_job s.jobs) in
      let dispatched = enqueue_rows w rows s in
      let same = (enqueue_rows-jobs w rows s).0 in
      let r' : IsRunning job_id policy_id dispatched.jobs =
        subst (IsRunning job_id policy_id) (sym same) r in
      elim (Bool-cases (or_value w.sync_enabled true)) [
        | inl on ↦
            let (kept, last) = schedule_due-Holds (due_configs w dispatched) dispatched r' in
            rw on (kept ∙ ap (filter (is_sync_of policy_id)) same, last)
        | inr off ↦ rw off (ap (filter (is_sync_of policy_id)) same, r')
      ]

-- Ticks, one after the other.
unfoldable pub ticks : List World → Store → Store
ticks [] s = s
ticks (w ∷ ws) s = ticks ws (store_of (handle_reconcile w s))

ticks-Holds :
    (ws : List World) (job_id policy_id : Text) (s : Store)
    → IsRunning job_id policy_id s.jobs
    → Holds job_id policy_id s.jobs (ticks ws s).jobs
unfolding ticks
ticks-Holds [] job_id policy_id s r = (refl, r)
ticks-Holds (w ∷ ws) job_id policy_id s r =
    let (first, r') = handle_reconcile-Holds w job_id policy_id s r in
    let (rest, last) = ticks-Holds ws job_id policy_id (store_of (handle_reconcile w s)) r' in
    (rest ∙ first, last)

-- When a sync run of a policy ends with an exception of the merge, `process` answers with its message,
-- and however many ticks follow, the job stays RUNNING and the policy gets no other sync job.
pub escape-ticks :
    (w : World) (idle : IsIdle w) (job_id policy_id message : Text) (s s' : Store)
    (old : PaperlessTagJob) (later : List World)
    → find_job job_id s ≡ some old
    → old.kind ≡ sync_policy
    → old.policy_id ≡ policy_id
    → handle_sync_policy w job_id policy_id s ≡ escaped message s'
    → (process w (sync_policy_job job_id policy_id) s ≡ (failure message, s'))
      × (filter (is_sync_of policy_id) (ticks later s').jobs
          ≡ filter (is_sync_of policy_id) s'.jobs)
      × IsRunning job_id policy_id (ticks later s').jobs
unfolding process handle
escape-ticks w idle job_id policy_id message s s' old later e kind policy thrown =
    let r : IsRunning job_id policy_id s'.jobs =
      subst (Escapes job_id policy_id) thrown
        (handle_sync_policy-Escapes w idle job_id policy_id s old e kind policy) in
    let (same, last) = ticks-Holds later job_id policy_id s' r in (ap answer_of thrown, same, last)
