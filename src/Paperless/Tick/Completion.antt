-- ===== src/Paperless/Tick/Completion.antt =====
-- A message of a sync job that nothing comes in between, from the checks that the handler begins with to
-- the answer.
use versi_go.Prelude.{ℕ, Text, true, false, ◌==◌, ◌≡◌, refl, sym, ap, ◌∙◌, subst, some, List}
use versi_go.Paperless.{
  PolicyDocument, PolicyPaperlessTag, PaperlessTagJob, Store, is_settled, write_job,
}
use versi_go.Paperless.Client.{get_tag, found, list_documents_by_tag}
use versi_go.Paperless.Metadata.{TagDocumentRef}
use versi_go.Paperless.World.{World, at_lookup, at_listing}
use versi_go.Paperless.Links.{find_config}
use versi_go.Paperless.Reconcile.Manual.{IsKeyed}
use versi_go.Paperless.Reconcile.Finishes.{IsUndisturbed}
use versi_go.Paperless.Jobs.{Handled, success, is_drifted, is_policy_archived, to_running}
use versi_go.Paperless.Worker.{
  guarded, guarded_job, guarded_config, sync_tag, sync_documents, handle_sync_policy,
}
use versi_go.Paperless.Worker.Rows.{find_job, find_job-id, find_job-update, IsFaultless}
use versi_go.Paperless.Worker.Advances.{IsBudgeted}
use versi_go.Paperless.Worker.Completion.{Completed, sync_documents-Completed}
use versi_go.Paperless.Tick.{process, handle, answer_of, sync_policy_job}
use mathlib.Core.List.{Memᴰ}

-- A job that is under way, with a configuration of its version for a policy that is not archived and
-- for the server that is configured.
abbrev pub IsReady : World → Text → Text → Store → PaperlessTagJob → PolicyPaperlessTag → Type 0
IsReady w job_id policy_id s job config =
    (find_job job_id s ≡ some job)
    × (is_settled job.status ≡ false)
    × (find_config policy_id s ≡ some config)
    × ((config.config_version == job.config_version) ≡ true)
    × (is_policy_archived policy_id s ≡ false)
    × (is_drifted w config ≡ false)

-- The checks let such a job through.
pub guarded-works :
    (w : World) (job_id policy_id : Text) (s : Store)
    (work : PaperlessTagJob → PolicyPaperlessTag → Handled) (job : PaperlessTagJob)
    (config : PolicyPaperlessTag)
    → IsReady w job_id policy_id s job config
    → guarded w job_id policy_id s work ≡ work job config
unfolding guarded guarded_job guarded_config
guarded-works w job_id policy_id s work job config (j, runs, k, v, live, stays) =
    subst (λ o. guarded_job w job_id policy_id s work o ≡ work job config) (sym j)
      (rw runs (
        subst (λ o. guarded_config w job_id policy_id s work job o ≡ work job config) (sym k)
          (rw (v, live, stays) refl)))

module _ (w : World) (undisturbed : IsUndisturbed w) (policy_id : Text)
    (remote : List TagDocumentRef) where
  sync_tag-found :
      (job : PaperlessTagJob) (tag_id id : ℕ) (name : Text) (s : Store)
      → get_tag w.connection tag_id ≡ found id name
      → list_documents_by_tag w.connection tag_id ≡ some remote
      → sync_tag w job policy_id tag_id (get_tag w.connection tag_id) (w.others at_lookup s)
        ≡ sync_documents w job policy_id name (some remote) s
  unfolding sync_tag
  sync_tag-found job tag_id id name s g l =
      rw (g, l, undisturbed at_lookup s, undisturbed at_listing s) refl

  -- A sync job that is under way, for the current version of the configuration, a policy that is not
  -- archived and the server that is configured, is done in one dispatch if Paperless finds the tag and
  -- lists its documents, nothing comes in between and no insertion fails: the answer is success, the
  -- job is COMPLETED, the configuration ACTIVE with the time of the run, and the shown links that carry
  -- the automatic origin are those of the listed documents. (Conditions: ids of documents are unique,
  -- and new ids are fresh.)
  pub process-Completed :
      (faultless : IsFaultless w) (job_id : Text) (s : Store) (job : PaperlessTagJob)
      (config : PolicyPaperlessTag) (id : ℕ) (name : Text)
      → IsReady w job_id policy_id s job config
      → get_tag w.connection config.paperless_tag_id ≡ found id name
      → list_documents_by_tag w.connection config.paperless_tag_id ≡ some remote
      → IsKeyed s.documents
      → ((d : PolicyDocument) (n : ℕ) → Memᴰ d s.documents → ¬ (d.id ≡ w.uuid n))
      → (next : Store) × (process w (sync_policy_job job_id policy_id) s ≡ (success, next))
        × Completed w job_id policy_id remote next
  unfolding process handle handle_sync_policy
  process-Completed faultless job_id s job config id name ready g l keyed fresh =
      let (next, ends, done) =
        sync_documents-Completed w undisturbed policy_id remote faultless job config name running
          budgeted ready.2 ready.3 keyed fresh in
      (next, ap answer_of (runs ∙ ends), subst (λ i. Completed w i policy_id remote next) same done)
    where
      running : Store
      running = write_job job_id to_running s

      same : job.id ≡ job_id
      same = find_job-id job_id s.jobs job ready.0

      budgeted : IsBudgeted job.id job running.jobs
      budgeted =
          subst (λ i. IsBudgeted i job running.jobs) (sym same)
            (
              to_running job,
              (find_job-update job_id to_running s.jobs job (λ j. refl) ready.0, (refl, refl)),
            )

      runs :
          handle_sync_policy w job_id policy_id s
          ≡ sync_documents w job policy_id name (some remote) running
      runs =
          guarded-works w job_id policy_id s _ job config ready
          ∙ sync_tag-found job config.paperless_tag_id id name running g l
