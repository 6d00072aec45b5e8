-- ===== src/Paperless/Tick/Escape.antt =====
-- An exception in a sync run, and what becomes of its job.
use versi_go.Prelude.{
  ℕ, Text, eq_text, ◌==◌, ◌≡◌, refl, sym, subst, ◌∙◌, inl, inr, Option, none, some, List, map, find,
  Bool-cases, arith, length,
}
use versi_go.Paperless.{
  PaperlessTagJob, sync_policy, PolicyPaperlessTag, running, Store, is_settled, update_job,
  write_job,
}
use versi_go.Paperless.Client.{
  TagLookupResult, found, lookup_failed, lookup_unreachable, lookup_not_found, lookup_auth_failed,
  lookup_not_configured, get_tag, list_documents_by_tag,
}
use versi_go.Paperless.Metadata.{TagDocumentRef}
use versi_go.Paperless.World.{World, at_lookup, at_listing}
use versi_go.Paperless.Reconcile.{reconcile_assignments}
use versi_go.Paperless.Links.{ReconcileOutcome, aborted, finished, threw, find_config}
use versi_go.Paperless.Worker.{
  guarded, guarded_job, guarded_config, sync_tag, sync_documents, conclude_sync, handle_sync_policy,
  report_progress,
}
use versi_go.Paperless.Jobs.{
  Handled, answered, escaped, retry_or_fail, to_running, skip_job, is_policy_archived, is_drifted,
}
use versi_go.Paperless.Worker.Rows.{
  find_job, IsIdle, find_job-id, find_job-update, Ends, reconcile_assignments-Ends,
}

-- The row of a running job of the policy.
abbrev pub IsRunning : Text → Text → List PaperlessTagJob → Type 0
IsRunning job_id policy_id jobs =
    (row : PaperlessTagJob) × ((find (λ j. eq_text j.id job_id) jobs ≡ some row)
      × ((row.status ≡ running) × (row.kind ≡ sync_policy) × (row.policy_id ≡ policy_id)))

IsRunning-update :
    (job_id policy_id : Text) (f : PaperlessTagJob → PaperlessTagJob) (jobs : List PaperlessTagJob)
    → ((j : PaperlessTagJob) → (f j).id ≡ j.id)
    → ((j : PaperlessTagJob) → (f j).status ≡ j.status)
    → ((j : PaperlessTagJob) → (f j).kind ≡ j.kind)
    → ((j : PaperlessTagJob) → (f j).policy_id ≡ j.policy_id)
    → IsRunning job_id policy_id jobs
    → IsRunning job_id policy_id (map (update_job job_id f) jobs)
IsRunning-update job_id policy_id f jobs id status kind policy (row, (e, (r, k, p))) = (
  f row,
  (find_job-update job_id f jobs row id e, (status row ∙ r, kind row ∙ k, policy row ∙ p)),
)

-- Only an exception of the merge gets out of the handler.
abbrev pub Escapes : Text → Text → Handled → Type 0
Escapes job_id policy_id (answered answer s) = Unit {0}
Escapes job_id policy_id (escaped message s) = IsRunning job_id policy_id s.jobs

module _ (w : World) (idle : IsIdle w) (policy_id : Text) (old : PaperlessTagJob) where
  retry_or_fail-Escapes :
      (job_id code : Text) (n m : ℕ) (s : Store)
      → Escapes old.id policy_id (retry_or_fail w job_id n m code s)
  unfolding retry_or_fail
  retry_or_fail-Escapes job_id code n m s = ground arith

  conclude_sync-Escapes :
      (version : ℕ) (name : Text) (o : ReconcileOutcome)
      → Ends (Unit {0}) (IsRunning old.id policy_id) o
      → Escapes old.id policy_id (conclude_sync w old.id policy_id version name o)
  unfolding conclude_sync
  conclude_sync-Escapes version name (threw message s) (u, r) = r
  conclude_sync-Escapes version name (aborted c s) r = tt
  conclude_sync-Escapes version name (finished c s) r = tt

  sync_documents-Escapes :
      (name : Text) (o : Option (List TagDocumentRef)) (s : Store)
      → IsRunning old.id policy_id s.jobs
      → Escapes old.id policy_id (sync_documents w old policy_id name o s)
  unfolding sync_documents
  sync_documents-Escapes name none s r = retry_or_fail-Escapes old.id _ _ _ _
  sync_documents-Escapes name (some remote) s r =
      let listed = write_job old.id (λ j. record j { total_count = some (length remote) }) s in
      conclude_sync-Escapes old.config_version name
        (reconcile_assignments w policy_id old.config_version remote (report_progress old.id)
          listed)
        (reconcile_assignments-Ends (Unit {0}) (IsRunning old.id policy_id) w idle
          (λ n message e. tt) policy_id old.config_version (report_progress old.id)
          (λ n t p.
            IsRunning-update old.id policy_id (λ j. record j { processed_count = n }) t.jobs
              (λ j. refl) (λ j. refl) (λ j. refl) (λ j. refl) p)
          remote listed
          (IsRunning-update old.id policy_id (λ j. record j { total_count = some (length remote) })
            s.jobs (λ j. refl) (λ j. refl) (λ j. refl) (λ j. refl) r))

  sync_tag-Escapes :
      (tag_id : ℕ) (lookup : TagLookupResult) (s : Store)
      → IsRunning old.id policy_id s.jobs
      → Escapes old.id policy_id (sync_tag w old policy_id tag_id lookup s)
  unfolding sync_tag
  sync_tag-Escapes tag_id (lookup_failed lookup_unreachable) s r =
      retry_or_fail-Escapes old.id _ _ _ _
  sync_tag-Escapes tag_id (lookup_failed lookup_not_found) s r =
      retry_or_fail-Escapes old.id _ _ _ _
  sync_tag-Escapes tag_id (lookup_failed lookup_auth_failed) s r =
      retry_or_fail-Escapes old.id _ _ _ _
  sync_tag-Escapes tag_id (lookup_failed lookup_not_configured) s r =
      retry_or_fail-Escapes old.id _ _ _ _
  sync_tag-Escapes tag_id (found id name) s r =
      sync_documents-Escapes name (list_documents_by_tag w.connection tag_id)
        (w.others at_listing s) (subst (IsRunning old.id policy_id) (sym (idle at_listing s)) r)

pub handle_sync_policy-Escapes :
    (w : World) (idle : IsIdle w) (job_id policy_id : Text) (s : Store) (old : PaperlessTagJob)
    → find_job job_id s ≡ some old
    → old.kind ≡ sync_policy
    → old.policy_id ≡ policy_id
    → Escapes job_id policy_id (handle_sync_policy w job_id policy_id s)
unfolding handle_sync_policy guarded guarded_job guarded_config skip_job
handle_sync_policy-Escapes w idle job_id policy_id s old e kind policy =
    subst (λ o. Escapes job_id policy_id (guarded_job w job_id policy_id s work o)) (sym e) at_job
  where
    started : Store
    started = w.others at_lookup (write_job job_id to_running s)

    key : old.id ≡ job_id
    key = find_job-id job_id s.jobs old e

    work : PaperlessTagJob → PolicyPaperlessTag → Handled
    work job config =
        sync_tag w job policy_id config.paperless_tag_id
          (get_tag w.connection config.paperless_tag_id) started

    is_started : IsRunning job_id policy_id started.jobs
    is_started =
        subst (IsRunning job_id policy_id) (sym (idle at_lookup (write_job job_id to_running s))) (
          to_running old,
          (find_job-update job_id to_running s.jobs old (λ j. refl) e, (refl, kind, policy)),
        )

    works : (config : PolicyPaperlessTag) → Escapes job_id policy_id (work old config)
    works config =
        subst (λ i. Escapes i policy_id (work old config)) key
          (sync_tag-Escapes w idle policy_id old config.paperless_tag_id
            (get_tag w.connection config.paperless_tag_id) started
            (subst (λ i. IsRunning i policy_id started.jobs) (sym key) is_started))

    at_config :
        (o : Option PolicyPaperlessTag)
        → Escapes job_id policy_id (guarded_config w job_id policy_id s work old o)
    at_config none = tt
    at_config (some config) = elim (Bool-cases (config.config_version == old.config_version)) [
      | inr stale ↦ rw stale tt
      | inl current ↦ elim (Bool-cases (is_policy_archived policy_id s)) [
        | inl archived ↦ rw (current, archived) tt
        | inr open_policy ↦ elim (Bool-cases (is_drifted w config)) [
          | inl drifted ↦ rw (current, open_policy, drifted) tt
          | inr same ↦ rw (current, open_policy, same) (works config)
        ]
      ]
    ]

    at_job : Escapes job_id policy_id (guarded_job w job_id policy_id s work (some old))
    at_job = elim (Bool-cases (is_settled old.status)) [
      | inl settled ↦ rw settled tt
      | inr open_job ↦ rw open_job (at_config (find_config policy_id s))
    ]
