-- ===== src/Paperless/Worker/Progress.antt =====
-- One dispatch of a job, and as many as its retries allow.
use versi_go.Prelude.{
  ℕ, Text, codes, eq_text, true, false, ◌==◌, ◌≡◌, refl, sym, subst, inl, inr, Option, none, some,
  List, find, Bool-cases, arith, filter, take, length,
}
use versi_go.Paperless.{
  PaperlessTagJob, PolicyPaperlessTag, AiJobStatus, Store, is_active, is_settled, write_job,
  write_config,
}
use versi_go.Paperless.Client.{
  TagLookupResult, found, lookup_failed, lookup_unreachable, lookup_not_found, lookup_auth_failed,
  lookup_not_configured, get_tag, list_documents_by_tag,
}
use versi_go.Paperless.Metadata.{TagDocumentRef}
use versi_go.Paperless.World.{World, at_lookup, at_listing, at_backfill}
use versi_go.Paperless.Reconcile.{reconcile_assignments}
use versi_go.Paperless.Links.{ReconcileOutcome, aborted, finished, threw, find_config, is_current}
use versi_go.Paperless.Worker.{
  guarded, guarded_job, guarded_config, sync_tag, sync_documents, conclude_sync, handle_sync_policy,
  schedule_manual_link_backfill, needs_tag, report_progress,
}
use versi_go.Paperless.Jobs.{
  Handled, skip_job, is_policy_archived, is_drifted, to_running, to_skipped, write_progress,
  to_completed, to_synced, to_error,
}
use versi_go.Paperless.Worker.Rows.{
  find_job, IsIdle, IsFaultless, find_job-id, find_job-backfill, Ends, reconcile_assignments-Ends,
}
use versi_go.Paperless.Worker.Advances.{
  Advanced, IsBudgeted, IsBudgeted-update, fail-Advanced, retry_or_fail-Advanced, update-Advanced,
}

module _ (w : World) (idle : IsIdle w) (faultless : IsFaultless w) (policy_id : Text)
    (old : PaperlessTagJob) where
  conclude_sync-Advanced :
      (version : ℕ) (name : Text) (o : ReconcileOutcome)
      → Ends ⊥ (IsBudgeted old.id old) o
      → Advanced old.id old (conclude_sync w old.id policy_id version name o)
  unfolding conclude_sync schedule_manual_link_backfill
  conclude_sync-Advanced version name (threw message s) b = absurd b.0
  conclude_sync-Advanced version name (aborted c s) b =
      update-Advanced old.id old _ s.jobs (λ j. refl) (λ j. refl) b
  conclude_sync-Advanced version name (finished c s) b =
      let done =
        write_job old.id (λ j. write_progress c (to_completed w j))
          (write_config policy_id version (to_synced w name) s) in
      let last = w.others at_backfill done in
      let (new, (e, over)) =
        update-Advanced old.id old (λ j. write_progress c (to_completed w j)) s.jobs (λ j. refl)
          (λ j. refl) b in
      let kept : find_job old.id last ≡ some new =
        subst (λ jobs. find (λ j. eq_text j.id old.id) jobs ≡ some new)
          (sym (idle at_backfill done)) e in
      elim (Bool-cases (is_current policy_id version last)) [
        | inl current ↦ rw current (
          new,
          (
            find_job-backfill w policy_id old.id version
                (take 200 (filter (needs_tag policy_id) last.documents)) last new kept,
            over,
          ),
        )
        | inr stale ↦ rw stale (new, (kept, over))
      ]

  sync_documents-Advanced :
      (name : Text) (o : Option (List TagDocumentRef)) (s : Store)
      → IsBudgeted old.id old s.jobs
      → Advanced old.id old (sync_documents w old policy_id name o s)
  unfolding sync_documents
  sync_documents-Advanced name none s b =
      retry_or_fail-Advanced w old.id (codes "SYNC_FAILED") old
        (write_config policy_id old.config_version (to_error (codes "SYNC_FAILED")) s) b
  sync_documents-Advanced name (some remote) s b =
      let listed = write_job old.id (λ j. record j { total_count = some (length remote) }) s in
      conclude_sync-Advanced old.config_version name
        (reconcile_assignments w policy_id old.config_version remote (report_progress old.id)
          listed)
        (reconcile_assignments-Ends ⊥ (IsBudgeted old.id old) w idle no_fault policy_id
          old.config_version (report_progress old.id)
          (λ n t p.
            IsBudgeted-update old.id old (λ j. record j { processed_count = n }) t.jobs (λ j. refl)
              (λ j. refl) (λ j. refl) p)
          remote listed
          (IsBudgeted-update old.id old (λ j. record j { total_count = some (length remote) })
            s.jobs (λ j. refl) (λ j. refl) (λ j. refl) b))
    where
      no_fault : (n : ℕ) (message : Text) → w.insert_error n ≡ some message → ⊥
      no_fault n message e = ground (arith, faultless n)

  sync_tag-Advanced :
      (tag_id : ℕ) (lookup : TagLookupResult) (s : Store)
      → IsBudgeted old.id old s.jobs
      → Advanced old.id old (sync_tag w old policy_id tag_id lookup s)
  unfolding sync_tag
  sync_tag-Advanced tag_id (lookup_failed lookup_unreachable) s b =
      retry_or_fail-Advanced w old.id (codes "UNREACHABLE") old s b
  sync_tag-Advanced tag_id (lookup_failed lookup_not_found) s b = fail-Advanced w old.id _ old _ b
  sync_tag-Advanced tag_id (lookup_failed lookup_auth_failed) s b = fail-Advanced w old.id _ old _ b
  sync_tag-Advanced tag_id (lookup_failed lookup_not_configured) s b =
      fail-Advanced w old.id _ old _ b
  sync_tag-Advanced tag_id (found id name) s b =
      sync_documents-Advanced name (list_documents_by_tag w.connection tag_id)
        (w.others at_listing s) (subst (IsBudgeted old.id old) (sym (idle at_listing s)) b)

pub skip_job-Advanced :
    (w : World) (job_id code : Text) (old : PaperlessTagJob) (s : Store)
    → IsBudgeted job_id old s.jobs
    → Advanced job_id old (skip_job w job_id code s)
unfolding skip_job
skip_job-Advanced w job_id code old s b =
    update-Advanced job_id old (to_skipped w code) s.jobs (λ j. refl) (λ j. refl) b

settled-inactive : (status : AiJobStatus) → is_settled status ≡ true → is_active status ≡ false
settled-inactive status e = ground arith

guarded_config-Advanced :
    (w : World) (job_id policy_id : Text) (s : Store) (old : PaperlessTagJob)
    (work : PaperlessTagJob → PolicyPaperlessTag → Handled) (o : Option PolicyPaperlessTag)
    → IsBudgeted job_id old s.jobs
    → ((config : PolicyPaperlessTag) → Advanced job_id old (work old config))
    → Advanced job_id old (guarded_config w job_id policy_id s work old o)
unfolding guarded_config
guarded_config-Advanced w job_id policy_id s old work none b works =
    skip_job-Advanced w job_id (codes "STALE_CONFIG") old s b
guarded_config-Advanced w job_id policy_id s old work (some config) b works =
    elim (Bool-cases (config.config_version == old.config_version)) [
      | inr stale ↦ rw stale (skip_job-Advanced w job_id (codes "STALE_CONFIG") old s b)
      | inl current ↦ elim (Bool-cases (is_policy_archived policy_id s)) [
        | inl archived ↦
            rw (current, archived) (skip_job-Advanced w job_id (codes "POLICY_ARCHIVED") old s b)
        | inr open_policy ↦ elim (Bool-cases (is_drifted w config)) [
          | inl drifted ↦
              rw (current, open_policy, drifted)
                (skip_job-Advanced w job_id (codes "CONNECTION_CHANGED") old
                  (write_config policy_id old.config_version (to_error (codes "CONNECTION_CHANGED"))
                    s)
                  b)
          | inr same ↦ rw (current, open_policy, same) (works config)
        ]
      ]
    ]

-- The checks advance a job whose work, if they let it pass, does.
pub guarded-Advanced :
    (w : World) (job_id policy_id : Text) (s : Store) (old : PaperlessTagJob)
    (work : PaperlessTagJob → PolicyPaperlessTag → Handled)
    → find_job job_id s ≡ some old
    → ((config : PolicyPaperlessTag) → Advanced job_id old (work old config))
    → Advanced job_id old (guarded w job_id policy_id s work)
unfolding guarded guarded_job
guarded-Advanced w job_id policy_id s old work e works =
    subst (λ o. Advanced job_id old (guarded_job w job_id policy_id s work o)) (sym e) (at_job)
  where
    at_job : Advanced job_id old (guarded_job w job_id policy_id s work (some old))
    at_job = elim (Bool-cases (is_settled old.status)) [
      | inl settled ↦ rw settled (old, (e, inl (settled-inactive old.status settled)))
      | inr open_job ↦ rw open_job (
          guarded_config-Advanced w job_id policy_id s old work (find_config policy_id s)
            (old, (e, (refl, refl))) works)
    ]

pub handle_sync_policy-Advanced :
    (w : World) (idle : IsIdle w) (faultless : IsFaultless w) (job_id policy_id : Text) (s : Store)
    (old : PaperlessTagJob)
    → find_job job_id s ≡ some old
    → Advanced job_id old (handle_sync_policy w job_id policy_id s)
unfolding handle_sync_policy
handle_sync_policy-Advanced w idle faultless job_id policy_id s old e =
    guarded-Advanced w job_id policy_id s old _ e works
  where
    key : old.id ≡ job_id
    key = find_job-id job_id s.jobs old e

    started : Store
    started = write_job job_id to_running s

    started_budget : IsBudgeted job_id old (w.others at_lookup started).jobs
    started_budget = subst (IsBudgeted job_id old) (sym (idle at_lookup started)) (
        IsBudgeted-update job_id old to_running s.jobs (λ j. refl) (λ j. refl) (λ j. refl)
          (old, (e, (refl, refl))))

    works :
        (config : PolicyPaperlessTag)
        → Advanced job_id old (
            sync_tag w old policy_id config.paperless_tag_id
              (get_tag w.connection config.paperless_tag_id)
              (w.others at_lookup started))
    works config =
        subst
          (λ i. Advanced i old (
            sync_tag w old policy_id config.paperless_tag_id
              (get_tag w.connection config.paperless_tag_id) (w.others at_lookup started)))
          key
          (sync_tag-Advanced w idle faultless policy_id old config.paperless_tag_id
            (get_tag w.connection config.paperless_tag_id) (w.others at_lookup started)
            (subst (λ i. IsBudgeted i old (w.others at_lookup started).jobs) (sym key)
              started_budget))
