-- ===== src/Paperless/Worker.antt =====
-- apps/worker/src/paperless-tag.processor.ts: the handlers of the three kinds of message. A handler
-- answers `{ success, error }` with the tables it leaves, or ends with the exception that `process`
-- catches.
pub mod Rows
pub mod Progress
pub mod Advances
pub mod Completion
pub mod Backfill
use versi_go.Prelude.{
  ℕ, zero, suc, ◌+◌, ◌-◌, max, Text, codes, eq_text, is_empty, Bool, true, false, not, ◌==◌, ◌||◌,
  ◌&&◌, ltb, Option, none, some, List, [], ◌∷◌, ◌++◌, if◌then◌else◌, filter, find, any, length,
  take,
}
use versi_go.Prelude.{natural}
use versi_go.Config.SyncSchedule.{
  RawInterval, missing, number, LastSyncedAt, never, synced, paperless_tag_sync_interval_ms,
  is_paperless_tag_sync_due, default_interval_ms,
}
use versi_go.Paperless.{
  PolicyDocument, PolicyPaperlessTag, PaperlessTagJob, PaperlessTagJobKind, sync_policy,
  tag_document, pending, running, completed, failed, skipped, Store, QueueMessage, write_job,
  update_job, write_document, update_document, write_config, update_config, is_active, is_settled,
  is_pending, is_sync_policy, is_null, is_paperless_link, new_job, sync_active, sync_error,
  tagging_pending, tagging_applied, tagging_failed, PaperlessTaggingStatus,
}
use versi_go.Paperless.Client.{
  base_url, get_tag, list_documents_by_tag, TagLookupErrorKind, TagLookupResult, found,
  lookup_failed, lookup_unreachable, lookup_not_found, lookup_auth_failed, lookup_not_configured,
}
use versi_go.Paperless.Client.Assignment.{assign_tag_to_document, TagAssignmentResult}
use versi_go.Paperless.Metadata.{TagDocumentRef}
use versi_go.Paperless.World.{World, at_lookup, at_listing, at_backfill}
use versi_go.Paperless.Reconcile.{reconcile_assignments}
use versi_go.Paperless.Links.{
  ReconcileCounts, ReconcileOutcome, aborted, finished, threw, find_config, is_current, is_link,
}
use versi_go.Paperless.Jobs.{
  Handled, answered, enqueue_row, escaped, is_drifted, is_policy_archived, message_of,
  retry_or_fail, skip_job, success, to_completed, to_error, to_running, to_skipped, to_synced,
  write_progress,
}

abbrev pub error_name : TagLookupErrorKind → Text
error_name lookup_not_found = codes "NOT_FOUND"
error_name lookup_auth_failed = codes "AUTH_FAILED"
error_name lookup_unreachable = codes "UNREACHABLE"
error_name lookup_not_configured = codes "NOT_CONFIGURED"

-- `OR: [{ taggingStatus: null }, { taggingStatus: { not: 'APPLIED' } }]`
abbrev is_not_applied : Option PaperlessTaggingStatus → Bool
is_not_applied (some tagging_applied) = false
is_not_applied _ = true

abbrev pub needs_tag : Text → PolicyDocument → Bool
needs_tag policy_id d =
    is_link policy_id d
    && d.link_origin_manual
    && not (is_null d.storage_ref)
    && is_not_applied d.tagging_status

abbrev eq_document : Text → Option Text → Bool
eq_document document_id none = false
eq_document document_id (some id) = eq_text id document_id

abbrev pub is_tagging : Text → Text → PaperlessTagJob → Bool
is_tagging policy_id document_id j =
    eq_text j.policy_id policy_id
    && eq_document document_id j.document_id
    && not (is_sync_policy j.kind)
    && is_active j.status

abbrev pub to_tagging : PaperlessTaggingStatus → Option Text → PolicyDocument → PolicyDocument
to_tagging status code d = record d { tagging_status = some status; tagging_error_code = code }

-- `paperlessTagJob.create`
abbrev pub create_job : World → Text → Option Text → PaperlessTagJobKind → ℕ → Store → Store
create_job w policy_id document_id kind version s = record s {
  jobs = s.jobs ++ (new_job (w.uuid (length s.jobs)) policy_id document_id kind version ∷ []);
}

unfoldable pub backfill : World → Text → ℕ → List PolicyDocument → Store → Store
backfill w policy_id version [] s = s
backfill w policy_id version (d ∷ documents) s =
    let job = new_job (w.uuid (length s.jobs)) policy_id (some d.id) tag_document version in
    let marked = write_document d.id (to_tagging tagging_pending none) s in
    let created = create_job w policy_id (some d.id) tag_document version marked in
    let skip = backfill w policy_id version documents s in
    let rest = backfill w policy_id version documents (enqueue_row w (message_of job) created) in
    if any (is_tagging policy_id d.id) s.jobs then skip else rest

unfoldable pub schedule_manual_link_backfill : World → Text → ℕ → Store → Store
unfolding backfill
schedule_manual_link_backfill w policy_id version s =
    if is_current policy_id version s
    then backfill w policy_id version (take 200 (filter (needs_tag policy_id) s.documents)) s
    else s

-- What follows the merge.
unfoldable pub conclude_sync : World → Text → Text → ℕ → Text → ReconcileOutcome → Handled
unfolding schedule_manual_link_backfill
conclude_sync w job_id policy_id version name (threw message s) = escaped message s
conclude_sync w job_id policy_id version name (aborted counts s) =
    answered success
      (write_job job_id (λ j. write_progress counts (to_skipped w (codes "STALE_CONFIG") j)) s)
conclude_sync w job_id policy_id version name (finished counts s) =
    let synced_config = write_config policy_id version (to_synced w name) s in
    let done = write_job job_id (λ j. write_progress counts (to_completed w j)) synced_config in
    answered success (schedule_manual_link_backfill w policy_id version (w.others at_backfill done))

-- reportProgress
abbrev pub report_progress : Text → ℕ → Store → Store
report_progress job_id processed s =
    write_job job_id (λ j. record j { processed_count = processed }) s

-- From the list of the tag's documents on.
unfoldable pub sync_documents :
    World → PaperlessTagJob → Text → Text → Option (List TagDocumentRef) → Store → Handled
unfolding conclude_sync retry_or_fail reconcile_assignments
sync_documents w job policy_id name none s =
    retry_or_fail w job.id job.retry_count job.max_retries (codes "SYNC_FAILED")
      (write_config policy_id job.config_version (to_error (codes "SYNC_FAILED")) s)
sync_documents w job policy_id name (some remote) s =
    conclude_sync w job.id policy_id job.config_version name (
      reconcile_assignments w policy_id job.config_version remote (report_progress job.id)
        (write_job job.id (λ j. record j { total_count = some (length remote) }) s))

-- From the lookup of the tag on.
unfoldable pub sync_tag : World → PaperlessTagJob → Text → ℕ → TagLookupResult → Store → Handled
unfolding sync_documents retry_or_fail
sync_tag w job policy_id tag_id (lookup_failed lookup_unreachable) s =
    retry_or_fail w job.id job.retry_count job.max_retries (codes "UNREACHABLE") s
sync_tag w job policy_id tag_id (lookup_failed error) s =
    retry_or_fail w job.id job.max_retries job.max_retries (error_name error)
      (write_config policy_id job.config_version (to_error (error_name error)) s)
sync_tag w job policy_id tag_id (found id name) s =
    sync_documents w job policy_id name (list_documents_by_tag w.connection tag_id)
      (w.others at_listing s)

-- The checks that both handlers begin with, and what they do behind them: for a job, and for a job
-- and its configuration.
unfoldable pub guarded_config :
    World
    → Text
    → Text
    → Store
    → (PaperlessTagJob → PolicyPaperlessTag → Handled)
    → PaperlessTagJob
    → Option PolicyPaperlessTag
    → Handled
unfolding skip_job
guarded_config w job_id policy_id s work job none = skip_job w job_id (codes "STALE_CONFIG") s
guarded_config w job_id policy_id s work job (some config) =
    if not (config.config_version == job.config_version)
    then skip_job w job_id (codes "STALE_CONFIG") s
    else (if is_policy_archived policy_id s
        then skip_job w job_id (codes "POLICY_ARCHIVED") s
        else (if is_drifted w config
            then skip_job w job_id (codes "CONNECTION_CHANGED") (
                write_config policy_id job.config_version (to_error (codes "CONNECTION_CHANGED")) s)
            else work job config))

unfoldable pub guarded_job :
    World
    → Text
    → Text
    → Store
    → (PaperlessTagJob → PolicyPaperlessTag → Handled)
    → Option PaperlessTagJob
    → Handled
unfolding guarded_config
guarded_job w job_id policy_id s work none = answered success s
guarded_job w job_id policy_id s work (some job) =
    if is_settled job.status
    then answered success s
    else guarded_config w job_id policy_id s work job (find_config policy_id s)

unfoldable pub guarded :
    World → Text → Text → Store → (PaperlessTagJob → PolicyPaperlessTag → Handled) → Handled
unfolding guarded_job
guarded w job_id policy_id s work =
    guarded_job w job_id policy_id s work (find (λ j. eq_text j.id job_id) s.jobs)

unfoldable pub handle_sync_policy : World → Text → Text → Store → Handled
unfolding guarded sync_tag
handle_sync_policy w job_id policy_id s = guarded w job_id policy_id s λ job config.
    sync_tag w job policy_id config.paperless_tag_id (get_tag w.connection config.paperless_tag_id)
      (w.others at_lookup (write_job job_id to_running s))
