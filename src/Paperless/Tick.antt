-- ===== src/Paperless/Tick.antt =====
-- apps/worker/src/paperless-tag.processor.ts: the assignment of the tag to one document, the periodic
-- tick, and `process`, which picks the handler and turns an exception into an answer.
pub mod Retries
pub mod Schedule
pub mod Escape
pub mod Stuck
pub mod Completion
mod Tests
use versi_go.Prelude.{
  ℕ, zero, suc, ◌+◌, ◌-◌, max, Text, codes, eq_text, is_empty, Bool, true, false, not, ◌||◌, ◌&&◌,
  ltb, Option, none, some, List, [], ◌∷◌, if◌then◌else◌, filter, find, any, take, natural, length,
}
use versi_go.Config.SyncSchedule.{
  RawInterval, missing, number, LastSyncedAt, never, synced, paperless_tag_sync_interval_ms,
  is_paperless_tag_sync_due, default_interval_ms,
}
use versi_go.Sharing.{InsurancePolicy}
use versi_go.Paperless.{
  PolicyDocument, PolicyPaperlessTag, PaperlessTagJob, PaperlessTagJobKind, sync_policy,
  tag_document, pending, running, Store, write_job, write_document, is_active, is_pending,
  is_sync_policy, is_null, is_paperless_link, new_job, tagging_pending, tagging_applied,
  tagging_failed,
}
use versi_go.Paperless.Client.{or_value}
use versi_go.Paperless.Client.Assignment.{assign_tag_to_document, TagAssignmentResult}
use versi_go.Paperless.World.{World, at_lookup}
use versi_go.Paperless.Worker.{guarded, to_tagging, create_job, handle_sync_policy}
use versi_go.Paperless.Jobs.{
  Answer, success, failure, Handled, answered, escaped, enqueue_row, message_of, skip_job,
  retry_or_fail, to_completed, to_failed,
}

-- `findFirst({ where: { id, policyId, archivedAt: null } })`
abbrev pub is_target : Text → Text → PolicyDocument → Bool
is_target document_id policy_id d =
    eq_text d.id document_id && eq_text d.policy_id policy_id && is_null d.archived_at

-- `document.storageType === 'PAPERLESS_LINK'`, and its reference if that is not empty.
abbrev pub link_ref : PolicyDocument → Option Text
link_ref d =
    if is_paperless_link d.storage_type
    then elim d.storage_ref [ none ↦ none | some ref ↦ if is_empty ref then none else some ref ]
    else none

abbrev pub is_retryable : Text → Bool
is_retryable code =
    eq_text code (codes "UNREACHABLE")
    || eq_text code (codes "API_ERROR")
    || eq_text code (codes "VERIFY_FAILED")

abbrev pub to_started : PaperlessTagJob → PaperlessTagJob
to_started j = record j { status = running }

-- What follows the request to Paperless.
unfoldable pub conclude_tagging :
    World → PaperlessTagJob → Text → TagAssignmentResult → Store → Handled
unfolding retry_or_fail
conclude_tagging w job document_id result s =
    let code = or_value result.error_code (codes "UNKNOWN") in
    if result.success && result.verified
    then answered success (
        write_job job.id (to_completed w)
          (write_document document_id (to_tagging tagging_applied none) s))
    else (if is_retryable code
        then retry_or_fail w job.id job.retry_count job.max_retries code
            (write_document document_id (to_tagging tagging_pending (some code)) s)
        else answered (failure code) (
            write_job job.id (to_failed w code)
              (write_document document_id (to_tagging tagging_failed (some code)) s)))

unfoldable pub tag_found : World → PaperlessTagJob → ℕ → Text → Option Text → Store → Handled
unfolding skip_job conclude_tagging
tag_found w job tag_id document_id none s = skip_job w job.id (codes "DOCUMENT_GONE") s
tag_found w job tag_id document_id (some ref) s =
    conclude_tagging w job document_id (assign_tag_to_document w.connection ref tag_id)
      (w.others at_lookup (write_job job.id to_started s))

unfoldable pub tag_target : World → PaperlessTagJob → ℕ → Option PolicyDocument → Store → Handled
unfolding tag_found skip_job
tag_target w job tag_id none s = skip_job w job.id (codes "DOCUMENT_GONE") s
tag_target w job tag_id (some d) s = tag_found w job tag_id d.id (link_ref d) s

unfoldable pub handle_tag_document : World → Text → Text → Store → Handled
unfolding guarded tag_target
handle_tag_document w job_id policy_id s = guarded w job_id policy_id s λ job config.
    tag_target w job config.paperless_tag_id
      (find (is_target (or_value job.document_id []) policy_id) s.documents) s

unfoldable pub enqueue_rows : World → List PaperlessTagJob → Store → Store
enqueue_rows w [] s = s
enqueue_rows w (job ∷ jobs) s = enqueue_rows w jobs (enqueue_row w (message_of job) s)

abbrev pub is_pending_job : PaperlessTagJob → Bool
is_pending_job j = is_pending j.status

-- `number ?? PAPERLESS_TAG_DEFAULT_INTERVAL_MS`
abbrev pub or_default : RawInterval → RawInterval
or_default missing = number (natural default_interval_ms)
or_default (number n) = number n

abbrev pub interval_of : World → ℕ
interval_of w = paperless_tag_sync_interval_ms (or_default w.sync_interval_ms)

-- `lastSyncedAt` is null, or below `now - Math.max(1_000, intervalMs)`.
abbrev pub is_before : World → Option ℕ → Bool
is_before w none = true
is_before w (some last) = ltb (last + max 1000 (interval_of w)) w.now

-- The configurations of policies that are not archived and may be due.
abbrev pub may_be_due : World → Store → PolicyPaperlessTag → Bool
may_be_due w s c =
    any (λ p. eq_text p.id c.policy_id && is_null p.archived_at) s.policies
    && is_before w c.last_synced_at

abbrev pub last_sync : Option ℕ → LastSyncedAt
last_sync none = never
last_sync (some moment) = synced moment

abbrev pub is_due : World → PolicyPaperlessTag → Bool
is_due w c = is_paperless_tag_sync_due (record {
  policy_id = c.policy_id;
  last_synced_at = last_sync c.last_synced_at;
  now = w.now;
  interval_ms = number (natural (interval_of w));
})

abbrev pub is_syncing : Text → PaperlessTagJob → Bool
is_syncing policy_id j =
    eq_text j.policy_id policy_id && is_sync_policy j.kind && is_active j.status

abbrev pub schedule_policy : World → PolicyPaperlessTag → Store → Store
schedule_policy w c s =
    let job = new_job (w.uuid (length s.jobs)) c.policy_id none sync_policy c.config_version in
    enqueue_row w (message_of job) (create_job w c.policy_id none sync_policy c.config_version s)

unfoldable pub schedule_due : World → List PolicyPaperlessTag → Store → Store
schedule_due w [] s = s
schedule_due w (c ∷ configs) s =
    let skip = schedule_due w configs s in
    let rest = schedule_due w configs (schedule_policy w c s) in
    if not (is_due w c) || any (is_syncing c.policy_id) s.jobs then skip else rest

unfoldable pub handle_reconcile : World → Store → Handled
unfolding enqueue_rows schedule_due
handle_reconcile w s =
    let dispatched = enqueue_rows w (take 200 (filter is_pending_job s.jobs)) s in
    if or_value w.sync_enabled true
    then answered success
        (schedule_due w (take 500 (filter (may_be_due w dispatched) dispatched.tags)) dispatched)
    else answered success dispatched

-- The names of the messages; any other is refused.
pub data JobName : Type 0 where
  sync_policy_job : Text → Text → JobName
  tag_document_job : Text → Text → JobName
  reconcile_job : JobName
  unknown_job : JobName

unfoldable pub handle : World → JobName → Store → Handled
unfolding handle_sync_policy handle_tag_document handle_reconcile
handle w (sync_policy_job job_id policy_id) s = handle_sync_policy w job_id policy_id s
handle w (tag_document_job job_id policy_id) s = handle_tag_document w job_id policy_id s
handle w reconcile_job s = handle_reconcile w s
handle w unknown_job s = answered (failure (codes "UNKNOWN_JOB")) s

-- An exception becomes an answer, and what was written before it stays.
abbrev pub answer_of : Handled → Answer × Store
answer_of (answered answer s) = (answer, s)
answer_of (escaped message s) = (failure message, s)

unfoldable pub process : World → JobName → Store → Answer × Store
unfolding handle
process w name s = answer_of (handle w name s)
