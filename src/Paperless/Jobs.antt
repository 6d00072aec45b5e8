-- ===== src/Paperless/Jobs.antt =====
-- apps/worker/src/paperless-tag.processor.ts: what the handlers answer, and the rows that they write for
-- a job and for a configuration.
use versi_go.Prelude.{
  ℕ, suc, ◌+◌, Text, eq_text, is_empty, Bool, true, false, not, ◌&&◌, ltb, none, some, [], ◌∷◌,
  ◌++◌, if◌then◌else◌, find,
}
use versi_go.Paperless.{
  PolicyPaperlessTag, PaperlessTagJob, pending, running, completed, failed, skipped, Store,
  QueueMessage, write_job, is_null, sync_active, sync_error,
}
use versi_go.Paperless.Client.{base_url}
use versi_go.Paperless.World.{World}
use versi_go.Paperless.Links.{ReconcileCounts}

-- `{ success: true }` and `{ success: false, error }`
pub data Answer : Type 0 where
  success : Answer
  failure : Text → Answer

pub data Handled : Type 0 where
  answered : Answer → Store → Handled
  escaped : Text → Store → Handled

abbrev pub store_of : Handled → Store
store_of (answered answer s) = s
store_of (escaped message s) = s

-- enqueueRow: a queue that is down swallows the message.
abbrev pub enqueue_row : World → QueueMessage → Store → Store
enqueue_row w message s = record s {
  queue = if w.queue_up then s.queue ++ (message ∷ []) else s.queue;
}

abbrev pub message_of : PaperlessTagJob → QueueMessage
message_of job = record { kind = job.kind; job_id = job.id; policy_id = job.policy_id }

abbrev pub to_skipped : World → Text → PaperlessTagJob → PaperlessTagJob
to_skipped w code j = record j {
  status = skipped;
  error_code = some code;
  completed_at = some w.now;
}

unfoldable pub skip_job : World → Text → Text → Store → Handled
skip_job w job_id code s = answered success (write_job job_id (to_skipped w code) s)

abbrev pub to_retry : Text → PaperlessTagJob → PaperlessTagJob
to_retry code j = record j {
  status = pending;
  retry_count = suc j.retry_count;
  error_code = some code;
}

abbrev pub to_failed : World → Text → PaperlessTagJob → PaperlessTagJob
to_failed w code j = record j { status = failed; error_code = some code; completed_at = some w.now }

unfoldable pub retry_or_fail : World → Text → ℕ → ℕ → Text → Store → Handled
retry_or_fail w job_id retry_count max_retries code s =
    if ltb retry_count max_retries
    then answered (failure code) (write_job job_id (to_retry code) s)
    else answered (failure code) (write_job job_id (to_failed w code) s)

-- isPolicyArchived: also where the policy is gone.
abbrev pub is_policy_archived : Text → Store → Bool
is_policy_archived policy_id s = elim (find (λ p. eq_text p.id policy_id) s.policies) [
  | none ↦ true
  | some policy ↦ not (is_null policy.archived_at)
]

-- `config.connectionRef && currentBaseUrl && config.connectionRef !== currentBaseUrl`
abbrev pub is_drifted : World → PolicyPaperlessTag → Bool
is_drifted w config = elim config.connection_ref [
  | none ↦ false
  | some ref ↦
      not (is_empty ref)
      && not (is_empty (base_url w.connection))
      && not (eq_text ref (base_url w.connection))
]

abbrev pub to_error : Text → PolicyPaperlessTag → PolicyPaperlessTag
to_error code c = record c { sync_status = sync_error; sync_error_code = some code }

abbrev pub to_running : PaperlessTagJob → PaperlessTagJob
to_running j = record j {
  status = running;
  processed_count = 0;
  total_count = none;
  added_count = 0;
  removed_count = 0;
  unchanged_count = 0;
}

-- toProgressFields, written into the row.
abbrev pub write_progress : ReconcileCounts → PaperlessTagJob → PaperlessTagJob
write_progress c j = record j {
  added_count = c.added;
  removed_count = c.removed;
  unchanged_count = c.unchanged + c.updated;
  processed_count = c.added + c.unchanged + c.updated;
}

abbrev pub to_completed : World → PaperlessTagJob → PaperlessTagJob
to_completed w j = record j { status = completed; error_code = none; completed_at = some w.now }

abbrev pub to_synced : World → Text → PolicyPaperlessTag → PolicyPaperlessTag
to_synced w name c = record c {
  last_synced_at = some w.now;
  sync_status = sync_active;
  sync_error_code = none;
  paperless_tag_name = some name;
}
