-- ===== src/Paperless/SyncProgress.antt =====
-- apps/api/src/features/paperless-ngx/paperless-tag.service.ts: the progress of a job, as it is shown.
use versi_go.Prelude.{
  ℕ, Text, is_empty, Bool, ◌==◌, ◌||◌, ◌&&◌, Option, none, some, if◌then◌else◌, map, filter, take,
  leb, ◌-◌,
}
use versi_go.Paperless.{PaperlessTagJob, AiJobStatus, pending, running, completed, failed, skipped}

-- SYNC_JOB_STATUS
pub data SyncJobStatus : Type 0 where
  queued job_running succeeded job_failed : SyncJobStatus

unfoldable pub map_job_status : AiJobStatus → SyncJobStatus
map_job_status pending = queued
map_job_status running = job_running
map_job_status completed = succeeded
map_job_status failed = job_failed
map_job_status skipped = job_failed

-- `[A-Za-z0-9_]`
abbrev pub is_code_unit : ℕ → Bool
is_code_unit c =
    (leb 65 c && leb c 90) || (leb 97 c && leb c 122) || (leb 48 c && leb c 57) || c == 95

-- `toUpperCase` on the units that are left, all below 128.
abbrev pub to_upper : ℕ → ℕ
to_upper c = if leb 97 c && leb c 122 then c - 32 else c

unfoldable pub sanitize_error_code : Option Text → Option Text
sanitize_error_code none = none
sanitize_error_code (some code) =
    let cleaned = map to_upper (take 48 (filter is_code_unit code)) in
    if is_empty cleaned then none else some cleaned

pub record SyncProgress : Type 0 where
  pub job_id : Text
  pub status : SyncJobStatus
  pub processed : ℕ
  pub total : Option ℕ
  pub added : ℕ
  pub removed : ℕ
  pub unchanged : ℕ
  pub error_code : Option Text
  pub completed_at : Option ℕ

unfoldable pub to_sync_progress : PaperlessTagJob → SyncProgress
unfolding map_job_status sanitize_error_code
to_sync_progress job = record {
  job_id = job.id;
  status = map_job_status job.status;
  processed = job.processed_count;
  total = job.total_count;
  added = job.added_count;
  removed = job.removed_count;
  unchanged = job.unchanged_count;
  error_code = sanitize_error_code job.error_code;
  completed_at = job.completed_at;
}
