-- ===== src/Paperless/TagService/Requests.antt =====
-- apps/api/src/features/paperless-ngx/paperless-tag.service.ts: the removal of a policy's tag, the
-- syncs and retries that a user asks for, and what the service shows of a configuration.
use versi_go.Prelude.{
  ℕ, ◌+◌, Text, codes, eq_text, is_empty, Bool, true, false, not, ◌||◌, ◌&&◌, Option, none, some,
  List, [], ◌∷◌, ◌++◌, if◌then◌else◌, map, filter, find, count, length, take,
}
use versi_go.Http.{Result, ok, err, not_found, ◌>>=◌, ◌>>◌}
use versi_go.Paperless.{
  PolicyPaperlessTag, PaperlessTagJob, PolicyDocument, Store, sync_policy, tag_document, is_null,
  new_job, PaperlessTaggingStatus, tagging_pending, tagging_failed, write_document,
}
use versi_go.Paperless.World.{World}
use versi_go.Prelude.{to_string}
use versi_go.Paperless.Links.{find_config, is_link}
use versi_go.Paperless.Worker.{create_job, is_tagging, to_tagging}
use versi_go.Paperless.Jobs.{enqueue_row, message_of}
use versi_go.Paperless.Tick.{is_syncing}
use versi_go.Paperless.TagService.{assert_policy_write_access, supersede, is_config_of, tag_event}
use versi_go.Paperless.SyncProgress.{SyncJobStatus, queued, map_job_status}

-- The rows of the two updates that clear the automatic origin, and of the one behind them.
abbrev pub is_tag_only : Text → PolicyDocument → Bool
is_tag_only policy_id d =
    eq_text d.policy_id policy_id && d.link_origin_tag && not d.link_origin_manual

abbrev pub is_both : Text → PolicyDocument → Bool
is_both policy_id d = eq_text d.policy_id policy_id && d.link_origin_tag && d.link_origin_manual

abbrev pub is_manual_link : Text → PolicyDocument → Bool
is_manual_link policy_id d =
    eq_text d.policy_id policy_id && d.link_origin_manual && is_null d.archived_at

abbrev pub archive_tag_only : World → Text → PolicyDocument → PolicyDocument
archive_tag_only w policy_id d =
    if is_tag_only policy_id d
    then record d { link_origin_tag = false; archived_at = some w.now }
    else d

abbrev pub clear_origin : Text → PolicyDocument → PolicyDocument
clear_origin policy_id d = if is_both policy_id d then record d { link_origin_tag = false } else d

abbrev pub reset_tagging : Text → PolicyDocument → PolicyDocument
reset_tagging policy_id d =
    if is_manual_link policy_id d
    then record d { tagging_status = none; tagging_error_code = none }
    else d

-- The three updates of a row, in their order.
abbrev pub untag : World → Text → PolicyDocument → PolicyDocument
untag w policy_id d =
    reset_tagging policy_id (clear_origin policy_id (archive_tag_only w policy_id d))

-- The transaction of removeTag, and whether there was a tag.
unfoldable pub unassign_tag : Option PolicyPaperlessTag → World → Text → Text → Store → Bool × Store
unassign_tag none w user_id policy_id s = (false, s)
unassign_tag (some existing) w user_id policy_id s =
    let archived = count (is_tag_only policy_id) s.documents in
    let hidden = map (archive_tag_only w policy_id) s.documents in
    let cleared = count (is_both policy_id) hidden in
    let kept = map (clear_origin policy_id) hidden in
    let reset = count (is_manual_link policy_id) kept in
    (
      true,
      record s {
        tags = filter (λ c. not (is_config_of policy_id c)) s.tags;
        jobs = map (supersede w policy_id (codes "TAG_REMOVED")) s.jobs;
        documents = map (untag w policy_id) s.documents;
        audit_events =
            s.audit_events
            ++ (tag_event user_id existing.id "PAPERLESS_TAG_REMOVED" (
                  ("policyId", policy_id)
                  ∷ ("paperlessTagId", to_string existing.paperless_tag_id)
                  ∷ ("automaticOriginsCleared", to_string (cleared + archived))
                  ∷ ("tagOnlyDocumentsArchived", to_string archived)
                  ∷ ("manualLinksReset", to_string reset)
                  ∷ [])
                ∷ []);
      },
    )

unfoldable pub remove_tag : World → Text → Text → Text → Store → Result (Bool × Store)
unfolding assert_policy_write_access unassign_tag
remove_tag w household_id user_id policy_id s =
    assert_policy_write_access household_id user_id policy_id s
    >> ok (unassign_tag (find_config policy_id s) w user_id policy_id s)

-- A row that was created later stands first: the rows are in the order of their creation.
abbrev last_of : List PaperlessTagJob → Option PaperlessTagJob
last_of [] = none
last_of (j ∷ jobs) = let rest = last_of jobs in elim rest [ none ↦ some j | some k ↦ some k ]

pub record SyncAnswer : Type 0 where
  pub job_id : Text
  pub status : SyncJobStatus
  pub config_version : ℕ
  pub already_running : Bool

-- The sync that is under way, or a new one.
unfoldable pub start_sync :
    Option PaperlessTagJob → World → PolicyPaperlessTag → Text → Store → SyncAnswer × Store
unfolding map_job_status
start_sync (some active) w config policy_id s = (
  record {
    job_id = active.id;
    status = map_job_status active.status;
    config_version = active.config_version;
    already_running = true;
  },
  s,
)
start_sync none w config policy_id s =
    let job = new_job (w.uuid (length s.jobs)) policy_id none sync_policy config.config_version in
    (
      record {
        job_id = job.id;
        status = queued;
        config_version = config.config_version;
        already_running = false;
      },
      enqueue_row w (message_of job)
          (create_job w policy_id none sync_policy config.config_version s),
    )

abbrev or_missing {ℓ} : {A : Type ℓ} → Option A → Result A
or_missing none = err (not_found "NO_PAPERLESS_TAG_CONFIGURED")
or_missing (some a) = ok a

unfoldable pub request_sync : World → Text → Text → Text → Store → Result (SyncAnswer × Store)
unfolding assert_policy_write_access start_sync
request_sync w household_id user_id policy_id s =
    assert_policy_write_access household_id user_id policy_id s
    >> (or_missing (find_config policy_id s) >>= λ config.
        ok (start_sync (last_of (filter (is_syncing policy_id) s.jobs)) w config policy_id s))

-- `taggingStatus: { in: ['PENDING', 'FAILED'] }`
abbrev is_unfinished : Option PaperlessTaggingStatus → Bool
is_unfinished (some tagging_pending) = true
is_unfinished (some tagging_failed) = true
is_unfinished _ = false

-- `...(documentId ? { id: documentId } : {})`
abbrev is_asked_for : Option Text → PolicyDocument → Bool
is_asked_for none d = true
is_asked_for (some document_id) d = is_empty document_id || eq_text d.id document_id

abbrev pub is_retryable_document : Text → Option Text → PolicyDocument → Bool
is_retryable_document policy_id document_id d =
    is_link policy_id d
    && not (is_null d.storage_ref)
    && d.link_origin_manual
    && is_unfinished d.tagging_status
    && is_asked_for document_id d

-- The transaction of retryTagging: the jobs that were under way or are new, and the tables.
unfoldable pub retry_documents :
    World → PolicyPaperlessTag → Text → List PolicyDocument → Store → List PaperlessTagJob × Store
retry_documents w config policy_id [] s = ([], s)
retry_documents w config policy_id (d ∷ documents) s =
    let marked = write_document d.id (to_tagging tagging_pending none) s in
    let job =
      new_job (w.uuid (length s.jobs)) policy_id (some d.id) tag_document config.config_version in
    let created = create_job w policy_id (some d.id) tag_document config.config_version marked in
    elim (find (is_tagging policy_id d.id) s.jobs) [
      | some existing ↦
          let (jobs, s') = retry_documents w config policy_id documents marked in
          (existing ∷ jobs, s')
      | none ↦
          let (jobs, s') = retry_documents w config policy_id documents created in (job ∷ jobs, s')
    ]

-- The messages that are sent behind the transaction name the assignment of a tag.
unfoldable pub enqueue_all : World → Text → List PaperlessTagJob → Store → Store
enqueue_all w policy_id [] s = s
enqueue_all w policy_id (job ∷ jobs) s =
    enqueue_all w policy_id jobs
      (enqueue_row w (record { kind = tag_document; job_id = job.id; policy_id = policy_id }) s)

-- How many assignments were scheduled.
unfoldable pub retry_tagging : World → Text → Text → Text → Option Text → Store → Result (ℕ × Store)
unfolding assert_policy_write_access retry_documents enqueue_all
retry_tagging w household_id user_id policy_id document_id s =
    assert_policy_write_access household_id user_id policy_id s
    >> (or_missing (find_config policy_id s) >>= λ config.
        let documents =
          take 200 (filter (is_retryable_document policy_id document_id) s.documents) in
        let (jobs, s') = retry_documents w config policy_id documents s in
        ok (length jobs, enqueue_all w policy_id jobs s'))
