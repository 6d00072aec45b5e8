-- ===== src/Paperless.antt =====
-- The Paperless-ngx tag assignment of apps/worker/src (paperless-tag.client.ts,
-- paperless-tag.processor.ts) and apps/api/src/features/paperless-ngx (paperless-tag.service.ts):
-- the rows of prisma/schema.prisma that both read and write, and the BullMQ queue between them.

pub mod Client
pub mod Metadata
pub mod World
pub mod Reconcile
pub mod Worker
pub mod Tick
pub mod TagService
pub mod Samples
pub mod Jobs
pub mod Links
pub mod SyncProgress
pub mod Configured
use versi_go.Prelude.{
  ℕ, Text, eq_text, Bool, true, false, not, Option, none, some, List, [], ◌∷◌, if◌then◌else◌, map,
  is_empty, ◌&&◌, ◌==◌,
}
use versi_go.Sharing.{InsurancePolicy}
use versi_go.Identity.{HouseholdMembership, AuditEvent}

pub data SyncStatus : Type 0 where
  sync_pending sync_active sync_error sync_disabled : SyncStatus

pub record PolicyPaperlessTag : Type 0 where
  pub id : Text
  pub policy_id : Text
  pub connection_ref : Option Text
  pub paperless_tag_id : ℕ
  pub paperless_tag_name : Option Text
  pub config_version : ℕ
  -- milliseconds since the epoch
  pub last_synced_at : Option ℕ
  pub sync_status : SyncStatus
  pub sync_error_code : Option Text

pub data PaperlessTagJobKind : Type 0 where
  sync_policy tag_document : PaperlessTagJobKind

pub data AiJobStatus : Type 0 where
  pending running completed failed skipped : AiJobStatus

pub record PaperlessTagJob : Type 0 where
  pub id : Text
  pub policy_id : Text
  pub document_id : Option Text
  pub kind : PaperlessTagJobKind
  pub status : AiJobStatus
  pub config_version : ℕ
  pub retry_count : ℕ
  pub max_retries : ℕ
  pub error_code : Option Text
  pub completed_at : Option ℕ
  pub processed_count : ℕ
  pub total_count : Option ℕ
  pub added_count : ℕ
  pub removed_count : ℕ
  pub unchanged_count : ℕ

pub data DocumentStorageType : Type 0 where
  internal paperless_link : DocumentStorageType

pub data PaperlessTaggingStatus : Type 0 where
  tagging_pending tagging_applied tagging_failed : PaperlessTaggingStatus

-- The columns of a document that the tag assignment depends on.
pub record PolicyDocument : Type 0 where
  pub id : Text
  pub policy_id : Text
  pub storage_type : DocumentStorageType
  pub file_name : Text
  pub mime_type : Option Text
  pub storage_ref : Option Text
  pub document_date : Option ℕ
  pub archived_at : Option ℕ
  pub link_origin_manual : Bool
  pub link_origin_tag : Bool
  pub tagging_status : Option PaperlessTaggingStatus
  pub tagging_error_code : Option Text

-- A message in BullMQ: the name of the job, and the row that it stands for.
pub record QueueMessage : Type 0 where
  pub kind : PaperlessTagJobKind
  pub job_id : Text
  pub policy_id : Text

pub record Store : Type 0 where
  pub memberships : List HouseholdMembership
  pub policies : List InsurancePolicy
  pub tags : List PolicyPaperlessTag
  pub documents : List PolicyDocument
  -- in the order of their creation
  pub jobs : List PaperlessTagJob
  pub audit_events : List AuditEvent
  -- what `queue.add` was called with and accepted
  pub queue : List QueueMessage

abbrev pub is_pending : AiJobStatus → Bool
is_pending pending = true
is_pending _ = false

abbrev pub is_running : AiJobStatus → Bool
is_running running = true
is_running _ = false

-- `status: { in: ['PENDING', 'RUNNING'] }`
abbrev pub is_active : AiJobStatus → Bool
is_active pending = true
is_active running = true
is_active _ = false

-- `status === 'COMPLETED' || status === 'SKIPPED'`
abbrev pub is_settled : AiJobStatus → Bool
is_settled completed = true
is_settled skipped = true
is_settled _ = false

abbrev pub is_sync_policy : PaperlessTagJobKind → Bool
is_sync_policy sync_policy = true
is_sync_policy tag_document = false

abbrev pub is_paperless_link : DocumentStorageType → Bool
is_paperless_link paperless_link = true
is_paperless_link internal = false

abbrev pub is_null {ℓ} : {A : Type ℓ} → Option A → Bool
is_null none = true
is_null (some a) = false

abbrev pub eq_some : Text → Option Text → Bool
eq_some t none = false
eq_some t (some u) = eq_text u t

-- `table.update({ where: { id } })` on the jobs and on the documents.
abbrev pub update_job :
    Text → (PaperlessTagJob → PaperlessTagJob) → PaperlessTagJob → PaperlessTagJob
update_job job_id f j = if eq_text j.id job_id then f j else j

abbrev pub write_job : Text → (PaperlessTagJob → PaperlessTagJob) → Store → Store
write_job job_id f s = record s { jobs = map (update_job job_id f) s.jobs }

abbrev pub update_document :
    Text → (PolicyDocument → PolicyDocument) → PolicyDocument → PolicyDocument
update_document document_id f d = if eq_text d.id document_id then f d else d

abbrev pub write_document : Text → (PolicyDocument → PolicyDocument) → Store → Store
write_document document_id f s = record s {
  documents = map (update_document document_id f) s.documents;
}

abbrev pub update_config :
    Text → ℕ → (PolicyPaperlessTag → PolicyPaperlessTag) → PolicyPaperlessTag → PolicyPaperlessTag
update_config policy_id version f c =
    if eq_text c.policy_id policy_id && c.config_version == version then f c else c

-- `policyPaperlessTag.updateMany({ where: { policyId, configVersion } })`
abbrev pub write_config : Text → ℕ → (PolicyPaperlessTag → PolicyPaperlessTag) → Store → Store
write_config policy_id version f s = record s {
  tags = map (update_config policy_id version f) s.tags;
}

-- A row of a new job: the columns with a default hold it.
abbrev pub new_job : Text → Text → Option Text → PaperlessTagJobKind → ℕ → PaperlessTagJob
new_job new_id policy_id document_id kind version = record {
  id = new_id;
  policy_id = policy_id;
  document_id = document_id;
  kind = kind;
  status = pending;
  config_version = version;
  retry_count = 0;
  max_retries = 3;
  error_code = none;
  completed_at = none;
  processed_count = 0;
  total_count = none;
  added_count = 0;
  removed_count = 0;
  unchanged_count = 0;
}
