-- ===== src/Paperless/Links.antt =====
-- apps/worker/src/paperless-tag.processor.ts, reconcileAssignments: the rows that it looks for, creates and
-- rewrites, its counts and its outcomes.
use versi_go.Prelude.{
  ℕ, suc, ◌%◌, Text, codes, eq_text, is_empty, Bool, true, false, not, ◌==◌, ◌||◌, ◌&&◌, Option,
  none, some, List, [], ◌∷◌, ◌++◌, if◌then◌else◌, find, length, put, has,
}
use versi_go.Paperless.{
  PolicyDocument, paperless_link, PolicyPaperlessTag, Store, is_paperless_link, is_null, eq_some,
}
use versi_go.Paperless.Metadata.{
  TagDocumentRef, derive_tag_link_metadata, write_metadata, TagLinkMetadataUpdate,
}
use versi_go.Paperless.World.{World}
use versi_go.Prelude.{to_string}

pub record ReconcileCounts : Type 0 where
  pub added : ℕ
  pub updated : ℕ
  pub unchanged : ℕ
  pub removed : ℕ

abbrev pub no_counts : ReconcileCounts
no_counts = record { added = 0; updated = 0; unchanged = 0; removed = 0 }

-- `aborted: true`, `aborted: false`, or an exception.
pub data ReconcileOutcome : Type 0 where
  aborted : ReconcileCounts → Store → ReconcileOutcome
  finished : ReconcileCounts → Store → ReconcileOutcome
  threw : Text → Store → ReconcileOutcome

abbrev pub progress_write_stride : ℕ
progress_write_stride = 10

-- `onProgress` at every tenth document.
abbrev pub maybe_report_progress : (ℕ → Store → Store) → ℕ → Store → Store
maybe_report_progress on_progress processed s =
    if processed % progress_write_stride == 0 then on_progress processed s else s

abbrev pub find_config : Text → Store → Option PolicyPaperlessTag
find_config policy_id s = find (λ c. eq_text c.policy_id policy_id) s.tags

-- `fresh && fresh.configVersion === configVersion`
abbrev pub is_version : ℕ → Option PolicyPaperlessTag → Bool
is_version version none = false
is_version version (some fresh) = fresh.config_version == version

abbrev pub is_current : Text → ℕ → Store → Bool
is_current policy_id version s = is_version version (find_config policy_id s)

-- `{ policyId, storageType: 'PAPERLESS_LINK', archivedAt: null }`
abbrev pub is_link : Text → PolicyDocument → Bool
is_link policy_id d =
    eq_text d.policy_id policy_id && is_paperless_link d.storage_type && is_null d.archived_at

abbrev pub has_ref : Text → PolicyDocument → Bool
has_ref ref d = eq_some ref d.storage_ref

unfoldable pub remote_by_id :
    List TagDocumentRef → List (Text × TagDocumentRef) → List (Text × TagDocumentRef)
remote_by_id [] entries = entries
remote_by_id (doc ∷ docs) entries = remote_by_id docs (put (to_string doc.paperless_id) doc entries)

-- `if (link.storageRef) localByRef.set(link.storageRef, link)`
unfoldable pub put_link :
    Option Text → PolicyDocument → List (Text × PolicyDocument) → List (Text × PolicyDocument)
put_link none link entries = entries
put_link (some ref) link entries = if is_empty ref then entries else put ref link entries

unfoldable pub local_by_ref :
    List PolicyDocument → List (Text × PolicyDocument) → List (Text × PolicyDocument)
unfolding put_link
local_by_ref [] entries = entries
local_by_ref (link ∷ links) entries = local_by_ref links (put_link link.storage_ref link entries)

-- The columns that the sync writes on a link that is there.
abbrev pub refresh_link : TagLinkMetadataUpdate → PolicyDocument → PolicyDocument → PolicyDocument
refresh_link update existing d =
    let written = write_metadata update d in
    record written { link_origin_tag = d.link_origin_tag || not existing.link_origin_tag }

abbrev pub add_updated : ReconcileCounts → ReconcileCounts
add_updated c = record c { updated = suc c.updated }

abbrev pub add_unchanged : ReconcileCounts → ReconcileCounts
add_unchanged c = record c { unchanged = suc c.unchanged }

abbrev pub add_added : ReconcileCounts → ReconcileCounts
add_added c = record c { added = suc c.added }

abbrev pub add_removed : ReconcileCounts → ReconcileCounts
add_removed c = record c { removed = suc c.removed }

-- `metadata.fileName || ...`: no derived name is empty.
abbrev or_name : Option Text → Text → Text
or_name none name = name
or_name (some derived) name = derived

abbrev pub new_link : World → Text → Text → TagDocumentRef → Store → PolicyDocument
new_link w policy_id ref remote s =
    let metadata = derive_tag_link_metadata w.to_date remote none in
    record {
      id = w.uuid (length s.documents);
      policy_id = policy_id;
      storage_type = paperless_link;
      file_name = or_name metadata.file_name (codes "Paperless document " ++ ref);
      mime_type = metadata.mime_type;
      storage_ref = some ref;
      document_date = metadata.document_date;
      archived_at = none;
      link_origin_manual = false;
      link_origin_tag = true;
      tagging_status = none;
      tagging_error_code = none;
    }

-- The rows that the unique index on the links that are not archived compares with a new one.
abbrev pub conflicts : Text → Text → PolicyDocument → Bool
conflicts policy_id ref d = is_link policy_id d && has_ref ref d

abbrev pub mark_tagged : Text → Text → PolicyDocument → PolicyDocument
mark_tagged policy_id ref d =
    if conflicts policy_id ref d then record d { link_origin_tag = true } else d

-- `link.storageRef && remoteById.has(link.storageRef)`
abbrev pub is_remote : List (Text × TagDocumentRef) → Option Text → Bool
is_remote entries none = false
is_remote entries (some ref) = not (is_empty ref) && has ref entries

abbrev pub is_lost : List (Text × TagDocumentRef) → PolicyDocument → Bool
is_lost entries link = link.link_origin_tag && not (is_remote entries link.storage_ref)

abbrev pub lose_tag : World → PolicyDocument → PolicyDocument → PolicyDocument
lose_tag w link d =
    if link.link_origin_manual
    then record d { link_origin_tag = false }
    else record d { link_origin_tag = false; archived_at = some w.now }
