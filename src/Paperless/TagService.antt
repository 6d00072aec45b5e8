-- ===== src/Paperless/TagService.antt =====
-- apps/api/src/features/paperless-ngx/paperless-tag.service.ts: the tag of a policy, set, changed and
-- removed by its household, and the jobs that the API schedules for the worker. What the adapter
-- answers to the lookup of a tag is an argument; the diff of an audit entry holds numbers as digits and
-- null as its JSON text.
pub mod Requests
pub mod Effect
pub mod Removal
pub mod Announce
mod Tests
pub mod Answers
pub mod Saved
use versi_go.Prelude.{
  ℕ, zero, suc, ◌+◌, Text, String, codes, eq_text, is_empty, Bool, true, false, not, ◌==◌, ◌||◌,
  ◌&&◌, Option, none, some, List, [], ◌∷◌, ◌++◌, if◌then◌else◌, map, filter, find, any, count,
  length, take, ltb, leb, ◌-◌,
}
use versi_go.Http.{
  Result, ok, err, HttpError, forbidden, not_found, bad_gateway, service_unavailable, require,
  ◌>>=◌, ◌>>◌,
}
use versi_go.Identity.{AuditEvent, has_membership}
use versi_go.Sharing.{InsurancePolicy}
use versi_go.Paperless.{
  PolicyPaperlessTag, PaperlessTagJob, PolicyDocument, Store, AiJobStatus, pending, running,
  completed, failed, skipped, sync_policy, tag_document, is_active, is_sync_policy, is_null,
  is_paperless_link, new_job, sync_pending, PaperlessTaggingStatus, tagging_pending,
  tagging_applied, tagging_failed, write_document,
}
use versi_go.Paperless.Client.{
  TagLookupResult, found, lookup_failed, TagLookupErrorKind, lookup_not_found, lookup_auth_failed,
  lookup_unreachable, lookup_not_configured, base_url,
}
use versi_go.Paperless.World.{World}
use versi_go.Prelude.{to_string}
use versi_go.Paperless.Links.{find_config}
use versi_go.Paperless.Worker.{create_job, is_tagging, to_tagging}
use versi_go.Paperless.Jobs.{enqueue_row, message_of, is_drifted}
use versi_go.Paperless.Tick.{is_syncing}

abbrev is_open_policy : Text → Text → InsurancePolicy → Bool
is_open_policy household_id policy_id p =
    eq_text p.id policy_id && eq_text p.household_id household_id && is_null p.archived_at

unfoldable pub assert_policy_write_access : Text → Text → Text → Store → Result (Unit {0})
assert_policy_write_access household_id user_id policy_id s =
    require (has_membership household_id user_id s.memberships)
      (forbidden "Isolation: no access to a foreign household")
    >> require (any (is_open_policy household_id policy_id) s.policies)
        (not_found "Policy not found")

abbrev lookup_error : TagLookupErrorKind → HttpError
lookup_error lookup_not_configured = bad_gateway "PAPERLESS_NOT_CONFIGURED"
lookup_error lookup_not_found =
    not_found "PAPERLESS_TAG_NOT_FOUND: the tag does not exist in Paperless-ngx"
lookup_error lookup_auth_failed = bad_gateway "PAPERLESS_TAG_LOOKUP_FAILED: AUTH_FAILED"
lookup_error lookup_unreachable = bad_gateway "PAPERLESS_TAG_LOOKUP_FAILED: UNREACHABLE"

abbrev pub name_of_tag : TagLookupResult → Result Text
name_of_tag (lookup_failed error) = err (lookup_error error)
name_of_tag (found id name) = ok name

-- `lookup.tag.name || tagName || null`
abbrev pub resolved_name : Text → Option Text → Option Text
resolved_name name none = if is_empty name then none else some name
resolved_name name (some client) =
    if is_empty name then (if is_empty client then none else some client) else some name

abbrev pub is_config_of : Text → PolicyPaperlessTag → Bool
is_config_of policy_id c = eq_text c.policy_id policy_id

-- The row that an update of an existing configuration writes.
abbrev pub change_config : World → ℕ → Option Text → PolicyPaperlessTag → PolicyPaperlessTag
change_config w tag_id name c = record c {
  paperless_tag_id = tag_id;
  paperless_tag_name = name;
  connection_ref = some (base_url w.connection);
  config_version = suc c.config_version;
  sync_status = sync_pending;
  sync_error_code = none;
}

abbrev pub new_config : World → Text → ℕ → Option Text → Store → PolicyPaperlessTag
new_config w policy_id tag_id name s = record {
  id = w.uuid (length s.tags);
  policy_id = policy_id;
  connection_ref = some (base_url w.connection);
  paperless_tag_id = tag_id;
  paperless_tag_name = name;
  config_version = 1;
  last_synced_at = none;
  sync_status = sync_pending;
  sync_error_code = none;
}

abbrev pub change_if :
    Text → (PolicyPaperlessTag → PolicyPaperlessTag) → PolicyPaperlessTag → PolicyPaperlessTag
change_if policy_id f c = if is_config_of policy_id c then f c else c

-- The saved row, and the table with it.
unfoldable pub save_config :
    Option PolicyPaperlessTag
    → World
    → Text
    → ℕ
    → Option Text
    → Store
    → PolicyPaperlessTag × List PolicyPaperlessTag
save_config (some existing) w policy_id tag_id name s = (
  change_config w tag_id name existing,
  map (change_if policy_id (change_config w tag_id name)) s.tags,
)
save_config none w policy_id tag_id name s =
    let created = new_config w policy_id tag_id name s in (created, s.tags ++ (created ∷ []))

-- `updateMany({ where: { policyId, status: { in: ['PENDING', 'RUNNING'] } } })`
abbrev pub supersede : World → Text → Text → PaperlessTagJob → PaperlessTagJob
supersede w policy_id code j =
    if eq_text j.policy_id policy_id && is_active j.status
    then record j { status = skipped; completed_at = some w.now; error_code = some code }
    else j

abbrev is_applied : Option PaperlessTaggingStatus → Bool
is_applied (some tagging_applied) = true
is_applied _ = false

-- An assignment that was confirmed for another tag is to be made again.
abbrev reset_applied : Text → PolicyDocument → PolicyDocument
reset_applied policy_id d =
    if eq_text d.policy_id policy_id && d.link_origin_manual && is_applied d.tagging_status
    then to_tagging tagging_pending none d
    else d

abbrev is_other_tag : ℕ → Option PolicyPaperlessTag → Bool
is_other_tag tag_id none = false
is_other_tag tag_id (some existing) = not (existing.paperless_tag_id == tag_id)

abbrev json_text : Option Text → Text
json_text none = codes "null"
json_text (some t) = t

abbrev previous_tag : Option PolicyPaperlessTag → Text
previous_tag none = codes "null"
previous_tag (some existing) = to_string existing.paperless_tag_id

abbrev set_action : Option PolicyPaperlessTag → String
set_action none = "PAPERLESS_TAG_SET"
set_action (some existing) = "PAPERLESS_TAG_CHANGED"

abbrev pub tag_event : Text → Text → String → List (String × Text) → AuditEvent
tag_event user_id config_id action diff = record {
  actor_user_id = some user_id;
  entity_type = "PolicyPaperlessTag";
  entity_id = config_id;
  action = action;
  diff = diff;
}

-- The transaction of setTag, with the configuration that was found.
unfoldable pub assign_tag :
    Option PolicyPaperlessTag → World → Text → Text → ℕ → Option Text → Store → Store
unfolding save_config
assign_tag existing w user_id policy_id tag_id name s =
    let (saved, tags) = save_config existing w policy_id tag_id name s in
    let job = new_job (w.uuid (length s.jobs)) policy_id none sync_policy saved.config_version in
    record s {
      tags = tags;
      jobs = map (supersede w policy_id (codes "SUPERSEDED")) s.jobs ++ (job ∷ []);
      documents =
          if is_other_tag tag_id existing
          then map (reset_applied policy_id) s.documents
          else s.documents;
      audit_events =
          s.audit_events
          ++ (tag_event user_id saved.id (set_action existing) (
                ("policyId", policy_id)
                ∷ ("paperlessTagId", to_string tag_id)
                ∷ ("paperlessTagName", json_text name)
                ∷ ("configVersion", to_string saved.config_version)
                ∷ ("previousTagId", previous_tag existing)
                ∷ [])
              ∷ []);
    }

-- The job that setTag enqueues behind its transaction.
abbrev pub assigned_job :
    Option PolicyPaperlessTag → World → Text → ℕ → Option Text → Store → PaperlessTagJob
assigned_job existing w policy_id tag_id name s =
    new_job (w.uuid (length s.jobs)) policy_id none sync_policy
      (save_config existing w policy_id tag_id name s).0.config_version

unfoldable pub set_tag :
    World → TagLookupResult → Text → Text → Text → ℕ → Option Text → Store → Result Store
unfolding assert_policy_write_access assign_tag
set_tag w lookup household_id user_id policy_id tag_id tag_name s =
    assert_policy_write_access household_id user_id policy_id s
    >> (name_of_tag lookup >>= λ name.
        let existing = find_config policy_id s in
        let resolved = resolved_name name tag_name in
        ok (
          enqueue_row w (message_of (assigned_job existing w policy_id tag_id resolved s))
            (assign_tag existing w user_id policy_id tag_id resolved s)))
