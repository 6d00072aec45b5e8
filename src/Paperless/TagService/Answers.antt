-- ===== src/Paperless/TagService/Answers.antt =====
-- apps/api/src/features/paperless-ngx/paperless-tag.service.ts: the moment that getStatus announces, and the
-- exceptions of the interactive requests.
use versi_go.Prelude.{ℕ, ◌+◌, Text, true, Option, none, some, if◌then◌else◌, natural}
use versi_go.Http.{HttpError, bad_gateway, service_unavailable}
use versi_go.Config.SyncSchedule.{
  number, synced, paperless_tag_sync_interval_ms, next_paperless_tag_sync_at,
}
use versi_go.Paperless.{PolicyPaperlessTag}
use versi_go.Paperless.Client.{or_value}
use versi_go.Paperless.World.{World}

-- `nextSyncAt` of getStatus: null where the automatic sync is off.
abbrev pub reconcile_tick_ms : ℕ
reconcile_tick_ms = 60_000

abbrev next_after_last : World → Text → Option ℕ → ℕ
next_after_last w policy_id none = w.now + reconcile_tick_ms
next_after_last w policy_id (some last) = next_paperless_tag_sync_at (record {
  policy_id = policy_id;
  last_synced_at = synced last;
  now = w.now;
  interval_ms = number (natural (paperless_tag_sync_interval_ms w.sync_interval_ms));
})

unfoldable pub next_sync_at : World → PolicyPaperlessTag → Option ℕ
next_sync_at w config =
    if or_value w.sync_enabled true
    then some (next_after_last w config.policy_id config.last_synced_at)
    else none

-- tagRequestException: the kinds of failure of a search or a creation.
pub data PaperlessTagRequestError : Type 0 where
  request_not_configured request_auth_failed request_unreachable request_rejected :
      PaperlessTagRequestError

pub data TagOperation : Type 0 where
  search_operation create_operation : TagOperation

unfoldable pub tag_request_exception : PaperlessTagRequestError → TagOperation → HttpError
tag_request_exception request_rejected search_operation =
    bad_gateway "PAPERLESS_TAG_SEARCH_FAILED: Paperless-ngx rejected the tag search"
tag_request_exception request_rejected create_operation =
    bad_gateway "PAPERLESS_TAG_CREATE_FAILED: the tag could not be created in Paperless"
tag_request_exception request_not_configured operation =
    service_unavailable
      "PAPERLESS_NOT_CONFIGURED: Paperless-ngx is not configured (enabled, URL and API token are required)"
tag_request_exception request_auth_failed operation =
    bad_gateway
      "PAPERLESS_AUTH_FAILED: Paperless-ngx rejected the API token or the account lacks the required permissions"
tag_request_exception request_unreachable operation =
    service_unavailable "PAPERLESS_UNREACHABLE: Paperless-ngx is not reachable"
