-- ===== src/Settings/Catalog/Integrations.antt =====
-- packages/foundation/src/config/settings-catalog.ts: the entries of the Paperless-ngx integration, local sign-in, storage, family sharing and connectivity.
use versi_go.Prelude.{true, false, some, natural}
use versi_go.Settings.{
  SettingDefinition, setting, runtime, restart, secret, boolean_type, number_type, string_type,
  boolean, number,
}

abbrev pub paperless_enabled : SettingDefinition
paperless_enabled = record (setting runtime boolean_type "PAPERLESS_ENABLED") {
  default_value = some (boolean false);
}

abbrev pub paperless_url : SettingDefinition
paperless_url = setting runtime string_type "PAPERLESS_URL"

abbrev pub paperless_api_token : SettingDefinition
paperless_api_token = setting secret string_type "PAPERLESS_API_TOKEN"

abbrev pub paperless_tag_sync_enabled : SettingDefinition
paperless_tag_sync_enabled = record (setting runtime boolean_type "PAPERLESS_TAG_SYNC_ENABLED") {
  default_value = some (boolean true);
}

abbrev pub paperless_tag_sync_interval_ms : SettingDefinition
paperless_tag_sync_interval_ms =
    record (setting runtime number_type "PAPERLESS_TAG_SYNC_INTERVAL_MS") {
      default_value = some (number (natural 300000));
      min_value = some 30000;
      max_value = some 86400000;
    }

abbrev pub local_auth_max_attempts : SettingDefinition
local_auth_max_attempts = record (setting restart number_type "LOCAL_AUTH_MAX_ATTEMPTS") {
  default_value = some (number (natural 5));
  min_value = some 1;
  max_value = some 100;
}

abbrev pub local_auth_rate_limit_window_ms : SettingDefinition
local_auth_rate_limit_window_ms =
    record (setting restart number_type "LOCAL_AUTH_RATE_LIMIT_WINDOW_MS") {
      default_value = some (number (natural 900000));
      min_value = some 1000;
      max_value = some 86400000;
    }

abbrev pub storage_enabled : SettingDefinition
storage_enabled = record (setting restart boolean_type "STORAGE_ENABLED") {
  default_value = some (boolean false);
}

abbrev pub family_sharing_enabled : SettingDefinition
family_sharing_enabled = record (setting runtime boolean_type "FAMILY_SHARING_ENABLED") {
  default_value = some (boolean true);
}

abbrev pub connectivity_allow_private_endpoints : SettingDefinition
connectivity_allow_private_endpoints =
    record (setting runtime boolean_type "CONNECTIVITY_ALLOW_PRIVATE_ENDPOINTS") {
      default_value = some (boolean false);
    }

abbrev pub connectivity_allow_self_signed : SettingDefinition
connectivity_allow_self_signed =
    record (setting runtime boolean_type "CONNECTIVITY_ALLOW_SELF_SIGNED") {
      default_value = some (boolean false);
    }
