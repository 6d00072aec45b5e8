-- ===== src/Settings/Catalog/Sessions.antt =====
-- packages/foundation/src/config/settings-catalog.ts: the entries of OIDC, encryption and sessions.
use versi_go.Prelude.{true, false, some}
use versi_go.Settings.{
  SettingDefinition, setting, restart, secret, bootstrap, boolean_type, string_type, boolean,
}

abbrev pub oidc_enabled : SettingDefinition
oidc_enabled = record (setting restart boolean_type "OIDC_ENABLED") {
  default_value = some (boolean false);
}

abbrev pub oidc_issuer_url : SettingDefinition
oidc_issuer_url = setting restart string_type "OIDC_ISSUER_URL"

abbrev pub oidc_client_id : SettingDefinition
oidc_client_id = setting restart string_type "OIDC_CLIENT_ID"

abbrev pub oidc_client_secret : SettingDefinition
oidc_client_secret = record (setting secret string_type "OIDC_CLIENT_SECRET") {
  boot_activation = true;
}

abbrev pub oidc_callback_url : SettingDefinition
oidc_callback_url = setting restart string_type "OIDC_CALLBACK_URL"

abbrev pub settings_encryption_key : SettingDefinition
settings_encryption_key = setting bootstrap string_type "SETTINGS_ENCRYPTION_KEY"

abbrev pub session_secret : SettingDefinition
session_secret = setting bootstrap string_type "SESSION_SECRET"

abbrev pub s3_endpoint : SettingDefinition
s3_endpoint = setting bootstrap string_type "S3_ENDPOINT"
