-- ===== src/Settings/Catalog/Bootstrap.antt =====
-- packages/foundation/src/config/settings-catalog.ts: the entries of what a process is started with.
use versi_go.Prelude.{codes, true, false, some, [], ◌∷◌, natural}
use versi_go.Settings.{
  SettingDefinition, setting, bootstrap, boolean_type, number_type, string_type, boolean, number,
  string,
}

abbrev pub node_env : SettingDefinition
node_env = record (setting bootstrap string_type "NODE_ENV") {
  default_value = some (string (codes "development"));
  allowed_values = some (codes "development" ∷ codes "test" ∷ codes "production" ∷ []);
}

abbrev pub app_port : SettingDefinition
app_port = record (setting bootstrap number_type "APP_PORT") {
  default_value = some (number (natural 3001));
}

abbrev pub web_port : SettingDefinition
web_port = record (setting bootstrap number_type "WEB_PORT") {
  default_value = some (number (natural 3000));
}

abbrev pub cors_origins : SettingDefinition
cors_origins = record (setting bootstrap string_type "CORS_ORIGINS") {
  default_value = some (string (codes "http://localhost:3000"));
}

abbrev pub trust_proxy : SettingDefinition
trust_proxy = record (setting bootstrap boolean_type "TRUST_PROXY") {
  default_value = some (boolean false);
}

abbrev pub cookie_secure : SettingDefinition
cookie_secure = record (setting bootstrap boolean_type "COOKIE_SECURE") {
  default_value = some (boolean true);
}

abbrev pub database_url : SettingDefinition
database_url = setting bootstrap string_type "DATABASE_URL"

abbrev pub redis_url : SettingDefinition
redis_url = setting bootstrap string_type "REDIS_URL"

abbrev pub documents_storage_path : SettingDefinition
documents_storage_path = record (setting bootstrap string_type "DOCUMENTS_STORAGE_PATH") {
  default_value = some (string (codes "./uploads"));
}

abbrev pub local_auth_enabled : SettingDefinition
local_auth_enabled = setting bootstrap boolean_type "LOCAL_AUTH_ENABLED"

abbrev pub local_admin_username : SettingDefinition
local_admin_username = setting bootstrap string_type "LOCAL_ADMIN_USERNAME"

abbrev pub local_admin_password : SettingDefinition
local_admin_password = setting bootstrap string_type "LOCAL_ADMIN_PASSWORD"
