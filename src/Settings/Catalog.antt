-- ===== src/Settings/Catalog.antt =====
-- packages/foundation/src/config/settings-catalog.ts: the catalog, in its order, and what is read off it.
pub mod Laws
pub mod Assistant
pub mod Integrations
pub mod Bootstrap
mod Sessions
mod Processes
use versi_go.Prelude.{
  Text, eq_text, Bool, true, false, ◌&&◌, ◌||◌, not, Option, none, some, List, [], ◌∷◌, find,
  filter, map,
}
use versi_go.Settings.{SettingDefinition, SettingsCategory, is_restart, is_bootstrap, is_secret}
use versi_go.Settings.Catalog.Assistant.{
  ai_enabled, ai_provider, ai_ollama_base_url, ai_ollama_model, ai_openai_compat_base_url,
  ai_openai_compat_api_key, ai_openai_compat_model, ai_extraction_timeout_ms, ai_max_retries,
  ai_max_input_tokens,
}
use versi_go.Settings.Catalog.Integrations.{
  paperless_enabled, paperless_url, paperless_api_token, paperless_tag_sync_enabled,
  paperless_tag_sync_interval_ms, local_auth_max_attempts, local_auth_rate_limit_window_ms,
  storage_enabled, family_sharing_enabled, connectivity_allow_private_endpoints,
  connectivity_allow_self_signed,
}
use versi_go.Settings.Catalog.Bootstrap.{
  node_env, app_port, web_port, cors_origins, trust_proxy, cookie_secure, database_url, redis_url,
  documents_storage_path, local_auth_enabled, local_admin_username, local_admin_password,
}
use versi_go.Settings.Catalog.Sessions.{
  oidc_enabled, oidc_issuer_url, oidc_client_id, oidc_client_secret, oidc_callback_url,
  settings_encryption_key, session_secret, s3_endpoint,
}
use versi_go.Settings.Catalog.Processes.{
  s3_bucket, s3_access_key, s3_secret_key, minio_root_user, minio_root_password,
  next_public_api_base_url, next_allowed_dev_origins, worker_health_port,
  worker_heartbeat_interval_ms, worker_heartbeat_timeout_ms,
}

abbrev pub settings_catalog : List SettingDefinition
settings_catalog =
    ai_enabled ∷ ai_provider ∷ ai_ollama_base_url ∷ ai_ollama_model ∷ ai_openai_compat_base_url
    ∷ ai_openai_compat_api_key ∷ ai_openai_compat_model ∷ ai_extraction_timeout_ms ∷ ai_max_retries
    ∷ ai_max_input_tokens ∷ paperless_enabled ∷ paperless_url ∷ paperless_api_token
    ∷ paperless_tag_sync_enabled ∷ paperless_tag_sync_interval_ms ∷ local_auth_max_attempts
    ∷ local_auth_rate_limit_window_ms ∷ storage_enabled ∷ family_sharing_enabled
    ∷ connectivity_allow_private_endpoints ∷ connectivity_allow_self_signed ∷ node_env ∷ app_port
    ∷ web_port ∷ cors_origins ∷ trust_proxy ∷ cookie_secure ∷ database_url ∷ redis_url
    ∷ documents_storage_path ∷ local_auth_enabled ∷ local_admin_username ∷ local_admin_password
    ∷ oidc_enabled ∷ oidc_issuer_url ∷ oidc_client_id ∷ oidc_client_secret ∷ oidc_callback_url
    ∷ settings_encryption_key ∷ session_secret ∷ s3_endpoint ∷ s3_bucket ∷ s3_access_key
    ∷ s3_secret_key ∷ minio_root_user ∷ minio_root_password ∷ next_public_api_base_url
    ∷ next_allowed_dev_origins ∷ worker_health_port ∷ worker_heartbeat_interval_ms
    ∷ worker_heartbeat_timeout_ms ∷ []

-- The keys are distinct, so that the map of the entries finds the first one with a key.
unfoldable pub get_setting_definition : Text → Option SettingDefinition
get_setting_definition key = find (λ d. eq_text d.key key) settings_catalog

abbrev pub keys : (SettingDefinition → Bool) → List Text
keys p = map (λ d. d.key) (filter p settings_catalog)

abbrev pub get_ui_configurable_keys : List Text
get_ui_configurable_keys = keys (λ d. not (is_bootstrap d.category))

abbrev pub get_restart_required_keys : List Text
get_restart_required_keys = keys (λ d. is_restart d.category)

abbrev pub is_preloaded : SettingDefinition → Bool
is_preloaded d = is_restart d.category || (is_secret d.category && d.boot_activation)

abbrev pub get_boot_preload_keys : List Text
get_boot_preload_keys = keys is_preloaded

-- `getSettingDefinition(key)?.category === 'secret'`
abbrev is_secret_definition : Option SettingDefinition → Bool
is_secret_definition none = false
is_secret_definition (some d) = is_secret d.category

unfoldable pub is_secret_key : Text → Bool
unfolding get_setting_definition
is_secret_key key = is_secret_definition (get_setting_definition key)
