-- ===== src/Settings/Catalog/Processes.antt =====
-- packages/foundation/src/config/settings-catalog.ts: the entries of S3, the web application and the worker.
use versi_go.Prelude.{codes, some, natural}
use versi_go.Settings.{
  SettingDefinition, setting, bootstrap, number_type, string_type, number, string,
}

abbrev pub s3_bucket : SettingDefinition
s3_bucket = setting bootstrap string_type "S3_BUCKET"

abbrev pub s3_access_key : SettingDefinition
s3_access_key = setting bootstrap string_type "S3_ACCESS_KEY"

abbrev pub s3_secret_key : SettingDefinition
s3_secret_key = setting bootstrap string_type "S3_SECRET_KEY"

abbrev pub minio_root_user : SettingDefinition
minio_root_user = setting bootstrap string_type "MINIO_ROOT_USER"

abbrev pub minio_root_password : SettingDefinition
minio_root_password = setting bootstrap string_type "MINIO_ROOT_PASSWORD"

abbrev pub next_public_api_base_url : SettingDefinition
next_public_api_base_url = record (setting bootstrap string_type "NEXT_PUBLIC_API_BASE_URL") {
  default_value = some (string (codes ""));
}

abbrev pub next_allowed_dev_origins : SettingDefinition
next_allowed_dev_origins = setting bootstrap string_type "NEXT_ALLOWED_DEV_ORIGINS"

abbrev pub worker_health_port : SettingDefinition
worker_health_port = record (setting bootstrap number_type "WORKER_HEALTH_PORT") {
  default_value = some (number (natural 3100));
  min_value = some 1024;
  max_value = some 65535;
}

abbrev pub worker_heartbeat_interval_ms : SettingDefinition
worker_heartbeat_interval_ms =
    record (setting bootstrap number_type "WORKER_HEARTBEAT_INTERVAL_MS") {
      default_value = some (number (natural 15000));
      min_value = some 1000;
      max_value = some 3600000;
    }

abbrev pub worker_heartbeat_timeout_ms : SettingDefinition
worker_heartbeat_timeout_ms = record (setting bootstrap number_type "WORKER_HEARTBEAT_TIMEOUT_MS") {
  default_value = some (number (natural 45000));
  min_value = some 1000;
  max_value = some 3600000;
}
