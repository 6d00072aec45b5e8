-- ===== src/Settings/Resolver.antt =====
-- packages/foundation/src/config/settings-resolver.service.ts: resolve, resolveMany and the typed reads.
pub mod Chain
pub mod Values
pub mod Reads
pub mod Many
use versi_go.Prelude.{
  ℕ, Text, eq_text, trim, is_empty, get_elem?, Bool, true, false, if◌then◌else◌, Option, none, some,
  List, find,
}
use versi_go.Settings.{
  SettingDefinition, SettingsCategory, SettingValue, runtime, restart, secret, bootstrap, boolean,
  number, string, to_text, is_restart, Number,
}
use versi_go.Settings.Catalog.{get_setting_definition}
use versi_go.Settings.Validation.{ValidationResult, ok, invalid, validate_setting_value}

pub data SettingSource : Type 0 where
  ui env default : SettingSource

-- One constructor per text; `after_restart` quotes the reason of the value that is active.
pub data Reason : Type 0 where
  ui_active already_active env_invalid not_configured degraded : Reason
  from_env : Text → Reason
  after_restart : Reason → Reason

-- What resolveEnvOrDefault returns.
pub record ActiveSetting : Type 0 where
  pub key : Text
  pub value : Option SettingValue
  pub source : SettingSource
  pub reason : Reason

pub record SettingResolution : Type 0 where
  pub active : ActiveSetting
  pub ui_value_present : Bool
  pub ui_value_invalid : Bool
  pub ui_updated_at : Option ℕ
  pub pending_restart_value : Option SettingValue

-- A row of GlobalIntegrationSetting.
pub record StoredSetting : Type 0 where
  pub key : Text
  pub value_encrypted : Option Text
  pub value_plain : Option Text
  pub updated_at : ℕ

-- What `process.env` holds, by name.
abbrev pub Environment : Type 0
Environment = List (Text × Text)

-- EncryptionPort: a text that cannot be decrypted is answered by an exception.
pub record EncryptionPort : Type 0 where
  pub decrypt : Text → Option Text

-- `decrypt`'s answer, or the plain value.
pub data RawValue : Type 0 where
  undecryptable : RawValue
  readable : Option Text → RawValue

-- What a read ends with: the two exceptions or the resolution.
pub data Resolved : Type 0 where
  unknown_key decryption_failed : Resolved
  resolved : SettingResolution → Resolved

abbrev pub of_default : SettingDefinition → Bool → Option SettingValue → ActiveSetting
of_default d env_present none = record {
  key = d.key;
  value = none;
  source = default;
  reason = degraded;
}
of_default d env_present (some v) = record {
  key = d.key;
  value = some v;
  source = default;
  reason = if env_present then env_invalid else not_configured;
}

abbrev pub of_env : SettingDefinition → ValidationResult → ActiveSetting
of_env d (ok v canonical) = record {
  key = d.key;
  value = some v;
  source = env;
  reason = from_env d.env_var;
}
of_env d (invalid e) = of_default d true d.default_value

abbrev pub of_variable : SettingDefinition → Option Text → ActiveSetting
of_variable d none = of_default d false d.default_value
of_variable d (some raw) =
    if is_empty (trim raw)
    then of_default d false d.default_value
    else of_env d (validate_setting_value d raw)

unfoldable pub resolve_env_or_default : Environment → SettingDefinition → ActiveSetting
resolve_env_or_default e d = of_variable d (get_elem? d.env_var e)

abbrev pub unset : ActiveSetting → SettingResolution
unset a = record {
  active = a;
  ui_value_present = false;
  ui_value_invalid = false;
  ui_updated_at = none;
  pending_restart_value = none;
}

-- `active.value !== undefined && String(active.value) === String(coerced.value)`
abbrev pub is_same : Option SettingValue → SettingValue → Bool
is_same none v = false
is_same (some a) v = eq_text (to_text a) (to_text v)

abbrev pub awaiting : ℕ → SettingValue → ActiveSetting → SettingResolution
awaiting updated_at v a = record {
  active = record a {
    reason = if is_same a.value v then already_active else after_restart a.reason;
  };
  ui_value_present = true;
  ui_value_invalid = false;
  ui_updated_at = some updated_at;
  pending_restart_value = if is_same a.value v then none else some v;
}

abbrev pub of_ui : ℕ → SettingValue → SettingDefinition → SettingResolution
of_ui updated_at v d = record {
  active = record { key = d.key; value = some v; source = ui; reason = ui_active };
  ui_value_present = true;
  ui_value_invalid = false;
  ui_updated_at = some updated_at;
  pending_restart_value = none;
}

abbrev pub ignored : ℕ → ActiveSetting → SettingResolution
ignored updated_at a = record {
  active = a;
  ui_value_present = true;
  ui_value_invalid = true;
  ui_updated_at = some updated_at;
  pending_restart_value = none;
}

abbrev pub resolve_validated :
    Environment → SettingDefinition → ℕ → ValidationResult → SettingResolution
resolve_validated e d updated_at (invalid error) = ignored updated_at (resolve_env_or_default e d)
resolve_validated e d updated_at (ok v canonical) =
    if is_restart d.category
    then awaiting updated_at v (resolve_env_or_default e d)
    else of_ui updated_at v d

abbrev pub resolve_raw : Environment → SettingDefinition → ℕ → RawValue → Resolved
resolve_raw e d updated_at undecryptable = decryption_failed
resolve_raw e d updated_at (readable none) = resolved (unset (resolve_env_or_default e d))
resolve_raw e d updated_at (readable (some raw)) =
    if is_empty (trim raw)
    then resolved (unset (resolve_env_or_default e d))
    else resolved (resolve_validated e d updated_at (validate_setting_value d raw))

abbrev pub decrypted : Option Text → RawValue
decrypted none = undecryptable
decrypted (some t) = readable (some t)

abbrev pub raw_of : EncryptionPort → Option Text → Option Text → RawValue
raw_of port none plain = readable plain
raw_of port (some t) plain = if is_empty t then readable plain else decrypted (port.decrypt t)

-- `stored.valueEncrypted ? decrypt(stored.valueEncrypted) : (stored.valuePlain ?? null)`
abbrev pub raw_value : EncryptionPort → StoredSetting → RawValue
raw_value port stored = raw_of port stored.value_encrypted stored.value_plain

unfoldable pub resolve_stored :
    EncryptionPort → Environment → SettingDefinition → Option StoredSetting → Resolved
resolve_stored port e d none = resolved (unset (resolve_env_or_default e d))
resolve_stored port e d (some stored) = resolve_raw e d stored.updated_at (raw_value port stored)

-- `findUnique({ where: { key } })`
abbrev pub find_row : Text → List StoredSetting → Option StoredSetting
find_row key rows = find (λ r. eq_text r.key key) rows

abbrev pub resolve_defined :
    EncryptionPort → Environment → Option StoredSetting → Option SettingDefinition → Resolved
resolve_defined port e stored none = unknown_key
resolve_defined port e stored (some d) = resolve_stored port e d stored

unfoldable pub resolve : EncryptionPort → Environment → List StoredSetting → Text → Resolved
resolve port e rows key = resolve_defined port e (find_row key rows) (get_setting_definition key)
