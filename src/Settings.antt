-- ===== src/Settings.antt =====
-- packages/foundation/src/config: the settings, whose value is a valid one of the admin UI (a row of
-- GlobalIntegrationSetting), else one of the environment, else the default of the catalog. Here:
-- the types of settings-catalog.ts, without what only the admin UI shows of an entry.
pub mod Catalog
pub mod Validation
pub mod Resolver
pub mod Preload
mod Tests
use versi_go.Prelude.{
  ℕ, zero, suc, Text, codes, print, String, Bool, true, false, Option, none, some, List, ◌∷◌,
  Number,
}

pub data SettingsCategory : Type 0 where
  runtime restart secret bootstrap : SettingsCategory

pub data SettingsValueType : Type 0 where
  boolean_type number_type string_type : SettingsValueType

-- `string | number | boolean`
pub data SettingValue : Type 0 where
  boolean : Bool → SettingValue
  number : Number → SettingValue
  string : Text → SettingValue

-- An optional `bootActivation` that is missing is false.
pub record SettingDefinition : Type 0 where
  pub key : Text
  pub env_var : Text
  pub category : SettingsCategory
  pub type : SettingsValueType
  pub default_value : Option SettingValue
  pub allowed_values : Option (List Text)
  pub min_value : Option ℕ
  pub max_value : Option ℕ
  pub boot_activation : Bool

-- An entry under the name of its environment variable, with no optional property.
abbrev pub setting : SettingsCategory → SettingsValueType → String → SettingDefinition
setting category type key = record {
  key = codes key;
  env_var = codes key;
  category = category;
  type = type;
  default_value = none;
  allowed_values = none;
  min_value = none;
  max_value = none;
  boot_activation = false;
}

abbrev pub is_restart : SettingsCategory → Bool
is_restart restart = true
is_restart _ = false

abbrev pub is_secret : SettingsCategory → Bool
is_secret secret = true
is_secret _ = false

abbrev pub is_bootstrap : SettingsCategory → Bool
is_bootstrap bootstrap = true
is_bootstrap _ = false

-- `String(value)`
unfoldable pub to_text : SettingValue → Text
unfolding print
to_text (boolean true) = codes "true"
to_text (boolean false) = codes "false"
to_text (number n) = print n
to_text (string t) = t
