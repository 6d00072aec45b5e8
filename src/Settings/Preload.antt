-- ===== src/Settings/Preload.antt =====
-- packages/foundation/src/config/settings-preload.ts: preloadRestartSettingsIntoEnv, for a run that
-- ends before its limit of time.
pub mod Untouched
pub mod Activation
pub mod Restart
use versi_go.Prelude.{
  ℕ, suc, Text, codes, eq_text, is_empty, get_elem?, put, Bool, true, false, ◌||◌, if◌then◌else◌,
  Option, none, some, List, [], ◌∷◌, any, filter, map,
}
use versi_go.Settings.{SettingDefinition}
use versi_go.Settings.Catalog.{get_setting_definition, get_boot_preload_keys}
use versi_go.Settings.Validation.{ValidationResult, ok, invalid, validate_setting_value}
use versi_go.Settings.Resolver.{
  StoredSetting, Environment, EncryptionPort, RawValue, undecryptable, readable, raw_value,
}

-- What the loop does with a row: the exception of `decrypt`, `continue`, or the canonical form that it
-- writes.
pub data RowOutcome : Type 0 where
  throws keeps : RowOutcome
  writes : Text → RowOutcome

abbrev pub of_validated : ValidationResult → RowOutcome
of_validated (ok v canonical) = writes canonical
of_validated (invalid e) = keeps

abbrev pub of_value : SettingDefinition → RawValue → RowOutcome
of_value d undecryptable = throws
of_value d (readable none) = keeps
of_value d (readable (some raw)) = of_validated (validate_setting_value d raw)

abbrev pub of_definition : Option SettingDefinition → RawValue → RowOutcome
of_definition none raw = keeps
of_definition (some d) raw = of_value d raw

unfoldable pub row_outcome : EncryptionPort → StoredSetting → RowOutcome
row_outcome port row = of_definition (get_setting_definition row.key) (raw_value port row)

-- The loop, over the outcomes of the rows. An exception ends it, and what was written stays: the
-- catch answers 0.
unfoldable pub apply_outcomes : List (Text × RowOutcome) → Environment → ℕ → Environment × ℕ
apply_outcomes [] e applied = (e, applied)
apply_outcomes ((key, throws) ∷ rows) e applied = (e, 0)
apply_outcomes ((key, keeps) ∷ rows) e applied = apply_outcomes rows e applied
apply_outcomes ((key, writes canonical) ∷ rows) e applied =
    apply_outcomes rows (put key canonical e) (suc applied)

-- `findMany({ where: { key: { in: restartKeys } } })`
abbrev pub find_preloaded : List StoredSetting → List StoredSetting
find_preloaded rows = filter (λ r. any (eq_text r.key) get_boot_preload_keys) rows

abbrev pub outcomes : EncryptionPort → List StoredSetting → List (Text × RowOutcome)
outcomes port rows = map (λ r. (r.key, row_outcome port r)) rows

-- The work: a database that cannot be reached and a key that the adapter refuses are exceptions too.
abbrev pub work :
    Option EncryptionPort → Option (List StoredSetting) → Environment → Environment × ℕ
work port none e = (e, 0)
work none (some rows) e = (e, 0)
work (some port) (some rows) e = apply_outcomes (outcomes port (find_preloaded rows)) e 0

-- `!env.NAME`
abbrev pub is_missing : Option Text → Bool
is_missing none = true
is_missing (some t) = is_empty t

unfoldable pub preload_restart_settings_into_env :
    Option EncryptionPort → Option (List StoredSetting) → Environment → Environment × ℕ
preload_restart_settings_into_env port database e =
    if is_missing (get_elem? (codes "DATABASE_URL") e)
      || is_missing (get_elem? (codes "SETTINGS_ENCRYPTION_KEY") e)
    then (e, 0)
    else work port database e
