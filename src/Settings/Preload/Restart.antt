-- ===== src/Settings/Preload/Restart.antt =====
-- preloadRestartSettingsIntoEnv at the start of a process, and what resolve answers afterwards.
use versi_go.Prelude.{
  ◌≡◌, refl, sym, subst, Text, codes, eq_text, eq_text_iff, eq_text_refl, trim, is_empty, get_elem?,
  true, false, Bool-cases, none, some, inl, inr, List, any, find-holds, All, arith,
}
use versi_go.Settings.{SettingDefinition, SettingValue, is_restart, to_text}
use versi_go.Settings.Catalog.{get_setting_definition}
use versi_go.Settings.Catalog.Laws.{
  restart-is_safe, get_setting_definition-env_var, get_boot_preload_keys-restart,
}
use versi_go.Settings.Validation.{ok, invalid, empty, validate_setting_value}
use versi_go.Settings.Validation.Canonical.{is_safe, validate_setting_value-canonical}
use versi_go.Settings.Validation.Sound.{validate_setting_value-conforms}
use versi_go.Settings.Resolver.{
  env, from_env, ActiveSetting, StoredSetting, Environment, EncryptionPort, readable, raw_value,
  find_row, SettingResolution, resolved, awaiting, resolve_env_or_default, resolve_stored, resolve,
}
use versi_go.Settings.Preload.{
  row_outcome, apply_outcomes, outcomes, find_preloaded, is_missing,
  preload_restart_settings_into_env,
}
use versi_go.Settings.Preload.Activation.{
  throws_at, written, apply-written, rows-settle, rows-reach,
}

ok-filled :
    (d : SettingDefinition) (raw : Text) (v : SettingValue) (c : Text)
    → validate_setting_value d raw ≡ ok v c
    → is_empty (trim raw) ≡ false
unfolding validate_setting_value
ok-filled d raw v c h = elim (Bool-cases (is_empty (trim raw))) [
  | inl blank ↦ let clash : invalid empty ≡ ok v c = rw blank at h in ground arith
  | inr filled ↦ filled
]

module _ (d : SettingDefinition) (raw : Text) (v : SettingValue) (c : Text)
    (valid : validate_setting_value d raw ≡ ok v c) (safe : is_safe v ≡ true) where
  row-written :
      (port : EncryptionPort) (row : StoredSetting)
      → get_setting_definition row.key ≡ some d
      → raw_value port row ≡ readable (some raw)
      → written (row_outcome port row) ≡ some c
  unfolding row_outcome
  row-written port row h r = rw (h, r, valid) refl

  abbrev from_variable : ActiveSetting
  from_variable = record { key = d.key; value = some v; source = env; reason = from_env d.env_var }

  variable-active :
      (e : Environment)
      → get_elem? d.env_var e ≡ some c
      → resolve_env_or_default e d ≡ from_variable
  unfolding resolve_env_or_default
  variable-active e there =
      let (filled, again) = validate_setting_value-canonical d raw v c valid safe in
      rw (there, filled, again) refl

  -- The variable holds the canonical form, so that nothing is pending.
  resolved-active :
      (port : EncryptionPort) (e : Environment) (row : StoredSetting)
      → raw_value port row ≡ readable (some raw)
      → is_restart d.category ≡ true
      → get_elem? d.env_var e ≡ some c
      → (r : SettingResolution) × (resolve_stored port e d (some row) ≡ resolved r)
        × (r.active.value ≡ some v)
        × (r.active.source ≡ env)
        × (r.pending_restart_value ≡ none)
  unfolding resolve_stored
  resolved-active port e row h restarts there =
      rw (h, ok-filled d raw v c valid, valid, restarts, variable-active e there)
        (
          awaiting row.updated_at v from_variable,
          refl,
          refl,
          refl,
          rw (eq_text_refl (to_text v)) refl,
        )

-- A valid value of the restart category that the table holds is active after the next start: the
-- preload, where it is configured and every row can be decrypted, writes it to the environment, and
-- a read then returns it, from there and with nothing pending.
pub preload-activates :
    (port : EncryptionPort) (rows : List StoredSetting) (e : Environment) (key : Text)
    (d : SettingDefinition) (row : StoredSetting) (raw : Text) (v : SettingValue) (c : Text)
    → get_setting_definition key ≡ some d
    → is_restart d.category ≡ true
    → find_row key rows ≡ some row
    → All (λ r. eq_text r.key key ≡ true → r ≡ row) rows
    → any (λ r. throws_at (row_outcome port r)) rows ≡ false
    → raw_value port row ≡ readable (some raw)
    → validate_setting_value d raw ≡ ok v c
    → is_missing (get_elem? (codes "DATABASE_URL") e) ≡ false
    → is_missing (get_elem? (codes "SETTINGS_ENCRYPTION_KEY") e) ≡ false
    → (r : SettingResolution) × (resolve port
          (preload_restart_settings_into_env (some port) (some rows) e).0
          rows
          key
        ≡ resolved r)
      × (r.active.value ≡ some v)
      × (r.active.source ≡ env)
      × (r.pending_restart_value ≡ none)
unfolding preload_restart_settings_into_env resolve
preload-activates port rows e key d row raw v c defined restarts found only calm read valid url
      secret =
    let named : row.key ≡ key =
      (eq_text_iff row.key key).0 (find-holds (λ r. eq_text r.key key) rows row found) in
    let safe =
      restart-is_safe key d v defined restarts (validate_setting_value-conforms d raw v c valid) in
    let writing =
      row-written d raw v c valid safe port row
        (subst (λ k. get_setting_definition k ≡ some d) (sym named) defined) read in
    let boot = get_boot_preload_keys-restart key d defined restarts in
    let there : get_elem? key (apply_outcomes (outcomes port (find_preloaded rows)) e 0).0
        ≡ some c =
      apply-written key c (outcomes port (find_preloaded rows)) e 0
        (rows-settle port key c row writing rows calm only)
        (rows-reach port key c row writing rows boot found) in
    rw (url, secret, found, defined)
      (resolved-active d raw v c valid safe port
        (apply_outcomes (outcomes port (find_preloaded rows)) e 0).0 row read restarts
        (subst
          (λ k. get_elem? k (apply_outcomes (outcomes port (find_preloaded rows)) e 0).0 ≡ some c)
          (sym (get_setting_definition-env_var key d defined)) there))
