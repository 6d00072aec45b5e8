-- ===== src/Settings/Resolver/Chain.antt =====
-- resolve against the chain that the code's comment gives: the admin UI, the environment, the default.
use versi_go.Prelude.{
  ℕ, ◌≡◌, refl, Text, trim, is_empty, get_elem?, Bool, true, false, Bool-cases, if◌then◌else◌,
  Option, none, some, inl, inr, List, subst, sym,
}
use versi_go.Settings.{SettingDefinition, SettingValue, is_restart}
use versi_go.Settings.Catalog.{get_setting_definition}
use versi_go.Settings.Validation.{ValidationResult, ok, invalid, empty, validate_setting_value}
use versi_go.Settings.Resolver.{
  SettingSource, ui, env, default, ActiveSetting, StoredSetting, Environment, EncryptionPort,
  RawValue, readable, Resolved, resolved, SettingResolution, of_default, of_env, of_variable,
  resolve_env_or_default, resolve_validated, unset, resolve_raw, raw_value, find_row,
  resolve_stored, resolve,
}

abbrev pub value_of : ValidationResult → Option SettingValue
value_of (ok v canonical) = some v
value_of (invalid e) = none

-- The value of a text, where there is one and it is valid.
abbrev pub candidate : SettingDefinition → Option Text → Option SettingValue
candidate d none = none
candidate d (some raw) = value_of (validate_setting_value d raw)

abbrev pub first_of :
    Option SettingValue
    → Option SettingValue
    → Option SettingValue
    → SettingSource × Option SettingValue
first_of (some u) e d = (ui, some u)
first_of none (some e) d = (env, some e)
first_of none none d = (default, d)

-- A stored value of the restart category is no candidate.
abbrev pub effective :
    SettingDefinition → Option Text → Option Text → SettingSource × Option SettingValue
effective d stored variable =
    first_of (if is_restart d.category then none else candidate d stored) (candidate d variable)
      d.default_value

-- What the row of a key holds; nothing where there is none.
abbrev pub reading : EncryptionPort → Option StoredSetting → RawValue
reading port none = readable none
reading port (some stored) = raw_value port stored

abbrev active_pair : ActiveSetting → SettingSource × Option SettingValue
active_pair a = (a.source, a.value)

blank-invalid :
    (d : SettingDefinition) (raw : Text)
    → is_empty (trim raw) ≡ true
    → validate_setting_value d raw ≡ invalid empty
unfolding validate_setting_value
blank-invalid d raw h = rw h refl

default-pair :
    (d : SettingDefinition) (present : Bool) (o : Option SettingValue)
    → active_pair (of_default d present o) ≡ (default, o)
default-pair d present none = refl
default-pair d present (some v) = refl

variable-pair :
    (d : SettingDefinition) (variable : Option Text)
    → active_pair (of_variable d variable) ≡ first_of none (candidate d variable) d.default_value
variable-pair d none = default-pair d false d.default_value
variable-pair d (some raw) = elim (Bool-cases (is_empty (trim raw))) [
  | inl h ↦ rw (h, blank-invalid d raw h) (default-pair d false d.default_value)
  | inr h ↦ rw h (validated (validate_setting_value d raw))
]
  where
    validated :
        (r : ValidationResult)
        → active_pair (of_env d r) ≡ first_of none (value_of r) d.default_value
    validated (ok v canonical) = refl
    validated (invalid e) = default-pair d true d.default_value

env-pair :
    (e : Environment) (d : SettingDefinition)
    → active_pair (resolve_env_or_default e d)
      ≡ first_of none (candidate d (get_elem? d.env_var e)) d.default_value
unfolding resolve_env_or_default
env-pair e d = variable-pair d (get_elem? d.env_var e)

validated-pair :
    (e : Environment) (d : SettingDefinition) (at : ℕ) (r : ValidationResult)
    → active_pair (resolve_validated e d at r).active
      ≡ first_of
          (if is_restart d.category then none else value_of r)
          (candidate d (get_elem? d.env_var e))
          d.default_value
validated-pair e d at (invalid error) = elim (Bool-cases (is_restart d.category)) [
  | inl h ↦ rw h (env-pair e d)
  | inr h ↦ rw h (env-pair e d)
]
validated-pair e d at (ok v canonical) = elim (Bool-cases (is_restart d.category)) [
  | inl h ↦ rw h (env-pair e d)
  | inr h ↦ rw h refl
]

abbrev Answers : Resolved → SettingSource × Option SettingValue → Type 0
Answers answer pair =
    (r : SettingResolution) × (answer ≡ resolved r) × (active_pair r.active ≡ pair)

unset-pair :
    (e : Environment) (d : SettingDefinition)
    → active_pair (resolve_env_or_default e d) ≡ effective d none (get_elem? d.env_var e)
unset-pair e d = elim (Bool-cases (is_restart d.category)) [
  | inl h ↦ rw h (env-pair e d)
  | inr h ↦ rw h (env-pair e d)
]

resolve_raw-Answers :
    (e : Environment) (d : SettingDefinition) (at : ℕ) (text : Option Text)
    → Answers (resolve_raw e d at (readable text)) (effective d text (get_elem? d.env_var e))
resolve_raw-Answers e d at none = (unset (resolve_env_or_default e d), refl, unset-pair e d)
resolve_raw-Answers e d at (some raw) = elim (Bool-cases (is_empty (trim raw))) [
  | inl h ↦ rw (h, blank-invalid d raw h) (unset (resolve_env_or_default e d), refl, unset-pair e d)
  | inr h ↦
      let r = resolve_validated e d at (validate_setting_value d raw) in
      rw h (r, refl, validated-pair e d at (validate_setting_value d raw))
]

resolve_stored-Answers :
    (port : EncryptionPort) (e : Environment) (d : SettingDefinition)
    (stored : Option StoredSetting) (text : Option Text)
    → reading port stored ≡ readable text
    → Answers (resolve_stored port e d stored) (effective d text (get_elem? d.env_var e))
unfolding resolve_stored
resolve_stored-Answers port e d none text h =
    subst (λ x. Answers (resolve_raw e d 0 x) (effective d text (get_elem? d.env_var e))) (sym h)
      (resolve_raw-Answers e d 0 text)
resolve_stored-Answers port e d (some stored) text h =
    rw h (resolve_raw-Answers e d stored.updated_at text)

-- A read of a key of the catalog whose row, if there is one, can be decrypted ends with the first valid
-- value of the row, the environment and the default, and names its source. A row of the restart
-- category is passed over.
pub resolve-effective :
    (port : EncryptionPort) (e : Environment) (rows : List StoredSetting) (key : Text)
    (d : SettingDefinition) (text : Option Text)
    → get_setting_definition key ≡ some d
    → reading port (find_row key rows) ≡ readable text
    → (r : SettingResolution) × (resolve port e rows key ≡ resolved r)
      × ((r.active.source, r.active.value) ≡ effective d text (get_elem? d.env_var e))
unfolding resolve
resolve-effective port e rows key d text h t =
    rw h (resolve_stored-Answers port e d (find_row key rows) text t)
