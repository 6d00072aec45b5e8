-- ===== src/Settings/Resolver/Values.antt =====
-- resolve: the values that are effective are valid, and those of the restart category do not change
-- with the table.
use versi_go.Prelude.{
  ◌≡◌, refl, sym, ap, ◌∙◌, subst, Text, get_elem?, Bool, true, false, if◌then◌else◌, Option, none,
  some, List,
}
use mathlib.Core.Option.{some-injective}
use versi_go.Settings.{SettingDefinition, SettingValue, is_restart}
use versi_go.Settings.Catalog.{get_setting_definition}
use versi_go.Settings.Catalog.Laws.{default-conforms}
use versi_go.Settings.Validation.{ValidationResult, ok, invalid, validate_setting_value}
use versi_go.Settings.Validation.Sound.{conforms, validate_setting_value-conforms}
use versi_go.Settings.Resolver.{
  Environment, EncryptionPort, StoredSetting, SettingResolution, Resolved, resolved, readable,
  find_row, resolve,
}
use versi_go.Settings.Resolver.Chain.{
  value_of, candidate, first_of, effective, reading, resolve-effective,
}

-- A value that an option holds conforms.
abbrev Conforming : SettingDefinition → Option SettingValue → Type 0
Conforming d none = true ≡ true
Conforming d (some v) = conforms d v ≡ true

candidate-Conforming :
    (d : SettingDefinition) (text : Option Text) → Conforming d (candidate d text)
candidate-Conforming d none = refl
candidate-Conforming d (some raw) = valued (validate_setting_value d raw) refl
  where
    valued : (r : ValidationResult) → validate_setting_value d raw ≡ r → Conforming d (value_of r)
    valued (ok v canonical) h = validate_setting_value-conforms d raw v canonical h
    valued (invalid e) h = refl

first-Conforming :
    (d : SettingDefinition) (u e o : Option SettingValue)
    → Conforming d u
    → Conforming d e
    → Conforming d o
    → Conforming d (first_of u e o).1
first-Conforming d (some u) e o p q r = p
first-Conforming d none (some e) o p q r = q
first-Conforming d none none o p q r = r

effective-Conforming :
    (key : Text) (d : SettingDefinition) (text variable : Option Text)
    → get_setting_definition key ≡ some d
    → Conforming d (effective d text variable).1
effective-Conforming key d text variable h =
    first-Conforming d (if is_restart d.category then none else candidate d text)
      (candidate d variable) d.default_value (unless (is_restart d.category))
      (candidate-Conforming d variable) (by_default d.default_value refl)
  where
    unless : (b : Bool) → Conforming d (if b then none else candidate d text)
    unless true = refl
    unless false = candidate-Conforming d text

    by_default : (o : Option SettingValue) → d.default_value ≡ o → Conforming d o
    by_default none e = refl
    by_default (some v) e = default-conforms key d v h e

abbrev resolution_of : Resolved → Option SettingResolution
resolution_of (resolved r) = some r
resolution_of _ = none

-- The value that a read of a key of the catalog returns has the type of the entry, lies within its
-- bounds and is one of its choices, whatever the table and the environment hold. (A number is an integer,
-- or Infinity or -Infinity where the entry has no bound on that side.)
pub resolve-conforms :
    (port : EncryptionPort) (e : Environment) (rows : List StoredSetting) (key : Text)
    (d : SettingDefinition) (text : Option Text) (r : SettingResolution) (v : SettingValue)
    → get_setting_definition key ≡ some d
    → reading port (find_row key rows) ≡ readable text
    → resolve port e rows key ≡ resolved r
    → r.active.value ≡ some v
    → conforms d v ≡ true
resolve-conforms port e rows key d text r v h t q valued =
    let (r', p, pair) = resolve-effective port e rows key d text h t in
    let same : r' ≡ r = some-injective _ _ (ap resolution_of (sym p ∙ q)) in
    let value : (effective d text (get_elem? d.env_var e)).1 ≡ some v =
      sym (ap (λ x. x.1) pair) ∙ ap (λ x. x.active.value) same ∙ valued in
    subst (Conforming d) value (effective-Conforming key d text (get_elem? d.env_var e) h)

-- What is active of a key of the restart category is the same with every table that can be decrypted.
pub resolve-restart :
    (port : EncryptionPort) (e : Environment) (rows later : List StoredSetting) (key : Text)
    (d : SettingDefinition) (text changed : Option Text)
    → get_setting_definition key ≡ some d
    → is_restart d.category ≡ true
    → reading port (find_row key rows) ≡ readable text
    → reading port (find_row key later) ≡ readable changed
    → (r s : SettingResolution) × (resolve port e rows key ≡ resolved r)
      × (resolve port e later key ≡ resolved s)
      × (r.active.source ≡ s.active.source)
      × (r.active.value ≡ s.active.value)
resolve-restart port e rows later key d text changed h restarts t u =
    let (r, p, pair) = resolve-effective port e rows key d text h t in
    let (s, q, pair') = resolve-effective port e later key d changed h u in
    let same : effective d text (get_elem? d.env_var e)
        ≡ effective d changed (get_elem? d.env_var e) =
      rw restarts refl in
    let pairs = pair ∙ same ∙ sym pair' in (r, s, p, q, ap (λ x. x.0) pairs, ap (λ x. x.1) pairs)
