-- ===== src/Settings/Catalog/Laws.antt =====
-- settings-catalog.ts: what holds of every entry.
use versi_go.Prelude.{
  ℕ, ltb, safe_limit, not_a_number, infinity, negative_infinity, negative, natural, ◌&&◌, ◌≡◌, refl,
  ◌∙◌, Text, eq_text, eq_text_iff, Bool, true, false, not, subst, sym, map, filter, find, inl, inr,
  [], ◌∷◌, Bool-cases, eq_text_refl, if◌then◌else◌, Option, none, some, List, any, find-holds,
  find-fails, arith,
}
use mathlib.Core.Option.{some-injective}
use versi_go.Settings.{
  SettingDefinition, SettingValue, is_restart, SettingsValueType, boolean_type, number_type,
  string_type, boolean, number, string,
}
use versi_go.Settings.Validation.Canonical.{is_safe}
use versi_go.Settings.Catalog.{
  settings_catalog, is_preloaded, get_boot_preload_keys, get_setting_definition,
}
use versi_go.Settings.Validation.Sound.{conforms, conforms_to}

abbrev lacks_default : SettingDefinition → Option SettingValue → Bool
lacks_default d none = false
lacks_default d (some v) = not (conforms d v)

defaults-conform : any (λ d. lacks_default d d.default_value) settings_catalog ≡ false
unfolding conforms conforms_to eq_text
defaults-conform = refl

variables-keys : any (λ d. not (eq_text d.env_var d.key)) settings_catalog ≡ false
unfolding eq_text
variables-keys = refl

-- The key under which an entry is found is its own.
pub get_setting_definition-key :
    (key : Text) (d : SettingDefinition) → get_setting_definition key ≡ some d → d.key ≡ key
unfolding get_setting_definition
get_setting_definition-key key d h =
    (eq_text_iff d.key key).0 (find-holds (λ d. eq_text d.key key) settings_catalog d h)

-- Every entry has the name of its variable for its key.
pub get_setting_definition-env_var :
    (key : Text) (d : SettingDefinition) → get_setting_definition key ≡ some d → d.env_var ≡ key
unfolding get_setting_definition
get_setting_definition-env_var key d h =
    let same : not (eq_text d.env_var d.key) ≡ false =
      find-fails (λ d. eq_text d.key key) (λ d. not (eq_text d.env_var d.key)) settings_catalog d
        variables-keys h in
    (eq_text_iff d.env_var d.key).0 (ground arith) ∙ get_setting_definition-key key d h

-- The default of every entry is of its type, within its bounds and among its choices.
pub default-conforms :
    (key : Text) (d : SettingDefinition) (v : SettingValue)
    → get_setting_definition key ≡ some d
    → d.default_value ≡ some v
    → conforms d v ≡ true
unfolding get_setting_definition
default-conforms key d v h e =
    let kept : lacks_default d d.default_value ≡ false =
      find-fails (λ d. eq_text d.key key) (λ d. lacks_default d d.default_value) settings_catalog d
        defaults-conform h in
    let conforming : not (conforms d v) ≡ false = subst (λ o. lacks_default d o ≡ false) e kept in
    ground arith

any-keys :
    (p q : SettingDefinition → Bool) (ds : List SettingDefinition) (d : SettingDefinition)
    → find p ds ≡ some d
    → q d ≡ true
    → any (eq_text d.key) (map (λ x. x.key) (filter q ds)) ≡ true
any-keys p q [] d h k = ground arith
any-keys p q (x ∷ ds) d h k = elim (Bool-cases (p x)) [
  | inl here ↦
      let same : x ≡ d = some-injective _ _ (rw here at h) in
      subst (λ y. any (eq_text d.key) (map (λ x. x.key) (filter q (y ∷ ds))) ≡ true) (sym same)
        (rw (k, eq_text_refl d.key) refl)
  | inr there ↦ kept (q x) (any-keys p q ds d (rw there at h) k)
]
  where
    kept :
        (b : Bool)
        → any (eq_text d.key) (map (λ x. x.key) (filter q ds)) ≡ true
        → any (eq_text d.key) (map (λ x. x.key) (if b then x ∷ filter q ds else filter q ds)) ≡ true
    kept true h = ground arith
    kept false h = h

-- Every key of the restart category is preloaded.
pub get_boot_preload_keys-restart :
    (key : Text) (d : SettingDefinition)
    → get_setting_definition key ≡ some d
    → is_restart d.category ≡ true
    → any (eq_text key) get_boot_preload_keys ≡ true
unfolding get_setting_definition
get_boot_preload_keys-restart key d h r =
    subst (λ k. any (eq_text k) get_boot_preload_keys ≡ true) (get_setting_definition-key key d h)
      (any-keys (λ d. eq_text d.key key) is_preloaded settings_catalog d h (rw r refl))

-- A number of the entry has a lower bound, and an upper one below 2 ^ 53.
abbrev bounds_below : Option ℕ → Option ℕ → Bool
bounds_below (some low) (some high) = ltb high safe_limit
bounds_below low high = false

abbrev is_bounded_type : SettingsValueType → Option ℕ → Option ℕ → Bool
is_bounded_type number_type low high = bounds_below low high
is_bounded_type type low high = true

abbrev is_unbounded_restart : SettingDefinition → Bool
is_unbounded_restart d =
    is_restart d.category && not (is_bounded_type d.type d.min_value d.max_value)

restarts-bounded : any is_unbounded_restart settings_catalog ≡ false
restarts-bounded = refl

bounded-safe :
    (type : SettingsValueType) (allowed : Option (List Text)) (low high : Option ℕ)
    (v : SettingValue)
    → is_bounded_type type low high ≡ true
    → conforms_to type allowed low high v ≡ true
    → is_safe v ≡ true
unfolding conforms_to
bounded-safe type allowed low high (boolean b) bounded h = refl
bounded-safe type allowed low high (string t) bounded h = refl
bounded-safe boolean_type allowed low high (number n) bounded h = ground arith
bounded-safe string_type allowed low high (number n) bounded h = ground arith
bounded-safe number_type allowed none high (number n) bounded h = ground arith
bounded-safe number_type allowed (some l) none (number n) bounded h = ground arith
bounded-safe number_type allowed (some l) (some k) (number not_a_number) bounded h = ground arith
bounded-safe number_type allowed (some l) (some k) (number infinity) bounded h = ground arith
bounded-safe number_type allowed (some l) (some k) (number negative_infinity) bounded h =
    ground arith
bounded-safe number_type allowed (some l) (some k) (number (negative n)) bounded h = ground arith
bounded-safe number_type allowed (some l) (some k) (number (natural n)) bounded h = ground arith

-- A valid value of the restart category is no number from 2 ^ 53 on.
pub restart-is_safe :
    (key : Text) (d : SettingDefinition) (v : SettingValue)
    → get_setting_definition key ≡ some d
    → is_restart d.category ≡ true
    → conforms d v ≡ true
    → is_safe v ≡ true
unfolding get_setting_definition conforms
restart-is_safe key d v h restarts c =
    let kept : is_unbounded_restart d ≡ false =
      find-fails (λ d. eq_text d.key key) is_unbounded_restart settings_catalog d restarts-bounded
        h in
    bounded-safe d.type d.allowed_values d.min_value d.max_value v (ground arith) c
