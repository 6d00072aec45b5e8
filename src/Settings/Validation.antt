-- ===== src/Settings/Validation.antt =====
-- packages/foundation/src/config/settings-validation.ts: validateSettingValue.
pub mod Canonical
pub mod Sound
use mathlib.Core.Option
use versi_go.Prelude.{
  ℕ, zero, suc, ◌+◌, ◌-◌, Text, codes, eq_text, trim, is_empty, are_digits, read_digits, Bool, true,
  false, ltb, leb, ◌==◌, ◌&&◌, not, if◌then◌else◌, Option, none, some, List, [], ◌∷◌, any, map,
  Number, not_a_number, infinity, negative_infinity, negative, natural, double_of,
}
use versi_go.Settings.{
  SettingDefinition, SettingsValueType, SettingValue, boolean_type, number_type, string_type,
  boolean, number, string, to_text,
}
use versi_go.Settings.Catalog.{get_setting_definition}

-- One constructor per text of an error.
pub data ValidationError : Type 0 where
  empty not_boolean not_integer : ValidationError
  at_least at_most : ℕ → ValidationError
  not_allowed : List Text → ValidationError

-- `{ ok: true, value, canonical }` or `{ ok: false, error }`
pub data ValidationResult : Type 0 where
  ok : SettingValue → Text → ValidationResult
  invalid : ValidationError → ValidationResult

-- `toLowerCase` on ASCII: no other character has a lower case that consists of the letters of
-- "true" or "false".
abbrev to_lower : ℕ → ℕ
to_lower c = if leb 65 c && leb c 90 then c + 32 else c

unfoldable pub read_boolean : Text → ValidationResult
read_boolean input =
    if eq_text (map to_lower input) (codes "true")
    then ok (boolean true) (codes "true")
    else (if eq_text (map to_lower input) (codes "false")
        then ok (boolean false) (codes "false")
        else invalid not_boolean)

-- -n, where -0 prints and compares as 0.
abbrev pub negated : Number → Number
negated not_a_number = not_a_number
negated infinity = negative_infinity
negated negative_infinity = infinity
negated (negative n) = natural (suc n)
negated (natural zero) = natural zero
negated (natural (suc n)) = negative n

-- `Number` of digits.
unfoldable pub unsigned : Text → Option Number
unfolding double_of
unsigned t = if not (is_empty t) && are_digits t then some (double_of (read_digits 0 t)) else none

-- `/^-?\d+$/`, and `Number` of what it admits.
unfoldable pub read_integer : Text → Option Number
unfolding unsigned
read_integer [] = none
read_integer (c ∷ t) = if c == 45 then Option.map negated (unsigned t) else unsigned (c ∷ t)

abbrev pub is_below : Number → ℕ → Bool
is_below not_a_number bound = false
is_below infinity bound = false
is_below negative_infinity bound = true
is_below (negative n) bound = true
is_below (natural n) bound = ltb n bound

abbrev pub is_above : Number → ℕ → Bool
is_above infinity bound = true
is_above (natural n) bound = ltb bound n
is_above _ bound = false

abbrev pub check_max : Option ℕ → Number → ValidationResult
check_max none n = ok (number n) (to_text (number n))
check_max (some bound) n =
    if is_above n bound then invalid (at_most bound) else ok (number n) (to_text (number n))

abbrev pub check_min : Option ℕ → Option ℕ → Number → ValidationResult
check_min none bound n = check_max bound n
check_min (some low) bound n = if is_below n low then invalid (at_least low) else check_max bound n

abbrev pub check_range : SettingDefinition → Option Number → ValidationResult
check_range d none = invalid not_integer
check_range d (some n) = check_min d.min_value d.max_value n

abbrev pub check_allowed : Option (List Text) → Text → ValidationResult
check_allowed none input = ok (string input) input
check_allowed (some allowed) input =
    if not (any (eq_text input) allowed)
    then invalid (not_allowed allowed)
    else ok (string input) input

abbrev pub read_typed : SettingsValueType → SettingDefinition → Text → ValidationResult
read_typed boolean_type d input = read_boolean input
read_typed number_type d input = check_range d (read_integer input)
read_typed string_type d input = check_allowed d.allowed_values input

unfoldable pub validate_setting_value : SettingDefinition → Text → ValidationResult
validate_setting_value d raw =
    if is_empty (trim raw) then invalid empty else read_typed d.type d (trim raw)

-- validateSettingValueByKey: none stands for the exception at an unknown key.
abbrev validate_defined : Option SettingDefinition → Text → Option ValidationResult
validate_defined none raw = none
validate_defined (some d) raw = some (validate_setting_value d raw)

unfoldable pub validate_setting_value_by_key : Text → Text → Option ValidationResult
unfolding validate_setting_value
validate_setting_value_by_key key raw = validate_defined (get_setting_definition key) raw
