-- ===== src/Settings/Resolver/Reads.antt =====
-- getEffectiveString, getEffectiveBoolean and getEffectiveNumber.
use versi_go.Prelude.{Text, Bool, Option, none, some, List, Number}
use versi_go.Settings.{SettingValue, boolean, number, string}
use versi_go.Settings.Resolver.{
  Environment, EncryptionPort, StoredSetting, Resolved, unknown_key, decryption_failed, resolved,
  resolve,
}

-- The exception of `resolve`, or the value.
pub data Read {ℓ} (A : Type ℓ) : Type ℓ where
  failed : Read A
  read : Option A → Read A

-- `typeof resolution.value === 'string' ? resolution.value : undefined`, and so for the other types.
abbrev pub as_string : Option SettingValue → Option Text
as_string (some (string t)) = some t
as_string _ = none

abbrev pub as_boolean : Option SettingValue → Option Bool
as_boolean (some (boolean b)) = some b
as_boolean _ = none

abbrev pub as_number : Option SettingValue → Option Number
as_number (some (number n)) = some n
as_number _ = none

abbrev pub read_as {ℓ} : {A : Type ℓ} → (Option SettingValue → Option A) → Resolved → Read A
read_as typed unknown_key = failed
read_as typed decryption_failed = failed
read_as typed (resolved r) = read (typed r.active.value)

unfoldable pub get_effective_string :
    EncryptionPort → Environment → List StoredSetting → Text → Read Text
unfolding resolve
get_effective_string port e rows key = read_as as_string (resolve port e rows key)

unfoldable pub get_effective_boolean :
    EncryptionPort → Environment → List StoredSetting → Text → Read Bool
unfolding resolve
get_effective_boolean port e rows key = read_as as_boolean (resolve port e rows key)

unfoldable pub get_effective_number :
    EncryptionPort → Environment → List StoredSetting → Text → Read Number
unfolding resolve
get_effective_number port e rows key = read_as as_number (resolve port e rows key)
