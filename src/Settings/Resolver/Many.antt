-- ===== src/Settings/Resolver/Many.antt =====
-- resolveMany: the keys without repetitions, one read of the table, and a map of the resolutions.
pub mod Rows
pub mod Agreement
use versi_go.Prelude.{
  Text, eq_text, Bool, true, false, if◌then◌else◌, Option, none, some, List, [], ◌∷◌, any, filter,
  get_elem?, put,
}
use versi_go.Settings.Catalog.{get_setting_definition}
use versi_go.Settings.Resolver.{
  Environment, EncryptionPort, StoredSetting, SettingResolution, Resolved, unknown_key,
  decryption_failed, resolved, resolve_defined,
}

-- `[...new Set(keys)]`, behind the keys that were seen.
unfoldable pub unique_keys : List Text → List Text → List Text
unique_keys seen [] = []
unique_keys seen (key ∷ keys) =
    let dropped = unique_keys seen keys in
    let kept = unique_keys (key ∷ seen) keys in
    if any (λ k. eq_text k key) seen then dropped else key ∷ kept

-- `findMany({ where: { key: { in: uniqueKeys } } })`
abbrev pub find_rows : List Text → List StoredSetting → List StoredSetting
find_rows keys rows = filter (λ r. any (λ k. eq_text k r.key) keys) rows

-- `new Map(storedRows.map((row) => [row.key, row]))`
unfoldable pub stored_by_key :
    List StoredSetting → List (Text × StoredSetting) → List (Text × StoredSetting)
stored_by_key [] stored = stored
stored_by_key (row ∷ rows) stored = stored_by_key rows (put row.key row stored)

-- The two exceptions, or the map.
pub data ManyResolved : Type 0 where
  many_unknown many_undecryptable : ManyResolved
  many : List (Text × SettingResolution) → ManyResolved

-- What one round of the loop does with its key, and the later rounds.
abbrev pub and_set :
    Resolved
    → Text
    → List (Text × SettingResolution)
    → (List (Text × SettingResolution) → ManyResolved)
    → ManyResolved
and_set unknown_key key results rest = many_unknown
and_set decryption_failed key results rest = many_undecryptable
and_set (resolved r) key results rest = rest (put key r results)

unfoldable pub resolve_keys :
    EncryptionPort
    → Environment
    → List (Text × StoredSetting)
    → List Text
    → List (Text × SettingResolution)
    → ManyResolved
resolve_keys port e stored [] results = many results
resolve_keys port e stored (key ∷ keys) results =
    and_set (resolve_defined port e (get_elem? key stored) (get_setting_definition key)) key results
      λ later. resolve_keys port e stored keys later

unfoldable pub resolve_many :
    EncryptionPort → Environment → List StoredSetting → List Text → ManyResolved
unfolding unique_keys stored_by_key resolve_keys
resolve_many port e rows keys =
    let unique = unique_keys [] keys in
    resolve_keys port e (stored_by_key (find_rows unique rows) []) unique []
