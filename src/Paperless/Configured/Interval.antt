-- ===== src/Paperless/Configured/Interval.antt =====
-- The interval of the background sync, from the table of settings to the tick.
use versi_go.Prelude.{
  ℕ, ◌≡◌, refl, ap, ◌∙◌, ◌≤◌, Text, eq_text, get_elem?, Bool, true, if◌then◌else◌, Option, none,
  some, List, not_a_number, infinity, negative_infinity, negative, natural, arith,
}
use versi_go.Config.SyncSchedule.{RawInterval, paperless_tag_sync_interval_ms}
use versi_go.Settings.{SettingDefinition, SettingValue, is_restart, boolean, number, string}
use versi_go.Settings.Catalog.{get_setting_definition}
use versi_go.Settings.Catalog.Integrations.{
  paperless_tag_sync_interval_ms as interval_definition,
  paperless_tag_sync_enabled as enabled_definition,
}
use versi_go.Settings.Validation.Sound.{conforms, conforms_to}
use versi_go.Settings.Resolver.{
  Environment, EncryptionPort, StoredSetting, SettingResolution, resolved, readable, find_row,
  resolve,
}
use versi_go.Settings.Resolver.Chain.{first_of, candidate, reading, resolve-effective}
use versi_go.Settings.Resolver.Values.{resolve-conforms}
use versi_go.Settings.Resolver.Reads.{read, get_effective_number, get_effective_boolean}
use versi_go.Paperless.World.{World}
use versi_go.Paperless.Tick.{interval_of}
use versi_go.Paperless.Configured.{sync_enabled_key, sync_interval_key, to_interval, configured}

interval-listed : get_setting_definition sync_interval_key ≡ some interval_definition
unfolding get_setting_definition eq_text
interval-listed = refl

enabled-listed : get_setting_definition sync_enabled_key ≡ some enabled_definition
unfolding get_setting_definition eq_text
enabled-listed = refl

-- An entry with a default always has a value.
first_of-some :
    (u e o : Option SettingValue) (v : SettingValue)
    → o ≡ some v
    → (x : SettingValue) × ((first_of u e o).1 ≡ some x)
first_of-some (some u) e o v h = (u, refl)
first_of-some none (some x) o v h = (x, refl)
first_of-some none none o v h = (v, h)

interval-value :
    (v : SettingValue)
    → conforms interval_definition v ≡ true
    → (n : ℕ) × (v ≡ number (natural n)) × (30_000 ≤ n) × (n ≤ 86_400_000)
unfolding conforms conforms_to
interval-value (boolean b) h = ground arith
interval-value (string t) h = ground arith
interval-value (number not_a_number) h = ground arith
interval-value (number infinity) h = ground arith
interval-value (number negative_infinity) h = ground arith
interval-value (number (negative n)) h = ground arith
interval-value (number (natural n)) h = (n, refl, ground arith, ground arith)

-- The clamp leaves a value within the bounds of the catalog.
clamp-bounded :
    (n : ℕ)
    → 30_000 ≤ n
    → n ≤ 86_400_000
    → paperless_tag_sync_interval_ms (RawInterval.number (natural n)) ≡ n
unfolding paperless_tag_sync_interval_ms
clamp-bounded n low high = ground arith

-- A key with a default is read as a value that conforms to its entry.
conforming-read :
    (port : EncryptionPort) (e : Environment) (rows : List StoredSetting) (key : Text)
    (d : SettingDefinition) (standard : SettingValue) (text : Option Text)
    → get_setting_definition key ≡ some d
    → d.default_value ≡ some standard
    → reading port (find_row key rows) ≡ readable text
    → (r : SettingResolution) × (v : SettingValue) × (resolve port e rows key ≡ resolved r)
      × (r.active.value ≡ some v)
      × (conforms d v ≡ true)
conforming-read port e rows key d standard text h s t =
    let (r, p, pair) = resolve-effective port e rows key d text h t in
    let (v, q) =
      first_of-some (if is_restart d.category then none else candidate d text)
        (candidate d (get_elem? d.env_var e)) d.default_value standard s in
    let value : r.active.value ≡ some v = ap (λ x. x.1) pair ∙ q in
    (r, v, p, value, resolve-conforms port e rows key d text r v h t p value)

boolean-value :
    (v : SettingValue) → conforms enabled_definition v ≡ true → (b : Bool) × (v ≡ boolean b)
unfolding conforms conforms_to
boolean-value (boolean b) h = (b, refl)
boolean-value (string t) h = ground arith
boolean-value (number n) h = ground arith

enabled-read :
    (port : EncryptionPort) (e : Environment) (rows : List StoredSetting) (flag : Option Text)
    → reading port (find_row sync_enabled_key rows) ≡ readable flag
    → (b : Bool) × (get_effective_boolean port e rows sync_enabled_key ≡ read (some b))
unfolding get_effective_boolean
enabled-read port e rows flag t =
    let (r, v, p, value, c) =
      conforming-read port e rows sync_enabled_key enabled_definition (boolean true) flag
        enabled-listed refl t in
    let (b, q) = boolean-value v c in (b, rw (p, value, q) refl)

interval-read :
    (port : EncryptionPort) (e : Environment) (rows : List StoredSetting) (text : Option Text)
    → reading port (find_row sync_interval_key rows) ≡ readable text
    → (n : ℕ) × (get_effective_number port e rows sync_interval_key ≡ read (some (natural n)))
      × (30_000 ≤ n)
      × (n ≤ 86_400_000)
unfolding get_effective_number
interval-read port e rows text t =
    let (r, v, p, value, c) =
      conforming-read port e rows sync_interval_key interval_definition (number (natural 300_000))
        text interval-listed refl t in
    let (n, q, low, high) = interval-value v c in (n, rw (p, value, q) refl, low, high)

-- Where both settings can be read, the interval that the tick works with is the effective value of
-- PAPERLESS_TAG_SYNC_INTERVAL_MS itself: it lies between 30 seconds and a day, whatever the table and
-- the environment hold, and neither the fallback nor the clamp changes it.
pub interval_of-configured :
    (port : EncryptionPort) (e : Environment) (rows : List StoredSetting) (w : World)
    (flag text : Option Text)
    → reading port (find_row sync_enabled_key rows) ≡ readable flag
    → reading port (find_row sync_interval_key rows) ≡ readable text
    → (next : World) × (n : ℕ) × (configured port e rows w ≡ some next)
      × (get_effective_number port e rows sync_interval_key ≡ read (some (natural n)))
      × (30_000 ≤ n)
      × (n ≤ 86_400_000)
      × (interval_of next ≡ n)
unfolding configured
interval_of-configured port e rows w flag text f t =
    let (b, enabled) = enabled-read port e rows flag f in
    let (n, interval, low, high) = interval-read port e rows text t in
    (
      record w { sync_enabled = some b; sync_interval_ms = to_interval (some (natural n)) },
      n,
      rw (enabled, interval) refl,
      interval,
      low,
      high,
      clamp-bounded n low high,
    )
