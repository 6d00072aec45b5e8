-- ===== src/Paperless/Configured/Tests.antt =====
-- A run of the settings of the tick.
use versi_go.Prelude.{ℕ, ◌≡◌, refl, ◌≤◌, codes, eq_text, none, some, List, [], ◌∷◌, natural}
use versi_go.Settings.Resolver.{EncryptionPort, StoredSetting, readable, find_row}
use versi_go.Settings.Resolver.Chain.{reading}
use versi_go.Settings.Resolver.Reads.{read, get_effective_number}
use versi_go.Paperless.World.{World}
use versi_go.Paperless.Samples.{calm}
use versi_go.Paperless.Tick.{interval_of}
use versi_go.Paperless.Configured.{configured, sync_enabled_key, sync_interval_key}
use versi_go.Paperless.Configured.Interval.{interval_of-configured}

abbrev plain : EncryptionPort
plain = record { decrypt = λ t. some t }

abbrev hourly : List StoredSetting
hourly =
    record {
      key = sync_interval_key;
      value_encrypted = none;
      value_plain = some (codes "3600000");
      updated_at = 5;
    }
    ∷ []

no_flag : reading plain (find_row sync_enabled_key hourly) ≡ readable none
unfolding eq_text
no_flag = refl

an_hour : reading plain (find_row sync_interval_key hourly) ≡ readable (some (codes "3600000"))
unfolding eq_text
an_hour = refl

interval_of-configured_example :
    (next : World) × (n : ℕ) × (configured plain [] hourly calm ≡ some next)
    × (get_effective_number plain [] hourly sync_interval_key ≡ read (some (natural n)))
    × (30_000 ≤ n)
    × (n ≤ 86_400_000)
    × (interval_of next ≡ n)
interval_of-configured_example =
    interval_of-configured plain [] hourly calm none (some (codes "3600000")) no_flag an_hour
