-- ===== src/Paperless/Configured.antt =====
-- The settings that apps/worker/src/paperless-tag.processor.ts (handleReconcile) and
-- apps/api/src/features/paperless-ngx/paperless-tag.service.ts read through the resolver.
pub mod Interval
mod Tests
use versi_go.Prelude.{Text, codes, Bool, Option, none, some, List, Number}
use versi_go.Config.SyncSchedule.{RawInterval, missing, number}
use versi_go.Settings.Resolver.{Environment, EncryptionPort, StoredSetting}
use versi_go.Settings.Resolver.Reads.{
  Read, failed, read, get_effective_boolean, get_effective_number,
}
use versi_go.Paperless.World.{World}

abbrev pub sync_enabled_key : Text
sync_enabled_key = codes "PAPERLESS_TAG_SYNC_ENABLED"

abbrev pub sync_interval_key : Text
sync_interval_key = codes "PAPERLESS_TAG_SYNC_INTERVAL_MS"

abbrev pub to_interval : Option Number → RawInterval
to_interval none = missing
to_interval (some n) = number n

-- A world whose settings are those that were read; none where a read throws.
abbrev pub with_settings : Read Bool → Read Number → World → Option World
with_settings failed interval w = none
with_settings (read enabled) failed w = none
with_settings (read enabled) (read interval) w =
    some (record w { sync_enabled = enabled; sync_interval_ms = to_interval interval })

unfoldable pub configured : EncryptionPort → Environment → List StoredSetting → World → Option World
unfolding get_effective_boolean get_effective_number
configured port e rows w =
    with_settings (get_effective_boolean port e rows sync_enabled_key)
      (get_effective_number port e rows sync_interval_key) w
