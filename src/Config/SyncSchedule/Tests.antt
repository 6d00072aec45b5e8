-- ===== src/Config/SyncSchedule/Tests.antt =====
-- paperless-sync-schedule.ts: concrete runs, and the properties at them.
use versi_go.Prelude.{codes, ◌≡◌, refl, true, negative, natural}
use versi_go.Config.SyncSchedule.{
  RawInterval, number, paperless_tag_sync_interval_ms, paperless_tag_sync_stagger_ms, fnv1a, synced,
  PaperlessTagDueInput, due_at, is_paperless_tag_sync_due, next_paperless_tag_sync_at,
}

schedule : Unit {0}
unfolding is_paperless_tag_sync_due next_paperless_tag_sync_at due_at paperless_tag_sync_stagger_ms
    paperless_tag_sync_interval_ms fnv1a
schedule = tt

-- The published FNV-1a values of "" and "a".
hashes : (fnv1a (codes "") ≡ 0x811c9dc5) × (fnv1a (codes "a") ≡ 0xe40c292c)
unfolding schedule
hashes = (refl, refl)

abbrev five_minutes : RawInterval
five_minutes = number (natural 300_000)

abbrev asked : PaperlessTagDueInput
asked = record {
  policy_id = codes "a";
  last_synced_at = synced 1_000;
  now = 500_000;
  interval_ms = five_minutes;
}

runs :
    (paperless_tag_sync_interval_ms (number (natural 5)) ≡ 30_000)
    × (paperless_tag_sync_interval_ms (number (negative 5)) ≡ 300_000)
    × (due_at (codes "a") 1_000 five_minutes ≡ 311_337)
    × (is_paperless_tag_sync_due asked ≡ true)
    × (next_paperless_tag_sync_at (record asked { now = 2_000 }) ≡ 311_337)
unfolding schedule
runs = (refl, refl, refl, refl, refl)
