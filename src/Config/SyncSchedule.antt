-- ===== src/Config/SyncSchedule.antt =====
-- packages/foundation/src/config/paperless-sync-schedule.ts: when the worker may start the next sync of
-- a policy's Paperless tag, and the moment that the API announces. Times are milliseconds since the
-- epoch.
pub mod Agreement
mod Tests
use Prim.Native.Nat.{bit_xor}
use versi_go.Prelude.{
  ℕ, zero, suc, ◌+◌, ◌*◌, ◌%◌, ◌^◌, Bool, true, false, List, [], ◌∷◌, leb, ◌==◌, if◌then◌else◌, min,
  max, Number, not_a_number, infinity, negative_infinity, negative, natural,
}

abbrev pub min_interval_ms : ℕ
min_interval_ms = 30_000

abbrev pub max_interval_ms : ℕ
max_interval_ms = 86_400_000

abbrev pub default_interval_ms : ℕ
default_interval_ms = 300_000

abbrev pub stagger_max_ms : ℕ
stagger_max_ms = 120_000

-- A raw interval; `missing` is `null` or `undefined`.
pub data RawInterval : Type 0 where
  missing : RawInterval
  number : Number → RawInterval

-- `raw <= 0` takes the default, as what is no finite number does.
unfoldable pub paperless_tag_sync_interval_ms : RawInterval → ℕ
paperless_tag_sync_interval_ms missing = default_interval_ms
paperless_tag_sync_interval_ms (number not_a_number) = default_interval_ms
paperless_tag_sync_interval_ms (number infinity) = default_interval_ms
paperless_tag_sync_interval_ms (number negative_infinity) = default_interval_ms
paperless_tag_sync_interval_ms (number (negative n)) = default_interval_ms
paperless_tag_sync_interval_ms (number (natural raw)) =
    if leb raw 0 then default_interval_ms else min (max raw min_interval_ms) max_interval_ms

-- One round of the hash. The code's `^=` yields a signed 32-bit number; `Math.imul` and `>>> 0` keep
-- the low 32 bits of the product, which do not depend on the sign.
abbrev fnv_step : ℕ → ℕ → ℕ
fnv_step hash unit = (bit_xor hash unit * 0x01000193) % 2 ^ 32

fnv1a_from : ℕ → List ℕ → ℕ
fnv1a_from hash [] = hash
fnv1a_from hash (unit ∷ rest) = fnv1a_from (fnv_step hash unit) rest

-- The FNV-1a hash of the UTF-16 units of a text.
pub fnv1a : List ℕ → ℕ
unfolding fnv1a_from
fnv1a input = fnv1a_from 0x811c9dc5 input

pub paperless_tag_sync_stagger_ms : List ℕ → RawInterval → ℕ
paperless_tag_sync_stagger_ms policy_id interval_ms =
    let window = min (max 0 (paperless_tag_sync_interval_ms interval_ms)) stagger_max_ms in
    if window == 0 then 0 else fnv1a policy_id % (window + 1)

-- `lastSyncedAt`: absent, a text that is no date, or a moment.
pub data LastSyncedAt : Type 0 where
  never : LastSyncedAt
  unreadable : LastSyncedAt
  synced : ℕ → LastSyncedAt

pub record PaperlessTagDueInput : Type 0 where
  pub policy_id : List ℕ
  pub last_synced_at : LastSyncedAt
  pub now : ℕ
  pub interval_ms : RawInterval

-- `last + interval + stagger`, the stagger of the clamped interval.
pub due_at : List ℕ → ℕ → RawInterval → ℕ
due_at policy_id last interval_ms =
    let interval = paperless_tag_sync_interval_ms interval_ms in
    last + interval + paperless_tag_sync_stagger_ms policy_id (number (natural interval))

unfoldable pub is_due_after : LastSyncedAt → PaperlessTagDueInput → Bool
is_due_after never input = true
is_due_after unreadable input = true
is_due_after (synced last) input = leb (due_at input.policy_id last input.interval_ms) input.now

unfoldable pub is_paperless_tag_sync_due : PaperlessTagDueInput → Bool
unfolding is_due_after
is_paperless_tag_sync_due input = is_due_after input.last_synced_at input

unfoldable pub next_after : LastSyncedAt → PaperlessTagDueInput → ℕ
next_after never input = input.now
next_after unreadable input = input.now
next_after (synced last) input = max (due_at input.policy_id last input.interval_ms) input.now

unfoldable pub next_paperless_tag_sync_at : PaperlessTagDueInput → ℕ
unfolding next_after
next_paperless_tag_sync_at input = next_after input.last_synced_at input
