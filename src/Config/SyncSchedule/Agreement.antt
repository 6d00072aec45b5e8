-- ===== src/Config/SyncSchedule/Agreement.antt =====
-- paperless-sync-schedule.ts: the interval's range, and that the announced moment is the kept one.
use native.Mathlib.Nat.{mod-lt}
use versi_go.Prelude.{
  ℕ, ◌+◌, ◌≤◌, ◌≡◌, ◌↔◌, true, List, arith, min, max, not_a_number, infinity, negative_infinity,
  negative, natural,
}
use versi_go.Config.SyncSchedule.{
  min_interval_ms, max_interval_ms, stagger_max_ms, RawInterval, missing, number,
  paperless_tag_sync_interval_ms, paperless_tag_sync_stagger_ms, fnv1a, LastSyncedAt, never,
  unreadable, synced, PaperlessTagDueInput, due_at, is_due_after, is_paperless_tag_sync_due,
  next_after, next_paperless_tag_sync_at,
}

-- Every raw interval, a broken one included, is taken to one between 30 seconds and a day; one that
-- lies in that range is kept as it is; and clamping again changes nothing.
pub interval_range :
    (raw : RawInterval) (n : ℕ)
    → (min_interval_ms ≤ paperless_tag_sync_interval_ms raw)
      × (paperless_tag_sync_interval_ms raw ≤ max_interval_ms)
      × ((paperless_tag_sync_interval_ms (number (natural n)) ≡ n)
          ↔ ((min_interval_ms ≤ n) × (n ≤ max_interval_ms)))
      × (paperless_tag_sync_interval_ms (number (natural (paperless_tag_sync_interval_ms raw)))
          ≡ paperless_tag_sync_interval_ms raw)
unfolding paperless_tag_sync_interval_ms
interval_range missing n = grind arith
interval_range (number not_a_number) n = grind arith
interval_range (number infinity) n = grind arith
interval_range (number negative_infinity) n = grind arith
interval_range (number (negative k)) n = grind arith
interval_range (number (natural k)) n = grind arith

-- The offset of a policy lies within the clamped interval and within the two minutes of spread.
pub stagger_range :
    (policy_id : List ℕ) (raw : RawInterval)
    → (paperless_tag_sync_stagger_ms policy_id raw ≤ paperless_tag_sync_interval_ms raw)
      × (paperless_tag_sync_stagger_ms policy_id raw ≤ stagger_max_ms)
unfolding paperless_tag_sync_stagger_ms
stagger_range policy_id raw =
    let window = min (max 0 (paperless_tag_sync_interval_ms raw)) stagger_max_ms in
    ground (arith, mod-lt (fnv1a policy_id) {m = window + 1} (omega arith))

-- The worker starts a policy exactly when the moment that the API announces is `now`, and the
-- announced moment never lies in the past.
pub due_iff :
    (input : PaperlessTagDueInput)
    → (is_paperless_tag_sync_due input ≡ true ↔ next_paperless_tag_sync_at input ≡ input.now)
      × (input.now ≤ next_paperless_tag_sync_at input)
unfolding is_paperless_tag_sync_due next_paperless_tag_sync_at
due_iff input = by_last input.last_synced_at
  where
    by_last :
        (last : LastSyncedAt)
        → (is_due_after last input ≡ true ↔ next_after last input ≡ input.now)
          × (input.now ≤ next_after last input)
    by_last never = grind arith
    by_last unreadable = grind arith
    by_last (synced last) = grind arith

-- After a sync at `last` the policy is due again at some fixed moment, the same for every clock
-- value: from then on always and before it never; it is later than `last` by at least the clamped
-- interval, and by at most two minutes more.
pub due_window :
    (policy_id : List ℕ) (last now : ℕ) (raw : RawInterval)
    → (is_paperless_tag_sync_due (record {
      policy_id = policy_id;
      last_synced_at = synced last;
      now = now;
      interval_ms = raw;
    })
          ≡ true
        ↔ due_at policy_id last raw ≤ now)
      × (last + paperless_tag_sync_interval_ms raw ≤ due_at policy_id last raw)
      × (due_at policy_id last raw ≤ last + paperless_tag_sync_interval_ms raw + stagger_max_ms)
unfolding is_paperless_tag_sync_due due_at
due_window policy_id last now raw =
    let interval = paperless_tag_sync_interval_ms raw in
    let (inside, spread) = stagger_range policy_id (number (natural interval)) in
    (grind arith, omega arith, omega arith)
