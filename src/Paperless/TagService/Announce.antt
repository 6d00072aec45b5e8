-- ===== src/Paperless/TagService/Announce.antt =====
-- The moment of the next sync that the service announces, against the worker's test.
use mathlib.Core.Option.{some-injective}
use versi_go.Prelude.{
  ℕ, ◌≤◌, Text, true, ◌≡◌, refl, ap, ◌∙◌, inl, inr, Option, some, leb, max, arith, natural,
  Bool-cases,
}
use versi_go.Config.SyncSchedule.{
  RawInterval, missing, number, due_at, paperless_tag_sync_interval_ms, is_paperless_tag_sync_due,
  next_paperless_tag_sync_at, is_due_after, next_after,
}
use versi_go.Paperless.{PolicyPaperlessTag}
use versi_go.Paperless.Client.{or_value}
use versi_go.Paperless.World.{World}
use versi_go.Paperless.Tick.{is_due, interval_of, or_default}
use versi_go.Paperless.TagService.Answers.{next_sync_at}

-- The default of the tick is the default of the interval.
interval-or_default :
    (raw : RawInterval)
    → paperless_tag_sync_interval_ms (or_default raw) ≡ paperless_tag_sync_interval_ms raw
unfolding paperless_tag_sync_interval_ms
interval-or_default missing = refl
interval-or_default (number n) = refl

max-leb : (a b n : ℕ) → b ≤ n → leb a n ≡ leb (max a b) n
max-leb a b n le = ground arith

interval_of-world :
    (w : World) (later : ℕ)
    → interval_of (record w { now = later }) ≡ paperless_tag_sync_interval_ms w.sync_interval_ms
interval_of-world w later = interval-or_default w.sync_interval_ms

-- The two tests at the moment of the last sync.
is_due-synced :
    (policy_id : Text) (o : Option ℕ) (last later : ℕ) (w : World) (config : PolicyPaperlessTag)
    → config.policy_id ≡ policy_id
    → config.last_synced_at ≡ o
    → o ≡ some last
    → is_due (record w { now = later }) config
      ≡ leb
          (due_at policy_id last
            (number (natural (paperless_tag_sync_interval_ms w.sync_interval_ms))))
          later
unfolding is_paperless_tag_sync_due is_due_after
is_due-synced policy_id o last later w config p e f = rw (e ∙ f, p, interval_of-world w later) refl

-- The moment that the service announces for a policy that was synced before is the one from which on
-- the worker's tick finds the policy due, at every moment that is not before the announcement.
pub is_due-next_sync_at :
    (w : World) (config : PolicyPaperlessTag) (last announced later : ℕ)
    → config.last_synced_at ≡ some last
    → next_sync_at w config ≡ some announced
    → w.now ≤ later
    → is_due (record w { now = later }) config ≡ leb announced later
unfolding next_sync_at next_paperless_tag_sync_at next_after
is_due-next_sync_at w config last announced later e a le =
    elim (Bool-cases (or_value w.sync_enabled true)) [
      | inr off ↦ ground arith
      | inl on ↦
          let due =
            due_at config.policy_id last
              (number (natural (paperless_tag_sync_interval_ms w.sync_interval_ms))) in
          let shown : max due w.now ≡ announced = some-injective _ _ (rw (on, e) at a) in
          is_due-synced config.policy_id config.last_synced_at last later w config refl refl e
          ∙ max-leb due w.now later le
          ∙ ap (λ t. leb t later) shown
    ]
