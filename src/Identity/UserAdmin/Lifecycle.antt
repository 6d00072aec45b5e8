-- ===== src/Identity/UserAdmin/Lifecycle.antt =====
-- user-admin.service.ts: the audit trail against the accounts.
use mathlib.Core.List.{append-nil, append_assoc}
use versi_go.Prelude.{◌≡◌, refl, sym, ap, ◌∙◌, Text, Option, List, [], ◌∷◌, ◌++◌}
use versi_go.Identity.{UserStatus, AuditEvent, Database}
use versi_go.Identity.UserAdmin.LastAdmin.{Reach, here, then_step}
use versi_go.Identity.UserAdmin.Trail.{status_in, status_after, replay_status, Step-IsRecorded}

replay_status-append :
    (events : List AuditEvent) (e : AuditEvent) (j : Text) (status : Option UserStatus)
    → replay_status (events ++ e ∷ []) j status ≡ status_after e j (replay_status events j status)
unfolding replay_status
replay_status-append [] e j status = refl
replay_status-append (d ∷ events) e j status =
    replay_status-append events e j (status_after d j status)

-- Whatever successful administrative operations lead from one state to another, the audit trail only
-- grows, and the statuses that the new events name, replayed over the old accounts, are the
-- statuses of all accounts: none changes unrecorded, and none appears or disappears.
pub Reach-replay_status :
    {db last : Database}
    → Reach db last
    → (events : List AuditEvent) × (last.audit_events ≡ db.audit_events ++ events)
      × ((j : Text) → status_in j last.users ≡ replay_status events j (status_in j db.users))
Reach-replay_status here = ([], sym (append-nil _), λ j. unfold replay_status in refl)
Reach-replay_status {db} (then_step r s) =
    let (events, grown, same) = Reach-replay_status r in
    let (e, one_more, then_same) = Step-IsRecorded s in
    (
      events ++ e ∷ [],
      one_more ∙ ap (λ old. old ++ e ∷ []) grown ∙ append_assoc db.audit_events events (e ∷ []),
      λ j.
          then_same j
          ∙ ap (status_after e j) (same j)
          ∙ sym (replay_status-append events e j (status_in j db.users)),
    )
