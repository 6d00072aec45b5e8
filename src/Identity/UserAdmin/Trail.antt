-- ===== src/Identity/UserAdmin/Trail.antt =====
-- user-admin.service.ts: the audit event of each operation against the status that it writes.
use text.Mathlib.Text.{◌==◌ as eq_string}
use mathlib.Core.Option
use versi_go.Prelude.{
  ◌≡◌, refl, inl, inr, Text, codes, eq_text, eq_text_iff, String, not, Option, none, some, List, [],
  ◌∷◌, ◌++◌, arith, Option-cases, if◌then◌else◌,
}
use versi_go.Http.{ok}
use versi_go.Identity.{
  GlobalRole, UserStatus, active, disabled, User, AuditEvent, Database, find_user, update_user,
}
use versi_go.Identity.UserAdmin.{
  approve, reject, disable_in, enable, set_role_in, bind_oidc_identity, unbind_oidc_identity,
  reset_password, audit, write_user, join_default_household, with_status, with_role, with_binding,
  with_credential, role_name, normalize_issuer_url,
}
use versi_go.Identity.UserAdmin.LastAdmin.{
  Step, approve_step, reject_step, disable_step, enable_step, role_step, bind_step, unbind_step,
  reset_step,
}

-- The status of an account, if it exists.
abbrev pub status_in : Text → List User → Option UserStatus
status_in id users = Option.map (λ (u : User). u.status) (find_user id users)

-- A reader of the trail: the status that an event of the administration leaves.
abbrev pub status_after : AuditEvent → Text → Option UserStatus → Option UserStatus
status_after e id none = none
status_after e id (some status) =
    if not (eq_text e.entity_id id)
    then some status
    else if eq_string e.action "USER_APPROVED"
    then some active
    else if eq_string e.action "USER_ENABLED"
    then some active
    else if eq_string e.action "USER_REJECTED"
    then some disabled
    else if eq_string e.action "USER_DISABLED"
    then some disabled
    else some status

unfoldable pub replay_status : List AuditEvent → Text → Option UserStatus → Option UserStatus
replay_status [] id status = status
replay_status (e ∷ rest) id status = replay_status rest id (status_after e id status)

status_in-write :
    (f : User → User) (id j : Text) (users : List User)
    → ((u : User) → (f u).id ≡ u.id)
    → status_in j (update_user id f users) ≡ (
        if eq_text id j
        then Option.map (λ (u : User). (f u).status) (find_user j users)
        else status_in j users)
unfolding find_user update_user
status_in-write f id j [] k = ground arith
status_in-write f id j (v ∷ rest) k = ground (
  arith,
  k v,
  status_in-write f id j rest k,
  eq_text_iff v.id id,
  eq_text_iff v.id j,
  eq_text_iff id j,
)

-- One event, which accounts for the status of every account afterwards.
abbrev pub IsRecorded : Database → Database → Type 0
IsRecorded db next =
    (e : AuditEvent) × (next.audit_events ≡ db.audit_events ++ e ∷ [])
    × ((j : Text) → status_in j next.users ≡ status_after e j (status_in j db.users))

abbrev event_of : Text → Text → String → List (String × Text) → AuditEvent
event_of admin_id id action diff = record {
  actor_user_id = some admin_id;
  entity_type = "User";
  entity_id = id;
  action = action;
  diff = diff;
}

module _ (db next : Database) (admin_id id : Text) where
  approve-IsRecorded : approve admin_id id db ≡ ok next → IsRecorded db next
  unfolding approve join_default_household audit write_user
  approve-IsRecorded h = elim (Option-cases (find_user id db.users)) [
    | inl missing ↦ ground arith
    | inr (u, found) ↦ (
      event_of admin_id id "USER_APPROVED" (("status", codes "ACTIVE") ∷ []),
      ground arith,
      λ j.
          ground (
            arith,
            eq_text_iff id j,
            status_in-write (with_status active) id j db.users (λ u. refl),
          ),
    )
  ]

  reject-IsRecorded : reject admin_id id db ≡ ok next → IsRecorded db next
  unfolding reject audit write_user
  reject-IsRecorded h = elim (Option-cases (find_user id db.users)) [
    | inl missing ↦ ground arith
    | inr (u, found) ↦ (
      event_of admin_id id "USER_REJECTED" (("status", codes "DISABLED") ∷ []),
      ground arith,
      λ j. ground (
        arith,
        eq_text_iff id j,
        status_in-write (with_status disabled) id j db.users (λ u. refl),
      ),
    )
  ]

  disable-IsRecorded : disable_in admin_id id db ≡ ok next → IsRecorded db next
  unfolding disable_in audit write_user
  disable-IsRecorded h = elim (Option-cases (find_user id db.users)) [
    | inl missing ↦ ground arith
    | inr (u, found) ↦ (
      event_of admin_id id "USER_DISABLED" (("status", codes "DISABLED") ∷ []),
      ground arith,
      λ j. ground (
        arith,
        eq_text_iff id j,
        status_in-write (with_status disabled) id j db.users (λ u. refl),
      ),
    )
  ]

  enable-IsRecorded : enable admin_id id db ≡ ok next → IsRecorded db next
  unfolding enable audit write_user
  enable-IsRecorded h = elim (Option-cases (find_user id db.users)) [
    | inl missing ↦ ground arith
    | inr (u, found) ↦ (
      event_of admin_id id "USER_ENABLED" (("status", codes "ACTIVE") ∷ []),
      ground arith,
      λ j.
          ground (
            arith,
            eq_text_iff id j,
            status_in-write (with_status active) id j db.users (λ u. refl),
          ),
    )
  ]

  set_role-IsRecorded :
      (role : GlobalRole) → set_role_in admin_id id role db ≡ ok next → IsRecorded db next
  unfolding set_role_in audit write_user
  set_role-IsRecorded role h = elim (Option-cases (find_user id db.users)) [
    | inl missing ↦ ground arith
    | inr (u, found) ↦ (
      event_of admin_id id "USER_ROLE_CHANGED"
          (("from", role_name u.role) ∷ ("to", role_name role) ∷ []),
      ground arith,
      λ j.
          ground
            (arith, eq_text_iff id j, status_in-write (with_role role) id j db.users (λ u. refl)),
    )
  ]

  bind-IsRecorded :
      (issuer subject : Text)
      → bind_oidc_identity admin_id id issuer subject db ≡ ok next
      → IsRecorded db next
  unfolding bind_oidc_identity audit write_user
  bind-IsRecorded issuer subject h = elim (Option-cases (find_user id db.users)) [
    | inl missing ↦ ground arith
    | inr (u, found) ↦ (
      event_of admin_id id "OIDC_BOUND" (("oidcIssuer", issuer) ∷ []),
      ground arith,
      λ j. ground (
        arith,
        eq_text_iff id j,
        status_in-write (with_binding (some (normalize_issuer_url issuer)) (some subject)) id j
            db.users (λ u. refl),
      ),
    )
  ]

  unbind-IsRecorded : unbind_oidc_identity admin_id id db ≡ ok next → IsRecorded db next
  unfolding unbind_oidc_identity audit write_user
  unbind-IsRecorded h = elim (Option-cases (find_user id db.users)) [
    | inl missing ↦ ground arith
    | inr (u, found) ↦ (
      event_of admin_id id "OIDC_UNBOUND" [],
      ground arith,
      λ j. ground (
        arith,
        eq_text_iff id j,
        status_in-write (with_binding none none) id j db.users (λ u. refl),
      ),
    )
  ]

  reset-IsRecorded :
      (hash : Text → Text) (password : Text)
      → reset_password hash admin_id id password db ≡ ok next
      → IsRecorded db next
  unfolding reset_password audit write_user
  reset-IsRecorded hash password h = elim (Option-cases (find_user id db.users)) [
    | inl missing ↦ ground arith
    | inr (u, found) ↦ (
      event_of admin_id id "USER_PASSWORD_RESET" [],
      ground arith,
      λ j. ground (
        arith,
        eq_text_iff id j,
        status_in-write (with_credential (hash password)) id j db.users (λ u. refl),
      ),
    )
  ]

pub Step-IsRecorded : {db next : Database} → Step db next → IsRecorded db next
Step-IsRecorded (approve_step a id e) = approve-IsRecorded _ _ a id e
Step-IsRecorded (reject_step a id e) = reject-IsRecorded _ _ a id e
Step-IsRecorded (disable_step a id e) = disable-IsRecorded _ _ a id e
Step-IsRecorded (enable_step a id e) = enable-IsRecorded _ _ a id e
Step-IsRecorded (role_step a id role e) = set_role-IsRecorded _ _ a id role e
Step-IsRecorded (bind_step a id issuer subject e) = bind-IsRecorded _ _ a id issuer subject e
Step-IsRecorded (unbind_step a id e) = unbind-IsRecorded _ _ a id e
Step-IsRecorded (reset_step hash a id password e) = reset-IsRecorded _ _ a id hash password e
