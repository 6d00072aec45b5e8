-- ===== src/Identity/UserAdmin/LastAdmin.antt =====
-- user-admin.service.ts: last-admin protection, over every sequence of administrative operations.
use versi_go.Prelude.{ℕ, ◌≤◌, ◌≡◌, Text, inl, inr, none, some, arith, count, Option-cases}
use versi_go.Http.{ok}
use versi_go.Identity.{GlobalRole, Database, find_user, active, disabled}
use versi_go.Identity.Lookup.{count-update_user}
use versi_go.Identity.UserAdmin.{
  approve, reject, disable_in, enable, set_role_in, bind_oidc_identity, unbind_oidc_identity,
  reset_password, audit, write_user, join_default_household, with_status, with_role, with_binding,
  with_credential, is_active_admin, normalize_issuer_url,
}

abbrev pub active_admins : Database → ℕ
active_admins db = count is_active_admin db.users

-- One operation of some administrator on some account that succeeds.
pub data Step (db next : Database) : Type 0 where
  approve_step : (admin_id id : Text) → approve admin_id id db ≡ ok next → Step db next
  reject_step : (admin_id id : Text) → reject admin_id id db ≡ ok next → Step db next
  disable_step : (admin_id id : Text) → disable_in admin_id id db ≡ ok next → Step db next
  enable_step : (admin_id id : Text) → enable admin_id id db ≡ ok next → Step db next
  role_step :
      (admin_id id : Text) (role : GlobalRole)
      → set_role_in admin_id id role db ≡ ok next
      → Step db next
  bind_step :
      (admin_id id issuer subject : Text)
      → bind_oidc_identity admin_id id issuer subject db ≡ ok next
      → Step db next
  unbind_step : (admin_id id : Text) → unbind_oidc_identity admin_id id db ≡ ok next → Step db next
  reset_step :
      (hash : Text → Text) (admin_id id password : Text)
      → reset_password hash admin_id id password db ≡ ok next
      → Step db next

pub data Reach (db : Database) : Database → Type 0 where
  here : Reach db db
  then_step : {next last : Database} → Reach db next → Step next last → Reach db last

-- Somebody can administer the instance.
abbrev pub HasActiveAdmin : Database → Type 0
HasActiveAdmin db = 1 ≤ active_admins db

module _ (db next : Database) (admin_id id : Text) (h : HasActiveAdmin db) where
  approve-HasActiveAdmin : approve admin_id id db ≡ ok next → HasActiveAdmin next
  unfolding approve join_default_household audit write_user
  approve-HasActiveAdmin e = elim (Option-cases (find_user id db.users)) [
    | inl missing ↦ ground arith
    | inr (u, found) ↦
        ground (arith, count-update_user is_active_admin (with_status active) id db.users u)
  ]

  reject-HasActiveAdmin : reject admin_id id db ≡ ok next → HasActiveAdmin next
  unfolding reject audit write_user
  reject-HasActiveAdmin e = elim (Option-cases (find_user id db.users)) [
    | inl missing ↦ ground arith
    | inr (u, found) ↦
        ground (arith, count-update_user is_active_admin (with_status disabled) id db.users u)
  ]

  disable-HasActiveAdmin : disable_in admin_id id db ≡ ok next → HasActiveAdmin next
  unfolding disable_in audit write_user
  disable-HasActiveAdmin e = elim (Option-cases (find_user id db.users)) [
    | inl missing ↦ ground arith
    | inr (u, found) ↦
        ground (arith, count-update_user is_active_admin (with_status disabled) id db.users u)
  ]

  enable-HasActiveAdmin : enable admin_id id db ≡ ok next → HasActiveAdmin next
  unfolding enable audit write_user
  enable-HasActiveAdmin e = elim (Option-cases (find_user id db.users)) [
    | inl missing ↦ ground arith
    | inr (u, found) ↦
        ground (arith, count-update_user is_active_admin (with_status active) id db.users u)
  ]

  set_role-HasActiveAdmin :
      (role : GlobalRole) → set_role_in admin_id id role db ≡ ok next → HasActiveAdmin next
  unfolding set_role_in audit write_user
  set_role-HasActiveAdmin role e = elim (Option-cases (find_user id db.users)) [
    | inl missing ↦ ground arith
    | inr (u, found) ↦
        ground (arith, count-update_user is_active_admin (with_role role) id db.users u)
  ]

  bind-HasActiveAdmin :
      (issuer subject : Text)
      → bind_oidc_identity admin_id id issuer subject db ≡ ok next
      → HasActiveAdmin next
  unfolding bind_oidc_identity audit write_user
  bind-HasActiveAdmin issuer subject e = elim (Option-cases (find_user id db.users)) [
    | inl missing ↦ ground arith
    | inr (u, found) ↦ ground (
      arith,
      count-update_user is_active_admin
          (with_binding (some (normalize_issuer_url issuer)) (some subject)) id db.users u,
    )
  ]

  unbind-HasActiveAdmin : unbind_oidc_identity admin_id id db ≡ ok next → HasActiveAdmin next
  unfolding unbind_oidc_identity audit write_user
  unbind-HasActiveAdmin e = elim (Option-cases (find_user id db.users)) [
    | inl missing ↦ ground arith
    | inr (u, found) ↦
        ground (arith, count-update_user is_active_admin (with_binding none none) id db.users u)
  ]

  reset-HasActiveAdmin :
      (hash : Text → Text) (password : Text)
      → reset_password hash admin_id id password db ≡ ok next
      → HasActiveAdmin next
  unfolding reset_password audit write_user
  reset-HasActiveAdmin hash password e = elim (Option-cases (find_user id db.users)) [
    | inl missing ↦ ground arith
    | inr (u, found) ↦
        ground
          (arith, count-update_user is_active_admin (with_credential (hash password)) id db.users u)
  ]

pub Step-HasActiveAdmin :
    {db next : Database} → Step db next → HasActiveAdmin db → HasActiveAdmin next
Step-HasActiveAdmin (approve_step a id e) h = approve-HasActiveAdmin _ _ a id h e
Step-HasActiveAdmin (reject_step a id e) h = reject-HasActiveAdmin _ _ a id h e
Step-HasActiveAdmin (disable_step a id e) h = disable-HasActiveAdmin _ _ a id h e
Step-HasActiveAdmin (enable_step a id e) h = enable-HasActiveAdmin _ _ a id h e
Step-HasActiveAdmin (role_step a id role e) h = set_role-HasActiveAdmin _ _ a id h role e
Step-HasActiveAdmin (bind_step a id issuer subject e) h =
    bind-HasActiveAdmin _ _ a id h issuer subject e
Step-HasActiveAdmin (unbind_step a id e) h = unbind-HasActiveAdmin _ _ a id h e
Step-HasActiveAdmin (reset_step hash a id password e) h =
    reset-HasActiveAdmin _ _ a id h hash password e

-- From tables with an active administrator, no sequence of successful administrative operations,
-- by whichever administrators on whichever accounts, leads to tables without one.
pub Reach-HasActiveAdmin :
    {db last : Database} → Reach db last → HasActiveAdmin db → HasActiveAdmin last
Reach-HasActiveAdmin here h = h
Reach-HasActiveAdmin (then_step r s) h = Step-HasActiveAdmin s (Reach-HasActiveAdmin r h)
