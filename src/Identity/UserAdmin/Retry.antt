-- ===== src/Identity/UserAdmin/Retry.antt =====
-- user-admin.service.ts: the retried transactions, and when the last-admin rule refuses.
use versi_go.Prelude.{
  ℕ, ◌≤◌, ◌≡◌, ◌≢◌, refl, ◌↔◌, ◌⊎◌, Text, eq_text, Bool, true, false, Option, none, some, List, [],
  ◌∷◌, arith, count,
}
use versi_go.Http.{Result, ok, err, conflict}
use versi_go.Identity.{
  GlobalRole, read_only, user, admin, active, User, Database, find_user, update_user, is_admin,
  eq_role,
}
use versi_go.Identity.Lookup.{count-update_user}
use versi_go.Identity.UserAdmin.{
  disable_in, set_role_in, with_role, is_active_admin, Attempt, p2034, runs_on, run_attempts,
  run_serializable, disable, set_role,
}
use versi_go.Identity.UserAdmin.LastAdmin.{active_admins}

-- The tables of the first attempt that meets no conflict.
abbrev pub first_run : List Attempt → Option Database
first_run [] = none
first_run (runs_on db ∷ rest) = some db
first_run (p2034 ∷ rest) = first_run rest

abbrev pub outcome : (Database → Result Database) → Option Database → Result Database
outcome fn (some db) = fn db
outcome fn none = err (conflict "Concurrent change detected. Please try again.")

-- A serializable transaction has the outcome, success or exception, of its first attempt without a
-- serialization conflict among three, and is answered 409 if all three meet one: the raw conflict
-- never reaches the caller.
pub run_serializable-eq-first_run :
    (meets : ℕ → Attempt) (fn : Database → Result Database)
    → run_serializable meets fn ≡ outcome fn (first_run (meets 1 ∷ meets 2 ∷ meets 3 ∷ []))
unfolding run_serializable
run_serializable-eq-first_run meets fn = cases (meets 1) (meets 2) (meets 3) refl refl refl
  where
    cases :
        (a b c : Attempt)
        → meets 1 ≡ a
        → meets 2 ≡ b
        → meets 3 ≡ c
        → run_serializable meets fn ≡ outcome fn (first_run (a ∷ b ∷ c ∷ []))
    cases (runs_on db) b c e f g = rw (e, run_attempts)
    cases p2034 (runs_on db) c e f g = rw (e, run_attempts) (rw (f, run_attempts))
    cases p2034 p2034 (runs_on db) e f g =
        rw (e, run_attempts) (rw (f, run_attempts) (rw (g, run_attempts)))
    cases p2034 p2034 p2034 e f g =
        rw (e, run_attempts) (rw (f, run_attempts) (rw (g, run_attempts)))

eq_role_sound : (r s : GlobalRole) → eq_role r s ≡ true → r ≡ s
eq_role_sound read_only read_only h = refl
eq_role_sound user user h = refl
eq_role_sound admin admin h = refl
eq_role_sound read_only user h = cc
eq_role_sound read_only admin h = cc
eq_role_sound user read_only h = cc
eq_role_sound user admin h = cc
eq_role_sound admin read_only h = cc
eq_role_sound admin user h = cc

abbrev pub succeeds : Result Database → Bool
succeeds (ok db) = true
succeeds (err e) = false

-- `disable` of an account that exists succeeds exactly when the administrator names another account,
-- that account is active, and it is not the only active administrator.
pub disable-succeeds_iff :
    (admin_id id : Text) (db : Database) (u : User)
    → find_user id db.users ≡ some u
    → (succeeds (disable admin_id id (λ n. runs_on db)) ≡ true) ↔ (
        (eq_text admin_id id ≡ false)
        × (u.status ≡ active)
        × ((is_admin u.role ≡ false) ⊎ (2 ≤ active_admins db)))
unfolding disable run_serializable disable_in
disable-succeeds_iff admin_id id db u found =
    (λ h. (ground arith, ground arith, ground arith), λ h. ground arith)

-- A role change of an account that exists succeeds exactly when the role is another one and, where an
-- administrator is demoted, at least two administrators are active.
pub set_role-succeeds_iff :
    (admin_id id : Text) (role : GlobalRole) (db : Database) (u : User)
    → find_user id db.users ≡ some u
    → (succeeds (set_role admin_id id role (λ n. runs_on db)) ≡ true)
      ↔ ((u.role ≢ role) × ((is_admin u.role ≡ false) ⊎ (2 ≤ active_admins db)))
unfolding set_role run_serializable set_role_in
set_role-succeeds_iff admin_id id role db u found =
    (λ h. (λ same. ground arith, ground arith), λ h. ground (arith, eq_role_sound u.role role))

-- An administrator who is not active is no active administrator that the rule could lose, and still
-- cannot be demoted while at most one administrator is active.
pub set_role-inactive_admin :
    (admin_id id : Text) (role : GlobalRole) (db : Database) (u : User)
    → find_user id db.users ≡ some u
    → u.role ≡ admin
    → u.status ≢ active
    → role ≢ admin
    → active_admins db ≤ 1
    → (set_role_in admin_id id role db
        ≡ err (conflict "The last active administrator cannot be changed"))
      × (count is_active_admin (update_user id (with_role role) db.users) ≡ active_admins db)
unfolding set_role_in
set_role-inactive_admin admin_id id role db u found r s n few =
    (ground arith, ground (arith, count-update_user is_active_admin (with_role role) id db.users u))
