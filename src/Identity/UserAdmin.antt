-- ===== src/Identity/UserAdmin.antt =====
-- apps/api/src/features/identity/user-admin.service.ts: the administration of accounts. A
-- transaction is a function from the tables to the new tables or an exception, which rolls back; the
-- database fails only as the code foresees it (P2002, a violated unique index, and P2034, a
-- serialization conflict), so an audit entry is always written.
pub mod LastAdmin
pub mod Trail
pub mod Lifecycle
pub mod Binding
pub mod Retry
mod Tests
use versi_go.Prelude.{
  ℕ, zero, suc, Text, codes, eq_text, is_empty, drop_while_end, trim, String, Bool, true, false,
  not, ◌&&◌, ◌||◌, Option, none, some, List, [], ◌∷◌, ◌++◌, leb, ltb, ◌==◌, if◌then◌else◌, count,
}
use versi_go.Http.{
  Result, ok, err, HttpError, not_found, conflict, thrown, require, refuse, ◌>>=◌, ◌>>◌,
}
use versi_go.Identity.{
  GlobalRole, read_only, user, admin, UserStatus, active, disabled, pending_approval, User,
  HouseholdMembership, AuditEvent, Database, is_admin, eq_role, is_active, is_disabled, is_pending,
  find_user, update_user, has_membership, or_throw,
}

-- `oidc.strategy.ts`: trims, and removes slashes at the end.
unfoldable pub normalize_issuer_url : Text → Text
normalize_issuer_url issuer = drop_while_end (λ c. c == 47) (trim issuer)

abbrev pub default_household_id : Text
default_household_id = codes "default"

-- `audit`: one more event of the acting administrator about the account.
unfoldable pub audit : Text → Text → String → List (String × Text) → Database → Database
audit admin_id user_id action diff db = record db {
  audit_events =
      db.audit_events
      ++ record {
        actor_user_id = some admin_id;
        entity_type = "User";
        entity_id = user_id;
        action = action;
        diff = diff;
      }
        ∷ [];
}

unfoldable pub write_user : Text → (User → User) → Database → Database
write_user id data_of db = record db { users = update_user id data_of db.users }

abbrev pub with_status : UserStatus → User → User
with_status status u = record u { status = status }

abbrev pub with_role : GlobalRole → User → User
with_role role u = record u { role = role }

user_not_found : HttpError
user_not_found = not_found "User not found"

abbrev has_household : Text → List Text → Bool
has_household id [] = false
has_household id (h ∷ rest) =
    let later = has_household id rest in if eq_text h id then true else later

-- The upsert of the default household's membership, if that household exists.
unfoldable pub join_default_household : Text → Database → Database
join_default_household user_id db =
    if has_household default_household_id db.households
      && not (has_membership default_household_id user_id db.memberships)
    then record db {
      memberships =
          record { household_id = default_household_id; user_id = user_id } ∷ db.memberships;
    }
    else db

unfoldable pub approve : Text → Text → Database → Result Database
unfolding user_not_found write_user
approve admin_id user_id db = do
  u ← or_throw (find_user user_id db.users) user_not_found
  require (is_pending u.status)
      (conflict "Only accounts pending approval (PENDING_APPROVAL) can be approved")
  ok (
      audit admin_id user_id "USER_APPROVED" (("status", codes "ACTIVE") ∷ [])
        (join_default_household user_id (write_user user_id (with_status active) db)))

pub reject : Text → Text → Database → Result Database
unfolding user_not_found write_user
reject admin_id user_id db = do
  u ← or_throw (find_user user_id db.users) user_not_found
  require (is_pending u.status)
      (conflict "Only accounts pending approval (PENDING_APPROVAL) can be rejected")
  ok (
      audit admin_id user_id "USER_REJECTED" (("status", codes "DISABLED") ∷ [])
        (write_user user_id (with_status disabled) db))

-- `role: ADMIN, status: ACTIVE`
abbrev pub is_active_admin : User → Bool
is_active_admin u = is_admin u.role && is_active u.status

pub assert_not_last_active_admin : GlobalRole → Database → Result (Unit {0})
assert_not_last_active_admin target_role db =
    if not (is_admin target_role)
    then ok tt
    else refuse (leb (count is_active_admin db.users) 1)
        (conflict "The last active administrator cannot be changed")

-- The body of `disable`'s transaction.
pub disable_in : Text → Text → Database → Result Database
unfolding user_not_found assert_not_last_active_admin write_user
disable_in admin_id user_id db = do
  u ← or_throw (find_user user_id db.users) user_not_found
  require (is_active u.status) (conflict "Only active accounts can be disabled")
  assert_not_last_active_admin u.role db
  ok (
      audit admin_id user_id "USER_DISABLED" (("status", codes "DISABLED") ∷ [])
        (write_user user_id (with_status disabled) db))

pub enable : Text → Text → Database → Result Database
unfolding user_not_found write_user
enable admin_id user_id db = do
  u ← or_throw (find_user user_id db.users) user_not_found
  require (is_disabled u.status) (conflict "Only disabled accounts can be enabled")
  ok (
      audit admin_id user_id "USER_ENABLED" (("status", codes "ACTIVE") ∷ [])
        (write_user user_id (with_status active) db))

abbrev pub role_name : GlobalRole → Text
role_name read_only = codes "READ_ONLY"
role_name user = codes "USER"
role_name admin = codes "ADMIN"

-- The body of `setRole`'s transaction.
pub set_role_in : Text → Text → GlobalRole → Database → Result Database
unfolding user_not_found assert_not_last_active_admin write_user
set_role_in admin_id user_id role db = do
  u ← or_throw (find_user user_id db.users) user_not_found
  refuse (eq_role u.role role) (conflict "Role is already set")
  (if is_admin u.role && not (is_admin role) then assert_not_last_active_admin u.role db else ok tt)
  ok (
      audit admin_id user_id "USER_ROLE_CHANGED"
        (("from", role_name u.role) ∷ ("to", role_name role) ∷ [])
        (write_user user_id (with_role role) db))

-- What one attempt of a serializable transaction meets: P2034, or the tables on which it runs alone.
pub data Attempt : Type 0 where
  p2034 : Attempt
  runs_on : Database → Attempt

-- The loop of `runSerializable`, with the number of attempts that are left. `meets` gives what each
-- attempt meets, by its number.
pub run_attempts : ℕ → ℕ → (ℕ → Attempt) → (Database → Result Database) → Result Database
run_attempts zero attempt meets fn = err (thrown "P2034")
run_attempts (suc left) attempt meets fn =
    let again = run_attempts left (suc attempt) meets fn in
    elim (meets attempt) [
      | runs_on db ↦ fn db
      | p2034 ↦
          if ltb attempt 3
          then again
          else err (conflict "Concurrent change detected. Please try again.")
    ]

-- Three attempts, numbered from 1.
pub run_serializable : (ℕ → Attempt) → (Database → Result Database) → Result Database
unfolding run_attempts
run_serializable meets fn = run_attempts 3 1 meets fn

pub disable : Text → Text → (ℕ → Attempt) → Result Database
disable admin_id user_id meets = do
  refuse (eq_text admin_id user_id) (conflict "You cannot disable yourself")
  run_serializable meets (disable_in admin_id user_id)

pub set_role : Text → Text → GlobalRole → (ℕ → Attempt) → Result Database
set_role admin_id user_id role meets = run_serializable meets (set_role_in admin_id user_id role)

abbrev eq_column : Option Text → Text → Bool
eq_column none t = false
eq_column (some s) t = eq_text s t

abbrev pub is_bound_to : Text → Text → User → Bool
is_bound_to issuer subject u = eq_column u.oidc_issuer issuer && eq_column u.oidc_subject subject

-- `User[@@unique([oidcIssuer, oidcSubject])]`: P2002 where a written row would be the second one with
-- its pair of values. Rows without a pair do not collide.
abbrev pub violates_unique : Text → Text → List User → Bool
violates_unique issuer subject users = ltb 1 (count (is_bound_to issuer subject) users)

abbrev pub with_binding : Option Text → Option Text → User → User
with_binding issuer subject u = record u { oidc_issuer = issuer; oidc_subject = subject }

unfoldable pub bind_oidc_identity : Text → Text → Text → Text → Database → Result Database
unfolding user_not_found write_user
bind_oidc_identity admin_id user_id oidc_issuer oidc_subject db = do
  _ ← or_throw (find_user user_id db.users) user_not_found
  let issuer = normalize_issuer_url oidc_issuer
  let written = write_user user_id (with_binding (some issuer) (some oidc_subject)) db
  refuse (violates_unique issuer oidc_subject written.users)
      (conflict "This OIDC identity is already bound to another account")
  ok (audit admin_id user_id "OIDC_BOUND" (("oidcIssuer", oidc_issuer) ∷ []) written)

-- `!user.oidcIssuer`: absent or empty
abbrev pub is_unset : Option Text → Bool
is_unset none = true
is_unset (some t) = is_empty t

pub unbind_oidc_identity : Text → Text → Database → Result Database
unfolding user_not_found write_user
unbind_oidc_identity admin_id user_id db = do
  u ← or_throw (find_user user_id db.users) user_not_found
  refuse (is_unset u.oidc_issuer) (conflict "Account has no OIDC binding")
  ok (audit admin_id user_id "OIDC_UNBOUND" [] (write_user user_id (with_binding none none) db))

-- `credential.update`; the hash is computed before the transaction, by bcrypt.
abbrev pub with_credential : Text → User → User
with_credential hash u = record u { credential = some hash }

abbrev is_none : Option Text → Bool
is_none none = true
is_none (some t) = false

pub reset_password : (Text → Text) → Text → Text → Text → Database → Result Database
unfolding user_not_found write_user
reset_password hash admin_id user_id new_password db = do
  let password_hash = hash new_password
  u ← or_throw (find_user user_id db.users) user_not_found
  refuse (is_none u.credential) (conflict "Account has no local password")
  ok (
      audit admin_id user_id "USER_PASSWORD_RESET" []
        (write_user user_id (with_credential password_hash) db))
