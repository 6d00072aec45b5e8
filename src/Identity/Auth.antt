-- ===== src/Identity/Auth.antt =====
-- apps/api/src/features/identity/auth.service.ts: accounts as their owners use them. Hashing and
-- verification of passwords (bcrypt), `toLowerCase` and the ids that the database draws are
-- parameters. Audit writes outside a transaction are best effort in the code; here they succeed.
pub mod Login
mod Tests
use versi_go.Prelude.{
  ◌≡◌, Text, codes, eq_text, is_empty, trim, String, Bool, true, false, not, ◌&&◌, Option, none,
  some, List, [], ◌∷◌, ◌++◌, if◌then◌else◌, find,
}
use versi_go.Http.{
  Result, ok, err, HttpError, not_found, conflict, forbidden, require, refuse, ◌>>=◌, ◌>>◌,
}
use versi_go.Identity.{
  GlobalRole, user, UserStatus, active, pending_approval, User, HouseholdMembership, AuditEvent,
  Database, is_active, find_user, or_throw,
}
use versi_go.Identity.UserAdmin.{
  write_user, with_binding, with_credential, is_bound_to, violates_unique, normalize_issuer_url,
  is_unset,
}

pub record AuthenticatedUser : Type 0 where
  pub id : Text
  pub username : Text
  pub display_name : Text
  pub role : GlobalRole
  pub status : UserStatus
  pub memberships : List Text

-- The households of the user's memberships.
abbrev pub households_of : Text → List HouseholdMembership → List Text
households_of user_id [] = []
households_of user_id (m ∷ rest) =
    let later = households_of user_id rest in
    if eq_text m.user_id user_id then m.household_id ∷ later else later

unfoldable pub to_authenticated_user : User → Database → AuthenticatedUser
to_authenticated_user u db = record {
  id = u.id;
  username = u.username;
  display_name = u.display_name;
  role = u.role;
  status = u.status;
  memberships = households_of u.id db.memberships;
}

pub find_by_id : Text → Database → Option AuthenticatedUser
find_by_id user_id db = elim (find_user user_id db.users) [
  | none ↦ none
  | some u ↦ some (to_authenticated_user u db)
]

unfoldable pub find_by_oidc_identity : Text → Text → Database → Option AuthenticatedUser
find_by_oidc_identity oidc_issuer oidc_subject db =
    elim (find (is_bound_to oidc_issuer oidc_subject) db.users) [
      | none ↦ none
      | some u ↦ if not (is_active u.status) then none else some (to_authenticated_user u db)
    ]

-- `auditSelf`: the actor is the account itself.
pub audit_self : Text → String → List (String × Text) → Database → Database
audit_self user_id action diff db = record db {
  audit_events =
      db.audit_events
      ++ record {
        actor_user_id = some user_id;
        entity_type = "User";
        entity_id = user_id;
        action = action;
        diff = diff;
      }
        ∷ [];
}

-- `getOidcBinding`: issuer and subject, where both are set.
abbrev both_set : Option Text → Option Text → Option (Text × Text)
both_set (some issuer) (some subject) =
    if is_empty issuer then none else if is_empty subject then none else some (issuer, subject)
both_set (some issuer) none = none
both_set none subject = none

pub get_oidc_binding : Text → Database → Option (Text × Text)
get_oidc_binding user_id db = elim (find_user user_id db.users) [
  | none ↦ none
  | some u ↦ both_set u.oidc_issuer u.oidc_subject
]

pub bind_oidc_identity_for_user : Text → Text → Text → Database → Result Database
unfolding write_user audit_self
bind_oidc_identity_for_user user_id oidc_issuer oidc_subject db = do
  let issuer = normalize_issuer_url oidc_issuer
  _ ← or_throw (find_user user_id db.users) (not_found "User not found")
  let written = write_user user_id (with_binding (some issuer) (some oidc_subject)) db
  refuse (violates_unique issuer oidc_subject written.users)
      (conflict "This OIDC identity is already bound to another account")
  ok (audit_self user_id "OIDC_BOUND_SELF" (("oidcIssuer", issuer) ∷ []) written)

pub unbind_oidc_identity_for_user : Text → Database → Result Database
unfolding write_user audit_self
unbind_oidc_identity_for_user user_id db = do
  u ← or_throw (find_user user_id db.users) (not_found "User not found")
  refuse (is_unset u.oidc_issuer) (conflict "Account has no OIDC binding")
  ok (audit_self user_id "OIDC_UNBOUND_SELF" [] (write_user user_id (with_binding none none) db))

-- A row of `users` by its username, which is unique.
abbrev pub has_username : Text → User → Bool
has_username username u = eq_text u.username username

abbrev pub auth_event : Option Text → Text → String → AuditEvent
auth_event actor entity_id action = record {
  actor_user_id = actor;
  entity_type = "AuthEvent";
  entity_id = entity_id;
  action = action;
  diff = [];
}

pub add_event : AuditEvent → Database → Database
add_event e db = record db { audit_events = db.audit_events ++ e ∷ [] }

-- What the service is given: bcrypt, and the lower case of a text.
pub record Hashing : Type 0 where
  pub hash : Text → Text
  pub verify : Text → Text → Bool
  pub to_lower_case : Text → Text
  -- bcrypt accepts the password that a hash was made from
  pub verify-hash : (password : Text) → verify password (hash password) ≡ true

abbrev is_taken : Option User → Bool
is_taken none = false
is_taken (some u) = true

module _ (h : Hashing) where
  unfoldable pub normalize_identifier : Text → Text
  normalize_identifier identifier = h.to_lower_case (trim identifier)

  -- The tables after a password change, and its answer: a wrong current password is audited first.
  unfoldable pub change_password : Text → Text → Text → Database → Database × Result (Unit {0})
  unfolding write_user audit_self
  change_password user_id current_password new_password db = elim (find_user user_id db.users) [
    | none ↦ (db, err (not_found "User not found"))
    | some u ↦ elim u.credential [
      | none ↦ (db, err (conflict "Account has no local password"))
      | some password_hash ↦
          if not (h.verify current_password password_hash)
          then (
            audit_self user_id "PASSWORD_CHANGE_FAILURE" [] db,
            err (forbidden "Current password is incorrect"),
          )
          else (
            audit_self user_id "PASSWORD_CHANGED" []
                (write_user user_id (with_credential (h.hash new_password)) db),
            ok tt,
          )
    ]
  ]

  abbrev pub new_account : Text → Text → Text → Text → User
  new_account new_id username display_name password = record {
    id = new_id;
    username = username;
    display_name = display_name;
    role = user;
    status = pending_approval;
    oidc_issuer = none;
    oidc_subject = none;
    credential = some (h.hash password);
  }

  -- `new_id` is the id that the database draws. P2002: the username is taken.
  unfoldable pub register_local_account : Text → Text → Text → Text → Database → Result Database
  unfolding normalize_identifier add_event
  register_local_account new_id username display_name password db = do
    let normalized = normalize_identifier username
    refuse (is_taken (find (has_username normalized) db.users))
        (conflict "Username is already taken")
    ok (
        add_event
          (record {
            actor_user_id = none;
            entity_type = "User";
            entity_id = new_id;
            action = "REGISTER_PENDING";
            diff = ("username", normalized) ∷ [];
          })
          (record db {
            users = db.users ++ new_account new_id normalized (trim display_name) password ∷ [];
          }))

  -- The login of a row that was found.
  login_as : User → Text → Database → Database × Option AuthenticatedUser
  login_as u password db =
      if not (is_active u.status)
      then (add_event (auth_event (some u.id) (codes "unknown") "LOCAL_LOGIN_FAILURE") db, none)
      else elim u.credential [
        | none ↦
            (add_event (auth_event (some u.id) (codes "unknown") "LOCAL_LOGIN_FAILURE") db, none)
        | some password_hash ↦
            if not (h.verify password password_hash)
            then (add_event (auth_event none (codes "unknown") "LOCAL_LOGIN_FAILURE") db, none)
            else (
              add_event (auth_event (some u.id) u.id "LOCAL_LOGIN_SUCCESS") db,
              some (to_authenticated_user u db),
            )
      ]

  unfoldable pub local_login : Text → Text → Database → Database × Option AuthenticatedUser
  unfolding normalize_identifier login_as add_event
  local_login username password db =
      elim (find (has_username (normalize_identifier username)) db.users) [
        | none ↦ (add_event (auth_event none (codes "unknown") "LOCAL_LOGIN_FAILURE") db, none)
        | some u ↦ login_as u password db
      ]
