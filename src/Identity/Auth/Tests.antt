-- ===== src/Identity/Auth/Tests.antt =====
-- auth.service.ts: concrete runs, and the properties at them.
use versi_go.Prelude.{
  ◌≡◌, refl, Text, codes, eq_text, eq_text_refl, trim, true, none, some, [], ◌∷◌, find,
  if◌then◌else◌,
}
use versi_go.Http.{Result, ok, err}
use versi_go.Identity.{user, admin, active, User, Database, find_user, update_user, is_active}
use versi_go.Identity.UserAdmin.{
  approve, bind_oidc_identity, audit, write_user, join_default_household, normalize_issuer_url,
}
use versi_go.Identity.Auth.{
  AuthenticatedUser, to_authenticated_user, Hashing, normalize_identifier, register_local_account,
  local_login, has_username, find_by_oidc_identity, change_password,
}
use versi_go.Identity.UserAdmin.Binding.{bound}
use versi_go.Identity.Auth.Login.{
  local_login_sound, register-approve-login, bind-find_by_oidc_identity,
}

auth_runs : Unit {0}
unfolding approve bind_oidc_identity audit write_user join_default_household find_user update_user
    normalize_issuer_url register_local_account local_login normalize_identifier
    find_by_oidc_identity to_authenticated_user trim eq_text change_password
auth_runs = tt

-- A hash that keeps the password; it verifies as bcrypt's does.
abbrev plain : Hashing
plain = record {
  hash = λ password. password;
  verify = eq_text;
  to_lower_case = λ t. t;
  verify-hash = eq_text_refl;
}

abbrev root : User
root = record {
  id = codes "1";
  username = codes "root";
  display_name = codes "Root";
  role = admin;
  status = active;
  oidc_issuer = none;
  oidc_subject = none;
  credential = some (codes "correct horse");
}

abbrev home : Database
home = record {
  users = root ∷ [];
  households = codes "default" ∷ [];
  memberships = [];
  audit_events = [];
}

abbrev or_home : Result Database → Database
or_home (ok db) = db
or_home (err e) = home

abbrev registered : Database
registered =
    unfold auth_runs in
    or_home (
      register_local_account plain (codes "2") (codes " mia ") (codes "Mia")
        (codes "battery staple") home)

root_row : find_user (codes "1") home.users ≡ some root
unfolding auth_runs
root_row = refl

root_login :
    (local_login plain (codes "root ") (codes "correct horse") home).1
    ≡ some (to_authenticated_user root home)
unfolding auth_runs
root_login = refl

wrong_password :
    ((local_login plain (codes "root") (codes "wrong") home).1 ≡ none)
    × ((local_login plain (codes "nobody") (codes "wrong") home).1 ≡ none)
    × (find_user
          (codes "1")
          (change_password plain (codes "1") (codes "correct horse") (codes "new") home).0.users
        ≡ some (record root { credential = some (codes "new") }))
unfolding auth_runs
wrong_password = (refl, refl, refl)

local_login_sound_example :
    (u : User) × (find (has_username (normalize_identifier plain (codes "root "))) home.users
      ≡ some u)
    × (u.status ≡ active)
    × ((password_hash : Text) × (u.credential ≡ some password_hash)
        × (plain.verify (codes "correct horse") password_hash ≡ true))
    × (to_authenticated_user root home ≡ to_authenticated_user u home)
local_login_sound_example =
    local_login_sound plain (codes "root ") (codes "correct horse") home
      (to_authenticated_user root home) root_login

mia_registered :
    register_local_account plain
      (codes "2")
      (codes " mia ")
      (codes "Mia")
      (codes "battery staple")
      home
    ≡ ok registered
unfolding auth_runs
mia_registered = refl

mia_is_new : find_user (codes "2") home.users ≡ none
unfolding auth_runs
mia_is_new = refl

register-approve-login_example :
    ((local_login plain (codes " mia ") (codes "battery staple") registered).1 ≡ none)
    × ((approved : Database) × (approve (codes "1") (codes "2") registered ≡ ok approved)
        × ((found : AuthenticatedUser) × ((local_login plain
                (codes " mia ")
                (codes "battery staple")
                approved).1
              ≡ some found)
            × (found.id ≡ codes "2")
            × (found.role ≡ user)))
register-approve-login_example =
    register-approve-login plain (codes "2") (codes " mia ") (codes "Mia") (codes "battery staple")
      home registered mia_registered (codes "1") mia_is_new

abbrev linked : Database
linked =
    unfold auth_runs in
    or_home (bind_oidc_identity (codes "1") (codes "1") (codes "https://idp/") (codes "sub") home)

link_runs :
    (bind_oidc_identity (codes "1") (codes "1") (codes "https://idp/") (codes "sub") home
      ≡ ok linked)
    × (normalize_issuer_url (codes "https://idp") ≡ normalize_issuer_url (codes "https://idp/"))
unfolding auth_runs
link_runs = (refl, refl)

bind-find_by_oidc_identity_example :
    find_by_oidc_identity (normalize_issuer_url (codes "https://idp")) (codes "sub") linked ≡ (
      if is_active root.status
      then some (to_authenticated_user (bound (codes "https://idp/") (codes "sub") root) linked)
      else none)
bind-find_by_oidc_identity_example =
    bind-find_by_oidc_identity (codes "1") (codes "1") (codes "https://idp/") (codes "sub")
      (codes "https://idp") home linked root link_runs.0 root_row link_runs.1
