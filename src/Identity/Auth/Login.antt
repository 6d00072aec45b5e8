-- ===== src/Identity/Auth/Login.antt =====
-- auth.service.ts with user-admin.service.ts: from registration to login.
use versi_go.Prelude.{
  ◌≡◌, refl, inl, inr, Text, codes, eq_text_iff, eq_text_refl, Bool, true, none, some, List, [],
  ◌∷◌, ◌++◌, arith, find, Option-cases, trim, if◌then◌else◌,
}
use versi_go.Http.{ok}
use versi_go.Identity.{user, active, User, Database, is_active, find_user, update_user}
use versi_go.Identity.Lookup.{find_user-update_self}
use versi_go.Identity.UserAdmin.{
  approve, bind_oidc_identity, audit, write_user, join_default_household, with_status, is_bound_to,
  normalize_issuer_url,
}
use versi_go.Identity.UserAdmin.Binding.{bound, bind-written, find-eq-find_user}
use versi_go.Identity.Auth.{
  AuthenticatedUser, to_authenticated_user, Hashing, normalize_identifier, register_local_account,
  local_login, has_username, new_account, find_by_oidc_identity,
}

module _ (h : Hashing) where
  -- A local login that succeeds returns the account with the given username in its normal form; that
  -- account is active and has a password, which the given one verifies.
  pub local_login_sound :
      (username password : Text) (db : Database) (found : AuthenticatedUser)
      → (local_login h username password db).1 ≡ some found
      → (u : User) × (find (has_username (normalize_identifier h username)) db.users ≡ some u)
        × (u.status ≡ active)
        × ((password_hash : Text) × (u.credential ≡ some password_hash)
            × (h.verify password password_hash ≡ true))
        × (found ≡ to_authenticated_user u db)
  unfolding local_login
  local_login_sound username password db found e =
      elim (Option-cases (find (has_username (normalize_identifier h username)) db.users)) [
        | inl missing ↦ ground arith
        | inr (u, at_name) ↦ elim (Option-cases u.credential) [
          | inl without ↦ ground arith
          | inr (password_hash, has) ↦
              (u, at_name, ground arith, (password_hash, has, ground arith), ground arith)
        ]
      ]

-- A search through one more row at the end.
find-append {ℓ} :
    {A : Type ℓ} (p : A → Bool) (xs : List A) (y : A)
    → find p xs ≡ none
    → p y ≡ true
    → find p (xs ++ y ∷ []) ≡ some y
find-append p [] y h k = ground arith
find-append p (x ∷ xs) y h k = ground (arith, find-append p xs y)

find_user-append :
    (id : Text) (users : List User) (y : User)
    → find_user id users ≡ none
    → y.id ≡ id
    → find_user id (users ++ y ∷ []) ≡ some y
unfolding find_user
find_user-append id [] y h k = ground (arith, eq_text_iff y.id id)
find_user-append id (x ∷ xs) y h k = ground (arith, find_user-append id xs y)

-- Writing the row that was appended.
update_user-append :
    (id : Text) (f : User → User) (users : List User) (y : User)
    → find_user id users ≡ none
    → y.id ≡ id
    → update_user id f (users ++ y ∷ []) ≡ users ++ f y ∷ []
unfolding find_user update_user
update_user-append id f [] y h k = ground (arith, eq_text_iff y.id id)
update_user-append id f (x ∷ xs) y h k = ground (arith, update_user-append id f xs y)

module _ (h : Hashing) (new_id username display_name password : Text) (db next : Database)
    (registered : register_local_account h new_id username display_name password db ≡ ok next) where
  abbrev account : User
  account = new_account h new_id (normalize_identifier h username) (trim display_name) password

  registered-users :
      (next.users ≡ db.users ++ account ∷ [])
      × (find (has_username (normalize_identifier h username)) db.users ≡ none)
  unfolding register_local_account
  registered-users =
      elim (Option-cases (find (has_username (normalize_identifier h username)) db.users)) [
        | inl free ↦ (ground arith, free)
        | inr (u, taken) ↦ ground arith
      ]

  registered-found : find (has_username (normalize_identifier h username)) next.users ≡ some account
  registered-found =
      let (users, free) = registered-users in
      rw users (
        find-append (has_username (normalize_identifier h username)) db.users account free
          (eq_text_refl (normalize_identifier h username)))

  -- Right after its registration the account cannot log in; the approval of any administrator
  -- succeeds, and from then on the login with the registered username and password, as they were
  -- typed, returns this account, as an ordinary user.
  pub register-approve-login :
      (admin_id : Text)
      → find_user new_id db.users ≡ none
      → ((local_login h username password next).1 ≡ none)
        × ((approved : Database) × (approve admin_id new_id next ≡ ok approved)
            × ((found : AuthenticatedUser) × ((local_login h username password approved).1
                  ≡ some found)
                × (found.id ≡ new_id)
                × (found.role ≡ user)))
  unfolding local_login approve join_default_household audit write_user to_authenticated_user
  register-approve-login admin_id fresh =
      let (users, free) = registered-users in
      let name = normalize_identifier h username in
      let written = write_user new_id (with_status active) next in
      let approved =
        audit admin_id new_id "USER_APPROVED" (("status", codes "ACTIVE") ∷ [])
          (join_default_household new_id written) in
      let now_active : User = with_status active account in
      let row : find_user new_id next.users ≡ some account =
        rw users (find_user-append new_id db.users account fresh refl) in
      let activated : approved.users ≡ db.users ++ now_active ∷ [] = ground (
        arith,
        users,
        update_user-append new_id (with_status active) db.users account fresh refl,
      ) in
      let at_name : find (has_username name) approved.users ≡ some now_active =
        rw activated
          (find-append (has_username name) db.users now_active free (eq_text_refl name)) in
      (
        ground (arith, registered-found),
        (
          approved,
          ground arith,
          (
            to_authenticated_user now_active approved,
            ground (arith, h.verify-hash password),
            refl,
            refl,
          ),
        ),
      )

-- After an administrator has bound an identity to an account, the login with this subject and any
-- spelling of the issuer that has the same normal form returns this very account if it is active,
-- with its new row, and nothing otherwise.
pub bind-find_by_oidc_identity :
    (admin_id id issuer subject spelling : Text) (db next : Database) (u : User)
    → bind_oidc_identity admin_id id issuer subject db ≡ ok next
    → find_user id db.users ≡ some u
    → normalize_issuer_url spelling ≡ normalize_issuer_url issuer
    → find_by_oidc_identity (normalize_issuer_url spelling) subject next ≡ (
        if is_active u.status
        then some (to_authenticated_user (bound issuer subject u) next)
        else none)
unfolding find_by_oidc_identity
bind-find_by_oidc_identity admin_id id issuer subject spelling db next u e found same =
    let (users, few) = bind-written admin_id id issuer subject db next u e found in
    let row : find_user id next.users ≡ some (bound issuer subject u) =
      rw users (find_user-update_self (bound issuer subject) id db.users u found refl) in
    let passes =
      find-eq-find_user (is_bound_to (normalize_issuer_url issuer) subject) id next.users
        (bound issuer subject u) few row
        (rw (eq_text_refl (normalize_issuer_url issuer)) (eq_text_refl subject)) in
    rw same (ground (arith, passes))
