-- ===== src/Identity/UserAdmin/Binding.antt =====
-- user-admin.service.ts: bound OIDC identities; `normalizeIssuerUrl` of oidc.strategy.ts.
use versi_go.Prelude.{
  ◌≤◌, ◌≡◌, refl, Text, Bool, true, none, some, List, [], ◌∷◌, arith, count, find,
}
use versi_go.Http.{ok}
use versi_go.Identity.{User, Database, find_user, update_user}
use versi_go.Identity.UserAdmin.{
  bind_oidc_identity, audit, write_user, with_binding, is_bound_to, normalize_issuer_url,
}

-- A row by its id is the row by a test that at most one row passes.
pub find-eq-find_user :
    (p : User → Bool) (id : Text) (users : List User) (u : User)
    → count p users ≤ 1
    → find_user id users ≡ some u
    → p u ≡ true
    → find p users ≡ some u
unfolding find_user
find-eq-find_user p id [] u few found passes = ground arith
find-eq-find_user p id (v ∷ rest) u few found passes =
    ground (arith, find-eq-find_user p id rest u, none_passes p rest, found-passes p id rest u)
  where
    none_passes : (p : User → Bool) (users : List User) → count p users ≡ 0 → find p users ≡ none
    none_passes p [] h = refl
    none_passes p (v ∷ rest) h = ground (arith, none_passes p rest)

    found-passes :
        (p : User → Bool) (id : Text) (users : List User) (u : User)
        → find_user id users ≡ some u
        → p u ≡ true
        → 1 ≤ count p users
    found-passes p id [] u h k = ground arith
    found-passes p id (v ∷ rest) u h k = ground (arith, found-passes p id rest u)

-- The account that was bound, as its row stands afterwards.
abbrev pub bound : Text → Text → User → User
bound issuer subject = with_binding (some (normalize_issuer_url issuer)) (some subject)

module _ (admin_id id issuer subject : Text) (db next : Database) (u : User) where
  pub bind-written :
      bind_oidc_identity admin_id id issuer subject db ≡ ok next
      → find_user id db.users ≡ some u
      → (next.users ≡ update_user id (bound issuer subject) db.users)
        × (count (is_bound_to (normalize_issuer_url issuer) subject) next.users ≤ 1)
  unfolding bind_oidc_identity write_user audit
  bind-written e found = ground arith
