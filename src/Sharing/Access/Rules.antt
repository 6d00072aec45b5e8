-- ===== src/Sharing/Access/Rules.antt =====
-- auth.service.ts: which policies a user may read, and which are listed for the user.
use mathlib.Core.List.{Memᴰ}
use versi_go.Prelude.{
  ◌≡◌, ◌↔◌, ◌⊎◌, inl, inr, refl, ap, Text, eq_text_iff, Bool, true, false, ◌&&◌, List, [], ◌∷◌,
  filter, any, any_iff, arith,
}
use versi_go.Http.{ok}
use versi_go.Identity.{has_membership}
use versi_go.Identity.Auth.{AuthenticatedUser}
use versi_go.Sharing.{InsurancePolicy, SharingTables, is_read_only}
use versi_go.Sharing.Access.{
  is_found, is_shared_by, is_policy, has_policy_read_share, assert_policy_read_access,
}
use versi_go.Sharing.Access.Coverage.{IsSharedWith, HasKnownTypes, read_shares, is_shared_by_iff}
use versi_go.Sharing.Access.Queries.{query-ok}

-- Some policy of the household with that id.
is_found-filter {ℓ} : {A : Type ℓ} (p : A → Bool) (xs : List A) → is_found (filter p xs) ≡ any p xs
is_found-filter p [] = refl
is_found-filter p (x ∷ xs) = ground (arith, is_found-filter p xs)

-- The policies that a user may read: of the household, and for READ_ONLY only what is shared.
abbrev pub MayRead : AuthenticatedUser → Text → Text → SharingTables → Type 0
MayRead user household_id policy_id db =
    (p : InsurancePolicy) × Memᴰ p db.policies
    × (p.id ≡ policy_id)
    × (p.household_id ≡ household_id)
    × ((is_read_only user.role ≡ false) ⊎ IsSharedWith household_id user.id db p)

module _ (user : AuthenticatedUser) (household_id policy_id : Text) (db : SharingTables)
    (known : HasKnownTypes household_id user.id db) where
  abbrev is_shared_policy : InsurancePolicy → Bool
  is_shared_policy p =
      is_policy household_id policy_id p && is_shared_by (read_shares household_id user.id db) p

  share_lem :
      has_policy_read_share household_id user.id policy_id db
      ≡ ok (any is_shared_policy db.policies)
  unfolding has_policy_read_share
  share_lem =
      rw (query-ok household_id user.id db (is_policy household_id policy_id) known)
        (ap ok (is_found-filter is_shared_policy db.policies))

  is_policy_lem :
      (p : InsurancePolicy)
      → (is_policy household_id policy_id p ≡ true)
        ↔ ((p.id ≡ policy_id) × (p.household_id ≡ household_id))
  is_policy_lem p =
      ground (arith, eq_text_iff p.id policy_id, eq_text_iff p.household_id household_id)

  -- The access as the outcomes of the three queries.
  assert_lem : (assert_policy_read_access user household_id policy_id db ≡ ok tt) ↔ (
      (has_membership household_id user.id db.memberships ≡ true)
      × (any (is_policy household_id policy_id) db.policies ≡ true)
      × ((is_read_only user.role ≡ false) ⊎ (any is_shared_policy db.policies ≡ true)))
  unfolding assert_policy_read_access
  assert_lem = ground (arith, share_lem)

  may_read :
      ((any (is_policy household_id policy_id) db.policies ≡ true)
        × ((is_read_only user.role ≡ false) ⊎ (any is_shared_policy db.policies ≡ true)))
      ↔ MayRead user household_id policy_id db
  may_read = (into, from)
    where
      into :
          (any (is_policy household_id policy_id) db.policies ≡ true)
            × ((is_read_only user.role ≡ false) ⊎ (any is_shared_policy db.policies ≡ true))
          → MayRead user household_id policy_id db
      into (found, inl role) =
          let (p, m, e) = (any_iff (is_policy household_id policy_id) db.policies).0 found in
          let (named, housed) = (is_policy_lem p).0 e in (p, m, named, housed, inl role)
      into (found, inr shared) =
          let (p, m, e) = (any_iff is_shared_policy db.policies).0 shared in
          let (named, housed) = (is_policy_lem p).0 (ground arith) in
          (p, m, named, housed, inr ((is_shared_by_iff household_id user.id db p).0 (ground arith)))

      from :
          MayRead user household_id policy_id db
          → (any (is_policy household_id policy_id) db.policies ≡ true)
            × ((is_read_only user.role ≡ false) ⊎ (any is_shared_policy db.policies ≡ true))
      from (p, m, named, housed, why) =
          let is_it = (is_policy_lem p).1 (named, housed) in
          (
            (any_iff (is_policy household_id policy_id) db.policies).1 (p, m, is_it),
            elim why [
              | inl role ↦ inl role
              | inr shared ↦
                  let by_share = (is_shared_by_iff household_id user.id db p).1 shared in
                  inr ((any_iff is_shared_policy db.policies).1 (p, m, rw (is_it, by_share) refl))
            ],
          )

  -- A user may read a policy exactly when the user is a member of the household, the policy is one of
  -- that household, and a READ_ONLY user has a read share that covers it. (Condition: the read
  -- shares of the user name only types that exist.)
  pub assert_policy_read_access_iff :
      (assert_policy_read_access user household_id policy_id db ≡ ok tt) ↔ (
        (has_membership household_id user.id db.memberships ≡ true)
        × MayRead user household_id policy_id db)
  assert_policy_read_access_iff = (
    λ e. let (member, found, why) = assert_lem.0 e in (member, may_read.0 (found, why)),
    λ (member, allowed). let (found, why) = may_read.1 allowed in assert_lem.1 (member, found, why),
  )
