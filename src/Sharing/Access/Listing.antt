-- ===== src/Sharing/Access/Listing.antt =====
-- auth.service.ts: which policies are listed as readable, and how the list agrees with the access.
use mathlib.Core.List.{Memᴰ}
use versi_go.Prelude.{
  ◌≡◌, ◌≢◌, ◌↔◌, inl, inr, refl, sym, ◌∙◌, Text, eq_text, eq_text_iff, eq_text_refl, Bool, true,
  false, ◌&&◌, Option, none, some, List, [], ◌∷◌, map, filter, any, any_iff, arith,
}
use versi_go.Http.{ok, err, thrown}
use versi_go.Identity.{read_only, has_membership}
use versi_go.Identity.Auth.{AuthenticatedUser}
use versi_go.Sharing.{category, ObjectShare, InsurancePolicy, SharingTables}
use versi_go.Sharing.Access.{
  is_null, is_read_share, is_in, is_type, is_shared_by, is_policy, is_listed, has_policy_read_share,
  assert_policy_read_access, get_readable_policy_ids,
}
use versi_go.Sharing.Access.Coverage.{IsSharedWith, HasKnownTypes, read_shares, is_shared_by_iff}
use versi_go.Sharing.Access.Queries.{query-ok, query-err}
use versi_go.Sharing.Access.Rules.{assert_policy_read_access_iff}

is_in-map :
    (x : Text) (p : InsurancePolicy → Bool) (xs : List InsurancePolicy)
    → is_in x (map (λ q. q.id) (filter p xs)) ≡ any (λ q. p q && eq_text x q.id) xs
is_in-map x p [] = refl
is_in-map x p (q ∷ xs) = ground (arith, is_in-map x p xs)

is_null_iff {ℓ} : {A : Type ℓ} (o : Option A) → (is_null o ≡ true) ↔ (o ≡ none)
is_null_iff none = (λ e. refl, λ e. refl)
is_null_iff (some a) = ground arith

module _ (user : AuthenticatedUser) (household_id : Text) (db : SharingTables)
    (known : HasKnownTypes household_id user.id db) (role : user.role ≡ read_only) where
  abbrev is_readable : InsurancePolicy → Bool
  is_readable p = is_listed household_id p && is_shared_by (read_shares household_id user.id db) p

  abbrev pub listed : List Text
  listed = map (λ p. p.id) (filter is_readable db.policies)

  listed_lem : get_readable_policy_ids user household_id db ≡ ok (some listed)
  unfolding get_readable_policy_ids
  listed_lem = ground (arith, query-ok household_id user.id db (is_listed household_id) known)

  is_readable_lem :
      (p : InsurancePolicy)
      → (is_readable p ≡ true) ↔ (
          (p.household_id ≡ household_id)
          × (p.archived_at ≡ none)
          × IsSharedWith household_id user.id db p)
  is_readable_lem p =
      let rule = is_shared_by_iff household_id user.id db p in
      let is_null_of = is_null_iff p.archived_at in
      (
        λ e. (
          ground (arith, eq_text_iff p.household_id household_id),
          is_null_of.0 (ground arith),
          rule.0 (ground arith),
        ),
        λ (housed, current, shared).
            rw (housed, eq_text_refl household_id, is_null_of.1 current, rule.1 shared) refl,
      )

  -- The list of readable policies of a READ_ONLY user holds exactly the ids of the policies of the
  -- household that are not archived and that a read share of the user covers. (Condition: the read
  -- shares of the user name only types that exist.)
  pub get_readable_policy_ids_lem :
      (ids : List Text) × (get_readable_policy_ids user household_id db ≡ ok (some ids))
      × ((policy_id : Text)
          → (is_in policy_id ids ≡ true) ↔ (
              (p : InsurancePolicy) × Memᴰ p db.policies
              × (p.id ≡ policy_id)
              × (p.household_id ≡ household_id)
              × (p.archived_at ≡ none)
              × IsSharedWith household_id user.id db p))
  get_readable_policy_ids_lem = (listed, listed_lem, λ policy_id. (into policy_id, from policy_id))
    where
      into :
          (policy_id : Text)
          → is_in policy_id listed ≡ true
          → (p : InsurancePolicy) × Memᴰ p db.policies
            × (p.id ≡ policy_id)
            × (p.household_id ≡ household_id)
            × (p.archived_at ≡ none)
            × IsSharedWith household_id user.id db p
      into policy_id e =
          let (p, m, both) =
            (any_iff (λ q. is_readable q && eq_text policy_id q.id) db.policies).0
              (sym (is_in-map policy_id is_readable db.policies) ∙ e) in
          let (housed, current, shared) = (is_readable_lem p).0 (ground arith) in
          (p, m, ground (arith, eq_text_iff policy_id p.id), housed, current, shared)

      from :
          (policy_id : Text)
          → (p : InsurancePolicy) × Memᴰ p db.policies
            × (p.id ≡ policy_id)
            × (p.household_id ≡ household_id)
            × (p.archived_at ≡ none)
            × IsSharedWith household_id user.id db p
          → is_in policy_id listed ≡ true
      from policy_id (p, m, named, housed, current, shared) =
          let readable = (is_readable_lem p).1 (housed, current, shared) in
          is_in-map policy_id is_readable db.policies
          ∙ (any_iff (λ q. is_readable q && eq_text policy_id q.id) db.policies).1
              (p, m, rw (readable, named, eq_text_refl policy_id) refl)

-- A READ_ONLY member reads a listed policy, and every policy that is readable and not archived is
-- listed: for a READ_ONLY member and an id of which no archived policy is known, the list and the
-- access agree. (Condition: the read shares of the user name only types that exist.)
pub list-iff-access :
    (user : AuthenticatedUser) (household_id policy_id : Text) (ids : List Text)
    (db : SharingTables)
    → HasKnownTypes household_id user.id db
    → user.role ≡ read_only
    → has_membership household_id user.id db.memberships ≡ true
    → ((p : InsurancePolicy) → Memᴰ p db.policies → p.id ≡ policy_id → p.archived_at ≡ none)
    → get_readable_policy_ids user household_id db ≡ ok (some ids)
    → (is_in policy_id ids ≡ true)
      ↔ (assert_policy_read_access user household_id policy_id db ≡ ok tt)
list-iff-access user household_id policy_id ids db known role member current listing =
    let (same, made, rule) = get_readable_policy_ids_lem user household_id db known role in
    let access = assert_policy_read_access_iff user household_id policy_id db known in
    let ids_same : ids ≡ same = ground arith in
    (
      λ e.
          let (p, m, named, housed, live, shared) = (rule policy_id).0 (rw (← ids_same) e) in
          access.1 (member, (p, m, named, housed, inr shared)),
      λ e.
          let (p, m, named, housed, why) = (access.0 e).1 in
          elim why [
            | inl other ↦ ground (arith, role)
            | inr shared ↦
                rw ids_same ((rule policy_id).1 (p, m, named, housed, current p m named, shared))
          ],
    )

-- One read share that names a type that does not exist makes every read access of a READ_ONLY member
-- to an existing policy fail with the database's error, and the list of readable policies too.
pub unknown_type-thrown :
    (user : AuthenticatedUser) (household_id policy_id : Text) (s : ObjectShare) (ref : Text)
    (db : SharingTables)
    → user.role ≡ read_only
    → has_membership household_id user.id db.memberships ≡ true
    → any (is_policy household_id policy_id) db.policies ≡ true
    → Memᴰ s db.shares
    → is_read_share household_id user.id s ≡ true
    → s.scope_type ≡ category
    → s.scope_ref ≡ some ref
    → ref ≢ []
    → is_type ref ≡ false
    → (assert_policy_read_access user household_id policy_id db
        ≡ err (thrown "PrismaClientValidationError"))
      × (get_readable_policy_ids user household_id db ≡ err (thrown "PrismaClientValidationError"))
unfolding assert_policy_read_access has_policy_read_share get_readable_policy_ids
unknown_type-thrown user household_id policy_id s ref db role member exists m grants scope has named
      unknown =
    let refused = λ (c : InsurancePolicy → Bool).
      query-err household_id user.id db s ref c m grants scope has named unknown in
    ground (arith, refused (is_policy household_id policy_id), refused (is_listed household_id))
