-- ===== src/Sharing/Shares/Effect.antt =====
-- family-sharing.service.ts and auth.service.ts: what a new share grants and what its revocation takes.
use mathlib.Core.List.{Memᴰ}
use mathlib.Core.List.Memᴰ.{cases_cons}
use versi_go.Prelude.{
  mem-filter, ◌≡◌, ◌≢◌, ◌↔◌, inl, inr, refl, sym, ap, Text, eq_text_iff, true, some, [], ◌∷◌,
  filter, find, any_iff, Option-cases, arith,
}
use versi_go.Http.{ok}
use versi_go.Identity.{read_only, has_membership}
use versi_go.Identity.Auth.{AuthenticatedUser}
use versi_go.Sharing.{insurance, read, ObjectShare, InsurancePolicy, SharingTables}
use versi_go.Sharing.Access.{is_policy, assert_policy_read_access}
use versi_go.Sharing.Access.Coverage.{Covers, by_id, IsSharedWith, HasKnownTypes}
use versi_go.Sharing.Access.Rules.{MayRead, assert_policy_read_access_iff}
use versi_go.Sharing.Shares.{CreateShare, new_share, is_share, is_other, create, remove}

known-create :
    (household_id user_id : Text) (db next : SharingTables) (share : ObjectShare)
    → next.shares ≡ share ∷ db.shares
    → share.scope_type ≡ insurance
    → HasKnownTypes household_id user_id db
    → HasKnownTypes household_id user_id next
known-create household_id user_id db next share rows scope known s ref m grants types has named =
    elim (cases_cons (rw rows at m)) [
      | inl new ↦ ground (arith, ap (λ x. x.scope_type) new)
      | inr old ↦ known s ref old grants types has named
    ]

-- A member to whom a policy of the household was just shared with READ may read it, whatever the
-- member's role. (Condition: the member's read shares name only types that exist.)
pub create-access :
    (new_id household_id user_id policy_id : Text) (dto : CreateShare) (db next : SharingTables)
    (target : AuthenticatedUser)
    → create new_id household_id user_id dto db ≡ ok next
    → dto.scope_type ≡ insurance
    → dto.scope_ref ≡ some policy_id
    → dto.permission ≡ read
    → target.id ≡ dto.target_user_id
    → HasKnownTypes household_id target.id db
    → assert_policy_read_access target household_id policy_id next ≡ ok tt
unfolding create
create-access new_id household_id user_id policy_id dto db next target e scope ref permission
      is_target known =
    let share = new_share new_id household_id user_id dto in
    let members : next.memberships ≡ db.memberships = ground arith in
    let policies : next.policies ≡ db.policies = ground arith in
    let rows : next.shares ≡ share ∷ db.shares = ground arith in
    let named : policy_id ≢ [] = λ empty. ground arith in
    let (p, m, is_it) : (p : InsurancePolicy) × Memᴰ p db.policies
        × (is_policy household_id policy_id p ≡ true) =
      (any_iff (is_policy household_id policy_id) db.policies).0 (ground arith) in
    (assert_policy_read_access_iff target household_id policy_id next
        (known-create household_id target.id db next share rows scope known)).1
      (
        ground arith,
        (
          p,
          rw policies m,
          ground (arith, eq_text_iff p.id policy_id),
          ground (arith, eq_text_iff p.household_id household_id),
          inr (
            share,
            rw rows (Memᴰ.head refl),
            refl,
            sym is_target,
            permission,
            by_id scope (ground (arith, eq_text_iff p.id policy_id))
                (λ empty. ground (arith, eq_text_iff p.id policy_id)),
          ),
        ),
      )

known-remove :
    (household_id user_id share_id : Text) (db next : SharingTables)
    → next.shares ≡ filter (is_other share_id) db.shares
    → HasKnownTypes household_id user_id db
    → HasKnownTypes household_id user_id next
known-remove household_id user_id share_id db next rows known s ref m grants types has named =
    known s ref ((mem-filter (is_other share_id) s db.shares).0 (rw rows at m)).0 grants types has
      named

remove-tables :
    (household_id share_id : Text) (actor : AuthenticatedUser) (db next : SharingTables)
    → remove household_id actor share_id db ≡ ok next
    → (next.memberships ≡ db.memberships)
      × (next.policies ≡ db.policies)
      × (next.shares ≡ filter (is_other share_id) db.shares)
unfolding remove
remove-tables household_id share_id actor db next e =
    elim (Option-cases (find (is_share household_id share_id) db.shares)) [
      | inl missing ↦ ground arith
      | inr (s, found) ↦ ground arith
    ]

-- A read share of the household for the user, other than the one with that id, covers the policy.
abbrev pub IsSharedOtherwise : Text → Text → Text → SharingTables → InsurancePolicy → Type 0
IsSharedOtherwise household_id user_id share_id db p =
    (s : ObjectShare) × Memᴰ s db.shares
    × (s.id ≢ share_id)
    × (s.household_id ≡ household_id)
    × (s.target_user_id ≡ user_id)
    × (s.permission ≡ read)
    × Covers s p

stays-shared :
    (household_id user_id share_id : Text) (db next : SharingTables) (p : InsurancePolicy)
    → next.shares ≡ filter (is_other share_id) db.shares
    → IsSharedWith household_id user_id next p
      ↔ IsSharedOtherwise household_id user_id share_id db p
stays-shared household_id user_id share_id db next p rows = (
  λ (s, listed, housed, targeted, may, covered).
      let (stays, is_not) = (mem-filter (is_other share_id) s db.shares).0 (rw rows at listed) in
      (s, stays, λ same. ground (arith, eq_text_iff s.id share_id), housed, targeted, may, covered),
  λ (s, listed, is_not, housed, targeted, may, covered). (
    s,
    rw rows (
        (mem-filter (is_other share_id) s db.shares).1
          (listed, ground (arith, eq_text_iff s.id share_id))),
    housed,
    targeted,
    may,
    covered,
  ),
)

-- After the revocation of a share a READ_ONLY user reads exactly the policies of the household that
-- another read share, one with another id, covers: the revoked one counts at once no more. (Condition:
-- the user's read shares name only types that exist.)
pub remove-access :
    (household_id share_id policy_id : Text) (actor user : AuthenticatedUser)
    (db next : SharingTables)
    → remove household_id actor share_id db ≡ ok next
    → HasKnownTypes household_id user.id db
    → user.role ≡ read_only
    → (assert_policy_read_access user household_id policy_id next ≡ ok tt) ↔ (
        (has_membership household_id user.id db.memberships ≡ true)
        × ((p : InsurancePolicy) × Memᴰ p db.policies
            × (p.id ≡ policy_id)
            × (p.household_id ≡ household_id)
            × IsSharedOtherwise household_id user.id share_id db p))
remove-access household_id share_id policy_id actor user db next e known role =
    let (members, policies, rows) = remove-tables household_id share_id actor db next e in
    rule members policies rows (
      assert_policy_read_access_iff user household_id policy_id next
        (known-remove household_id user.id share_id db next rows known))
  where
    rule :
        (members : next.memberships ≡ db.memberships) (policies : next.policies ≡ db.policies)
        (rows : next.shares ≡ filter (is_other share_id) db.shares)
        (access : (assert_policy_read_access user household_id policy_id next ≡ ok tt) ↔ (
          (has_membership household_id user.id next.memberships ≡ true)
          × MayRead user household_id policy_id next))
        → (assert_policy_read_access user household_id policy_id next ≡ ok tt) ↔ (
            (has_membership household_id user.id db.memberships ≡ true)
            × ((p : InsurancePolicy) × Memᴰ p db.policies
                × (p.id ≡ policy_id)
                × (p.household_id ≡ household_id)
                × IsSharedOtherwise household_id user.id share_id db p))
    rule members policies rows access = (
      λ reads.
          let (member, (p, m, named, housed, why)) = access.0 reads in
          elim why [
            | inl other ↦ ground (arith, role)
            | inr shared ↦ (
              rw (← members) member,
              (
                p,
                rw (← policies) m,
                named,
                housed,
                (stays-shared household_id user.id share_id db next p rows).0 shared,
              ),
            )
          ],
      λ (member, (p, m, named, housed, shared)). access.1 (
        rw members member,
        (
          p,
          rw policies m,
          named,
          housed,
          inr ((stays-shared household_id user.id share_id db next p rows).1 shared),
        ),
      ),
    )
