-- ===== src/Sharing/Access.antt =====
-- auth.service.ts: who may read a policy. `type: { in: refs }` is a condition on an enum column, which
-- Prisma refuses for a value that is no member of the enum.
pub mod Coverage
pub mod Queries
pub mod Rules
pub mod Listing
mod Tests
use versi_go.Prelude.{
  Text, eq_text, Bool, true, false, not, ◌&&◌, ◌||◌, Option, none, some, List, [], ◌∷◌,
  if◌then◌else◌, map, filter, any,
}
use versi_go.Http.{Result, ok, err, HttpError, forbidden, not_found, thrown, require, ◌>>=◌, ◌>>◌}
use versi_go.Identity.{HouseholdMembership, has_membership}
use versi_go.Identity.Auth.{AuthenticatedUser}
use versi_go.Sharing.{
  ShareScopeType, insurance, category, all_owned, read, ObjectShare, InsurancePolicy, PolicyType,
  type_name, all_types, SharingTables, eq_scope, eq_permission, is_read_only, is_set,
}

-- `user.memberships` is not consulted, only the table.
abbrev pub or_empty : Option Text → Text
or_empty none = []
or_empty (some t) = t

abbrev pub is_null {ℓ} : {A : Type ℓ} → Option A → Bool
is_null none = true
is_null (some a) = false

-- The condition of both `objectShare.findMany` calls.
abbrev pub is_read_share : Text → Text → ObjectShare → Bool
is_read_share household_id target_user_id s =
    eq_text s.household_id household_id
    && eq_text s.target_user_id target_user_id
    && eq_permission s.permission read

-- `insuranceRefs` and `categoryRefs`: the refs that are set of the shares of a scope.
unfoldable pub refs_in : ShareScopeType → List ObjectShare → List Text
refs_in scope [] = []
refs_in scope (s ∷ rest) =
    let later = refs_in scope rest in
    if eq_scope s.scope_type scope && is_set s.scope_ref
    then or_empty s.scope_ref ∷ later
    else later

-- `allOwnedSources`
unfoldable pub sources_in : List ObjectShare → List Text
sources_in [] = []
sources_in (s ∷ rest) =
    let later = sources_in rest in
    if eq_scope s.scope_type all_owned then s.source_user_id ∷ later else later

abbrev pub is_nil : List Text → Bool
is_nil [] = true
is_nil (x ∷ xs) = false

-- `x in xs`
abbrev pub is_in : Text → List Text → Bool
is_in x xs = any (eq_text x) xs

abbrev pub is_type : Text → Bool
is_type ref = any (λ t. eq_text ref (type_name t)) all_types

-- The condition `OR` of both policy queries.
abbrev pub is_shared_by : List ObjectShare → InsurancePolicy → Bool
is_shared_by shares p =
    is_in p.id (refs_in insurance shares)
    || is_in (type_name p.policy_type) (refs_in category shares)
    || is_in p.owner_user_id (sources_in shares)

-- A policy query with that condition. The early return on three empty lists asks nothing.
unfoldable pub query :
    List ObjectShare
    → (InsurancePolicy → Bool)
    → List InsurancePolicy
    → Result (List InsurancePolicy)
query shares condition policies =
    if is_nil (refs_in insurance shares)
      && is_nil (refs_in category shares)
      && is_nil (sources_in shares)
    then ok []
    else if any (λ ref. not (is_type ref)) (refs_in category shares)
    then err (thrown "PrismaClientValidationError")
    else ok (filter (λ p. condition p && is_shared_by shares p) policies)

abbrev pub is_policy : Text → Text → InsurancePolicy → Bool
is_policy household_id policy_id p = eq_text p.id policy_id && eq_text p.household_id household_id

abbrev pub is_listed : Text → InsurancePolicy → Bool
is_listed household_id p = eq_text p.household_id household_id && is_null p.archived_at

abbrev pub is_found {ℓ} : {A : Type ℓ} → List A → Bool
is_found [] = false
is_found (x ∷ xs) = true

unfoldable pub has_policy_read_share : Text → Text → Text → SharingTables → Result Bool
has_policy_read_share household_id target_user_id policy_id db = do
  let shares = filter (is_read_share household_id target_user_id) db.shares
  found ← query shares (is_policy household_id policy_id) db.policies
  ok (is_found found)

unfoldable pub assert_policy_read_access :
    AuthenticatedUser → Text → Text → SharingTables → Result (Unit {0})
assert_policy_read_access user household_id policy_id db = do
  require (has_membership household_id user.id db.memberships)
      (forbidden "Isolation: no access to a foreign household")
  require (any (is_policy household_id policy_id) db.policies) (not_found "Policy not found")
  if is_read_only user.role
      then (has_policy_read_share household_id user.id policy_id db >>= λ readable.
          require readable (forbidden "No read share for this policy"))
      else ok tt

-- `none` stands for `null`, all policies of the household.
unfoldable pub get_readable_policy_ids :
    AuthenticatedUser → Text → SharingTables → Result (Option (List Text))
get_readable_policy_ids user household_id db =
    let shares = filter (is_read_share household_id user.id) db.shares in
    if not (is_read_only user.role)
    then ok none
    else (query shares (is_listed household_id) db.policies >>= λ found.
        ok (some (map (λ p. p.id) found)))
