-- ===== src/Sharing/Shares.antt =====
-- family-sharing.service.ts: creating, changing and revoking shares. A transaction is a function to
-- the new tables; the id of a new row, which the database draws, is an argument. In the diff of an
-- audit entry a null stands as its JSON text.
pub mod Wellformed
pub mod Effect
mod Tests
pub mod Reachable
use versi_go.Prelude.{
  Text, eq_text, codes, String, Bool, true, false, not, ◌&&◌, ◌||◌, Option, none, some, List, [],
  ◌∷◌, ◌++◌, if◌then◌else◌, filter, find, any,
}
use versi_go.Http.{
  Result, ok, err, HttpError, bad_request, forbidden, not_found, require, refuse, ◌>>=◌, ◌>>◌,
}
use versi_go.Identity.{GlobalRole, is_admin, AuditEvent, has_membership, or_throw}
use versi_go.Identity.Auth.{AuthenticatedUser}
use versi_go.Sharing.{
  ShareScopeType, insurance, document, category, all_owned, SharePermission, read, write,
  ObjectShare, InsurancePolicy, PolicyDocument, PolicyType, type_name, SharingTables, eq_scope,
  eq_permission, is_read_only, eq_ref, is_set,
}
use versi_go.Sharing.Access.{or_empty, is_policy}

pub record CreateShare : Type 0 where
  pub target_user_id : Text
  pub scope_type : ShareScopeType
  pub scope_ref : Option Text
  pub permission : SharePermission

abbrev scope_name : ShareScopeType → Text
scope_name insurance = codes "INSURANCE"
scope_name document = codes "DOCUMENT"
scope_name category = codes "CATEGORY"
scope_name all_owned = codes "ALL_OWNED"

abbrev permission_name : SharePermission → Text
permission_name read = codes "READ"
permission_name write = codes "WRITE"

abbrev json_ref : Option Text → Text
json_ref none = codes "null"
json_ref (some t) = t

abbrev pub share_event : Text → Text → String → List (String × Text) → AuditEvent
share_event actor share_id action diff = record {
  actor_user_id = some actor;
  entity_type = "ObjectShare";
  entity_id = share_id;
  action = action;
  diff = diff;
}

abbrev pub assert_household_access : Text → Text → SharingTables → Result (Unit {0})
assert_household_access household_id user_id db =
    require (has_membership household_id user_id db.memberships)
      (forbidden "Isolation: no access to a foreign household")

-- A document with that id, of a policy of the household.
abbrev pub is_document : Text → Text → SharingTables → PolicyDocument → Bool
is_document household_id document_id db d =
    eq_text d.id document_id
    && any (λ p. eq_text p.id d.policy_id && eq_text p.household_id household_id) db.policies

-- The columns that make a second share a duplicate.
abbrev pub is_same_share : Text → Text → Text → ShareScopeType → Option Text → ObjectShare → Bool
is_same_share household_id source_user_id target_user_id scope_type scope_ref s =
    eq_text s.household_id household_id
    && eq_text s.source_user_id source_user_id
    && eq_text s.target_user_id target_user_id
    && eq_scope s.scope_type scope_type
    && eq_ref s.scope_ref scope_ref

abbrev pub new_share : Text → Text → Text → CreateShare → ObjectShare
new_share new_id household_id user_id dto = record {
  id = new_id;
  household_id = household_id;
  source_user_id = user_id;
  target_user_id = dto.target_user_id;
  scope_type = dto.scope_type;
  scope_ref = dto.scope_ref;
  permission = dto.permission;
}

unfoldable pub create : Text → Text → Text → CreateShare → SharingTables → Result SharingTables
create new_id household_id user_id dto db = do
  assert_household_access household_id user_id db
  require (has_membership household_id dto.target_user_id db.memberships)
      (bad_request "Target user is not a member of this household")
  refuse (eq_text dto.target_user_id user_id)
      (bad_request "Sharing with yourself is not meaningful")
  refuse (not (eq_scope dto.scope_type all_owned) && not (is_set dto.scope_ref))
      (bad_request "scopeRef is required for this scopeType")
  refuse (eq_scope dto.scope_type all_owned && is_set dto.scope_ref)
      (bad_request "scopeRef must not be set for ALL_OWNED")
  refuse
      (eq_scope dto.scope_type insurance
        && not (any (is_policy household_id (or_empty dto.scope_ref)) db.policies))
      (not_found "Policy not found")
  refuse
      (eq_scope dto.scope_type document
        && not (any (is_document household_id (or_empty dto.scope_ref) db) db.documents))
      (not_found "Document not found")
  refuse
      (any (is_same_share household_id user_id dto.target_user_id dto.scope_type dto.scope_ref)
        db.shares)
      (bad_request "Such a share already exists")
  ok (record db {
    shares = new_share new_id household_id user_id dto ∷ db.shares;
    audit_events =
        db.audit_events
        ++ share_event user_id new_id "CREATE" (
            ("targetUserId", dto.target_user_id)
            ∷ ("scopeType", scope_name dto.scope_type)
            ∷ ("scopeRef", json_ref dto.scope_ref)
            ∷ ("permission", permission_name dto.permission)
            ∷ [])
          ∷ [];
  })

-- `objectShare.findFirst({ where: { id, householdId } })`
abbrev pub is_share : Text → Text → ObjectShare → Bool
is_share household_id share_id s = eq_text s.id share_id && eq_text s.household_id household_id

-- `objectShare.update({ where: { id }, data: { permission } })`
unfoldable pub set_permission : Text → SharePermission → List ObjectShare → List ObjectShare
set_permission share_id permission [] = []
set_permission share_id permission (s ∷ rest) =
    (if eq_text s.id share_id then record s { permission = permission } else s)
    ∷ set_permission share_id permission rest

unfoldable pub update : Text → Text → Text → SharePermission → SharingTables → Result SharingTables
update household_id user_id share_id permission db = do
  assert_household_access household_id user_id db
  share ← or_throw (find (is_share household_id share_id) db.shares) (not_found "Share not found")
  require (eq_text share.source_user_id user_id) (forbidden "Only the owner can change the share")
  ok (record db {
    shares = set_permission share_id permission db.shares;
    audit_events =
        db.audit_events
        ++ share_event user_id share_id "UPDATE" (
            ("oldPermission", permission_name share.permission)
            ∷ ("newPermission", permission_name permission)
            ∷ [])
          ∷ [];
  })

-- `objectShare.delete({ where: { id } })` leaves the shares with another id.
abbrev pub is_other : Text → ObjectShare → Bool
is_other share_id s = not (eq_text s.id share_id)

unfoldable pub remove : Text → AuthenticatedUser → Text → SharingTables → Result SharingTables
remove household_id user share_id db = do
  assert_household_access household_id user.id db
  share ← or_throw (find (is_share household_id share_id) db.shares) (not_found "Share not found")
  require (eq_text share.source_user_id user.id || is_admin user.role)
      (forbidden "Not authorized to revoke this share")
  ok (record db {
    shares = filter (is_other share_id) db.shares;
    audit_events =
        db.audit_events
        ++ share_event user.id share_id "DELETE" (
            ("sourceUserId", share.source_user_id)
            ∷ ("targetUserId", share.target_user_id)
            ∷ ("scopeType", scope_name share.scope_type)
            ∷ ("scopeRef", json_ref share.scope_ref)
            ∷ ("permission", permission_name share.permission)
            ∷ [])
          ∷ [];
  })

unfoldable pub find_one : Text → AuthenticatedUser → Text → SharingTables → Result ObjectShare
find_one household_id user share_id db = do
  assert_household_access household_id user.id db
  share ← or_throw (find (is_share household_id share_id) db.shares) (not_found "Share not found")
  refuse
      (is_read_only user.role
        && not (eq_text share.source_user_id user.id)
        && not (eq_text share.target_user_id user.id))
      (forbidden "Not authorized to view this share")
  ok share

-- The policy with that id, whose type a CATEGORY share names.
abbrev is_type_of : Text → Option Text → InsurancePolicy → Bool
is_type_of policy_id scope_ref p =
    eq_text p.id policy_id && eq_ref scope_ref (some (type_name p.policy_type))

-- One round of the loop of `checkPermission`, with the policies for its lookup.
abbrev pub permits : ShareScopeType → Text → List InsurancePolicy → ObjectShare → Bool
permits scope_type scope_ref policies share =
    if eq_scope share.scope_type all_owned
    then true
    else if eq_scope share.scope_type scope_type && eq_ref share.scope_ref (some scope_ref)
    then true
    else (eq_scope share.scope_type category
        && eq_scope scope_type insurance
        && any (is_type_of scope_ref share.scope_ref) policies)

unfoldable pub check_permission :
    Text → Text → Text → ShareScopeType → Text → SharePermission → SharingTables → Bool
check_permission household_id requesting_user_id owner_user_id scope_type scope_ref required db =
    if eq_text requesting_user_id owner_user_id
    then true
    else any (permits scope_type scope_ref db.policies) (
        filter
          (λ s.
            eq_text s.household_id household_id
            && eq_text s.source_user_id owner_user_id
            && eq_text s.target_user_id requesting_user_id
            && eq_permission s.permission required)
          db.shares)
