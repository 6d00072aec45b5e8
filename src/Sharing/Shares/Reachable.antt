-- ===== src/Sharing/Shares/Reachable.antt =====
-- apps/api/src/features/family-sharing/family-sharing.service.ts: well-formed tables, and the tables that
-- successful operations reach.
use versi_go.Prelude.{◌≤◌, ◌≡◌, Text, eq_text, true, false, not, Option, List, count, All}
use versi_go.Http.{ok}
use versi_go.Identity.{has_membership, HouseholdMembership}
use versi_go.Identity.Auth.{AuthenticatedUser}
use versi_go.Sharing.{
  ShareScopeType, all_owned, SharePermission, ObjectShare, SharingTables, eq_scope, is_set,
}
use versi_go.Sharing.Shares.{CreateShare, is_same_share, create, update, remove}

-- A share passes between two different members of its household, and names an object exactly where
-- its scope is not all that the source owns.
pub record IsSound (memberships : List HouseholdMembership) (s : ObjectShare) : Type 0 where
  pub source : has_membership s.household_id s.source_user_id memberships ≡ true
  pub target : has_membership s.household_id s.target_user_id memberships ≡ true
  pub distinct : eq_text s.target_user_id s.source_user_id ≡ false
  pub named : is_set s.scope_ref ≡ not (eq_scope s.scope_type all_owned)

-- No two shares agree in household, source, target, scope and ref.
abbrev pub HasNoDuplicate : List ObjectShare → Type 0
HasNoDuplicate shares =
    (household_id source target : Text) (scope : ShareScopeType) (ref : Option Text)
    → count (is_same_share household_id source target scope ref) shares ≤ 1

pub record IsWellformed (db : SharingTables) : Type 0 where
  pub sound : All (IsSound db.memberships) db.shares
  pub no_duplicate : HasNoDuplicate db.shares

pub data Step (db next : SharingTables) : Type 0 where
  create_step :
      (new_id household_id user_id : Text) (dto : CreateShare)
      → create new_id household_id user_id dto db ≡ ok next
      → Step db next
  update_step :
      (household_id user_id share_id : Text) (permission : SharePermission)
      → update household_id user_id share_id permission db ≡ ok next
      → Step db next
  remove_step :
      (household_id : Text) (user : AuthenticatedUser) (share_id : Text)
      → remove household_id user share_id db ≡ ok next
      → Step db next

pub data Reach (db : SharingTables) : SharingTables → Type 0 where
  here : Reach db db
  then_step : {next last : SharingTables} → Reach db next → Step next last → Reach db last
