-- ===== src/Sharing.antt =====
-- apps/api/src/features/family-sharing, and the read access of apps/api/src/features/identity that
-- rests on its shares: the rows of prisma/schema.prisma that they read and write.
pub mod Access
pub mod Shares
use versi_go.Prelude.{
  ℕ, Text, eq_text, codes, Bool, true, false, ◌&&◌, Option, none, some, List, [], ◌∷◌,
  if◌then◌else◌, is_empty,
}
use versi_go.Identity.{HouseholdMembership, AuditEvent, GlobalRole, read_only, user, admin}

pub data ShareScopeType : Type 0 where
  insurance document category all_owned : ShareScopeType

pub data SharePermission : Type 0 where
  read write : SharePermission

pub record ObjectShare : Type 0 where
  pub id : Text
  pub household_id : Text
  pub source_user_id : Text
  pub target_user_id : Text
  pub scope_type : ShareScopeType
  pub scope_ref : Option Text
  pub permission : SharePermission

pub data PolicyType : Type 0 where
  haftpflicht hausrat rechtsschutz kfz wohngebaeude unfall leben berufsunfaehigkeit
        rentenversicherung krankenversicherung krankenversicherung_ausland sonstige :
      PolicyType

abbrev pub type_name : PolicyType → Text
type_name haftpflicht = codes "HAFTPFLICHT"
type_name hausrat = codes "HAUSRAT"
type_name rechtsschutz = codes "RECHTSSCHUTZ"
type_name kfz = codes "KFZ"
type_name wohngebaeude = codes "WOHNGEBAEUDE"
type_name unfall = codes "UNFALL"
type_name leben = codes "LEBEN"
type_name berufsunfaehigkeit = codes "BERUFSUNFAEHIGKEIT"
type_name rentenversicherung = codes "RENTENVERSICHERUNG"
type_name krankenversicherung = codes "KRANKENVERSICHERUNG"
type_name krankenversicherung_ausland = codes "KRANKENVERSICHERUNG_AUSLAND"
type_name sonstige = codes "SONSTIGE"

abbrev pub all_types : List PolicyType
all_types =
    haftpflicht ∷ hausrat ∷ rechtsschutz ∷ kfz ∷ wohngebaeude ∷ unfall ∷ leben ∷ berufsunfaehigkeit
    ∷ rentenversicherung ∷ krankenversicherung ∷ krankenversicherung_ausland ∷ sonstige ∷ []

-- The columns of a policy that access depends on.
pub record InsurancePolicy : Type 0 where
  pub id : Text
  pub household_id : Text
  pub owner_user_id : Text
  pub policy_type : PolicyType
  pub archived_at : Option ℕ

pub record PolicyDocument : Type 0 where
  pub id : Text
  pub policy_id : Text

pub record SharingTables : Type 0 where
  pub memberships : List HouseholdMembership
  pub policies : List InsurancePolicy
  pub documents : List PolicyDocument
  pub shares : List ObjectShare
  pub audit_events : List AuditEvent

abbrev pub eq_scope : ShareScopeType → ShareScopeType → Bool
eq_scope insurance insurance = true
eq_scope document document = true
eq_scope category category = true
eq_scope all_owned all_owned = true
eq_scope _ _ = false

abbrev pub eq_permission : SharePermission → SharePermission → Bool
eq_permission read read = true
eq_permission write write = true
eq_permission _ _ = false

abbrev pub is_read_only : GlobalRole → Bool
is_read_only read_only = true
is_read_only user = false
is_read_only admin = false

-- `a === b` for a column that may be null.
abbrev pub eq_ref : Option Text → Option Text → Bool
eq_ref none none = true
eq_ref (some a) (some b) = eq_text a b
eq_ref _ _ = false

-- A scopeRef that is neither null nor empty.
abbrev pub is_set : Option Text → Bool
is_set none = false
is_set (some t) = if is_empty t then false else true
