-- ===== src/Identity.antt =====
-- apps/api/src/features/identity: the rows that its services keep (prisma/schema.prisma), and how they
-- read and write one row.
pub mod UserAdmin
pub mod Lookup
pub mod Auth
pub mod RateLimiter
use versi_go.Prelude.{
  ℕ, Text, eq_text, codes, String, Bool, true, false, ◌&&◌, Option, none, some, List, [], ◌∷◌, ◌++◌,
  if◌then◌else◌, find,
}
use versi_go.Http.{Result, ok, err, HttpError}

pub data GlobalRole : Type 0 where
  read_only user admin : GlobalRole

pub data UserStatus : Type 0 where
  active disabled pending_approval : UserStatus

-- A row of `users`, with the hash of its `credential` row (a one-to-one relation) as a column.
pub record User : Type 0 where
  pub id : Text
  pub username : Text
  pub display_name : Text
  pub role : GlobalRole
  pub status : UserStatus
  pub oidc_issuer : Option Text
  pub oidc_subject : Option Text
  pub credential : Option Text

pub record HouseholdMembership : Type 0 where
  pub household_id : Text
  pub user_id : Text

pub record AuditEvent : Type 0 where
  pub actor_user_id : Option Text
  pub entity_type : String
  pub entity_id : Text
  pub action : String
  pub diff : List (String × Text)

-- The tables that the identity services write.
pub record Database : Type 0 where
  pub users : List User
  pub households : List Text
  pub memberships : List HouseholdMembership
  pub audit_events : List AuditEvent

abbrev pub is_admin : GlobalRole → Bool
is_admin admin = true
is_admin user = false
is_admin read_only = false

abbrev pub eq_role : GlobalRole → GlobalRole → Bool
eq_role read_only read_only = true
eq_role user user = true
eq_role admin admin = true
eq_role _ _ = false

abbrev pub is_active : UserStatus → Bool
is_active active = true
is_active disabled = false
is_active pending_approval = false

abbrev pub is_disabled : UserStatus → Bool
is_disabled active = false
is_disabled disabled = true
is_disabled pending_approval = false

abbrev pub is_pending : UserStatus → Bool
is_pending active = false
is_pending disabled = false
is_pending pending_approval = true

-- `user.findUnique({ where: { id } })`
unfoldable pub find_user : Text → List User → Option User
find_user id [] = none
find_user id (u ∷ rest) = let later = find_user id rest in if eq_text u.id id then some u else later

-- `user.update({ where: { id }, data })`, which writes the one row with that id.
unfoldable pub update_user : Text → (User → User) → List User → List User
update_user id data_of [] = []
update_user id data_of (u ∷ rest) =
    let later = update_user id data_of rest in
    if eq_text u.id id then data_of u ∷ rest else u ∷ later

abbrev pub has_membership : Text → Text → List HouseholdMembership → Bool
has_membership household_id user_id [] = false
has_membership household_id user_id (m ∷ rest) =
    let later = has_membership household_id user_id rest in
    if eq_text m.household_id household_id && eq_text m.user_id user_id then true else later

-- The value, or the error that the code throws at `null`.
abbrev pub or_throw {ℓ} : {A : Type ℓ} → Option A → HttpError → Result A
or_throw (some a) e = ok a
or_throw none e = err e
