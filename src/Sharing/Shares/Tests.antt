-- ===== src/Sharing/Shares/Tests.antt =====
-- family-sharing.service.ts: shares made, changed and revoked at concrete tables.
use mathlib.Core.List.{Memᴰ}
use mathlib.Core.List.Memᴰ.{cases_cons}
use versi_go.Prelude.{
  ap, inl, inr, ◌≡◌, refl, ◌↔◌, Text, eq_text, codes, true, false, none, some, [], ◌∷◌, arith,
}
use versi_go.Http.{ok, err, bad_request, forbidden, commit, thrown}
use versi_go.Identity.{read_only, user, active, has_membership}
use versi_go.Identity.Auth.{AuthenticatedUser}
use versi_go.Sharing.{insurance, category, read, write, InsurancePolicy, kfz, SharingTables}
use versi_go.Sharing.Access.{
  refs_in, sources_in, query, has_policy_read_share, assert_policy_read_access,
  get_readable_policy_ids,
}
use versi_go.Sharing.Access.Coverage.{HasKnownTypes}
use versi_go.Sharing.Shares.{
  CreateShare, new_share, create, update, remove, set_permission, find_one, check_permission,
}
use versi_go.Sharing.Shares.Wellformed.{Reach-IsWellformed}
use versi_go.Sharing.Shares.Reachable.{
  create_step, remove_step, IsWellformed, Step, here, then_step,
}
use versi_go.Sharing.Shares.Effect.{remove-access, IsSharedOtherwise}

shares : Unit {0}
unfolding refs_in sources_in query has_policy_read_share assert_policy_read_access
    get_readable_policy_ids create update remove set_permission find_one check_permission eq_text
shares = tt

abbrev home : Text
home = codes "h"

abbrev owner : AuthenticatedUser
owner = record {
  id = codes "o";
  username = codes "o";
  display_name = codes "O";
  role = user;
  status = active;
  memberships = home ∷ [];
}

abbrev reader : AuthenticatedUser
reader = record {
  id = codes "r";
  username = codes "r";
  display_name = codes "R";
  role = read_only;
  status = active;
  memberships = home ∷ [];
}

abbrev tables : SharingTables
tables = record {
  memberships =
      record { household_id = home; user_id = codes "o" }
      ∷ record { household_id = home; user_id = codes "r" }
      ∷ [];
  policies =
      record {
        id = codes "p";
        household_id = home;
        owner_user_id = codes "o";
        policy_type = kfz;
        archived_at = none;
      }
      ∷ [];
  documents = [];
  shares = [];
  audit_events = [];
}

abbrev dto : CreateShare
dto = record {
  target_user_id = codes "r";
  scope_type = insurance;
  scope_ref = some (codes "p");
  permission = read;
}

abbrev shared : SharingTables
shared = unfold shares in commit tables (create (codes "s") home (codes "o") dto tables)

abbrev writable : SharingTables
writable = unfold shares in commit shared (update home (codes "o") (codes "s") write shared)

abbrev revoked : SharingTables
revoked = unfold shares in commit shared (remove home owner (codes "s") shared)

-- A CATEGORY share is taken with a ref that names no type.
runs :
    (create (codes "s") home (codes "o") dto tables ≡ ok shared)
    × (create (codes "t") home (codes "o") dto shared
        ≡ err (bad_request "Such a share already exists"))
    × (update home (codes "r") (codes "s") write shared
        ≡ err (forbidden "Only the owner can change the share"))
    × (remove home reader (codes "s") shared
        ≡ err (forbidden "Not authorized to revoke this share"))
    × (check_permission home (codes "r") (codes "o") insurance (codes "p") read shared ≡ true)
    × (check_permission home (codes "r") (codes "o") insurance (codes "p") write shared ≡ false)
    × (assert_policy_read_access reader home (codes "p") writable
        ≡ err (forbidden "No read share for this policy"))
    × (get_readable_policy_ids reader home (
          commit tables (
            create
              (codes "s")
              home
              (codes "o")
              (record dto { scope_type = category; scope_ref = some (codes "car") })
              tables))
        ≡ err (thrown "PrismaClientValidationError"))
unfolding shares
runs = (refl, refl, refl, refl, refl, refl, refl, refl)

start_IsWellformed : IsWellformed tables
start_IsWellformed = record { sound = tt; no_duplicate = λ h s t scope ref. omega arith }

created : Step tables shared
created = create_step (codes "s") home (codes "o") dto (unfold shares in refl)

removed : Step shared revoked
removed = remove_step home owner (codes "s") (unfold shares in refl)

Reach-IsWellformed_example : IsWellformed revoked
Reach-IsWellformed_example =
    Reach-IsWellformed (then_step (then_step here created) removed) start_IsWellformed

no_shares_known : HasKnownTypes home reader.id tables
no_shares_known s ref m grants types has named = elim m [ ]

shared_rows : shared.shares ≡ new_share (codes "s") home (codes "o") dto ∷ []
unfolding shares
shared_rows = refl

shared_known : HasKnownTypes home reader.id shared
shared_known s ref m grants types has named = elim (cases_cons (rw shared_rows at m)) [
  | inl e ↦ ground (arith, ap (λ x. x.scope_type) e)
  | inr later ↦ elim later [ ]
]

remove-access_example : (assert_policy_read_access reader home (codes "p") revoked ≡ ok tt) ↔ (
    (has_membership home reader.id shared.memberships ≡ true)
    × ((p : InsurancePolicy) × Memᴰ p shared.policies
        × (p.id ≡ codes "p")
        × (p.household_id ≡ home)
        × IsSharedOtherwise home reader.id (codes "s") shared p))
remove-access_example =
    remove-access home (codes "s") (codes "p") owner reader shared revoked (unfold shares in refl)
      shared_known refl
