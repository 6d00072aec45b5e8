-- ===== src/Identity/UserAdmin/Tests.antt =====
-- user-admin.service.ts: concrete runs, and the properties at them.
use versi_go.Prelude.{
  ℕ, zero, suc, ◌≡◌, refl, Text, codes, eq_text, trim, true, false, none, some, List, [], ◌∷◌, ◌++◌,
  arith, count,
}
use versi_go.Http.{Result, ok, err, conflict}
use versi_go.Identity.{
  GlobalRole, user, admin, UserStatus, active, disabled, pending_approval, User, AuditEvent,
  Database, find_user, update_user,
}
use versi_go.Identity.UserAdmin.{
  approve, reject, disable_in, enable, set_role_in, bind_oidc_identity, audit, write_user,
  join_default_household, with_role, assert_not_last_active_admin, is_active_admin, Attempt, p2034,
  runs_on, run_attempts, run_serializable, disable, set_role, normalize_issuer_url,
}
use versi_go.Identity.UserAdmin.LastAdmin.{
  approve_step, disable_step, role_step, Reach, here, then_step, active_admins, HasActiveAdmin,
  Reach-HasActiveAdmin,
}
use versi_go.Identity.UserAdmin.Trail.{status_in, replay_status}
use versi_go.Identity.UserAdmin.Lifecycle.{Reach-replay_status}
use versi_go.Identity.UserAdmin.Retry.{succeeds, set_role-inactive_admin}

admin_runs : Unit {0}
unfolding approve reject disable enable set_role bind_oidc_identity run_serializable run_attempts
    disable_in set_role_in find_user update_user audit write_user join_default_household
    replay_status normalize_issuer_url trim eq_text assert_not_last_active_admin
admin_runs = tt

abbrev account : Text → GlobalRole → UserStatus → User
account id role status = record {
  id = id;
  username = id;
  display_name = id;
  role = role;
  status = status;
  oidc_issuer = none;
  oidc_subject = none;
  credential = some (codes "hash");
}

abbrev ann : Text
ann = codes "ann"

abbrev bob : Text
bob = codes "bob"

abbrev eve : Text
eve = codes "eve"

-- An active administrator, a disabled one, and an account that waits for its approval.
abbrev house : Database
house = record {
  users =
      account ann admin active
      ∷ account bob admin disabled
      ∷ account eve user pending_approval
      ∷ [];
  households = codes "default" ∷ [];
  memberships = [];
  audit_events = [];
}

-- The tables behind a result, which is no exception in these runs.
abbrev or_house : Result Database → Database
or_house (ok db) = db
or_house (err e) = house

abbrev approved : Database
approved = unfold admin_runs in or_house (approve ann eve house)

abbrev promoted : Database
promoted = unfold admin_runs in or_house (set_role_in ann eve admin approved)

abbrev retired : Database
retired = unfold admin_runs in or_house (disable_in eve ann promoted)

-- Approval, promotion, and the first administrator's retirement.
path : Reach house retired
unfolding admin_runs
path =
    then_step
      (then_step (then_step here (approve_step ann eve refl)) (role_step ann eve admin refl))
      (disable_step eve ann refl)

last_admin_is_kept :
    (succeeds (disable bob ann (λ n. runs_on house)) ≡ false)
    × (succeeds (disable ann ann (λ n. runs_on promoted)) ≡ false)
    × (succeeds (disable eve ann (λ n. runs_on promoted)) ≡ true)
    × (active_admins retired ≡ 1)
    × (normalize_issuer_url (codes " https://idp// ") ≡ codes "https://idp")
unfolding admin_runs
last_admin_is_kept = (refl, refl, refl, refl, refl)

Reach-HasActiveAdmin_example : HasActiveAdmin retired
Reach-HasActiveAdmin_example = Reach-HasActiveAdmin path (omega arith)

Reach-replay_status_example :
    (events : List AuditEvent) × (retired.audit_events ≡ house.audit_events ++ events)
    × ((j : Text) → status_in j retired.users ≡ replay_status events j (status_in j house.users))
Reach-replay_status_example = Reach-replay_status path

abbrev busy_once : ℕ → Attempt
busy_once zero = p2034
busy_once (suc zero) = p2034
busy_once (suc (suc n)) = runs_on house

abbrev ann_row : User
ann_row = account ann admin active

abbrev bob_row : User
bob_row = account bob admin disabled

found_rows : (find_user ann house.users ≡ some ann_row) × (find_user bob house.users ≡ some bob_row)
unfolding find_user eq_text
found_rows = (refl, refl)

set_role-inactive_admin_example :
    (set_role_in ann bob user house
      ≡ err (conflict "The last active administrator cannot be changed"))
    × (count is_active_admin (update_user bob (with_role user) house.users) ≡ active_admins house)
set_role-inactive_admin_example =
    set_role-inactive_admin ann bob user house bob_row found_rows.1 refl (λ e. cc e) (λ e. cc e)
      (omega arith)
