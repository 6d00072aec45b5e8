-- ===== src/Sharing/Access/Tests.antt =====
-- auth.service.ts: read access at concrete tables.
use mathlib.Core.List.{Memᴰ}
use mathlib.Core.List.Memᴰ.{cases_cons}
use versi_go.Prelude.{
  ℕ, ap, ◌∙◌, ◌≡◌, refl, sym, ◌↔◌, inl, inr, Text, eq_text, codes, true, Option, none, some, [],
  ◌∷◌, arith,
}
use versi_go.Http.{ok, err, thrown, forbidden}
use versi_go.Identity.{read_only, active, has_membership}
use versi_go.Identity.Auth.{AuthenticatedUser}
use versi_go.Sharing.{category, read, ObjectShare, InsurancePolicy, kfz, SharingTables}
use versi_go.Sharing.Access.{
  refs_in, sources_in, query, has_policy_read_share, assert_policy_read_access,
  get_readable_policy_ids, is_in, is_type,
}
use versi_go.Sharing.Access.Coverage.{HasKnownTypes}
use versi_go.Sharing.Access.Rules.{MayRead, assert_policy_read_access_iff}
use versi_go.Sharing.Access.Listing.{list-iff-access, unknown_type-thrown}

access : Unit {0}
unfolding refs_in sources_in query has_policy_read_share assert_policy_read_access
    get_readable_policy_ids eq_text
access = tt

abbrev home : Text
home = codes "h"

abbrev reader : AuthenticatedUser
reader = record {
  id = codes "r";
  username = codes "r";
  display_name = codes "R";
  role = read_only;
  status = active;
  memberships = home ∷ [];
}

abbrev policy : Text → Option ℕ → InsurancePolicy
policy id archived_at = record {
  id = id;
  household_id = home;
  owner_user_id = codes "o";
  policy_type = kfz;
  archived_at = archived_at;
}

abbrev share_of : Text → Option Text → ObjectShare
share_of id scope_ref = record {
  id = id;
  household_id = home;
  source_user_id = codes "o";
  target_user_id = codes "r";
  scope_type = category;
  scope_ref = scope_ref;
  permission = read;
}

abbrev tables : Text → SharingTables
tables type_ref = record {
  memberships = record { household_id = home; user_id = codes "r" } ∷ [];
  policies = policy (codes "p") none ∷ policy (codes "q") (some 5) ∷ [];
  documents = [];
  shares = share_of (codes "s") (some type_ref) ∷ [];
  audit_events = [];
}

-- A policy type that exists, and one that does not; the archived policy can be read and is not listed.
runs :
    (assert_policy_read_access reader home (codes "p") (tables (codes "KFZ")) ≡ ok tt)
    × (assert_policy_read_access reader home (codes "q") (tables (codes "KFZ")) ≡ ok tt)
    × (assert_policy_read_access reader home (codes "p") (tables (codes "HAUSRAT"))
        ≡ err (forbidden "No read share for this policy"))
    × (get_readable_policy_ids reader home (tables (codes "KFZ")) ≡ ok (some (codes "p" ∷ [])))
    × (get_readable_policy_ids reader home (tables (codes "car"))
        ≡ err (thrown "PrismaClientValidationError"))
unfolding access
runs = (refl, refl, refl, refl, refl)

kfz_is_type : is_type (codes "KFZ") ≡ true
unfolding access
kfz_is_type = refl

known : HasKnownTypes home reader.id (tables (codes "KFZ"))
known s ref m grants types has named = elim (cases_cons m) [
  | inl e ↦
      let same : some ref ≡ some (codes "KFZ") = sym has ∙ ap (λ x. x.scope_ref) e in
      let ref_is : ref ≡ codes "KFZ" = ground arith in rw ref_is kfz_is_type
  | inr later ↦ elim later [ ]
]

assert_policy_read_access_iff_example :
    (assert_policy_read_access reader home (codes "p") (tables (codes "KFZ")) ≡ ok tt) ↔ (
      (has_membership home reader.id (tables (codes "KFZ")).memberships ≡ true)
      × MayRead reader home (codes "p") (tables (codes "KFZ")))
assert_policy_read_access_iff_example =
    assert_policy_read_access_iff reader home (codes "p") (tables (codes "KFZ")) known

p_is_current :
    (p : InsurancePolicy)
    → Memᴰ p (tables (codes "KFZ")).policies
    → p.id ≡ codes "p"
    → p.archived_at ≡ none
p_is_current p m named = elim (cases_cons m) [
  | inl e ↦ ap (λ x. x.archived_at) e
  | inr later ↦ elim (cases_cons later) [
    | inl e ↦ ground (arith, ap (λ x. x.id) e)
    | inr none_left ↦ elim none_left [ ]
  ]
]

list-iff-access_example :
    (is_in (codes "p") (codes "p" ∷ []) ≡ true)
    ↔ (assert_policy_read_access reader home (codes "p") (tables (codes "KFZ")) ≡ ok tt)
list-iff-access_example =
    list-iff-access reader home (codes "p") (codes "p" ∷ []) (tables (codes "KFZ")) known refl
      (unfold access in refl) p_is_current (unfold access in refl)

unknown_type-thrown_example :
    (assert_policy_read_access reader home (codes "p") (tables (codes "car"))
      ≡ err (thrown "PrismaClientValidationError"))
    × (get_readable_policy_ids reader home (tables (codes "car"))
        ≡ err (thrown "PrismaClientValidationError"))
unknown_type-thrown_example =
    unknown_type-thrown reader home (codes "p") (share_of (codes "s") (some (codes "car")))
      (codes "car") (tables (codes "car")) refl (unfold access in refl) (unfold access in refl)
      (Memᴰ.head refl) (unfold access in refl) refl refl (λ empty. ground arith)
      (unfold access in refl)
