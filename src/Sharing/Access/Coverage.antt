-- ===== src/Sharing/Access/Coverage.antt =====
-- auth.service.ts: when a share covers a policy, as a rule and as the lists of refs that the code makes.
use mathlib.Core.List.{Memᴰ}
use versi_go.Prelude.{
  ◌≡◌, ◌≢◌, ◌↔◌, refl, sym, ap, ◌∙◌, Text, eq_text, eq_text_iff, eq_text_refl, Bool, true, ◌&&◌,
  ◌||◌, Option, none, some, List, [], ◌∷◌, filter, any, any_iff, any-filter, any-or, arith,
}
use versi_go.Sharing.{
  ShareScopeType, insurance, document, category, all_owned, PolicyType, haftpflicht, hausrat,
  rechtsschutz, kfz, wohngebaeude, unfall, leben, berufsunfaehigkeit, rentenversicherung,
  krankenversicherung, krankenversicherung_ausland, sonstige, read, ObjectShare, InsurancePolicy,
  type_name, SharingTables, eq_scope, is_set,
}
use versi_go.Sharing.Access.{
  or_empty, is_read_share, refs_in, sources_in, is_in, is_type, is_shared_by,
}

-- A share covers a policy that it names, a policy of the type that it names, or, where it shares all
-- that its source owns, a policy of its source.
pub data Covers (s : ObjectShare) (p : InsurancePolicy) : Type 0 where
  by_id : s.scope_type ≡ insurance → s.scope_ref ≡ some p.id → p.id ≢ [] → Covers s p
  by_type : s.scope_type ≡ category → s.scope_ref ≡ some (type_name p.policy_type) → Covers s p
  by_owner : s.scope_type ≡ all_owned → s.source_user_id ≡ p.owner_user_id → Covers s p

-- The same, as a test.
abbrev covers : InsurancePolicy → ObjectShare → Bool
covers p s =
    (eq_scope s.scope_type insurance && is_set s.scope_ref && eq_text p.id (or_empty s.scope_ref))
    || (eq_scope s.scope_type category
        && is_set s.scope_ref
        && eq_text (type_name p.policy_type) (or_empty s.scope_ref))
    || (eq_scope s.scope_type all_owned && eq_text p.owner_user_id s.source_user_id)

pub any-refs_in :
    (f : Text → Bool) (scope : ShareScopeType) (shares : List ObjectShare)
    → any f (refs_in scope shares)
      ≡ any
          (λ s. eq_scope s.scope_type scope && is_set s.scope_ref && f (or_empty s.scope_ref))
          shares
unfolding refs_in
any-refs_in f scope [] = refl
any-refs_in f scope (s ∷ rest) = ground (arith, any-refs_in f scope rest)

is_in-sources_in :
    (x : Text) (shares : List ObjectShare)
    → is_in x (sources_in shares)
      ≡ any (λ s. eq_scope s.scope_type all_owned && eq_text x s.source_user_id) shares
unfolding sources_in
is_in-sources_in x [] = refl
is_in-sources_in x (s ∷ rest) = ground (arith, is_in-sources_in x rest)

is_shared_by-eq :
    (shares : List ObjectShare) (p : InsurancePolicy)
    → is_shared_by shares p ≡ any (covers p) shares
is_shared_by-eq shares p =
    rw
      (
        any-refs_in (eq_text p.id) insurance shares,
        any-refs_in (eq_text (type_name p.policy_type)) category shares,
        is_in-sources_in p.owner_user_id shares,
      )
      (any-or _ _ _ shares)

type_name-is_set : (t : PolicyType) → is_set (some (type_name t)) ≡ true
type_name-is_set haftpflicht = refl
type_name-is_set hausrat = refl
type_name-is_set rechtsschutz = refl
type_name-is_set kfz = refl
type_name-is_set wohngebaeude = refl
type_name-is_set unfall = refl
type_name-is_set leben = refl
type_name-is_set berufsunfaehigkeit = refl
type_name-is_set rentenversicherung = refl
type_name-is_set krankenversicherung = refl
type_name-is_set krankenversicherung_ausland = refl
type_name-is_set sonstige = refl

-- The test by the scope and the ref of the share.
covers_at :
    (p : InsurancePolicy) (s : ObjectShare) (scope : ShareScopeType) (ref : Option Text)
    → s.scope_type ≡ scope
    → s.scope_ref ≡ ref
    → covers p s ≡ true
    → Covers s p
covers_at p s insurance none h k e = ground arith
covers_at p s insurance (some []) h k e = ground arith
covers_at p s insurance (some (c ∷ t)) h k e =
    let same : p.id ≡ c ∷ t = ground (arith, eq_text_iff p.id (c ∷ t)) in
    by_id h (k ∙ ap some (sym same)) (λ empty. ground arith)
covers_at p s category none h k e = ground arith
covers_at p s category (some t) h k e =
    by_type h (ground (arith, eq_text_iff (type_name p.policy_type) t))
covers_at p s all_owned ref h k e =
    by_owner h (ground (arith, eq_text_iff p.owner_user_id s.source_user_id))
covers_at p s document ref h k e = ground arith

covers_complete : (p : InsurancePolicy) (s : ObjectShare) → Covers s p → covers p s ≡ true
covers_complete p s (by_id scope ref named) = ground (arith, eq_text_refl p.id)
covers_complete p s (by_type scope ref) =
    ground (arith, eq_text_refl (type_name p.policy_type), type_name-is_set p.policy_type)
covers_complete p s (by_owner scope source) = ground (arith, eq_text_refl p.owner_user_id)

covers_iff : (p : InsurancePolicy) (s : ObjectShare) → (covers p s ≡ true) ↔ Covers s p
covers_iff p s = (covers_at p s s.scope_type s.scope_ref refl refl, covers_complete p s)

-- The household's read shares for a user.
abbrev pub read_shares : Text → Text → SharingTables → List ObjectShare
read_shares household_id user_id db = filter (is_read_share household_id user_id) db.shares

-- Some read share of the household for the user covers the policy.
abbrev pub IsSharedWith : Text → Text → SharingTables → InsurancePolicy → Type 0
IsSharedWith household_id user_id db p =
    (s : ObjectShare) × Memᴰ s db.shares
    × (s.household_id ≡ household_id)
    × (s.target_user_id ≡ user_id)
    × (s.permission ≡ read)
    × Covers s p

-- No read share of the household for the user names a type that there is not.
abbrev pub HasKnownTypes : Text → Text → SharingTables → Type 0
HasKnownTypes household_id user_id db =
    (s : ObjectShare) (ref : Text)
    → Memᴰ s db.shares
    → is_read_share household_id user_id s ≡ true
    → s.scope_type ≡ category
    → s.scope_ref ≡ some ref
    → ref ≢ []
    → is_type ref ≡ true

is_read_share_iff :
    (household_id user_id : Text) (s : ObjectShare)
    → (is_read_share household_id user_id s ≡ true)
      ↔ ((s.household_id ≡ household_id) × (s.target_user_id ≡ user_id) × (s.permission ≡ read))
is_read_share_iff household_id user_id s =
    ground (arith, eq_text_iff s.household_id household_id, eq_text_iff s.target_user_id user_id)

pub is_shared_by_iff :
    (household_id user_id : Text) (db : SharingTables) (p : InsurancePolicy)
    → (is_shared_by (read_shares household_id user_id db) p ≡ true)
      ↔ IsSharedWith household_id user_id db p
is_shared_by_iff household_id user_id db p =
    let as_any : is_shared_by (read_shares household_id user_id db) p
        ≡ any (λ s. is_read_share household_id user_id s && covers p s) db.shares =
      is_shared_by-eq (read_shares household_id user_id db) p
      ∙ any-filter (covers p) (is_read_share household_id user_id) db.shares in
    (
      λ e.
          let (s, m, both) =
            (any_iff (λ s. is_read_share household_id user_id s && covers p s) db.shares).0
              (sym as_any ∙ e) in
          let (h, t, r) = (is_read_share_iff household_id user_id s).0 (ground arith) in
          (s, m, h, t, r, (covers_iff p s).0 (ground arith)),
      λ (s, m, h, t, r, c).
          as_any
          ∙ (any_iff (λ s. is_read_share household_id user_id s && covers p s) db.shares).1 (
            s,
            m,
            ground (arith, is_read_share_iff household_id user_id s, covers_complete p s c),
          ),
    )
