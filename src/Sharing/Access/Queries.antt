-- ===== src/Sharing/Access/Queries.antt =====
-- auth.service.ts: the outcome of a policy query, and the refs that make it fail.
use mathlib.Core.List.{Memᴰ}
use versi_go.Prelude.{
  ◌≡◌, ◌≢◌, inl, inr, refl, sym, ◌∙◌, Text, eq_text, Bool, true, false, not, ◌&&◌, Option, none,
  some, List, [], ◌∷◌, filter, any, any_iff, any-filter, filter-false, Bool-cases, arith,
}
use versi_go.Http.{ok, err, thrown}
use versi_go.Sharing.{
  ShareScopeType, insurance, document, category, all_owned, ObjectShare, InsurancePolicy, type_name,
  SharingTables, eq_scope, is_set,
}
use versi_go.Sharing.Access.{
  or_empty, is_nil, is_read_share, refs_in, sources_in, is_type, is_shared_by, query,
}
use versi_go.Sharing.Access.Coverage.{any-refs_in, read_shares, HasKnownTypes}

eq_scope-category : (scope : ShareScopeType) → eq_scope scope category ≡ true → scope ≡ category
eq_scope-category insurance e = ground arith
eq_scope-category document e = ground arith
eq_scope-category category e = refl
eq_scope-category all_owned e = ground arith

set_ref :
    (ref : Option Text) → is_set ref ≡ true → (ref ≡ some (or_empty ref)) × (or_empty ref ≢ [])
set_ref none e = ground arith
set_ref (some []) e = ground arith
set_ref (some (c ∷ t)) e = (refl, λ empty. ground arith)

-- The query refuses no ref where every type is known.
any-unknown :
    (household_id user_id : Text) (db : SharingTables)
    → HasKnownTypes household_id user_id db
    → any (λ ref. not (is_type ref)) (refs_in category (read_shares household_id user_id db))
      ≡ false
any-unknown household_id user_id db known =
    elim (Bool-cases
      (any (λ ref. not (is_type ref)) (refs_in category (read_shares household_id user_id db)))) [
        | inr none_unknown ↦ none_unknown
        | inl h ↦
            let (s, m, both) = (any_iff _ db.shares).0 (
              sym (
                any-refs_in (λ ref. not (is_type ref)) category
                  (read_shares household_id user_id db)
                ∙ any-filter _ (is_read_share household_id user_id) db.shares)
              ∙ h) in
            let (has_ref, named) = set_ref s.scope_ref (ground arith) in
            ground (
              arith,
              known s (or_empty s.scope_ref) m (ground arith)
                  (eq_scope-category s.scope_type (ground arith)) has_ref named,
            )
      ]

is_nil-any : (f : Text → Bool) (xs : List Text) → is_nil xs ≡ true → any f xs ≡ false
is_nil-any f [] e = refl
is_nil-any f (x ∷ xs) e = ground arith

pub query-ok :
    (household_id user_id : Text) (db : SharingTables) (condition : InsurancePolicy → Bool)
    → HasKnownTypes household_id user_id db
    → query (read_shares household_id user_id db) condition db.policies
      ≡ ok (
          filter
            (λ p. condition p && is_shared_by (read_shares household_id user_id db) p)
            db.policies)
unfolding query
query-ok household_id user_id db condition known =
    let shares = read_shares household_id user_id db in
    elim (Bool-cases (
      is_nil (refs_in insurance shares)
      && is_nil (refs_in category shares)
      && is_nil (sources_in shares))) [
        | inl nil ↦
            rw
              (
                nil,
                filter-false (λ p. condition p && is_shared_by shares p) db.policies
                    (λ p. ground (
                      arith,
                      is_nil-any (eq_text p.id) (refs_in insurance shares),
                      is_nil-any (eq_text (type_name p.policy_type)) (refs_in category shares),
                      is_nil-any (eq_text p.owner_user_id) (sources_in shares),
                    )),
              )
              refl
        | inr asks ↦ rw (asks, any-unknown household_id user_id db known) refl
      ]

is_nil-some : (f : Text → Bool) (xs : List Text) → any f xs ≡ true → is_nil xs ≡ false
is_nil-some f [] e = ground arith
is_nil-some f (x ∷ xs) e = refl

-- The query refuses a ref that names no type.
pub query-err :
    (household_id user_id : Text) (db : SharingTables) (s : ObjectShare) (ref : Text)
    (condition : InsurancePolicy → Bool)
    → Memᴰ s db.shares
    → is_read_share household_id user_id s ≡ true
    → s.scope_type ≡ category
    → s.scope_ref ≡ some ref
    → ref ≢ []
    → is_type ref ≡ false
    → query (read_shares household_id user_id db) condition db.policies
      ≡ err (thrown "PrismaClientValidationError")
unfolding query
query-err household_id user_id db s ref condition m grants scope has named unknown =
    let shares = read_shares household_id user_id db in
    let refuses : Text → Bool = λ r. not (is_type r) in
    let some_unknown : any refuses (refs_in category shares) ≡ true =
      any-refs_in refuses category shares
      ∙ any-filter _ (is_read_share household_id user_id) db.shares
      ∙ (any_iff _ db.shares).1
          (s, m, rw (grants, scope, has, unknown, named_is_set ref named) refl) in
    ground (arith, is_nil-some refuses (refs_in category shares) some_unknown, some_unknown)
  where
    named_is_set : (t : Text) → t ≢ [] → is_set (some t) ≡ true
    named_is_set [] h = ground arith
    named_is_set (c ∷ t) h = refl
