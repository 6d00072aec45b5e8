-- ===== src/Sharing/Shares/Wellformed.antt =====
-- family-sharing.service.ts: what holds of the shares of every household, over every sequence of
-- operations.
use versi_go.Prelude.{
  ◌≡◌, inl, inr, refl, Text, eq_text, eq_text_iff, Bool, true, false, Option, none, some, List, [],
  ◌∷◌, filter, find, any, count, count-filter-le, count-none, if◌then◌else◌, All, Option-cases,
  Bool-cases, arith,
}
use versi_go.Http.{ok}
use versi_go.Identity.{HouseholdMembership}
use versi_go.Identity.Auth.{AuthenticatedUser}
use versi_go.Sharing.{
  ShareScopeType, insurance, document, category, all_owned, SharePermission, ObjectShare,
  SharingTables, eq_scope, eq_ref,
}
use versi_go.Sharing.Shares.{
  is_share, CreateShare, new_share, is_same_share, is_other, set_permission, create, update, remove,
}
use versi_go.Sharing.Shares.Reachable.{
  create_step, update_step, remove_step, IsSound, IsWellformed, Reach, here, then_step,
}

count-set_permission :
    (household_id source target : Text) (scope : ShareScopeType) (ref : Option Text)
    (share_id : Text) (permission : SharePermission) (xs : List ObjectShare)
    → count
        (is_same_share household_id source target scope ref)
        (set_permission share_id permission xs)
      ≡ count (is_same_share household_id source target scope ref) xs
unfolding set_permission
count-set_permission household_id source target scope ref share_id permission [] = refl
count-set_permission household_id source target scope ref share_id permission (x ∷ xs) =
    ground (arith, count-set_permission household_id source target scope ref share_id permission xs)

IsSound-filter :
    (m : List HouseholdMembership) (f : ObjectShare → Bool) (xs : List ObjectShare)
    → All (IsSound m) xs
    → All (IsSound m) (filter f xs)
IsSound-filter m f [] h = tt
IsSound-filter m f (x ∷ xs) (h, hs) = elim (Bool-cases (f x)) [
  | inl keep ↦ rw keep (h, IsSound-filter m f xs hs)
  | inr drop ↦ rw drop (IsSound-filter m f xs hs)
]

IsSound-set_permission :
    (m : List HouseholdMembership) (share_id : Text) (permission : SharePermission)
    (xs : List ObjectShare)
    → All (IsSound m) xs
    → All (IsSound m) (set_permission share_id permission xs)
unfolding set_permission
IsSound-set_permission m share_id permission [] h = tt
IsSound-set_permission m share_id permission (x ∷ xs) (h, hs) =
    (kept, IsSound-set_permission m share_id permission xs hs)
  where
    kept : IsSound m (if eq_text x.id share_id then record x { permission = permission } else x)
    kept = elim (Bool-cases (eq_text x.id share_id)) [
      | inl it ↦
          rw it (record {
            source = h.source;
            target = h.target;
            distinct = h.distinct;
            named = h.named;
          })
      | inr other ↦ rw other h
    ]

eq_scope_lem : (a b : ShareScopeType) → eq_scope a b ≡ true → a ≡ b
eq_scope_lem insurance b e = ground arith
eq_scope_lem document b e = ground arith
eq_scope_lem category b e = ground arith
eq_scope_lem all_owned b e = ground arith

eq_ref_lem : (a b : Option Text) → eq_ref a b ≡ true → a ≡ b
eq_ref_lem none none e = refl
eq_ref_lem none (some b) e = ground arith
eq_ref_lem (some a) none e = ground arith
eq_ref_lem (some a) (some b) e = ground (arith, eq_text_iff a b)

module _ (new_id household_id user_id : Text) (dto : CreateShare) where
  -- A key that the new share has is the one that was looked for.
  new-count :
      (household source target : Text) (scope : ShareScopeType) (ref : Option Text)
      (xs : List ObjectShare)
      → is_same_share household source target scope ref (new_share new_id household_id user_id dto)
        ≡ true
      → any (is_same_share household_id user_id dto.target_user_id dto.scope_type dto.scope_ref) xs
        ≡ false
      → count (is_same_share household source target scope ref) xs ≡ 0
  new-count household source target scope ref xs same unused =
      let scopes = eq_scope_lem dto.scope_type scope (ground arith) in
      let refs = eq_ref_lem dto.scope_ref ref (ground arith) in
      let households : household_id ≡ household =
        ground (arith, eq_text_iff household_id household) in
      let sources : user_id ≡ source = ground (arith, eq_text_iff user_id source) in
      let targets : dto.target_user_id ≡ target =
        ground (arith, eq_text_iff dto.target_user_id target) in
      rw (← scopes, ← refs, ← households, ← sources, ← targets)
        (count-none
          (is_same_share household_id user_id dto.target_user_id dto.scope_type dto.scope_ref) xs
          unused)

module _ (db next : SharingTables) (w : IsWellformed db) where
  create-IsWellformed :
      (new_id household_id user_id : Text) (dto : CreateShare)
      → create new_id household_id user_id dto db ≡ ok next
      → IsWellformed next
  unfolding create
  create-IsWellformed new_id household_id user_id dto e =
      let members : next.memberships ≡ db.memberships = ground arith in
      let rows : next.shares ≡ new_share new_id household_id user_id dto ∷ db.shares =
        ground arith in
      let unused : any
            (is_same_share household_id user_id dto.target_user_id dto.scope_type dto.scope_ref)
            db.shares
          ≡ false =
        ground arith in
      record {
        sound =
            rw (members, rows)
              (
                record {
                  source = ground arith;
                  target = ground arith;
                  distinct = ground arith;
                  named = ground arith;
                },
                w.sound,
              );
        no_duplicate = λ household source target scope ref. rw rows (
            ground (
              arith,
              w.no_duplicate household source target scope ref,
              new-count new_id household_id user_id dto household source target scope ref db.shares,
            ));
      }

  update-IsWellformed :
      (household_id user_id share_id : Text) (permission : SharePermission)
      → update household_id user_id share_id permission db ≡ ok next
      → IsWellformed next
  unfolding update
  update-IsWellformed household_id user_id share_id permission e =
      let (members, rows) : (next.memberships ≡ db.memberships)
          × (next.shares ≡ set_permission share_id permission db.shares) =
        elim (Option-cases (find (is_share household_id share_id) db.shares)) [
          | inl missing ↦ ground arith
          | inr (s, found) ↦ ground arith
        ] in
      record {
        sound =
            rw (members, rows)
              (IsSound-set_permission db.memberships share_id permission db.shares w.sound);
        no_duplicate = λ household source target scope ref.
            rw
              (
                rows,
                count-set_permission household source target scope ref share_id permission
                    db.shares,
              )
              (w.no_duplicate household source target scope ref);
      }

  remove-IsWellformed :
      (household_id : Text) (user : AuthenticatedUser) (share_id : Text)
      → remove household_id user share_id db ≡ ok next
      → IsWellformed next
  unfolding remove
  remove-IsWellformed household_id user share_id e =
      let (members, rows) : (next.memberships ≡ db.memberships)
          × (next.shares ≡ filter (is_other share_id) db.shares) =
        elim (Option-cases (find (is_share household_id share_id) db.shares)) [
          | inl missing ↦ ground arith
          | inr (s, found) ↦ ground arith
        ] in
      record {
        sound =
            rw (members, rows)
              (IsSound-filter db.memberships (is_other share_id) db.shares w.sound);
        no_duplicate = λ household source target scope ref. rw rows (
            omega (
              arith,
              w.no_duplicate household source target scope ref,
              count-filter-le (is_same_share household source target scope ref) (is_other share_id)
                  db.shares,
            ));
      }

-- Whatever successful operations on shares follow one another, every share stays one between two
-- different members of its household that names an object exactly where its scope asks for one, and
-- no two shares agree in household, source, target, scope and ref.
pub Reach-IsWellformed :
    {db last : SharingTables} → Reach db last → IsWellformed db → IsWellformed last
Reach-IsWellformed here w = w
Reach-IsWellformed (then_step {next = next} {last = last} reach step) w =
    let kept = Reach-IsWellformed reach w in
    elim step [
      | create_step new_id household_id user_id dto e ↦
          create-IsWellformed next last kept new_id household_id user_id dto e
      | update_step household_id user_id share_id permission e ↦
          update-IsWellformed next last kept household_id user_id share_id permission e
      | remove_step household_id user share_id e ↦
          remove-IsWellformed next last kept household_id user share_id e
    ]
