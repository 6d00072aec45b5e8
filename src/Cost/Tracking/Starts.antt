-- ===== src/Cost/Tracking/Starts.antt =====
-- cost-tracking.service.ts: no two entries of a policy begin at the same time.
use versi_go.Prelude.{
  count-filter-le, count-none, ◌+◌, ◌≤◌, ◌≡◌, ◌⊎◌, inl, inr, refl, sym, ap, ◌∙◌, Text, eq_text,
  eq_text_iff, Bool, true, false, Option, none, some, List, [], ◌∷◌, ◌++◌, filter, find, any, count,
  Bool-cases, Option-cases, arith,
}
use versi_go.Http.{ok, Result-cases}
use versi_go.Identity.Lookup.{bit}
use versi_go.Cost.Calendar.{Date}
use versi_go.Cost.Money.{Doubles}
use versi_go.Cost.Tracking.{
  column, PolicyCostEntry, CostTables, CreateCostEntry, UpdateCostEntry, collides,
  restore_predecessor, assert_no_valid_from_collision,
}
use versi_go.Cost.Tracking.Service.{
  settle_valid_to, new_row, is_row, changed_row, update_row, resynchronize, is_other, create,
  update, remove, or_old,
}
use versi_go.Cost.Tracking.Takeover.{create-rows}
use versi_go.Cost.Tracking.Counts.{
  has_id, IgnoresEnd, bit-le, count-end_predecessor, count-restore_predecessor, count-append,
  found-policy, count-resynchronize, count-update_row, alone,
}

-- Ids are unique, and no two entries of a policy begin at the same time.
pub record IsOrderly {d : Doubles} (rows : List (PolicyCostEntry d)) : Type 0 where
  pub ids : (id : Text) → count (has_id id) rows ≤ 1
  pub starts :
      (policy_id : Text) (valid_from : Date) → count (collides policy_id valid_from none) rows ≤ 1

module _ {d : Doubles} where
  -- One successful operation. The database draws an id that no row has.
  pub data Step (db next : CostTables d) : Type 1 where
    create_step :
        (new_id : Text) (created_at : Date) (household_id user_id policy_id : Text)
        (dto : CreateCostEntry d)
        → count (has_id new_id) db.entries ≡ 0
        → create new_id created_at household_id user_id policy_id dto db ≡ ok next
        → Step db next
    update_step :
        (household_id user_id policy_id entry_id : Text) (dto : UpdateCostEntry d)
        → update household_id user_id policy_id entry_id dto db ≡ ok next
        → Step db next
    remove_step :
        (household_id user_id policy_id entry_id : Text)
        → remove household_id user_id policy_id entry_id db ≡ ok next
        → Step db next

  pub data Reach (db : CostTables d) : CostTables d → Type 1 where
    here : Reach db db
    then_step : {next last : CostTables d} → Reach db next → Step next last → Reach db last

  module _ (db next : CostTables d) (w : IsOrderly db.entries) where
    create-IsOrderly :
        (new_id : Text) (created_at : Date) (household_id user_id policy_id : Text)
        (dto : CreateCostEntry d)
        → count (has_id new_id) db.entries ≡ 0
        → create new_id created_at household_id user_id policy_id dto db ≡ ok next
        → IsOrderly next.entries
    create-IsOrderly new_id created_at household_id user_id policy_id dto fresh e =
        let (rows, free) =
          create-rows new_id created_at household_id user_id policy_id dto db next e in
        let row = new_row new_id created_at policy_id dto in
        let counts : (p : PolicyCostEntry d → Bool)
            → IgnoresEnd p
            → count p next.entries ≡ count p db.entries + bit (p row) =
          λ p ignores.
            ap (count p) rows
            ∙ count-end_predecessor p policy_id dto.valid_from new_id (db.entries ++ row ∷ [])
                ignores
            ∙ count-append p db.entries row in
        record {
          ids = λ id. elim (Bool-cases (eq_text new_id id)) [
            | inl it ↦
                let same = (eq_text_iff new_id id).0 it in
                omega (
                  arith,
                  counts (has_id id) (λ x v. refl),
                  ap (λ i. count (has_id i) db.entries) same,
                  fresh,
                  bit-le (eq_text new_id id),
                )
            | inr other ↦ omega (arith, counts (has_id id) (λ x v. refl), w.ids id, ap bit other)
          ];
          starts = λ p v. elim (Bool-cases (collides p v none row)) [
            | inl it ↦
                let same : count (collides policy_id dto.valid_from none) db.entries
                    ≡ count (collides p v none) db.entries =
                  let named : policy_id ≡ p = ground (arith, eq_text_iff policy_id p) in
                  let begins : dto.valid_from ≡ v = ground arith in rw (named, begins) refl in
                omega (
                  arith,
                  counts (collides p v none) (λ x u. refl),
                  same,
                  count-none (collides policy_id dto.valid_from none) db.entries free,
                  bit-le (collides p v none row),
                )
            | inr other ↦
                omega (arith, counts (collides p v none) (λ x u. refl), w.starts p v, ap bit other)
          ];
        }

    update-rows :
        (household_id user_id policy_id entry_id : Text) (dto : UpdateCostEntry d)
        → update household_id user_id policy_id entry_id dto db ≡ ok next
        → (r : PolicyCostEntry d) × (find (is_row policy_id entry_id) db.entries ≡ some r)
          × ((final : Option Date) × (next.entries
                ≡ resynchronize policy_id entry_id r.entry.valid_from
                    (or_old dto.valid_from r.entry.valid_from)
                    (update_row entry_id (changed_row dto final) db.entries)))
          × ((or_old dto.valid_from r.entry.valid_from ≡ r.entry.valid_from)
              ⊎ (any
                    (collides policy_id (or_old dto.valid_from r.entry.valid_from) (some entry_id))
                    db.entries
                  ≡ false))
    unfolding update assert_no_valid_from_collision
    update-rows household_id user_id policy_id entry_id dto e =
        elim (Option-cases (find (is_row policy_id entry_id) db.entries)) [
          | inl missing ↦ ground arith
          | inr (r, found) ↦
              elim (Result-cases (
                settle_valid_to policy_id (or_old dto.valid_from r.entry.valid_from) dto.valid_to
                  (column dto.valid_to r.entry.valid_to) db.entries)) [
                    | inl (final, settled) ↦ (r, found, (final, ground arith), ground arith)
                    | inr (why, refused) ↦ ground arith
                  ]
        ]

    remove-IsOrderly :
        (household_id user_id policy_id entry_id : Text)
        → remove household_id user_id policy_id entry_id db ≡ ok next
        → IsOrderly next.entries
    unfolding remove
    remove-IsOrderly household_id user_id policy_id entry_id e =
        elim (Option-cases (find (is_row policy_id entry_id) db.entries)) [
          | inl missing ↦ ground arith
          | inr (r, found) ↦
              let rows : next.entries
                  ≡ restore_predecessor policy_id r.entry.valid_from
                      (filter (is_other entry_id) db.entries) =
                ground arith in
              record {
                ids = λ id. omega (
                  arith,
                  ap (count (has_id id)) rows,
                  count-restore_predecessor (has_id id) policy_id r.entry.valid_from
                      (filter (is_other entry_id) db.entries) (λ x v. refl),
                  count-filter-le (has_id id) (is_other entry_id) db.entries,
                  w.ids id,
                );
                starts = λ p v. omega (
                  arith,
                  ap (count (collides p v none)) rows,
                  count-restore_predecessor (collides p v none) policy_id r.entry.valid_from
                      (filter (is_other entry_id) db.entries) (λ x v. refl),
                  count-filter-le (collides p v none) (is_other entry_id) db.entries,
                  w.starts p v,
                );
              }
        ]

    update-IsOrderly :
        (household_id user_id policy_id entry_id : Text) (dto : UpdateCostEntry d)
        → update household_id user_id policy_id entry_id dto db ≡ ok next
        → IsOrderly next.entries
    update-IsOrderly household_id user_id policy_id entry_id dto e =
        let (r, found, (final, rows), why) =
          update-rows household_id user_id policy_id entry_id dto e in
        let begins = or_old dto.valid_from r.entry.valid_from in
        let counts : (p : PolicyCostEntry d → Bool)
            → IgnoresEnd p
            → count p next.entries + bit (p r)
              ≡ count p db.entries + bit (p (changed_row dto final r)) =
          λ p ignores.
            ap (λ n. n + bit (p r))
              (ap (count p) rows
                ∙ count-resynchronize p policy_id entry_id r.entry.valid_from begins
                    (update_row entry_id (changed_row dto final) db.entries) ignores)
            ∙ count-update_row p (changed_row dto final) policy_id entry_id db.entries r
                (w.ids entry_id) found in
        record {
          ids = λ id. omega (arith, counts (has_id id) (λ x v. refl), w.ids id);
          starts = λ p v. elim (Bool-cases (collides p v none (changed_row dto final r))) [
            | inr other ↦
                omega (arith, counts (collides p v none) (λ x u. refl), w.starts p v, ap bit other)
            | inl it ↦
                let named : r.policy_id ≡ p = ground (arith, eq_text_iff r.policy_id p) in
                let at : begins ≡ v = ground arith in
                elim why [
                  | inl unchanged ↦
                      let before : collides p v none r ≡ true =
                        ground (arith, eq_text_iff r.policy_id p) in
                      omega (
                        arith,
                        counts (collides p v none) (λ x u. refl),
                        w.starts p v,
                        ap bit it,
                        ap bit before,
                      )
                  | inr free ↦
                      let owner : policy_id ≡ p =
                        sym (found-policy policy_id entry_id db.entries r found) ∙ named in
                      let alone_there =
                        alone policy_id entry_id begins db.entries r (w.ids entry_id) found free in
                      let alone_at : count (collides p v none) db.entries
                          ≡ bit (collides p v none r) =
                        rw (← owner, ← at) alone_there in
                      omega (arith, counts (collides p v none) (λ x u. refl), alone_at, ap bit it)
                ]
          ];
        }

  -- Whatever successful operations on cost entries follow one another, ids stay unique and no two
  -- entries of a policy begin at the same time. (Condition: it was so at first, and the database draws
  -- an id that no row has.)
  pub Reach-IsOrderly :
      {db last : CostTables d} → Reach db last → IsOrderly db.entries → IsOrderly last.entries
  Reach-IsOrderly here w = w
  Reach-IsOrderly (then_step {next = next} {last = last} reach step) w =
      let kept = Reach-IsOrderly reach w in
      elim step [
        | create_step new_id created_at household_id user_id policy_id dto fresh e ↦
            create-IsOrderly next last kept new_id created_at household_id user_id policy_id dto
              fresh e
        | update_step household_id user_id policy_id entry_id dto e ↦
            update-IsOrderly next last kept household_id user_id policy_id entry_id dto e
        | remove_step household_id user_id policy_id entry_id e ↦
            remove-IsOrderly next last kept household_id user_id policy_id entry_id e
      ]
