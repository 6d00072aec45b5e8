-- ===== src/Cost/Tracking/Takeover.antt =====
-- cost-tracking.service.ts: the entries of a policy behind the creation of one.
use mathlib.Core.List.{Memᴰ}
use mathlib.Core.List.Memᴰ
use versi_go.Prelude.{
  ◌-◌, ◌≤◌, ◌≡◌, ◌≢◌, ◌⊎◌, inl, inr, refl, sym, ap, subst, ◌∙◌, Text, eq_text, eq_text_iff,
  eq_text_refl, true, false, not, none, some, List, [], ◌∷◌, ◌++◌, filter, mem-filter, any, any_iff,
  All-at, Bool-cases, Option-cases, arith,
}
use versi_go.Http.{ok}
use versi_go.Cost.Calendar.{Date}
use versi_go.Cost.Money.{Doubles}
use versi_go.Cost.Entry.{CostEntry, not_ended, is_valid_at, entry_for_period}
use versi_go.Cost.Entry.Choice.{IsNoNewer, entry_for_period-some, entry_for_period-none}
use versi_go.Cost.Tracking.{
  PolicyCostEntry, CostTables, CreateCostEntry, is_excluded, entries_of, has_ended_by,
  end_predecessor, collides, assert_no_valid_from_collision,
}
use versi_go.Cost.Tracking.Service.{new_row, create}
use versi_go.Cost.Tracking.Rows.{entries_of_iff, set_valid_to-mem, mem-set_valid_to}

module _ {d : Doubles} (policy_id : Text) (valid_from : Date) (exclude : Text)
    (rows : List (PolicyCostEntry d)) where
  -- The predecessor is another entry than the excluded one.
  abbrev pub others : List (CostEntry d)
  others = filter (λ e. not (is_excluded exclude e)) (entries_of policy_id rows)

  pub predecessor_lem :
      (p : CostEntry d) → entry_for_period others valid_from ≡ some p → eq_text p.id exclude ≡ false
  predecessor_lem p e =
      let kept =
        (mem-filter (λ x. not (is_excluded exclude x)) p (entries_of policy_id rows)).0
          (entry_for_period-some others valid_from p e).0 in
      ground (arith, kept.1)

  end_predecessor-mem :
      (r : PolicyCostEntry d)
      → Memᴰ r (end_predecessor policy_id valid_from exclude rows)
      → Memᴰ r rows
        ⊎ ((old : PolicyCostEntry d) × Memᴰ old rows
            × (eq_text old.entry.id exclude ≡ false)
            × (r ≡ record old { entry = record old.entry { valid_to = some (valid_from - 1) } }))
  unfolding end_predecessor
  end_predecessor-mem r m = elim (Option-cases (entry_for_period others valid_from)) [
    | inl missing ↦ inl (rw missing at m)
    | inr (p, found) ↦ elim (Bool-cases (has_ended_by (valid_from - 1) p.valid_to)) [
      | inl ended ↦ inl (rw (found, ended) at m)
      | inr open_end ↦
          elim (set_valid_to-mem p.id (some (valid_from - 1)) rows r (rw (found, open_end) at m)) [
            | inl old ↦ inl old
            | inr (old, n, named, e) ↦ inr (old, n, rw named (predecessor_lem p found), e)
          ]
    ]
  ]

  mem-end_predecessor :
      (r : PolicyCostEntry d)
      → Memᴰ r rows
      → r.entry.id ≡ exclude
      → Memᴰ r (end_predecessor policy_id valid_from exclude rows)
  unfolding end_predecessor
  mem-end_predecessor r m named = elim (Option-cases (entry_for_period others valid_from)) [
    | inl missing ↦ rw missing m
    | inr (p, found) ↦ elim (Bool-cases (has_ended_by (valid_from - 1) p.valid_to)) [
      | inl ended ↦ rw (found, ended) m
      | inr open_end ↦
          rw (found, open_end)
            (mem-set_valid_to p.id (some (valid_from - 1)) rows r m (
              ground (
                arith,
                predecessor_lem p found,
                eq_text_iff p.id exclude,
                eq_text_iff r.entry.id p.id,
              )))
    ]
  ]

module _ {d : Doubles} (new_id : Text) (created_at : Date) (household_id user_id policy_id : Text)
    (dto : CreateCostEntry d) (db next : CostTables d)
    (e : create new_id created_at household_id user_id policy_id dto db ≡ ok next) where
  abbrev pub row : PolicyCostEntry d
  row = new_row new_id created_at policy_id dto

  pub create-rows :
      (next.entries ≡ end_predecessor policy_id dto.valid_from new_id (db.entries ++ row ∷ []))
      × (any (collides policy_id dto.valid_from none) db.entries ≡ false)
  unfolding create assert_no_valid_from_collision
  create-rows = ground arith

  -- Every entry of the policy is the new one, or begins when an entry of the policy began.
  next_entry :
      (x : CostEntry d)
      → Memᴰ x (entries_of policy_id next.entries)
      → (x ≡ row.entry)
        ⊎ ((old : PolicyCostEntry d) × Memᴰ old db.entries
            × (old.policy_id ≡ policy_id)
            × (old.entry.valid_from ≡ x.valid_from))
  next_entry x m =
      let (r, listed, named, same) = (entries_of_iff policy_id next.entries x).0 m in
      elim (end_predecessor-mem policy_id dto.valid_from new_id (db.entries ++ row ∷ []) r
        (subst (λ rows. Memᴰ r rows) create-rows.0 listed)) [
          | inl kept ↦ elim (Memᴰ.append_cases db.entries kept) [
            | inl old ↦ inr (r, old, named, ap (λ y. y.valid_from) same)
            | inr is_row ↦ inl (sym same ∙ ap (λ y. y.entry) (Memᴰ.eq_of_singleton is_row))
          ]
          | inr (old, n, not_new, ended) ↦ elim (Memᴰ.append_cases db.entries n) [
            | inl before ↦ inr (
              old,
              before,
              sym (ap (λ y. y.policy_id) ended) ∙ named,
              sym (ap (λ y. y.entry.valid_from) ended) ∙ ap (λ y. y.valid_from) same,
            )
            | inr is_row ↦
                ground
                  (arith, ap (λ y. y.entry.id) (Memᴰ.eq_of_singleton is_row), eq_text_refl new_id)
          ]
        ]

  new_listed : Memᴰ row.entry (entries_of policy_id next.entries)
  new_listed = (entries_of_iff policy_id next.entries row.entry).1 (
    row,
    rw (create-rows.0) (
        mem-end_predecessor policy_id dto.valid_from new_id (db.entries ++ row ∷ []) row
          (Memᴰ.append_right db.entries (Memᴰ.head refl)) refl),
    refl,
    refl,
  )

  no_collision :
      (old : PolicyCostEntry d)
      → Memᴰ old db.entries
      → old.policy_id ≡ policy_id
      → old.entry.valid_from ≢ dto.valid_from
  no_collision old m named same =
      let hit =
        (any_iff (collides policy_id dto.valid_from none) db.entries).1
          (old, m, ground (arith, eq_text_iff old.policy_id policy_id)) in
      ground (arith, create-rows.1)

  -- After an entry was created, it is the one that counts from its `validFrom` on, until it ends or
  -- another entry of the policy begins.
  pub create-applies :
      (moment : Date)
      → dto.valid_from ≤ moment
      → not_ended dto.valid_to moment ≡ true
      → ((r : PolicyCostEntry d)
          → Memᴰ r db.entries
          → r.policy_id ≡ policy_id
          → r.entry.valid_from ≤ moment
          → r.entry.valid_from ≤ dto.valid_from)
      → entry_for_period (entries_of policy_id next.entries) moment ≡ some row.entry
  create-applies moment begun open_end quiet =
      let entries = entries_of policy_id next.entries in
      let valid : is_valid_at moment row.entry ≡ true = ground arith in
      elim (Option-cases (entry_for_period entries moment)) [
        | inl nothing ↦ ground (
          arith,
          All-at (λ x. is_valid_at moment x ≡ false) row.entry entries
              (entry_for_period-none entries moment nothing) new_listed,
        )
        | inr (x, found) ↦
            let (listed, x_valid, newest) = entry_for_period-some entries moment x found in
            elim (next_entry x listed) [
              | inl is_new ↦ found ∙ ap some is_new
              | inr (old, m, named, begins) ↦
                  let leads =
                    All-at (λ y. (is_valid_at moment y ≡ false) ⊎ IsNoNewer x y) row.entry entries
                      newest new_listed in
                  ground (arith, leads, no_collision old m named, quiet old m named)
            ]
      ]
