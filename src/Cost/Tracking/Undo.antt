-- ===== src/Cost/Tracking/Undo.antt =====
-- cost-tracking.service.ts: creating an entry and deleting it again.
use mathlib.Core.List.{Memᴰ}
use mathlib.Core.List.Memᴰ
use versi_go.Prelude.{
  ◌+◌, ◌-◌, ◌<◌, ◌≡◌, ◌⊎◌, inl, inr, refl, sym, ap, ◌∙◌, Text, eq_text_iff, eq_text_refl, true,
  false, not, Option, none, some, List, [], ◌∷◌, ◌++◌, filter, mem-filter, find, any, any_iff,
  count, Bool-cases, Option-cases, arith,
}
use versi_go.Http.{ok}
use versi_go.Cost.Calendar.{Date}
use versi_go.Cost.Money.{Doubles}
use versi_go.Cost.Entry.{CostEntry, entry_for_period, is_valid_at}
use versi_go.Cost.Entry.Choice.{entry_for_period-some}
use versi_go.Cost.Tracking.{
  PolicyCostEntry, CostTables, CreateCostEntry, is_excluded, entries_of, set_valid_to, has_ended_by,
  end_predecessor, ends_before, restore_predecessor, assert_no_valid_from_collision, cost_event,
}
use versi_go.Cost.Tracking.Service.{new_row, is_row, is_other, create, remove}
use versi_go.Cost.Tracking.Rows.{entries_of_iff}
use versi_go.Cost.Tracking.Takeover.{others, predecessor_lem, create-rows}
use versi_go.Cost.Tracking.Counts.{has_id, count-set_valid_to}
use versi_go.Cost.Tracking.Starts.{IsOrderly}
use versi_go.Cost.Tracking.Restore.{
  find-fresh, filter-fresh, set_valid_to-append, has_id-count, restore-ended, restore-none,
}

-- An entry that is open, or has ended more than a millisecond before that date.
abbrev pub IsClear : Date → Option Date → Type 0
IsClear valid_from valid_to =
    (valid_to ≡ none) ⊎ ((v : Date) × (valid_to ≡ some v) × (v + 1 < valid_from))

module _ {d : Doubles} (new_id : Text) (created_at : Date) (household_id user_id policy_id : Text)
    (dto : CreateCostEntry d) (db next : CostTables d)
    (fresh : count (has_id new_id) db.entries ≡ 0) (orderly : IsOrderly db.entries)
    (clear : (r : PolicyCostEntry d)
      → Memᴰ r db.entries
      → r.policy_id ≡ policy_id
      → IsClear dto.valid_from r.entry.valid_to)
    (e : create new_id created_at household_id user_id policy_id dto db ≡ ok next) where
  abbrev created_row : PolicyCostEntry d
  created_row = new_row new_id created_at policy_id dto

  none_ends : any (ends_before policy_id dto.valid_from) db.entries ≡ false
  none_ends = elim (Bool-cases (any (ends_before policy_id dto.valid_from) db.entries)) [
    | inr nowhere ↦ nowhere
    | inl somewhere ↦
        let (r, m, ends) =
          (any_iff (ends_before policy_id dto.valid_from) db.entries).0 somewhere in
        let why = clear r m (ground (arith, eq_text_iff r.policy_id policy_id)) in
        ground (arith, why)
  ]

  -- The predecessor is the entry of an old row, and open.
  predecessor_row :
      (p : CostEntry d)
      → entry_for_period
          (others policy_id dto.valid_from new_id (db.entries ++ created_row ∷ []))
          dto.valid_from
        ≡ some p
      → (r : PolicyCostEntry d) × Memᴰ r db.entries
        × (r.policy_id ≡ policy_id)
        × (r.entry ≡ p)
        × (r.entry.valid_to ≡ none)
  predecessor_row p found =
      let all = db.entries ++ created_row ∷ [] in
      let (kept, valid, newest) =
        entry_for_period-some (others policy_id dto.valid_from new_id all) dto.valid_from p found in
      let listed =
        ((mem-filter (λ x. not (is_excluded new_id x)) p (entries_of policy_id all)).0 kept).0 in
      let (r, m, named, same) = (entries_of_iff policy_id all p).0 listed in
      let not_new = predecessor_lem policy_id dto.valid_from new_id all p found in
      elim (Memᴰ.append_cases db.entries m) [
        | inr is_row ↦ ground (
          arith,
          ap (λ y. y.entry.id) (Memᴰ.eq_of_singleton is_row),
          ap (λ y. y.id) same,
          eq_text_refl new_id,
          not_new,
        )
        | inl old ↦
            let r_valid : is_valid_at dto.valid_from r.entry ≡ true =
              ap (is_valid_at dto.valid_from) same ∙ valid in
            let open_end : r.entry.valid_to ≡ none = elim (clear r old named) [
              | inl it ↦ it
              | inr (v, has, early) ↦ ground (arith, r_valid)
            ] in
            (r, old, named, same, open_end)
      ]

  -- What the rows before the new one have become, and that this is undone.
  changed_rows :
      (changed : List (PolicyCostEntry d)) × (next.entries ≡ changed ++ created_row ∷ [])
      × (count (has_id new_id) changed ≡ 0)
      × (restore_predecessor policy_id dto.valid_from changed ≡ db.entries)
  unfolding end_predecessor
  changed_rows =
      let (rows, free) =
        create-rows new_id created_at household_id user_id policy_id dto db next e in
      let all = db.entries ++ created_row ∷ [] in
      elim (Option-cases
        (entry_for_period (others policy_id dto.valid_from new_id all) dto.valid_from)) [
          | inl missing ↦ (
            db.entries,
            rows ∙ rw missing refl,
            fresh,
            restore-none policy_id dto.valid_from db.entries none_ends,
          )
          | inr (p, found) ↦
              let (r, m, named, same, open_end) = predecessor_row p found in
              let end = some (dto.valid_from - 1) in
              let still : has_ended_by (dto.valid_from - 1) p.valid_to ≡ false =
                sym (ap (λ y. has_ended_by (dto.valid_from - 1) y.valid_to) same)
                ∙ ap (has_ended_by (dto.valid_from - 1)) open_end in
              (
                set_valid_to r.entry.id end db.entries,
                rows
                    ∙ rw (found, still)
                        (ap (λ y. set_valid_to y.id end all) (sym same)
                          ∙ set_valid_to-append r.entry.id end db.entries created_row
                              (has_id-count db.entries r m)),
                count-set_valid_to (has_id new_id) r.entry.id end db.entries (λ x v. refl) ∙ fresh,
                restore-ended policy_id dto.valid_from db.entries r m (orderly.ids r.entry.id) named
                    open_end none_ends,
              )
        ]

  -- Creating an entry and deleting it again leaves the rows of all entries as they were. (Conditions:
  -- ids and starts are unique, the new id is a new one, and every entry of the policy is open or has
  -- ended more than a millisecond before the new entry begins.)
  pub create-remove :
      (after : CostTables d) × (remove household_id user_id policy_id new_id next ≡ ok after)
      × (after.entries ≡ db.entries)
  unfolding create remove assert_no_valid_from_collision
  create-remove =
      let (changed, rows, unused, undone) = changed_rows in
      let found : find (is_row policy_id new_id) next.entries ≡ some created_row = rw rows (
        find-fresh policy_id new_id changed created_row unused
          (ground (arith, eq_text_refl new_id, eq_text_refl policy_id))) in
      let filtered : filter (is_other new_id) next.entries ≡ changed =
        ap (filter (is_other new_id)) rows
        ∙ filter-fresh new_id changed created_row unused (eq_text_refl new_id) in
      let after : CostTables d = record next {
        entries =
            restore_predecessor policy_id dto.valid_from (filter (is_other new_id) next.entries);
        audit_events = next.audit_events ++ cost_event user_id new_id "DELETE" ∷ [];
      } in
      (
        after,
        ground (arith, found),
        ap (restore_predecessor policy_id dto.valid_from) filtered ∙ undone,
      )
