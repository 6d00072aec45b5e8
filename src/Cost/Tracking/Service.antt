-- ===== src/Cost/Tracking/Service.antt =====
-- cost-tracking.service.ts: `create`, `update` and `remove`.
use versi_go.Prelude.{
  ◌+◌, Text, eq_text, Bool, true, false, not, ◌&&◌, Option, none, some, List, [], ◌∷◌, ◌++◌,
  if◌then◌else◌, ltb, ◌==◌, filter, find, any,
}
use versi_go.Http.{Result, ok, err, bad_request, not_found, refuse, ◌>>=◌, ◌>>◌}
use versi_go.Identity.{or_throw}
use versi_go.Cost.Calendar.{Date}
use versi_go.Cost.Money.{Doubles}
use versi_go.Cost.Tracking.{
  Field, undefined, null, value, column, is_given, PolicyCostEntry, CostTables, CreateCostEntry,
  UpdateCostEntry, assert_policy_access, end_predecessor, restore_predecessor,
  assert_no_valid_from_collision, cost_event, check_source, ends_too_early,
}

abbrev pub is_missing {ℓ} : {A : Type ℓ} → Option A → Bool
is_missing none = true
is_missing (some amount) = false

abbrev pub or_old {ℓ} : {A : Type ℓ} → Option A → A → A
or_old none old = old
or_old (some new) old = new

-- The `validTo` that is written.
abbrev pub written_valid_to : Field Date → Option Date → Option Date → Option Date
written_valid_to undefined final existing =
    if is_missing final && not (is_missing existing) then none else existing
written_valid_to null final existing = none
written_valid_to (value valid_to) final existing = some valid_to

module _ {d : Doubles} where
  abbrev pub new_row : Text → Date → Text → CreateCostEntry d → PolicyCostEntry d
  new_row new_id created_at policy_id dto = record {
    policy_id = policy_id;
    entry = record {
      id = new_id;
      created_at = some created_at;
      amount = dto.amount;
      frequency = dto.frequency;
      valid_from = dto.valid_from;
      valid_to = dto.valid_to;
    };
    booking_source = dto.booking_source;
    note = dto.note;
    source_document_id = dto.source_document_id;
  }

  unfoldable pub create :
      Text → Date → Text → Text → Text → CreateCostEntry d → CostTables d → Result (CostTables d)
  unfolding assert_no_valid_from_collision
  create new_id created_at household_id user_id policy_id dto db = do
    assert_policy_access household_id user_id policy_id db
    refuse (is_missing dto.amount) (bad_request "An amount is required")
    check_source policy_id dto.source_document_id db.documents
    refuse (ends_too_early dto.valid_from dto.valid_to)
        (bad_request "validTo must be after validFrom")
    assert_no_valid_from_collision policy_id dto.valid_from none db.entries
    ok (record db {
      entries =
          end_predecessor policy_id dto.valid_from new_id
            (db.entries ++ new_row new_id created_at policy_id dto ∷ []);
      audit_events = db.audit_events ++ cost_event user_id new_id "CREATE" ∷ [];
    })

  -- `policyCostEntry.findFirst({ where: { id, policyId } })`
  abbrev pub is_row : Text → Text → PolicyCostEntry d → Bool
  is_row policy_id entry_id r = eq_text r.entry.id entry_id && eq_text r.policy_id policy_id

  -- A later entry that begins one millisecond behind that end.
  abbrev pub is_successor : Text → Option Date → PolicyCostEntry d → Bool
  is_successor policy_id none r = false
  is_successor policy_id (some valid_to) r =
      eq_text r.policy_id policy_id && (r.entry.valid_from == valid_to + 1)

  -- `finalValidTo`: an end that the request moves `validFrom` behind is dropped where an increase made it.
  abbrev pub settle_valid_to :
      Text → Date → Field Date → Option Date → List (PolicyCostEntry d) → Result (Option Date)
  settle_valid_to policy_id valid_from given valid_to rows =
      if not (ends_too_early valid_from valid_to)
      then ok valid_to
      else if is_given given
      then err (bad_request "validTo must be after validFrom")
      else if any (is_successor policy_id valid_to) rows
      then ok none
      else err (bad_request "validTo must be after validFrom")

  abbrev pub changed_row : UpdateCostEntry d → Option Date → PolicyCostEntry d → PolicyCostEntry d
  changed_row dto final_valid_to r = record r {
    entry = record r.entry {
      valid_from = or_old dto.valid_from r.entry.valid_from;
      valid_to = written_valid_to dto.valid_to final_valid_to r.entry.valid_to;
      amount = column dto.amount r.entry.amount;
      frequency = or_old dto.frequency r.entry.frequency;
    };
    booking_source = column dto.booking_source r.booking_source;
    note = column dto.note r.note;
  }

  -- `policyCostEntry.update({ where: { id }, data })`
  unfoldable pub update_row :
      Text
      → (PolicyCostEntry d → PolicyCostEntry d)
      → List (PolicyCostEntry d)
      → List (PolicyCostEntry d)
  update_row id data_of [] = []
  update_row id data_of (r ∷ rest) =
      let later = update_row id data_of rest in
      if eq_text r.entry.id id then data_of r ∷ rest else r ∷ later

  -- What follows a change of `validFrom`.
  unfoldable pub resynchronize :
      Text → Text → Date → Date → List (PolicyCostEntry d) → List (PolicyCostEntry d)
  resynchronize policy_id entry_id old new rows =
      if new == old
      then rows
      else end_predecessor policy_id new entry_id
          (if ltb old new then restore_predecessor policy_id old rows else rows)

  unfoldable pub update :
      Text → Text → Text → Text → UpdateCostEntry d → CostTables d → Result (CostTables d)
  unfolding assert_no_valid_from_collision
  update household_id user_id policy_id entry_id dto db = do
    assert_policy_access household_id user_id policy_id db
    existing ←
        or_throw (find (is_row policy_id entry_id) db.entries) (not_found "Cost entry not found")
    refuse (is_missing (column dto.amount existing.entry.amount))
        (bad_request "An amount is required")
    let final_valid_from = or_old dto.valid_from existing.entry.valid_from
    final_valid_to ←
        settle_valid_to policy_id final_valid_from dto.valid_to
          (column dto.valid_to existing.entry.valid_to) db.entries
    if final_valid_from == existing.entry.valid_from
        then ok tt
        else assert_no_valid_from_collision policy_id final_valid_from (some entry_id) db.entries
    ok (record db {
      entries =
          resynchronize policy_id entry_id existing.entry.valid_from final_valid_from
            (update_row entry_id (changed_row dto final_valid_to) db.entries);
      audit_events = db.audit_events ++ cost_event user_id entry_id "UPDATE" ∷ [];
    })

  -- `policyCostEntry.delete({ where: { id } })` leaves the rows with another id.
  abbrev pub is_other : Text → PolicyCostEntry d → Bool
  is_other entry_id r = not (eq_text r.entry.id entry_id)

  unfoldable pub remove : Text → Text → Text → Text → CostTables d → Result (CostTables d)
  remove household_id user_id policy_id entry_id db = do
    assert_policy_access household_id user_id policy_id db
    existing ←
        or_throw (find (is_row policy_id entry_id) db.entries) (not_found "Cost entry not found")
    ok (record db {
      entries =
          restore_predecessor policy_id existing.entry.valid_from
            (filter (is_other entry_id) db.entries);
      audit_events = db.audit_events ++ cost_event user_id entry_id "DELETE" ∷ [];
    })
