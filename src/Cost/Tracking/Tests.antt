-- ===== src/Cost/Tracking/Tests.antt =====
-- cost-tracking.service.ts: entries made, moved and deleted.
use mathlib.Core.List.{Memᴰ}
use mathlib.Core.List.Memᴰ.{cases_cons}
use versi_go.Prelude.{
  ◌≤◌, inl, inr, ap, ◌≡◌, refl, Text, eq_text, codes, Option, none, some, List, [], ◌∷◌, arith, map,
  sort, insert_sorted,
}
use versi_go.Http.{ok, commit}
use versi_go.Sharing.{kfz}
use versi_go.Cost.Calendar.{Date}
use versi_go.Cost.Money.Exact.{exact}
use versi_go.Cost.Entry.{monthly, entry_for_period, is_newer}
use versi_go.Cost.Tracking.{
  PolicyCostEntry, CostTables, CreateCostEntry, UpdateCostEntry, undefined, end_predecessor,
  restore_predecessor, entries_of, set_valid_to,
}
use versi_go.Cost.Tracking.Starts.{
  IsOrderly, Step, create_step, update_step, here, then_step, Reach-IsOrderly,
}
use versi_go.Cost.Tracking.Undo.{IsClear, create-remove}
use versi_go.Cost.Tracking.Takeover.{create-applies}
use versi_go.Cost.Tracking.Service.{new_row, create, update, remove, update_row, resynchronize}

tracking : Unit {0}
unfolding create update remove update_row resynchronize end_predecessor restore_predecessor
    entries_of set_valid_to entry_for_period is_newer sort insert_sorted eq_text
tracking = tt

abbrev start : CostTables exact
start = record {
  memberships = record { household_id = codes "h"; user_id = codes "u" } ∷ [];
  policies =
      record {
        id = codes "p";
        household_id = codes "h";
        owner_user_id = codes "u";
        policy_type = kfz;
        archived_at = none;
      }
      ∷ [];
  documents = [];
  entries = [];
  audit_events = [];
}

abbrev entry_from : Date → Option Date → CreateCostEntry exact
entry_from valid_from valid_to = record {
  valid_from = valid_from;
  valid_to = valid_to;
  amount = some (record { top = 100; bottom = 1 });
  frequency = monthly;
  booking_source = none;
  note = none;
  source_document_id = none;
}

abbrev with_entry : Text → CreateCostEntry exact → CostTables exact → CostTables exact
with_entry id dto db =
    unfold tracking in commit db (create id 7 (codes "h") (codes "u") (codes "p") dto db)

abbrev without : Text → CostTables exact → CostTables exact
without id db = unfold tracking in commit db (remove (codes "h") (codes "u") (codes "p") id db)

abbrev ends : CostTables exact → List (Option Date)
ends db = map (λ r. r.entry.valid_to) db.entries

abbrev first : CostTables exact
first = with_entry (codes "a") (entry_from 1000 none) start

abbrev increased : CostTables exact
increased = with_entry (codes "b") (entry_from 5000 none) first

-- An increase ends its predecessor, and its deletion opens the predecessor again; but an end that was
-- entered by hand and replaced by an increase does not come back.
runs :
    (ends increased ≡ some 4999 ∷ none ∷ [])
    × (without (codes "b") increased).entries ≡ first.entries
    × (ends (
          without (codes "b") (
            with_entry
              (codes "b")
              (entry_from 5000 none)
              (with_entry (codes "a") (entry_from 1000 (some 9000)) start)))
        ≡ none ∷ [])
unfolding tracking
runs = (refl, refl, refl)

first_rows : first.entries ≡ new_row (codes "a") 7 (codes "p") (entry_from 1000 none) ∷ []
unfolding tracking
first_rows = refl

first_begins :
    (r : PolicyCostEntry exact)
    → Memᴰ r first.entries
    → r.policy_id ≡ codes "p"
    → r.entry.valid_from ≤ 6000
    → r.entry.valid_from ≤ 5000
first_begins r m named early = elim (cases_cons (rw first_rows at m)) [
  | inl e ↦ ground (arith, ap (λ x. x.entry.valid_from) e)
  | inr later ↦ elim later [ ]
]

create-applies_example :
    entry_for_period (entries_of (codes "p") increased.entries) 6000
    ≡ some (new_row (codes "b") 7 (codes "p") (entry_from 5000 none)).entry
create-applies_example =
    create-applies (codes "b") 7 (codes "h") (codes "u") (codes "p") (entry_from 5000 none) first
      increased (unfold tracking in refl) 6000 (omega arith) refl first_begins

start_IsOrderly : IsOrderly start.entries
start_IsOrderly = record { ids = λ id. omega arith; starts = λ policy_id date. omega arith }

made : Step start first
made =
    create_step (codes "a") 7 (codes "h") (codes "u") (codes "p") (entry_from 1000 none) refl
      (unfold tracking in refl)

raised : Step first increased
raised =
    create_step (codes "b") 7 (codes "h") (codes "u") (codes "p") (entry_from 5000 none)
      (unfold tracking in refl) (unfold tracking in refl)

abbrev postpone : UpdateCostEntry exact
postpone = record {
  valid_from = some 8000;
  valid_to = undefined;
  amount = undefined;
  frequency = none;
  booking_source = undefined;
  note = undefined;
}

abbrev postponed : CostTables exact
postponed =
    unfold tracking in
    commit increased (update (codes "h") (codes "u") (codes "p") (codes "b") postpone increased)

moved : Step increased postponed
moved =
    update_step (codes "h") (codes "u") (codes "p") (codes "b") postpone (unfold tracking in refl)

-- A postponed increase ends its predecessor later.
update_runs : ends postponed ≡ some 7999 ∷ none ∷ []
unfolding tracking
update_runs = refl

Reach-IsOrderly_example : IsOrderly postponed.entries
Reach-IsOrderly_example =
    Reach-IsOrderly (then_step (then_step (then_step here made) raised) moved) start_IsOrderly

first_IsOrderly : IsOrderly first.entries
first_IsOrderly = Reach-IsOrderly (then_step here made) start_IsOrderly

first-IsClear :
    (r : PolicyCostEntry exact)
    → Memᴰ r first.entries
    → r.policy_id ≡ codes "p"
    → IsClear 5000 r.entry.valid_to
first-IsClear r m named = elim (cases_cons (rw first_rows at m)) [
  | inl e ↦ inl (ap (λ x. x.entry.valid_to) e)
  | inr later ↦ elim later [ ]
]

create-remove_example :
    (after : CostTables exact) × (remove (codes "h") (codes "u") (codes "p") (codes "b") increased
      ≡ ok after)
    × (after.entries ≡ first.entries)
create-remove_example =
    create-remove (codes "b") 7 (codes "h") (codes "u") (codes "p") (entry_from 5000 none) first
      increased (unfold tracking in refl) first_IsOrderly first-IsClear (unfold tracking in refl)
