-- ===== src/Cost/Tracking.antt =====
-- apps/api/src/features/cost-tracking/cost-tracking.service.ts: creating, changing and deleting the cost
-- entries of a policy. A transaction is a function to the new tables; what the database draws for
-- a new row, its id and its creation date, is an argument. Texts of dates are the dates they name, and
-- no `validFrom` is the epoch itself, before which no date lies. The diffs of the audit entries are
-- left out.
pub mod Service
pub mod Rows
pub mod Takeover
pub mod Counts
pub mod Restore
pub mod Undo
pub mod Starts
mod Tests
use versi_go.Prelude.{
  ℕ, ◌+◌, ◌-◌, Text, eq_text, codes, String, Bool, true, false, not, ◌&&◌, ◌||◌, Option, none, some,
  List, [], ◌∷◌, ◌++◌, if◌then◌else◌, leb, ltb, ◌==◌, map, filter, find, any, sort, is_empty,
}
use versi_go.Http.{
  Result, ok, err, HttpError, bad_request, forbidden, not_found, require, refuse, ◌>>=◌, ◌>>◌,
}
use versi_go.Identity.{HouseholdMembership, AuditEvent, has_membership, or_throw}
use versi_go.Sharing.{InsurancePolicy}
use versi_go.Sharing.Access.{is_policy}
use versi_go.Cost.Calendar.{Date}
use versi_go.Cost.Money.{Doubles, Amount}
use versi_go.Cost.Entry.{PaymentFrequency, CostEntry, entry_for_period}

pub data DocumentClass : Type 0 where
  contract billing correspondence claim other unclassified : DocumentClass

abbrev pub is_billing : DocumentClass → Bool
is_billing billing = true
is_billing _ = false

pub record BillingDocument : Type 0 where
  pub id : Text
  pub policy_id : Text
  pub document_class : DocumentClass
  pub archived_at : Option Date

-- A field of a request: `undefined`, `null`, or a value.
pub data Field {ℓ} (A : Type ℓ) : Type ℓ where
  undefined null : Field A
  value : A → Field A

-- The column that `update` leaves behind, which keeps the old value for `undefined`.
abbrev pub column {ℓ} : {A : Type ℓ} → Field A → Option A → Option A
column undefined old = old
column null old = none
column (value a) old = some a

abbrev pub is_given {ℓ} : {A : Type ℓ} → Field A → Bool
is_given undefined = false
is_given null = true
is_given (value a) = true

module _ (d : Doubles) where
  open d use {Num}

  -- A row of `policy_cost_entries`; `entry` holds the columns that the schedule reads.
  pub record PolicyCostEntry : Type 0 where
    pub policy_id : Text
    pub entry : CostEntry d
    pub booking_source : Option Text
    pub note : Option Text
    pub source_document_id : Option Text

  pub record CostTables : Type 0 where
    pub memberships : List HouseholdMembership
    pub policies : List InsurancePolicy
    pub documents : List BillingDocument
    pub entries : List PolicyCostEntry
    pub audit_events : List AuditEvent

  pub record CreateCostEntry : Type 0 where
    pub valid_from : Date
    pub valid_to : Option Date
    pub amount : Amount d
    pub frequency : PaymentFrequency
    pub booking_source : Option Text
    pub note : Option Text
    pub source_document_id : Option Text

  pub record UpdateCostEntry : Type 0 where
    pub valid_from : Option Date
    pub valid_to : Field Date
    pub amount : Field Num
    pub frequency : Option PaymentFrequency
    pub booking_source : Field Text
    pub note : Field Text

-- `predecessor.validTo && predecessor.validTo.getTime() <= end.getTime()`
abbrev pub has_ended_by : Date → Option Date → Bool
has_ended_by end none = false
has_ended_by end (some valid_to) = leb valid_to end

abbrev pub ends_at : Date → Option Date → Bool
ends_at end none = false
ends_at end (some valid_to) = valid_to == end

abbrev pub cost_event : Text → Text → String → AuditEvent
cost_event user_id entry_id action = record {
  actor_user_id = some user_id;
  entity_type = "PolicyCostEntry";
  entity_id = entry_id;
  action = action;
  diff = [];
}

abbrev pub is_source : Text → Text → BillingDocument → Bool
is_source policy_id document_id doc =
    eq_text doc.id document_id
    && eq_text doc.policy_id policy_id
    && elim doc.archived_at [ none ↦ true | some date ↦ false ]

-- The check of `dto.sourceDocumentId`, which an empty text skips.
abbrev pub check_source : Text → Option Text → List BillingDocument → Result (Unit {0})
check_source policy_id none documents = ok tt
check_source policy_id (some document_id) documents =
    if is_empty document_id
    then ok tt
    else (or_throw (find (is_source policy_id document_id) documents)
          (bad_request "The referenced document does not belong to this policy")
        >>= λ doc.
            require (is_billing doc.document_class)
              (bad_request "Only documents classified as BILLING can be a cost source"))

-- `validTo && validTo.getTime() <= validFrom.getTime()`
abbrev pub ends_too_early : Date → Option Date → Bool
ends_too_early valid_from none = false
ends_too_early valid_from (some valid_to) = leb valid_to valid_from

module _ {d : Doubles} where
  abbrev pub assert_policy_access : Text → Text → Text → CostTables d → Result (Unit {0})
  assert_policy_access household_id user_id policy_id db = do
    require (has_membership household_id user_id db.memberships)
        (forbidden "Isolation: no access to a foreign household")
    require (any (is_policy household_id policy_id) db.policies) (not_found "Policy not found")

  abbrev pub begins_earlier : CostEntry d → CostEntry d → Bool
  begins_earlier a b = ltb a.valid_from b.valid_from

  -- `policyCostEntry.findMany({ where: { policyId }, orderBy: { validFrom: 'asc' } })`
  unfoldable pub entries_of : Text → List (PolicyCostEntry d) → List (CostEntry d)
  entries_of policy_id rows =
      sort begins_earlier (map (λ r. r.entry) (filter (λ r. eq_text r.policy_id policy_id) rows))

  abbrev pub is_excluded : Text → CostEntry d → Bool
  is_excluded id e = eq_text e.id id

  -- `policyCostEntry.update({ where: { id }, data: { validTo } })`
  unfoldable pub set_valid_to :
      Text → Option Date → List (PolicyCostEntry d) → List (PolicyCostEntry d)
  set_valid_to id valid_to [] = []
  set_valid_to id valid_to (r ∷ rest) =
      let later = set_valid_to id valid_to rest in
      if eq_text r.entry.id id
      then record r { entry = record r.entry { valid_to = valid_to } } ∷ rest
      else r ∷ later

  abbrev pub end_of_entry :
      Option (CostEntry d) → Date → List (PolicyCostEntry d) → List (PolicyCostEntry d)
  end_of_entry none end rows = rows
  end_of_entry (some predecessor) end rows =
      if has_ended_by end predecessor.valid_to
      then rows
      else set_valid_to predecessor.id (some end) rows

  unfoldable pub end_predecessor :
      Text → Date → Text → List (PolicyCostEntry d) → List (PolicyCostEntry d)
  end_predecessor policy_id valid_from exclude_entry_id rows =
      end_of_entry
        (entry_for_period
          (filter (λ e. not (is_excluded exclude_entry_id e)) (entries_of policy_id rows))
          valid_from)
        (valid_from - 1) rows

  -- Whether a row of the policy begins at that date, other than the excluded one.
  abbrev pub collides : Text → Date → Option Text → PolicyCostEntry d → Bool
  collides policy_id valid_from none r =
      eq_text r.policy_id policy_id && (r.entry.valid_from == valid_from)
  collides policy_id valid_from (some exclude_entry_id) r =
      eq_text r.policy_id policy_id
      && (r.entry.valid_from == valid_from)
      && not (eq_text r.entry.id exclude_entry_id)

  pub assert_no_valid_from_collision :
      Text → Date → Option Text → List (PolicyCostEntry d) → Result (Unit {0})
  assert_no_valid_from_collision policy_id valid_from exclude_entry_id rows =
      refuse (any (collides policy_id valid_from exclude_entry_id) rows)
        (bad_request "Another cost entry already exists at this point in time")

  -- A row of the policy that ends in the last millisecond before that date.
  abbrev pub ends_before : Text → Date → PolicyCostEntry d → Bool
  ends_before policy_id valid_from r =
      eq_text r.policy_id policy_id && ends_at (valid_from - 1) r.entry.valid_to

  unfoldable pub restore_predecessor :
      Text → Date → List (PolicyCostEntry d) → List (PolicyCostEntry d)
  restore_predecessor policy_id valid_from rows =
      elim (find (ends_before policy_id valid_from) rows) [
        | none ↦ rows
        | some predecessor ↦ set_valid_to predecessor.entry.id none rows
      ]
