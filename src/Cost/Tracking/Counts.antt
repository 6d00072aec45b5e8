-- ===== src/Cost/Tracking/Counts.antt =====
-- cost-tracking.service.ts: how many rows pass a test before and after a write.
use versi_go.Prelude.{
  ◌+◌, ◌-◌, ◌≤◌, ◌≡◌, inl, inr, refl, ◌∙◌, Text, eq_text, eq_text_iff, Bool, false, not, Option,
  none, some, List, [], ◌∷◌, ◌++◌, ◌==◌, ltb, filter, find, any, count, Bool-cases, Option-cases,
  arith,
}
use versi_go.Identity.Lookup.{bit}
use versi_go.Cost.Calendar.{Date}
use versi_go.Cost.Money.{Doubles}
use versi_go.Cost.Entry.{entry_for_period}
use versi_go.Cost.Tracking.{
  PolicyCostEntry, is_excluded, entries_of, set_valid_to, has_ended_by, end_predecessor, collides,
  ends_before, restore_predecessor,
}
use versi_go.Cost.Tracking.Service.{is_row, update_row, resynchronize}

pub bit-le : (b : Bool) → bit b ≤ 1
bit-le b = ground arith

module _ {d : Doubles} where
  abbrev pub has_id : Text → PolicyCostEntry d → Bool
  has_id id r = eq_text r.entry.id id

  -- A test that does not look at the end of an entry.
  abbrev pub IgnoresEnd : (PolicyCostEntry d → Bool) → Type 0
  IgnoresEnd p =
      (r : PolicyCostEntry d) (valid_to : Option Date)
      → p (record r { entry = record r.entry { valid_to = valid_to } }) ≡ p r

  module _ (p : PolicyCostEntry d → Bool) where
    pub count-set_valid_to :
        (id : Text) (valid_to : Option Date) (rows : List (PolicyCostEntry d))
        → IgnoresEnd p
        → count p (set_valid_to id valid_to rows) ≡ count p rows
    unfolding set_valid_to
    count-set_valid_to id valid_to [] ignores = refl
    count-set_valid_to id valid_to (r ∷ rest) ignores =
        ground (arith, ignores r valid_to, count-set_valid_to id valid_to rest ignores)

    pub count-end_predecessor :
        (policy_id : Text) (valid_from : Date) (exclude : Text) (rows : List (PolicyCostEntry d))
        → IgnoresEnd p
        → count p (end_predecessor policy_id valid_from exclude rows) ≡ count p rows
    unfolding end_predecessor
    count-end_predecessor policy_id valid_from exclude rows ignores =
        elim (Option-cases (
          entry_for_period (filter (λ e. not (is_excluded exclude e)) (entries_of policy_id rows))
            valid_from)) [
              | inl missing ↦ rw missing refl
              | inr (e, found) ↦ elim (Bool-cases (has_ended_by (valid_from - 1) e.valid_to)) [
                | inl ended ↦ rw (found, ended) refl
                | inr open_end ↦
                    rw (found, open_end)
                      (count-set_valid_to e.id (some (valid_from - 1)) rows ignores)
              ]
            ]

    pub count-restore_predecessor :
        (policy_id : Text) (valid_from : Date) (rows : List (PolicyCostEntry d))
        → IgnoresEnd p
        → count p (restore_predecessor policy_id valid_from rows) ≡ count p rows
    unfolding restore_predecessor
    count-restore_predecessor policy_id valid_from rows ignores =
        elim (Option-cases (find (ends_before policy_id valid_from) rows)) [
          | inl missing ↦ ground arith
          | inr (r, found) ↦ ground (arith, count-set_valid_to r.entry.id none rows ignores)
        ]

    pub count-append :
        (rows : List (PolicyCostEntry d)) (r : PolicyCostEntry d)
        → count p (rows ++ r ∷ []) ≡ count p rows + bit (p r)
    count-append [] r = omega arith
    count-append (x ∷ rest) r = omega (arith, count-append rest r)

  pub found-count :
      (policy_id id : Text) (rows : List (PolicyCostEntry d)) (u : PolicyCostEntry d)
      → find (is_row policy_id id) rows ≡ some u
      → 1 ≤ count (has_id id) rows
  found-count policy_id id [] u e = ground arith
  found-count policy_id id (x ∷ rest) u e = ground (arith, found-count policy_id id rest u)

  pub found-policy :
      (policy_id id : Text) (rows : List (PolicyCostEntry d)) (u : PolicyCostEntry d)
      → find (is_row policy_id id) rows ≡ some u
      → u.policy_id ≡ policy_id
  found-policy policy_id id [] u e = ground arith
  found-policy policy_id id (x ∷ rest) u e =
      ground (arith, eq_text_iff x.policy_id policy_id, found-policy policy_id id rest u)

  pub count-resynchronize :
      (p : PolicyCostEntry d → Bool) (policy_id entry_id : Text) (old new : Date)
      (rows : List (PolicyCostEntry d))
      → IgnoresEnd p
      → count p (resynchronize policy_id entry_id old new rows) ≡ count p rows
  unfolding resynchronize
  count-resynchronize p policy_id entry_id old new rows ignores = elim (Bool-cases (new == old)) [
    | inl same ↦ rw same refl
    | inr moved ↦ elim (Bool-cases (ltb old new)) [
      | inl later ↦
          rw (moved, later)
            (count-end_predecessor p policy_id new entry_id (restore_predecessor policy_id old rows)
                ignores
              ∙ count-restore_predecessor p policy_id old rows ignores)
      | inr sooner ↦
          rw (moved, sooner) (count-end_predecessor p policy_id new entry_id rows ignores)
    ]
  ]

  -- The row that is written is the one that was found, since no other has its id.
  pub count-update_row :
      (p : PolicyCostEntry d → Bool) (f : PolicyCostEntry d → PolicyCostEntry d)
      (policy_id id : Text) (rows : List (PolicyCostEntry d)) (u : PolicyCostEntry d)
      → count (has_id id) rows ≤ 1
      → find (is_row policy_id id) rows ≡ some u
      → count p (update_row id f rows) + bit (p u) ≡ count p rows + bit (p (f u))
  unfolding update_row
  count-update_row p f policy_id id [] u unique e = ground arith
  count-update_row p f policy_id id (x ∷ rest) u unique e =
      ground (arith, found-count policy_id id rest u, count-update_row p f policy_id id rest u)

  nobody :
      (policy_id id : Text) (valid_from : Date) (rows : List (PolicyCostEntry d))
      → any (collides policy_id valid_from (some id)) rows ≡ false
      → count (has_id id) rows ≡ 0
      → count (collides policy_id valid_from none) rows ≡ 0
  nobody policy_id id valid_from [] free unused = refl
  nobody policy_id id valid_from (x ∷ rest) free unused =
      ground (arith, nobody policy_id id valid_from rest)

  -- Without a collision, only the row itself can begin at that date.
  pub alone :
      (policy_id id : Text) (valid_from : Date) (rows : List (PolicyCostEntry d))
      (u : PolicyCostEntry d)
      → count (has_id id) rows ≤ 1
      → find (is_row policy_id id) rows ≡ some u
      → any (collides policy_id valid_from (some id)) rows ≡ false
      → count (collides policy_id valid_from none) rows ≡ bit (collides policy_id valid_from none u)
  alone policy_id id valid_from [] u unique e free = ground arith
  alone policy_id id valid_from (x ∷ rest) u unique e free = ground (
    arith,
    found-count policy_id id rest u,
    nobody policy_id id valid_from rest,
    alone policy_id id valid_from rest u,
  )
