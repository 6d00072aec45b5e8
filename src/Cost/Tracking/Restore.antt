-- ===== src/Cost/Tracking/Restore.antt =====
-- cost-tracking.service.ts: deleting an entry that was just created restores the entries.
use mathlib.Core.List.{Memᴰ}
use versi_go.Prelude.{
  ◌-◌, ◌≤◌, ◌≡◌, refl, sym, ap, ◌∙◌, Text, eq_text_iff, eq_text_refl, true, false, Option, none,
  some, List, [], ◌∷◌, ◌++◌, filter, find, any, count, arith,
}
use versi_go.Cost.Calendar.{Date}
use versi_go.Cost.Money.{Doubles}
use versi_go.Cost.Tracking.{PolicyCostEntry, set_valid_to, ends_before, restore_predecessor}
use versi_go.Cost.Tracking.Service.{is_row, is_other}
use versi_go.Cost.Tracking.Counts.{has_id}

module _ {d : Doubles} where
  abbrev pub ended_at : Option Date → PolicyCostEntry d → PolicyCostEntry d
  ended_at valid_to r = record r { entry = record r.entry { valid_to = valid_to } }

  -- A row behind the others, with an id that they do not have.
  pub find-fresh :
      (policy_id id : Text) (rows : List (PolicyCostEntry d)) (r : PolicyCostEntry d)
      → count (has_id id) rows ≡ 0
      → is_row policy_id id r ≡ true
      → find (is_row policy_id id) (rows ++ r ∷ []) ≡ some r
  find-fresh policy_id id [] r fresh it = ground arith
  find-fresh policy_id id (x ∷ rest) r fresh it = ground (arith, find-fresh policy_id id rest r)

  pub filter-fresh :
      (id : Text) (rows : List (PolicyCostEntry d)) (r : PolicyCostEntry d)
      → count (has_id id) rows ≡ 0
      → has_id id r ≡ true
      → filter (is_other id) (rows ++ r ∷ []) ≡ rows
  filter-fresh id [] r fresh it = ground arith
  filter-fresh id (x ∷ rest) r fresh it = ground (arith, filter-fresh id rest r)

  -- A write to a row that is there does not reach the row behind.
  pub set_valid_to-append :
      (id : Text) (valid_to : Option Date) (rows : List (PolicyCostEntry d)) (r : PolicyCostEntry d)
      → 1 ≤ count (has_id id) rows
      → set_valid_to id valid_to (rows ++ r ∷ []) ≡ set_valid_to id valid_to rows ++ r ∷ []
  unfolding set_valid_to
  set_valid_to-append id valid_to [] r there = ground arith
  set_valid_to-append id valid_to (x ∷ rest) r there =
      ground (arith, set_valid_to-append id valid_to rest r)

  pub has_id-count :
      (rows : List (PolicyCostEntry d)) (r : PolicyCostEntry d)
      → Memᴰ r rows
      → 1 ≤ count (has_id r.entry.id) rows
  has_id-count [] r m = elim m [ ]
  has_id-count (x ∷ rest) r (Memᴰ.head e) =
      ground (arith, ap (λ y. y.entry.id) e, eq_text_refl r.entry.id)
  has_id-count (x ∷ rest) r (Memᴰ.tail m) = omega (arith, has_id-count rest r m)

  module _ (policy_id : Text) (valid_from : Date) where
    -- The row that was ended is the one that is found.
    find-ended :
        (rows : List (PolicyCostEntry d)) (r : PolicyCostEntry d)
        → Memᴰ r rows
        → count (has_id r.entry.id) rows ≤ 1
        → r.policy_id ≡ policy_id
        → any (ends_before policy_id valid_from) rows ≡ false
        → find
            (ends_before policy_id valid_from)
            (set_valid_to r.entry.id (some (valid_from - 1)) rows)
          ≡ some (ended_at (some (valid_from - 1)) r)
    unfolding set_valid_to
    find-ended [] r m unique named free = elim m [ ]
    find-ended (x ∷ rest) r (Memᴰ.head e) unique named free = rw e (
        ground (
          arith,
          eq_text_refl x.entry.id,
          eq_text_iff x.policy_id policy_id,
          ap (λ y. y.policy_id) e,
        ))
    find-ended (x ∷ rest) r (Memᴰ.tail m) unique named free =
        ground (arith, has_id-count rest r m, find-ended rest r m)

    set-twice :
        (rows : List (PolicyCostEntry d)) (r : PolicyCostEntry d)
        → Memᴰ r rows
        → count (has_id r.entry.id) rows ≤ 1
        → r.entry.valid_to ≡ none
        → set_valid_to r.entry.id none (set_valid_to r.entry.id (some (valid_from - 1)) rows) ≡ rows
    unfolding set_valid_to
    set-twice [] r m unique open_end = elim m [ ]
    set-twice (x ∷ rest) r (Memᴰ.head e) unique open_end =
        rw (e, eq_text_refl x.entry.id)
          (rw (eq_text_refl x.entry.id)
            (ap (λ v. ended_at v x ∷ rest) (sym (sym (ap (λ y. y.entry.valid_to) e) ∙ open_end))))
    set-twice (x ∷ rest) r (Memᴰ.tail m) unique open_end =
        ground (arith, has_id-count rest r m, set-twice rest r m)

    pub restore-ended :
        (rows : List (PolicyCostEntry d)) (r : PolicyCostEntry d)
        → Memᴰ r rows
        → count (has_id r.entry.id) rows ≤ 1
        → r.policy_id ≡ policy_id
        → r.entry.valid_to ≡ none
        → any (ends_before policy_id valid_from) rows ≡ false
        → restore_predecessor policy_id valid_from
            (set_valid_to r.entry.id (some (valid_from - 1)) rows)
          ≡ rows
    unfolding restore_predecessor
    restore-ended rows r m unique named open_end free =
        ground (arith, find-ended rows r m unique named free, set-twice rows r m unique open_end)

    pub restore-none :
        (rows : List (PolicyCostEntry d))
        → any (ends_before policy_id valid_from) rows ≡ false
        → restore_predecessor policy_id valid_from rows ≡ rows
    unfolding restore_predecessor
    restore-none rows free = ground (arith, not_found rows free)
      where
        not_found :
            (xs : List (PolicyCostEntry d))
            → any (ends_before policy_id valid_from) xs ≡ false
            → find (ends_before policy_id valid_from) xs ≡ none
        not_found [] e = refl
        not_found (x ∷ rest) e = ground (arith, not_found rest)
