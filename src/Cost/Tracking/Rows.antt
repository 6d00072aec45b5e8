-- ===== src/Cost/Tracking/Rows.antt =====
-- cost-tracking.service.ts: which entries a policy has after rows were written.
use mathlib.Core.List.{Memᴰ}
use mathlib.Core.List.Memᴰ
use versi_go.Prelude.{
  ◌≡◌, ◌↔◌, ◌⊎◌, inl, inr, refl, sym, ap, ◌∙◌, Text, eq_text, eq_text_iff, Bool, false, Option,
  List, [], ◌∷◌, map, filter, mem-filter, mem-sort, Bool-cases,
}
use versi_go.Cost.Calendar.{Date}
use versi_go.Cost.Money.{Doubles}
use versi_go.Cost.Entry.{CostEntry}
use versi_go.Cost.Tracking.{PolicyCostEntry, begins_earlier, entries_of, set_valid_to}

module _ {d : Doubles} where
  -- The entries of a policy are those of its rows.
  pub entries_of_iff :
      (policy_id : Text) (rows : List (PolicyCostEntry d)) (e : CostEntry d)
      → Memᴰ e (entries_of policy_id rows)
        ↔ ((r : PolicyCostEntry d) × Memᴰ r rows × (r.policy_id ≡ policy_id) × (r.entry ≡ e))
  unfolding entries_of
  entries_of_iff policy_id rows e =
      let of_policy : PolicyCostEntry d → Bool = λ r. eq_text r.policy_id policy_id in
      let sorted = mem-sort begins_earlier e (map (λ r. r.entry) (filter of_policy rows)) in
      (
        λ m.
            let (r, n, same) = Memᴰ.of_map (λ r. r.entry) (filter of_policy rows) (sorted.0 m) in
            let (listed, named) = (mem-filter of_policy r rows).0 n in
            (r, listed, (eq_text_iff r.policy_id policy_id).0 named, same),
        λ (r, listed, named, same).
            let kept =
              (mem-filter of_policy r rows).1
                (listed, (eq_text_iff r.policy_id policy_id).1 named) in
            sorted.1 (Memᴰ.cast (sym same) (Memᴰ.map (λ r. r.entry) kept)),
      )

  -- A row behind the write is an old one, or the old one with that id at another end.
  pub set_valid_to-mem :
      (id : Text) (valid_to : Option Date) (rows : List (PolicyCostEntry d)) (r : PolicyCostEntry d)
      → Memᴰ r (set_valid_to id valid_to rows)
      → Memᴰ r rows
        ⊎ ((old : PolicyCostEntry d) × Memᴰ old rows
            × (old.entry.id ≡ id)
            × (r ≡ record old { entry = record old.entry { valid_to = valid_to } }))
  unfolding set_valid_to
  set_valid_to-mem id valid_to [] r m = inl m
  set_valid_to-mem id valid_to (x ∷ rest) r m = elim (Bool-cases (eq_text x.entry.id id)) [
    | inl it ↦ elim (Memᴰ.cases_cons (rw it at m)) [
      | inl e ↦ inr (x, Memᴰ.head refl, (eq_text_iff x.entry.id id).0 it, e)
      | inr later ↦ inl (Memᴰ.tail later)
    ]
    | inr other ↦ elim (Memᴰ.cases_cons (rw other at m)) [
      | inl e ↦ inl (Memᴰ.head e)
      | inr later ↦ elim (set_valid_to-mem id valid_to rest r later) [
        | inl old ↦ inl (Memᴰ.tail old)
        | inr (old, n, named, e) ↦ inr (old, Memᴰ.tail n, named, e)
      ]
    ]
  ]

  -- A row with another id stays.
  pub mem-set_valid_to :
      (id : Text) (valid_to : Option Date) (rows : List (PolicyCostEntry d)) (r : PolicyCostEntry d)
      → Memᴰ r rows
      → eq_text r.entry.id id ≡ false
      → Memᴰ r (set_valid_to id valid_to rows)
  unfolding set_valid_to
  mem-set_valid_to id valid_to [] r m other = elim m [ ]
  mem-set_valid_to id valid_to (x ∷ rest) r (Memᴰ.head e) other =
      let same : eq_text x.entry.id id ≡ false = sym (ap (λ y. eq_text y.entry.id id) e) ∙ other in
      rw same (Memᴰ.head e)
  mem-set_valid_to id valid_to (x ∷ rest) r (Memᴰ.tail m) other =
      elim (Bool-cases (eq_text x.entry.id id)) [
        | inl it ↦ rw it (Memᴰ.tail m)
        | inr not_it ↦ rw not_it (Memᴰ.tail (mem-set_valid_to id valid_to rest r m other))
      ]
