-- ===== src/Cost/Entry/Choice.antt =====
-- cost-schedule.ts: which entry is chosen.
use mathlib.Core.List.{Memᴰ}
use versi_go.Prelude.{
  ◌≤◌, ◌<◌, ◌≡◌, refl, Bool, true, false, ◌⊎◌, inl, inr, none, some, List, [], ◌∷◌, arith, filter,
  sort, head?, head?-sort-none, head?-sort_All, head?-sort-Leads, All, Bool-cases, Option-cases,
}
use versi_go.Cost.Calendar.{Date}
use versi_go.Cost.Money.{Doubles}
use versi_go.Cost.Entry.{
  CostEntry, is_valid_at, created, is_newer, entry_for_period, last_entry, or_else,
  select_active_or_latest_entry,
}

module _ {d : Doubles} where
  is_newer-asym : (a b : CostEntry d) → is_newer a b ≡ true → is_newer b a ≡ false
  unfolding is_newer
  is_newer-asym a b h = ground arith

  is_newer-negtrans :
      (a b c : CostEntry d) → is_newer a b ≡ false → is_newer b c ≡ false → is_newer a c ≡ false
  unfolding is_newer
  is_newer-negtrans a b c h k = ground arith

  filter-All :
      (p : CostEntry d → Bool) (entries all : List (CostEntry d))
      → ((e : CostEntry d) → Memᴰ e entries → Memᴰ e all)
      → All (λ e. Memᴰ e all × (p e ≡ true)) (filter p entries)
  filter-All p [] all into = tt
  filter-All p (e ∷ rest) all into = elim (Bool-cases (p e)) [
    | inl h ↦
        rw h ((into e (Memᴰ.head refl), h), filter-All p rest all (λ x m. into x (Memᴰ.tail m)))
    | inr h ↦ rw h (filter-All p rest all (λ x m. into x (Memᴰ.tail m)))
  ]

  -- `x` does not count before `e`: it begins earlier, or at once and was not created later.
  abbrev pub IsNoNewer : CostEntry d → CostEntry d → Type 0
  IsNoNewer e x =
      (x.valid_from < e.valid_from) ⊎ ((x.valid_from ≡ e.valid_from) × (created x ≤ created e))

  no_newer : (e x : CostEntry d) → is_newer x e ≡ false → IsNoNewer e x
  unfolding is_newer
  no_newer e x h = ground arith

  -- What holds of the entries that pass a test, over all entries.
  All-filter :
      (p : CostEntry d → Bool) (e : CostEntry d) (entries : List (CostEntry d))
      → All (λ x. is_newer x e ≡ false) (filter p entries)
      → All (λ x. (p x ≡ false) ⊎ IsNoNewer e x) entries
  All-filter p e [] h = tt
  All-filter p e (x ∷ rest) h = elim (Bool-cases (p x)) [
    | inl passes ↦
        let h' : All (λ y. is_newer y e ≡ false) (x ∷ filter p rest) = rw passes at h in
        (inr (no_newer e x h'.0), All-filter p e rest h'.1)
    | inr fails ↦
        let h' : All (λ y. is_newer y e ≡ false) (filter p rest) = rw fails at h in
        (inl fails, All-filter p e rest h')
  ]

  filter-nil :
      (p : CostEntry d → Bool) (entries : List (CostEntry d))
      → filter p entries ≡ []
      → All (λ x. p x ≡ false) entries
  filter-nil p [] h = tt
  filter-nil p (x ∷ rest) h = elim (Bool-cases (p x)) [
    | inl passes ↦ absurd (cons_ne (rw passes at h))
    | inr fails ↦ (fails, filter-nil p rest (rw fails at h))
  ]
    where
      cons_ne : ¬ (x ∷ filter p rest ≡ [])
      cons_ne e = cc

  -- The entry that counts at a moment is one of the entries, is valid then, and every other entry is
  -- not valid then, or begins earlier, or begins at the same time and was not created later.
  pub entry_for_period-some :
      (entries : List (CostEntry d)) (moment : Date) (e : CostEntry d)
      → entry_for_period entries moment ≡ some e
      → Memᴰ e entries
        × (is_valid_at moment e ≡ true)
        × All (λ x. (is_valid_at moment x ≡ false) ⊎ IsNoNewer e x) entries
  unfolding entry_for_period
  entry_for_period-some entries moment e h =
      let valid = filter (is_valid_at moment) entries in
      let (listed, passes) =
        head?-sort_All is_newer (λ x. Memᴰ x entries × (is_valid_at moment x ≡ true)) valid e
          (filter-All (is_valid_at moment) entries entries (λ x m. m)) h in
      (
        listed,
        passes,
        All-filter (is_valid_at moment) e entries
            (head?-sort-Leads is_newer is_newer-asym is_newer-negtrans valid e h),
      )

  -- No entry counts at a moment only where none is valid: a gap is a gap in the data.
  pub entry_for_period-none :
      (entries : List (CostEntry d)) (moment : Date)
      → entry_for_period entries moment ≡ none
      → All (λ x. is_valid_at moment x ≡ false) entries
  unfolding entry_for_period
  entry_for_period-none entries moment h =
      filter-nil (is_valid_at moment) entries
        (head?-sort-none is_newer (filter (is_valid_at moment) entries) h)

  -- Some entry is selected as soon as there is one: the one that counts now, or the last.
  pub select_active_or_latest_entry_lem :
      (entries : List (CostEntry d)) (now : Date)
      → select_active_or_latest_entry entries now
        ≡ or_else (entry_for_period entries now) (last_entry entries)
  unfolding select_active_or_latest_entry entry_for_period
  select_active_or_latest_entry_lem entries now = refl

  pub select_total :
      (e : CostEntry d) (rest : List (CostEntry d)) (now : Date)
      → (found : CostEntry d) × (select_active_or_latest_entry (e ∷ rest) now ≡ some found)
  unfolding select_active_or_latest_entry
  select_total e rest now =
      elim (Option-cases (head? (sort is_newer (filter (is_valid_at now) (e ∷ rest))))) [
        | inl none_valid ↦ let (last, is_last) = has_last e rest in (last, rw none_valid is_last)
        | inr (found, h) ↦ (found, rw h)
      ]
    where
      has_last :
          (e : CostEntry d) (rest : List (CostEntry d))
          → (last : CostEntry d) × (last_entry (e ∷ rest) ≡ some last)
      has_last e [] = (e, refl)
      has_last e (f ∷ rest) = has_last f rest
