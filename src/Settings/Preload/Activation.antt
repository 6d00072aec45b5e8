-- ===== src/Settings/Preload/Activation.antt =====
-- preloadRestartSettingsIntoEnv, and what resolve answers after it.
use versi_go.Prelude.{
  ℕ, suc, ◌≡◌, refl, sym, ◌∙◌, subst, Text, eq_text, eq_text_iff, get_elem?, put,
  get_elem?-put_same, get_elem?-put_other, Bool, true, false, Bool-cases, if◌then◌else◌, Option,
  none, some, inl, inr, List, [], ◌∷◌, any, All, arith,
}
use versi_go.Settings.Catalog.{get_boot_preload_keys}
use versi_go.Settings.Resolver.{find_row, StoredSetting, Environment, EncryptionPort}
use versi_go.Settings.Preload.{
  RowOutcome, throws, keeps, writes, row_outcome, apply_outcomes, find_preloaded, outcomes,
}

abbrev pub throws_at : RowOutcome → Bool
throws_at throws = true
throws_at _ = false

abbrev pub written : RowOutcome → Option Text
written (writes c) = some c
written _ = none

-- The rows of the key write the text, and no row ends the loop.
abbrev pub Settles : Text → Text → List (Text × RowOutcome) → Type 0
Settles key c rows =
    All (λ r. (throws_at r.1 ≡ false) × (eq_text r.0 key ≡ true → written r.1 ≡ some c)) rows

put-same :
    (key k c d : Text) (e : Environment)
    → eq_text k key ≡ true
    → some d ≡ some c
    → get_elem? key (put k d e) ≡ some c
put-same key k c d e same h =
    subst (λ x. get_elem? key (put x d e) ≡ some c) (sym ((eq_text_iff k key).0 same))
      (get_elem?-put_same key d e ∙ h)

apply-holds :
    (key c : Text) (rows : List (Text × RowOutcome)) (e : Environment) (applied : ℕ)
    → Settles key c rows
    → get_elem? key e ≡ some c
    → get_elem? key (apply_outcomes rows e applied).0 ≡ some c
unfolding apply_outcomes
apply-holds key c [] e applied s h = h
apply-holds key c ((k, throws) ∷ rows) e applied ((t, w), s) h = h
apply-holds key c ((k, keeps) ∷ rows) e applied ((t, w), s) h = apply-holds key c rows e applied s h
apply-holds key c ((k, writes d) ∷ rows) e applied ((t, w), s) h =
    apply-holds key c rows (put k d e) (suc applied) s (elim (Bool-cases (eq_text k key)) [
      | inl same ↦ put-same key k c d e same (w same)
      | inr other ↦ get_elem?-put_other k key d e other ∙ h
    ])

pub apply-written :
    (key c : Text) (rows : List (Text × RowOutcome)) (e : Environment) (applied : ℕ)
    → Settles key c rows
    → any (λ r. eq_text r.0 key) rows ≡ true
    → get_elem? key (apply_outcomes rows e applied).0 ≡ some c
unfolding apply_outcomes
apply-written key c [] e applied s h = ground arith
apply-written key c ((k, throws) ∷ rows) e applied ((t, w), s) h = ground arith
apply-written key c ((k, keeps) ∷ rows) e applied ((t, w), s) h =
    elim (Bool-cases (eq_text k key)) [
      | inl same ↦ let lost : none ≡ some c = w same in ground arith
      | inr other ↦ apply-written key c rows e applied s (rw other at h)
    ]
apply-written key c ((k, writes d) ∷ rows) e applied ((t, w), s) h =
    elim (Bool-cases (eq_text k key)) [
      | inl same ↦
          apply-holds key c rows (put k d e) (suc applied) s (put-same key k c d e same (w same))
      | inr other ↦ apply-written key c rows (put k d e) (suc applied) s (rw other at h)
    ]

module _ (port : EncryptionPort) (key c : Text) (row : StoredSetting)
    (writing : written (row_outcome port row) ≡ some c) where
  -- No other row has the key: GlobalIntegrationSetting is unique by it.
  abbrev pub IsOnly : List StoredSetting → Type 0
  IsOnly rows = All (λ r. eq_text r.key key ≡ true → r ≡ row) rows

  pub rows-settle :
      (rows : List StoredSetting)
      → any (λ r. throws_at (row_outcome port r)) rows ≡ false
      → IsOnly rows
      → Settles key c (outcomes port (find_preloaded rows))
  rows-settle [] t only = tt
  rows-settle (r ∷ rows) t (only, others) =
      kept (any (eq_text r.key) get_boot_preload_keys) (rows-settle rows (ground arith) others)
    where
      calm : throws_at (row_outcome port r) ≡ false
      calm = ground arith

      wrote : eq_text r.key key ≡ true → written (row_outcome port r) ≡ some c
      wrote same = subst (λ x. written (row_outcome port x) ≡ some c) (sym (only same)) writing

      kept :
          (b : Bool)
          → Settles key c (outcomes port (find_preloaded rows))
          → Settles key c
              (outcomes port (if b then r ∷ find_preloaded rows else find_preloaded rows))
      kept true s = ((calm, wrote), s)
      kept false s = s

  pub rows-reach :
      (rows : List StoredSetting)
      → any (eq_text key) get_boot_preload_keys ≡ true
      → find_row key rows ≡ some row
      → any (λ r. eq_text r.0 key) (outcomes port (find_preloaded rows)) ≡ true
  rows-reach [] boot found = ground arith
  rows-reach (r ∷ rows) boot found = elim (Bool-cases (eq_text r.key key)) [
    | inl here ↦
        let listed : any (eq_text r.key) get_boot_preload_keys ≡ true =
          subst (λ k. any (eq_text k) get_boot_preload_keys ≡ true)
            (sym ((eq_text_iff r.key key).0 here)) boot in
        rw (listed, here) refl
    | inr there ↦
        kept (any (eq_text r.key) get_boot_preload_keys) (rows-reach rows boot (rw there at found))
  ]
    where
      kept :
          (b : Bool)
          → any (λ x. eq_text x.0 key) (outcomes port (find_preloaded rows)) ≡ true
          → any
              (λ x. eq_text x.0 key)
              (outcomes port (if b then r ∷ find_preloaded rows else find_preloaded rows))
            ≡ true
      kept true h = ground arith
      kept false h = h
