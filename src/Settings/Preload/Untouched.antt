-- ===== src/Settings/Preload/Untouched.antt =====
-- preloadRestartSettingsIntoEnv: the variables that it leaves.
use versi_go.Prelude.{
  ℕ, suc, ◌≡◌, refl, sym, ◌∙◌, subst, Text, codes, eq_text, eq_text_iff, get_elem?, put,
  get_elem?-put_other, Bool, true, false, Bool-cases, ◌||◌, if◌then◌else◌, Option, none, some, inl,
  inr, List, [], ◌∷◌, any, All, arith,
}
use versi_go.Settings.Catalog.{get_boot_preload_keys}
use versi_go.Settings.Resolver.{StoredSetting, Environment, EncryptionPort}
use versi_go.Settings.Preload.{
  RowOutcome, throws, keeps, writes, apply_outcomes, find_preloaded, outcomes, work, is_missing,
  preload_restart_settings_into_env,
}

-- No row has the key.
abbrev Elsewhere : Text → List (Text × RowOutcome) → Type 0
Elsewhere key rows = All (λ r. eq_text r.0 key ≡ false) rows

apply-keeps :
    (key : Text) (rows : List (Text × RowOutcome)) (e : Environment) (applied : ℕ)
    → Elsewhere key rows
    → get_elem? key (apply_outcomes rows e applied).0 ≡ get_elem? key e
unfolding apply_outcomes
apply-keeps key [] e applied h = refl
apply-keeps key ((k, throws) ∷ rows) e applied (h, hs) = refl
apply-keeps key ((k, keeps) ∷ rows) e applied (h, hs) = apply-keeps key rows e applied hs
apply-keeps key ((k, writes c) ∷ rows) e applied (h, hs) =
    apply-keeps key rows (put k c e) (suc applied) hs ∙ get_elem?-put_other k key c e h

outcomes-Elsewhere :
    (port : EncryptionPort) (key : Text) (rows : List StoredSetting)
    → any (eq_text key) get_boot_preload_keys ≡ false
    → Elsewhere key (outcomes port (find_preloaded rows))
outcomes-Elsewhere port key [] h = tt
outcomes-Elsewhere port key (r ∷ rows) h =
    elim (Bool-cases (any (eq_text r.key) get_boot_preload_keys)) [
      | inl there ↦ rw there (different r.key there, outcomes-Elsewhere port key rows h)
      | inr other ↦ rw other (outcomes-Elsewhere port key rows h)
    ]
  where
    different : (k : Text) → any (eq_text k) get_boot_preload_keys ≡ true → eq_text k key ≡ false
    different k there = elim (Bool-cases (eq_text k key)) [
      | inl same ↦
          let clash : true ≡ false =
            sym there
            ∙ subst (λ x. any (eq_text x) get_boot_preload_keys ≡ false)
                (sym ((eq_text_iff k key).0 same)) h in
          ground arith
      | inr e ↦ e
    ]

-- The preload changes no variable but those of the boot keys.
pub preload-keeps :
    (port : Option EncryptionPort) (database : Option (List StoredSetting)) (e : Environment)
    (key : Text)
    → any (eq_text key) get_boot_preload_keys ≡ false
    → get_elem? key (preload_restart_settings_into_env port database e).0 ≡ get_elem? key e
unfolding preload_restart_settings_into_env
preload-keeps port database e key h = guarded (
    is_missing (get_elem? (codes "DATABASE_URL") e)
    || is_missing (get_elem? (codes "SETTINGS_ENCRYPTION_KEY") e))
  where
    worked :
        (port : Option EncryptionPort) (database : Option (List StoredSetting))
        → get_elem? key (work port database e).0 ≡ get_elem? key e
    worked port none = refl
    worked none (some rows) = refl
    worked (some port) (some rows) =
        apply-keeps key (outcomes port (find_preloaded rows)) e 0
          (outcomes-Elsewhere port key rows h)

    guarded :
        (b : Bool) → get_elem? key (if b then (e, 0) else work port database e).0 ≡ get_elem? key e
    guarded true = refl
    guarded false = worked port database
