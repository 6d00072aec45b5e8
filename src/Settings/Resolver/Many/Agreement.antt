-- ===== src/Settings/Resolver/Many/Agreement.antt =====
-- resolveMany against resolve.
use versi_go.Prelude.{
  ◌≡◌, refl, sym, ap, ◌∙◌, Text, eq_text, eq_text_refl, get_elem?, put, has, has-put, get_elem?-has,
  get_elem?-put, Bool, true, ◌||◌, some, inl, inr, List, [], ◌∷◌, any, arith,
}
use versi_go.Settings.Catalog.{get_setting_definition}
use versi_go.Settings.Resolver.{
  Environment, EncryptionPort, StoredSetting, SettingResolution, Resolved, unknown_key,
  decryption_failed, resolved, resolve_defined, resolve,
}
use versi_go.Settings.Resolver.Many.{
  unique_keys, find_rows, stored_by_key, ManyResolved, many_unknown, many_undecryptable, many,
  and_set, resolve_keys, resolve_many,
}
use versi_go.Settings.Resolver.Many.Rows.{
  IsKeyUnique, any-unique_keys, find_row-read, find_rows-IsKeyUnique, get_elem?-rows,
}

abbrev lists : List Text → Text → Bool
lists keys key = any (λ k. eq_text k key) keys

-- What a result says of the reads of single keys: a map has the keys, each with what its read returns,
-- and an exception is the exception of the read of one of the keys.
abbrev pub Agrees : (Text → Resolved) → List Text → ManyResolved → Type 0
Agrees ask keys many_unknown = (key : Text) × (lists keys key ≡ true) × (ask key ≡ unknown_key)
Agrees ask keys many_undecryptable =
    (key : Text) × (lists keys key ≡ true) × (ask key ≡ decryption_failed)
Agrees ask keys (many results) =
    (key : Text)
    → (has key results ≡ lists keys key)
      × ((r : SettingResolution) → get_elem? key results ≡ some r → ask key ≡ resolved r)

-- The same in the middle of the loop.
abbrev Continues :
    (Text → Resolved) → List Text → List (Text × SettingResolution) → ManyResolved → Type 0
Continues ask keys before many_unknown = Agrees ask keys many_unknown
Continues ask keys before many_undecryptable = Agrees ask keys many_undecryptable
Continues ask keys before (many results) =
    (key : Text)
    → (has key results ≡ (lists keys key || has key before))
      × ((r : SettingResolution) → get_elem? key results ≡ some r → ask key ≡ resolved r)

module _ (port : EncryptionPort) (e : Environment) (stored : List (Text × StoredSetting)) where
  abbrev ask_stored : Text → Resolved
  ask_stored key = resolve_defined port e (get_elem? key stored) (get_setting_definition key)

  resolve_keys-Continues :
      (keys : List Text) (results : List (Text × SettingResolution))
      → ((key : Text) (r : SettingResolution)
          → get_elem? key results ≡ some r
          → ask_stored key ≡ resolved r)
      → Continues ask_stored keys results (resolve_keys port e stored keys results)
  unfolding resolve_keys
  resolve_keys-Continues [] results h = λ key. (refl, h key)
  resolve_keys-Continues (key ∷ keys) results h =
      round (ask_stored key) refl (resolve_keys-Continues keys)
    where
      later :
          (r : SettingResolution)
          → ask_stored key ≡ resolved r
          → (k : Text) (x : SettingResolution) → get_elem? k (put key r results) ≡ some x
          → ask_stored k ≡ resolved x
      later r a k x there = elim (get_elem?-put key k r x results there) [
        | inl (same, named) ↦ ap ask_stored named ∙ a ∙ ap resolved (sym same)
        | inr before ↦ h k x before
      ]

      widen :
          (r : SettingResolution) (m : ManyResolved)
          → Continues ask_stored keys (put key r results) m
          → Continues ask_stored (key ∷ keys) results m
      widen r many_unknown (k, l, a) = (k, ground arith, a)
      widen r many_undecryptable (k, l, a) = (k, ground arith, a)
      widen r (many m) c = λ k. (ground (arith, (c k).0, has-put key k r results), (c k).1)

      round :
          (a : Resolved)
          → ask_stored key ≡ a
          → ((results : List (Text × SettingResolution))
              → ((k : Text) (r : SettingResolution)
                  → get_elem? k results ≡ some r
                  → ask_stored k ≡ resolved r)
              → Continues ask_stored keys results (resolve_keys port e stored keys results))
          → Continues ask_stored
              (key ∷ keys)
              results
              (and_set a key results (λ later. resolve_keys port e stored keys later))
      round unknown_key a ih = (key, rw (eq_text_refl key) refl, a)
      round decryption_failed a ih = (key, rw (eq_text_refl key) refl, a)
      round (resolved r) a ih =
          widen r (resolve_keys port e stored keys (put key r results))
            (ih (put key r results) (later r a))

-- resolveMany on a table in which no two rows have one key: where it returns a map, the map has exactly
-- the keys that were asked for, each with what `resolve` returns for it; where it throws, `resolve`
-- throws the same for one of the keys.
pub resolve_many-Agrees :
    (port : EncryptionPort) (e : Environment) (rows : List StoredSetting) (keys : List Text)
    → IsKeyUnique rows
    → Agrees (resolve port e rows) keys (resolve_many port e rows keys)
unfolding resolve_many resolve has get_elem?
resolve_many-Agrees port e rows keys u =
    transfer (resolve_keys port e stored unique [])
      (resolve_keys-Continues port e stored unique [] (λ k r h. ground arith))
  where
    unique : List Text
    unique = unique_keys [] keys

    stored : List (Text × StoredSetting)
    stored = stored_by_key (find_rows unique rows) []

    listed : (key : Text) → lists unique key ≡ lists keys key
    listed key = ground (arith, any-unique_keys (λ k. eq_text k key) [] keys)

    found :
        (key : Text)
        → lists unique key ≡ true
        → ask_stored port e stored key ≡ resolve port e rows key
    found key h =
        let rows_found =
          get_elem?-rows key (find_rows unique rows) (find_rows-IsKeyUnique unique rows u)
          ∙ find_row-read key unique rows h in
        rw rows_found refl

    transfer :
        (m : ManyResolved)
        → Continues (ask_stored port e stored) unique [] m
        → Agrees (resolve port e rows) keys m
    transfer many_unknown (k, l, a) = (k, sym (listed k) ∙ l, sym (found k l) ∙ a)
    transfer many_undecryptable (k, l, a) = (k, sym (listed k) ∙ l, sym (found k l) ∙ a)
    transfer (many m) c = λ key.
        let present : has key m ≡ lists unique key = ground (arith, (c key).0) in
        (
          present ∙ listed key,
          λ r h. sym (found key (sym present ∙ get_elem?-has key r m h)) ∙ (c key).1 r h,
        )
