-- ===== src/Settings/Resolver/Many/Rows.antt =====
-- resolveMany: the keys and the rows that are read, against the table.
use versi_go.Prelude.{
  ◌≡◌, refl, sym, ap, ◌∙◌, subst, Text, eq_text, eq_text_iff, get_elem?, put, get_elem?-put_same,
  get_elem?-put_other, Bool, true, false, Bool-cases, Option-cases, ◌||◌, none, some, inl, inr,
  List, [], ◌∷◌, any, filter, arith,
}
use mathlib.Core.Option.{some-injective}
use versi_go.Settings.Resolver.{StoredSetting, find_row}
use versi_go.Settings.Resolver.Many.{unique_keys, find_rows, stored_by_key}

-- No two rows have one key.
abbrev pub IsKeyUnique : List StoredSetting → Type 0
IsKeyUnique [] = true ≡ true
IsKeyUnique (r ∷ rows) = (any (λ x. eq_text x.key r.key) rows ≡ false) × IsKeyUnique rows

any-seen :
    (p : Text → Bool) (key : Text) (seen : List Text)
    → any (λ k. eq_text k key) seen ≡ true
    → p key ≡ true
    → any p seen ≡ true
any-seen p key [] h k = h
any-seen p key (s ∷ seen) h k = elim (Bool-cases (eq_text s key)) [
  | inl same ↦ rw (subst (λ x. p x ≡ true) (sym ((eq_text_iff s key).0 same)) k) refl
  | inr other ↦ ground (arith, any-seen p key seen (rw other at h) k)
]

-- Leaving out repetitions leaves the set as it is.
pub any-unique_keys :
    (p : Text → Bool) (seen keys : List Text)
    → (any p (unique_keys seen keys) || any p seen) ≡ (any p keys || any p seen)
unfolding unique_keys
any-unique_keys p seen [] = refl
any-unique_keys p seen (key ∷ keys) = elim (Bool-cases (any (λ k. eq_text k key) seen)) [
  | inl there ↦ rw there (ground (arith, any-seen p key seen there, any-unique_keys p seen keys))
  | inr fresh ↦ rw fresh (ground (arith, any-unique_keys p (key ∷ seen) keys))
]

stored_by_key-keeps :
    (key : Text) (rows : List StoredSetting) (stored : List (Text × StoredSetting))
    → any (λ x. eq_text x.key key) rows ≡ false
    → get_elem? key (stored_by_key rows stored) ≡ get_elem? key stored
unfolding stored_by_key
stored_by_key-keeps key [] stored h = refl
stored_by_key-keeps key (r ∷ rows) stored h =
    stored_by_key-keeps key rows (put r.key r stored) (ground arith)
    ∙ get_elem?-put_other r.key key r stored (ground arith)

-- Of unique rows the map finds the one that `find` finds.
get_elem?-stored_by_key :
    (key : Text) (rows : List StoredSetting) (stored : List (Text × StoredSetting))
    (row : StoredSetting)
    → IsKeyUnique rows
    → find_row key rows ≡ some row
    → get_elem? key (stored_by_key rows stored) ≡ some row
unfolding stored_by_key
get_elem?-stored_by_key key [] stored row u h = ground arith
get_elem?-stored_by_key key (r ∷ rows) stored row (once, u) h =
    elim (Bool-cases (eq_text r.key key)) [
      | inl here ↦
          let same : r ≡ row = some-injective _ _ (rw here at h) in
          let named = (eq_text_iff r.key key).0 here in
          stored_by_key-keeps key rows (put r.key r stored)
            (subst (λ x. any (λ y. eq_text y.key x) rows ≡ false) named once)
          ∙ subst (λ x. get_elem? x (put r.key r stored) ≡ some r) named
              (get_elem?-put_same r.key r stored)
          ∙ ap some same
      | inr there ↦ get_elem?-stored_by_key key rows (put r.key r stored) row u (rw there at h)
    ]

find_row-any :
    (key : Text) (rows : List StoredSetting)
    → find_row key rows ≡ none
    → any (λ x. eq_text x.key key) rows ≡ false
find_row-any key [] h = refl
find_row-any key (r ∷ rows) h = elim (Bool-cases (eq_text r.key key)) [
  | inl here ↦ let lost : some r ≡ none = rw here at h in ground arith
  | inr there ↦ rw there (find_row-any key rows (rw there at h))
]

-- The map of unique rows answers as `find` does.
pub get_elem?-rows :
    (key : Text) (rows : List StoredSetting)
    → IsKeyUnique rows
    → get_elem? key (stored_by_key rows []) ≡ find_row key rows
unfolding get_elem?
get_elem?-rows key rows u = elim (Option-cases (find_row key rows)) [
  | inl absent ↦ stored_by_key-keeps key rows [] (find_row-any key rows absent) ∙ sym absent
  | inr (row, there) ↦ get_elem?-stored_by_key key rows [] row u there ∙ sym there
]

-- The rows of the read keys.
pub find_row-read :
    (key : Text) (keys : List Text) (rows : List StoredSetting)
    → any (λ k. eq_text k key) keys ≡ true
    → find_row key (find_rows keys rows) ≡ find_row key rows
find_row-read key keys [] h = refl
find_row-read key keys (r ∷ rows) h = elim (Bool-cases (eq_text r.key key)) [
  | inl here ↦
      let listed : any (λ k. eq_text k r.key) keys ≡ true =
        subst (λ x. any (λ k. eq_text k x) keys ≡ true) (sym ((eq_text_iff r.key key).0 here)) h in
      rw (listed, here) refl
  | inr there ↦ rw there (elim (Bool-cases (any (λ k. eq_text k r.key) keys)) [
    | inl e ↦ rw (e, there) (find_row-read key keys rows h)
    | inr e ↦ rw e (find_row-read key keys rows h)
  ])
]

any-filter-false :
    (p f : StoredSetting → Bool) (rows : List StoredSetting)
    → any p rows ≡ false
    → any p (filter f rows) ≡ false
any-filter-false p f [] h = refl
any-filter-false p f (r ∷ rows) h = ground (arith, any-filter-false p f rows)

pub find_rows-IsKeyUnique :
    (keys : List Text) (rows : List StoredSetting)
    → IsKeyUnique rows
    → IsKeyUnique (find_rows keys rows)
find_rows-IsKeyUnique keys [] u = refl
find_rows-IsKeyUnique keys (r ∷ rows) (once, u) =
    elim (Bool-cases (any (λ k. eq_text k r.key) keys)) [
      | inl e ↦ rw e (
        any-filter-false (λ x. eq_text x.key r.key) (λ x. any (λ k. eq_text k x.key) keys) rows
            once,
        find_rows-IsKeyUnique keys rows u,
      )
      | inr e ↦ rw e (find_rows-IsKeyUnique keys rows u)
    ]
