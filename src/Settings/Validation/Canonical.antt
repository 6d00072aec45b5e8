-- ===== src/Settings/Validation/Canonical.antt =====
-- validateSettingValue: the canonical form of a value is read back as the value.
use versi_go.Prelude.{
  ℕ, suc, ◌≡◌, refl, Text, codes, eq_text, trim, trim_idem, drop_while, drop_while_end, is_space,
  is_empty, are_digits, is_digit, to_string, to_string-are_digits, to_string-some,
  read_digits-to_string, Bool, true, false, Bool-cases, not, ◌&&◌, ◌==◌, if◌then◌else◌, subst,
  Option, none, some, inl, inr, List, [], ◌∷◌, any, map, Number, not_a_number, infinity,
  negative_infinity, negative, natural, ap, ◌∙◌, ltb, safe_limit, double_of-small, print,
  print_natural-small, arith,
}
use versi_go.Settings.{
  SettingDefinition, SettingsValueType, SettingValue, boolean_type, number_type, string_type,
  boolean, number, to_text,
}
use versi_go.Settings.Validation.{
  ValidationResult, ok, invalid, empty, not_boolean, to_lower, read_boolean, check_max, check_min,
  check_range, check_allowed, read_typed, is_below, is_above, read_integer, unsigned,
  validate_setting_value,
}

-- No unit of a numeral is white space.
solid : Text → Bool
solid [] = true
solid (c ∷ t) = not (is_space c) && solid t

digit-solid : (c : ℕ) → is_digit c ≡ true → is_space c ≡ false
unfolding is_space
digit-solid c h = ground arith

digits-solid : (t : Text) → are_digits t ≡ true → solid t ≡ true
unfolding solid
digits-solid [] h = refl
digits-solid (c ∷ t) h = ground (arith, digit-solid c, digits-solid t)

drop_while_end-solid : (t : Text) → solid t ≡ true → drop_while_end is_space t ≡ t
unfolding solid drop_while_end
drop_while_end-solid [] h = refl
drop_while_end-solid (c ∷ t) h = rw (drop_while_end-solid t (ground arith)) (ground arith)

trim-solid : (t : Text) → solid t ≡ true → trim t ≡ t
unfolding solid trim drop_while
trim-solid [] h = drop_while_end-solid [] refl
trim-solid (c ∷ t) h = rw (first c t h) (drop_while_end-solid (c ∷ t) h)
  where
    first : (c : ℕ) (t : Text) → solid (c ∷ t) ≡ true → is_space c ≡ false
    first c t h = ground arith

-- An integer that every double next to it leaves alone: below 2 ^ 53 in size.
abbrev pub is_safe_integer : Number → Bool
is_safe_integer (natural n) = ltb n safe_limit
is_safe_integer (negative n) = ltb (suc n) safe_limit
is_safe_integer _ = false

abbrev pub is_safe : SettingValue → Bool
is_safe (number n) = is_safe_integer n
is_safe _ = true

to_text-natural : (n : ℕ) → ltb n safe_limit ≡ true → to_text (number (natural n)) ≡ to_string n
unfolding to_text print
to_text-natural n h = print_natural-small n h

to_text-negative :
    (n : ℕ) → ltb (suc n) safe_limit ≡ true → to_text (number (negative n)) ≡ 45 ∷ to_string (suc n)
unfolding to_text print
to_text-negative n h = ap (λ t. 45 ∷ t) (print_natural-small (suc n) h)

-- The decimal numeral of such an integer is read as it is.
unsigned-to_string : (n : ℕ) → ltb n safe_limit ≡ true → unsigned (to_string n) ≡ some (natural n)
unfolding unsigned
unsigned-to_string n h =
    rw (to_string-some n, to_string-are_digits n, read_digits-to_string n, double_of-small n h) refl

read_integer-digits :
    (t : Text) → are_digits t ≡ true → is_empty t ≡ false → read_integer t ≡ unsigned t
unfolding read_integer
read_integer-digits [] h e = ground arith
read_integer-digits (c ∷ t) h e = rw (not_minus c t h) refl
  where
    not_minus : (c : ℕ) (t : Text) → are_digits (c ∷ t) ≡ true → (c == 45) ≡ false
    not_minus c t h = ground arith

-- The numeral of a number.
read_integer-to_text :
    (n : Number) → is_safe_integer n ≡ true → read_integer (to_text (number n)) ≡ some n
read_integer-to_text not_a_number h = ground arith
read_integer-to_text infinity h = ground arith
read_integer-to_text negative_infinity h = ground arith
read_integer-to_text (natural n) h = rw (to_text-natural n h) (
    read_integer-digits (to_string n) (to_string-are_digits n) (to_string-some n)
    ∙ unsigned-to_string n h)
read_integer-to_text (negative n) h =
    rw (to_text-negative n h) (unfold read_integer in rw (unsigned-to_string (suc n) h) refl)

to_text-solid : (n : Number) → is_safe_integer n ≡ true → solid (to_text (number n)) ≡ true
unfolding solid is_space
to_text-solid not_a_number h = ground arith
to_text-solid infinity h = ground arith
to_text-solid negative_infinity h = ground arith
to_text-solid (natural n) h =
    rw (to_text-natural n h) (digits-solid (to_string n) (to_string-are_digits n))
to_text-solid (negative n) h =
    rw (to_text-negative n h, digits-solid (to_string (suc n)) (to_string-are_digits (suc n))) refl

to_text-some : (n : Number) → is_safe_integer n ≡ true → is_empty (to_text (number n)) ≡ false
to_text-some not_a_number h = ground arith
to_text-some infinity h = ground arith
to_text-some negative_infinity h = ground arith
to_text-some (natural n) h = rw (to_text-natural n h) (to_string-some n)
to_text-some (negative n) h = rw (to_text-negative n h) refl

-- What validation does with the canonical form of a result.
abbrev Rereads : (Text → ValidationResult) → ValidationResult → Type 0
Rereads read (invalid e) = true ≡ true
Rereads read (ok v canonical) =
    (is_safe v ≡ true)
    → (trim canonical ≡ canonical)
      × (is_empty canonical ≡ false)
      × (read canonical ≡ ok v canonical)

number-Rereads :
    (low high : Option ℕ) (n : Number) (read : Text → ValidationResult)
    → (is_safe_integer n ≡ true → read (to_text (number n)) ≡ check_min low high n)
    → Rereads read (check_min low high n)
number-Rereads low high n read e = bounded low high e
  where
    answered :
        (is_safe_integer n ≡ true → read (to_text (number n)) ≡ ok (number n) (to_text (number n)))
        → Rereads read (ok (number n) (to_text (number n)))
    answered e = λ s. (trim-solid (to_text (number n)) (to_text-solid n s), to_text-some n s, e s)

    below_max :
        (high : Option ℕ)
        → (is_safe_integer n ≡ true → read (to_text (number n)) ≡ check_max high n)
        → Rereads read (check_max high n)
    below_max none e = answered e
    below_max (some bound) e = elim (Bool-cases (is_above n bound)) [
      | inl h ↦ rw h refl
      | inr h ↦ rw h (answered (λ s. rw h at (e s)))
    ]

    bounded :
        (low high : Option ℕ)
        → (is_safe_integer n ≡ true → read (to_text (number n)) ≡ check_min low high n)
        → Rereads read (check_min low high n)
    bounded none high e = below_max high e
    bounded (some bound) high e = elim (Bool-cases (is_below n bound)) [
      | inl h ↦ rw h refl
      | inr h ↦ rw h (below_max high (λ s. rw h at (e s)))
    ]

boolean-Rereads : (input : Text) → Rereads read_boolean (read_boolean input)
unfolding read_boolean trim drop_while drop_while_end is_space eq_text
boolean-Rereads input =
    answer (eq_text (map to_lower input) (codes "true"))
      (eq_text (map to_lower input) (codes "false"))
  where
    answer :
        (is_true is_false : Bool)
        → Rereads read_boolean (
            if is_true
            then ok (boolean true) (codes "true")
            else (if is_false then ok (boolean false) (codes "false") else invalid not_boolean))
    answer true b = λ s. (refl, refl, refl)
    answer false true = λ s. (refl, refl, refl)
    answer false false = refl

string-Rereads :
    (allowed : Option (List Text)) (input : Text)
    → trim input ≡ input
    → is_empty input ≡ false
    → Rereads (check_allowed allowed) (check_allowed allowed input)
string-Rereads none input t e = λ s. (t, e, refl)
string-Rereads (some allowed) input t e = elim (Bool-cases (any (eq_text input) allowed)) [
  | inl h ↦ rw (h, h) (λ s. (t, e, refl))
  | inr h ↦ rw h refl
]

typed-Rereads :
    (type : SettingsValueType) (d : SettingDefinition) (input : Text)
    → trim input ≡ input
    → is_empty input ≡ false
    → Rereads (read_typed type d) (read_typed type d input)
typed-Rereads boolean_type d input t e = boolean-Rereads input
typed-Rereads string_type d input t e = string-Rereads d.allowed_values input t e
typed-Rereads number_type d input t e = in_range (read_integer input) refl
  where
    in_range :
        (o : Option Number)
        → read_integer input ≡ o
        → Rereads (read_typed number_type d) (check_range d o)
    in_range none h = refl
    in_range (some n) h =
        number-Rereads d.min_value d.max_value n (read_typed number_type d)
          (λ s. rw (read_integer-to_text n s) refl)

-- The canonical form of a value that is admitted is not blank, and is itself admitted, as the same
-- value in the same form. (Condition: a value that is a number is below 2 ^ 53 in size.)
pub validate_setting_value-canonical :
    (d : SettingDefinition) (raw : Text) (v : SettingValue) (canonical : Text)
    → validate_setting_value d raw ≡ ok v canonical
    → is_safe v ≡ true
    → (is_empty (trim canonical) ≡ false) × (validate_setting_value d canonical ≡ ok v canonical)
unfolding validate_setting_value
validate_setting_value-canonical d raw v canonical h safe =
    let (t, e, r) =
      subst (Rereads (read_typed d.type d)) h (rereads (is_empty (trim raw)) refl) safe in
    (rw (t, e) refl, rw (t, e, r) refl)
  where
    rereads :
        (b : Bool)
        → is_empty (trim raw) ≡ b
        → Rereads
            (read_typed d.type d)
            (if b then invalid empty else read_typed d.type d (trim raw))
    rereads true e = refl
    rereads false e = typed-Rereads d.type d (trim raw) (trim_idem raw) e
