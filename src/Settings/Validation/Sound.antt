-- ===== src/Settings/Validation/Sound.antt =====
-- validateSettingValue: the values that it admits.
use mathlib.Core.Option
use mathlib.Core.Option.{some-injective}
use versi_go.Prelude.{
  infinity, negative_infinity, negative, natural, zero, suc, ltb, ◌==◌, are_digits, read_digits,
  double_of, double_of-small, double_of-large, safe_limit, finite_or_infinite, not_a_number, [],
  ◌∷◌, ℕ, ◌≡◌, refl, Text, eq_text, trim, is_empty, Bool, true, false, Bool-cases, not, ◌&&◌,
  if◌then◌else◌, subst, Option, none, some, inl, inr, List, any, Number, arith,
}
use versi_go.Settings.{
  SettingDefinition, SettingsValueType, SettingValue, boolean_type, number_type, string_type,
  boolean, number, string,
}
use versi_go.Settings.Validation.{
  ValidationResult, ok, invalid, empty, read_boolean, check_max, check_min, check_range,
  check_allowed, read_typed, is_below, is_above, read_integer, unsigned, negated,
  validate_setting_value,
}

abbrev within : (Number → ℕ → Bool) → Option ℕ → Number → Bool
within outside none n = true
within outside (some bound) n = not (outside n bound)

abbrev is_among : Option (List Text) → Text → Bool
is_among none t = true
is_among (some allowed) t = any (eq_text t) allowed

abbrev pub is_some_number : Number → Bool
is_some_number not_a_number = false
is_some_number _ = true

-- A value of the type that an entry has, among its choices, or a number within its bounds: an integer, or
-- an infinity where there is no bound on its side.
unfoldable pub conforms_to :
    SettingsValueType → Option (List Text) → Option ℕ → Option ℕ → SettingValue → Bool
conforms_to boolean_type allowed low high (boolean b) = true
conforms_to number_type allowed low high (number n) =
    is_some_number n && within is_below low n && within is_above high n
conforms_to string_type allowed low high (string t) = is_among allowed t
conforms_to type allowed low high v = false

unfoldable pub conforms : SettingDefinition → SettingValue → Bool
unfolding conforms_to
conforms d v = conforms_to d.type d.allowed_values d.min_value d.max_value v

abbrev Admits : (SettingValue → Bool) → ValidationResult → Type 0
Admits good (invalid e) = true ≡ true
Admits good (ok v canonical) = good v ≡ true

boolean-Admits :
    (allowed : Option (List Text)) (low high : Option ℕ) (input : Text)
    → Admits (conforms_to boolean_type allowed low high) (read_boolean input)
unfolding read_boolean conforms_to
boolean-Admits allowed low high input = ground arith

max-Admits :
    (allowed : Option (List Text)) (low high : Option ℕ) (n : Number)
    → is_some_number n ≡ true
    → within is_below low n ≡ true
    → Admits (conforms_to number_type allowed low high) (check_max high n)
unfolding conforms_to
max-Admits allowed low none n f h = rw (f, h) refl
max-Admits allowed low (some bound) n f h = elim (Bool-cases (is_above n bound)) [
  | inl e ↦ rw e refl
  | inr e ↦ rw (e, f, h, e) refl
]

min-Admits :
    (allowed : Option (List Text)) (low high : Option ℕ) (n : Number)
    → is_some_number n ≡ true
    → Admits (conforms_to number_type allowed low high) (check_min low high n)
min-Admits allowed none high n f = max-Admits allowed none high n f refl
min-Admits allowed (some bound) high n f = elim (Bool-cases (is_below n bound)) [
  | inl e ↦ rw e refl
  | inr e ↦ rw e (max-Admits allowed (some bound) high n f (rw e refl))
]

string-Admits :
    (allowed : Option (List Text)) (low high : Option ℕ) (input : Text)
    → Admits (conforms_to string_type allowed low high) (check_allowed allowed input)
unfolding conforms_to
string-Admits none low high input = refl
string-Admits (some allowed) low high input = elim (Bool-cases (any (eq_text input) allowed)) [
  | inl e ↦ rw (e, e) refl
  | inr e ↦ rw e refl
]

rounded-is_some_number : (n : ℕ) → is_some_number (finite_or_infinite n) ≡ true
rounded-is_some_number n = ground arith

double_of-is_some_number : (n : ℕ) → is_some_number (double_of n) ≡ true
double_of-is_some_number n = elim (Bool-cases (ltb n safe_limit)) [
  | inl small ↦ rw (double_of-small n small) refl
  | inr large ↦ rw (double_of-large n large) (rounded-is_some_number _)
]

negated-is_some_number : (n : Number) → is_some_number n ≡ true → is_some_number (negated n) ≡ true
negated-is_some_number not_a_number h = h
negated-is_some_number infinity h = refl
negated-is_some_number negative_infinity h = refl
negated-is_some_number (negative n) h = refl
negated-is_some_number (natural zero) h = refl
negated-is_some_number (natural (suc n)) h = refl

unsigned-is_some_number : (t : Text) (n : Number) → unsigned t ≡ some n → is_some_number n ≡ true
unfolding unsigned
unsigned-is_some_number t n h = elim (Bool-cases (not (is_empty t) && are_digits t)) [
  | inl digits ↦
      subst (λ m. is_some_number m ≡ true) (some-injective _ _ (rw digits at h))
        (double_of-is_some_number (read_digits 0 t))
  | inr other ↦ let none_read : none ≡ some n = rw other at h in ground arith
]

-- A numeral is never read as NaN.
pub read_integer-is_some_number :
    (t : Text) (n : Number) → read_integer t ≡ some n → is_some_number n ≡ true
unfolding read_integer
read_integer-is_some_number [] n h = ground arith
read_integer-is_some_number (c ∷ t) n h = elim (Bool-cases (c == 45)) [
  | inr plain ↦ unsigned-is_some_number (c ∷ t) n (rw plain at h)
  | inl minus ↦ of_minus (unsigned t) refl (rw minus at h)
]
  where
    of_minus :
        (o : Option Number)
        → unsigned t ≡ o
        → Option.map negated o ≡ some n
        → is_some_number n ≡ true
    of_minus none e k = ground arith
    of_minus (some m) e k =
        subst (λ x. is_some_number x ≡ true) (some-injective _ _ k)
          (negated-is_some_number m (unsigned-is_some_number t m e))

typed-Admits :
    (type : SettingsValueType) (d : SettingDefinition) (input : Text)
    → Admits (conforms_to type d.allowed_values d.min_value d.max_value) (read_typed type d input)
typed-Admits boolean_type d input = boolean-Admits d.allowed_values d.min_value d.max_value input
typed-Admits number_type d input = in_range (read_integer input) refl
  where
    in_range :
        (o : Option Number)
        → read_integer input ≡ o
        → Admits
            (conforms_to number_type d.allowed_values d.min_value d.max_value)
            (check_range d o)
    in_range none h = refl
    in_range (some n) h =
        min-Admits d.allowed_values d.min_value d.max_value n
          (read_integer-is_some_number input n h)
typed-Admits string_type d input = string-Admits d.allowed_values d.min_value d.max_value input

-- A value that is admitted conforms to its entry.
pub validate_setting_value-conforms :
    (d : SettingDefinition) (raw : Text) (v : SettingValue) (canonical : Text)
    → validate_setting_value d raw ≡ ok v canonical
    → conforms d v ≡ true
unfolding validate_setting_value conforms
validate_setting_value-conforms d raw v canonical h =
    subst (Admits (conforms_to d.type d.allowed_values d.min_value d.max_value)) h
      (admits (is_empty (trim raw)))
  where
    admits :
        (b : Bool)
        → Admits
            (conforms_to d.type d.allowed_values d.min_value d.max_value)
            (if b then invalid empty else read_typed d.type d (trim raw))
    admits true = refl
    admits false = typed-Admits d.type d (trim raw)
