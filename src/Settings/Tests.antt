-- ===== src/Settings/Tests.antt =====
-- Runs of the settings' definitions.
use versi_go.Settings.Catalog.Bootstrap.{app_port}
use versi_go.Prelude.{
  double_of, print, print_natural, exponent_of, shortest, infinity, ◌^◌, ◌≡◌, refl, codes, eq_text,
  trim, drop_while, drop_while_end, is_space, is_empty, get_elem?, put, read_digits, to_string,
  digits, true, false, none, some, List, [], ◌∷◌, any, All, natural, String, arith,
}
use versi_go.Settings.{number, to_text}
use versi_go.Settings.Catalog.{get_setting_definition, get_boot_preload_keys}
use versi_go.Settings.Catalog.Integrations.{local_auth_max_attempts}
use versi_go.Settings.Catalog.Assistant.{ai_max_retries}
use versi_go.Settings.Validation.{
  ok, invalid, at_most, not_integer, read_integer, unsigned, validate_setting_value,
}
use versi_go.Settings.Validation.Sound.{conforms}
use versi_go.Settings.Validation.Canonical.{validate_setting_value-canonical}
use versi_go.Settings.Resolver.{
  StoredSetting, Environment, EncryptionPort, env, readable, find_row, SettingResolution, of_ui,
  resolved, resolve, resolve_stored,
}
use versi_go.Settings.Resolver.Chain.{effective, reading, resolve-effective}
use versi_go.Settings.Resolver.Values.{resolve-conforms}
use versi_go.Settings.Preload.{is_missing, row_outcome, preload_restart_settings_into_env}
use versi_go.Settings.Resolver.Many.{
  many_unknown, unique_keys, stored_by_key, resolve_keys, resolve_many,
}
use versi_go.Settings.Resolver.Many.Rows.{IsKeyUnique}
use versi_go.Settings.Resolver.Many.Agreement.{Agrees, resolve_many-Agrees}
use versi_go.Settings.Preload.Activation.{throws_at}
use versi_go.Settings.Preload.Untouched.{preload-keeps}
use versi_go.Settings.Preload.Restart.{preload-activates}

abbrev plain : EncryptionPort
plain = record { decrypt = λ t. some t }

abbrev stored : String → String → StoredSetting
stored key value = record {
  key = codes key;
  value_encrypted = none;
  value_plain = some (codes value);
  updated_at = 5;
}

abbrev attempts : StoredSetting
attempts = stored "LOCAL_AUTH_MAX_ATTEMPTS" " 012 "

abbrev retries : StoredSetting
retries = stored "AI_MAX_RETRIES" "7"

abbrev table : List StoredSetting
table = attempts ∷ retries ∷ []

abbrev started : Environment
started =
    (codes "DATABASE_URL", codes "postgres")
    ∷ (codes "SETTINGS_ENCRYPTION_KEY", codes "00")
    ∷ (codes "AI_MAX_RETRIES", codes "4")
    ∷ []

too_many : validate_setting_value ai_max_retries (codes "11") ≡ invalid (at_most 10)
unfolding validate_setting_value trim drop_while drop_while_end is_space read_integer unsigned
    double_of read_digits
too_many = refl

minus : validate_setting_value local_auth_max_attempts (codes "-") ≡ invalid not_integer
unfolding validate_setting_value trim drop_while drop_while_end is_space read_integer unsigned
    double_of read_digits
minus = refl

attempts_read :
    validate_setting_value local_auth_max_attempts (codes " 012 ")
    ≡ ok (number (natural 12)) (codes "12")
unfolding validate_setting_value trim drop_while drop_while_end is_space read_integer unsigned
    double_of read_digits to_text print print_natural to_string digits
attempts_read = refl

-- A port without an upper bound: the numeral of 10 ^ 21 is admitted, and its canonical form is not.
app_port_reread :
    (validate_setting_value app_port (codes "1000000000000000000000")
      ≡ ok (number (natural 1000000000000000000000)) (codes "1e+21"))
    × (validate_setting_value app_port (codes "1e+21") ≡ invalid not_integer)
unfolding validate_setting_value trim drop_while drop_while_end is_space read_integer unsigned
    double_of read_digits to_text print print_natural to_string digits exponent_of shortest
app_port_reread = (refl, refl)

-- The double next to 2 ^ 53 + 1, and what is too large for one.
doubles :
    (double_of 9007199254740993 ≡ natural 9007199254740992)
    × (double_of (10 ^ 400) ≡ infinity)
    × (print (natural 1152921504606846976) ≡ codes "1152921504606847000")
unfolding double_of exponent_of print print_natural shortest to_string digits
doubles = (refl, refl, refl)

retries_found : get_setting_definition (codes "AI_MAX_RETRIES") ≡ some ai_max_retries
unfolding get_setting_definition eq_text
retries_found = refl

attempts_found :
    get_setting_definition (codes "LOCAL_AUTH_MAX_ATTEMPTS") ≡ some local_auth_max_attempts
unfolding get_setting_definition eq_text
attempts_found = refl

retries_row : find_row (codes "AI_MAX_RETRIES") table ≡ some retries
unfolding eq_text
retries_row = refl

retries_reading :
    reading plain (find_row (codes "AI_MAX_RETRIES") table) ≡ readable (some (codes "7"))
unfolding eq_text
retries_reading = refl

attempts_row : find_row (codes "LOCAL_AUTH_MAX_ATTEMPTS") table ≡ some attempts
unfolding eq_text
attempts_row = refl

attempts_only :
    All (λ r. eq_text r.key (codes "LOCAL_AUTH_MAX_ATTEMPTS") ≡ true → r ≡ attempts) table
unfolding eq_text
attempts_only = (λ h. refl, (λ h. ground arith, tt))

calm : any (λ r. throws_at (row_outcome plain r)) table ≡ false
unfolding row_outcome get_setting_definition eq_text validate_setting_value trim drop_while
    drop_while_end is_space read_integer unsigned double_of read_digits
calm = refl

configured :
    (is_missing (get_elem? (codes "DATABASE_URL") started) ≡ false)
    × (is_missing (get_elem? (codes "SETTINGS_ENCRYPTION_KEY") started) ≡ false)
unfolding get_elem? eq_text
configured = (refl, refl)

no_boot_key : any (eq_text (codes "AI_MAX_RETRIES")) get_boot_preload_keys ≡ false
unfolding eq_text
no_boot_key = refl

retries_resolved :
    resolve plain started table (codes "AI_MAX_RETRIES")
    ≡ resolved (of_ui 5 (number (natural 7)) ai_max_retries)
unfolding resolve resolve_stored get_setting_definition eq_text validate_setting_value trim
    drop_while drop_while_end is_space read_integer unsigned double_of read_digits
retries_resolved = refl

preload-activates_example :
    (r : SettingResolution) × (resolve plain
        (preload_restart_settings_into_env (some plain) (some table) started).0
        table
        (codes "LOCAL_AUTH_MAX_ATTEMPTS")
      ≡ resolved r)
    × (r.active.value ≡ some (number (natural 12)))
    × (r.active.source ≡ env)
    × (r.pending_restart_value ≡ none)
preload-activates_example =
    preload-activates plain table started (codes "LOCAL_AUTH_MAX_ATTEMPTS") local_auth_max_attempts
      attempts (codes " 012 ") (number (natural 12)) (codes "12") attempts_found refl attempts_row
      attempts_only calm refl attempts_read configured.0 configured.1

resolve-effective_example :
    (r : SettingResolution) × (resolve plain started table (codes "AI_MAX_RETRIES") ≡ resolved r)
    × ((r.active.source, r.active.value)
        ≡ effective ai_max_retries (some (codes "7")) (get_elem? (codes "AI_MAX_RETRIES") started))
resolve-effective_example =
    resolve-effective plain started table (codes "AI_MAX_RETRIES") ai_max_retries (some (codes "7"))
      retries_found retries_reading

resolve-conforms_example : conforms ai_max_retries (number (natural 7)) ≡ true
resolve-conforms_example =
    resolve-conforms plain started table (codes "AI_MAX_RETRIES") ai_max_retries (some (codes "7"))
      (of_ui 5 (number (natural 7)) ai_max_retries) (number (natural 7)) retries_found
      retries_reading retries_resolved refl

validate_setting_value-canonical_example :
    (is_empty (trim (codes "12")) ≡ false)
    × (validate_setting_value local_auth_max_attempts (codes "12")
        ≡ ok (number (natural 12)) (codes "12"))
validate_setting_value-canonical_example =
    validate_setting_value-canonical local_auth_max_attempts (codes " 012 ") (number (natural 12))
      (codes "12") attempts_read refl

preload-keeps_example :
    get_elem?
      (codes "AI_MAX_RETRIES")
      (preload_restart_settings_into_env (some plain) (some table) started).0
    ≡ get_elem? (codes "AI_MAX_RETRIES") started
preload-keeps_example =
    preload-keeps (some plain) (some table) started (codes "AI_MAX_RETRIES") no_boot_key

table_unique : IsKeyUnique table
unfolding eq_text
table_unique = (refl, (refl, refl))

resolve_many-Agrees_example :
    Agrees
      (resolve plain started table)
      (codes "AI_MAX_RETRIES" ∷ codes "AI_MAX_RETRIES" ∷ [])
      (resolve_many plain started table (codes "AI_MAX_RETRIES" ∷ codes "AI_MAX_RETRIES" ∷ []))
resolve_many-Agrees_example =
    resolve_many-Agrees plain started table (codes "AI_MAX_RETRIES" ∷ codes "AI_MAX_RETRIES" ∷ [])
      table_unique

-- An unknown key, and a repeated one.
unknown_key_read :
    resolve_many plain started table (codes "AI_MAX_RETRIES" ∷ codes "NO_KEY" ∷ []) ≡ many_unknown
unfolding resolve_many unique_keys stored_by_key resolve_keys resolve_stored get_setting_definition
    get_elem? put eq_text validate_setting_value trim drop_while drop_while_end is_space
    read_integer unsigned double_of read_digits
unknown_key_read = refl
