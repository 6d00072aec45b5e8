-- ===== src/Settings/Catalog/Assistant.antt =====
-- packages/foundation/src/config/settings-catalog.ts: the entries of the AI assistant.
use versi_go.Prelude.{codes, false, some, [], ◌∷◌, natural}
use versi_go.Settings.{
  SettingDefinition, setting, runtime, secret, boolean_type, number_type, string_type, boolean,
  number, string,
}

abbrev pub ai_enabled : SettingDefinition
ai_enabled = record (setting runtime boolean_type "AI_ENABLED") {
  default_value = some (boolean false);
}

abbrev pub ai_provider : SettingDefinition
ai_provider = record (setting runtime string_type "AI_PROVIDER") {
  default_value = some (string (codes "ollama"));
  allowed_values = some (codes "ollama" ∷ codes "openai-compat" ∷ []);
}

abbrev pub ai_ollama_base_url : SettingDefinition
ai_ollama_base_url = record (setting runtime string_type "AI_OLLAMA_BASE_URL") {
  default_value = some (string (codes "http://localhost:11434"));
}

abbrev pub ai_ollama_model : SettingDefinition
ai_ollama_model = record (setting runtime string_type "AI_OLLAMA_MODEL") {
  default_value = some (string (codes "llama3"));
}

abbrev pub ai_openai_compat_base_url : SettingDefinition
ai_openai_compat_base_url = setting runtime string_type "AI_OPENAI_COMPAT_BASE_URL"

abbrev pub ai_openai_compat_api_key : SettingDefinition
ai_openai_compat_api_key = setting secret string_type "AI_OPENAI_COMPAT_API_KEY"

abbrev pub ai_openai_compat_model : SettingDefinition
ai_openai_compat_model = record (setting runtime string_type "AI_OPENAI_COMPAT_MODEL") {
  default_value = some (string (codes "gpt-4o-mini"));
}

abbrev pub ai_extraction_timeout_ms : SettingDefinition
ai_extraction_timeout_ms = record (setting runtime number_type "AI_EXTRACTION_TIMEOUT_MS") {
  default_value = some (number (natural 60000));
  min_value = some 1000;
  max_value = some 600000;
}

abbrev pub ai_max_retries : SettingDefinition
ai_max_retries = record (setting runtime number_type "AI_MAX_RETRIES") {
  default_value = some (number (natural 3));
  min_value = some 0;
  max_value = some 10;
}

abbrev pub ai_max_input_tokens : SettingDefinition
ai_max_input_tokens = record (setting runtime number_type "AI_MAX_INPUT_TOKENS") {
  default_value = some (number (natural 4096));
  min_value = some 0;
  max_value = some 1000000;
}
