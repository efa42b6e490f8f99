-- ===== src/Config/Patch.antt =====
-- src/config.rs, `Configuration::patch`: the settings that a chosen value of an option asks for.
-- `encode` is the schema's encoding of an option as a document.
pub mod Shown
pub mod Confirmed
pub mod Accepted
use codex_acp_v.Config.Options.{setting, options}
use codex_acp_v.Json.{Value, obj, string, as_array, at, null, bool, is_text, arr}
use codex_acp_v.Config.{
  OptionValue, ConfigOption, ConfigError, id_value, other_value, not_an_id, backend_sandbox,
  unknown_option, backend_mode, unsupported_value,
}
use codex_acp_v.Server.{Configuration}
use codex_acp_v.Common.{
  String, Bool, Option, Result, if◌then◌else◌, is_some_and, List, some, ◌==◌, ◌||◌, ◌>>=◌, ok, ◌∷◌,
  or_fail, any, none, [], unwrap_or, lookup, false, find, ◌>>◌, ensure, err,
}

-- Whether an encoded option offers a value.
unfoldable pub offers : Value → String → Bool
offers encoded value =
    is_some_and (as_array (at encoded "options"))
      (λ choices. any (λ choice. is_text (at choice "value") value) choices)

unfoldable pub sandbox_policy : String → Option Value
sandbox_policy value =
    if value == "readOnly"
    then some (obj (("type", string "readOnly") ∷ ("networkAccess", bool false) ∷ []))
    else if value == "workspaceWrite"
    then some (
        obj (
          ("type", string "workspaceWrite")
          ∷ ("writableRoots", arr [])
          ∷ ("networkAccess", bool false)
          ∷ ("excludeTmpdirEnvVar", bool false)
          ∷ ("excludeSlashTmp", bool false)
          ∷ []))
    else if value == "dangerFullAccess"
    then some (obj (("type", string "dangerFullAccess") ∷ []))
    else none

unfoldable pub mode_policy : Configuration → String → Value
mode_policy configuration value =
    let settings = obj (
      ("model", string (setting configuration "model" "default"))
      ∷ ("reasoning_effort", unwrap_or (lookup configuration.settings "effort") null)
      ∷ ("developer_instructions", null)
      ∷ []) in
    obj (("mode", string value) ∷ ("settings", settings) ∷ [])

abbrev single : String → Value → Result ConfigError (List (String × Value))
single key value = ok ((key, value) ∷ [])

-- The patch by the option, once the value is known to be offered.
unfoldable pub patch_of :
    Configuration → String → String → Result ConfigError (List (String × Value))
patch_of configuration id value =
    if id == "model" || id == "effort" || id == "approvalPolicy"
    then single id (string value)
    else if id == "serviceTier"
    then single id (if value == "default" then null else string value)
    else if id == "sandbox"
    then (do policy ← or_fail (sandbox_policy value) backend_sandbox; single "sandboxPolicy" policy)
    else if id == "mode"
    then (do
      ensure (value == "default" || value == "plan") backend_mode
      single "collaborationMode" (mode_policy configuration value))
    else err unknown_option

unfoldable pub value_id : OptionValue → Option String
value_id (id_value value) = some value
value_id (other_value value) = none

module _ (encode : ConfigOption → Value) where
  unfoldable pub patch :
      Configuration → String → OptionValue → Result ConfigError (List (String × Value))
  patch configuration id choice = do
    value ← or_fail (value_id choice) not_an_id
    option ←
        or_fail (find (λ option. option.config_id == id) (options configuration)) unknown_option
    ensure (offers (encode option) value) (unsupported_value id)
    patch_of configuration id value
