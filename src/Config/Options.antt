-- ===== src/Config/Options.antt =====
-- src/config.rs, `Configuration::options`: the options a client is shown, with their choices.
use codex_acp_v.Json.{Value, is_text, as_array, as_str, get_str, at}
use codex_acp_v.Config.{SelectOption, ConfigOption, model_category, mode_category}
use codex_acp_v.Server.{Configuration}
use codex_acp_v.Common.{
  Option, List, String, some, if◌then◌else◌, and_then, find, none, ◌∷◌, unwrap_or, any, contains,
  lookup, [], ◌++◌, map, ◌==◌, filter_map,
}

-- `Configuration::string`
abbrev pub setting : Configuration → String → String → String
setting configuration key fallback =
    unwrap_or (and_then (lookup configuration.settings key) as_str) fallback

abbrev plain : String → String → SelectOption
plain value name = record { value = value; name = name; description = none }

-- The choices with the current value among them.
unfoldable pub with_current : String → List SelectOption → List SelectOption
with_current current choices =
    if any (λ choice. choice.value == current) choices
    then choices
    else choices ++ (plain current current ∷ [])

unfoldable pub model_choice : Value → Option SelectOption
model_choice model =
    and_then (get_str "model" model)
      (λ value. some (plain value (unwrap_or (get_str "displayName" model) "Model")))

unfoldable pub effort_choice : Value → Option SelectOption
effort_choice effort = and_then (as_str (at effort "reasoningEffort")) (λ value. some (record {
  value = value;
  name = value;
  description = some (unwrap_or (as_str (at effort "description")) value);
}))

unfoldable pub tier_choice : Value → Option SelectOption
tier_choice tier =
    and_then (as_str (at tier "id"))
      (λ id. and_then (as_str (at tier "name")) (λ name. some (plain id name)))

-- The list under a member of the catalogue entry of the current model.
unfoldable pub catalog_list : Option Value → String → Option (List Value)
catalog_list catalog key = and_then catalog (λ model. as_array (at model key))

unfoldable pub catalog_entry : Configuration → Option Value
catalog_entry configuration =
    find (λ model. is_text (at model "model") (setting configuration "model" "default"))
      configuration.models

unfoldable pub model_option : Configuration → ConfigOption
model_option configuration =
    let current = setting configuration "model" "default" in
    record {
      config_id = "model";
      name = "Model";
      category = some model_category;
      current_value = current;
      choices = with_current current (filter_map model_choice configuration.models);
    }

unfoldable pub effort_option : Configuration → List SelectOption → Option ConfigOption
effort_option configuration [] = none
effort_option configuration (first ∷ more) =
    let catalog = catalog_entry configuration in
    let named = and_then catalog (λ model. as_str (at model "defaultReasoningEffort")) in
    some (record {
      config_id = "effort";
      name = "Reasoning effort";
      category = none;
      current_value = setting configuration "effort" (unwrap_or named "medium");
      choices = first ∷ more;
    })

unfoldable pub effort_choices : Configuration → List SelectOption
effort_choices configuration =
    elim (catalog_list (catalog_entry configuration) "supportedReasoningEfforts") [
      | none ↦ []
      | some efforts ↦ filter_map effort_choice efforts
    ]

unfoldable pub tier_option : Configuration → ConfigOption
tier_option configuration =
    let listed = unwrap_or (catalog_list (catalog_entry configuration) "serviceTiers") [] in
    let current = setting configuration "serviceTier" "default" in
    record {
      config_id = "serviceTier";
      name = "Service tier";
      category = none;
      current_value = current;
      choices = with_current current (plain "default" "Default" ∷ filter_map tier_choice listed);
    }

unfoldable pub select_option : String → String → String → List String → ConfigOption
select_option id label current choices = record {
  config_id = id;
  name = label;
  category = none;
  current_value = current;
  choices = map (λ value. plain value value) choices;
}

unfoldable pub approval_option : Configuration → Option ConfigOption
approval_option configuration =
    and_then (and_then (lookup configuration.settings "approvalPolicy") as_str) (λ policy. some (
      select_option "approvalPolicy" "Approval policy" policy
        ("untrusted" ∷ "on-failure" ∷ "on-request" ∷ "never" ∷ [])))

abbrev pub current_sandbox : Configuration → String
current_sandbox configuration =
    unwrap_or
      (and_then (lookup configuration.settings "sandboxPolicy") (λ value. as_str (at value "type")))
      "readOnly"

abbrev pub sandbox_presets : List String
sandbox_presets = "readOnly" ∷ "workspaceWrite" ∷ "dangerFullAccess" ∷ []

unfoldable pub sandbox_option : Configuration → ConfigOption
sandbox_option configuration =
    let current = current_sandbox configuration in
    let choices =
      if contains sandbox_presets current
      then sandbox_presets
      else sandbox_presets ++ (current ∷ []) in
    select_option "sandbox" "Sandbox" current choices

abbrev pub current_mode : Configuration → String
current_mode configuration =
    unwrap_or
      (and_then (lookup configuration.settings "collaborationMode")
        (λ value. as_str (at value "mode")))
      "backend"

abbrev backend_choice : SelectOption
backend_choice = record {
  value = "backend";
  name = "Backend-managed";
  description =
      some
        "Codex has not reported the effective collaboration mode; selecting a preset applies it explicitly.";
}

unfoldable pub mode_option : Configuration → ConfigOption
mode_option configuration =
    let current = current_mode configuration in
    let presets = plain "default" "Default" ∷ plain "plan" "Plan" ∷ [] in
    record {
      config_id = "mode";
      name = "Collaboration mode";
      category = some mode_category;
      current_value = current;
      choices = if current == "backend" then presets ++ (backend_choice ∷ []) else presets;
    }

abbrev pub optional : Option ConfigOption → List ConfigOption
optional none = []
optional (some option) = option ∷ []

unfoldable pub options : Configuration → List ConfigOption
options configuration =
    model_option configuration
    ∷ (optional (effort_option configuration (effort_choices configuration))
        ++ (tier_option configuration
            ∷ (optional (approval_option configuration)
                ++ (sandbox_option configuration ∷ mode_option configuration ∷ []))))
