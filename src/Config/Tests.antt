-- ===== src/Config/Tests.antt =====
-- src/config.rs: a session whose model offers two efforts, and the values chosen for it.
use codex_acp_v.Config.Patch.Shown.{shows}
use codex_acp_v.Config.Patch.Confirmed.{settings_match-shows}
use codex_acp_v.Config.Options.{
  options, model_option, effort_option, effort_choices, catalog_entry, tier_option, approval_option,
  catalog_list, sandbox_option, effort_choice, mode_option, select_option, with_current,
}
use codex_acp_v.Config.Settings.Confined.{IsConfined, same_sandbox-IsConfined}
use codex_acp_v.Config.Patch.{patch, sandbox_policy, offers, value_id, patch_of}
use codex_acp_v.Server.{Configuration}
use codex_acp_v.Config.Settings.{
  same_path, settings_match, same_sandbox, entry_matches, components, segments,
}
use codex_acp_v.Config.Metadata.Negotiated.{IsMetadata, turn_parameters-IsMetadata}
use codex_acp_v.Config.Metadata.{turn_parameters, metadata, check_keys, section_of, turn_keys}
use codex_acp_v.Config.Threads.Scoped.{IsThread, thread_parameters-IsThread}
use codex_acp_v.Config.Threads.{
  thread_parameters, session_config, start, with_roots, map_servers, mapped_server, named_values,
  insert_named, add_servers, is_global, has_dot,
}
use codex_acp_v.Config.{ConfigOption, SelectOption, id_value}
use codex_acp_v.Config.Patch.Accepted.{EncodesChoices, offered, is_changeable, is_ok-patch}
use codex_acp_v.Json.{Value, obj, string, elements-values, arr, is_text, bool, at}
use codex_acp_v.Common.{
  lookup, List, all, contains, String, some, ◌≡◌, refl, any, ◌∷◌, true, [], map, All, ◌&&◌, not,
  Has, false, ok, ◌==◌, keys, insert, concat, is_ok,
}

abbrev catalog : List Value
catalog =
    obj (
      ("model", string "gpt")
      ∷ ("displayName", string "GPT")
      ∷ (
        "supportedReasoningEfforts",
        arr (
            obj (("reasoningEffort", string "low") ∷ [])
            ∷ obj (("reasoningEffort", string "high") ∷ ("description", string "slow") ∷ [])
            ∷ []),
      )
      ∷ ("serviceTiers", arr (obj (("id", string "fast") ∷ ("name", string "Fast") ∷ []) ∷ []))
      ∷ [])
    ∷ []

abbrev asleep : Configuration
asleep = record {
  settings = ("model", string "gpt") ∷ ("effort", string "low") ∷ [];
  models = catalog;
}

abbrev reported : Configuration
reported = record {
  settings =
      ("model", string "gpt")
      ∷ ("effort", string "high")
      ∷ ("sandboxPolicy", obj (("type", string "readOnly") ∷ []))
      ∷ [];
  models = catalog;
}

abbrev encode_choice : SelectOption → Value
encode_choice choice = obj (("value", string choice.value) ∷ ("name", string choice.name) ∷ [])

abbrev encode : ConfigOption → Value
encode option = obj (("options", arr (map encode_choice option.choices)) ∷ [])

encodes_any :
    (value : String) (choices : List SelectOption)
    → any (λ choice. is_text (at choice "value") value) (map encode_choice choices)
      ≡ any (λ choice. choice.value == value) choices
unfolding lookup
encodes_any value [] = refl
encodes_any value (choice ∷ rest) = rw (encodes_any value rest) refl

encodes_choices : EncodesChoices encode
unfolding offers lookup
encodes_choices option value =
    rw (elements-values (map encode_choice option.choices)) (encodes_any value option.choices)

shown_ids :
    map {B = String × String} (λ option. (option.config_id, option.current_value)) (options asleep)
    ≡ ("model", "gpt")
      ∷ ("effort", "low")
      ∷ ("serviceTier", "default")
      ∷ ("sandbox", "readOnly")
      ∷ ("mode", "backend")
      ∷ []
unfolding options model_option effort_option effort_choices tier_option approval_option
    sandbox_option mode_option select_option catalog_entry catalog_list effort_choice with_current
    lookup contains
shown_ids = refl

chosen : patch encode asleep "effort" (id_value "high") ≡ ok (("effort", string "high") ∷ [])
unfolding patch value_id offers patch_of options model_option effort_option effort_choices
    catalog_entry catalog_list effort_choice lookup
chosen = refl

paths_agree : (same_path "/a//b/./c/" "/a/b/c" && not (same_path "./a" "a")) ≡ true
unfolding same_path components segments
paths_agree = refl

confirmed : settings_match reported (("effort", string "high") ∷ []) ≡ true
unfolding settings_match entry_matches lookup
confirmed = refl

settings_match-shows_example : all (shows "effort" "high") (options reported) ≡ true
settings_match-shows_example =
    settings_match-shows encode asleep reported "effort" "high" (("effort", string "high") ∷ [])
      chosen confirmed

is_ok-patch_example :
    is_ok (patch encode asleep "mode" (id_value "backend"))
    ≡ (offered asleep "mode" "backend" && is_changeable "mode" "backend")
is_ok-patch_example = is_ok-patch encode encodes_choices asleep "mode" "backend"

abbrev read_only : Value
read_only = obj (("type", string "readOnly") ∷ ("networkAccess", bool false) ∷ [])

abbrev brief : Value
brief = obj (("type", string "readOnly") ∷ [])

preset_read_only : sandbox_policy "readOnly" ≡ some read_only
unfolding sandbox_policy
preset_read_only = refl

same_brief : same_sandbox brief read_only ≡ true
unfolding same_sandbox lookup contains
same_brief = refl

same_sandbox-IsConfined_example : IsConfined brief "readOnly"
same_sandbox-IsConfined_example =
    same_sandbox-IsConfined brief read_only "readOnly" preset_read_only same_brief

abbrev turn_meta : List (String × Value)
turn_meta = ("codex", obj (("turn", obj (("turnTrigger", string "hook") ∷ [])) ∷ [])) ∷ []

abbrev turn_extra : List (String × Value)
turn_extra = ("turnTrigger", string "hook") ∷ []

turn_read : turn_parameters (some turn_meta) true ≡ ok turn_extra
unfolding turn_parameters metadata check_keys section_of lookup contains
turn_read = refl

turn_parameters-IsMetadata_example :
    IsMetadata (some turn_meta) "turn" true turn_extra × All (Has turn_keys) (keys turn_extra)
turn_parameters-IsMetadata_example =
    turn_parameters-IsMetadata (some turn_meta) true turn_extra turn_read

abbrev server : Value
server = obj (("name", string "files") ∷ ("command", string "/bin/files") ∷ [])

abbrev mapped : Value
mapped = obj (("command", string "/bin/files") ∷ ("args", arr []) ∷ ("env", obj []) ∷ [])

abbrev started : List (String × Value)
started =
    ("model", string "gpt")
    ∷ ("cwd", string "/w")
    ∷ ("runtimeWorkspaceRoots", arr (string "/w" ∷ string "/x" ∷ []))
    ∷ ("config", obj (("mcp_servers", obj (("files", mapped) ∷ [])) ∷ []))
    ∷ []

starts :
    thread_parameters start "/w" ("/x" ∷ []) (server ∷ []) (("model", string "gpt") ∷ [])
    ≡ ok started
unfolding thread_parameters session_config with_roots map_servers mapped_server named_values
    insert_named add_servers check_keys is_global has_dot contains lookup insert concat
starts = refl

thread_parameters-IsThread_example :
    IsThread start "/w" ("/x" ∷ []) (server ∷ []) (("model", string "gpt") ∷ []) started
thread_parameters-IsThread_example =
    thread_parameters-IsThread start "/w" ("/x" ∷ []) (server ∷ []) (("model", string "gpt") ∷ [])
      started starts
