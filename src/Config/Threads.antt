-- ===== src/Config/Threads.antt =====
-- src/config.rs, `thread_parameters`: the parameters with which a thread is started, resumed or
-- forked. Paths and MCP servers are the documents the schema encodes them as.
pub mod Scoped
use codex_acp_v.Config.Metadata.{check_keys}
use codex_acp_v.Config.{
  ConfigError, unsupported_field, server_without_name, server_name, config_not_object,
  servers_twice, not_session_scoped, combined_turns, transport,
}
use codex_acp_v.Json.{Value, obj, string, as_str, arr, at, as_array, is_null, as_object, get}
use codex_acp_v.Common.{
  List, String, Option, Bool, insert, Result, ◌∷◌, [], and_then, contains, ok, err, any, false,
  is_some_and, some, lookup, nat_eq, ◌||◌, ◌>>◌, ◌==◌, ◌>>=◌, filter_map, ensure, map, or_fail,
  starts_with, unwrap_or, not, contains_key, concat, if◌then◌else◌, is_none_or, keys, ◌&&◌,
}
use Prim.Native.Char.{code}
use Prim.Native.String

pub data ThreadOperation : Type 0 where
  start resume fork : ThreadOperation

abbrev pub common_keys : List String
common_keys =
    "model" ∷ "modelProvider" ∷ "serviceTier" ∷ "approvalPolicy" ∷ "approvalsReviewer" ∷ "sandbox"
    ∷ "permissions" ∷ "config" ∷ "baseInstructions" ∷ "developerInstructions" ∷ []

abbrev pub operation_keys : ThreadOperation → List String
operation_keys start =
    "ephemeral" ∷ "historyMode" ∷ "environments" ∷ "dynamicTools" ∷ "selectedCapabilityRoots"
    ∷ "experimentalRawEvents" ∷ "allowProviderModelFallback" ∷ "serviceName" ∷ "sessionStartSource"
    ∷ "threadSource" ∷ "projectId" ∷ "personality" ∷ []
operation_keys resume = "personality" ∷ []
operation_keys fork =
    "lastTurnId" ∷ "beforeTurnId" ∷ "threadSource" ∷ "deferGoalContinuation" ∷ "ephemeral" ∷ []

abbrev pub is_allowed : ThreadOperation → String → Bool
is_allowed operation key = contains common_keys key || contains (operation_keys operation) key

abbrev pub is_given : List (String × Value) → String → Bool
is_given extra key = is_some_and (lookup extra key) (λ value. not (is_null value))

abbrev pub global_keys : List String
global_keys =
    "codex_home" ∷ "cli_auth_credentials_store" ∷ "mcp_oauth_credentials_store"
    ∷ "forced_login_method" ∷ "forced_chatgpt_workspace_id" ∷ []

-- A key that is not session-scoped, itself or with a suffix behind a dot.
unfoldable pub is_global : String → Bool
is_global key =
    any (λ forbidden. key == forbidden || starts_with (concat (forbidden ∷ "." ∷ [])) key)
      global_keys

-- `name.contains('.')`
unfoldable pub has_dot : String → Bool
has_dot String.[] = false
has_dot (String.◌∷◌ c rest) = nat_eq (code c) 46 || has_dot rest

unfoldable pub named_value : Value → Option (String × Value)
named_value entry = and_then (as_str (at entry "name")) (λ name. some (name, at entry "value"))

unfoldable pub insert_named : List (String × Value) → List (String × Value) → List (String × Value)
insert_named entries [] = entries
insert_named entries ((name, value) ∷ rest) = insert_named (insert entries name value) rest

-- A list of named values as an object.
unfoldable pub named_values : Value → Value
named_values list = obj (insert_named [] (filter_map named_value (unwrap_or (as_array list) [])))

unfoldable pub mapped_server : Value → Result ConfigError Value
mapped_server server =
    let type = as_str (at server "type") in
    if is_none_or type (λ name. name == "stdio")
    then ok (
        obj (
          ("command", at server "command")
          ∷ ("args", unwrap_or (get "args" server) (arr []))
          ∷ ("env", named_values (at server "env"))
          ∷ []))
    else if is_some_and type (λ name. name == "http")
    then ok
        (obj (("url", at server "url") ∷ ("http_headers", named_values (at server "headers")) ∷ []))
    else err transport

unfoldable pub map_servers :
    List Value → List (String × Value) → Result ConfigError (List (String × Value))
map_servers [] mcp = ok mcp
map_servers (server ∷ rest) mcp = do
  name ← or_fail (as_str (at server "name")) server_without_name
  ensure (not (name == "" || has_dot name || contains_key mcp name)) server_name
  mapped ← mapped_server server
  map_servers rest (insert mcp name mapped)

-- The configuration with the servers, where there are any.
unfoldable pub add_servers :
    List (String × Value) → List (String × Value) → Result ConfigError (List (String × Value))
add_servers [] config = ok config
add_servers (first ∷ more) config = do
  ensure (not (contains_key config "mcp_servers")) servers_twice
  ok (insert config "mcp_servers" (obj (first ∷ more)))

-- The parameters without the configuration, whose entry is still to be made.
unfoldable pub with_roots : String → List String → List (String × Value) → List (String × Value)
with_roots cwd roots extra =
    insert (insert extra "cwd" (string cwd)) "runtimeWorkspaceRoots"
      (arr (string cwd ∷ map string roots))

unfoldable pub session_config :
    List (String × Value) → List Value → Result ConfigError (List (String × Value))
session_config extra servers = do
  config ← or_fail (as_object (unwrap_or (lookup extra "config") (obj []))) config_not_object
  check_keys not_session_scoped (λ key. not (is_global key)) (keys config)
  mcp ← map_servers servers []
  add_servers mcp config

unfoldable pub thread_parameters :
    ThreadOperation
    → String
    → List String
    → List Value
    → List (String × Value)
    → Result ConfigError (List (String × Value))
thread_parameters operation cwd roots servers extra = do
  check_keys unsupported_field (is_allowed operation) (keys extra)
  ensure (not (is_given extra "lastTurnId" && is_given extra "beforeTurnId")) combined_turns
  let placed = with_roots cwd roots extra
  config ← session_config placed servers
  ok (insert placed "config" (obj config))
