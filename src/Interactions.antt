-- ===== src/Interactions.antt =====
-- src/interactions/mod.rs and src/interactions/permission.rs: what the client is asked, and the
-- resolver of its answer. Kinds and outcomes are those of the protocol's schema that the code uses.
pub mod Callbacks
pub mod Elicitation
pub mod McpApproval
pub mod Permission
use codex_acp_v.Json.{Value}
use codex_acp_v.Common.{ℕ, List, String, Result, Option, ok, or_fail, lookup, err}

pub data PermissionOptionKind : Type 0 where
  allow_once : PermissionOptionKind
  allow_always : PermissionOptionKind
  reject_once : PermissionOptionKind
  reject_always : PermissionOptionKind

pub record PermissionOption : Type 0 where
  pub id : String
  pub name : String
  pub kind : PermissionOptionKind

pub record PermissionResolver : Type 0 where
  pub choices : List (String × Value)
  pub cancelled : Value

-- The tool call that a request is about, if it names one, and the metadata of the request.
pub record PermissionRequest : Type 0 where
  pub session_id : String
  pub title : String
  pub options : List PermissionOption
  pub tool_call : Option (String × Value)
  pub description : String
  pub meta : Option Value

pub record PermissionInteraction : Type 0 where
  pub request : PermissionRequest
  pub resolver : PermissionResolver

-- `unsupported` is an outcome that a later version of the schema may add.
pub data RequestPermissionOutcome : Type 0 where
  cancelled_outcome : RequestPermissionOutcome
  selected : String → RequestPermissionOutcome
  unsupported : RequestPermissionOutcome

pub data InteractionError : Type 0 where
  too_large : InteractionError
  missing : String → InteractionError
  invalid_decisions : InteractionError
  choice_count : InteractionError
  unsupported_decision : InteractionError
  not_offered : InteractionError
  unsupported_outcome : InteractionError

unfoldable pub resolve :
    PermissionResolver → RequestPermissionOutcome → Result InteractionError Value
resolve resolver cancelled_outcome = ok (resolver.cancelled)
resolve resolver (selected id) = or_fail (lookup (resolver.choices) id) not_offered
resolve resolver unsupported = err unsupported_outcome
