-- ===== src/Interactions/Callbacks.antt =====
-- src/interactions/mod.rs: `translate`, which chooses the interaction for a callback of the backend.
pub mod Refused
mod Tests
use codex_acp_v.Interactions.Elicitation.Forms.{translate_elicitation}
use codex_acp_v.Interactions.McpApproval.{mcp_approval}
use codex_acp_v.Interactions.Permission.{translate}
use codex_acp_v.Interactions.Elicitation.{
  ElicitationInteraction, ElicitationError, ElicitationCapabilities,
}
use codex_acp_v.Interactions.Elicitation.Questions.{cancelled_kind}
use codex_acp_v.Json.{Value, is_text, at}
use codex_acp_v.Interactions.{InteractionError, PermissionInteraction}
use codex_acp_v.Common.{
  ℕ, Result, String, Option, Bool, err, ◌==◌, if◌then◌else◌, ◌&&◌, ◌>>◌, ok, ◌||◌, ensure, some,
  none, leb, ◌*◌,
}

pub data Interaction : Type 0 where
  permission : PermissionInteraction → Interaction
  elicitation : ElicitationInteraction → Interaction

pub data CallbackError : Type 0 where
  exceeds_limit : CallbackError
  permission_error : InteractionError → CallbackError
  elicitation_error : ElicitationError → CallbackError

unfoldable pub as_permission :
    Result InteractionError PermissionInteraction → Result CallbackError (Option Interaction)
as_permission (err e) = err (permission_error e)
as_permission (ok i) = ok (some (permission i))

unfoldable pub as_approval :
    Result InteractionError (Option PermissionInteraction)
    → Result CallbackError (Option Interaction)
as_approval (err e) = err (permission_error e)
as_approval (ok none) = ok none
as_approval (ok (some i)) = ok (some (permission i))

unfoldable pub as_elicitation :
    Result ElicitationError (Option ElicitationInteraction)
    → Result CallbackError (Option Interaction)
as_elicitation (err e) = err (elicitation_error e)
as_elicitation (ok none) = ok none
as_elicitation (ok (some i)) = ok (some (elicitation i))

unfoldable pub is_approval_method : String → Bool
is_approval_method method =
    method == "item/commandExecution/requestApproval"
    || method == "item/fileChange/requestApproval"
    || method == "item/permissions/requestApproval"

unfoldable pub is_tool_approval : String → Value → Bool
is_tool_approval method params =
    method == "mcpServer/elicitation/request"
    && is_text (at (at params "_meta") "codex_approval_kind") "mcp_tool_call"

unfoldable pub is_elicitation_method : String → Bool
is_elicitation_method method =
    method == "item/tool/requestUserInput" || method == "mcpServer/elicitation/request"

module _ (size : Value → ℕ) (show : Value → String) (project : Value → Option (Value × Bool)) where
  -- The interaction by the method, once the callback is within its limit.
  unfoldable pub interaction_of :
      String
      → String
      → Value
      → Option ElicitationCapabilities
      → Result CallbackError (Option Interaction)
  interaction_of session_id method params capabilities =
      if is_approval_method method
      then as_permission (translate show session_id method params)
      else if is_tool_approval method params
      then as_approval (mcp_approval show session_id params)
      else if is_elicitation_method method
      then as_elicitation (translate_elicitation project capabilities session_id method params)
      else ok none

  unfoldable pub translate_callback :
      String
      → String
      → Value
      → Option ElicitationCapabilities
      → Result CallbackError (Option Interaction)
  translate_callback session_id method params capabilities = do
    ensure (leb (size params) (1024 * 1024)) exceeds_limit
    interaction_of session_id method params capabilities

-- What is sent for an interaction whose client has gone or has cancelled.
unfoldable pub cancelled_interaction : Interaction → Value
cancelled_interaction (permission i) = i.resolver.cancelled
cancelled_interaction (elicitation i) = cancelled_kind (i.resolver)
