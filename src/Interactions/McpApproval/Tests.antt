-- ===== src/Interactions/McpApproval/Tests.antt =====
-- src/interactions/permission.rs: the approval of one tool call.
use codex_acp_v.Interactions.McpApproval.Remembered.{Answers, mcp_approval-Answers}
use codex_acp_v.Interactions.McpApproval.{
  mcp_approval, approval_persistence, approval_choices, is_empty_form, approval_options,
  persistence_of, approval_offers, is_persistence, approval_response, remembered, offers_named,
}
use codex_acp_v.Interactions.{resolve, PermissionInteraction, selected, not_offered}
use codex_acp_v.Json.{Value, obj, string, null}
use codex_acp_v.Common.{
  List, String, ◌≡◌, ◌∷◌, some, contains, lookup, concat, [], insert, ok, none, err, refl,
}

abbrev no_print : Value → String
no_print v = ""

abbrev tool_call_approval : Value
tool_call_approval = obj (
    ("mode", string "form")
    ∷ ("message", string "Run it?")
    ∷ ("requestedSchema", obj (("properties", obj []) ∷ []))
    ∷ ("_meta", obj (("persist", string "session") ∷ []))
    ∷ [])

abbrev asked : PermissionInteraction
asked = record {
  request = record {
    session_id = "session";
    title = "Run it?";
    options = approval_options (approval_offers ("session" ∷ []));
    tool_call = none;
    description = "Run it?\nMCP server: \nApproval details: ";
    meta = some (obj (("codex", obj (("mcpApproval", tool_call_approval) ∷ [])) ∷ []));
  };
  resolver = record {
    choices = approval_choices (approval_offers ("session" ∷ [])) [];
    cancelled = approval_response "cancel" null;
  };
}

approved : mcp_approval no_print "session" tool_call_approval ≡ ok (some asked)
unfolding mcp_approval approval_persistence is_empty_form persistence_of is_persistence concat
    lookup
approved = refl

for_session :
    resolve asked.resolver (selected "session")
    ≡ ok (approval_response "accept" (remembered "session"))
unfolding resolve approval_choices approval_offers offers_named contains insert lookup
for_session = refl

not_for_ever : resolve asked.resolver (selected "always") ≡ err not_offered
unfolding resolve approval_choices approval_offers offers_named contains insert lookup
not_for_ever = refl

unknown_scope :
    approval_persistence (
      obj (
        ("mode", string "form")
        ∷ ("requestedSchema", obj (("properties", obj []) ∷ []))
        ∷ ("_meta", obj (("persist", string "forever") ∷ []))
        ∷ []))
    ≡ none
unfolding approval_persistence is_empty_form persistence_of is_persistence lookup
unknown_scope = refl

mcp_approval-Answers_example :
    (persistence : List String) × (approval_persistence tool_call_approval ≡ some persistence)
    × Answers persistence asked
mcp_approval-Answers_example =
    mcp_approval-Answers no_print "session" tool_call_approval asked approved
