-- ===== src/Interactions/McpApproval.antt =====
-- src/interactions/permission.rs: `mcp_approval`, from the approval of a tool call of an MCP server
-- to a permission request. `show` prints a document.
pub mod Remembered
mod Tests
use codex_acp_v.Interactions.{
  PermissionOption, InteractionError, PermissionInteraction, allow_always, allow_once, reject_once,
  missing,
}
use codex_acp_v.Interactions.Permission.{Offer}
use codex_acp_v.Json.{
  Value, obj, string, is_text, at, array, null, as_str, elements, bool, as_object, number, object,
}
use codex_acp_v.Common.{
  ℕ, List, String, Result, Bool, Option, if◌then◌else◌, some, ◌==◌, keep_if, ◌||◌, ◌∷◌, [],
  contains, insert, ◌&&◌, all, none, is_some_and, ◌++◌, ok, is_empty, ◌>>=◌, or_fail, concat,
  and_then,
}

-- Texts of the list, if every element is a text.
unfoldable pub texts : List Value → Option (List String)
texts [] = some []
texts (v ∷ vs) = elim (as_str v) [
  | none ↦ none
  | some s ↦ and_then (texts vs) (λ rest. some (s ∷ rest))
]

unfoldable pub persistence_of : Value → Option (List String)
persistence_of null = some []
persistence_of (string s) = some (s ∷ [])
persistence_of (array vs) = texts (elements vs)
persistence_of (bool b) = none
persistence_of (number n) = none
persistence_of (object ms) = none

unfoldable pub is_persistence : String → Bool
is_persistence s = s == "session" || s == "always"

abbrev pub approval_response : String → Value → Value
approval_response action meta =
    obj (("action", string action) ∷ ("content", null) ∷ ("_meta", meta) ∷ [])

abbrev pub remembered : String → Value
remembered scope = obj (("persist", string scope) ∷ [])

-- The calls of `add`, an id with an offer, by the scopes that are named.
unfoldable pub offers_named : Bool → Bool → List (String × Offer)
offers_named names_session names_always =
    let always =
      (if names_always
        then (
          "always",
          record {
            name = "Allow and remember for future sessions";
            kind = allow_always;
            response = approval_response "accept" (remembered "always");
          },
        )
          ∷ []
        else []) in
    let session =
      (if names_session
        then (
          "session",
          record {
            name = "Allow for this session only";
            kind = allow_always;
            response = approval_response "accept" (remembered "session");
          },
        )
          ∷ []
        else []) in
    (
      "once",
      record { name = "Allow once"; kind = allow_once; response = approval_response "accept" null },
    )
    ∷ (session
        ++ always
        ++ (
          "decline",
          record {
            name = "Decline and continue";
            kind = reject_once;
            response = approval_response "decline" null;
          },
        )
          ∷ (
            "cancel",
            record {
              name = "Decline and cancel";
              kind = reject_once;
              response = approval_response "cancel" null;
            },
          )
          ∷ [])

unfoldable pub approval_offers : List String → List (String × Offer)
approval_offers persistence =
    offers_named (contains persistence "session") (contains persistence "always")

unfoldable pub approval_options : List (String × Offer) → List PermissionOption
approval_options [] = []
approval_options ((id, o) ∷ rest) =
    record { id = id; name = o.name; kind = o.kind } ∷ approval_options rest

unfoldable pub approval_choices :
    List (String × Offer) → List (String × Value) → List (String × Value)
approval_choices [] choices = choices
approval_choices ((id, o) ∷ rest) choices = approval_choices rest (insert choices id o.response)

-- An empty form, which is how the backend sends an approval.
unfoldable pub is_empty_form : Value → Bool
is_empty_form params =
    is_text (at params "mode") "form"
    && is_some_and (as_object (at (at params "requestedSchema") "properties")) is_empty

-- What may be remembered, or `none` for a request that another interaction has to show.
unfoldable pub approval_persistence : Value → Option (List String)
approval_persistence params =
    if is_empty_form params
    then keep_if (all is_persistence) (persistence_of (at (at params "_meta") "persist"))
    else none

module _ (show : Value → String) where
  unfoldable pub mcp_approval :
      String → Value → Result InteractionError (Option PermissionInteraction)
  mcp_approval session_id params = elim (approval_persistence params) [
    | none ↦ ok none
    | some persistence ↦ do
      message ← or_fail (as_str (at params "message")) (missing "message")
      ok (
          some (record {
            request = record {
              session_id = session_id;
              title = message;
              options = approval_options (approval_offers persistence);
              tool_call = none;
              description = concat (
                  message
                  ∷ "\nMCP server: "
                  ∷ show (at params "serverName")
                  ∷ "\nApproval details: "
                  ∷ show (at params "_meta")
                  ∷ []);
              meta = some (obj (("codex", obj (("mcpApproval", params) ∷ [])) ∷ []));
            };
            resolver = record {
              choices = approval_choices (approval_offers persistence) [];
              cancelled = approval_response "cancel" null;
            };
          }))
  ]
