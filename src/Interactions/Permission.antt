-- ===== src/Interactions/Permission.antt =====
-- src/interactions/permission.rs: `translate`, from an approval callback of the backend to a
-- permission request. `show` prints a document.
pub mod Offered
pub mod Honest
pub mod Translated
mod Tests
use codex_acp_v.Interactions.{
  PermissionOption, PermissionOptionKind, InteractionError, PermissionInteraction, allow_once,
  invalid_decisions, missing, allow_always, reject_once, reject_always, unsupported_decision,
  choice_count, PermissionRequest,
}
use codex_acp_v.Json.{Value, as_str, at, as_array, obj, is_text, is_null, string, is_object, get}
use codex_acp_v.Common.{
  ℕ, List, String, if◌then◌else◌, ◌∷◌, Option, unwrap_or, Bool, concat, Result, keep_if, ◌==◌,
  decimal, ◌+◌, ok, ◌>>=◌, err, not, [], insert, none, some, ◌||◌, ◌>>◌, or_fail, ensure, ◌++◌,
  is_some, map, is_empty, ◌&&◌, leb, length,
}

-- The arguments of one call of `add`.
pub record Offer : Type 0 where
  pub name : String
  pub kind : PermissionOptionKind
  pub response : Value

unfoldable pub choice_id : ℕ → String
choice_id n = concat ("choice-" ∷ decimal n ∷ [])

-- The options and the choices after all calls of `add`, of which `n` came before.
unfoldable pub add_options : ℕ → List Offer → List PermissionOption
add_options n [] = []
add_options n (o ∷ offers) =
    record { id = choice_id n; name = o.name; kind = o.kind } ∷ add_options (n + 1) offers

unfoldable pub add_choices : ℕ → List Offer → List (String × Value) → List (String × Value)
add_choices n [] choices = choices
add_choices n (o ∷ offers) choices =
    add_choices (n + 1) offers (insert choices (choice_id n) o.response)

unfoldable pub is_permissions_request : String → Bool
is_permissions_request method = method == "item/permissions/requestApproval"

unfoldable pub title_of : String → String
title_of method =
    if is_permissions_request method
    then "Grant additional permissions"
    else if method == "item/fileChange/requestApproval"
    then "Allow file changes"
    else "Allow command execution"

unfoldable pub cancelled_response : String → Value
cancelled_response method =
    if is_permissions_request method
    then obj (("permissions", obj []) ∷ ("scope", string "turn") ∷ [])
    else obj (("decision", string "cancel") ∷ [])

unfoldable pub permission_offers : Value → Value → Result InteractionError (List Offer)
permission_offers params cancelled = do
  profile ← or_fail (keep_if is_object (get "permissions" params)) (missing "permissions")
  ok (
      record {
        name = "Allow requested permissions for this turn";
        kind = allow_once;
        response = obj (("permissions", profile) ∷ ("scope", string "turn") ∷ []);
      }
      ∷ record {
        name = "Allow requested permissions for this session only";
        kind = allow_always;
        response = obj (("permissions", profile) ∷ ("scope", string "session") ∷ []);
      }
      ∷ record { name = "Decline permissions"; kind = reject_once; response = cancelled }
      ∷ [])

-- `params.get(key).filter(|value| !value.is_null())`
unfoldable pub present : String → Value → Option Value
present key params = keep_if (λ v. not (is_null v)) (get key params)

unfoldable pub default_decisions : Value → List Value
default_decisions params =
    let amendment = present "proposedExecpolicyAmendment" params in
    let network = unwrap_or (as_array (at params "proposedNetworkPolicyAmendments")) [] in
    string "accept"
    ∷ string "acceptForSession"
    ∷ string "decline"
    ∷ string "cancel"
    ∷ (elim amendment as (λ x. List Value) [
      | none ↦ []
      | some a ↦
          obj (("acceptWithExecpolicyAmendment", obj (("execpolicy_amendment", a) ∷ [])) ∷ []) ∷ []
    ]
        ++ map
            (λ a.
              obj
                (("applyNetworkPolicyAmendment", obj (("network_policy_amendment", a) ∷ [])) ∷ []))
            network)

unfoldable pub decisions_of : Value → Result InteractionError (List Value)
decisions_of params = elim (present "availableDecisions" params) [
  | some decisions ↦ or_fail (as_array decisions) invalid_decisions
  | none ↦ ok (default_decisions params)
]

module _ (show : Value → String) where
  -- An object that asks for a lasting rule.
  unfoldable pub rule_offer : Value → Result InteractionError (String × PermissionOptionKind)
  rule_offer decision =
      let amendment = at decision "applyNetworkPolicyAmendment" in
      let denies =
        is_text (at (at amendment "network_policy_amendment") "action") "deny"
        || is_text (at (at amendment "networkPolicyAmendment") "action") "deny" in
      if is_some (get "acceptWithExecpolicyAmendment" decision)
      then ok (
        concat (
            "Allow and persist command rule: "
            ∷ show (at decision "acceptWithExecpolicyAmendment")
            ∷ []),
        allow_always,
      )
      else if is_some (get "applyNetworkPolicyAmendment" decision)
      then ok (
        concat ("Persist network rule: " ∷ show amendment ∷ []),
        if denies then reject_always else allow_always,
      )
      else err unsupported_decision

  unfoldable pub decision_kind : Value → Result InteractionError (String × PermissionOptionKind)
  decision_kind decision =
      if is_text decision "accept"
      then ok ("Allow once", allow_once)
      else if is_text decision "acceptForSession"
      then ok ("Allow for this session only", allow_always)
      else if is_text decision "decline"
      then ok ("Decline and continue", reject_once)
      else if is_text decision "cancel"
      then ok ("Decline and cancel turn", reject_once)
      else rule_offer decision

  unfoldable pub offers_of : List Value → Result InteractionError (List Offer)
  offers_of [] = ok []
  offers_of (decision ∷ rest) = do
    offered ← decision_kind decision
    offers ← offers_of rest
    ok (
        record { name = offered.0; kind = offered.1; response = obj (("decision", decision) ∷ []) }
        ∷ offers)

  unfoldable pub decision_offers : Value → Result InteractionError (List Offer)
  decision_offers params = do
    decisions ← decisions_of params
    ensure (not (is_empty decisions) && leb (length decisions) 32) choice_count
    offers_of decisions

  -- One line of the description, if the callback gives what it is about.
  unfoldable pub text_line : String → String → Value → String
  text_line key label params = elim (as_str (at params key)) [
    | none ↦ ""
    | some text ↦ concat ("\n" ∷ label ∷ ": " ∷ text ∷ [])
  ]

  unfoldable pub value_line : String → String → Value → String
  value_line key label params = elim (present key params) [
    | none ↦ ""
    | some v ↦ concat ("\n" ∷ label ∷ ": " ∷ show v ∷ [])
  ]

  unfoldable pub description_of : String → Value → String
  description_of method params = concat (
      unwrap_or (as_str (at params "reason")) ""
      ∷ text_line "command" "Command or terminal input" params
      ∷ text_line "cwd" "Working directory" params
      ∷ value_line "networkApprovalContext" "Network access" params
      ∷ value_line "additionalPermissions" "Additional permissions" params
      ∷ (if is_permissions_request method
          then concat ("\nRequested permissions: " ∷ show (at params "permissions") ∷ [])
          else "")
      ∷ text_line "grantRoot" "Requested write root" params
      ∷ [])

  unfoldable pub offers_for : String → Value → Result InteractionError (List Offer)
  offers_for method params =
      if is_permissions_request method
      then permission_offers params (cancelled_response method)
      else decision_offers params

  unfoldable pub request_for : String → String → Value → String → List Offer → PermissionRequest
  request_for session_id method params item_id offers = record {
    session_id = session_id;
    title = title_of method;
    options = add_options 0 offers;
    tool_call = some (item_id, params);
    description = description_of method params;
    meta = none;
  }

  unfoldable pub translate : String → String → Value → Result InteractionError PermissionInteraction
  translate session_id method params = do
    item_id ← or_fail (as_str (at params "itemId")) (missing "itemId")
    offers ← offers_for method params
    ok (record {
      request = request_for session_id method params item_id offers;
      resolver = record {
        choices = add_choices 0 offers [];
        cancelled = cancelled_response method;
      };
    })
