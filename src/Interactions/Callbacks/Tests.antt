-- ===== src/Interactions/Callbacks/Tests.antt =====
-- src/interactions/mod.rs: two callbacks.
use codex_acp_v.Interactions.{allow_once, allow_always, reject_once}
use codex_acp_v.Interactions.Permission.{
  Offer, request_for, add_choices, translate, offers_for, permission_offers, is_permissions_request,
  cancelled_response,
}
use codex_acp_v.Json.{Value, obj, string}
use codex_acp_v.Interactions.Callbacks.Refused.{IsRefusal, translate_callback-IsRefusal}
use codex_acp_v.Interactions.Callbacks.{
  translate_callback, Interaction, cancelled_interaction, permission, interaction_of, as_permission,
  is_approval_method, is_tool_approval, is_elicitation_method,
}
use codex_acp_v.Common.{ℕ, List, String, Option, Bool, none, [], ◌∷◌, ◌≡◌, ok, refl, lookup, some}

abbrev no_print : Value → String
no_print v = ""

abbrev no_schema : Value → Option (Value × Bool)
no_schema v = none

abbrev ten_bytes : Value → ℕ
ten_bytes v = 10

abbrev callback : Value
callback = obj (("itemId", string "item-1") ∷ ("permissions", obj []) ∷ [])

abbrev permissions_method : String
permissions_method = "item/permissions/requestApproval"

abbrev offered : List Offer
offered =
    record {
      name = "Allow requested permissions for this turn";
      kind = allow_once;
      response = obj (("permissions", obj []) ∷ ("scope", string "turn") ∷ []);
    }
    ∷ record {
      name = "Allow requested permissions for this session only";
      kind = allow_always;
      response = obj (("permissions", obj []) ∷ ("scope", string "session") ∷ []);
    }
    ∷ record {
      name = "Decline permissions";
      kind = reject_once;
      response = obj (("permissions", obj []) ∷ ("scope", string "turn") ∷ []);
    }
    ∷ []

abbrev asked : Interaction
asked = permission (record {
  request = request_for no_print "session" permissions_method callback "item-1" offered;
  resolver = record {
    choices = add_choices 0 offered [];
    cancelled = obj (("permissions", obj []) ∷ ("scope", string "turn") ∷ []);
  };
})

asks :
    translate_callback ten_bytes no_print no_schema "session" permissions_method callback none
    ≡ ok (some asked)
unfolding translate_callback interaction_of as_permission is_approval_method translate offers_for
    permission_offers is_permissions_request cancelled_response lookup
asks = refl

other_method :
    translate_callback ten_bytes no_print no_schema "session" "item/other" callback none ≡ ok none
unfolding translate_callback interaction_of is_approval_method is_tool_approval
    is_elicitation_method
other_method = refl

translate_callback-IsRefusal_example : IsRefusal (cancelled_interaction asked)
translate_callback-IsRefusal_example =
    translate_callback-IsRefusal ten_bytes no_print no_schema "session" permissions_method callback
      none asked asks
