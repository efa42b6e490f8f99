-- ===== src/Interactions/Permission/Tests.antt =====
-- src/interactions/permission.rs: the request for one callback, and answers to it.
use codex_acp_v.Interactions.Permission.Translated.{translate-ResolvesOffers}
use codex_acp_v.Interactions.Permission.Offered.{ResolvesOffers}
use codex_acp_v.Interactions.Permission.Honest.{IsHonestOffer}
use codex_acp_v.Json.{Value, obj, string, arr}
use codex_acp_v.Interactions.Permission.{
  translate, decision_kind, add_choices, rule_offer, offers_for, request_for, Offer, choice_id,
  decision_offers, offers_of, decisions_of, present, is_permissions_request, cancelled_response,
}
use codex_acp_v.Interactions.{
  PermissionInteraction, resolve, reject_once, allow_once, unsupported_decision, selected,
  not_offered,
}
use codex_acp_v.Common.{
  String, List, decimal, decimal_digits, ◌≡◌, All, [], concat, err, refl, ◌∷◌, length, insert,
  lookup, ◌≤◌, ok,
}

abbrev no_print : Value → String
no_print v = ""

-- A callback that allows two decisions.
abbrev callback : Value
callback = obj (
    ("itemId", string "item-1")
    ∷ ("availableDecisions", arr (string "decline" ∷ string "accept" ∷ []))
    ∷ [])

abbrev command_method : String
command_method = "item/commandExecution/requestApproval"

abbrev two_offers : List Offer
two_offers =
    record {
      name = "Decline and continue";
      kind = reject_once;
      response = obj (("decision", string "decline") ∷ []);
    }
    ∷ record {
      name = "Allow once";
      kind = allow_once;
      response = obj (("decision", string "accept") ∷ []);
    }
    ∷ []

abbrev asked : PermissionInteraction
asked = record {
  request = request_for no_print "session" command_method callback "item-1" two_offers;
  resolver = record {
    choices = add_choices 0 two_offers [];
    cancelled = obj (("decision", string "cancel") ∷ []);
  };
}

translated : translate no_print "session" command_method callback ≡ ok asked
unfolding translate offers_for decision_offers offers_of decision_kind decisions_of present
    is_permissions_request cancelled_response lookup
translated = refl

accepted :
    resolve asked.resolver (selected "choice-1") ≡ ok (obj (("decision", string "accept") ∷ []))
unfolding resolve add_choices choice_id decimal decimal_digits concat insert lookup
accepted = refl

unknown : resolve asked.resolver (selected "choice-2") ≡ err not_offered
unfolding resolve add_choices choice_id decimal decimal_digits concat insert lookup
unknown = refl

unsupported_decision_refused : decision_kind no_print (string "approve") ≡ err unsupported_decision
unfolding decision_kind rule_offer
unsupported_decision_refused = refl

numbers : decimal 1024 ≡ "1024"
unfolding decimal decimal_digits
numbers = refl

translate-ResolvesOffers_example :
    (offers : List Offer) × All (IsHonestOffer callback) offers
    × (length offers ≤ 32)
    × ResolvesOffers offers (cancelled_response command_method) asked
translate-ResolvesOffers_example =
    translate-ResolvesOffers no_print "session" command_method callback asked translated
