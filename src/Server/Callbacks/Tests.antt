-- ===== src/Server/Callbacks/Tests.antt =====
-- src/server/events.rs: an approval of permissions, put to the client and cancelled with its session.
use codex_acp_v.Server.Callbacks.Answers.Backed.{IsBacked, answer_callback-IsBacked}
use codex_acp_v.Server.Callbacks.Cancelled.{cancel_interactions-lookup}
use codex_acp_v.Interactions.Permission.{
  translate, offers_for, permission_offers, is_permissions_request, cancelled_response, request_for,
  add_choices, Offer, choice_id,
}
use codex_acp_v.Interactions.{selected, allow_once, resolve, allow_always, reject_once}
use codex_acp_v.Server.Callbacks.Admitted.{IsAdmission, admit_callback-IsAdmission}
use codex_acp_v.Interactions.Callbacks.{
  CallbackError, Interaction, permission, translate_callback, interaction_of, as_permission,
  is_approval_method,
}
use codex_acp_v.Json.{Value, obj, nat, string}
use codex_acp_v.Server.Callbacks.{
  admit_callback, Callback, cancel_interactions, cancel_each, Admission, interaction_for, keys_of,
  is_of, name_child, is_blocking, ask,
}
use codex_acp_v.Server.Callbacks.Answers.{
  Client, replied, timed_out, answer_callback, answer_permission,
}
use codex_acp_v.Server.{State, new_state, new_session, no_configuration}
use codex_acp_v.Common.{
  ℕ, some, false, ◌≡◌, Option, String, Bool, [], ◌∷◌, lookup, keep_if, remove, none, refl, not,
  insert, List, true, concat, decimal, decimal_digits, ok,
}

abbrev no_print : Value → String
no_print v = "1"

abbrev no_schema : Value → Option (Value × Bool)
no_schema v = none

abbrev ten_bytes : Value → ℕ
ten_bytes v = 10

abbrev no_text : CallbackError → String
no_text e = ""

abbrev approval : Callback
approval = record {
  id = nat 1;
  method = "item/permissions/requestApproval";
  params =
      obj
        (("threadId", string "root") ∷ ("itemId", string "item-1") ∷ ("permissions", obj []) ∷ []);
}

abbrev one_session : State
one_session = record new_state {
  sessions = ("root", 7) ∷ [];
  store = λ address. new_session "root" no_configuration;
}

abbrev grant : Value
grant = obj (("permissions", obj []) ∷ ("scope", string "turn") ∷ [])

abbrev admit : State → Admission × State
admit s =
    admit_callback ten_bytes no_print no_schema no_text false (some "root") (some 7) 3 approval s

abbrev waiting : State
waiting = record one_session {
  pending = ("1", record { session_id = some "root"; cancel = 3 }) ∷ [];
}

abbrev offers : List Offer
offers =
    record {
      name = "Allow requested permissions for this turn";
      kind = allow_once;
      response = grant;
    }
    ∷ record {
      name = "Allow requested permissions for this session only";
      kind = allow_always;
      response = obj (("permissions", obj []) ∷ ("scope", string "session") ∷ []);
    }
    ∷ record { name = "Decline permissions"; kind = reject_once; response = grant }
    ∷ []

abbrev asked : Interaction
asked = permission (record {
  request = request_for no_print "root" approval.method approval.params "item-1" offers;
  resolver = record { choices = add_choices 0 offers []; cancelled = grant };
})

abbrev chooses : Client
chooses = record {
  on_permission = λ request. replied (selected "choice-0");
  on_elicitation = λ i. timed_out;
  on_extension = λ params. timed_out;
}

admits : (admit one_session).1.pending ≡ waiting.pending
unfolding admit_callback interaction_for translate_callback interaction_of as_permission
    is_approval_method translate offers_for permission_offers is_permissions_request
    cancelled_response lookup insert
admits = refl

cancels : cancel_interactions "root" waiting ≡ (3 ∷ [], one_session)
unfolding cancel_interactions cancel_each keys_of lookup remove
cancels = refl

admit_callback-IsAdmission_example :
    IsAdmission no_print false (some "root") (some 7) 3 approval one_session (admit one_session)
admit_callback-IsAdmission_example =
    admit_callback-IsAdmission ten_bytes no_print no_schema no_text false (some "root") (some 7) 3
      approval one_session

cancel_interactions-lookup_example :
    let after = (cancel_interactions "root" waiting).1 in
    (after ≡ record waiting { pending = after.pending })
    × ((key : String)
        → lookup after.pending key
          ≡ keep_if (λ entry. not (is_of "root" entry)) (lookup waiting.pending key))
cancel_interactions-lookup_example = cancel_interactions-lookup "root" waiting

admits_asked : admit one_session ≡ (ask (some asked) false false, waiting)
unfolding admit_callback interaction_for translate_callback interaction_of as_permission
    is_approval_method translate offers_for permission_offers is_permissions_request
    cancelled_response lookup insert name_child is_blocking
admits_asked = refl

answers :
    answer_callback (λ r. 10) (λ a b. true) chooses (some asked) false (some "root") approval
    ≡ ok (some (ok grant))
unfolding answer_callback answer_permission resolve add_choices choice_id lookup insert concat
    decimal decimal_digits
answers = refl

answer_callback-IsBacked_example :
    IsBacked (λ r. 10) (λ a b. true) chooses (some "root") approval grant (some asked)
answer_callback-IsBacked_example =
    answer_callback-IsBacked ten_bytes no_print no_schema no_text false (λ r. 10) (λ a b. true)
      chooses (some "root") (some 7) 3 approval one_session waiting (some asked) false false grant
      admits_asked answers
