-- ===== src/Server/Callbacks/Answers.antt =====
-- src/server/events.rs, `answer_callback` and the task that sends the answer: what the client's reply,
-- its silence or a cancellation makes of a callback. `render` is an error as a text.
pub mod Backed
use codex_acp_v.Interactions.Elicitation.Questions.{resolve_elicitation, cancelled_kind}
use codex_acp_v.Interactions.Elicitation.{
  ElicitationInteraction, ElicitationResponse, ElicitationError,
}
use codex_acp_v.Server.Callbacks.{Callback, callback_error, is_owned, is_of}
use codex_acp_v.Interactions.Callbacks.{Interaction, permission, elicitation}
use codex_acp_v.Server.{State, InteractionCancellation, dismissed, cancelled}
use codex_acp_v.Json.{Value, obj, nat, string, null, Number}
use codex_acp_v.Interactions.{
  PermissionRequest, PermissionInteraction, RequestPermissionOutcome, InteractionError, resolve,
}
use codex_acp_v.Backend.{RpcError}
use codex_acp_v.Common.{
  ℕ, String, Option, Result, ok, err, Bool, some, any, remove, none, false, ◌&&◌, ◌∷◌, true, [],
  is_some_and, lookup, unwrap_or, not, is_some, keys,
}
use mathlib.Core.Option

-- What `select!` sees first: the reply, the client's error, the end of the wait, or the channel that
-- cancels, whose sender may be gone.
pub data Reply {ℓ} (A : Type ℓ) : Type ℓ where
  replied : A → Reply A
  failed : RpcError → Reply A
  timed_out : Reply A
  stopped : Option InteractionCancellation → Reply A

-- The client's part in each kind of request.
pub record Client : Type 0 where
  pub on_permission : PermissionRequest → Reply RequestPermissionOutcome
  pub on_elicitation : ElicitationInteraction → Reply ElicitationResponse
  pub on_extension : Value → Reply Value

pub data AnswerError : Type 0 where
  wait_timed_out : AnswerError
  client_failed : RpcError → AnswerError
  bad_permission : InteractionError → AnswerError
  bad_elicitation : ElicitationError → AnswerError

-- What is sent to the backend: a result, an error, or nothing.
abbrev pub Answer : Type 0
Answer = Option (Result RpcError Value)

abbrev result_of {ℓ} : {E : Type ℓ} → (E → AnswerError) → Result E Value → Result AnswerError Answer
result_of wrap (err e) = err (wrap e)
result_of wrap (ok v) = ok (some (ok v))

unfoldable pub stop : Result RpcError Value → Option InteractionCancellation → Answer
stop refusal (some dismissed) = none
stop refusal (some cancelled) = some refusal
stop refusal none = some refusal

module _ (size : ElicitationResponse → ℕ) (at_most : Number → Number → Bool) (client : Client) where
  unfoldable pub answer_permission :
      PermissionInteraction → Reply RequestPermissionOutcome → Result AnswerError Answer
  answer_permission i (replied response) = result_of bad_permission (resolve i.resolver response)
  answer_permission i (failed e) = err (client_failed e)
  answer_permission i timed_out = err wait_timed_out
  answer_permission i (stopped reason) = ok (stop (ok i.resolver.cancelled) reason)

  unfoldable pub answer_elicitation :
      ElicitationInteraction → Reply ElicitationResponse → Result AnswerError Answer
  answer_elicitation i (replied response) =
      result_of bad_elicitation (resolve_elicitation size at_most i.resolver response)
  answer_elicitation i (failed e) = err (client_failed e)
  answer_elicitation i timed_out = err wait_timed_out
  answer_elicitation i (stopped reason) = ok (stop (ok (cancelled_kind i.resolver)) reason)

  unfoldable pub answer_extension : Reply Value → Result AnswerError Answer
  answer_extension (replied result) = ok (some (ok result))
  answer_extension (failed e) = ok (some (err e))
  answer_extension timed_out = err wait_timed_out
  answer_extension (stopped reason) =
      ok (stop (err (callback_error "client interaction cancelled")) reason)

  -- The request of the extension that carries a callback.
  abbrev pub server_request_params : Option String → Callback → Value
  server_request_params session_id callback = obj (
      ("version", nat 1)
      ∷ ("sessionId", unwrap_or (Option.map string session_id) null)
      ∷ ("requestId", callback.id)
      ∷ ("method", string callback.method)
      ∷ ("params", callback.params)
      ∷ [])

  unfoldable pub answer_callback :
      Option Interaction → Bool → Option String → Callback → Result AnswerError Answer
  answer_callback (some (permission i)) extension session_id callback =
      answer_permission i (client.on_permission i.request)
  answer_callback (some (elicitation i)) extension session_id callback =
      answer_elicitation i (client.on_elicitation i)
  answer_callback none true session_id callback =
      answer_extension (client.on_extension (server_request_params session_id callback))
  answer_callback none false session_id callback = ok (
      some (
        err (
          callback_error
            "client does not support this backend interaction; negotiate codex serverRequests")))

-- What is sent for an answer: an error that stopped it is sent as one.
unfoldable pub response_of : (AnswerError → String) → Result AnswerError Answer → Answer
response_of render (ok answer) = answer
response_of render (err e) = some (err (callback_error (render e)))

-- Whether another callback of the session waits.
unfoldable pub is_waiting : String → State → Bool
is_waiting session_id s =
    any (λ key. is_some_and (lookup s.pending key) (is_of session_id)) (keys s.pending)

-- Whether the client is told that the turn runs again.
unfoldable pub tells_running : Option String → Option ℕ → State → Bool
tells_running session_id root s =
    is_owned s session_id root
    && is_some_and session_id (λ id. not (is_waiting id s))
    && is_some_and root (λ address.
      let content = (s.store address).content in not content.closing && is_some content.active_turn)

-- The end of the task: the entry is removed before the response is sent. `send` is the time that
-- sending takes, and whether it succeeds; a failure ends the task.
unfoldable pub finish_callback :
    (Value → String)
    → (AnswerError → String)
    → (State → Bool × State)
    → Option String
    → Option ℕ
    → Callback
    → Result AnswerError Answer
    → State
    → Answer × Bool × State
finish_callback show render send session_id root callback answer s =
    let removed = record s { pending = remove s.pending (show callback.id) } in
    elim (response_of render answer) [
      | none ↦ (none, tells_running session_id root removed, removed)
      | some sending ↦
          let (sent, later) = send removed in
          (some sending, sent && tells_running session_id root later, later)
    ]
