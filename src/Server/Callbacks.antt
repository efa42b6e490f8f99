-- ===== src/Server/Callbacks.antt =====
-- src/server/events.rs, `server_request`, and src/server/mod.rs, `cancel_interactions`: the requests
-- of the backend that wait for the client. `channel` is the address of the channel that cancels.
pub mod Admitted
pub mod Cancelled
pub mod Answers
mod Tests
use codex_acp_v.Server.Ownership.{child_item_id, OwnershipError, owner_for_thread}
use codex_acp_v.Extensions.Negotiation.{wants_raw_callback}
use codex_acp_v.Interactions.{PermissionRequest}
use codex_acp_v.Interactions.Callbacks.{
  Interaction, CallbackError, permission, elicitation, translate_callback,
}
use codex_acp_v.Backend.{RpcError, BackendError}
use codex_acp_v.Json.{Value, number, as_str, at, neg_int, get, as_bool, is_null}
use codex_acp_v.Server.{State, PendingInteraction}
use codex_acp_v.Common.{
  ℕ, String, List, Option, keep_if, Bool, ◌∷◌, is_some_and, unwrap_or, none, not, filter, and_then,
  ◌==◌, Result, some, if◌then◌else◌, lookup, ◌||◌, remove, ok, keys, nat_eq, [], true, err, ◌&&◌,
  concat, is_none, leb, length, is_some, insert, ◌++◌,
}
use mathlib.Core.Option

abbrev pub callback_error : String → RpcError
callback_error message = record { code = number (neg_int 32000); message = message; payload = none }

-- A request of the backend.
pub record Callback : Type 0 where
  pub id : Value
  pub method : String
  pub params : Value

-- A callback is refused, or put to the client: as which interaction, whether the client reads
-- callbacks of the extension, and whether it is told that the turn waits for it.
pub data Admission : Type 0 where
  refuse : RpcError → Admission
  ask : Option Interaction → Bool → Bool → Admission

abbrev pub source_thread : Callback → Option String
source_thread callback = as_str (at callback.params "threadId")

abbrev pub is_closing : State → Option ℕ → Bool
is_closing s root =
    is_some_and root
      (λ address. let content = (s.store address).content in not content.is_open || content.closing)

-- The session of the callback is still the one that is registered under its id.
abbrev pub is_owned : State → Option String → Option ℕ → Bool
is_owned s session_id root =
    is_some_and session_id
      (λ id. is_some_and root (λ expected. is_some_and (lookup s.sessions id) (nat_eq expected)))

abbrev pub wants_raw : State → String → Bool
wants_raw s method =
    is_some_and s.negotiation (λ negotiation. wants_raw_callback negotiation method)

abbrev pub wants_requests : State → Bool
wants_requests s = is_some_and s.negotiation (λ negotiation. negotiation.server_requests)

-- The thread of the callback, where it is not the session's own.
abbrev child_of : Option String → Option String → Option String
child_of session_id source =
    keep_if (λ thread. not (is_some_and session_id (λ id. id == thread))) source

abbrev pub for_child : String → PermissionRequest → PermissionRequest
for_child child request = elim request.tool_call [
  | none ↦ request
  | some (item, call) ↦ record request {
    tool_call = some (child_item_id child item, call);
    description = concat ("Subagent thread: " ∷ child ∷ "\n" ∷ request.description ∷ []);
  }
]

-- A tool call of a child thread is named and described as the child's.
unfoldable pub name_child : Option String → Option String → Interaction → Interaction
name_child session_id source (permission i) = elim (child_of session_id source) [
  | none ↦ permission i
  | some child ↦ permission (record i { request = for_child child i.request })
]
name_child session_id source (elicitation i) = elicitation i

unfoldable pub is_blocking : Value → Bool
is_blocking params =
    unwrap_or (and_then (get "isBlocking" params) as_bool) true
    && not (is_some_and (get "turnId" params) is_null)

module _ (size : Value → ℕ) (show : Value → String) (project : Value → Option (Value × Bool))
    (describe : CallbackError → String) (allow_host_methods : Bool) where
  -- The interaction of a callback that the client does not read raw.
  unfoldable pub interaction_for :
      Option String → Callback → State → Result CallbackError (Option Interaction)
  interaction_for session_id callback s =
      if wants_raw s callback.method
      then ok none
      else translate_callback size show project (unwrap_or session_id "") callback.method
          callback.params s.capabilities

  -- What is done under the locks of the delivery, the session and the state.
  unfoldable pub admit_callback :
      Option String → Option ℕ → ℕ → Callback → State → Admission × State
  admit_callback session_id root channel callback s =
      if is_closing s root
      then (refuse (callback_error "session is closing; client interaction cancelled"), s)
      else if not (is_owned s session_id root)
          && not (is_none (source_thread callback) && allow_host_methods)
      then (refuse (callback_error "backend callback targets an unowned session"), s)
      else if leb 128 (length s.pending)
      then (refuse (callback_error "too many outstanding client interactions"), s)
      else elim (interaction_for session_id callback s) [
        | err e ↦ (refuse (callback_error (describe e)), s)
        | ok interaction ↦
            let named = Option.map (name_child session_id (source_thread callback)) interaction in
            let foreground =
              is_some_and root (λ address. is_some ((s.store address).content).active_turn) in
            let tells = is_blocking callback.params && foreground && is_some session_id in
            (
              ask named (wants_requests s) tells,
              record s {
                pending =
                    insert s.pending (show callback.id)
                      (record { session_id = session_id; cancel = channel });
              },
            )
      ]

  -- Whose the callback is, and its admission. Other tasks run while the owner is looked up.
  unfoldable pub server_request :
      (String → Result BackendError Value)
      → (ℕ → State → State)
      → Option ℕ
      → ℕ
      → Callback
      → State
      → Result OwnershipError Admission × State
  server_request read others target channel callback s = elim target [
    | some session ↦
        let (admission, after) =
          admit_callback (some (s.store session).id) (some session) channel callback s in
        (ok admission, after)
    | none ↦ elim (source_thread callback) [
      | none ↦
          let (admission, after) = admit_callback none none channel callback s in
          (ok admission, after)
      | some thread ↦
          let (owner, looked) = owner_for_thread read others thread s in
          elim owner [
            | err e ↦ (err e, looked)
            | ok session_id ↦
                let root = and_then session_id (lookup looked.sessions) in
                let (admission, after) = admit_callback session_id root channel callback looked in
                (ok admission, after)
          ]
    ]
  ]

abbrev pub is_of : String → PendingInteraction → Bool
is_of session_id entry = is_some_and entry.session_id (λ id. id == session_id)

-- The keys of the session's entries.
unfoldable pub keys_of : String → List (String × PendingInteraction) → List String
keys_of session_id pending =
    filter (λ key. is_some_and (lookup pending key) (is_of session_id)) (keys pending)

abbrev pub signal_of : Option PendingInteraction → List ℕ
signal_of none = []
signal_of (some entry) = entry.cancel ∷ []

-- Each entry is removed, and its channel sent `Cancelled`: the channels, and what is left.
unfoldable pub cancel_each :
    List String → List (String × PendingInteraction) → List ℕ × List (String × PendingInteraction)
cancel_each [] pending = ([], pending)
cancel_each (key ∷ rest) pending =
    let (signalled, left) = cancel_each rest (remove pending key) in
    (signal_of (lookup pending key) ++ signalled, left)

unfoldable pub cancel_interactions : String → State → List ℕ × State
cancel_interactions session_id s =
    let (signalled, left) = cancel_each (keys_of session_id s.pending) s.pending in
    (signalled, record s { pending = left })
