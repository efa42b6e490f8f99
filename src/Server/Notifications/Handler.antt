-- ===== src/Server/Notifications/Handler.antt =====
-- src/server/events.rs, `notification`, from the owner of a notification to the raw event. `unreset`
-- is the diagnostic of a client that has not negotiated the reset of a history, `mark` the notification
-- of a phase of a reset, and `show` the text of a document. In the first part `reset` stands for the
-- reset of a history; `handle_owned` passes the one of src/server/history.rs.
use codex_acp_v.Server.Callbacks.{signal_of}
use codex_acp_v.Server.Delivery.{thread_of}
use codex_acp_v.Server.History.Descendants.{reset_history}
use codex_acp_v.Server.History.{Replay, Projector, HistoryPages, ReplayError, with_content}
use codex_acp_v.Server.Ownership.{OwnershipError, owner_for_thread}
use codex_acp_v.Server.Pages.{Ended, after_ok}
use codex_acp_v.Extensions.Negotiation.{wants_event}
use codex_acp_v.Backend.{BackendError}
use codex_acp_v.Json.{Value, obj, nat, get, string, null, get_str}
use codex_acp_v.Server.Notifications.{
  Projection, NotificationError, deliver, notified_owner, reset_failed, no_request_id,
}
use codex_acp_v.Server.{State}
use codex_acp_v.Common.{
  ℕ, Option, Bool, String, List, [], is_some_and, Result, none, ◌&&◌, is_some, if◌then◌else◌, ◌∷◌,
  ◌||◌, err, ◌==◌, some, ok, unwrap_or, ◌++◌, not, false, is_none, and_then, lookup, nat_eq, remove,
}
use mathlib.Core.Option

-- What was sent to the client and to the tasks that wait for it, and the state.
pub record Notified {κ} (U : Type κ) : Type κ where
  pub updates : List U
  pub raw : Option Value
  pub dismissals : List ℕ
  pub server : State

abbrev pub nothing_sent {κ} : {U : Type κ} → State → Notified U
nothing_sent s = record { updates = []; raw = none; dismissals = []; server = s }

-- The owner of a notification that is not of a known session. The lookup of an owner waits at
-- `others 0` to `others 95`; the later waits have numbers of their own.
unfoldable pub owner_of_notification :
    (String → Result BackendError Value)
    → (ℕ → State → State)
    → Value
    → State
    → Result OwnershipError (Option String) × State
owner_of_notification read others params s = elim (thread_of params) [
  | some thread ↦ owner_for_thread read others thread s
  | none ↦
      let locked = others 98 s in
      (ok (and_then (get_str "subscriptionId" params) (lookup locked.mcp_subscriptions)), locked)
]

unfoldable pub wants_raw_event : Bool → String → Option String → Option ℕ → State → Bool
wants_raw_event allow_host_methods method thread session s =
    is_some_and s.negotiation (λ negotiation. wants_event negotiation method)
    && (is_some session || (is_none thread && allow_host_methods))

unfoldable pub raw_event : Option String → String → Value → Value
raw_event owner method params = obj (
    ("version", nat 1)
    ∷ ("sessionId", unwrap_or (Option.map string owner) null)
    ∷ ("method", string method)
    ∷ ("params", params)
    ∷ [])

module _ {ℓ κ} {E : Type ℓ} {U : Type κ} (projection : Projection E U) (show : Value → String)
    (reset : String → ℕ → ℕ → State → Ended (ReplayError E) (List U × State)) (unreset : U) where
  -- A request that the backend no longer waits for is dismissed.
  unfoldable pub dismiss : String → Value → Notified U → Ended (NotificationError E) (Notified U)
  dismiss method params n =
      if method == "serverRequest/resolved"
      then elim (get "requestId" params) [
        | none ↦ (err no_request_id, n)
        | some id ↦ (
          ok tt,
          record n {
            dismissals = n.dismissals ++ signal_of (lookup n.server.pending (show id));
            server = record n.server { pending = remove n.server.pending (show id) };
          },
        )
      ]
      else (ok tt, n)

  abbrev pub reset_sent :
      Notified U → Ended (ReplayError E) (List U × State) → Ended (NotificationError E) (Notified U)
  reset_sent n (err e, (updates, server)) =
      (err (reset_failed e), record n { updates = n.updates ++ updates; server = server })
  reset_sent n (ok done, (updates, server)) =
      (ok tt, record n { updates = n.updates ++ updates; server = server })

  -- A history that was replaced is sent anew, unless the request that replaced it has done so.
  unfoldable pub revert :
      String
      → ℕ
      → Option String
      → String
      → ℕ
      → Notified U
      → Ended (NotificationError E) (Notified U)
  revert id session thread method sequence n =
      let reconciled = ((n.server.store session).content).reconciled_revert_notification in
      let taken =
        with_content session (λ content. record content { reconciled_revert_notification = false })
          n.server in
      if not (method == "thread/reverted" && is_some_and thread (λ own. own == id))
      then (ok tt, n)
      else if reconciled
      then (ok tt, record n { server = taken })
      else if is_some_and taken.negotiation (λ negotiation. negotiation.session_reset)
      then reset_sent n (reset id session sequence taken)
      else (ok tt, record n { updates = n.updates ++ unreset ∷ []; server = taken })

  unfoldable pub deliver_in :
      String
      → ℕ
      → Option String
      → String
      → Value
      → ℕ
      → Notified U
      → Ended (NotificationError E) (Notified U)
  deliver_in id session thread method params sequence n =
      let (outcome, content) =
        deliver projection id thread method params sequence (n.server.store session).content in
      let server = with_content session (λ old. content) n.server in
      elim outcome [
        | err e ↦ (err e, record n { server = server })
        | ok updates ↦ (ok tt, record n { updates = n.updates ++ updates; server = server })
      ]

  -- Under the lock of the delivery, for a session that is open and still registered.
  unfoldable pub in_session :
      String
      → ℕ
      → Option String
      → String
      → Value
      → ℕ
      → State
      → Ended (NotificationError E) (Notified U)
  in_session id session thread method params sequence s =
      after_ok (dismiss method params (nothing_sent s)) (λ n.
        after_ok (revert id session thread method sequence n)
          (deliver_in id session thread method params sequence))

unfoldable pub send_raw {κ} :
    {U : Type κ} → Bool → Option String → String → Value → Notified U → Notified U
send_raw wanted owner method params n =
    if wanted then record n { raw = some (raw_event owner method params) } else n

module _ {ℓ κ} {E : Type ℓ} {U : Type κ} (projection : Projection E U) (show : Value → String)
    (unreset : U) (projector : Projector E U) (max_replay_items : ℕ) (history : HistoryPages)
    (mark : ℕ → String → String → U) (read : String → Result BackendError Value)
    (others : ℕ → State → State) (allow_host_methods : Bool) where
  -- The reset for a notification that the history was replaced.
  unfoldable pub reset_reverted : String → ℕ → ℕ → State → Ended (ReplayError E) (List U × State)
  reset_reverted id session sequence s =
      let started : Replay U = record { server = s; remaining = max_replay_items; sent = [] } in
      let (outcome, after) =
        reset_history projector max_replay_items history read others mark id session
          "thread/reverted" sequence started in
      (outcome, (after.sent, after.server))

  unfoldable pub handle_owned :
      Option String
      → Option ℕ
      → String
      → Value
      → ℕ
      → State
      → Ended (NotificationError E) (Notified U)
  handle_owned owner session method params sequence s =
      let thread = thread_of params in
      let wanted = wants_raw_event allow_host_methods method thread session s in
      elim owner [
        | none ↦ (ok tt, send_raw wanted none method params (nothing_sent s))
        | some id ↦ elim session [
          | none ↦ (ok tt, send_raw wanted (some id) method params (nothing_sent s))
          | some address ↦
              if not ((s.store address).content).is_open
                || not (is_some_and (lookup s.sessions id) (nat_eq address))
              then (ok tt, nothing_sent s)
              else after_ok
                  (in_session projection show reset_reverted unreset id address thread method params
                    sequence s)
                  (λ n. (ok tt, send_raw wanted (some id) method params n))
        ]
      ]

  unfoldable pub handle_notification :
      Option ℕ → String → Value → ℕ → State → Ended (NotificationError E) (Notified U)
  handle_notification target method params sequence s = elim target [
    | some address ↦
        handle_owned (some (s.store address).id) (some address) method params sequence (others 97 s)
    | none ↦
        let (owner, looked) = owner_of_notification read others params s in
        let locked = others 97 looked in
        elim owner [
          | err e ↦ (err (notified_owner e), nothing_sent looked)
          | ok found ↦
              handle_owned found (and_then found (lookup locked.sessions)) method params sequence
                locked
        ]
  ]
