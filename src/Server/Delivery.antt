-- ===== src/Server/Delivery.antt =====
-- src/server/dispatch.rs: the bounded queue of each session and the task that empties it, and which
-- session an event of the backend is queued for. `size` is the length of a value's JSON text.
pub mod Steps
pub mod Orderly
pub mod Drained
pub mod Routing
mod Tests
use codex_acp_v.Server.{SessionEvents, SessionEvent, backend, State, registered}
use codex_acp_v.Json.{Value, get_str, get}
use codex_acp_v.Server.Ownership.{OwnershipError, Outcome, owner_for_thread}
use codex_acp_v.Backend.{BackendEvent, notification, BackendError, server_request, disconnect}
use codex_acp_v.Common.{
  ℕ, String, if◌then◌else◌, ltb, Option, Result, or_else, ◌^◌, Bool, ◌-◌, some, length, err,
  and_then, ◌&&◌, len, leb, none, ok, lookup, nat_eq, ◌+◌, ◌*◌, ◌++◌, ◌∷◌, [], true, false, not,
  saturate,
}

pub data DeliveryError : Type 0 where
  buffer_exceeded : DeliveryError
  ownership : OwnershipError → DeliveryError

module _ (size : Value → ℕ) where
  unfoldable pub event_bytes : SessionEvent → ℕ
  event_bytes (backend (notification sequence method params)) = size params
  event_bytes (backend (server_request id method params)) = size params
  event_bytes (backend (disconnect message)) = len message
  event_bytes (registered reply) = 0

  -- The test and the update under the lock of the queue. The flag says that a task is to be spawned.
  unfoldable pub enqueue :
      ℕ → SessionEvents → SessionEvent → Result DeliveryError (SessionEvents × Bool)
  enqueue max_frame_bytes events event =
      let bytes = event_bytes event in
      if ltb (length events.pending) 256
        && leb (saturate (events.bytes + bytes)) (saturate (max_frame_bytes * 4))
      then ok (
        record {
          pending = events.pending ++ (event, bytes) ∷ [];
          bytes = events.bytes + bytes;
          running = true;
        },
        not events.running,
      )
      else err buffer_exceeded

-- What the task does under the lock: the next event, or the end of the task.
unfoldable pub pop_event : SessionEvents → Option SessionEvent × SessionEvents
pop_event events = elim events.pending [
  | [] ↦ (none, record events { running = false })
  | (event, bytes) ∷ rest ↦
      (some event, record events { pending = rest; bytes = events.bytes - bytes })
]

-- A backend event names its thread, at either of two places.
unfoldable pub thread_of : Value → Option String
thread_of params =
    or_else (get_str "threadId" params) (and_then (get "thread" params) (get_str "id"))

unfoldable pub event_params : BackendEvent → Option Value
event_params (notification sequence method params) = some params
event_params (server_request id method params) = some params
event_params (disconnect message) = none

-- The state with another queue for one session.
unfoldable pub with_events : ℕ → SessionEvents → State → State
with_events session events s = record s {
  store = λ address.
      if nat_eq address session
      then record (s.store address) { events = events }
      else s.store address;
}

-- An event for a session is queued there, and whether a task is spawned is answered; any other is
-- handed back.
pub data Routed : Type 0 where
  queued : Bool → Routed
  unowned : BackendEvent → Routed

module _ (size : Value → ℕ) (max_frame_bytes : ℕ) where
  unfoldable pub queue_for : ℕ → SessionEvent → State → Result DeliveryError Routed × State
  queue_for session event s = elim (enqueue size max_frame_bytes (s.store session).events event) [
    | err e ↦ (err e, s)
    | ok (events, spawns) ↦ (ok (queued spawns), with_events session events s)
  ]

-- The lookup of an owner waits at `others 0` to `others 95`; the later waits have numbers of their own.
module _ (read : String → Result BackendError Value) (others : ℕ → State → State) where
  unfoldable pub owner_of_params : Value → State → Outcome × State
  owner_of_params params s = elim (thread_of params) [
    | some id ↦ owner_for_thread read others id s
    | none ↦
        let locked = others 98 s in
        (ok (and_then (get_str "subscriptionId" params) (lookup locked.mcp_subscriptions)), locked)
  ]

  unfoldable pub owner_of_event : BackendEvent → State → Outcome × State
  owner_of_event event s = elim (event_params event) [
    | some params ↦ owner_of_params params s
    | none ↦ (ok none, s)
  ]

module _ (size : Value → ℕ) (max_frame_bytes : ℕ) (read : String → Result BackendError Value)
    (others : ℕ → State → State) where
  unfoldable pub route_session_event : BackendEvent → State → Result DeliveryError Routed × State
  route_session_event event s =
      let (owner, looked) = owner_of_event read others event s in
      let locked = others 97 looked in
      elim owner [
        | err e ↦ (err (ownership e), looked)
        | ok id ↦ elim (and_then id (lookup locked.sessions)) [
          | some session ↦ queue_for size max_frame_bytes session (backend event) (others 96 locked)
          | none ↦ (ok (unowned event), locked)
        ]
      ]
