-- ===== src/Backend/Frames.antt =====
-- src/backend/transport.rs: what the reader does with a frame of the app-server, the frames cut from
-- the bytes of its output, and what the supervisor leaves. `read_error` decodes an RPC error.
pub mod Branches
pub mod Connection
pub mod Correlated
pub mod Ordered
pub mod Sequenced
mod Tests
use codex_acp_v.Backend.Requests.{Endpoint, has_id, remove_id, valid_id}
use codex_acp_v.Json.{Value, get, as_str, as_u64, is_object, at}
use codex_acp_v.Backend.{
  BackendEvent, RpcError, BackendError, Snapshot, disconnected, disconnect, protocol, rpc, limit,
  server_request, notification,
}
use codex_acp_v.Common.{
  ℕ, String, List, Result, Option, some, ◌>>=◌, [], ◌+◌, if◌then◌else◌, ◌∷◌, ◌++◌, err, or_fail,
  and_then, is_none, ltb, ok, ◌>>◌, length, ensure, ◌^◌, none, false,
}

-- The places that are taken: those of the events, and the reserved one.
abbrev pub occupied : Endpoint → ℕ
occupied e = length e.events + (if e.reserved then 1 else 0)

-- `Sender::try_send`
unfoldable pub try_send : BackendEvent → Endpoint → Result BackendError Endpoint
try_send event e =
    if e.receiver_closed
    then err (disconnected "event receiver closed")
    else if ltb (occupied e) (e.event_capacity)
    then ok (record e { events = e.events ++ event ∷ [] })
    else err
        (limit "backend event queue overflow; connection terminated to prevent silent event loss")

-- The event of a frame that has a method.
unfoldable pub event_of : Value → Value → ℕ → Result BackendError BackendEvent
event_of frame method sequence = do
  name ← or_fail (as_str method) (protocol "method must be a string")
  elim (get "id" frame) [
    | some id ↦ do
      ensure (valid_id id) (protocol "request IDs must be strings or integers")
      ok (server_request id name (at frame "params"))
    | none ↦ ok (notification sequence name (at frame "params"))
  ]

-- The reply goes to the slot of its id, if the request still waits.
unfoldable pub answer : ℕ → Result BackendError Snapshot → Endpoint → Endpoint
answer id reply e =
    if has_id (e.pending) id
    then record e { pending = remove_id e.pending id; replies = (id, reply) ∷ e.replies }
    else e

module _ (read_error : Value → Option RpcError) where
  unfoldable pub reply_of : Value → ℕ → Result BackendError (Result BackendError Snapshot)
  reply_of frame sequence = elim (get "result" frame) [
    | some result ↦
        if is_none (get "error" frame)
        then ok (ok (record { value = result; sequence = sequence }))
        else err (protocol "response must contain exactly one result or error")
    | none ↦ elim (get "error" frame) [
      | some error ↦ do
        failure ← or_fail (read_error error) (protocol "malformed RPC error")
        ok (err (rpc failure))
      | none ↦ err (protocol "response must contain exactly one result or error")
    ]
  ]

  -- What follows the count of a frame that is an object.
  unfoldable pub handle : Value → Endpoint → Result BackendError Endpoint
  handle frame e = elim (get "method" frame) [
    | some method ↦ event_of frame method (e.sequence) >>= λ event. try_send event e
    | none ↦ do
      id ←
          or_fail (and_then (get "id" frame) as_u64)
            (protocol "response has no matching numeric request ID")
      reply ← reply_of frame (e.sequence)
      ok (answer id reply e)
  ]

  -- The endpoint is the one left when the frame is refused, too.
  unfoldable pub dispatch : Value → Endpoint → Endpoint × Result BackendError (Unit {0})
  dispatch frame e =
      let counted = record e { sequence = e.sequence + 1 } in
      if is_object frame
      then if ltb (e.sequence + 1) (2 ^ 64)
        then elim (handle frame counted) [
          | ok after ↦ (after, ok tt)
          | err failure ↦ (counted, err failure)
        ]
        else (e, err (protocol "backend frame sequence exhausted"))
      else (e, err (protocol "expected a JSON object"))

-- What `supervise` does to the endpoint when the connection has ended: every slot is drained ...
unfoldable pub disconnect_all : String → List ℕ → List (ℕ × Result BackendError Snapshot)
disconnect_all reason [] = []
disconnect_all reason (id ∷ ids) = (id, err (disconnected reason)) ∷ disconnect_all reason ids

unfoldable pub fail_pending : String → Endpoint → Endpoint
fail_pending reason e = record e {
  disconnected = some reason;
  pending = [];
  replies = disconnect_all reason e.pending ++ e.replies;
}

-- ... and the terminal event takes the reserved place.
unfoldable pub send_terminal : String → Endpoint → Endpoint
send_terminal reason e = record e {
  events = if e.receiver_closed then e.events else e.events ++ disconnect reason ∷ [];
  reserved = false;
}
