-- ===== src/Backend/Requests.antt =====
-- src/backend/mod.rs: the request endpoint. An `Endpoint` is the source's `Inner` and its `State`,
-- with the ends of the channels it holds: the frames handed to the writer, the events that the
-- server has not taken yet, and the replies sent to requests, the last one first. `reserved` is the
-- place that the channel of events keeps for the terminal event.
-- A reply slot is named by the id of its request. `size` is the length of an encoded frame.
pub mod Correlation
pub mod Released
use codex_acp_v.Backend.{
  RpcError, BackendError, BackendEvent, Snapshot, disconnected, protocol, limit, timeout,
}
use codex_acp_v.Json.{Value, obj, string, number, pos_int, neg_int, nat}
use codex_acp_v.Common.{
  ℕ, List, Result, ◌∷◌, Bool, String, Option, ◌+◌, false, some, if◌then◌else◌, ok, [], err, nat_eq,
  true, ◌||◌, ltb, ◌++◌, none, ◌%◌, ◌^◌, leb, length,
}

pub record Endpoint : Type 0 where
  pub pending : List ℕ
  pub disconnected : Option String
  pub sequence : ℕ
  pub next_id : ℕ
  pub max_frame_bytes : ℕ
  pub max_in_flight : ℕ
  pub event_capacity : ℕ
  pub events : List BackendEvent
  pub reserved : Bool
  pub receiver_closed : Bool
  pub outgoing : List Value
  pub replies : List (ℕ × Result BackendError Snapshot)

-- `HashMap::insert`, `contains_key` and `remove` on the ids that have a slot.
unfoldable pub has_id : List ℕ → ℕ → Bool
has_id [] id = false
has_id (i ∷ is) id = nat_eq i id || has_id is id

unfoldable pub remove_id : List ℕ → ℕ → List ℕ
remove_id [] id = []
remove_id (i ∷ is) id = if nat_eq i id then remove_id is id else i ∷ remove_id is id

unfoldable pub insert_id : List ℕ → ℕ → List ℕ
insert_id ids id = id ∷ remove_id ids id

unfoldable pub valid_id : Value → Bool
valid_id (string s) = true
valid_id (number (pos_int n)) = true
valid_id (number (neg_int n)) = true
valid_id _ = false

-- Why a request gets no slot.
unfoldable pub slot_failure : Endpoint → Option BackendError
slot_failure e = elim (e.disconnected) [
  | some message ↦ some (disconnected message)
  | none ↦
      if leb (e.max_in_flight) (length (e.pending))
      then some (limit "too many in-flight requests")
      else none
]

-- The endpoint that `request_snapshot` leaves when it takes an id, and the id if it has a slot.
unfoldable pub open_slot : Endpoint → Endpoint × Result BackendError ℕ
open_slot e =
    let id = e.next_id in
    let taken = record e { next_id = (id + 1) % 2 ^ 64 } in
    elim (slot_failure e) [
      | some failure ↦ (taken, err failure)
      | none ↦ (record taken { pending = insert_id e.pending id }, ok id)
    ]

-- `PendingGuard::drop`
unfoldable pub drop_guard : ℕ → Endpoint → Endpoint
drop_guard id e = record e { pending = remove_id e.pending id }

-- What a wait of bounded length for a channel comes to.
pub data Waited {ℓ} (A : Type ℓ) : Type ℓ where
  arrived : A → Waited A
  closed : Waited A
  elapsed : Waited A

-- What a request makes of the wait for its reply.
unfoldable pub outcome : Waited (Result BackendError Snapshot) → Result BackendError Snapshot
outcome (arrived reply) = reply
outcome closed = err (disconnected "reply channel closed")
outcome elapsed = err timeout

module _ (size : Value → ℕ) where
  -- Why a frame is not handed over. `writer` tells what becomes of it: the writer takes it, is gone,
  -- or stays full for too long.
  unfoldable pub send_failure : Waited (Unit {0}) → Value → Endpoint → Option BackendError
  send_failure writer frame e = elim (e.disconnected) [
    | some message ↦ some (disconnected message)
    | none ↦
        if ltb (e.max_frame_bytes) (size frame)
        then some (limit "outbound frame exceeds max_frame_bytes")
        else elim writer [
          | arrived _ ↦ none
          | closed ↦ some (disconnected "writer closed")
          | elapsed ↦ some timeout
        ]
  ]

  unfoldable pub send :
      Waited (Unit {0}) → Value → Endpoint → Endpoint × Result BackendError (Unit {0})
  send writer frame e = elim (send_failure writer frame e) [
    | some failure ↦ (e, err failure)
    | none ↦ (record e { outgoing = e.outgoing ++ frame ∷ [] }, ok tt)
  ]

  -- `others` changes the endpoint while the request waits for its reply.
  unfoldable pub request_snapshot :
      Waited (Unit {0})
      → (Endpoint → Endpoint × Waited (Result BackendError Snapshot))
      → String
      → Value
      → Endpoint
      → Endpoint × Result BackendError Snapshot
  request_snapshot writer others method params e =
      let (opened, slot) = open_slot e in
      elim slot [
        | err failure ↦ (opened, err failure)
        | ok id ↦
            let frame =
              obj (("id", nat id) ∷ ("method", string method) ∷ ("params", params) ∷ []) in
            let (sent, handed) = send writer frame opened in
            let (later, wait) = others sent in
            elim handed [
              | err failure ↦ (drop_guard id sent, err failure)
              | ok _ ↦ (drop_guard id later, outcome wait)
            ]
      ]

  unfoldable pub notify :
      Waited (Unit {0}) → String → Value → Endpoint → Endpoint × Result BackendError (Unit {0})
  notify writer method params =
      send writer (obj (("method", string method) ∷ ("params", params) ∷ []))

  -- `encode` is the document of an error.
  unfoldable pub respond :
      (RpcError → Value)
      → Waited (Unit {0})
      → Value
      → Result RpcError Value
      → Endpoint
      → Endpoint × Result BackendError (Unit {0})
  respond encode writer id (ok result) e =
      if valid_id id
      then send writer (obj (("id", id) ∷ ("result", result) ∷ [])) e
      else (e, err (protocol "request IDs must be strings or integers"))
  respond encode writer id (err failure) e =
      if valid_id id
      then send writer (obj (("id", id) ∷ ("error", encode failure) ∷ [])) e
      else (e, err (protocol "request IDs must be strings or integers"))
