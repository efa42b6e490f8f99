-- ===== src/Server/Streams.antt =====
-- src/server/resources.rs: subscriptions to the streams of MCP servers, each owned by a session.
-- `backend` is a request and the time it takes: the state that other tasks leave, and the reply.
pub mod Closed
mod Tests
use codex_acp_v.Server.{State}
use codex_acp_v.Backend.{BackendError, rpc}
use codex_acp_v.Json.{Value, as_str, at, obj, string}
use codex_acp_v.Common.{
  ℕ, String, Result, List, err, remove, ok, Option, ◌>>◌, or_fail, ensure, ◌∷◌, ◌>>=◌, not, [],
  if◌then◌else◌, ◌==◌, nat_eq, len, ◌&&◌, leb, contains_key, ltb, length, insert,
}

pub data StreamError : Type 0 where
  no_session : StreamError
  no_subscription_id : StreamError
  id_length : StreamError
  already_active : StreamError
  limit_reached : StreamError
  stream_backend : BackendError → StreamError

-- The id is claimed before the request is sent.
unfoldable pub claim_stream : String → String → State → Result StreamError State
claim_stream root id s = do
  ensure (not (nat_eq (len id) 0) && leb (len id) 1024) id_length
  ensure (not (contains_key (s.mcp_subscriptions) id)) already_active
  ensure (ltb (length (s.mcp_subscriptions)) 1024) limit_reached
  ok (record s { mcp_subscriptions = insert s.mcp_subscriptions id root })

unfoldable pub release_stream : String → State → State
release_stream id s = record s { mcp_subscriptions = remove s.mcp_subscriptions id }

-- Only the refusal of the request frees the id: after any other error the stream may be open.
unfoldable pub after_start :
    String → State → Result BackendError Value → State × Result StreamError Value
after_start id s (ok result) = (s, ok result)
after_start id s (err (rpc failure)) = (release_stream id s, err (stream_backend (rpc failure)))
after_start id s (err failure) = (s, err (stream_backend failure))

abbrev pub subscription_id : Value → Result StreamError String
subscription_id params = or_fail (as_str (at params "subscriptionId")) no_subscription_id

unfoldable pub owned_ids : String → List (String × String) → List String
owned_ids root [] = []
owned_ids root ((id, owner) ∷ rest) =
    if owner == root then id ∷ owned_ids root rest else owned_ids root rest

-- The id of the request and the state in which it is claimed.
unfoldable pub claim_request : Option String → Value → State → Result StreamError (String × State)
claim_request session_id params s = do
  root ← or_fail session_id no_session
  id ← subscription_id params
  after ← claim_stream root id s
  ok (id, after)

module _ (backend : String → Value → State → State × Result BackendError Value) where
  unfoldable pub start_stream :
      Option String → String → Value → State → State × Result StreamError Value
  start_stream session_id method params s = elim (claim_request session_id params s) [
    | err failure ↦ (s, err failure)
    | ok (id, after) ↦
        let (later, reply) = backend method params after in after_start id later reply
  ]

  unfoldable pub stop_stream : String → Value → State → State × Result StreamError Value
  stop_stream method params s = elim (subscription_id params) [
    | err failure ↦ (s, err failure)
    | ok id ↦
        let (later, reply) = backend method params s in
        elim reply [
          | ok result ↦ (release_stream id later, ok result)
          | err failure ↦ (later, err (stream_backend failure))
        ]
  ]

  unfoldable pub close_each : List String → State → State × Result StreamError (Unit {0})
  close_each [] s = (s, ok tt)
  close_each (id ∷ ids) s =
      let stop = obj (("subscriptionId", string id) ∷ []) in
      let (later, reply) = backend "mcpServer/event/stream/stop" stop s in
      let rest = close_each ids (release_stream id later) in
      elim reply [ ok result ↦ rest | err failure ↦ (later, err (stream_backend failure)) ]

  unfoldable pub close_streams : String → State → State × Result StreamError (Unit {0})
  close_streams root s = close_each (owned_ids root s.mcp_subscriptions) s
