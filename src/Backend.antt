-- ===== src/Backend.antt =====
-- src/backend/mod.rs: the errors, events and replies of the connection to the app-server.
pub mod Requests
pub mod Frames
use codex_acp_v.Common.{ℕ, String, Option}
use codex_acp_v.Json.{Value}

pub record RpcError : Type 0 where
  pub code : Value
  pub message : String
  pub payload : Option Value

pub data BackendError : Type 0 where
  io : String → BackendError
  protocol : String → BackendError
  disconnected : String → BackendError
  timeout : BackendError
  limit : String → BackendError
  configuration : String → BackendError
  rpc : RpcError → BackendError

-- `disconnect` is the variant `Disconnected` of the events.
pub data BackendEvent : Type 0 where
  notification : ℕ → String → Value → BackendEvent
  server_request : Value → String → Value → BackendEvent
  disconnect : String → BackendEvent

pub record Snapshot : Type 0 where
  pub value : Value
  pub sequence : ℕ
