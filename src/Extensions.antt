-- ===== src/Extensions.antt =====
-- src/extensions.rs: the versioned Codex extension interface, its requests and its refusals.
pub mod Methods
pub mod Negotiation
pub mod Policy
mod Tests
use codex_acp_v.Common.{ℕ, String, Option}
use codex_acp_v.Json.{Value}

pub record RequestEnvelope : Type 0 where
  pub version : ℕ
  pub session_id : Option String
  pub method : String
  pub params : Value

pub data ExtensionError : Type 0 where
  bad_version : ExtensionError
  negotiation : String → ExtensionError
  unsupported : String → ExtensionError
  lifecycle : String → ExtensionError
  host_access : ExtensionError
  not_owned : ExtensionError
  parameters : ExtensionError

-- Where the frontend routes a request and the events that result from it.
pub data RequestScope : Type 0 where
  thread : String → RequestScope
  discovery : RequestScope
  host : RequestScope
