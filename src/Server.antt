-- ===== src/Server.antt =====
-- src/server/mod.rs: the state of one ACP connection. A session is shared by `Arc` between the map
-- of sessions and the tasks that hold it, so a session is a number, its address, and the sessions'
-- contents are a store from addresses. Reply channels are numbers too. Mutexes have no field here:
-- a function of the model runs between two points where the source waits.
pub mod Ownership
pub mod Delivery
pub mod Streams
pub mod Callbacks
pub mod Pages
pub mod History
pub mod Controls
pub mod Notifications
pub mod Pump
use codex_acp_v.Interactions.Elicitation.{ElicitationCapabilities}
use codex_acp_v.Common.{ℕ, String, Bool, Option, List, false, true, [], none}
use codex_acp_v.Json.{Value}
use codex_acp_v.Backend.{BackendEvent}
use codex_acp_v.Extensions.Negotiation.{Negotiation}

pub data InteractionCancellation : Type 0 where
  cancelled dismissed : InteractionCancellation

pub record PendingInteraction : Type 0 where
  pub session_id : Option String
  pub cancel : ℕ

pub data SessionEvent : Type 0 where
  backend : BackendEvent → SessionEvent
  registered : ℕ → SessionEvent

pub record SessionEvents : Type 0 where
  pub pending : List (SessionEvent × ℕ)
  pub bytes : ℕ
  pub running : Bool

pub record PendingSettings : Type 0 where
  pub generation : ℕ
  pub patch : List (String × Value)

-- src/config.rs, `Configuration`.
pub record Configuration : Type 0 where
  pub settings : List (String × Value)
  pub models : List Value

-- The projector has no fields, and the leases of native MCP listeners are numbers.
pub record SessionData : Type 0 where
  pub is_open : Bool
  pub closing : Bool
  pub active_turn : Option String
  pub last_completed_turn : Option String
  pub snapshot_cutoffs : List (String × ℕ)
  pub history_cutoff : ℕ
  pub settings_cutoff : ℕ
  pub settings_overlay : List (String × Value)
  pub settings_generation : ℕ
  pub pending_settings : Option PendingSettings
  pub history_revision : ℕ
  pub reconciled_revert_notification : Bool
  pub configuration : Configuration
  pub mcp_leases : List ℕ

pub record Session : Type 0 where
  pub id : String
  pub content : SessionData
  pub events : SessionEvents

-- Of the client's capabilities, the one that the code reads.
pub record State : Type 0 where
  pub initialized : Bool
  pub capabilities : Option ElicitationCapabilities
  pub extensions : Bool
  pub negotiation : Option Negotiation
  pub sessions : List (String × ℕ)
  pub descendant_roots : List (String × String)
  pub mcp_subscriptions : List (String × String)
  pub models : List Value
  pub pending : List (String × PendingInteraction)
  pub disconnected : Option String
  pub setup_in_progress : Bool
  pub early_events : List BackendEvent
  pub early_bytes : ℕ
  pub store : ℕ → Session

abbrev pub no_configuration : Configuration
no_configuration = record { settings = []; models = [] }

-- `Session::new`
abbrev pub new_session : String → Configuration → Session
new_session id configuration = record {
  id = id;
  content = record {
    is_open = true;
    closing = false;
    active_turn = none;
    last_completed_turn = none;
    snapshot_cutoffs = [];
    history_cutoff = 0;
    settings_cutoff = 0;
    settings_overlay = [];
    settings_generation = 0;
    pending_settings = none;
    history_revision = 0;
    reconciled_revert_notification = false;
    configuration = configuration;
    mcp_leases = [];
  };
  events = record { pending = []; bytes = 0; running = false };
}

-- `State::default`, with sessions still to be made at every address.
abbrev pub new_state : State
new_state = record {
  initialized = false;
  capabilities = none;
  extensions = false;
  negotiation = none;
  sessions = [];
  descendant_roots = [];
  mcp_subscriptions = [];
  models = [];
  pending = [];
  disconnected = none;
  setup_in_progress = false;
  early_events = [];
  early_bytes = 0;
  store = λ address. new_session "" no_configuration;
}
