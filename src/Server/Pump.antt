-- ===== src/Server/Pump.antt =====
-- src/server/events.rs, `event_pump`, with `Registration` of src/server/mod.rs: the order in which the
-- events of the backend reach the sessions while a session is set up. `size` is the length of a
-- value's JSON text. What routing does with an event is another component.
pub mod Shapes
pub mod Ordered
mod Tests
use codex_acp_v.Server.Delivery.{event_params, DeliveryError, thread_of, Routed, queue_for, queued}
use codex_acp_v.Backend.{BackendEvent}
use codex_acp_v.Json.{Value}
use codex_acp_v.Server.{State, Configuration, new_session, registered}
use codex_acp_v.Common.{
  ℕ, String, Bool, List, Result, is_some_and, insert, ◌≡◌, Option, [], and_then, not, none,
  if◌then◌else◌, true, ltb, contains_key, nat_eq, some, false, ◌&&◌, length, ◌∷◌, ok, is_none, leb,
  ◌+◌, ◌++◌,
}

-- The second address of a new registration is that of the session to be made.
pub data Registration : Type 0 where
  new_registration : String → Configuration → ℕ → ℕ → Registration
  fence : ℕ → ℕ → Registration

-- A registration whose events are still to be handled: its reply, its session, and whether it ends a
-- set-up.
pub record Registered : Type 0 where
  pub reply : ℕ
  pub session : ℕ
  pub finish_setup : Bool

pub record Pump : Type 0 where
  pub server : State
  pub queued : List BackendEvent
  pub registering : Option Registered

unfoldable pub event_thread_id : BackendEvent → Option String
event_thread_id event = and_then (event_params event) thread_of

-- An event of a thread that is no session yet, while one is set up.
unfoldable pub is_early : Pump → BackendEvent → Bool
is_early p event = is_some_and (event_thread_id event) (λ id.
    not (contains_key p.server.sessions id) && p.server.setup_in_progress && is_none p.registering)

-- The request of a set-up has failed: what came early is dropped. Its requests are refused, which is
-- left out here.
unfoldable pub fail_setup : State → State
fail_setup s = record s { setup_in_progress = false; early_events = []; early_bytes = 0 }

-- The registration is taken, and what came early is handled next.
unfoldable pub register : Registration → List BackendEvent → Pump → Pump
register (new_registration id configuration reply address) captured p = record {
  server = record p.server {
    sessions = insert p.server.sessions id address;
    early_events = [];
    early_bytes = 0;
    store = λ other_address.
        if nat_eq other_address address
        then new_session id configuration
        else p.server.store other_address;
  };
  queued = p.server.early_events;
  registering = some (record { reply = reply; session = address; finish_setup = true });
}
register (fence session reply) captured p = record {
  server = p.server;
  queued = captured;
  registering = some (record { reply = reply; session = session; finish_setup = false });
}

module _ (size : Value → ℕ) (max_frame_bytes : ℕ) where
  abbrev early_size : BackendEvent → ℕ
  early_size event = elim (event_params event) [ none ↦ 0 | some params ↦ size params ]

  -- The early events with one more, within their limits.
  unfoldable pub hold_event : BackendEvent → State → Option State
  hold_event event s =
      if ltb (length s.early_events) 256 && leb (s.early_bytes + early_size event) max_frame_bytes
      then some (record s {
        early_bytes = s.early_bytes + early_size event;
        early_events = s.early_events ++ event ∷ [];
      })
      else none

  -- The events of a registration have been handled: its session's queue is told.
  unfoldable pub finish_registration : Registered → State → Result DeliveryError Routed × State
  finish_registration r s =
      let settled = if r.finish_setup then record s { setup_in_progress = false } else s in
      queue_for size max_frame_bytes r.session (registered r.reply) settled

  -- What the other tasks and the routing of an event do to the state, as far as the pump reads it, but
  -- for the end of a set-up that fails, which is a round of its own: sessions are added, and the early
  -- events changed and the mark of a set-up cleared, by nothing else than the rounds here.
  pub record Leaves (s after : State) : Type 0 where
    pub early : after.early_events ≡ s.early_events
    pub setup : s.setup_in_progress ≡ true → after.setup_in_progress ≡ true
    pub closed :
        (id : String) → contains_key s.sessions id ≡ false → contains_key after.sessions id ≡ false

  -- One round of the loop, with the events that it takes from the channel and those that it routes.
  pub data Round : Pump → List BackendEvent → List BackendEvent → Pump → Type 0 where
    holds_next :
        {p : Pump} {s : State} (event : BackendEvent)
        → p.queued ≡ []
        → p.registering ≡ none
        → is_early p event ≡ true
        → hold_event event p.server ≡ some s
        → Round p (event ∷ []) [] (record p { server = s })
    routes_next :
        {p : Pump} {s : State} (event : BackendEvent)
        → p.queued ≡ []
        → p.registering ≡ none
        → is_early p event ≡ false
        → Leaves p.server s
        → Round p (event ∷ []) (event ∷ []) (record p { server = s })
    holds_queued :
        {p : Pump} {s : State} (event : BackendEvent) (rest : List BackendEvent)
        → p.queued ≡ event ∷ rest
        → is_early p event ≡ true
        → hold_event event p.server ≡ some s
        → Round p [] [] (record p { server = s; queued = rest })
    routes_queued :
        {p : Pump} {s : State} (event : BackendEvent) (rest : List BackendEvent)
        → p.queued ≡ event ∷ rest
        → is_early p event ≡ false
        → Leaves p.server s
        → Round p [] (event ∷ []) (record p { server = s; queued = rest })
    registers :
        {p : Pump} (id : String) (configuration : Configuration) (reply address : ℕ)
        → p.queued ≡ []
        → p.registering ≡ none
        → Round p [] [] (register (new_registration id configuration reply address) [] p)
    fences :
        {p : Pump} (session reply : ℕ) (captured : List BackendEvent)
        → p.queued ≡ []
        → p.registering ≡ none
        → Round p captured [] (register (fence session reply) captured p)
    finishes :
        {p : Pump} {s : State} (r : Registered) (spawns : Bool)
        → p.queued ≡ []
        → p.registering ≡ some r
        → finish_registration r p.server ≡ (ok (queued spawns), s)
        → Round p [] [] (record p { server = s; registering = none })
    setup_fails :
        {p : Pump}
        → p.server.setup_in_progress ≡ true
        → Round p [] [] (record p { server = fail_setup p.server })
    others_run :
        {p : Pump} {s : State} → Leaves p.server s → Round p [] [] (record p { server = s })
