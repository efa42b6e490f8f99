-- ===== src/Backend/Frames/Connection.antt =====
-- src/backend/mod.rs and src/backend/transport.rs: every interleaving of the requests, the reader,
-- the server that takes events and the supervisor. `taken` holds the events that the server took.
use codex_acp_v.Backend.{RpcError, BackendEvent}
use codex_acp_v.Json.{Value}
use codex_acp_v.Backend.Frames.{fail_pending, dispatch, send_terminal}
use codex_acp_v.Backend.Requests.{drop_guard, Endpoint, open_slot, Waited, send}
use codex_acp_v.Common.{ℕ, Option, List, String, ◌+◌, ◌<◌, ◌^◌, ◌≡◌, ◌∷◌, ◌++◌, [], true}

pub record Connection : Type 0 where
  pub endpoint : Endpoint
  pub taken : List BackendEvent

module _ (size : Value → ℕ) (read_error : Value → Option RpcError) where
  -- A request opens a slot, sends a frame, and drops its slot at any time after; ids do not wrap.
  pub data Move (c : Connection) : Connection → Type 0 where
    opens :
        c.endpoint.next_id + 1 < 2 ^ 64 → Move c (record c { endpoint = (open_slot c.endpoint).0 })
    sends :
        (writer : Waited (Unit {0})) (frame : Value)
        → Move c (record c { endpoint = (send size writer frame c.endpoint).0 })
    drops : (id : ℕ) → Move c (record c { endpoint = drop_guard id c.endpoint })
    reads :
        (frame : Value) → Move c (record c { endpoint = (dispatch read_error frame c.endpoint).0 })
    takes :
        (event : BackendEvent) (rest : List BackendEvent)
        → c.endpoint.events ≡ event ∷ rest
        → Move c (record c {
          endpoint = record c.endpoint { events = rest };
          taken = c.taken ++ event ∷ [];
        })
    fails : (reason : String) → Move c (record c { endpoint = fail_pending reason c.endpoint })
    terminates :
        (reason : String)
        → c.endpoint.reserved ≡ true
        → Move c (record c { endpoint = send_terminal reason c.endpoint })

  pub data Reach (c : Connection) : Connection → Type 0 where
    start : Reach c c
    next : {d e : Connection} → Reach c d → Move d e → Reach c e
