-- ===== src/Backend/Frames/Tests.antt =====
-- src/backend/mod.rs and src/backend/transport.rs: runs of the connection on a few frames.
use codex_acp_v.Backend.Requests.Released.{request_snapshot-released}
use codex_acp_v.Backend.Frames.Sequenced.{Reach-IsOrdered}
use codex_acp_v.Backend.{RpcError, BackendError, limit, protocol, Snapshot}
use codex_acp_v.Backend.Frames.Correlated.{Reach-IsCorrelated}
use codex_acp_v.Backend.Frames.{
  dispatch, handle, fail_pending, reply_of, event_of, try_send, answer,
}
use codex_acp_v.Backend.Requests.Correlation.{IsCorrelated, Distinct, replied}
use codex_acp_v.Backend.Frames.Ordered.{IsOrdered, Rises, stamps, Falls, reply_stamps}
use codex_acp_v.Json.{Value, obj, nat, string, null}
use codex_acp_v.Backend.Frames.Connection.{Connection, Reach, next, start, opens, reads, fails}
use codex_acp_v.Backend.Requests.{
  open_slot, has_id, Endpoint, Waited, slot_failure, request_snapshot, arrived, insert_id,
  remove_id,
}
use codex_acp_v.Common.{
  lookup, ℕ, [], Option, ◌∷◌, ◌≡◌, none, Result, err, arith, true, false, refl, ok,
}

abbrev fresh : Endpoint
fresh = record {
  pending = [];
  disconnected = none;
  sequence = 0;
  next_id = 1;
  max_frame_bytes = 100;
  max_in_flight = 1;
  event_capacity = 2;
  events = [];
  reserved = true;
  receiver_closed = false;
  outgoing = [];
  replies = [];
}

abbrev no_error : Value → Option RpcError
no_error v = none

abbrev ten_bytes : Value → ℕ
ten_bytes v = 10

abbrev started : Value
started = obj (("method", string "turn/started") ∷ ("params", obj []) ∷ [])

abbrev reply_to : ℕ → Value
reply_to id = obj (("id", nat id) ∷ ("result", string "done") ∷ [])

abbrev waiting : Endpoint
waiting = record fresh { pending = 1 ∷ []; next_id = 2 }

opens_one : open_slot fresh ≡ (waiting, ok 1)
unfolding open_slot slot_failure insert_id remove_id
opens_one = refl

in_flight : (open_slot waiting).1 ≡ err (limit "too many in-flight requests")
unfolding open_slot slot_failure
in_flight = refl

answers :
    (dispatch no_error (reply_to 1) waiting).0.replies
    ≡ (1, ok (record { value = string "done"; sequence = 1 })) ∷ []
unfolding dispatch handle reply_of answer has_id lookup
answers = refl

-- A reply that nobody waits for is dropped, and its position is spent.
late : dispatch no_error (reply_to 7) fresh ≡ (record fresh { sequence = 1 }, ok tt)
unfolding dispatch handle reply_of answer has_id lookup
late = refl

overflow :
    (dispatch no_error started (dispatch no_error started fresh).0).1
    ≡ err (limit "backend event queue overflow; connection terminated to prevent silent event loss")
unfolding dispatch handle event_of try_send lookup
overflow = refl

both :
    (dispatch no_error (obj (("id", nat 1) ∷ ("result", null) ∷ ("error", null) ∷ [])) fresh).1
    ≡ err (protocol "response must contain exactly one result or error")
unfolding dispatch handle reply_of lookup
both = refl

abbrev connected : Connection
connected = record { endpoint = fresh; taken = [] }

-- A request opens its slot, a notification arrives, and the reader stops.
run : Reach ten_bytes no_error connected (record {
  endpoint = fail_pending "closed" (dispatch no_error started (open_slot fresh).0).0;
  taken = [];
})
run = next (next (next start (opens (ground arith))) (reads started)) (fails "closed")

fresh-IsCorrelated : IsCorrelated fresh
unfolding IsCorrelated Distinct replied
fresh-IsCorrelated = (tt, tt, ground arith, (λ reason gone. refl))

fresh-IsOrdered : IsOrdered [] fresh
unfolding IsOrdered Rises stamps Falls reply_stamps
fresh-IsOrdered = (tt, tt, tt, ground arith)

Reach-IsCorrelated_example :
    IsCorrelated (fail_pending "closed" (dispatch no_error started (open_slot fresh).0).0)
Reach-IsCorrelated_example = Reach-IsCorrelated ten_bytes no_error run fresh-IsCorrelated

Reach-IsOrdered_example :
    IsOrdered [] (fail_pending "closed" (dispatch no_error started (open_slot fresh).0).0)
Reach-IsOrdered_example = Reach-IsOrdered ten_bytes no_error run fresh-IsOrdered

-- The reply comes while the request waits.
abbrev replies_at_once : Endpoint → Endpoint × Waited (Result BackendError Snapshot)
replies_at_once e = (
  (dispatch no_error (reply_to 1) e).0,
  arrived (ok (record { value = string "done"; sequence = 1 })),
)

request_snapshot-released_example :
    has_id
      (request_snapshot ten_bytes (arrived tt) replies_at_once "thread/read" null fresh).0.pending
      1
    ≡ false
request_snapshot-released_example =
    request_snapshot-released ten_bytes (arrived tt) replies_at_once "thread/read" null fresh
      fresh-IsCorrelated
