-- ===== src/Backend/Frames/Correlated.antt =====
-- src/backend/mod.rs and src/backend/transport.rs: the invariant on the ids of requests.
use codex_acp_v.Backend.Frames.Branches.{
  handle-cases, dispatch-cases, try_send-events, send-outgoing, counted,
}
use codex_acp_v.Backend.Frames.Connection.{
  Connection, Reach, next, opens, sends, drops, reads, takes, fails, terminates, start,
}
use codex_acp_v.Json.{Value}
use codex_acp_v.Backend.{BackendError, Snapshot, RpcError}
use codex_acp_v.Backend.Requests.{
  drop_guard, open_slot, Endpoint, remove_id, insert_id, has_id, slot_failure, send, Waited,
}
use codex_acp_v.Backend.Frames.{
  fail_pending, answer, disconnect_all, dispatch, handle, send_terminal,
}
use codex_acp_v.Backend.Requests.Correlation.{
  replied, IsCorrelated, Distinct, Distinct-remove_id, All-remove_id, length-remove_id-le,
  Distinct-move, has_id-above, used_ids, has_id-once, has_id-append, remove_id-absent, All-move,
  has_id-All,
}
use codex_acp_v.Common.{
  ℕ, String, Result, arith, List, ◌+◌, ◌<◌, ◌≡◌, ◌++◌, ◌^◌, Bool-cases, Option-cases, none, ◌%◌,
  inl, true, ◌∷◌, refl, length, All-implied, ap, inr, [], Option, ok, subst, sym,
}

-- A step that leaves the ids as they are, but may take one for a request without a slot.
unused-IsCorrelated :
    (e : Endpoint)
    → e.next_id + 1 < 2 ^ 64
    → IsCorrelated e
    → IsCorrelated (record e { next_id = (e.next_id + 1) % 2 ^ 64 })
unfolding IsCorrelated
unused-IsCorrelated e more h =
    (h.0, All-implied (used_ids e) (λ id below. ground arith) h.1, h.2, h.3)

opened-IsCorrelated :
    (e : Endpoint)
    → e.next_id + 1 < 2 ^ 64
    → e.disconnected ≡ none
    → length e.pending < e.max_in_flight
    → IsCorrelated e
    → IsCorrelated
        (record e { next_id = (e.next_id + 1) % 2 ^ 64; pending = insert_id e.pending e.next_id })
unfolding IsCorrelated insert_id Distinct has_id
opened-IsCorrelated e more alive room h =
    let fresh = has_id-above (used_ids e) e.next_id h.1 in
    let split = has_id-append e.pending (replied e.replies) e.next_id in
    let same = remove_id-absent e.pending e.next_id (ground arith) in
    rw same (
      (fresh, h.0),
      (ground arith, All-implied (used_ids e) (λ id below. ground arith) h.1),
      ground arith,
      (λ reason gone. absurd (ground arith)),
    )

slot_failure-none :
    (e : Endpoint)
    → slot_failure e ≡ none
    → (e.disconnected ≡ none) × (length e.pending < e.max_in_flight)
unfolding slot_failure
slot_failure-none e free = (ground arith, ground arith)

open_slot-IsCorrelated :
    (e : Endpoint) → e.next_id + 1 < 2 ^ 64 → IsCorrelated e → IsCorrelated ((open_slot e).0)
unfolding open_slot
open_slot-IsCorrelated e more h = elim (Option-cases (slot_failure e)) [
  | inr (failure, refused) ↦ rw (open_slot, refused) (unused-IsCorrelated e more h)
  | inl free ↦
      let (alive, room) = slot_failure-none e free in
      rw (open_slot, free) (opened-IsCorrelated e more alive room h)
]

drop_guard-IsCorrelated : (id : ℕ) (e : Endpoint) → IsCorrelated e → IsCorrelated (drop_guard id e)
unfolding drop_guard IsCorrelated remove_id
drop_guard-IsCorrelated id e h = (
  Distinct-remove_id e.pending (replied e.replies) id h.0,
  All-remove_id (λ i. i < e.next_id) e.pending (replied e.replies) id h.1,
  omega (arith, length-remove_id-le e.pending id, h.2),
  (λ reason gone. rw (h.3 reason gone)),
)

answered-IsCorrelated :
    (id : ℕ) (reply : Result BackendError Snapshot) (e : Endpoint)
    → has_id e.pending id ≡ true
    → IsCorrelated e
    → IsCorrelated
        (record e { pending = remove_id e.pending id; replies = (id, reply) ∷ e.replies })
unfolding IsCorrelated replied remove_id
answered-IsCorrelated id reply e waits h = (
  Distinct-move e.pending (replied e.replies) id h.0
      (has_id-once e.pending (replied e.replies) id h.0 waits),
  All-move (λ i. i < e.next_id) e.pending (replied e.replies) id h.1
      (has_id-All (λ i. i < e.next_id) e.pending (replied e.replies) id h.1 waits),
  omega (arith, length-remove_id-le e.pending id, h.2),
  (λ reason gone. rw (h.3 reason gone)),
)

answer-IsCorrelated :
    (id : ℕ) (reply : Result BackendError Snapshot) (e : Endpoint)
    → IsCorrelated e
    → IsCorrelated (answer id reply e)
unfolding answer
answer-IsCorrelated id reply e h = elim (Bool-cases (has_id (e.pending) id)) [
  | inl waits ↦ rw waits (answered-IsCorrelated id reply e waits h)
  | inr idle ↦ rw idle h
]

replied-disconnect_all :
    (reason : String) (ids : List ℕ) (replies : List (ℕ × Result BackendError Snapshot))
    → replied (disconnect_all reason ids ++ replies) ≡ ids ++ replied replies
unfolding replied disconnect_all
replied-disconnect_all reason [] replies = refl
replied-disconnect_all reason (id ∷ ids) replies =
    ap (λ r. id ∷ r) (replied-disconnect_all reason ids replies)

fail_pending-IsCorrelated :
    (reason : String) (e : Endpoint) → IsCorrelated e → IsCorrelated (fail_pending reason e)
unfolding fail_pending IsCorrelated
fail_pending-IsCorrelated reason e h =
    rw (replied-disconnect_all reason e.pending e.replies)
      (h.0, h.1, ground arith, (λ again gone. refl))

module _ (size : Value → ℕ) (read_error : Value → Option RpcError) where
  handle-IsCorrelated :
      (frame : Value) (e after : Endpoint)
      → handle read_error frame e ≡ ok after
      → IsCorrelated e
      → IsCorrelated after
  unfolding IsCorrelated
  handle-IsCorrelated frame e after done h = elim (handle-cases read_error frame e after done) [
    | inl (method, event, _, sent) ↦
        subst IsCorrelated (sym (try_send-events event e after sent).0) h
    | inr (id, reply, _, answered) ↦ subst IsCorrelated answered (answer-IsCorrelated id reply e h)
  ]

  dispatch-IsCorrelated :
      (frame : Value) (e : Endpoint)
      → IsCorrelated e
      → IsCorrelated ((dispatch read_error frame e).0)
  unfolding IsCorrelated
  dispatch-IsCorrelated frame e h = elim (dispatch-cases read_error frame e) [
    | inl refused ↦ subst IsCorrelated (sym refused) h
    | inr (inl failed) ↦ subst IsCorrelated (sym failed) h
    | inr (inr done) ↦ handle-IsCorrelated frame (counted e) _ done h
  ]

  send-IsCorrelated :
      (writer : Waited (Unit {0})) (frame : Value) (e : Endpoint)
      → IsCorrelated e
      → IsCorrelated ((send size writer frame e).0)
  unfolding IsCorrelated
  send-IsCorrelated writer frame e h =
      subst IsCorrelated (sym (send-outgoing size writer frame e).1) h

  -- In every interleaving of fewer than 2^64 requests, from a state in which this holds: each id is
  -- in one slot or one reply at most, the requests in flight are within their limit, and no request
  -- waits after the connection has ended.
  pub Reach-IsCorrelated :
      {c d : Connection}
      → Reach size read_error c d
      → IsCorrelated c.endpoint
      → IsCorrelated d.endpoint
  unfolding IsCorrelated send_terminal
  Reach-IsCorrelated start h = h
  Reach-IsCorrelated (next {d = c} r (opens more)) h =
      open_slot-IsCorrelated c.endpoint more (Reach-IsCorrelated r h)
  Reach-IsCorrelated (next {d = c} r (sends writer frame)) h =
      send-IsCorrelated writer frame c.endpoint (Reach-IsCorrelated r h)
  Reach-IsCorrelated (next {d = c} r (drops id)) h =
      drop_guard-IsCorrelated id c.endpoint (Reach-IsCorrelated r h)
  Reach-IsCorrelated (next {d = c} r (reads frame)) h =
      dispatch-IsCorrelated frame c.endpoint (Reach-IsCorrelated r h)
  Reach-IsCorrelated (next r (takes event rest e)) h = Reach-IsCorrelated r h
  Reach-IsCorrelated (next {d = c} r (fails reason)) h =
      fail_pending-IsCorrelated reason c.endpoint (Reach-IsCorrelated r h)
  Reach-IsCorrelated (next r (terminates reason e)) h = Reach-IsCorrelated r h
