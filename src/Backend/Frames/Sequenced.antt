-- ===== src/Backend/Frames/Sequenced.antt =====
-- src/backend/mod.rs and src/backend/transport.rs: the order of events in every interleaving.
use codex_acp_v.Backend.Frames.Branches.{
  open_slot-pending, dispatch-cases, counted, handle-cases, try_send-events, send-outgoing,
}
use codex_acp_v.Backend.Frames.Connection.{
  Connection, Reach, next, opens, sends, drops, reads, takes, fails, terminates, start,
}
use codex_acp_v.Backend.Requests.{drop_guard, Endpoint, has_id, remove_id}
use codex_acp_v.Backend.Frames.Ordered.{
  IsOrdered, stamp_of, reply_stamp, counted-IsOrdered, replied-IsOrdered, queued-IsOrdered,
  event_of-stamp, reply_of-stamp, stamps-last, stamps, reply_stamps-disconnect_all,
}
use codex_acp_v.Backend.Frames.{answer, send_terminal, fail_pending, dispatch}
use codex_acp_v.Backend.{RpcError, BackendEvent, BackendError, Snapshot, disconnect}
use codex_acp_v.Json.{Value}
use codex_acp_v.Common.{
  ℕ, Option, List, Result, String, ◌≡◌, ◌∷◌, true, inl, ◌++◌, ◌+◌, [], subst, sym, ◌⊎◌, inr,
  Bool-cases, arith, ap, length-append, length, append_assoc, append-nil,
}

module _ (size : Value → ℕ) (read_error : Value → Option RpcError) where
  answer-IsOrdered :
      (taken : List BackendEvent) (id : ℕ) (reply : Result BackendError Snapshot) (e : Endpoint)
      → IsOrdered taken e
      → (reply_stamp reply ≡ (e.sequence + 1) ∷ []) ⊎ (reply_stamp reply ≡ [])
      → IsOrdered taken (answer id reply (counted e))
  unfolding answer
  answer-IsOrdered taken id reply e h stamp = elim (Bool-cases (has_id (e.pending) id)) [
    | inl waits ↦
        rw (answer, waits) (replied-IsOrdered taken e id (remove_id e.pending id) reply h stamp)
    | inr idle ↦ rw (answer, idle) (counted-IsOrdered taken e h)
  ]

  dispatch-IsOrdered :
      (taken : List BackendEvent) (frame : Value) (e : Endpoint)
      → IsOrdered taken e
      → IsOrdered taken ((dispatch read_error frame e).0)
  dispatch-IsOrdered taken frame e h = elim (dispatch-cases read_error frame e) [
    | inl refused ↦ subst (IsOrdered taken) (sym refused) h
    | inr (inl failed) ↦ subst (IsOrdered taken) (sym failed) (counted-IsOrdered taken e h)
    | inr (inr done) ↦ elim (handle-cases read_error frame (counted e) _ done) [
      | inl (method, event, built, sent) ↦
          let (queued, room) = try_send-events event (counted e) _ sent in
          subst (IsOrdered taken) (sym queued) (
            queued-IsOrdered taken e event h room
              (event_of-stamp frame method (e.sequence + 1) event built))
      | inr (id, reply, built, answered) ↦ subst (IsOrdered taken) answered (
          answer-IsOrdered taken id reply e h
            (reply_of-stamp read_error frame (e.sequence + 1) reply built))
    ]
  ]

  terminates-IsOrdered :
      (taken : List BackendEvent) (reason : String) (e : Endpoint)
      → e.reserved ≡ true
      → IsOrdered taken e
      → IsOrdered taken (send_terminal reason e)
  unfolding IsOrdered send_terminal stamp_of
  terminates-IsOrdered taken reason e kept h = elim (Bool-cases (e.receiver_closed)) [
    | inl gone ↦ rw gone (h.0, h.1, h.2, ground arith)
    | inr there ↦
        let fits = length-append e.events (disconnect reason ∷ []) in
        rw there (
          rw
            (
              stamps-last taken e.events (disconnect reason),
              append-nil (stamps (taken ++ e.events)),
            )
            (h.0, h.1, h.2, ground arith))
  ]

  takes-IsOrdered :
      (taken : List BackendEvent) (event : BackendEvent) (rest : List BackendEvent) (e : Endpoint)
      → e.events ≡ event ∷ rest
      → IsOrdered taken e
      → IsOrdered (taken ++ event ∷ []) (record e { events = rest })
  unfolding IsOrdered
  takes-IsOrdered taken event rest e first h =
      let left = ap length first in
      rw (append_assoc taken (event ∷ []) rest)
        (rw first at h.0, rw first at h.1, h.2, ground arith)

  -- In every interleaving, from a state in which this holds: the notifications reach the server in the order of their frames, and
  -- the snapshots of replies are in the order of theirs: positions only grow. The queue of events
  -- never exceeds its capacity, with the place that is kept for the terminal event.
  pub Reach-IsOrdered :
      {c d : Connection}
      → Reach size read_error c d
      → IsOrdered c.taken c.endpoint
      → IsOrdered d.taken d.endpoint
  unfolding IsOrdered drop_guard fail_pending
  Reach-IsOrdered start h = h
  Reach-IsOrdered (next {d = c} r (opens more)) h =
      subst (IsOrdered c.taken) (sym (open_slot-pending c.endpoint).2) (Reach-IsOrdered r h)
  Reach-IsOrdered (next {d = c} r (sends writer frame)) h =
      subst (IsOrdered c.taken) (sym (send-outgoing size writer frame c.endpoint).1)
        (Reach-IsOrdered r h)
  Reach-IsOrdered (next {d = c} r (drops id)) h = Reach-IsOrdered r h
  Reach-IsOrdered (next {d = c} r (reads frame)) h =
      dispatch-IsOrdered c.taken frame c.endpoint (Reach-IsOrdered r h)
  Reach-IsOrdered (next {d = c} r (takes event rest e)) h =
      takes-IsOrdered c.taken event rest c.endpoint e (Reach-IsOrdered r h)
  Reach-IsOrdered (next {d = c} r (fails reason)) h =
      rw (reply_stamps-disconnect_all reason c.endpoint.pending c.endpoint.replies)
        (Reach-IsOrdered r h)
  Reach-IsOrdered (next {d = c} r (terminates reason e)) h =
      terminates-IsOrdered c.taken reason c.endpoint e (Reach-IsOrdered r h)
