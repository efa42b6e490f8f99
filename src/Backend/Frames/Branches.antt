-- ===== src/Backend/Frames/Branches.antt =====
-- src/backend/mod.rs and src/backend/transport.rs: the branches of `send` and `dispatch`, as equations.
use codex_acp_v.Backend.{BackendEvent, RpcError, BackendError, Snapshot, protocol}
use codex_acp_v.Backend.Frames.{try_send, handle, dispatch, event_of, occupied, reply_of, answer}
use codex_acp_v.Json.{Value, is_object, get, as_u64}
use codex_acp_v.Backend.Requests.{
  Endpoint, send, Waited, send_failure, open_slot, slot_failure, insert_id,
}
use codex_acp_v.Common.{
  ℕ, ◌+◌, Option, ◌≡◌, List, Option-cases, ok, inr, ◌⊎◌, ◌++◌, inl, ◌∷◌, Bool-cases, Result, [],
  ltb, ◌^◌, ◌<◌, Result-cases, arith, >>=-ok_inversion, or_fail, and_then, ok_injective, ◌%◌,
}

abbrev pub counted : Endpoint → Endpoint
counted e = record e { sequence = e.sequence + 1 }

pub send-outgoing :
    (size : Value → ℕ) (writer : Waited (Unit {0})) (frame : Value) (e : Endpoint)
    → (frames : List Value) × ((send size writer frame e).0 ≡ record e { outgoing = frames })
unfolding send
send-outgoing size writer frame e = elim (Option-cases (send_failure size writer frame e)) [
  | inr (failure, refused) ↦ (e.outgoing, rw (send, refused))
  | inl free ↦ (e.outgoing ++ frame ∷ [], rw (send, free))
]

pub open_slot-pending :
    (e : Endpoint)
    → (ids : List ℕ) × (id : ℕ) × ((open_slot e).0 ≡ record e { pending = ids; next_id = id })
unfolding open_slot
open_slot-pending e = elim (Option-cases (slot_failure e)) [
  | inr (failure, refused) ↦ (e.pending, (e.next_id + 1) % 2 ^ 64, rw (open_slot, refused))
  | inl free ↦ (insert_id e.pending e.next_id, (e.next_id + 1) % 2 ^ 64, rw (open_slot, free))
]

pub try_send-events :
    (event : BackendEvent) (e after : Endpoint)
    → try_send event e ≡ ok after
    → (after ≡ record e { events = e.events ++ event ∷ [] }) × (occupied e < e.event_capacity)
unfolding try_send
try_send-events event e after sent = (ground arith, ground arith)

module _ (read_error : Value → Option RpcError) where
  -- A frame that is handled hands out the event it is, or answers a request.
  pub handle-cases :
      (frame : Value) (e after : Endpoint)
      → handle read_error frame e ≡ ok after
      → ((method : Value) × (event : BackendEvent) × (event_of frame method e.sequence ≡ ok event)
          × (try_send event e ≡ ok after))
        ⊎ ((id : ℕ) × (reply : Result BackendError Snapshot) × (reply_of read_error frame e.sequence
              ≡ ok reply)
            × (answer id reply e ≡ after))
  unfolding handle
  handle-cases frame e after done = elim (Option-cases (get "method" frame)) [
    | inr (method, called) ↦
        let (event, built, sent) =
          >>=-ok_inversion (event_of frame method e.sequence) _ (rw (handle, called) at done) in
        inl (method, event, built, sent)
    | inl uncalled ↦
        let (id, _, later) =
          >>=-ok_inversion
            (or_fail (and_then (get "id" frame) as_u64)
              (protocol "response has no matching numeric request ID"))
            _ (rw (handle, uncalled) at done) in
        let (reply, built, last) =
          >>=-ok_inversion (reply_of read_error frame e.sequence) _ later in
        inr (id, reply, built, ok_injective last)
  ]

  pub dispatch-cases :
      (frame : Value) (e : Endpoint)
      → ((dispatch read_error frame e).0 ≡ e)
        ⊎ ((dispatch read_error frame e).0 ≡ counted e)
        ⊎ (handle read_error frame (counted e) ≡ ok ((dispatch read_error frame e).0))
  unfolding dispatch
  dispatch-cases frame e = elim (Bool-cases (is_object frame)) [
    | inr other ↦ inl (rw (dispatch, other))
    | inl whole ↦ elim (Bool-cases (ltb (e.sequence + 1) (2 ^ 64))) [
      | inr spent ↦ inl (rw (dispatch, whole, spent))
      | inl left ↦ elim (Result-cases (handle read_error frame (counted e))) [
        | inr (failure, refused) ↦ inr (inl (rw (dispatch, whole, left, refused)))
        | inl (after, done) ↦ inr (inr (rw (dispatch, whole, left, done)))
      ]
    ]
  ]
