-- ===== src/Backend/Requests/Released.antt =====
-- src/backend/mod.rs: a request leaves no slot behind.
use codex_acp_v.Backend.Requests.Correlation.{
  has_id-remove_id, IsCorrelated, has_id-above, used_ids, has_id-append, replied,
}
use codex_acp_v.Backend.{BackendError, Snapshot}
use codex_acp_v.Json.{Value, obj, nat, string}
use codex_acp_v.Backend.Requests.{
  open_slot, drop_guard, Waited, Endpoint, has_id, request_snapshot, slot_failure, send,
}
use codex_acp_v.Common.{
  ℕ, ◌≡◌, Result, false, ok, Option-cases, arith, inl, sym, String, ok_injective, inr, Result-cases,
  err, ◌∷◌, [],
}

drop_guard-released : (id : ℕ) (e : Endpoint) → has_id (drop_guard id e).pending id ≡ false
unfolding drop_guard
drop_guard-released id e = rw (has_id-remove_id e.pending id id) (ground arith)

open_slot-id : (e : Endpoint) (id : ℕ) → (open_slot e).1 ≡ ok id → id ≡ e.next_id
unfolding open_slot
open_slot-id e id h = elim (Option-cases (slot_failure e)) [
  | inl free ↦ sym (ok_injective (rw (open_slot, free) at h))
  | inr (failure, refused) ↦ absurd (ground arith)
]

refused-pending :
    (e : Endpoint) (failure : BackendError)
    → (open_slot e).1 ≡ err failure
    → (open_slot e).0.pending ≡ e.pending
unfolding open_slot
refused-pending e failure h = elim (Option-cases (slot_failure e)) [
  | inl free ↦ absurd (ground arith)
  | inr (reason, refused) ↦ rw (open_slot, refused)
]

module _ (size : Value → ℕ) (writer : Waited (Unit {0}))
    (others : Endpoint → Endpoint × Waited (Result BackendError Snapshot)) where
  -- On an endpoint whose ids are fresh and distinct: however a request ends (refused, not handed
  -- over, answered, timed out or abandoned by the reader) and whatever the other tasks do while it
  -- waits, the id it took has no slot afterwards.
  pub request_snapshot-released :
      (method : String) (params : Value) (e : Endpoint)
      → IsCorrelated e
      → has_id (request_snapshot size writer others method params e).0.pending e.next_id ≡ false
  unfolding request_snapshot IsCorrelated has_id open_slot slot_failure
  request_snapshot-released method params e h = elim (Result-cases ((open_slot e).1)) [
    | inr (failure, refused) ↦
        let fresh = has_id-above (used_ids e) e.next_id h.1 in
        let split = has_id-append e.pending (replied e.replies) e.next_id in
        rw (request_snapshot, refused, refused-pending e failure refused) (ground arith)
    | inl (id, opened) ↦
        let frame = obj (("id", nat id) ∷ ("method", string method) ∷ ("params", params) ∷ []) in
        rw (← (open_slot-id e id opened), request_snapshot, opened)
          (elim (Result-cases ((send size writer frame (open_slot e).0).1)) [
            | inr (failure, lost) ↦ rw lost (drop_guard-released id _)
            | inl (_, sent) ↦ rw sent (drop_guard-released id _)
          ])
  ]
