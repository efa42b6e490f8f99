-- ===== src/Backend/Frames/Ordered.antt =====
-- src/backend/mod.rs and src/backend/transport.rs: the positions of events and replies.
use codex_acp_v.Backend.Frames.Branches.{counted}
use codex_acp_v.Backend.Requests.{Endpoint, valid_id}
use codex_acp_v.Json.{Value, as_str, get}
use codex_acp_v.Backend.{
  BackendEvent, BackendError, notification, Snapshot, server_request, RpcError, disconnect,
}
use codex_acp_v.Backend.Frames.{disconnect_all, event_of, reply_of, occupied}
use codex_acp_v.Common.{
  ℕ, Result, List, All, ◌≤◌, String, ◌++◌, ◌∷◌, err, ◌≡◌, ◌+◌, ok, ◌<◌, arith, Option, [], refl,
  ◌⊎◌, sym, append_assoc, >>=-ok_inversion, inr, or_fail, Option-cases, inl, subst, All-implied,
  ok_injective, ensure, ap, length-append, ◌∙◌, All-append, append-nil,
}

unfoldable pub stamp_of : BackendEvent → List ℕ
stamp_of (notification sequence method params) = sequence ∷ []
stamp_of (server_request id method params) = []
stamp_of (disconnect message) = []

unfoldable pub stamps : List BackendEvent → List ℕ
stamps [] = []
stamps (event ∷ rest) = stamp_of event ++ stamps rest

unfoldable pub reply_stamp : Result BackendError Snapshot → List ℕ
reply_stamp (ok snapshot) = snapshot.sequence ∷ []
reply_stamp (err failure) = []

unfoldable pub reply_stamps : List (ℕ × Result BackendError Snapshot) → List ℕ
reply_stamps [] = []
reply_stamps ((id, reply) ∷ rest) = reply_stamp reply ++ reply_stamps rest

-- Each position is above the one before, and the first above `low`.
unfoldable pub Rises : ℕ → List ℕ → Type 0
Rises low [] = Unit
Rises low (n ∷ ns) = (low < n) × Rises n ns

-- Each position is below the one before, and the first below `top`.
unfoldable pub Falls : ℕ → List ℕ → Type 0
Falls top [] = Unit
Falls top (n ∷ ns) = (n < top) × Falls n ns

-- The notifications, taken or waiting, and the snapshots are in the order of their frames, and the
-- channel of events holds at most its capacity, with the place of the terminal event.
unfoldable pub IsOrdered : List BackendEvent → Endpoint → Type 0
IsOrdered taken e =
    Rises 0 (stamps (taken ++ e.events))
    × All (λ n. n ≤ e.sequence) (stamps (taken ++ e.events))
    × Falls (e.sequence + 1) (reply_stamps e.replies)
    × (occupied e ≤ e.event_capacity)

stamps-append : (xs ys : List BackendEvent) → stamps (xs ++ ys) ≡ stamps xs ++ stamps ys
unfolding stamps
stamps-append [] ys = refl
stamps-append (x ∷ xs) ys =
    rw (stamps-append xs ys) (sym (append_assoc (stamp_of x) (stamps xs) (stamps ys)))

Rises-append :
    (low n : ℕ) (ns : List ℕ)
    → Rises low ns
    → All (λ m. m < n) ns
    → low < n
    → Rises low (ns ++ n ∷ [])
unfolding Rises
Rises-append low n [] h below first = (first, tt)
Rises-append low n (m ∷ ns) h below first = (h.0, Rises-append m n ns h.1 below.1 below.0)

Falls-le : (top higher : ℕ) (ns : List ℕ) → top ≤ higher → Falls top ns → Falls higher ns
unfolding Falls
Falls-le top higher [] le h = tt
Falls-le top higher (n ∷ ns) le h = (ground arith, h.1)

pub event_of-stamp :
    (frame method : Value) (n : ℕ) (event : BackendEvent)
    → event_of frame method n ≡ ok event
    → (stamp_of event ≡ n ∷ []) ⊎ (stamp_of event ≡ [])
unfolding event_of stamp_of
event_of-stamp frame method n event h =
    let (name, _, rest) = >>=-ok_inversion (or_fail (as_str method) _) _ h in
    elim (Option-cases (get "id" frame)) [
      | inl absent ↦ inl (subst (λ v. stamp_of v ≡ n ∷ []) (ok_injective (rw absent at rest)) refl)
      | inr (id, given) ↦
          let (_, _, built) = >>=-ok_inversion (ensure (valid_id id) _) _ (rw given at rest) in
          inr (subst (λ v. stamp_of v ≡ []) (ok_injective built) refl)
    ]

pub reply_of-stamp :
    (read_error : Value → Option RpcError) (frame : Value) (n : ℕ)
    (reply : Result BackendError Snapshot)
    → reply_of read_error frame n ≡ ok reply
    → (reply_stamp reply ≡ n ∷ []) ⊎ (reply_stamp reply ≡ [])
unfolding reply_of reply_stamp
reply_of-stamp read_error frame n (err failure) h = inr refl
reply_of-stamp read_error frame n (ok snapshot) h =
    let same : snapshot.sequence ≡ n = ground arith in inl (rw same)

pub reply_stamps-disconnect_all :
    (reason : String) (ids : List ℕ) (replies : List (ℕ × Result BackendError Snapshot))
    → reply_stamps (disconnect_all reason ids ++ replies) ≡ reply_stamps replies
unfolding reply_stamps disconnect_all reply_stamp
reply_stamps-disconnect_all reason [] replies = refl
reply_stamps-disconnect_all reason (id ∷ ids) replies =
    reply_stamps-disconnect_all reason ids replies

pub stamps-last :
    (taken events : List BackendEvent) (event : BackendEvent)
    → stamps (taken ++ (events ++ event ∷ [])) ≡ stamps (taken ++ events) ++ stamp_of event
unfolding stamps
stamps-last taken events event =
    ap stamps (sym (append_assoc taken events (event ∷ [])))
    ∙ stamps-append (taken ++ events) (event ∷ [])
    ∙ ap (λ s. stamps (taken ++ events) ++ s) (append-nil (stamp_of event))

module _ (taken : List BackendEvent) where
  -- What comes with the position of the frame that was counted, or with none.
  pub queued-IsOrdered :
      (e : Endpoint) (event : BackendEvent)
      → IsOrdered taken e
      → occupied e < e.event_capacity
      → (stamp_of event ≡ (e.sequence + 1) ∷ []) ⊎ (stamp_of event ≡ [])
      → IsOrdered taken (record e { sequence = e.sequence + 1; events = e.events ++ event ∷ [] })
  unfolding IsOrdered stamps
  queued-IsOrdered e event h room stamp =
      let old = stamps (taken ++ e.events) in
      let below = All-implied {Q = λ n. n < e.sequence + 1} old (λ n le. ground arith) h.1 in
      let within = All-implied {Q = λ n. n ≤ e.sequence + 1} old (λ n le. ground arith) h.1 in
      let replies =
        Falls-le (e.sequence + 1) (e.sequence + 1 + 1) (reply_stamps e.replies) (ground arith)
          h.2 in
      let fits = length-append e.events (event ∷ []) in
      rw (stamps-last taken e.events event) (elim stamp [
        | inl new ↦ rw new (
          Rises-append 0 (e.sequence + 1) old h.0 below (ground arith),
          All-append (λ n. n ≤ e.sequence + 1) old _ within (ground arith, tt),
          replies,
          omega (arith, fits, room),
        )
        | inr unstamped ↦
            rw (unstamped, append-nil old) (h.0, within, replies, omega (arith, fits, room))
      ])

  pub replied-IsOrdered :
      (e : Endpoint) (id : ℕ) (ids : List ℕ) (reply : Result BackendError Snapshot)
      → IsOrdered taken e
      → (reply_stamp reply ≡ (e.sequence + 1) ∷ []) ⊎ (reply_stamp reply ≡ [])
      → IsOrdered taken
          (record e { sequence = e.sequence + 1; pending = ids; replies = (id, reply) ∷ e.replies })
  unfolding IsOrdered reply_stamps Falls
  replied-IsOrdered e id ids reply h stamp =
      let within =
        All-implied {Q = λ n. n ≤ e.sequence + 1} (stamps (taken ++ e.events))
          (λ n le. ground arith) h.1 in
      elim stamp [
        | inl new ↦ rw new (h.0, within, (ground arith, h.2), h.3)
        | inr unstamped ↦ rw unstamped (
          h.0,
          within,
          Falls-le (e.sequence + 1) (e.sequence + 1 + 1) (reply_stamps e.replies) (ground arith)
              h.2,
          h.3,
        )
      ]

  pub counted-IsOrdered : (e : Endpoint) → IsOrdered taken e → IsOrdered taken (counted e)
  unfolding IsOrdered
  counted-IsOrdered e h = (
    h.0,
    All-implied (stamps (taken ++ e.events)) (λ n below. ground arith) h.1,
    Falls-le (e.sequence + 1) (e.sequence + 1 + 1) (reply_stamps e.replies) (ground arith) h.2,
    h.3,
  )
