-- ===== src/Server/Delivery/Routing.antt =====
-- An event reaches the queue of the session that owns it, and no other.
use codex_acp_v.Server.Ownership.{owner_for_thread, Outcome}
use codex_acp_v.Server.Ownership.Sound.{IsCacheSound, DescendsFrom, owner_for_thread-IsAnswered}
use codex_acp_v.Backend.{BackendError, BackendEvent}
use codex_acp_v.Server.Delivery.Steps.{queued_events}
use codex_acp_v.Server.Delivery.Orderly.{enqueue-eq-ok, queued_events-append}
use codex_acp_v.Server.{SessionEvent, SessionEvents, State, backend}
use codex_acp_v.Json.{Value}
use codex_acp_v.Server.Delivery.{
  with_events, queue_for, queued, route_session_event, owner_of_event, owner_of_params, enqueue,
  event_params, thread_of,
}
use codex_acp_v.Common.{
  ℕ, String, Result, Bool, ◌≡◌, ◌++◌, ok, ◌∷◌, [], Result-cases, some, true, arith, inr, lookup,
  ◌≢◌, inl, ap, Option-cases, refl, none, subst,
}

-- What the queueing of an event for a session leaves, against the state before it.
pub record QueuesOne (session : ℕ) (event : SessionEvent) (before after : State) : Type 0 where
  pub appended :
      queued_events ((after.store session).events).pending
      ≡ queued_events ((before.store session).events).pending ++ event ∷ []
  pub running : ((after.store session).events).running ≡ true
  pub content : (address : ℕ) → (after.store address).content ≡ (before.store address).content
  pub elsewhere : (address : ℕ) → address ≢ session → after.store address ≡ before.store address
  pub sessions : after.sessions ≡ before.sessions

with_events-QueuesOne :
    (session : ℕ) (event : SessionEvent) (bytes : ℕ) (events : SessionEvents) (s : State)
    → events.pending ≡ ((s.store session).events).pending ++ (event, bytes) ∷ []
    → events.running ≡ true
    → QueuesOne session event s (with_events session events s)
unfolding with_events
with_events-QueuesOne session event bytes events s e r = record {
  appended = ground (
    arith,
    ap queued_events e,
    queued_events-append ((s.store session).events).pending ((event, bytes) ∷ []),
  );
  running = ground arith;
  content = λ address. ground arith;
  elsewhere = λ address h. ground arith;
  sessions = refl;
}

module _ (size : Value → ℕ) (max_frame_bytes : ℕ) where
  queue_for-QueuesOne :
      (session : ℕ) (event : SessionEvent) (s s' : State) (spawns : Bool)
      → queue_for size max_frame_bytes session event s ≡ (ok (queued spawns), s')
      → QueuesOne session event s s'
  unfolding queue_for
  queue_for-QueuesOne session event s s' spawns h =
      elim (Result-cases (enqueue size max_frame_bytes (s.store session).events event)) [
        | inr (e, e') ↦ absurd (ground arith)
        | inl ((events, b), e') ↦
            let facts =
              enqueue-eq-ok size max_frame_bytes (s.store session).events event events b e' in
            let final : s' ≡ with_events session events s = ground arith in
            rw final (with_events-QueuesOne session event _ events s facts.0 facts.2)
      ]

module _ (size : Value → ℕ) (max_frame_bytes : ℕ) (read : String → Result BackendError Value)
    (others : ℕ → State → State) where
  -- The state in which the session is looked up, and that in which its queue is locked.
  abbrev pub locked_sessions : Outcome × State → State
  locked_sessions looked = others 97 looked.1

  abbrev pub locked_queue : Outcome × State → State
  locked_queue looked = others 96 (locked_sessions looked)

  route-QueuesOne :
      (event : BackendEvent) (s s' : State) (spawns : Bool)
      → route_session_event size max_frame_bytes read others event s ≡ (ok (queued spawns), s')
      → (id : String) × (session : ℕ) × ((owner_of_event read others event s).0 ≡ ok (some id))
        × (lookup (locked_sessions (owner_of_event read others event s)).sessions id ≡ some session)
        × QueuesOne session (backend event) (locked_queue (owner_of_event read others event s)) s'
  unfolding route_session_event
  route-QueuesOne event s s' spawns h =
      let looked = owner_of_event read others event s in
      elim (Result-cases looked.0) [
        | inr (e, e') ↦ absurd (ground arith)
        | inl (none, e') ↦ absurd (ground arith)
        | inl (some id, e') ↦ elim (Option-cases (lookup (locked_sessions looked).sessions id)) [
          | inl e'' ↦ absurd (ground arith)
          | inr (session, e'') ↦ (
            id,
            session,
            e',
            e'',
            queue_for-QueuesOne size max_frame_bytes session (backend event) _ s' spawns
                (ground arith),
          )
        ]
      ]

  -- Whatever other tasks do at each wait, as long as they keep the ownership cache sound: if an event
  -- that names a thread is queued, then in the queue of a session that is the thread itself or an
  -- ancestor of it by the backend's replies, and that was registered under its id when it was looked
  -- up, though it may be closed since. There the event comes last, and a task runs. The contents of
  -- all sessions, the queues of the others and the map of sessions are as they were when the queue
  -- was locked.
  pub route_session_event-QueuesOne :
      (event : BackendEvent) (params : Value) (thread : String) (s s' : State) (spawns : Bool)
      → ((n : ℕ) (s : State) → IsCacheSound read s → IsCacheSound read (others n s))
      → IsCacheSound read s
      → event_params event ≡ some params
      → thread_of params ≡ some thread
      → route_session_event size max_frame_bytes read others event s ≡ (ok (queued spawns), s')
      → (root : String) × (session : ℕ) × DescendsFrom read root thread
        × (lookup (locked_sessions (owner_for_thread read others thread s)).sessions root
            ≡ some session)
        × QueuesOne session
            (backend event)
            (locked_queue (owner_for_thread read others thread s))
            s'
  unfolding owner_of_event owner_of_params
  route_session_event-QueuesOne event params thread s s' spawns keeps sound e e' h =
      let (id, session, owner, found, one) = route-QueuesOne event s s' spawns h in
      let same : owner_of_event read others event s ≡ owner_for_thread read others thread s =
        ground arith in
      let answered = owner_for_thread-IsAnswered read others keeps thread s sound in
      (
        id,
        session,
        (answered.1 id (ground arith)).0,
        subst (λ p. lookup (locked_sessions p).sessions id ≡ some session) same found,
        subst (λ p. QueuesOne session (backend event) (locked_queue p) s') same one,
      )
