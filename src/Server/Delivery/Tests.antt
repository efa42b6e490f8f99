-- ===== src/Server/Delivery/Tests.antt =====
-- Tests of delivery, and its theorems at concrete inputs.
use codex_acp_v.Server.Delivery.Drained.{Runs-IsDrained, IsDrained, Runs, goes_on, begun}
use codex_acp_v.Server.Delivery.Routing.{QueuesOne, route_session_event-QueuesOne}
use codex_acp_v.Server.Ownership.{
  owner_for_thread, climb, remember, candidate, root_of, retain_owned, insert_all, parent_of,
}
use codex_acp_v.Server.Ownership.Sound.{DescendsFrom}
use codex_acp_v.Server.Delivery.Steps.{
  take, Queue, IsOrderly, idle_queue, Reach, next, here, accept,
}
use codex_acp_v.Server.Delivery.Orderly.{Reach-IsOrderly}
use codex_acp_v.Server.{State, SessionEvents, new_state, backend}
use codex_acp_v.Server.Delivery.{
  event_params, route_session_event, enqueue, owner_of_event, thread_of, DeliveryError, event_bytes,
  pop_event, owner_of_params, Routed, buffer_exceeded, queue_for, queued,
}
use codex_acp_v.Backend.{BackendEvent, notification, BackendError, timeout}
use codex_acp_v.Json.{Value, obj, string}
use codex_acp_v.Common.{
  ℕ, String, Result, if◌then◌else◌, none, ◌∷◌, arith, ◌≡◌, lookup, ok, ◌==◌, [], true, some, false,
  err, refl, insert, contains,
}

-- A frame of four bytes for every value.
abbrev four : Value → ℕ
four v = 4

abbrev started : BackendEvent
started = notification 1 "item/started" (obj (("threadId", string "child") ∷ []))

abbrev once : SessionEvents
once = record { pending = (backend started, 4) ∷ []; bytes = 4; running = true }

enqueue_tests :
    (enqueue four 8 idle_queue.events (backend started) ≡ ok (once, true))
    × (enqueue four 8 once (backend started)
        ≡ ok (
          record {
            pending = (backend started, 4) ∷ (backend started, 4) ∷ [];
            bytes = 8;
            running = true;
          },
          false,
        ))
    × (enqueue four 1 once (backend started) ≡ err buffer_exceeded)
    × (pop_event once
        ≡ (some (backend started), record { pending = []; bytes = 0; running = true }))
unfolding enqueue event_bytes pop_event
enqueue_tests = (refl, refl, refl, refl)

abbrev waiting : Queue
waiting = record idle_queue { events = once; tasks = none ∷ []; accepted = backend started ∷ [] }

reaches : Reach four 8 idle_queue waiting
unfolding enqueue event_bytes
reaches = next here (accept (backend started) once true refl refl)

Reach-IsOrderly_example : IsOrderly four 8 waiting
Reach-IsOrderly_example = Reach-IsOrderly four 8 (omega arith) reaches

-- The task takes its only event.
abbrev taken : Queue
taken = record waiting {
  events = record { pending = []; bytes = 0; running = true };
  tasks = some (backend started) ∷ [];
}

takes : Runs four 8 waiting 1 taken
unfolding pop_event
takes = goes_on begun (take [] [] (backend started) taken.events refl refl refl) refl

Runs-IsDrained_example : IsDrained four 8 waiting 1 taken
Runs-IsDrained_example = Runs-IsDrained four 8 waiting taken 1 none refl takes

abbrev opened : State
opened = record new_state { sessions = ("root", 7) ∷ [] }

-- Thread "child" is a child of "root", and no other is known.
abbrev family : String → Result BackendError Value
family id =
    if id == "child"
    then ok (
        obj
          (("thread", obj (("id", string "child") ∷ ("parentThreadId", string "root") ∷ [])) ∷ []))
    else err timeout

abbrev calm : ℕ → State → State
calm n s = s

abbrev routed : Result DeliveryError Routed × State
routed = route_session_event four 8 family calm started opened

routed_queued : routed.0 ≡ ok (queued true)
unfolding route_session_event owner_of_event owner_of_params thread_of event_params owner_for_thread
    climb remember candidate root_of retain_owned insert_all parent_of lookup insert contains
    queue_for enqueue event_bytes
routed_queued = refl

route_session_event-QueuesOne_example :
    (root : String) × (session : ℕ) × DescendsFrom family root "child"
    × (lookup (owner_for_thread family calm "child" opened).1.sessions root ≡ some session)
    × QueuesOne session (backend started) (owner_for_thread family calm "child" opened).1 routed.1
unfolding event_params thread_of lookup
route_session_event-QueuesOne_example =
    route_session_event-QueuesOne four 8 family calm started
      (obj (("threadId", string "child") ∷ [])) "child" opened routed.1 true (λ n s h. h)
      (record { earned = tt; bounded = omega arith }) refl refl (ground (arith, routed_queued))
