-- ===== src/Server/Delivery/Orderly.antt =====
-- src/server/dispatch.rs: the queue of a session through every interleaving of its steps.
use codex_acp_v.Server.Delivery.Steps.{
  Queue, idle_queue, held, queued_events, total, Step, Reach, here, next, OneTask, one, no_task,
  stalled, IsOrderly, accept, take, stop, finish, fail,
}
use codex_acp_v.Server.Delivery.{enqueue, saturate, pop_event, event_bytes}
use codex_acp_v.Server.{SessionEvents, SessionEvent}
use codex_acp_v.Json.{Value}
use codex_acp_v.Common.{
  ℕ, [], List, ◌≡◌, false, Option, ◌∷◌, length, Bool, ◌++◌, ap, true, ◌≤◌, none, ◌+◌, some, ok,
  refl, arith, ◌*◌, if◌then◌else◌, ◌≢◌, not, ◌<◌, ◌^◌, ◌-◌, length-append, append_assoc, ◌∙◌, sym,
}

pub queued_events-append :
    (xs ys : List (SessionEvent × ℕ))
    → queued_events (xs ++ ys) ≡ queued_events xs ++ queued_events ys
queued_events-append [] ys = refl
queued_events-append ((event, bytes) ∷ rest) ys = ap (◌∷◌ event) (queued_events-append rest ys)

total-append : (xs ys : List (SessionEvent × ℕ)) → total (xs ++ ys) ≡ total xs + total ys
total-append [] ys = omega arith
total-append ((event, bytes) ∷ rest) ys = omega (arith, total-append rest ys)

pub nil-ne-split {ℓ} :
    {A : Type ℓ} (before after : List A) (x : A) → ◌≢◌ {A = List A} [] (before ++ x ∷ after)
nil-ne-split [] after x e = cc e
nil-ne-split (y ∷ before) after x e = cc e

pub single-eq-split {ℓ} :
    {A : Type ℓ} (task x : A) (before after : List A)
    → ◌≡◌ {A = List A} (task ∷ []) (before ++ x ∷ after)
    → (before ≡ []) × (after ≡ []) × (task ≡ x)
single-eq-split task x [] after e = (refl, cc, cc)
single-eq-split task x (y ∷ before) after e = absurd (nil-ne-split before after x (cc e))

module _ (size : Value → ℕ) (max_frame_bytes : ℕ) where
  pub enqueue-eq-ok :
      (q : SessionEvents) (event : SessionEvent) (events : SessionEvents) (spawns : Bool)
      → enqueue size max_frame_bytes q event ≡ ok (events, spawns)
      → (events.pending ≡ q.pending ++ (event, event_bytes size event) ∷ [])
        × (events.bytes ≡ q.bytes + event_bytes size event)
        × (events.running ≡ true)
        × (spawns ≡ not q.running)
        × (length q.pending < 256)
        × (saturate (q.bytes + event_bytes size event) ≤ saturate (max_frame_bytes * 4))
  unfolding enqueue
  enqueue-eq-ok q event events spawns h = ground arith

  below_limit :
      (n : ℕ)
      → max_frame_bytes * 4 + 1 < 2 ^ 64
      → saturate n ≤ saturate (max_frame_bytes * 4)
      → n ≤ max_frame_bytes * 4
  below_limit n fits h = ground arith

  accept-OneTask :
      (q : Queue) (event : SessionEvent) (events : SessionEvents) (spawns : Bool)
      → events.running ≡ true
      → spawns ≡ not q.events.running
      → OneTask size max_frame_bytes q
      → OneTask size max_frame_bytes (record q {
        events = events;
        tasks = if spawns then none ∷ q.tasks else q.tasks;
        accepted = q.accepted ++ event ∷ [];
      })
  accept-OneTask q event events spawns r s (one task t running failed lost) =
      one task (ground arith) r failed lost
  accept-OneTask q event events spawns r s (no_task t running empty failed lost) =
      one none (ground arith) r failed lost
  accept-OneTask q event events spawns r s (stalled e t running failed lost) =
      stalled e (ground arith) r failed lost

  held-accept :
      (spawns : Bool) (tasks : List (Option SessionEvent))
      → held (if spawns then none ∷ tasks else tasks) ≡ held tasks
  held-accept true tasks = refl
  held-accept false tasks = refl

  accept-IsOrderly :
      (q : Queue) (event : SessionEvent) (events : SessionEvents) (spawns : Bool)
      → max_frame_bytes * 4 + 1 < 2 ^ 64
      → enqueue size max_frame_bytes q.events event ≡ ok (events, spawns)
      → IsOrderly size max_frame_bytes q
      → IsOrderly size max_frame_bytes (record q {
        events = events;
        tasks = if spawns then none ∷ q.tasks else q.tasks;
        accepted = q.accepted ++ event ∷ [];
      })
  accept-IsOrderly q event events spawns fits e v =
      let (at_pending, at_bytes, running, flag, few, small) =
        enqueue-eq-ok q.events event events spawns e in
      let entry : List (SessionEvent × ℕ) = (event, event_bytes size event) ∷ [] in
      record {
        accounted = omega (
          arith,
          ap total at_pending,
          total-append q.events.pending entry,
          at_bytes,
          v.accounted,
        );
        few = omega (arith, ap length at_pending, length-append q.events.pending entry, few);
        small =
            omega
              (arith, at_bytes, below_limit (q.events.bytes + event_bytes size event) fits small);
        workers = accept-OneTask q event events spawns running flag v.workers;
        in_order =
            rw
              (
                v.in_order,
                at_pending,
                held-accept spawns q.tasks,
                queued_events-append q.events.pending entry,
              )
              (simp append_assoc);
      }

  pub pop_event-eq :
      (q : SessionEvents) (pending : List (SessionEvent × ℕ)) (event : SessionEvent)
      (events : SessionEvents)
      → q.pending ≡ pending
      → pop_event q ≡ (some event, events)
      → (bytes : ℕ) × (q.pending ≡ (event, bytes) ∷ events.pending)
        × (events.bytes ≡ q.bytes - bytes)
        × (events.running ≡ q.running)
  unfolding pop_event
  pop_event-eq q [] event events h e = absurd (ground arith)
  pop_event-eq q ((event', bytes) ∷ rest) event events h e =
      (bytes, ground arith, ground arith, ground arith)

  pub pop_event-none :
      (q : SessionEvents) (pending : List (SessionEvent × ℕ)) (events : SessionEvents)
      → q.pending ≡ pending
      → pop_event q ≡ (none, events)
      → (q.pending ≡ [])
        × (events.pending ≡ [])
        × (events.bytes ≡ q.bytes)
        × (events.running ≡ false)
  unfolding pop_event
  pop_event-none q [] events h e = (h, ground arith, ground arith, ground arith)
  pop_event-none q ((event', bytes) ∷ rest) events h e = absurd (ground arith)

  -- The one task of an orderly queue, where some task is known.
  the_task :
      (q : Queue) (before after : List (Option SessionEvent)) (task : Option SessionEvent)
      → OneTask size max_frame_bytes q
      → q.tasks ≡ before ++ task ∷ after
      → (before ≡ [])
        × (after ≡ [])
        × (q.tasks ≡ task ∷ [])
        × (q.events.running ≡ true)
        × (q.failed ≡ false)
        × (q.lost ≡ [])
  the_task q before after task (one t e running failed lost) h =
      let (at_before, at_after, same) = single-eq-split t task before after (sym e ∙ h) in
      (at_before, at_after, rw (← same) e, running, failed, lost)
  the_task q before after task (no_task e running empty failed lost) h =
      absurd (nil-ne-split before after task (sym e ∙ h))
  the_task q before after task (stalled event e running failed lost) h =
      absurd (nil-ne-split before after task (sym e ∙ h))

  take-IsOrderly :
      (q : Queue) (before after : List (Option SessionEvent)) (event : SessionEvent)
      (events : SessionEvents)
      → q.tasks ≡ before ++ none ∷ after
      → pop_event q.events ≡ (some event, events)
      → IsOrderly size max_frame_bytes q
      → IsOrderly size max_frame_bytes
          (record q { events = events; tasks = before ++ some event ∷ after })
  take-IsOrderly q before after event events e e' v =
      let (at_before, at_after, at_tasks, running, failed, lost) =
        the_task q before after none v.workers e in
      let (bytes, at_pending, at_bytes, same) =
        pop_event-eq q.events q.events.pending event events refl e' in
      rw (at_before, at_after)
        (record {
          accounted = omega (arith, ap total at_pending, at_bytes, v.accounted);
          few = omega (arith, ap length at_pending, v.few);
          small = omega (arith, at_bytes, v.small);
          workers = one (some event) refl (same ∙ running) failed lost;
          in_order = rw (v.in_order, at_tasks, at_pending) refl;
        })

  stop-IsOrderly :
      (q : Queue) (before after : List (Option SessionEvent)) (events : SessionEvents)
      → q.tasks ≡ before ++ none ∷ after
      → pop_event q.events ≡ (none, events)
      → IsOrderly size max_frame_bytes q
      → IsOrderly size max_frame_bytes (record q { events = events; tasks = before ++ after })
  stop-IsOrderly q before after events e e' v =
      let (at_before, at_after, at_tasks, running, failed, lost) =
        the_task q before after none v.workers e in
      let (empty, at_pending, at_bytes, stopped) =
        pop_event-none q.events q.events.pending events refl e' in
      rw (at_before, at_after)
        (record {
          accounted = omega (arith, ap total at_pending, ap total empty, at_bytes, v.accounted);
          few = omega (arith, ap length at_pending);
          small = omega (arith, at_bytes, v.small);
          workers = no_task refl stopped at_pending failed lost;
          in_order = rw (v.in_order, at_tasks, at_pending, empty) refl;
        })

  finish-IsOrderly :
      (q : Queue) (before after : List (Option SessionEvent)) (event : SessionEvent)
      → q.tasks ≡ before ++ some event ∷ after
      → IsOrderly size max_frame_bytes q
      → IsOrderly size max_frame_bytes
          (record q { tasks = before ++ none ∷ after; delivered = q.delivered ++ event ∷ [] })
  finish-IsOrderly q before after event e v =
      let (at_before, at_after, at_tasks, running, failed, lost) =
        the_task q before after (some event) v.workers e in
      rw (at_before, at_after)
        (record {
          accounted = v.accounted;
          few = v.few;
          small = v.small;
          workers = one none refl running failed lost;
          in_order = rw (v.in_order, at_tasks, lost) (simp append_assoc);
        })

  fail-IsOrderly :
      (q : Queue) (before after : List (Option SessionEvent)) (event : SessionEvent)
      → q.tasks ≡ before ++ some event ∷ after
      → IsOrderly size max_frame_bytes q
      → IsOrderly size max_frame_bytes
          (record q { tasks = before ++ after; lost = q.lost ++ event ∷ []; failed = true })
  fail-IsOrderly q before after event e v =
      let (at_before, at_after, at_tasks, running, failed, lost) =
        the_task q before after (some event) v.workers e in
      rw (at_before, at_after)
        (record {
          accounted = v.accounted;
          few = v.few;
          small = v.small;
          workers = stalled event refl running refl (rw lost refl);
          in_order = rw (v.in_order, at_tasks, lost) (simp append_assoc);
        })

  Step-IsOrderly :
      {q u : Queue}
      → max_frame_bytes * 4 + 1 < 2 ^ 64
      → Step size max_frame_bytes q u
      → IsOrderly size max_frame_bytes q
      → IsOrderly size max_frame_bytes u
  Step-IsOrderly {q} fits (accept event events spawns e h) v =
      rw h (accept-IsOrderly q event events spawns fits e v)
  Step-IsOrderly {q} fits (take before after event events e e' h) v =
      rw h (take-IsOrderly q before after event events e e' v)
  Step-IsOrderly {q} fits (stop before after events e e' h) v =
      rw h (stop-IsOrderly q before after events e e' v)
  Step-IsOrderly {q} fits (finish before after event e h) v =
      rw h (finish-IsOrderly q before after event e v)
  Step-IsOrderly {q} fits (fail before after event e h) v =
      rw h (fail-IsOrderly q before after event e v)

  idle_queue-IsOrderly : IsOrderly size max_frame_bytes idle_queue
  idle_queue-IsOrderly = record {
    accounted = omega arith;
    few = omega arith;
    small = omega arith;
    workers = no_task refl refl refl refl refl;
    in_order = refl;
  }

  -- If four frames and one byte fit in 64 bits: in every interleaving of the pump with the tasks, from
  -- an empty queue on, the byte count is the
  -- sum over what is queued, within four frames and 256 events; at most one task runs, and while no
  -- task has failed none is missing where events wait; and the accepted events are those delivered,
  -- then those a failed task lost, those in hand and those queued, in the order of acceptance.
  pub Reach-IsOrderly :
      {u : Queue}
      → max_frame_bytes * 4 + 1 < 2 ^ 64
      → Reach size max_frame_bytes idle_queue u
      → IsOrderly size max_frame_bytes u
  Reach-IsOrderly fits here = idle_queue-IsOrderly
  Reach-IsOrderly fits (next r st) = Step-IsOrderly fits st (Reach-IsOrderly fits r)
