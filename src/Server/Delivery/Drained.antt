-- ===== src/Server/Delivery/Drained.antt =====
-- src/server/dispatch.rs: the runs of the task that empties a queue.
use codex_acp_v.Server.Delivery.Orderly.{
  nil-ne-split, single-eq-split, pop_event-eq, pop_event-none,
}
use codex_acp_v.Server.Delivery.{pop_event}
use codex_acp_v.Server.{SessionEvent}
use codex_acp_v.Json.{Value}
use codex_acp_v.Server.Delivery.Steps.{
  Queue, Step, accept, take, stop, finish, fail, held, queued_events,
}
use codex_acp_v.Common.{
  ℕ, List, ◌≡◌, ◌*◌, ◌⊎◌, Bool, Option, true, ◌<◌, length, [], suc, ◌∷◌, false, ◌+◌, ◌++◌, inr, inl,
  arith, some, none, sym, ◌-◌, ◌∙◌, append-nil, refl, append_assoc, ◌≤◌,
}

-- The steps that a task has still to make: two for each event that waits, and one to end.
abbrev pub task_left : List (Option SessionEvent) → ℕ
task_left [] = 0
task_left (none ∷ rest) = 1
task_left (some event ∷ rest) = 2

abbrev pub left : Queue → ℕ
left q = 2 * length q.events.pending + task_left q.tasks

task_left_pos : (task : Option SessionEvent) → 1 ≤ task_left (task ∷ [])
task_left_pos none = omega arith
task_left_pos (some event) = omega arith

-- All that was delivered, is in hand or waits.
abbrev pub content : Queue → List SessionEvent
content q = q.delivered ++ (held q.tasks ++ queued_events q.events.pending)

abbrev pub IsAtRest : Queue → Type 0
IsAtRest q = (q.tasks ≡ []) × (q.events.pending ≡ []) × (q.events.running ≡ false)

abbrev IsServed : Queue → Type 0
IsServed q = IsAtRest q ⊎ ((task : Option SessionEvent) × (q.tasks ≡ task ∷ []))

module _ (size : Value → ℕ) (max_frame_bytes : ℕ) where
  -- The steps of a task whose handlers succeed.
  abbrev pub is_own : {q u : Queue} → Step size max_frame_bytes q u → Bool
  is_own (accept event events spawns e e') = false
  is_own (take before after event events e e' e'') = true
  is_own (stop before after events e e' e'') = true
  is_own (finish before after event e e') = true
  is_own (fail before after event e e') = false

  -- Any number of such steps.
  pub data Runs (q : Queue) : ℕ → Queue → Type 0 where
    begun : Runs q 0 q
    goes_on :
        {n : ℕ} {u w : Queue}
        → Runs q n u
        → (step : Step size max_frame_bytes u w) → is_own step ≡ true
        → Runs q (suc n) w

  only_task :
      (q : Queue) (before after : List (Option SessionEvent)) (task : Option SessionEvent)
      → IsServed q
      → q.tasks ≡ before ++ task ∷ after
      → (before ≡ []) × (after ≡ [])
  only_task q before after task (inl (none_left, empty, stopped)) e =
      absurd (nil-ne-split before after task (sym none_left ∙ e))
  only_task q before after task (inr (held_task, one)) e =
      let (b, a, same) = single-eq-split held_task task before after (sym one ∙ e) in (b, a)

  Served-step :
      (u w : Queue)
      → IsServed u
      → (step : Step size max_frame_bytes u w) → is_own step ≡ true
      → IsServed w × (suc (left w) ≡ left u) × (content w ≡ content u)
  Served-step u w served (accept event events spawns e e') own = absurd (ground arith)
  Served-step u w served (take before after event events e e' e'') own =
      let (b, a) = only_task u before after none served e in
      let (bytes, waits, cost, running) =
        pop_event-eq size max_frame_bytes u.events u.events.pending event events refl e' in
      let alone : u.tasks ≡ none ∷ [] = rw (b, a) at e in
      rw (e'', b, a, alone, waits) (inr (some event, refl), omega arith, refl)
  Served-step u w served (stop before after events e e' e'') own =
      let (b, a) = only_task u before after none served e in
      let alone : u.tasks ≡ none ∷ [] = rw (b, a) at e in
      let (empty, later, bytes, stopped) =
        pop_event-none size max_frame_bytes u.events u.events.pending events refl e' in
      rw (e'', b, a, alone, empty, later) (inl (refl, refl, stopped), omega arith, refl)
  Served-step u w served (finish before after event e e') own =
      let (b, a) = only_task u before after (some event) served e in
      let alone : u.tasks ≡ some event ∷ [] = rw (b, a) at e in
      rw (e', b, a, alone)
        (
          inr (none, refl),
          omega arith,
          append_assoc u.delivered (event ∷ []) (queued_events u.events.pending),
        )
  Served-step u w served (fail before after event e e') own = absurd (ground arith)

  Runs-Served :
      (q w : Queue) (n : ℕ) (task : Option SessionEvent)
      → q.tasks ≡ task ∷ []
      → Runs q n w
      → IsServed w × (n + left w ≡ left q) × (content w ≡ content q)
  Runs-Served q w n task one begun = (inr (task, one), omega arith, refl)
  Runs-Served q w n task one (goes_on {n = m} {u = u} runs step own) =
      let (served, steps, same) = Runs-Served q u m task one runs in
      let (served', fewer, same') = Served-step u w served step own in
      (served', omega (arith, steps, fewer), same' ∙ same)

  -- Another step of the task.
  abbrev pub GoesOn : Queue → Type 0
  GoesOn w = (u : Queue) × (step : Step size max_frame_bytes w u) × (is_own step ≡ true)

  served-GoesOn :
      (w : Queue) (task : Option SessionEvent) (waiting : List (SessionEvent × ℕ))
      → w.tasks ≡ task ∷ []
      → w.events.pending ≡ waiting
      → GoesOn w
  unfolding pop_event
  served-GoesOn w (some event) waiting one e = (_, finish [] [] event one refl, refl)
  served-GoesOn w none [] one e =
      (_, stop [] [] (record w.events { running = false }) one (ground arith) refl, refl)
  served-GoesOn w none ((event, bytes) ∷ rest) one e =
      let events = record w.events { pending = rest; bytes = w.events.bytes - bytes } in
      (_, take [] [] event events one (ground arith) refl, refl)

  -- What a number of steps of the task leaves: the task can go on, or is at rest with all delivered.
  pub data IsDrained (q : Queue) (n : ℕ) (w : Queue) : Type 0 where
    still_runs : n < left q → GoesOn w → IsDrained q n w
    has_ended :
        n ≡ left q
        → IsAtRest w
        → w.delivered ≡ q.delivered ++ (held q.tasks ++ queued_events q.events.pending)
        → IsDrained q n w

  -- Every run of the one task of a queue, while its handlers succeed and no event is accepted: after
  -- fewer steps than two for each event that waits, one for the event in hand and one to end, the
  -- task can make another step; it makes no more than these, and when it has made them it has ended,
  -- the queue is empty and marked as not running, and the event in hand and all that waited are
  -- delivered, in order.
  pub Runs-IsDrained :
      (q w : Queue) (n : ℕ) (task : Option SessionEvent)
      → q.tasks ≡ task ∷ []
      → Runs q n w
      → IsDrained q n w
  Runs-IsDrained q w n task one runs =
      let (served, steps, same) = Runs-Served q w n task one runs in
      elim served [
        | inl (no_tasks, empty, stopped) ↦
            let nothing : left w ≡ 0 = rw (no_tasks, empty) refl in
            has_ended (omega (arith, steps, nothing)) (no_tasks, empty, stopped)
              (sym (append-nil w.delivered) ∙ (rw (no_tasks, empty) at same))
        | inr (task', alone) ↦
            let some_left : 1 ≤ left w = rw alone (omega (arith, task_left_pos task')) in
            still_runs (omega (arith, steps, some_left))
              (served-GoesOn w task' w.events.pending alone refl)
      ]
