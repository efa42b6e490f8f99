-- ===== src/Server/Delivery/Steps.antt =====
-- src/server/dispatch.rs: the queue of one session with the tasks that empty it, as steps of one
-- system: the pump enqueues, tasks take events and finish or fail to handle them, in any interleaving.
use codex_acp_v.Server.Delivery.{enqueue, pop_event}
use codex_acp_v.Server.{SessionEvents, SessionEvent}
use codex_acp_v.Json.{Value}
use codex_acp_v.Common.{
  ℕ, [], List, ◌≡◌, false, Option, ◌∷◌, length, Bool, ◌++◌, true, ◌≤◌, none, ◌+◌, some, ok, ◌*◌,
  if◌then◌else◌,
}

-- `tasks` holds, for each task that runs, the event that it has taken. `accepted` and `delivered`
-- are the history, and `lost` what a failed task held.
pub record Queue : Type 0 where
  pub events : SessionEvents
  pub tasks : List (Option SessionEvent)
  pub accepted : List SessionEvent
  pub delivered : List SessionEvent
  pub lost : List SessionEvent
  pub failed : Bool

abbrev pub idle_queue : Queue
idle_queue = record {
  events = record { pending = []; bytes = 0; running = false };
  tasks = [];
  accepted = [];
  delivered = [];
  lost = [];
  failed = false;
}

abbrev pub held : List (Option SessionEvent) → List SessionEvent
held [] = []
held (none ∷ rest) = held rest
held (some event ∷ rest) = event ∷ held rest

abbrev pub queued_events : List (SessionEvent × ℕ) → List SessionEvent
queued_events [] = []
queued_events ((event, bytes) ∷ rest) = event ∷ queued_events rest

abbrev pub total : List (SessionEvent × ℕ) → ℕ
total [] = 0
total ((event, bytes) ∷ rest) = bytes + total rest

module _ (size : Value → ℕ) (max_frame_bytes : ℕ) where
  pub data Step (q u : Queue) : Type 0 where
    -- The pump's event is accepted; a task starts if the queue has none.
    accept :
        (event : SessionEvent) (events : SessionEvents) (spawns : Bool)
        → enqueue size max_frame_bytes q.events event ≡ ok (events, spawns)
        → u ≡ record q {
          events = events;
          tasks = if spawns then none ∷ q.tasks else q.tasks;
          accepted = q.accepted ++ event ∷ [];
        }
        → Step q u
    -- An idle task takes the next event.
    take :
        (before after : List (Option SessionEvent)) (event : SessionEvent) (events : SessionEvents)
        → q.tasks ≡ before ++ none ∷ after
        → pop_event q.events ≡ (some event, events)
        → u ≡ record q { events = events; tasks = before ++ some event ∷ after }
        → Step q u
    -- An idle task finds the queue empty and ends.
    stop :
        (before after : List (Option SessionEvent)) (events : SessionEvents)
        → q.tasks ≡ before ++ none ∷ after
        → pop_event q.events ≡ (none, events)
        → u ≡ record q { events = events; tasks = before ++ after }
        → Step q u
    -- A task has handled its event.
    finish :
        (before after : List (Option SessionEvent)) (event : SessionEvent)
        → q.tasks ≡ before ++ some event ∷ after
        → u ≡ record q { tasks = before ++ none ∷ after; delivered = q.delivered ++ event ∷ [] }
        → Step q u
    -- The handler fails, and its task ends with the error.
    fail :
        (before after : List (Option SessionEvent)) (event : SessionEvent)
        → q.tasks ≡ before ++ some event ∷ after
        → u ≡ record q { tasks = before ++ after; lost = q.lost ++ event ∷ []; failed = true }
        → Step q u

  pub data Reach (q : Queue) : Queue → Type 0 where
    here : Reach q q
    next : {u w : Queue} → Reach q u → Step u w → Reach q w

  -- At most one task runs. While one runs the queue is marked as running; without one the queue is
  -- empty, unless a task failed.
  pub data OneTask (q : Queue) : Type 0 where
    one :
        (task : Option SessionEvent)
        → q.tasks ≡ task ∷ []
        → q.events.running ≡ true
        → q.failed ≡ false
        → q.lost ≡ []
        → OneTask q
    no_task :
        q.tasks ≡ []
        → q.events.running ≡ false
        → q.events.pending ≡ []
        → q.failed ≡ false
        → q.lost ≡ []
        → OneTask q
    stalled :
        (event : SessionEvent)
        → q.tasks ≡ []
        → q.events.running ≡ true
        → q.failed ≡ true
        → q.lost ≡ event ∷ []
        → OneTask q

  pub record IsOrderly (q : Queue) : Type 0 where
    pub accounted : q.events.bytes ≡ total q.events.pending
    pub few : length q.events.pending ≤ 256
    pub small : q.events.bytes ≤ max_frame_bytes * 4
    pub workers : OneTask q
    -- Nothing is lost, doubled or overtaken.
    pub in_order :
        q.accepted ≡ q.delivered ++ (q.lost ++ (held q.tasks ++ queued_events q.events.pending))
