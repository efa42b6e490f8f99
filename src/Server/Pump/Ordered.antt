-- ===== src/Server/Pump/Ordered.antt =====
-- src/server/events.rs: the order of the events of one thread while its session is set up.
use codex_acp_v.Server.{State}
use codex_acp_v.Server.Delivery.{queue_for, with_events, queued}
use codex_acp_v.Backend.{BackendEvent}
use codex_acp_v.Server.Pump.{
  is_early, Pump, Round, fences, event_thread_id, finish_registration, hold_event, register,
  holds_next, Leaves, routes_next, Registered, holds_queued, routes_queued, registers, finishes,
  others_run, fail_setup, setup_fails,
}
use codex_acp_v.Json.{Value}
use codex_acp_v.Server.Pump.Shapes.{
  is_of_thread, events_of, Shape, Shape-holds, Shape-routes, Shape-drains, Shape-same,
  Shape-captures,
}
use codex_acp_v.Common.{
  ℕ, String, List, filter, Bool, ◌≡◌, [], true, ◌++◌, ◌⊎◌, false, contains_key, inl, none, inr,
  is_some, Option-cases, arith, eq_iff, ap, ◌∷◌, filter-append, append-nil, Bool-cases, ◌∙◌, sym,
  some, subst, ok, refl,
}

module _ (size : Value → ℕ) (max_frame_bytes : ℕ) where
  -- The rounds of the pump, with all events that were taken from the channel and that were routed.
  pub data Runs (start : Pump) : List BackendEvent → List BackendEvent → Pump → Type 0 where
    started : Runs start [] [] start
    next_round :
        {taken given taken' given' : List BackendEvent} {p after : Pump}
        → Runs start taken given p
        → Round size max_frame_bytes p taken' given' after
        → Runs start (taken ++ taken') (given ++ given') after

  module _ (thread : String) where
    -- A fence takes events ahead of those that a set-up holds, and a set-up that fails drops them, so
    -- these are to find none of the thread.
    abbrev pub NoRace :
        {p : Pump} {taken given : List BackendEvent} {after : Pump}
        → Round size max_frame_bytes p taken given after
        → Type 0
    NoRace {p} (fences session reply captured e e') = p.server.setup_in_progress ≡ false
    NoRace {p} (setup_fails e) = events_of thread p.server.early_events ≡ []
    NoRace round = Unit

    abbrev pub NoRaces :
        {start p : Pump} {taken given : List BackendEvent} → Runs start taken given p → Type 0
    NoRaces started = Unit
    NoRaces (next_round runs round) = NoRaces runs × NoRace round

    pub record InOrder (taken given : List BackendEvent) (p : Pump) : Type 0 where
      pub order :
          events_of thread taken
          ≡ events_of thread given
            ++ (events_of thread p.queued ++ events_of thread p.server.early_events)
      pub held :
          (events_of thread p.server.early_events ≡ [])
          ⊎ ((p.server.setup_in_progress ≡ true)
              × (contains_key p.server.sessions thread ≡ false)
              × (p.registering ≡ none))
      pub waiting : (p.queued ≡ []) ⊎ (is_some p.registering ≡ true)

    abbrev Held : Pump → State → Type 0
    Held p s =
        (events_of thread s.early_events ≡ [])
        ⊎ ((s.setup_in_progress ≡ true)
            × (contains_key s.sessions thread ≡ false)
            × (p.registering ≡ none))

    keeps :
        (p : Pump) (s : State) → Leaves size max_frame_bytes p.server s → Held p p.server → Held p s
    keeps p s leaves (inl clear) = inl (ap (events_of thread) leaves.early ∙ clear)
    keeps p s leaves (inr (setup, unknown, free)) =
        inr (leaves.setup setup, leaves.closed thread unknown, free)

    -- Nothing of the thread is held back if its next event is not early.
    nothing_held :
        (p : Pump) (event : BackendEvent) (taken given : List BackendEvent)
        → InOrder taken given p
        → is_early p event ≡ false
        → is_of_thread thread event ≡ true
        → events_of thread p.server.early_events ≡ []
    unfolding is_early
    nothing_held p event taken given o late own = elim o.held [
      | inl none_held ↦ none_held
      | inr (setup, unknown, free) ↦ elim (Option-cases (event_thread_id event)) [
        | inl e ↦ absurd (ground arith)
        | inr (id, e) ↦
            let same : id ≡ thread = (eq_iff id thread).0 (rw e at own) in
            absurd (ground (arith, eq_iff id thread))
      ]
    ]

    finish_registration-kept :
        (r : Registered) (s after : State) (spawns : Bool)
        → finish_registration size max_frame_bytes r s ≡ (ok (queued spawns), after)
        → after.early_events ≡ s.early_events
    unfolding finish_registration queue_for with_events
    finish_registration-kept r s after spawns h = ground arith

    hold_event-some :
        (event : BackendEvent) (s after : State)
        → hold_event size max_frame_bytes event s ≡ some after
        → (after.early_events ≡ s.early_events ++ event ∷ [])
          × (after.setup_in_progress ≡ s.setup_in_progress)
          × (after.sessions ≡ s.sessions)
    unfolding hold_event
    hold_event-some event s after h = ground arith

    -- An early event is of a thread that is no session while one is set up.
    is_early_lem :
        (p : Pump) (event : BackendEvent)
        → is_of_thread thread event ≡ true
        → is_early p event ≡ true
        → (p.server.setup_in_progress ≡ true)
          × (contains_key p.server.sessions thread ≡ false)
          × (p.registering ≡ none)
    unfolding is_early
    is_early_lem p event own early = elim (Option-cases (event_thread_id event)) [
      | inl e ↦ absurd (ground arith)
      | inr (id, e) ↦
          let same : id ≡ thread = (eq_iff id thread).0 (rw e at own) in
          ground (arith, eq_iff id thread)
    ]

    -- While a registration is handled, no event is early.
    is_early-free :
        (p : Pump) (event : BackendEvent) → is_early p event ≡ true → p.registering ≡ none
    unfolding is_early
    is_early-free p event early = ground arith

    Round-InOrder :
        {p : Pump} {taken' given' : List BackendEvent} {after : Pump}
        (taken given : List BackendEvent)
        → InOrder taken given p
        → (round : Round size max_frame_bytes p taken' given' after) → NoRace round
        → InOrder (taken ++ taken') (given ++ given') after
    unfolding register fail_setup
    Round-InOrder {p} taken given o (holds_next {s = s} event idle free early held) quiet =
        let (kept, setup, sessions) = hold_event-some event p.server s held in
        let before : Shape thread taken given [] p.server.early_events =
          subst (λ q. Shape thread taken given q p.server.early_events) idle o.order in
        let shape = Shape-holds thread taken given p.server.early_events event before in
        record {
          order = rw (idle, kept) shape;
          held = elim (Bool-cases (is_of_thread thread event)) [
            | inl own ↦ inr (rw (setup, sessions) (is_early_lem p event own early))
            | inr foreign ↦ elim o.held [
              | inl clear ↦ inl (
                  ap (events_of thread) kept
                  ∙ filter-append (is_of_thread thread) p.server.early_events (event ∷ [])
                  ∙ rw (clear, filter, foreign) refl)
              | inr rest ↦ inr (rw (setup, sessions) rest)
            ]
          ];
          waiting = inl idle;
        }
    Round-InOrder {p} taken given o (routes_next {s = s} event idle free late leaves) quiet =
        let before : Shape thread taken given [] p.server.early_events =
          subst (λ q. Shape thread taken given q p.server.early_events) idle o.order in
        let clear : is_of_thread thread event ≡ true → events_of thread p.server.early_events ≡ [] =
          nothing_held p event taken given o late in
        record {
          order =
              rw (idle, leaves.early)
                (Shape-routes thread taken given p.server.early_events event before clear);
          held = keeps p s leaves o.held;
          waiting = inl idle;
        }
    Round-InOrder {p} taken given o (holds_queued {s = s} event rest busy early held) quiet =
        let free = is_early-free p event early in
        absurd (elim o.waiting [ inl e ↦ ground arith | inr e ↦ ground arith ])
    Round-InOrder {p} taken given o (routes_queued {s = s} event rest busy late leaves) quiet =
        let before : Shape thread taken given (event ∷ rest) p.server.early_events =
          subst (λ q. Shape thread taken given q p.server.early_events) busy o.order in
        record {
          order =
              rw leaves.early
                (Shape-drains thread taken given rest p.server.early_events event before);
          held = keeps p s leaves o.held;
          waiting = inr (elim o.waiting [ inl e ↦ ground arith | inr e ↦ e ]);
        }
    Round-InOrder {p} taken given o (registers id configuration reply address idle free) quiet =
        let before : Shape thread taken given [] p.server.early_events =
          subst (λ q. Shape thread taken given q p.server.early_events) idle o.order in
        record {
          order =
              Shape-same thread taken given [] p.server.early_events before
              ∙ ap (λ es. events_of thread (given ++ []) ++ es)
                  (sym (append-nil (events_of thread p.server.early_events)));
          held = inl refl;
          waiting = inr refl;
        }
    Round-InOrder {p} taken given o (fences session reply captured idle free) quiet =
        let before : Shape thread taken given [] p.server.early_events =
          subst (λ q. Shape thread taken given q p.server.early_events) idle o.order in
        let clear : events_of thread p.server.early_events ≡ [] = elim o.held [
          | inl e ↦ e
          | inr (setup, unknown, free) ↦ absurd (ground arith)
        ] in
        record {
          order = Shape-captures thread taken given captured p.server.early_events before clear;
          held = inl clear;
          waiting = inr refl;
        }
    Round-InOrder {p} taken given o (finishes {s = s} r spawns idle busy done) quiet =
        let kept = finish_registration-kept r p.server s spawns done in
        let clear : events_of thread p.server.early_events ≡ [] = elim o.held [
          | inl e ↦ e
          | inr (setup, unknown, free) ↦ absurd (ground arith)
        ] in
        record {
          order = rw kept (Shape-same thread taken given p.queued p.server.early_events o.order);
          held = inl (rw kept clear);
          waiting = inl idle;
        }
    Round-InOrder {p} taken given o (setup_fails e) clear =
        let before : events_of thread taken
            ≡ events_of thread given ++ (events_of thread p.queued ++ []) =
          rw clear at o.order in
        record {
          order = Shape-same thread taken given p.queued [] before;
          held = inl refl;
          waiting = o.waiting;
        }
    Round-InOrder {p} taken given o (others_run {s = s} leaves) quiet = record {
      order =
          rw leaves.early (Shape-same thread taken given p.queued p.server.early_events o.order);
      held = keeps p s leaves o.held;
      waiting = o.waiting;
    }

    -- From a start where nothing of the thread is held back, the events of the thread that were taken
    -- from the channel are, in their order, those that were routed, then those that are queued, then
    -- those that are held for a set-up; provided that no fence is taken while a set-up runs, and that
    -- no set-up fails while events of the thread are held, which drops them.
    pub Runs-InOrder :
        {start p : Pump} {taken given : List BackendEvent}
        → start.queued ≡ []
        → events_of thread start.server.early_events ≡ []
        → (runs : Runs start taken given p) → NoRaces runs
        → InOrder taken given p
    Runs-InOrder idle clear started quiet = record {
      order = rw (idle, clear) refl;
      held = inl clear;
      waiting = inl idle;
    }
    Runs-InOrder idle clear (next_round {taken = taken} {given = given} runs round) (quiet, last) =
        Round-InOrder taken given (Runs-InOrder idle clear runs quiet) round last
