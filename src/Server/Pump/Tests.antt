-- ===== src/Server/Pump/Tests.antt =====
-- Tests of the event pump, and its theorem at a concrete input.
use codex_acp_v.Server.Pump.Shapes.{events_of}
use codex_acp_v.Server.Delivery.{event_params, thread_of}
use codex_acp_v.Server.{new_state, no_configuration}
use codex_acp_v.Json.{Value, obj, string}
use codex_acp_v.Backend.{BackendEvent, notification}
use codex_acp_v.Server.Pump.{
  Pump, is_early, register, event_thread_id, new_registration, hold_event, registers, holds_next,
  fence, Leaves, fences, routes_queued,
}
use codex_acp_v.Server.Pump.Ordered.{Runs, InOrder, next_round, started}
use codex_acp_v.Server.Pump.Ordered.{Runs-InOrder}
use codex_acp_v.Common.{ℕ, ◌∷◌, [], true, none, ◌≡◌, some, refl, lookup}

abbrev four : Value → ℕ
four v = 4

abbrev begun : BackendEvent
begun = notification 1 "turn/started" (obj (("threadId", string "new") ∷ []))

abbrev ended : BackendEvent
ended = notification 2 "turn/completed" (obj (("threadId", string "new") ∷ []))

-- The pump while a session is set up.
abbrev setting_up : Pump
setting_up = record {
  server = record new_state { setup_in_progress = true };
  queued = [];
  registering = none;
}

abbrev one_held : Pump
one_held = record setting_up {
  server = record new_state {
    setup_in_progress = true;
    early_events = begun ∷ [];
    early_bytes = 4;
  };
}

hold_event_tests :
    (is_early setting_up begun ≡ true)
    × (hold_event four 8 begun setting_up.server ≡ some one_held.server)
    × (hold_event four 7 ended one_held.server ≡ none)
unfolding is_early event_thread_id event_params hold_event thread_of lookup
hold_event_tests = (refl, refl, refl)

holds_one : Runs four 8 setting_up (begun ∷ []) [] one_held
unfolding is_early event_thread_id event_params hold_event thread_of lookup
holds_one =
    next_round started (holds_next {p = setting_up} {s = one_held.server} begun refl refl refl refl)

abbrev registered_one : Pump
registered_one = register (new_registration "new" no_configuration 1 0) [] one_held

registers_one : Runs four 8 setting_up (begun ∷ []) [] registered_one
registers_one = next_round holds_one (registers {p = one_held} "new" no_configuration 1 0 refl refl)

Runs-InOrder_example : InOrder four 8 "new" (begun ∷ []) [] registered_one
unfolding registers_one holds_one
Runs-InOrder_example = Runs-InOrder four 8 "new" refl refl registers_one ((tt, tt), tt)

-- A fence that is taken while a session is set up lets a later event of its thread pass the one held.
abbrev fenced : Pump
fenced = register (fence 5 1) (ended ∷ []) one_held

overtakes : Runs four 8 setting_up (begun ∷ ended ∷ []) (ended ∷ []) (record fenced { queued = [] })
unfolding is_early event_thread_id event_params thread_of lookup register
overtakes =
    next_round (next_round holds_one (fences {p = one_held} 5 1 (ended ∷ []) refl refl))
      (routes_queued {p = fenced} {s = fenced.server} ended [] refl refl same)
  where
    same : Leaves four 8 fenced.server fenced.server
    same = record { early = refl; setup = λ e. e; closed = λ id e. e }

overtaken :
    (events_of "new" (begun ∷ ended ∷ []) ≡ begun ∷ ended ∷ [])
    × (events_of "new" (ended ∷ []) ≡ ended ∷ [])
    × (fenced.server.early_events ≡ begun ∷ [])
unfolding event_thread_id event_params thread_of lookup register
overtaken = (refl, refl, refl)
