-- ===== src/Server/Notifications/Tests.antt =====
-- src/server/events.rs: notifications of a session that was resumed and replayed.
use codex_acp_v.Server.Delivery.{thread_of}
use codex_acp_v.Server.History.Descendants.{reset_history, replay, replay_within}
use codex_acp_v.Config.Threads.{insert_named}
use codex_acp_v.Backend.{BackendError, timeout}
use codex_acp_v.Server.Notifications.Handler.{
  Notified, handle_owned, nothing_sent, reset_reverted, in_session, dismiss, revert,
  wants_raw_event,
}
use codex_acp_v.Server.Pages.{Ended, paginate}
use codex_acp_v.Server.History.{Replay, Projector, HistoryPages, replay_thread_items, with_content}
use codex_acp_v.Server.{SessionData, State, new_state, new_session, no_configuration}
use codex_acp_v.Server.Notifications.{
  Projection, deliver, settings_updated, NotificationError, effective_settings, overlay_mode,
}
use codex_acp_v.Json.{Value, obj, string, null, get, at, arr, nat}
use codex_acp_v.Server.Notifications.Contents.{deliver-replay_entry, replayed_content, shown_as}
use codex_acp_v.Server.Notifications.Isolated.{handle_owned-Alone}
use codex_acp_v.Server.Notifications.Settings.{settings_updated-lookup, IsMap}
use codex_acp_v.Common.{
  contains, ℕ, String, lookup, ◌≡◌, ◌+◌, [], some, ok, Result, ◌&&◌, ◌∷◌, is_some_and, ◌%◌,
  if◌then◌else◌, nat_eq, refl, leb, err, ◌^◌, ◌||◌, false, or_else, true, insert, ◌⊎◌, arith,
}

abbrev echo : Projection ℕ Value
echo = record {
  project = λ method params. ok (params ∷ []);
  project_child = λ method params child. ok (params ∷ []);
  config_update = λ shown. null;
}

abbrev no_projector : Projector ℕ Value
no_projector = record {
  replay_item = λ item. ok (item ∷ []);
  replay_child_item = λ item thread. ok (item ∷ []);
  replay_turn_diagnostic = λ turn. ok [];
}

abbrev one_session : State
one_session = record new_state {
  sessions = ("root", 7) ∷ [];
  store = λ address. new_session "root" no_configuration;
}

abbrev before : Replay Value
before = record { server = one_session; remaining = 9; sent = [] }

abbrev entry : Value
entry = obj (("item", obj (("id", string "a") ∷ [])) ∷ [])

abbrev completed : Value
completed = obj (("threadId", string "root") ∷ ("itemId", string "a") ∷ [])

deliver-replay_entry_example :
    let content = replayed_content no_projector echo "root" "root" 7 5 entry before in
    deliver echo "root" (some "root") "item/completed" completed 4 content ≡ (
      if leb 4 ((before.server.store 7).content).history_cutoff || leb 4 5
          then ok []
          else shown_as echo "root" "root" "item/completed" completed,
      content,
    )
unfolding lookup contains
deliver-replay_entry_example =
    deliver-replay_entry no_projector echo "root" "root" "a" "item/completed" 7 5 4 entry completed
      before refl refl refl

abbrev resumed : SessionData
resumed = record (new_session "root" no_configuration).content {
  settings_cutoff = 10;
  settings_overlay = ("model", string "new") ∷ [];
}

abbrev told : Value
told =
    obj
      (("threadSettings", obj (("model", string "old") ∷ ("personality", string "calm") ∷ [])) ∷ [])

abbrev merged : SessionData
merged = record resumed {
  configuration = record {
    settings = ("model", string "new") ∷ ("personality", string "calm") ∷ [];
    models = [];
  };
  settings_generation = 1;
}

merges : settings_updated told 9 resumed ≡ some merged
unfolding settings_updated effective_settings overlay_mode insert_named insert lookup
merges = refl

one_field : IsMap resumed.settings_overlay
unfolding lookup
one_field = (refl, tt)

settings_updated-lookup_example :
    (merged.settings_generation ≡ (resumed.settings_generation + 1) % 2 ^ 64)
    × (lookup merged.configuration.settings "model" ≡ (
        if leb 9 resumed.settings_cutoff
        then or_else
            (lookup resumed.settings_overlay "model")
            (get "model" (at told "threadSettings"))
        else get "model" (at told "threadSettings")))
settings_updated-lookup_example =
    settings_updated-lookup told 9 resumed merged "model" one_field refl merges

abbrev no_print : Value → String
no_print v = ""

abbrev no_reply : String → Result BackendError Value
no_reply thread = err timeout

abbrev quiet : ℕ → State → State
quiet n s = s

-- A projector of the items as they are, and a history that cannot be read.
abbrev as_it_is : Projector ℕ Value
as_it_is = record {
  replay_item = λ item. ok (item ∷ []);
  replay_child_item = λ item thread. ok (item ∷ []);
  replay_turn_diagnostic = λ turn. ok [];
}

abbrev unread : HistoryPages
unread = record {
  items = λ thread round cursor. err timeout;
  turns = λ thread round cursor. err timeout;
  descendants = λ archived round cursor. err timeout;
}

abbrev mark : ℕ → String → String → Value
mark revision phase reason = arr (nat revision ∷ string phase ∷ string reason ∷ [])

-- A client that has negotiated the reset of a history.
abbrev resettable : State
resettable = record one_session {
  negotiation = some (record {
    events = [];
    server_requests = false;
    raw_server_requests = [];
    session_reset = true;
  });
}

abbrev reverted : Value
reverted = obj (("threadId", string "root") ∷ [])

abbrev handled : Ended (NotificationError ℕ) (Notified Value)
handled =
    handle_owned echo no_print null as_it_is 9 unread mark no_reply quiet false (some "root")
      (some 7) "thread/reverted" reverted 1 resettable

-- The reset begins, and fails with the history.
begins : handled.1.updates ≡ mark 1 "start" "thread/reverted" ∷ []
unfolding handle_owned reset_reverted reset_history replay replay_within replay_thread_items
    paginate in_session dismiss revert lookup thread_of wants_raw_event with_content
begins = refl

handle_owned-Alone_example :
    (handled.1.server.store 8 ≡ resettable.store 8)
    × (((((resettable.store 7).content).is_open
            && is_some_and (lookup resettable.sessions "root") (nat_eq 7))
          ≡ true)
        ⊎ (handled ≡ (ok tt, nothing_sent resettable)))
handle_owned-Alone_example =
    handle_owned-Alone echo no_print null as_it_is 9 unread mark no_reply quiet false 7 8
      (λ h. absurd (ground arith)) (λ n s. refl) "root" "thread/reverted" reverted 1 resettable
