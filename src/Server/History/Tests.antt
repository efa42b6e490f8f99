-- ===== src/Server/History/Tests.antt =====
-- src/server/history.rs: a session with two items on two pages, and no descendants.
use codex_acp_v.Server.History.Replayed.{replay_thread_items-IsReplayed}
use codex_acp_v.Server.History.Descendants.Reset.{reset_history-IsReset, IsReset}
use codex_acp_v.Server.Pages.{paginate, page_failed}
use codex_acp_v.Json.{Value, obj, string, arr, is_null, nat}
use codex_acp_v.Backend.{Snapshot, BackendError, timeout}
use codex_acp_v.Server.History.Descendants.Grows.{Grows}
use codex_acp_v.Server.History.Descendants.Bounded.{replay-Grows}
use codex_acp_v.Server.{State, new_state}
use codex_acp_v.Server.History.Replayed.{IsReplayed, row_updates}
use codex_acp_v.Server.History.{
  item_limit, HistoryPages, replay_thread_items, Projector, Replay, rounds, replay_page, spend,
  replay_entries, replay_entry, project_item, replay_turn_diagnostics, replay_turn_page,
  replay_turns,
}
use codex_acp_v.Server.History.Descendants.{
  reset_history, replay, replay_within, replay_descendants, replay_partition, visit_page,
  visit_threads,
}
use codex_acp_v.Common.{ℕ, String, if◌then◌else◌, Result, ok, ◌≡◌, [], ◌∷◌, err, lookup, refl}

abbrev shows_all : Projector ℕ Value
shows_all = record {
  replay_item = λ item. ok (item ∷ []);
  replay_child_item = λ item thread. ok (item ∷ []);
  replay_turn_diagnostic = λ turn. ok [];
}

abbrev row : String → Value
row id = obj (("item", obj (("id", string id) ∷ [])) ∷ [])

abbrev first_page : Snapshot
first_page = record {
  value = obj (("data", arr (row "a" ∷ [])) ∷ ("nextCursor", string "more") ∷ []);
  sequence = 1;
}

abbrev second_page : Snapshot
second_page = record { value = obj (("data", arr (row "b" ∷ [])) ∷ []); sequence = 2 }

abbrev no_rows : Snapshot
no_rows = record { value = obj (("data", arr []) ∷ []); sequence = 3 }

abbrev two_pages : HistoryPages
two_pages = record {
  items = λ thread round cursor. if is_null cursor then ok first_page else ok second_page;
  turns = λ thread round cursor. ok no_rows;
  descendants = λ archived round cursor. ok no_rows;
}

abbrev empty : Replay Value
empty = record { server = new_state; remaining = 9; sent = [] }

abbrev replayed : Replay Value
replayed = (replay_thread_items shows_all 9 two_pages "root" "root" 0 empty).1

replays : replay_thread_items shows_all 9 two_pages "root" "root" 0 empty ≡ (ok tt, replayed)
unfolding replay_thread_items paginate replay_page spend replay_entries replay_entry project_item
    lookup
replays = refl

-- The second page is beyond a budget of one row.
stops :
    (replay_thread_items shows_all 9 two_pages "root" "root" 0 (record empty { remaining = 1 })).0
    ≡ err (page_failed item_limit)
unfolding replay_thread_items paginate replay_page spend replay_entries replay_entry project_item
    lookup
stops = refl

replay_thread_items-IsReplayed_example :
    IsReplayed shows_all
      (two_pages.items "root")
      (rounds shows_all 9 two_pages)
      (row_updates shows_all "root" "root" 0)
      empty
      replayed
replay_thread_items-IsReplayed_example =
    replay_thread_items-IsReplayed shows_all 9 two_pages "root" "root" 0 empty replayed replays

abbrev no_reply : String → Result BackendError Value
no_reply thread = err timeout

abbrev alone : ℕ → State → State
alone n s = s

replay-Grows_example :
    Grows shows_all
      (record empty { remaining = 9 })
      (replay shows_all 9 two_pages no_reply alone "root" 0 empty).1
replay-Grows_example = replay-Grows shows_all 9 two_pages no_reply alone "root" 0 empty

abbrev mark : ℕ → String → String → Value
mark revision phase reason = arr (nat revision ∷ string phase ∷ [])

abbrev anew : Replay Value
anew = (reset_history shows_all 9 two_pages no_reply alone mark "root" 0 "rollback" 4 empty).1

resets :
    reset_history shows_all 9 two_pages no_reply alone mark "root" 0 "rollback" 4 empty
    ≡ (ok tt, anew)
unfolding reset_history replay replay_within replay_descendants replay_partition visit_page
    visit_threads replay_turn_diagnostics replay_turn_page replay_turns replay_thread_items paginate
    replay_page spend replay_entries replay_entry project_item lookup
resets = refl

reset_history-IsReset_example :
    IsReset shows_all 9 two_pages no_reply alone mark "root" 0 "rollback" 4 empty anew
reset_history-IsReset_example =
    reset_history-IsReset shows_all 9 two_pages no_reply alone mark "root" 0 "rollback" 4 empty anew
      resets
