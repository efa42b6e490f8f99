-- ===== src/Server/History.antt =====
-- src/server/history.rs: the replay of a session's history, within a budget of rows. What the
-- projector makes of an item or a turn is a parameter, as are the replies of the backend.
pub mod Spends
pub mod Replayed
pub mod Descendants
mod Tests
use codex_acp_v.Server.Pages.Models.{rows}
use codex_acp_v.Server.Pages.{Ended, PageError, paginate, after_ok}
use codex_acp_v.Json.{Value, as_str, at, null}
use codex_acp_v.Server.{State, SessionData}
use codex_acp_v.Backend.{Snapshot, BackendError}
use codex_acp_v.Server.Ownership.{OwnershipError, child_item_id}
use codex_acp_v.Common.{
  ℕ, String, if◌then◌else◌, List, ◌==◌, ltb, Result, nat_eq, ◌>>=◌, ok, err, ◌∷◌, Bool, or_fail,
  ◌++◌, none, some, ◌>>◌, insert, ensure, leb, length, ◌-◌, [],
}
use mathlib.Core.Option

-- The content of one session, changed.
unfoldable pub with_content : ℕ → (SessionData → SessionData) → State → State
with_content session change s = record s {
  store = λ address.
      if nat_eq address session
      then record (s.store address) { content = change (s.store address).content }
      else s.store address;
}

-- `E` is the projector's error, `U` an update for the client.
pub data HistoryError {ℓ} (E : Type ℓ) : Type ℓ where
  no_data : HistoryError E
  item_limit : HistoryError E
  projection : E → HistoryError E

pub data DescendantError {ℓ} (E : Type ℓ) : Type ℓ where
  no_rows : DescendantError E
  no_child_id : DescendantError E
  too_many_descendants : DescendantError E
  child_owner : OwnershipError → DescendantError E
  unowned_descendant : DescendantError E
  child_history : PageError (HistoryError E) → DescendantError E

pub data ReplayError {ℓ} (E : Type ℓ) : Type ℓ where
  items_failed : PageError (HistoryError E) → ReplayError E
  turns_failed : PageError (HistoryError E) → ReplayError E
  descendants_failed : PageError (DescendantError E) → ReplayError E

pub record Projector {ℓ κ} (E : Type ℓ) (U : Type κ) : Type (ℓ ⊔ κ) where
  pub replay_item : Value → Result E (List U)
  pub replay_child_item : Value → String → Result E (List U)
  pub replay_turn_diagnostic : Value → Result E (List U)

-- The state of the server, the rows that may still be replayed, and the updates that were sent.
pub record Replay {κ} (U : Type κ) : Type κ where
  pub server : State
  pub remaining : ℕ
  pub sent : List U

-- The replies to the three requests, by thread or by partition, round and cursor.
pub record HistoryPages : Type 0 where
  pub items : String → ℕ → Value → Result BackendError Snapshot
  pub turns : String → ℕ → Value → Result BackendError Snapshot
  pub descendants : Bool → ℕ → Value → Result BackendError Snapshot

module _ {ℓ κ} {E : Type ℓ} {U : Type κ} (projector : Projector E U) where
  unfoldable pub projected_id : String → String → String → String
  projected_id root thread item = if thread == root then item else child_item_id thread item

  unfoldable pub project_item : String → String → Value → Result E (List U)
  project_item root thread item =
      if thread == root then projector.replay_item item else projector.replay_child_item item thread

  -- The position of the snapshot is noted for an item that has an id.
  unfoldable pub note_cutoff : String → String → ℕ → ℕ → Value → State → State
  note_cutoff root thread session sequence entry s = elim (as_str (at (at entry "item") "id")) [
    | none ↦ s
    | some item ↦
        with_content session
          (λ content. record content {
            snapshot_cutoffs =
                insert content.snapshot_cutoffs (projected_id root thread item) sequence;
          })
          s
  ]

  unfoldable pub replay_entry :
      String → String → ℕ → ℕ → Value → Replay U → Ended (HistoryError E) (Replay U)
  replay_entry root thread session sequence entry r =
      let noted = note_cutoff root thread session sequence entry r.server in
      elim (project_item root thread (at entry "item")) [
        | err e ↦ (err (projection e), record r { server = noted })
        | ok updates ↦ (ok tt, record r { server = noted; sent = r.sent ++ updates })
      ]

  unfoldable pub replay_entries :
      String → String → ℕ → ℕ → List Value → Replay U → Ended (HistoryError E) (Replay U)
  replay_entries root thread session sequence [] r = (ok tt, r)
  replay_entries root thread session sequence (entry ∷ rest) r =
      after_ok (replay_entry root thread session sequence entry r)
        (replay_entries root thread session sequence rest)

  -- `remaining.checked_sub(rows.len())`, and the rows where it succeeds.
  unfoldable pub spend : Snapshot → Replay U → Result (HistoryError E) (List Value × Replay U)
  spend page r = do
    found ← or_fail (rows page) no_data
    ensure (leb (length found) r.remaining) item_limit
    ok (found, record r { remaining = r.remaining - length found })

  unfoldable pub replay_page :
      String → String → ℕ → Snapshot → Replay U → Ended (HistoryError E) (Replay U)
  replay_page root thread session page r = elim (spend page r) [
    | err e ↦ (err e, r)
    | ok (found, left) ↦ replay_entries root thread session page.sequence found left
  ]

  unfoldable pub replay_turn : Value → Replay U → Ended (HistoryError E) (Replay U)
  replay_turn turn r = elim (projector.replay_turn_diagnostic turn) [
    | err e ↦ (err (projection e), r)
    | ok updates ↦ (ok tt, record r { sent = r.sent ++ updates })
  ]

  unfoldable pub replay_turns : List Value → Replay U → Ended (HistoryError E) (Replay U)
  replay_turns [] r = (ok tt, r)
  replay_turns (turn ∷ rest) r = after_ok (replay_turn turn r) (replay_turns rest)

  unfoldable pub replay_turn_page : Snapshot → Replay U → Ended (HistoryError E) (Replay U)
  replay_turn_page page r = elim (spend page r) [
    | err e ↦ (err e, r)
    | ok (found, left) ↦ replay_turns found left
  ]

  module _ (max_replay_items : ℕ) (pages : HistoryPages) where
    -- `max_replay_items.max(1)`
    abbrev pub rounds : ℕ
    rounds = if ltb max_replay_items 1 then 1 else max_replay_items

    unfoldable pub replay_thread_items :
        String → String → ℕ → Replay U → Ended (PageError (HistoryError E)) (Replay U)
    replay_thread_items root thread session r =
        paginate (pages.items thread) (replay_page root thread session) rounds 0 null r

    unfoldable pub replay_turn_diagnostics :
        String → Replay U → Ended (PageError (HistoryError E)) (Replay U)
    replay_turn_diagnostics root r = paginate (pages.turns root) replay_turn_page rounds 0 null r
