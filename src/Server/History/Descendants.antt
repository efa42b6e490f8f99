-- ===== src/Server/History/Descendants.antt =====
-- src/server/history.rs, `replay`: the history of a session and of its descendants, live and archived.
pub mod Grows
pub mod Kept
pub mod Bounded
pub mod Reset
pub mod Elsewhere
use codex_acp_v.Server.Ownership.{owner_for_thread}
use codex_acp_v.Server.Pages.Models.{rows}
use codex_acp_v.Server.{State, SessionData}
use codex_acp_v.Json.{Value, as_str, at, null}
use codex_acp_v.Backend.{BackendError, Snapshot}
use codex_acp_v.Server.History.{
  Projector, HistoryPages, Replay, HistoryError, DescendantError, child_history, ReplayError,
  descendants_failed, items_failed, no_child_id, no_rows, replay_thread_items, turns_failed,
  replay_turn_diagnostics, too_many_descendants, child_owner, unowned_descendant, with_content,
}
use codex_acp_v.Server.Pages.{Ended, PageError, after_ok, paginate}
use codex_acp_v.Common.{
  ℕ, List, err, String, ok, Result, if◌then◌else◌, Bool, ◌∷◌, ◌==◌, false, ◌||◌, [], none, some,
  true, contains, not, leb, length, is_some_and, ◌++◌, ◌+◌, ◌%◌, ◌^◌,
}
use mathlib.Core.Option

-- The descendants met, each of which is replayed once, and the replay.
pub record Walk {κ} (U : Type κ) : Type κ where
  pub seen : List String
  pub replayed : Replay U

abbrev pub as_child {ℓ κ} :
    {E : Type ℓ} {U : Type κ}
    → List String
    → Ended (PageError (HistoryError E)) (Replay U)
    → Ended (DescendantError E) (Walk U)
as_child seen (err e, r) = (err (child_history e), record { seen = seen; replayed = r })
as_child seen (ok done, r) = (ok tt, record { seen = seen; replayed = r })

abbrev pub as_replay {ℓ ℓ' κ} :
    {E : Type ℓ} {F : Type ℓ'} {S : Type κ} → (E → F) → Ended E S → Ended F S
as_replay wrap (err e, s) = (err (wrap e), s)
as_replay wrap (ok done, s) = (ok tt, s)

-- The content of a session whose transcript starts anew.
abbrev pub reset_content : ℕ → SessionData → SessionData
reset_content cutoff content = record content {
  history_revision = (content.history_revision + 1) % 2 ^ 64;
  snapshot_cutoffs = [];
  history_cutoff = cutoff;
}

module _ {ℓ κ} {E : Type ℓ} {U : Type κ} (projector : Projector E U) (max_replay_items : ℕ)
    (pages : HistoryPages) (read : String → Result BackendError Value)
    (others : ℕ → State → State) where
  -- A descendant that is new and is owned by the session.
  unfoldable pub visit_child : String → ℕ → String → Walk U → Ended (DescendantError E) (Walk U)
  visit_child root session child walk =
      if child == root || contains walk.seen child
      then (ok tt, walk)
      else let seen = child ∷ walk.seen in
        if not (leb (length seen) 4096)
        then (err too_many_descendants, record walk { seen = seen })
        else let (owner, server) = owner_for_thread read others child walk.replayed.server in
          let looked = record walk.replayed { server = server } in
          let replay =
            replay_thread_items projector max_replay_items pages root child session looked in
          elim owner [
            | err e ↦ (err (child_owner e), record { seen = seen; replayed = looked })
            | ok found ↦
                if is_some_and found (λ id. id == root)
                then as_child seen replay
                else (err unowned_descendant, record { seen = seen; replayed = looked })
          ]

  unfoldable pub visit_thread : String → ℕ → Value → Walk U → Ended (DescendantError E) (Walk U)
  visit_thread root session thread walk = elim (as_str (at thread "id")) [
    | none ↦ (err no_child_id, walk)
    | some child ↦ visit_child root session child walk
  ]

  unfoldable pub visit_threads :
      String → ℕ → List Value → Walk U → Ended (DescendantError E) (Walk U)
  visit_threads root session [] walk = (ok tt, walk)
  visit_threads root session (thread ∷ rest) walk =
      after_ok (visit_thread root session thread walk) (visit_threads root session rest)

  unfoldable pub visit_page : String → ℕ → Snapshot → Walk U → Ended (DescendantError E) (Walk U)
  visit_page root session page walk = elim (rows page) [
    | none ↦ (err no_rows, walk)
    | some threads ↦ visit_threads root session threads walk
  ]

  unfoldable pub replay_partition : String → ℕ → Bool → Walk U → Ended (ReplayError E) (Walk U)
  replay_partition root session archived walk =
      as_replay descendants_failed
        (paginate (pages.descendants archived) (visit_page root session) 64 0 null walk)

  unfoldable pub replay_descendants : String → ℕ → Replay U → Ended (ReplayError E) (Walk U)
  replay_descendants root session r =
      after_ok (replay_partition root session false (record { seen = []; replayed = r }))
        (replay_partition root session true)

  -- The session's own items come first, then the diagnostics of its turns, then its descendants.
  unfoldable pub replay_within : String → ℕ → Replay U → Ended (ReplayError E) (Replay U)
  replay_within root session r =
      after_ok
        (as_replay items_failed
          (replay_thread_items projector max_replay_items pages root root session r))
        (λ mine.
          after_ok
            (as_replay turns_failed
              (replay_turn_diagnostics projector max_replay_items pages root mine))
            (λ told.
              let (outcome, walk) = replay_descendants root session told in
              (outcome, walk.replayed)))

  -- The budget of a replay is the configured number of rows.
  unfoldable pub replay : String → ℕ → Replay U → Ended (ReplayError E) (Replay U)
  replay root session r = replay_within root session (record r { remaining = max_replay_items })

  -- `mark` is the notification of a phase of a revision, for a reason.
  unfoldable pub reset_history :
      (ℕ → String → String → U)
      → String
      → ℕ
      → String
      → ℕ
      → Replay U
      → Ended (ReplayError E) (Replay U)
  reset_history mark root session reason cutoff r =
      let server = with_content session (reset_content cutoff) r.server in
      let revision = ((server.store session).content).history_revision in
      let started : Replay U = record r {
        server = server;
        sent = r.sent ++ mark revision "start" reason ∷ [];
      } in
      after_ok (replay root session started)
        (λ done. (ok tt, record done { sent = done.sent ++ mark revision "complete" reason ∷ [] }))
