-- ===== src/Server/History/Descendants/Kept.antt =====
-- src/server/history.rs: a relation that the pages of a replay and its lookups keep is kept by the
-- whole replay, however it ends.
use codex_acp_v.Server.History.Descendants.Grows.{after_ok_kept, paginate_kept}
use codex_acp_v.Server.Pages.Models.{rows}
use codex_acp_v.Server.Ownership.{owner_for_thread}
use codex_acp_v.Server.History.Descendants.{
  visit_child, Walk, as_child, as_replay, replay_partition, visit_page, visit_thread, visit_threads,
  replay_descendants, replay_within,
}
use codex_acp_v.Server.{State}
use codex_acp_v.Backend.{BackendError, Snapshot}
use codex_acp_v.Server.History.{
  Replay, Projector, HistoryPages, replay_turn_page, replay_page, replay_turn_diagnostics,
  replay_thread_items, rounds, HistoryError, items_failed, descendants_failed, turns_failed,
}
use codex_acp_v.Server.Pages.{Ended, paginate, PageError}
use codex_acp_v.Json.{Value, at, null, as_str}
use codex_acp_v.Common.{
  ℕ, Result, err, [], List, String, Result-cases, ok, ◌∷◌, inr, inl, Bool-cases, ◌==◌, ◌||◌,
  contains, not, leb, length, is_some_and, Bool, Option-cases, false, true,
}

module _ {ℓ κ κ'} {E : Type ℓ} {U : Type κ} (projector : Projector E U) (max_replay_items : ℕ)
    (history : HistoryPages) (read : String → Result BackendError Value)
    (others : ℕ → State → State) (session : ℕ) (G : Replay U → Replay U → Type κ')
    (same : (r : Replay U) → G r r) (trans : (a b c : Replay U) → G a b → G b c → G a c)
    (pages : (root thread : String) (page : Snapshot) (r : Replay U)
      → G r (replay_page projector root thread session page r).1)
    (turns : (page : Snapshot) (r : Replay U) → G r (replay_turn_page projector page r).1)
    (looks : (child : String) (r : Replay U)
      → G r (record r { server = (owner_for_thread read others child r.server).1 })) where
  replay_thread_items_kept :
      (root thread : String) (r : Replay U)
      → G r (replay_thread_items projector max_replay_items history root thread session r).1
  unfolding replay_thread_items
  replay_thread_items_kept root thread r =
      paginate_kept G same trans (history.items thread) (replay_page projector root thread session)
        (pages root thread) (rounds projector max_replay_items history) 0 null r

  replay_turn_diagnostics_kept :
      (root : String) (r : Replay U)
      → G r (replay_turn_diagnostics projector max_replay_items history root r).1
  unfolding replay_turn_diagnostics
  replay_turn_diagnostics_kept root r =
      paginate_kept G same trans (history.turns root) (replay_turn_page projector) turns
        (rounds projector max_replay_items history) 0 null r

  abbrev Walks : Walk U → Walk U → Type κ'
  Walks walk after = G walk.replayed after.replayed

  Walks-refl : (walk : Walk U) → Walks walk walk
  Walks-refl walk = same walk.replayed

  Walks-trans : (a b c : Walk U) → Walks a b → Walks b c → Walks a c
  Walks-trans a b c = trans a.replayed b.replayed c.replayed

  as_child_kept :
      (seen : List String) (r : Replay U) (o : Ended (PageError (HistoryError E)) (Replay U))
      → G r o.1
      → G r (as_child seen o).1.replayed
  as_child_kept seen r (err e, t) h = h
  as_child_kept seen r (ok done, t) h = h

  visit_child_kept :
      (root : String) (child : String) (walk : Walk U)
      → Walks walk
          (visit_child projector max_replay_items history read others root session child walk).1
  unfolding visit_child
  visit_child_kept root child walk =
      let seen = child ∷ walk.seen in
      let looked : Replay U = record walk.replayed {
        server = (owner_for_thread read others child walk.replayed.server).1;
      } in
      let met : G walk.replayed looked = looks child walk.replayed in
      let items = replay_thread_items_kept root child looked in
      let all = trans walk.replayed looked _ met (
        as_child_kept seen looked
          (replay_thread_items projector max_replay_items history root child session looked)
          items) in
      elim (Bool-cases (child == root || contains walk.seen child)) [
        | inl e ↦ rw (visit_child, e) (Walks-refl walk)
        | inr e ↦ elim (Bool-cases (not (leb (length seen) 4096))) [
          | inl many ↦ rw (visit_child, e, many) (Walks-refl walk)
          | inr few ↦
              elim (Result-cases (owner_for_thread read others child walk.replayed.server).0) [
                | inr (error, failed) ↦ rw (visit_child, e, few, failed) met
                | inl (found, answered) ↦ elim (Bool-cases (is_some_and found (λ id. id == root))) [
                  | inl own ↦ rw (visit_child, e, few, answered, own) all
                  | inr foreign ↦ rw (visit_child, e, few, answered, foreign) met
                ]
              ]
        ]
      ]

  visit_thread_kept :
      (root : String) (thread : Value) (walk : Walk U)
      → Walks walk
          (visit_thread projector max_replay_items history read others root session thread walk).1
  unfolding visit_thread
  visit_thread_kept root thread walk = elim (Option-cases (as_str (at thread "id"))) [
    | inl e ↦ rw (visit_thread, e) (Walks-refl walk)
    | inr (child, e) ↦ rw (visit_thread, e) (visit_child_kept root child walk)
  ]

  visit_threads_kept :
      (root : String) (threads : List Value) (walk : Walk U)
      → Walks walk
          (visit_threads projector max_replay_items history read others root session threads walk).1
  unfolding visit_threads
  visit_threads_kept root [] walk = Walks-refl walk
  visit_threads_kept root (thread ∷ rest) walk =
      after_ok_kept Walks Walks-refl Walks-trans
        (visit_thread projector max_replay_items history read others root session thread walk)
        (visit_threads projector max_replay_items history read others root session rest) walk
        (visit_thread_kept root thread walk) (visit_threads_kept root rest)

  visit_page_kept :
      (root : String) (page : Snapshot) (walk : Walk U)
      → Walks walk
          (visit_page projector max_replay_items history read others root session page walk).1
  unfolding visit_page
  visit_page_kept root page walk = elim (Option-cases (rows page)) [
    | inl e ↦ rw (visit_page, e) (Walks-refl walk)
    | inr (threads, e) ↦ rw (visit_page, e) (visit_threads_kept root threads walk)
  ]

  as_replay_kept :
      {S : Type κ} {F F' : Type ℓ} (wrap : F → F') (P : S → Type κ') (o : Ended F S)
      → P o.1
      → P (as_replay wrap o).1
  as_replay_kept wrap P (err e, s) h = h
  as_replay_kept wrap P (ok done, s) h = h

  replay_partition_kept :
      (root : String) (archived : Bool) (walk : Walk U)
      → Walks walk
          (replay_partition projector max_replay_items history read others root session archived
            walk).1
  unfolding replay_partition
  replay_partition_kept root archived walk =
      let visit = visit_page projector max_replay_items history read others root session in
      as_replay_kept descendants_failed (Walks walk)
        (paginate (history.descendants archived) visit 64 0 null walk)
        (paginate_kept Walks Walks-refl Walks-trans (history.descendants archived) visit
          (visit_page_kept root) 64 0 null walk)

  pub replay_within_kept :
      (root : String) (r : Replay U)
      → G r (replay_within projector max_replay_items history read others root session r).1
  unfolding replay_within replay_descendants
  replay_within_kept root r =
      after_ok_kept G same trans
        (as_replay items_failed
          (replay_thread_items projector max_replay_items history root root session r))
        _ r
        (as_replay_kept items_failed (G r)
          (replay_thread_items projector max_replay_items history root root session r)
          (replay_thread_items_kept root root r))
        (λ mine.
          after_ok_kept G same trans
            (as_replay turns_failed
              (replay_turn_diagnostics projector max_replay_items history root mine))
            _ mine
            (as_replay_kept turns_failed (G mine)
              (replay_turn_diagnostics projector max_replay_items history root mine)
              (replay_turn_diagnostics_kept root mine))
            (λ told.
              after_ok_kept Walks Walks-refl Walks-trans
                (replay_partition projector max_replay_items history read others root session false
                  (record { seen = []; replayed = told }))
                (replay_partition projector max_replay_items history read others root session true)
                (record { seen = []; replayed = told })
                (replay_partition_kept root false (record { seen = []; replayed = told }))
                (replay_partition_kept root true)))
