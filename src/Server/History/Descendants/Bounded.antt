-- ===== src/Server/History/Descendants/Bounded.antt =====
-- src/server/history.rs: the rows of a whole replay and their budget, however it ends.
use codex_acp_v.Server.History.Descendants.Kept.{replay_within_kept}
use codex_acp_v.Server.History.Descendants.Grows.{
  Grows, Grows-refl, Grows-trans, FromRow, from_turn, Grows-none, from_item, from_child,
}
use codex_acp_v.Server.History.Replayed.{spend-ok}
use codex_acp_v.Server.History.Descendants.{replay}
use codex_acp_v.Server.{State}
use codex_acp_v.Backend.{BackendError, Snapshot}
use codex_acp_v.Server.History.{
  Replay, Projector, replay_entry, replay_entries, project_item, spend, replay_turns, HistoryPages,
  replay_turn_page, replay_page, replay_turn, note_cutoff,
}
use codex_acp_v.Json.{Value, at}
use codex_acp_v.Common.{
  ℕ, arith, Result, [], List, String, sym, ◌≡◌, Result-cases, ok, ◌∙◌, ◌∷◌, append-nil, inr, inl,
  refl, Bool-cases, ◌==◌, length, ap, ◌++◌, All, flatten, suc, ◌≤◌, append_assoc,
}

module _ {ℓ κ} {E : Type ℓ} {U : Type κ} (projector : Projector E U) where
  -- The updates of some of so many rows, which are paid for already.
  record Visits (n : ℕ) (r after : Replay U) : Type (ℓ ⊔ κ) where
    pub batches : List (List U)
    pub from_rows : All (FromRow projector) batches
    pub few : length batches ≤ n
    pub kept : after.remaining ≡ r.remaining
    pub sent : after.sent ≡ r.sent ++ flatten batches

  Visits-none :
      (n : ℕ) (r after : Replay U)
      → after.remaining ≡ r.remaining
      → after.sent ≡ r.sent
      → Visits n r after
  Visits-none n r after kept same = record {
    batches = [];
    from_rows = tt;
    few = omega arith;
    kept = kept;
    sent = same ∙ sym (append-nil r.sent);
  }

  -- One row, and the rest of the rows.
  Visits-cons :
      (n : ℕ) (updates : List U) (r mid after : Replay U)
      → FromRow projector updates
      → mid.remaining ≡ r.remaining
      → mid.sent ≡ r.sent ++ updates
      → Visits n mid after
      → Visits (suc n) r after
  Visits-cons n updates r mid after row kept sent later = record {
    batches = updates ∷ later.batches;
    from_rows = (row, later.from_rows);
    few = omega (arith, later.few);
    kept = later.kept ∙ kept;
    sent =
        later.sent
        ∙ ap (λ us. us ++ flatten later.batches) sent
        ∙ append_assoc r.sent updates (flatten later.batches);
  }

  project_item-FromRow :
      (root thread : String) (entry : Value) (updates : List U)
      → project_item projector root thread (at entry "item") ≡ ok updates
      → FromRow projector updates
  unfolding project_item
  project_item-FromRow root thread entry updates h = elim (Bool-cases (thread == root)) [
    | inl e ↦ from_item entry (rw (project_item, e) at h)
    | inr e ↦ from_child entry thread (rw (project_item, e) at h)
  ]

  replay_entries-Visits :
      (root thread : String) (session sequence : ℕ) (found : List Value) (r : Replay U)
      → Visits (length found) r (replay_entries projector root thread session sequence found r).1
  unfolding replay_entries replay_entry
  replay_entries-Visits root thread session sequence [] r = Visits-none 0 r r refl refl
  replay_entries-Visits root thread session sequence (entry ∷ rest) r =
      let noted = note_cutoff projector root thread session sequence entry r.server in
      elim (Result-cases (project_item projector root thread (at entry "item"))) [
        | inr (e, failed) ↦ rw (replay_entries, replay_entry, failed) (Visits-none _ r _ refl refl)
        | inl (updates, e) ↦
            let mid : Replay U = record r { server = noted; sent = r.sent ++ updates } in
            rw (replay_entries, replay_entry, e)
              (Visits-cons (length rest) updates r mid _
                (project_item-FromRow root thread entry updates e) refl refl
                (replay_entries-Visits root thread session sequence rest mid))
      ]

  replay_turns-Visits :
      (found : List Value) (r : Replay U)
      → Visits (length found) r (replay_turns projector found r).1
  unfolding replay_turns replay_turn
  replay_turns-Visits [] r = Visits-none 0 r r refl refl
  replay_turns-Visits (turn ∷ rest) r =
      elim (Result-cases (projector.replay_turn_diagnostic turn)) [
        | inr (e, failed) ↦ rw (replay_turns, replay_turn, failed) (Visits-none _ r _ refl refl)
        | inl (updates, e) ↦
            let mid : Replay U = record r { sent = r.sent ++ updates } in
            rw (replay_turns, replay_turn, e)
              (Visits-cons (length rest) updates r mid _ (from_turn turn e) refl refl
                (replay_turns-Visits rest mid))
      ]

  -- The page is paid for before its rows are visited.
  spend-Grows :
      (page : Snapshot) (r : Replay U) (found : List Value) (left after : Replay U)
      → spend projector page r ≡ ok (found, left)
      → Visits (length found) left after
      → Grows projector r after
  spend-Grows page r found left after h visits =
      let (there, cost, same) = spend-ok projector page r found left h in
      record {
        batches = visits.batches;
        from_rows = visits.from_rows;
        paid = omega (arith, cost, visits.few, visits.kept);
        sent = visits.sent ∙ ap (λ us. us ++ flatten visits.batches) same;
      }

  replay_page-Grows :
      (session : ℕ) (root thread : String) (page : Snapshot) (r : Replay U)
      → Grows projector r (replay_page projector root thread session page r).1
  unfolding replay_page
  replay_page-Grows session root thread page r = elim (Result-cases (spend projector page r)) [
    | inr (e, failed) ↦ rw (replay_page, failed) (Grows-refl projector r)
    | inl ((found, left), e) ↦
        rw (replay_page, e)
          (spend-Grows page r found left _ e
            (replay_entries-Visits root thread session page.sequence found left))
  ]

  replay_turn_page-Grows :
      (page : Snapshot) (r : Replay U) → Grows projector r (replay_turn_page projector page r).1
  unfolding replay_turn_page
  replay_turn_page-Grows page r = elim (Result-cases (spend projector page r)) [
    | inr (e, failed) ↦ rw (replay_turn_page, failed) (Grows-refl projector r)
    | inl ((found, left), e) ↦
        rw (replay_turn_page, e)
          (spend-Grows page r found left _ e (replay_turns-Visits found left))
  ]

  module _ (max_replay_items : ℕ) (history : HistoryPages)
      (read : String → Result BackendError Value) (others : ℕ → State → State) where
    -- However a replay ends, and whatever its pages hold: what it has sent, behind what was sent
    -- before, are the updates of some rows, each an item, an item of a descendant or a turn, and
    -- these rows with the rows still left in the budget are no more than the configured limit.
    pub replay-Grows :
        (root : String) (session : ℕ) (r : Replay U)
        → Grows projector
            (record r { remaining = max_replay_items })
            (replay projector max_replay_items history read others root session r).1
    unfolding replay
    replay-Grows root session r =
        replay_within_kept projector max_replay_items history read others session (Grows projector)
          (Grows-refl projector) (Grows-trans projector) (replay_page-Grows session)
          replay_turn_page-Grows (λ child s. Grows-none projector s _ (omega arith) refl) root
          (record r { remaining = max_replay_items })
