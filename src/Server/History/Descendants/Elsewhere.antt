-- ===== src/Server/History/Descendants/Elsewhere.antt =====
-- src/server/history.rs and src/server/ownership.rs: the sessions that a reset leaves alone.
use codex_acp_v.Server.Pages.Models.{rows}
use codex_acp_v.Server.History.Descendants.Grows.{after_ok_kept}
use codex_acp_v.Server.History.Descendants.Kept.{replay_within_kept}
use codex_acp_v.Server.History.Descendants.{replay, reset_history, reset_content}
use codex_acp_v.Server.Ownership.{remember, climb, owner_for_thread, candidate, parent_of}
use codex_acp_v.Json.{Value, as_str, at}
use codex_acp_v.Backend.{BackendError, Snapshot}
use codex_acp_v.Server.{SessionData, State}
use codex_acp_v.Server.History.{
  with_content, Projector, HistoryPages, replay_page, replay_entries, spend, Replay, note_cutoff,
  replay_turn_page, replay_turns, replay_entry, replay_turn, project_item, no_data, item_limit,
}
use codex_acp_v.Common.{
  ap, ℕ, String, Result, ◌≢◌, ◌≡◌, arith, List, suc, ◌*◌, Option-cases, Result-cases, ◌∷◌, ◌++◌, ok,
  ◌+◌, inr, [], >>=-ok_inversion, ◌∙◌, or_fail, inl, refl, Bool-cases, not, ensure, contains, leb,
  some, length, zero, none, sym, ap, ok_injective,
}

pub with_content_elsewhere :
    (session elsewhere : ℕ) (change : SessionData → SessionData) (s : State)
    → elsewhere ≢ session
    → (with_content session change s).store elsewhere ≡ s.store elsewhere
unfolding with_content
with_content_elsewhere session elsewhere change s apart = ground arith

module _ (read : String → Result BackendError Value) (others : ℕ → State → State) (elsewhere : ℕ)
    (spares : (n : ℕ) (s : State) → (others n s).store elsewhere ≡ s.store elsewhere) where
  remember_elsewhere :
      (visited : List String) (root : String) (session : ℕ) (s : State)
      → (remember visited root session s).1.store elsewhere ≡ s.store elsewhere
  unfolding remember
  remember_elsewhere visited root session s = ground arith

  climb_elsewhere :
      (rounds : ℕ) (current : String) (visited : List String) (s : State)
      → (climb read others rounds current visited s).1.store elsewhere ≡ s.store elsewhere
  unfolding climb
  climb_elsewhere zero current visited s = refl
  climb_elsewhere (suc rounds) current visited s =
      let found = others (3 * rounds + 2) s in
      let opened = others (3 * rounds + 1) found in
      let last = others (3 * rounds) opened in
      let at_found = spares (3 * rounds + 2) s in
      let at_opened = spares (3 * rounds + 1) found ∙ at_found in
      let at_last = spares (3 * rounds) opened ∙ at_opened in
      elim (Option-cases (candidate found current)) [
        | inr ((root, session), e) ↦
            elim (Bool-cases (not ((opened.store session).content).is_open)) [
              | inl closed ↦ rw (climb, e, closed) at_opened
              | inr is_open ↦
                  rw (climb, e, is_open) (remember_elsewhere visited root session last ∙ at_last)
            ]
        | inl e ↦ elim (Bool-cases (contains visited current)) [
          | inl cycle ↦ rw (climb, e, cycle) at_found
          | inr fresh ↦ elim (Result-cases (parent_of current (read current))) [
            | inr (error, failed) ↦ rw (climb, e, fresh, failed) at_found
            | inl (none, top) ↦ rw (climb, e, fresh, top) at_found
            | inl (some parent, up) ↦
                rw (climb, e, fresh, up)
                  (climb_elsewhere rounds parent (current ∷ visited) found ∙ at_found)
          ]
        ]
      ]

  module _ {ℓ κ} {E : Type ℓ} {U : Type κ} (projector : Projector E U) (max_replay_items : ℕ)
      (history : HistoryPages) (session : ℕ) (apart : elsewhere ≢ session) where
    abbrev Spares : Replay U → Replay U → Type 0
    Spares r after = after.server.store elsewhere ≡ r.server.store elsewhere

    note_cutoff_elsewhere :
        (root thread : String) (sequence : ℕ) (entry : Value) (s : State)
        → (note_cutoff projector root thread session sequence entry s).store elsewhere
          ≡ s.store elsewhere
    unfolding note_cutoff
    note_cutoff_elsewhere root thread sequence entry s =
        elim (Option-cases (as_str (at (at entry "item") "id"))) [
          | inl e ↦ rw (note_cutoff, e) refl
          | inr (item, e) ↦ rw (note_cutoff, e) (with_content_elsewhere session elsewhere _ s apart)
        ]

    replay_entries_elsewhere :
        (root thread : String) (sequence : ℕ) (found : List Value) (r : Replay U)
        → Spares r (replay_entries projector root thread session sequence found r).1
    unfolding replay_entries replay_entry
    replay_entries_elsewhere root thread sequence [] r = refl
    replay_entries_elsewhere root thread sequence (entry ∷ rest) r =
        let noted = note_cutoff_elsewhere root thread sequence entry r.server in
        elim (Result-cases (project_item projector root thread (at entry "item"))) [
          | inr (e, failed) ↦ rw (replay_entries, replay_entry, failed) noted
          | inl (updates, e) ↦
              let mid : Replay U = record r {
                server = note_cutoff projector root thread session sequence entry r.server;
                sent = r.sent ++ updates;
              } in
              rw (replay_entries, replay_entry, e)
                (replay_entries_elsewhere root thread sequence rest mid ∙ noted)
        ]

    replay_turns_elsewhere :
        (found : List Value) (r : Replay U) → Spares r (replay_turns projector found r).1
    unfolding replay_turns replay_turn
    replay_turns_elsewhere [] r = refl
    replay_turns_elsewhere (turn ∷ rest) r =
        elim (Result-cases (projector.replay_turn_diagnostic turn)) [
          | inr (e, failed) ↦ rw (replay_turns, replay_turn, failed) refl
          | inl (updates, e) ↦
              rw (replay_turns, replay_turn, e)
                (replay_turns_elsewhere rest (record r { sent = r.sent ++ updates }))
        ]

    spend_elsewhere :
        (page : Snapshot) (r : Replay U) (found : List Value) (left : Replay U)
        → spend projector page r ≡ ok (found, left)
        → Spares r left
    unfolding spend
    spend_elsewhere page r found left h =
        let (here, first, next) = >>=-ok_inversion (or_fail (rows page) no_data) _ h in
        let (done, second, last) =
          >>=-ok_inversion (ensure (leb (length here) r.remaining) item_limit) _ next in
        sym (ap (λ p. p.1.server.store elsewhere) (ok_injective last))

    replay_page_elsewhere :
        (root thread : String) (page : Snapshot) (r : Replay U)
        → Spares r (replay_page projector root thread session page r).1
    unfolding replay_page
    replay_page_elsewhere root thread page r = elim (Result-cases (spend projector page r)) [
      | inr (e, failed) ↦ rw (replay_page, failed) refl
      | inl ((found, left), e) ↦
          rw (replay_page, e)
            (replay_entries_elsewhere root thread page.sequence found left
              ∙ spend_elsewhere page r found left e)
    ]

    replay_turn_page_elsewhere :
        (page : Snapshot) (r : Replay U) → Spares r (replay_turn_page projector page r).1
    unfolding replay_turn_page
    replay_turn_page_elsewhere page r = elim (Result-cases (spend projector page r)) [
      | inr (e, failed) ↦ rw (replay_turn_page, failed) refl
      | inl ((found, left), e) ↦
          rw (replay_turn_page, e)
            (replay_turns_elsewhere found left ∙ spend_elsewhere page r found left e)
    ]

    -- A replay changes no session but its own, however it ends.
    replay_elsewhere :
        (root : String) (r : Replay U)
        → Spares r (replay projector max_replay_items history read others root session r).1
    unfolding replay owner_for_thread
    replay_elsewhere root r =
        replay_within_kept projector max_replay_items history read others session Spares (λ s. refl)
          (λ a b c h h'. h' ∙ h) replay_page_elsewhere replay_turn_page_elsewhere
          (λ child s. climb_elsewhere 32 child [] s.server) root
          (record r { remaining = max_replay_items })

    -- Nor does a reset, however it ends.
    pub reset_history_elsewhere :
        (mark : ℕ → String → String → U) (root reason : String) (cutoff : ℕ) (r : Replay U)
        → Spares r
            (reset_history projector max_replay_items history read others mark root session reason
              cutoff r).1
    unfolding reset_history
    reset_history_elsewhere mark root reason cutoff r =
        let server = with_content session (reset_content cutoff) r.server in
        let revision = ((server.store session).content).history_revision in
        let started : Replay U = record r {
          server = server;
          sent = r.sent ++ mark revision "start" reason ∷ [];
        } in
        let begun =
          with_content_elsewhere session elsewhere (reset_content cutoff) r.server apart in
        after_ok_kept Spares (λ s. refl) (λ a b c h h'. h' ∙ h)
          (replay projector max_replay_items history read others root session started) _ r
          (replay_elsewhere root started ∙ begun) (λ t. refl)
