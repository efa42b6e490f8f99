-- ===== src/Server/History/Replayed.antt =====
-- src/server/history.rs: the rows that are read, and the updates they are sent as.
use codex_acp_v.Server.History.Spends.{
  Sends, Sends-nil, Sends-one, Sends-append, Spends, visit_all-Spends,
}
use codex_acp_v.Server.Pages.Served.{Served, paginate-eq-ok_iff}
use codex_acp_v.Server.Pages.Models.{rows, all_rows}
use codex_acp_v.Server.History.{
  Replay, Projector, spend, project_item, replay_page, replay_entries, replay_entry, no_data,
  note_cutoff, item_limit, replay_turns, replay_turn_page, HistoryPages, replay_turn,
  replay_thread_items, replay_turn_diagnostics, rounds,
}
use codex_acp_v.Backend.{Snapshot, BackendError}
use codex_acp_v.Json.{Value, at, null}
use codex_acp_v.Common.{
  ℕ, Result, List, ◌≡◌, ok, [], ◌∷◌, length, ◌++◌, ◌∙◌, sym, ◌+◌, arith, ap, ok_injective, some,
  refl, >>=-ok_inversion, subst, String, or_fail, Result-cases, inr, ensure, inl, leb, leb→le,
  ensure-ok, ◌-◌, or_fail-ok, ◌≤◌,
}

module _ {ℓ κ} {E : Type ℓ} {U : Type κ} (projector : Projector E U) where
  -- What a page that is paid for leaves.
  pub spend-ok :
      (page : Snapshot) (r : Replay U) (found : List Value) (left : Replay U)
      → spend projector page r ≡ ok (found, left)
      → (rows page ≡ some found)
        × (length found + left.remaining ≡ r.remaining)
        × (left.sent ≡ r.sent)
  unfolding spend
  spend-ok page r found left h =
      let (here, first, next) = >>=-ok_inversion (or_fail (rows page) no_data) _ h in
      let (done, second, last) =
        >>=-ok_inversion (ensure (leb (length here) r.remaining) item_limit) _ next in
      let fits = leb→le _ _ (ensure-ok _ item_limit done second) in
      let same : here ≡ found = ap (λ p. p.0) (ok_injective last) in
      let rest = ap (λ p. p.1) (ok_injective last) in
      let cost : length here ≡ length found = ap length same in
      let left_over : r.remaining - length here ≡ left.remaining = ap (λ t. t.remaining) rest in
      (
        or_fail-ok (rows page) no_data here first ∙ ap some same,
        omega (arith, fits, cost, left_over),
        sym (ap (λ t. t.sent) rest),
      )

  module _ (root thread : String) (session : ℕ) where
    abbrev pub row_updates : Value → Result E (List U)
    row_updates entry = project_item projector root thread (at entry "item")

    replay_entries-Sends :
        (sequence : ℕ) (found : List Value) (r after : Replay U)
        → replay_entries projector root thread session sequence found r ≡ (ok tt, after)
        → Sends row_updates found r after × (after.remaining ≡ r.remaining)
    unfolding replay_entries replay_entry
    replay_entries-Sends sequence [] r after h =
        let same : r ≡ after = ap (λ o. o.1) h in
        subst (λ t. Sends row_updates [] r t × (t.remaining ≡ r.remaining)) same
          (Sends-nil row_updates r, refl)
    replay_entries-Sends sequence (entry ∷ rest) r after h =
        elim (Result-cases (row_updates entry)) [
          | inr (e, failed) ↦ absurd (ground arith)
          | inl (updates, e) ↦
              let mid : Replay U = record r {
                server = note_cutoff projector root thread session sequence entry r.server;
                sent = r.sent ++ updates;
              } in
              let (later, kept) =
                replay_entries-Sends sequence rest mid after
                  (rw (replay_entries, replay_entry, e) at h) in
              (
                Sends-append row_updates (entry ∷ []) rest r mid after
                    (Sends-one row_updates entry r mid updates e refl) later,
                kept,
              )
        ]

    replay_page-Spends :
        (page : Snapshot) (r after : Replay U)
        → replay_page projector root thread session page r ≡ (ok tt, after)
        → (found : List Value) × (rows page ≡ some found) × Spends row_updates found r after
    unfolding replay_page
    replay_page-Spends page r after h = elim (Result-cases (spend projector page r)) [
      | inr (e, failed) ↦ absurd (ground arith)
      | inl ((found, left), e) ↦
          let (there, cost, same) = spend-ok page r found left e in
          let (sends, kept) =
            replay_entries-Sends page.sequence found left after (rw (replay_page, e) at h) in
          (
            found,
            there,
            record {
              budget = omega (arith, cost, kept);
              sends = record {
                updates = sends.updates;
                projected = sends.projected;
                sent = sends.sent ∙ ap (λ us. us ++ sends.updates) same;
              };
            },
          )
    ]

  replay_turns-Sends :
      (found : List Value) (r after : Replay U)
      → replay_turns projector found r ≡ (ok tt, after)
      → Sends projector.replay_turn_diagnostic found r after × (after.remaining ≡ r.remaining)
  unfolding replay_turns replay_turn
  replay_turns-Sends [] r after h =
      let same : r ≡ after = ap (λ o. o.1) h in
      let project = projector.replay_turn_diagnostic in
      subst (λ t. Sends project [] r t × (t.remaining ≡ r.remaining)) same
        (Sends-nil project r, refl)
  replay_turns-Sends (turn ∷ rest) r after h =
      let project = projector.replay_turn_diagnostic in
      elim (Result-cases (project turn)) [
        | inr (e, failed) ↦ absurd (ground arith)
        | inl (updates, e) ↦
            let mid : Replay U = record r { sent = r.sent ++ updates } in
            let (later, kept) =
              replay_turns-Sends rest mid after (rw (replay_turns, replay_turn, e) at h) in
            (
              Sends-append project (turn ∷ []) rest r mid after
                  (Sends-one project turn r mid updates e refl) later,
              kept,
            )
      ]

  replay_turn_page-Spends :
      (page : Snapshot) (r after : Replay U)
      → replay_turn_page projector page r ≡ (ok tt, after)
      → (found : List Value) × (rows page ≡ some found)
        × Spends projector.replay_turn_diagnostic found r after
  unfolding replay_turn_page
  replay_turn_page-Spends page r after h = elim (Result-cases (spend projector page r)) [
    | inr (e, failed) ↦ absurd (ground arith)
    | inl ((found, left), e) ↦
        let (there, cost, same) = spend-ok page r found left e in
        let (sends, kept) = replay_turns-Sends found left after (rw (replay_turn_page, e) at h) in
        (
          found,
          there,
          record {
            budget = omega (arith, cost, kept);
            sends = record {
              updates = sends.updates;
              projected = sends.projected;
              sent = sends.sent ∙ ap (λ us. us ++ sends.updates) same;
            };
          },
        )
  ]

  -- All pages were served, and their rows paid for and sent, in order.
  pub record IsReplayed (fetch : ℕ → Value → Result BackendError Snapshot) (limit : ℕ)
      (project : Value → Result E (List U)) (r after : Replay U) : Type (ℓ ⊔ κ) where
    pub pages : List Snapshot
    pub served : Served fetch 0 null pages
    pub enough : length pages ≤ limit
    pub found : List Value
    pub rows_found : all_rows pages ≡ some found
    pub spends : Spends project found r after

  module _ (max_replay_items : ℕ) (history : HistoryPages) where
    -- A thread whose items are replayed without an error has had every item of every page, each
    -- once and in order, turned into updates that are sent behind the earlier ones, and the budget
    -- has paid for exactly those items.
    pub replay_thread_items-IsReplayed :
        (root thread : String) (session : ℕ) (r after : Replay U)
        → replay_thread_items projector max_replay_items history root thread session r
          ≡ (ok tt, after)
        → IsReplayed
            (history.items thread)
            (rounds projector max_replay_items history)
            (row_updates root thread session)
            r
            after
    unfolding replay_thread_items
    replay_thread_items-IsReplayed root thread session r after h =
        let visit = replay_page projector root thread session in
        let limit = rounds projector max_replay_items history in
        let read = (paginate-eq-ok_iff (history.items thread) visit limit 0 null r after).0 h in
        let (found, there, spends) =
          visit_all-Spends (row_updates root thread session) visit
            (replay_page-Spends root thread session) read.pages r after read.visited in
        record {
          pages = read.pages;
          served = read.served;
          enough = read.enough;
          found = found;
          rows_found = there;
          spends = spends;
        }

    pub replay_turn_diagnostics-IsReplayed :
        (root : String) (r after : Replay U)
        → replay_turn_diagnostics projector max_replay_items history root r ≡ (ok tt, after)
        → IsReplayed
            (history.turns root)
            (rounds projector max_replay_items history)
            projector.replay_turn_diagnostic
            r
            after
    unfolding replay_turn_diagnostics
    replay_turn_diagnostics-IsReplayed root r after h =
        let visit = replay_turn_page projector in
        let limit = rounds projector max_replay_items history in
        let read = (paginate-eq-ok_iff (history.turns root) visit limit 0 null r after).0 h in
        let (found, there, spends) =
          visit_all-Spends projector.replay_turn_diagnostic visit replay_turn_page-Spends read.pages
            r after read.visited in
        record {
          pages = read.pages;
          served = read.served;
          enough = read.enough;
          found = found;
          rows_found = there;
          spends = spends;
        }
