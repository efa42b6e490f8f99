-- ===== src/Server/History/Spends.antt =====
-- src/server/history.rs: the updates of some rows, and what is paid for them.
use codex_acp_v.Server.Pages.Served.{visit_all, visit_all-cons}
use codex_acp_v.Server.Pages.Models.{rows, all_rows}
use codex_acp_v.Server.Pages.{Ended}
use codex_acp_v.Server.History.{Replay, HistoryError}
use codex_acp_v.Backend.{Snapshot}
use codex_acp_v.Json.{Value}
use codex_acp_v.Common.{
  Result, List, ◌≡◌, ok, [], ◌∷◌, length, ◌++◌, ◌>>=◌, ◌∙◌, sym, ◌+◌, arith, ap, length-append,
  append-nil, ok_injective, some, refl, append_assoc, >>=-ok_inversion, subst,
}

module _ {ℓ κ} {E : Type ℓ} {U : Type κ} (project : Value → Result E (List U)) where
  -- The updates of all rows, in order.
  abbrev pub project_all : List Value → Result E (List U)
  project_all [] = ok []
  project_all (row ∷ rest) = do here ← project row; later ← project_all rest; ok (here ++ later)

  -- The updates of the rows are sent behind those that were.
  pub record Sends (found : List Value) (r after : Replay U) : Type (ℓ ⊔ κ) where
    pub updates : List U
    pub projected : project_all found ≡ ok updates
    pub sent : after.sent ≡ r.sent ++ updates

  pub Sends-nil : (r : Replay U) → Sends [] r r
  Sends-nil r = record { updates = []; projected = refl; sent = sym (append-nil r.sent) }

  pub Sends-one :
      (row : Value) (r after : Replay U) (updates : List U)
      → project row ≡ ok updates
      → after.sent ≡ r.sent ++ updates
      → Sends (row ∷ []) r after
  Sends-one row r after updates e h = record {
    updates = updates ++ [];
    projected = rw (e, project_all) refl;
    sent = h ∙ ap (λ us. r.sent ++ us) (sym (append-nil updates));
  }

  project_all-append :
      (xs ys : List Value) (us ws : List U)
      → project_all xs ≡ ok us
      → project_all ys ≡ ok ws
      → project_all (xs ++ ys) ≡ ok (us ++ ws)
  project_all-append [] ys us ws h h' = h' ∙ ap (λ vs. ok (vs ++ ws)) (ok_injective h)
  project_all-append (x ∷ xs) ys us ws h h' =
      let (here, first, next) = >>=-ok_inversion (project x) _ h in
      let (later, second, last) = >>=-ok_inversion (project_all xs) _ next in
      let rest = project_all-append xs ys later ws second h' in
      rw (project_all, first, rest)
        (ap ok (sym (append_assoc here later ws) ∙ ap (λ vs. vs ++ ws) (ok_injective last)))

  pub Sends-append :
      (xs ys : List Value) (r mid after : Replay U)
      → Sends xs r mid
      → Sends ys mid after
      → Sends (xs ++ ys) r after
  Sends-append xs ys r mid after h h' = record {
    updates = h.updates ++ h'.updates;
    projected = project_all-append xs ys h.updates h'.updates h.projected h'.projected;
    sent = h'.sent ∙ ap (λ us. us ++ h'.updates) h.sent ∙ append_assoc r.sent h.updates h'.updates;
  }

  -- The rows are paid for, and sent.
  pub record Spends (found : List Value) (r after : Replay U) : Type (ℓ ⊔ κ) where
    pub budget : length found + after.remaining ≡ r.remaining
    pub sends : Sends found r after

  Spends-append :
      (xs ys : List Value) (r mid after : Replay U)
      → Spends xs r mid
      → Spends ys mid after
      → Spends (xs ++ ys) r after
  Spends-append xs ys r mid after h h' = record {
    budget = omega (arith, length-append xs ys, h.budget, h'.budget);
    sends = Sends-append xs ys r mid after h.sends h'.sends;
  }

  module _ (visit : Snapshot → Replay U → Ended (HistoryError E) (Replay U))
      (law : (page : Snapshot) (r after : Replay U)
        → visit page r ≡ (ok tt, after)
        → (found : List Value) × (rows page ≡ some found) × Spends found r after) where
    pub visit_all-Spends :
        (pages : List Snapshot) (r after : Replay U)
        → visit_all visit pages r ≡ (ok tt, after)
        → (found : List Value) × (all_rows pages ≡ some found) × Spends found r after
    unfolding visit_all
    visit_all-Spends [] r after h =
        let same : r ≡ after = ap (λ o. o.1) h in
        ([], refl, subst (Spends [] r) same (record { budget = omega arith; sends = Sends-nil r }))
    visit_all-Spends (page ∷ pages) r after h =
        let (mid, first, rest) = visit_all-cons visit page pages r after h in
        let (here, there, spent) = law page r mid first in
        let (later, there', spent') = visit_all-Spends pages mid after rest in
        (
          here ++ later,
          rw (there, there', all_rows) refl,
          Spends-append here later r mid after spent spent',
        )
