-- ===== src/Server/History/Descendants/Grows.antt =====
-- src/server/history.rs: what a step of a replay may do to its budget and its updates.
use codex_acp_v.Backend.{BackendError, Snapshot}
use codex_acp_v.Server.History.{Replay, rounds, Projector}
use codex_acp_v.Server.Pages.{Ended, after_ok, paginate, next_cursor}
use codex_acp_v.Json.{Value, is_null, value_eq, at}
use codex_acp_v.Common.{
  ℕ, arith, Result, ◌≤◌, err, ◌++◌, [], List, sym, ◌≡◌, Result-cases, ok, ◌∙◌, append-nil, ap,
  append_assoc, suc, inr, inl, ◌+◌, Bool-cases, zero, flatten, All, All-append, ◌∷◌, length, String,
  length-append, refl,
}

-- The updates of one row of the history: of an item, an item of a descendant, or a turn.
pub data FromRow {ℓ κ} {E : Type ℓ} {U : Type κ} (projector : Projector E U) (updates : List U)
    : Type (ℓ ⊔ κ) where
  from_item :
      (row : Value) → projector.replay_item (at row "item") ≡ ok updates → FromRow projector updates
  from_child :
      (row : Value) (child : String)
      → projector.replay_child_item (at row "item") child ≡ ok updates
      → FromRow projector updates
  from_turn :
      (turn : Value)
      → projector.replay_turn_diagnostic turn ≡ ok updates
      → FromRow projector updates

-- What was sent behind the earlier updates are the updates of some rows, and the budget has paid for
-- as many rows at least.
pub record Grows {ℓ κ} {E : Type ℓ} {U : Type κ} (projector : Projector E U) (r after : Replay U)
    : Type (ℓ ⊔ κ) where
  pub batches : List (List U)
  pub from_rows : All (FromRow projector) batches
  pub paid : length batches + after.remaining ≤ r.remaining
  pub sent : after.sent ≡ r.sent ++ flatten batches

module _ {ℓ κ} {E : Type ℓ} {U : Type κ} (projector : Projector E U) where
  flatten-append : (xs ys : List (List U)) → flatten (xs ++ ys) ≡ flatten xs ++ flatten ys
  flatten-append [] ys = refl
  flatten-append (x ∷ xs) ys =
      ap (λ us. x ++ us) (flatten-append xs ys) ∙ sym (append_assoc x (flatten xs) (flatten ys))

  pub Grows-none :
      (r after : Replay U)
      → after.remaining ≤ r.remaining
      → after.sent ≡ r.sent
      → Grows projector r after
  Grows-none r after less same = record {
    batches = [];
    from_rows = tt;
    paid = omega (arith, less);
    sent = same ∙ sym (append-nil r.sent);
  }

  pub Grows-refl : (r : Replay U) → Grows projector r r
  Grows-refl r = Grows-none r r (omega arith) refl

  pub Grows-trans :
      (r mid after : Replay U)
      → Grows projector r mid
      → Grows projector mid after
      → Grows projector r after
  Grows-trans r mid after h h' = record {
    batches = h.batches ++ h'.batches;
    from_rows = All-append (FromRow projector) h.batches h'.batches h.from_rows h'.from_rows;
    paid = omega (arith, h.paid, h'.paid, length-append h.batches h'.batches);
    sent =
        h'.sent
        ∙ ap (λ us. us ++ flatten h'.batches) h.sent
        ∙ append_assoc r.sent (flatten h.batches) (flatten h'.batches)
        ∙ ap (λ us. r.sent ++ us) (sym (flatten-append h.batches h'.batches));
  }

-- A relation that each step keeps is kept by a chain of steps and by a loop.
module _ {ℓ κ κ'} {E : Type ℓ} {S : Type κ} (G : S → S → Type κ') (same : (s : S) → G s s)
    (trans : (a b c : S) → G a b → G b c → G a c) where
  pub after_ok_kept :
      (o : Ended E S) (next : S → Ended E S) (s : S)
      → G s o.1
      → ((t : S) → G t (next t).1)
      → G s (after_ok o next).1
  after_ok_kept (err e, t) next s h h' = h
  after_ok_kept (ok done, t) next s h h' = trans s t (next t).1 h (h' t)

  module _ (fetch : ℕ → Value → Result BackendError Snapshot) (visit : Snapshot → S → Ended E S)
      (step : (page : Snapshot) (s : S) → G s (visit page s).1) where
    pub paginate_kept :
        (rounds round : ℕ) (cursor : Value) (s : S)
        → G s (paginate fetch visit rounds round cursor s).1
    unfolding paginate
    paginate_kept zero round cursor s = same s
    paginate_kept (suc rounds) round cursor s = elim (Result-cases (fetch round cursor)) [
      | inr (e, failed) ↦ rw (paginate, failed) (same s)
      | inl (page, fetched) ↦
          let first = step page s in
          let later = paginate_kept rounds (round + 1) (next_cursor page) (visit page s).1 in
          let both = trans s (visit page s).1 _ first later in
          elim (Result-cases (visit page s).0) [
            | inr (e, failed) ↦ rw (paginate, fetched, failed) first
            | inl (done, visited) ↦ elim (Bool-cases (is_null (next_cursor page))) [
              | inl e ↦ rw (paginate, fetched, visited, e) first
              | inr e ↦ elim (Bool-cases (value_eq (next_cursor page) cursor)) [
                | inl e' ↦ rw (paginate, fetched, visited, e, e') first
                | inr e' ↦ rw (paginate, fetched, visited, e, e') both
              ]
            ]
          ]
    ]
