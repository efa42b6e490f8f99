-- ===== src/Server/History/Descendants/Reset.antt =====
-- src/server/history.rs, `reset_history`: the boundaries of a transcript that is sent anew.
use codex_acp_v.Server.Pages.{Ended, after_ok}
use codex_acp_v.Server.History.Replayed.{
  replay_thread_items-IsReplayed, replay_turn_diagnostics-IsReplayed, IsReplayed, row_updates,
}
use codex_acp_v.Server.History.Descendants.{
  reset_history, reset_content, replay, replay_within, as_replay, Walk, replay_descendants,
}
use codex_acp_v.Server.{State, SessionData}
use codex_acp_v.Json.{Value}
use codex_acp_v.Backend.{BackendError}
use codex_acp_v.Server.History.{
  Projector, HistoryPages, with_content, Replay, rounds, replay_thread_items, items_failed,
  replay_turn_diagnostics, turns_failed,
}
use codex_acp_v.Common.{
  ℕ, String, Result, ◌≡◌, ok, ◌+◌, ◌%◌, ◌^◌, ◌++◌, ◌∷◌, [], arith, ap, sym, err, refl,
}

next_revision :
    (session cutoff : ℕ) (s : State)
    → (((with_content session (reset_content cutoff) s).store session).content).history_revision
      ≡ (((s.store session).content).history_revision + 1) % 2 ^ 64
unfolding with_content
next_revision session cutoff s = ground arith

no_cutoffs :
    (session cutoff : ℕ) (s : State)
    → (((with_content session (reset_content cutoff) s).store session).content).snapshot_cutoffs
      ≡ []
unfolding with_content
no_cutoffs session cutoff s = ground arith

new_cutoff :
    (session cutoff : ℕ) (s : State)
    → (((with_content session (reset_content cutoff) s).store session).content).history_cutoff
      ≡ cutoff
unfolding with_content
new_cutoff session cutoff s = ground arith

after_ok-ok {ℓ κ} :
    {E : Type ℓ} {S : Type κ} (o : Ended E S) (next : S → Ended E S) (last : S)
    → after_ok o next ≡ (ok tt, last)
    → (o ≡ (ok tt, o.1)) × (next o.1 ≡ (ok tt, last))
after_ok-ok (err e, s) next last h = absurd (ground arith)
after_ok-ok (ok done, s) next last h = (refl, h)

as_replay-ok {ℓ ℓ' κ} :
    {E : Type ℓ} {F : Type ℓ'} {S : Type κ} (wrap : E → F) (o : Ended E S) (last : S)
    → as_replay wrap o ≡ (ok tt, last)
    → o ≡ (ok tt, last)
as_replay-ok wrap (err e, s) last h = absurd (ground arith)
as_replay-ok wrap (ok done, s) last h = ap (λ o. (ok tt, o.1)) h

-- The content with which a transcript starts anew.
pub record IsAnew (revision position : ℕ) (content : SessionData) : Type 0 where
  pub next_revision : content.history_revision ≡ revision
  pub no_cutoffs : content.snapshot_cutoffs ≡ []
  pub cutoff : content.history_cutoff ≡ position

module _ {ℓ κ} {E : Type ℓ} {U : Type κ} (projector : Projector E U) (max_replay_items : ℕ)
    (history : HistoryPages) (read : String → Result BackendError Value)
    (others : ℕ → State → State) where
  -- A replay from one state to another: the items of the session, the diagnostics of its turns, and
  -- its descendants.
  pub record IsWhole (root : String) (session : ℕ) (r after : Replay U) : Type (ℓ ⊔ κ) where
    pub own : Replay U
    pub items :
        IsReplayed projector
          (history.items root)
          (rounds projector max_replay_items history)
          (row_updates projector root root session)
          r
          own
    pub told : Replay U
    pub turns :
        IsReplayed projector
          (history.turns root)
          (rounds projector max_replay_items history)
          projector.replay_turn_diagnostic
          own
          told
    pub walk : Walk U
    pub descendants :
        replay_descendants projector max_replay_items history read others root session told
        ≡ (ok tt, walk)
    pub last : walk.replayed ≡ after

  replay_within-IsWhole :
      (root : String) (session : ℕ) (r after : Replay U)
      → replay_within projector max_replay_items history read others root session r ≡ (ok tt, after)
      → IsWhole root session r after
  unfolding replay_within
  replay_within-IsWhole root session r after h =
      let items = replay_thread_items projector max_replay_items history root root session r in
      let (first, next) = after_ok-ok (as_replay items_failed items) _ after h in
      let own = (as_replay items_failed items).1 in
      let turns = replay_turn_diagnostics projector max_replay_items history root own in
      let (second, rest) = after_ok-ok (as_replay turns_failed turns) _ after next in
      let told = (as_replay turns_failed turns).1 in
      let children =
        replay_descendants projector max_replay_items history read others root session told in
      record {
        own = own;
        items =
            replay_thread_items-IsReplayed projector max_replay_items history root root session r
              own (as_replay-ok items_failed items own first);
        told = told;
        turns =
            replay_turn_diagnostics-IsReplayed projector max_replay_items history root own told
              (as_replay-ok turns_failed turns told second);
        walk = children.1;
        descendants = ap (λ o. (o, children.1)) (ap (λ o. o.0) rest);
        last = ap (λ o. o.1) rest;
      }

  -- What a reset leaves of the transcript: its start, one replay, and its end.
  pub record IsReset (mark : ℕ → String → String → U) (root : String) (session : ℕ)
      (reason : String) (cutoff : ℕ) (r after : Replay U) : Type (ℓ ⊔ κ) where
    pub revision : ℕ
    pub next_one : revision ≡ (((r.server.store session).content).history_revision + 1) % 2 ^ 64
    pub opened : Replay U
    pub anew : IsAnew revision cutoff (opened.server.store session).content
    pub start : opened.sent ≡ r.sent ++ mark revision "start" reason ∷ []
    pub budget : opened.remaining ≡ max_replay_items
    pub done : Replay U
    pub replayed : IsWhole root session opened done
    pub complete : after.sent ≡ done.sent ++ mark revision "complete" reason ∷ []

  -- A reset that ends well has sent the start of the session's next revision; then, from a content
  -- with that revision, the new cutoff and no snapshots, and with the whole budget, one replay: every
  -- item of every page of the session, then every diagnostic of its turns, each once and in order,
  -- then what the descendants added; and then the end of that same revision.
  pub reset_history-IsReset :
      (mark : ℕ → String → String → U) (root : String) (session : ℕ) (reason : String) (cutoff : ℕ)
      (r after : Replay U)
      → reset_history projector max_replay_items history read others mark root session reason cutoff
          r
        ≡ (ok tt, after)
      → IsReset mark root session reason cutoff r after
  unfolding reset_history with_content replay
  reset_history-IsReset mark root session reason cutoff r after h =
      let server = with_content session (reset_content cutoff) r.server in
      let revision = ((server.store session).content).history_revision in
      let started : Replay U = record r {
        server = server;
        sent = r.sent ++ mark revision "start" reason ∷ [];
      } in
      let opened : Replay U = record started { remaining = max_replay_items } in
      let done = replay projector max_replay_items history read others root session started in
      let (finished, ended) = after_ok-ok done _ after h in
      record {
        revision = revision;
        next_one = next_revision session cutoff r.server;
        opened = opened;
        anew = record {
          next_revision = refl;
          no_cutoffs = no_cutoffs session cutoff r.server;
          cutoff = new_cutoff session cutoff r.server;
        };
        start = refl;
        budget = refl;
        done = done.1;
        replayed = replay_within-IsWhole root session opened done.1 finished;
        complete = sym (ap (λ o. o.1.sent) ended);
      }
