-- ===== src/Server/Notifications/Isolated.antt =====
-- src/server/events.rs, `notification`: the sessions that a notification leaves alone.
use codex_acp_v.Server.Delivery.{thread_of}
use codex_acp_v.Server.History.Descendants.Elsewhere.{
  with_content_elsewhere, reset_history_elsewhere,
}
use codex_acp_v.Server.History.Descendants.Grows.{after_ok_kept}
use codex_acp_v.Backend.{BackendError}
use codex_acp_v.Server.Notifications.Handler.{
  Notified, dismiss, revert, deliver_in, reset_sent, in_session, nothing_sent, send_raw,
  handle_owned, wants_raw_event, reset_reverted,
}
use codex_acp_v.Server.History.{ReplayError, with_content, Projector, HistoryPages}
use codex_acp_v.Server.Pages.{Ended}
use codex_acp_v.Server.{State}
use codex_acp_v.Json.{Value, get}
use codex_acp_v.Server.Notifications.{Projection, deliver}
use codex_acp_v.Common.{
  ℕ, String, List, ◌≢◌, ◌≡◌, Bool-cases, Option, ◌∙◌, refl, arith, ◌==◌, inr, Result-cases, inl,
  Option-cases, false, Result, not, err, ok, ◌&&◌, Bool, is_some_and, true, some, lookup, nat_eq,
  ◌⊎◌, ◌||◌, [], ap,
}

module _ {ℓ κ} {E : Type ℓ} {U : Type κ} (projection : Projection E U) (show : Value → String)
    (reset : String → ℕ → ℕ → State → Ended (ReplayError E) (List U × State)) (unreset : U)
    (session elsewhere : ℕ) (apart : elsewhere ≢ session)
    (resets : (id : String) (sequence : ℕ) (s : State)
      → (reset id session sequence s).1.1.store elsewhere ≡ s.store elsewhere) where
  abbrev Alone : Notified U → Notified U → Type 0
  Alone n after = after.server.store elsewhere ≡ n.server.store elsewhere

  Alone-refl : (n : Notified U) → Alone n n
  Alone-refl n = refl

  Alone-trans : (a b c : Notified U) → Alone a b → Alone b c → Alone a c
  Alone-trans a b c h h' = h' ∙ h

  dismiss-Alone :
      (method : String) (params : Value) (n : Notified U)
      → Alone n (dismiss projection show reset unreset method params n).1
  unfolding dismiss
  dismiss-Alone method params n = elim (Bool-cases (method == "serverRequest/resolved")) [
    | inr e ↦ rw (dismiss, e) refl
    | inl e ↦ elim (Option-cases (get "requestId" params)) [
      | inl absent ↦ rw (dismiss, e, absent) refl
      | inr (id, found) ↦ rw (dismiss, e, found) refl
    ]
  ]

  reset_sent-Alone :
      (n : Notified U) (o : Ended (ReplayError E) (List U × State))
      → o.1.1.store elsewhere ≡ n.server.store elsewhere
      → Alone n (reset_sent projection show reset unreset n o).1
  reset_sent-Alone n (err e, (updates, server)) h = h
  reset_sent-Alone n (ok done, (updates, server)) h = h

  deliver_in-Alone :
      (id : String) (thread : Option String) (method : String) (params : Value) (sequence : ℕ)
      (n : Notified U)
      → Alone n
          (deliver_in projection show reset unreset id session thread method params sequence n).1
  unfolding deliver_in
  deliver_in-Alone id thread method params sequence n =
      let delivered =
        deliver projection id thread method params sequence (n.server.store session).content in
      let kept = with_content_elsewhere session elsewhere (λ old. delivered.1) n.server apart in
      elim (Result-cases delivered.0) [
        | inr (e, failed) ↦ rw (deliver_in, failed) kept
        | inl (updates, e) ↦ rw (deliver_in, e) kept
      ]

  revert-Alone :
      (id : String) (thread : Option String) (method : String) (sequence : ℕ) (n : Notified U)
      → Alone n (revert projection show reset unreset id session thread method sequence n).1
  unfolding revert
  revert-Alone id thread method sequence n =
      let taken =
        with_content session (λ content. record content { reconciled_revert_notification = false })
          n.server in
      let kept =
        with_content_elsewhere session elsewhere
          (λ content. record content { reconciled_revert_notification = false }) n.server apart in
      let other_cause =
        not (method == "thread/reverted" && is_some_and thread (λ own. own == id)) in
      let reconciled = ((n.server.store session).content).reconciled_revert_notification in
      let wanted = is_some_and taken.negotiation (λ negotiation. negotiation.session_reset) in
      elim (Bool-cases other_cause) [
        | inl e ↦ rw (revert, e) refl
        | inr e ↦ elim (Bool-cases reconciled) [
          | inl e' ↦ rw (revert, e, e') kept
          | inr e' ↦ elim (Bool-cases wanted) [
            | inr e'' ↦ rw (revert, e, e', e'') kept
            | inl e'' ↦
                let sent =
                  reset_sent-Alone n (reset id session sequence taken)
                    (resets id sequence taken ∙ kept) in
                rw (revert, e, e', e'') sent
          ]
        ]
      ]

  in_session-Alone :
      (id : String) (thread : Option String) (method : String) (params : Value) (sequence : ℕ)
      (s : State)
      → Alone
          (nothing_sent s)
          (in_session projection show reset unreset id session thread method params sequence s).1
  unfolding in_session
  in_session-Alone id thread method params sequence s =
      after_ok_kept Alone Alone-refl Alone-trans
        (dismiss projection show reset unreset method params (nothing_sent s)) _ (nothing_sent s)
        (dismiss-Alone method params (nothing_sent s))
        (λ n.
          after_ok_kept Alone Alone-refl Alone-trans
            (revert projection show reset unreset id session thread method sequence n)
            (deliver_in projection show reset unreset id session thread method params sequence) n
            (revert-Alone id thread method sequence n)
            (deliver_in-Alone id thread method params sequence))

module _ {ℓ κ} {E : Type ℓ} {U : Type κ} (projection : Projection E U) (show : Value → String)
    (unreset : U) (projector : Projector E U) (max_replay_items : ℕ) (history : HistoryPages)
    (mark : ℕ → String → String → U) (read : String → Result BackendError Value)
    (others : ℕ → State → State) (allow_host_methods : Bool) where
  send_raw_elsewhere :
      (wanted : Bool) (owner : Option String) (method : String) (params : Value) (n : Notified U)
      → (send_raw wanted owner method params n).server ≡ n.server
  unfolding send_raw
  send_raw_elsewhere true owner method params n = refl
  send_raw_elsewhere false owner method params n = refl

  -- A notification changes no session but its own, also where it fails and where it starts the replay
  -- of a replaced history, provided that other tasks do not change that session while the owner of a
  -- descendant is looked up; and if its own session is closed, or is no longer the one registered
  -- under its id, it changes nothing and sends nothing.
  pub handle_owned-Alone :
      (session elsewhere : ℕ)
      → elsewhere ≢ session
      → ((n : ℕ) (s : State) → (others n s).store elsewhere ≡ s.store elsewhere)
      → (id : String) (method : String) (params : Value) (sequence : ℕ) (s : State)
      → ((handle_owned projection show unreset projector max_replay_items history mark read others
              allow_host_methods
              (some id)
              (some session)
              method
              params
              sequence
              s).1.server.store
            elsewhere
          ≡ s.store elsewhere)
        × (((((s.store session).content).is_open
                && is_some_and (lookup s.sessions id) (nat_eq session))
              ≡ true)
            ⊎ (handle_owned projection show unreset projector max_replay_items history mark read
                  others allow_host_methods
                  (some id)
                  (some session)
                  method
                  params
                  sequence
                  s
                ≡ (ok tt, nothing_sent s)))
  unfolding handle_owned reset_reverted
  handle_owned-Alone session elsewhere apart spares id method params sequence s =
      let is_open = ((s.store session).content).is_open in
      let is_registered = is_some_and (lookup s.sessions id) (nat_eq session) in
      let thread = thread_of params in
      let wanted = wants_raw_event allow_host_methods method thread (some session) s in
      let reset =
        reset_reverted projection show unreset projector max_replay_items history mark read others
          allow_host_methods in
      let resets : (id : String) (sequence : ℕ) (s : State)
          → (reset id session sequence s).1.1.store elsewhere ≡ s.store elsewhere =
        λ id sequence s.
          reset_history_elsewhere read others elsewhere spares projector max_replay_items history
            session apart mark id "thread/reverted" sequence
            (record { server = s; remaining = max_replay_items; sent = [] }) in
      elim (Bool-cases (not is_open || not is_registered)) [
        | inl gone ↦ rw (handle_owned, gone) (refl, inr refl)
        | inr there ↦ (
          rw (handle_owned, there)
              (after_ok_kept (Alone projection show reset unreset session elsewhere apart resets)
                (λ n. refl) (λ a b c h h'. h' ∙ h)
                (in_session projection show reset unreset id session thread method params sequence
                  s)
                _ (nothing_sent s)
                (in_session-Alone projection show reset unreset session elsewhere apart resets id
                  thread method params sequence s)
                (λ n.
                  ap (λ t. t.store elsewhere)
                    (send_raw_elsewhere wanted (some id) method params n))),
          inl (ground arith),
        )
      ]
