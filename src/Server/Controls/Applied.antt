-- ===== src/Server/Controls/Applied.antt =====
-- src/server/controls.rs: a change of the settings that is sent, and the wait for its confirmation.
use codex_acp_v.Config.Settings.{is_settings_noop, settings_match}
use codex_acp_v.Json.{Value, as_object}
use codex_acp_v.Server.{PendingSettings, SessionData}
use codex_acp_v.Server.Controls.{
  apply_thread_settings, Others, await_settings, reconcile_settings, Wakeup, ControlError,
  is_confirmed, settings_timeout, send_settings, record_settings_change, settled, settings_of,
  settings_disconnected,
}
use codex_acp_v.Common.{
  [], ◌∷◌, none, List, ◌≡◌, ok, All, some, none, [], err, false, refl, true, arith, Option-cases,
  is_none_or, String, Bool-cases, inl, ap, inr, subst, ◌||◌, Result-cases, ok_injective, sym, ◌∙◌,
  ℕ,
}

-- The mark of a change is the business of the one task that holds the gate of the session.
pub record KeepsPending (others : Others) : Type 0 where
  pub relocked :
      (n : ℕ) (content : SessionData)
      → (others.relocked n content).pending_settings ≡ content.pending_settings
  pub sending :
      (params : Value) (content : SessionData)
      → (others.sending params content).1.pending_settings ≡ content.pending_settings

-- Each wake-up before a confirmation.
abbrev pub NeverConfirmed : PendingSettings → List Wakeup → Type 0
NeverConfirmed pending waiting = All (λ seen. is_confirmed pending seen.0 ≡ false) waiting

await_settings-ok :
    (pending : PendingSettings) (content after : SessionData) (waiting : List Wakeup)
    → await_settings pending content waiting ≡ (ok tt, after)
    → (after.pending_settings ≡ none) × (is_confirmed pending after ≡ true)
unfolding await_settings
await_settings-ok pending content after [] h = absurd (ground arith)
await_settings-ok pending content after ((seen, disconnected) ∷ rest) h =
    elim (Bool-cases (is_confirmed pending seen)) [
      | inl e ↦
          let same : settled seen ≡ after = ap (λ o. o.1) (rw (await_settings, e) at h) in
          subst (λ t. (t.pending_settings ≡ none) × (is_confirmed pending t ≡ true)) same (refl, e)
      | inr e ↦ elim (Option-cases disconnected) [
        | inl quiet ↦ await_settings-ok pending seen after rest (rw (await_settings, e, quiet) at h)
        | inr (message, gone) ↦ absurd (ground arith)
      ]
    ]

await_settings-blocked :
    (pending : PendingSettings) (content : SessionData) (waiting : List Wakeup)
    → NeverConfirmed pending waiting
    → (e : ControlError) × ((await_settings pending content waiting).0 ≡ err e)
unfolding await_settings
await_settings-blocked pending content [] h = (settings_timeout, refl)
await_settings-blocked pending content ((seen, disconnected) ∷ rest) (h, later) =
    elim (Option-cases disconnected) [
      | inl quiet ↦ rw (await_settings, h, quiet) (await_settings-blocked pending seen rest later)
      | inr (message, gone) ↦ rw (await_settings, h, gone) (settings_disconnected message, refl)
    ]

-- While a change that is marked when the lock is taken is not confirmed, by no later generation that
-- matches it, no other is sent: a request for one fails and leaves no request.
pub apply_thread_settings-blocked :
    (others : Others) (params : Value) (content : SessionData) (pending : PendingSettings)
    → (others.relocked 1 content).pending_settings ≡ some pending
    → NeverConfirmed pending others.before
    → (apply_thread_settings others params content).requests ≡ []
      × ((e : ControlError) × ((apply_thread_settings others params content).outcome ≡ err e))
unfolding apply_thread_settings reconcile_settings
apply_thread_settings-blocked others params content pending marked never =
    let (e, failed) =
      await_settings-blocked pending (others.relocked 1 content) others.before never in
    rw (apply_thread_settings, reconcile_settings, marked, failed) (refl, (e, refl))

pub reconcile_settings-ok :
    (waiting : List Wakeup) (content after : SessionData)
    → reconcile_settings waiting content ≡ (ok tt, after)
    → (after.pending_settings ≡ none)
      × is_none_or content.pending_settings (λ pending. is_confirmed pending after) ≡ true
unfolding reconcile_settings
reconcile_settings-ok waiting content after h = elim (Option-cases content.pending_settings) [
  | inl e ↦
      let same : content ≡ after = ap (λ o. o.1) (rw (reconcile_settings, e) at h) in
      (subst (λ t. t.pending_settings ≡ none) same e, rw e refl)
  | inr (pending, e) ↦
      let (gone, confirmed) =
        await_settings-ok pending content after waiting (rw (reconcile_settings, e) at h) in
      (gone, rw e confirmed)
]

-- The change had no effect on the settings it was asked for, or the settings match it in the end.
pub record IsApplied (entries : List (String × Value)) (seen after : SessionData) : Type 0 where
  pub unmarked : after.pending_settings ≡ none
  pub in_effect :
      (is_settings_noop seen.configuration (settings_of entries)
        || settings_match after.configuration (settings_of entries))
      ≡ true

noted_mark :
    (params : Value) (entries : List (String × Value)) (seen noted : SessionData)
    → is_settings_noop seen.configuration (settings_of entries) ≡ false
    → as_object params ≡ some entries
    → record_settings_change params seen ≡ ok noted
    → noted.pending_settings
      ≡ some (record { generation = seen.settings_generation; patch = settings_of entries })
unfolding record_settings_change
noted_mark params entries seen noted effect named recorded =
    let same = ok_injective (rw (record_settings_change, named, effect) at recorded) in
    sym (ap (λ t. t.pending_settings) same)

module _ (others : Others) (keeps : KeepsPending others) where
  send_settings-IsApplied :
      (params response : Value) (entries : List (String × Value)) (seen noted : SessionData)
      → seen.pending_settings ≡ none
      → as_object params ≡ some entries
      → record_settings_change params seen ≡ ok noted
      → (send_settings others params noted).outcome ≡ ok response
      → IsApplied entries seen (send_settings others params noted).content
  unfolding send_settings record_settings_change
  send_settings-IsApplied params response entries seen noted clear named recorded h =
      let answered = (others.sending params noted).1 in
      let waited = reconcile_settings others.after answered in
      elim (Result-cases (others.sending params noted).0) [
        | inr (failure, refused) ↦ absurd (ground arith)
        | inl (reply, replied) ↦ elim (Result-cases waited.0) [
          | inr (e, failed) ↦ absurd (ground arith)
          | inl (done, ended) ↦
              let whole : waited ≡ (ok tt, waited.1) = ap (λ o. (o, waited.1)) ended in
              let (gone, confirmed) = reconcile_settings-ok others.after answered waited.1 whole in
              rw (send_settings, replied)
                (record {
                  unmarked = gone;
                  in_effect =
                      elim (Bool-cases
                        (is_settings_noop seen.configuration (settings_of entries))) [
                          | inl noop ↦ rw noop refl
                          | inr effect ↦
                              let mark : PendingSettings = record {
                                generation = seen.settings_generation;
                                patch = settings_of entries;
                              } in
                              let kept : answered.pending_settings ≡ some mark =
                                keeps.sending params noted
                                ∙ noted_mark params entries seen noted effect named recorded in
                              let last : is_confirmed mark waited.1 ≡ true =
                                subst
                                  (λ o.
                                    is_none_or o (λ pending. is_confirmed pending waited.1) ≡ true)
                                  kept confirmed in
                              ground arith
                        ];
                })
        ]
      ]

  requests_sent :
      (params : Value) (noted : SessionData)
      → (send_settings others params noted).requests ≡ params ∷ []
  unfolding send_settings
  requests_sent params noted = elim (Result-cases (others.sending params noted).0) [
    | inr (failure, refused) ↦ rw (send_settings, refused) refl
    | inl (reply, replied) ↦ rw (send_settings, replied) refl
  ]

  -- If no other task touches the mark: a change that is answered with success has been sent once, is
  -- no longer marked, and is in effect:
  -- it asked for what the settings were when it was sent, or a later report of the settings matches
  -- it.
  pub apply_thread_settings-IsApplied :
      (params response : Value) (entries : List (String × Value)) (content : SessionData)
      → as_object params ≡ some entries
      → (apply_thread_settings others params content).outcome ≡ ok response
      → (apply_thread_settings others params content).requests ≡ params ∷ []
        × IsApplied entries
            (others.relocked 2 (reconcile_settings others.before (others.relocked 1 content)).1)
            (apply_thread_settings others params content).content
  unfolding apply_thread_settings
  apply_thread_settings-IsApplied params response entries content named h =
      let locked = others.relocked 1 content in
      let ready = reconcile_settings others.before locked in
      let noting = others.relocked 2 ready.1 in
      elim (Result-cases ready.0) [
        | inr (e, failed) ↦ absurd (ground arith)
        | inl (done, e) ↦ elim (Result-cases (record_settings_change params noting)) [
          | inr (error, failed) ↦ absurd (ground arith)
          | inl (noted, recorded) ↦
              let whole : ready ≡ (ok tt, ready.1) = ap (λ o. (o, ready.1)) e in
              let clear =
                keeps.relocked 2 ready.1
                ∙ (reconcile_settings-ok others.before locked ready.1 whole).0 in
              let sent = rw (apply_thread_settings, e, recorded) at h in
              rw (apply_thread_settings, e, recorded)
                (
                  requests_sent params noted,
                  send_settings-IsApplied params response entries noting noted clear named recorded
                      sent,
                )
        ]
      ]
