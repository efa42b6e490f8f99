-- ===== src/Server/Controls/Reconciled.antt =====
-- src/server/controls.rs, `set_config`: the options that a client sees for a value that it chose.
use codex_acp_v.Config.Patch.Accepted.{shown_option, find-current}
use codex_acp_v.Server.Controls.Applied.{
  KeepsPending, IsApplied, apply_thread_settings-IsApplied, reconcile_settings-ok,
}
use codex_acp_v.Config.Options.{options}
use codex_acp_v.Config.Patch.Shown.{shows}
use codex_acp_v.Config.Patch.Confirmed.{
  Asks, asks_sandbox, asks_mode, asks_model, asks_effort, asks_approval, asks_tier,
  settings_match-shows, patch-Asks,
}
use codex_acp_v.Config.Patch.{patch, value_id}
use codex_acp_v.Config.{ConfigOption, id_value}
use codex_acp_v.Config.Settings.{is_settings_noop, settings_match}
use codex_acp_v.Json.{Value, as_object, string, obj, members-fields}
use codex_acp_v.Server.{SessionData, Configuration}
use codex_acp_v.Server.Controls.{
  apply_thread_settings, Others, reconcile_settings, Wakeup, settings_of, set_config, is_current,
}
use codex_acp_v.Common.{
  List, ◌≡◌, ok, some, false, refl, true, arith, String, Bool-cases, inl, ap, inr, subst, ◌||◌,
  Result-cases, insert, contains, all, ◌⊎◌, not, ◌&&◌, ℕ, none, ◌∙◌, Option-cases, ok_injective,
  sym,
}

-- The id of the thread, which is added to a patch, is no setting.
settings_of-insert :
    {before : Configuration} {value id : String} {entries : List (String × Value)}
    (session_id : String)
    → Asks before value id entries
    → settings_of (insert entries "threadId" (string session_id)) ≡ entries
unfolding settings_of insert contains
settings_of-insert session_id asks_model = refl
settings_of-insert session_id asks_effort = refl
settings_of-insert session_id asks_approval = refl
settings_of-insert session_id asks_tier = refl
settings_of-insert session_id (asks_sandbox policy e) = refl
settings_of-insert session_id (asks_mode preset) = refl

-- The options show the chosen value, if any of them has the id.
abbrev pub ShowsValue : String → String → List ConfigOption → Type 0
ShowsValue id value shown = all (shows id value) shown ≡ true

-- No other task changes the settings at the points where the lock is let go and taken again. While
-- the request is sent and while its confirmation is waited for, it may.
abbrev pub KeepsSettings : Others → Type 0
KeepsSettings others =
    (n : ℕ) (content : SessionData)
    → (others.relocked n content).configuration ≡ content.configuration

abbrev ShowsEither : String → String → SessionData → SessionData → Type 0
ShowsEither id value first last =
    ShowsValue id value (options first.configuration)
    ⊎ ShowsValue id value (options last.configuration)

shows_either :
    (encode : ConfigOption → Value) (before : Configuration) (id value : String)
    (entries given : List (String × Value)) (first last : SessionData)
    → patch encode before id (id_value value) ≡ ok entries
    → settings_of given ≡ entries
    → IsApplied given first last
    → ShowsEither id value first last
unfolding is_settings_noop
shows_either encode before id value entries given first last patched same applied =
    let effect : (is_settings_noop first.configuration entries
          || settings_match last.configuration entries)
        ≡ true =
      subst
        (λ es.
          (is_settings_noop first.configuration es || settings_match last.configuration es) ≡ true)
        same applied.in_effect in
    elim (Bool-cases (settings_match last.configuration entries)) [
      | inl e ↦
          inr (settings_match-shows encode before last.configuration id value entries patched e)
      | inr e ↦
          let found : settings_match first.configuration entries ≡ true = ground arith in
          inl
            (settings_match-shows encode before first.configuration id value entries patched found)
    ]

-- A value that is accepted, and that all options of its id show, is current.
shown-is_current :
    (encode : ConfigOption → Value) (c : Configuration) (id value : String)
    (entries : List (String × Value))
    → patch encode c id (id_value value) ≡ ok entries
    → ShowsValue id value (options c)
    → is_current id (id_value value) (options c) ≡ true
unfolding patch value_id
shown-is_current encode c id value entries patched shown = elim (Option-cases (shown_option c id)) [
  | inl e ↦ absurd (ground arith)
  | inr (option, e) ↦ find-current (options c) id value option e shown
]

-- With no change marked, nothing is waited for.
reconcile_settings-unmarked :
    (waiting : List Wakeup) (content : SessionData)
    → content.pending_settings ≡ none
    → reconcile_settings waiting content ≡ (ok tt, content)
unfolding reconcile_settings
reconcile_settings-unmarked waiting content e = simp (reconcile_settings, e)

-- A client that is answered with success, for a value that no option of that id showed, gets options
-- that show the value wherever they have the id; if no other task touches the mark of the change, or
-- changes the settings at the points where the lock is let go and taken again.
pub set_config-ShowsValue :
    (encode : ConfigOption → Value) (waiting : List Wakeup) (others : Others)
    (keeps : KeepsPending others) (quiet : KeepsSettings others) (session_id id value : String)
    (content : SessionData) (shown : List ConfigOption)
    → is_current id (id_value value) (options (reconcile_settings waiting content).1.configuration)
      ≡ false
    → (set_config encode waiting others session_id id (id_value value) content).outcome ≡ ok shown
    → ShowsValue id value shown
unfolding set_config
set_config-ShowsValue encode waiting others keeps quiet session_id id value content shown fresh h =
    let ready = reconcile_settings waiting content in
    let seen = others.relocked 0 ready.1 in
    let current : is_current id (id_value value) (options seen.configuration) ≡ false =
      ap (λ c. is_current id (id_value value) (options c)) (quiet 0 ready.1) ∙ fresh in
    elim (Result-cases ready.0) [
      | inr (e, failed) ↦ absurd (ground arith)
      | inl (done, e) ↦ elim (Bool-cases (not (seen.is_open && not seen.closing))) [
        | inl closed ↦ absurd (ground arith)
        | inr free ↦ elim (Result-cases (patch encode seen.configuration id (id_value value))) [
          | inr (error, failed) ↦ absurd (ground arith)
          | inl (entries, patched) ↦
              let given = insert entries "threadId" (string session_id) in
              let change = apply_thread_settings others (obj given) seen in
              elim (Result-cases change.outcome) [
                | inr (error, failed) ↦ absurd (ground arith)
                | inl (response, answered) ↦
                    let named : as_object (obj given) ≡ some given =
                      ap some (members-fields given) in
                    let asks = patch-Asks encode seen.configuration id value entries patched in
                    let whole : ready ≡ (ok tt, ready.1) = ap (λ o. (o, ready.1)) e in
                    let clear : (others.relocked 1 seen).pending_settings ≡ none =
                      keeps.relocked 1 seen
                      ∙ keeps.relocked 0 ready.1
                      ∙ (reconcile_settings-ok waiting content ready.1 whole).0 in
                    let again =
                      reconcile_settings-unmarked others.before (others.relocked 1 seen) clear in
                    let noting =
                      others.relocked 2
                        (reconcile_settings others.before (others.relocked 1 seen)).1 in
                    let same : noting.configuration ≡ seen.configuration =
                      quiet 2 (reconcile_settings others.before (others.relocked 1 seen)).1
                      ∙ ap (λ o. o.1.configuration) again
                      ∙ quiet 1 seen in
                    let applied =
                      (apply_thread_settings-IsApplied others keeps (obj given) response given seen
                        named answered).1 in
                    let chosen : ShowsEither id value noting change.content =
                      shows_either encode seen.configuration id value entries given noting
                        change.content patched (settings_of-insert session_id asks) applied in
                    let last = others.relocked 3 change.content in
                    let told : options last.configuration ≡ shown =
                      ok_injective (rw (set_config, e, free, current, patched, answered) at h) in
                    subst (ShowsValue id value) (ap options (sym (quiet 3 change.content)) ∙ told)
                      (elim chosen [
                        | inr after ↦ after
                        | inl before ↦
                            let at_seen =
                              subst (λ c. ShowsValue id value (options c)) same before in
                            let contrary =
                              shown-is_current encode seen.configuration id value entries patched
                                at_seen in
                            absurd (ground arith)
                      ])
              ]
        ]
      ]
    ]
