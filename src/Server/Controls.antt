-- ===== src/Server/Controls.antt =====
-- src/server/controls.rs: the changes of a session's settings, which the backend confirms later by a
-- notification. The operations on the data of one session are stated on it; `waiting` is what the
-- other tasks leave of it at each wake-up until the wait ends, by its time-out at the latest.
pub mod Applied
pub mod Reconciled
pub mod Cancel
mod Tests
use codex_acp_v.Config.Patch.{value_id, patch}
use codex_acp_v.Config.Options.{options}
use codex_acp_v.Config.Settings.{is_settings_noop, settings_match}
use codex_acp_v.Config.{ConfigError, OptionValue, ConfigOption}
use codex_acp_v.Server.{PendingSettings, SessionData}
use codex_acp_v.Backend.{BackendError, rpc}
use codex_acp_v.Json.{Value, as_object, obj, string}
use codex_acp_v.Common.{
  ℕ, String, List, Result, none, ◌>>=◌, filter, Option, Bool, err, ◌∷◌, ok, if◌then◌else◌, or_fail,
  [], contains, ltb, ◌&&◌, some, is_some_and, not, any, ◌==◌, insert,
}

pub data ControlError : Type 0 where
  not_object : ControlError
  settings_timeout : ControlError
  settings_disconnected : String → ControlError
  control_backend : BackendError → ControlError
  control_closed : ControlError
  control_config : ConfigError → ControlError

-- The settings that a patch may change, of which the backend tells.
abbrev pub setting_keys : List String
setting_keys =
    "cwd" ∷ "approvalPolicy" ∷ "approvalsReviewer" ∷ "sandboxPolicy" ∷ "permissions" ∷ "model"
    ∷ "serviceTier" ∷ "effort" ∷ "summary" ∷ "collaborationMode" ∷ "personality" ∷ []

unfoldable pub settings_of : List (String × Value) → List (String × Value)
settings_of entries = filter (λ entry. contains setting_keys entry.0) entries

-- A change that has an effect is noted with the generation it must go beyond.
unfoldable pub record_settings_change : Value → SessionData → Result ControlError SessionData
record_settings_change params content = do
  entries ← or_fail (as_object params) not_object
  let settings = settings_of entries
  ok (
      if is_settings_noop content.configuration settings then content else record content {
        pending_settings =
            some (record { generation = content.settings_generation; patch = settings });
      })

-- A later generation that matches the patch.
abbrev pub is_confirmed : PendingSettings → SessionData → Bool
is_confirmed pending content =
    ltb pending.generation content.settings_generation
    && settings_match content.configuration pending.patch

-- What a wake-up finds: the data, and the message of a disconnection.
abbrev pub Wakeup : Type 0
Wakeup = SessionData × Option String

abbrev settled : SessionData → SessionData
settled content = record content { pending_settings = none }

-- The rounds of the wait, the last of which is followed by its time-out. `data` is what was last seen.
unfoldable pub await_settings :
    PendingSettings → SessionData → List Wakeup → Result ControlError (Unit {0}) × SessionData
await_settings pending content [] = (err settings_timeout, content)
await_settings pending content ((seen, disconnected) ∷ rest) =
    let later = await_settings pending seen rest in
    if is_confirmed pending seen then (ok tt, settled seen) else elim disconnected [
      | some message ↦ (err (settings_disconnected message), seen)
      | none ↦ later
    ]

unfoldable pub reconcile_settings :
    List Wakeup → SessionData → Result ControlError (Unit {0}) × SessionData
reconcile_settings waiting content = elim content.pending_settings [
  | none ↦ (ok tt, content)
  | some pending ↦ await_settings pending content waiting
]

-- What the other tasks do during a change: at the two waits, while the request is sent, and at each
-- point where the lock of the data is let go and taken again.
pub record Others : Type 0 where
  pub before : List Wakeup
  pub sending : Value → SessionData → Result BackendError Value × SessionData
  pub after : List Wakeup
  pub relocked : ℕ → SessionData → SessionData

-- How a change ends: its outcome, the data, and the requests that were sent.
pub record Change (A : Type 0) : Type 0 where
  pub outcome : Result ControlError A
  pub content : SessionData
  pub requests : List Value

-- Only the refusal of the request forgets the change: after another error it may be queued still.
abbrev pub forget_refused : BackendError → SessionData → SessionData
forget_refused (rpc failure) content = settled content
forget_refused failure content = content

module _ (others : Others) where
  unfoldable pub send_settings : Value → SessionData → Change Value
  send_settings params content =
      let (reply, answered) = others.sending params content in
      elim reply [
        | err failure ↦ record {
          outcome = err (control_backend failure);
          content = forget_refused failure answered;
          requests = params ∷ [];
        }
        | ok response ↦
            let (confirmed, later) = reconcile_settings others.after answered in
            record {
              outcome = elim confirmed [ err e ↦ err e | ok done ↦ ok response ];
              content = later;
              requests = params ∷ [];
            }
      ]

  unfoldable pub apply_thread_settings : Value → SessionData → Change Value
  apply_thread_settings params content =
      let (ready, seen) = reconcile_settings others.before (others.relocked 1 content) in
      elim ready [
        | err e ↦ record { outcome = err e; content = seen; requests = [] }
        | ok done ↦ elim (record_settings_change params (others.relocked 2 seen)) [
          | err e ↦ record { outcome = err e; content = others.relocked 2 seen; requests = [] }
          | ok noted ↦ send_settings params noted
        ]
      ]

-- An option that shows the value already.
abbrev pub is_current : String → OptionValue → List ConfigOption → Bool
is_current id choice shown =
    is_some_and (value_id choice)
      (λ value. any (λ option. option.config_id == id && option.current_value == value) shown)

-- `session_id` is the id of the session. `waiting` belongs to the reconciliation that comes first.
unfoldable pub set_config :
    (ConfigOption → Value)
    → List Wakeup
    → Others
    → String
    → String
    → OptionValue
    → SessionData
    → Change (List ConfigOption)
set_config encode waiting others session_id id choice content =
    let (ready, reconciled) = reconcile_settings waiting content in
    let seen = others.relocked 0 reconciled in
    let shown = options seen.configuration in
    let failed : ControlError → Change (List ConfigOption) =
      λ e. record { outcome = err e; content = seen; requests = [] } in
    elim ready [
      | err e ↦ record { outcome = err e; content = reconciled; requests = [] }
      | ok done ↦
          if not (seen.is_open && not seen.closing)
          then failed control_closed
          else if is_current id choice shown
          then record { outcome = ok shown; content = seen; requests = [] }
          else elim (patch encode seen.configuration id choice) [
            | err e ↦ failed (control_config e)
            | ok entries ↦
                let params = obj (insert entries "threadId" (string session_id)) in
                let change = apply_thread_settings others params seen in
                let last = others.relocked 3 change.content in
                record {
                  outcome = elim change.outcome [
                    | err e ↦ err e
                    | ok response ↦ ok (options last.configuration)
                  ];
                  content = last;
                  requests = change.requests;
                }
          ]
    ]
