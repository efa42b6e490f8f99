-- ===== src/Server/Notifications.antt =====
-- src/server/events.rs, `notification`: what a notification of the backend changes in its session,
-- and what the client is sent for it. What the projector makes of it is a parameter.
pub mod Contents
pub mod Settings
pub mod Handler
pub mod Isolated
mod Tests
use codex_acp_v.Server.History.{ReplayError}
use codex_acp_v.Config.Options.{options}
use codex_acp_v.Config.{ConfigOption}
use codex_acp_v.Server.Ownership.{child_item_id, OwnershipError}
use codex_acp_v.Config.Threads.{insert_named}
use codex_acp_v.Json.{Value, get, get_str, null, as_object, obj, at}
use codex_acp_v.Server.{SessionData}
use codex_acp_v.Common.{
  ℕ, String, List, unwrap_or, Option, if◌then◌else◌, ◌∷◌, and_then, [], leb, or_else, none, lookup,
  keep_if, Bool, not, contains, some, ◌==◌, ◌&&◌, insert, ◌||◌, is_some_and, Result, true, ◌+◌, err,
  false, ok, ◌%◌, ◌>>=◌, ◌^◌, ◌++◌, or_fail,
}
use mathlib.Core.Option

-- The methods whose items a snapshot of the history replaces.
abbrev pub snapshot_methods : List String
snapshot_methods =
    "item/started" ∷ "item/completed" ∷ "item/agentMessage/delta" ∷ "item/plan/delta"
    ∷ "item/reasoning/summaryTextDelta" ∷ "item/reasoning/textDelta"
    ∷ "item/commandExecution/outputDelta" ∷ "item/fileChange/patchUpdated" ∷ []

abbrev pub item_id : Value → Option String
item_id params = or_else (get_str "itemId" params) (and_then (get "item" params) (get_str "id"))

abbrev pub turn_id : Value → Option String
turn_id params = and_then (get "turn" params) (get_str "id")

-- The thread of the notification, where it is not the session's own.
abbrev pub descendant_of : String → Option String → Option String
descendant_of id thread = keep_if (λ other_id. not (other_id == id)) thread

abbrev pub projected_item : String → Option String → Value → Option String
projected_item id thread params =
    Option.map
      (λ item. elim (descendant_of id thread) [
        | none ↦ item
        | some child ↦ child_item_id child item
      ])
      (item_id params)

-- Whether a snapshot that was replayed holds what the notification tells.
unfoldable pub is_covered : String → ℕ → Option String → SessionData → Bool
is_covered method sequence item content =
    contains snapshot_methods method
    && (leb sequence content.history_cutoff
        || is_some_and (and_then item (lookup content.snapshot_cutoffs)) (leb sequence))

abbrev pub insert_found : String → Option Value → List (String × Value) → List (String × Value)
insert_found key none entries = entries
insert_found key (some value) entries = insert entries key value

-- The members of the resume reply, in the place of the ones of an earlier notification.
unfoldable pub overlay_mode : List (String × Value) → List (String × Value) → List (String × Value)
overlay_mode overlay settings =
    let mode = unwrap_or (lookup settings "collaborationMode") null in
    elim (and_then (get "settings" mode) as_object) [
      | none ↦ settings
      | some inner ↦
          let modelled = insert_found "model" (lookup overlay "model") inner in
          let done = insert_found "reasoning_effort" (lookup overlay "effort") modelled in
          insert settings "collaborationMode"
            (obj (insert (unwrap_or (as_object mode) []) "settings" (obj done)))
    ]

unfoldable pub effective_settings : ℕ → SessionData → List (String × Value) → List (String × Value)
effective_settings sequence content settings =
    if leb sequence content.settings_cutoff
    then overlay_mode content.settings_overlay (insert_named settings content.settings_overlay)
    else settings

pub data NotificationError {ℓ} (E : Type ℓ) : Type ℓ where
  notified_owner : OwnershipError → NotificationError E
  no_settings : NotificationError E
  no_request_id : NotificationError E
  reset_failed : ReplayError E → NotificationError E
  projected : E → NotificationError E

abbrev pub same_turn : Option String → Option String → Bool
same_turn none none = true
same_turn (some a) (some b) = a == b
same_turn _ another = false

unfoldable pub turn_completed : Value → SessionData → SessionData
turn_completed params content = record content {
  active_turn =
      if same_turn content.active_turn (turn_id params) then none else content.active_turn;
  last_completed_turn = turn_id params;
}

unfoldable pub settings_updated : Value → ℕ → SessionData → Option SessionData
settings_updated params sequence content =
    Option.map
      (λ settings. record content {
        configuration = record content.configuration {
          settings = effective_settings sequence content settings;
        };
        settings_generation = (content.settings_generation + 1) % 2 ^ 64;
      })
      (as_object (at params "threadSettings"))

-- What the projector makes of a notification of the session or of a child, and the update that tells
-- the options.
pub record Projection {ℓ κ} (E : Type ℓ) (U : Type κ) : Type (ℓ ⊔ κ) where
  pub project : String → Value → Result E (List U)
  pub project_child : String → Value → String → Result E (List U)
  pub config_update : List ConfigOption → U

module _ {ℓ κ} {E : Type ℓ} {U : Type κ} (projection : Projection E U) where
  -- The session's own notifications of turns and settings.
  unfoldable pub own_change :
      String → Value → ℕ → SessionData → Result (NotificationError E) (List U × SessionData)
  own_change method params sequence content =
      if method == "turn/started"
      then ok ([], record content { active_turn = turn_id params })
      else if method == "turn/completed"
      then ok ([], turn_completed params content)
      else if method == "thread/settings/updated"
      then (do
        changed ← or_fail (settings_updated params sequence content) no_settings
        ok (projection.config_update (options changed.configuration) ∷ [], changed))
      else ok ([], content)

  abbrev pub as_projected : Result E (List U) → Result (NotificationError E) (List U)
  as_projected (err e) = err (projected e)
  as_projected (ok updates) = ok updates

  -- The updates for a child or for the session itself, and the data of the session, which a failure
  -- of the projector leaves changed.
  unfoldable pub deliver_to :
      Option String
      → Bool
      → String
      → Value
      → ℕ
      → SessionData
      → Result (NotificationError E) (List U) × SessionData
  deliver_to (some child) covered method params sequence content = (
    if covered then ok [] else as_projected (projection.project_child method params child),
    content,
  )
  deliver_to none covered method params sequence content =
      elim (own_change method params sequence content) [
        | err e ↦ (err e, content)
        | ok (updates, changed) ↦ if covered then (ok updates, changed) else (
          (do more ← as_projected (projection.project method params); ok (updates ++ more)),
          changed,
        )
      ]

  unfoldable pub deliver :
      String
      → Option String
      → String
      → Value
      → ℕ
      → SessionData
      → Result (NotificationError E) (List U) × SessionData
  deliver id thread method params sequence content =
      deliver_to (descendant_of id thread)
        (is_covered method sequence (projected_item id thread params) content) method params
        sequence content
