-- ===== src/Server/Controls/Tests.antt =====
-- src/server/controls.rs: a model that is chosen and confirmed, one that is not, and a cancellation.
use codex_acp_v.Server.Callbacks.{cancel_interactions}
use codex_acp_v.Config.Settings.{is_settings_noop, settings_match, entry_matches}
use codex_acp_v.Config.Options.{
  options, model_option, with_current, model_choice, effort_option, effort_choices, catalog_entry,
  catalog_list, tier_option, approval_option, sandbox_option, mode_option, select_option,
}
use codex_acp_v.Backend.{BackendError, timeout}
use codex_acp_v.Config.Patch.{value_id, patch, offers, patch_of}
use codex_acp_v.Config.{ConfigOption, id_value}
use codex_acp_v.Server.Controls.Cancel.{
  Cancelling, cancel_locked, interrupt_turn, check_terminal, is_terminal, await_turn, cancel_turn,
}
use codex_acp_v.Server.Controls.Cancel.Succeeded.{cancel_locked-IsCancelled, IsCancelled}
use codex_acp_v.Json.{Value, obj, string, arr, null}
use codex_acp_v.Server.{PendingSettings, SessionData, Configuration, new_session, new_state}
use codex_acp_v.Server.Controls.{
  Change, reconcile_settings, set_config, Others, apply_thread_settings, record_settings_change,
  ControlError, settings_of, send_settings, await_settings, is_current,
}
use codex_acp_v.Server.Controls.Applied.{apply_thread_settings-blocked}
use codex_acp_v.Server.Controls.Reconciled.{set_config-ShowsValue, ShowsValue}
use codex_acp_v.Common.{
  String, List, Result, some, none, ◌≡◌, false, err, [], ◌∷◌, ok, refl, map, lookup, contains,
  insert,
}

abbrev model : String → Value
model name = obj (("model", string name) ∷ [])

abbrev with_model : String → Configuration
with_model name = record {
  settings = ("model", string name) ∷ [];
  models = model "one" ∷ model "two" ∷ [];
}

abbrev content : SessionData
content = (new_session "root" (with_model "one")).content

abbrev confirmed : SessionData
confirmed = record content { configuration = with_model "two"; settings_generation = 1 }

abbrev agrees : Value → SessionData → Result BackendError Value × SessionData
agrees params seen = (ok null, seen)

abbrev confirms : Others
confirms = record {
  before = [];
  sending = agrees;
  after = (confirmed, none) ∷ [];
  relocked = λ n seen. seen;
}

abbrev encode : ConfigOption → Value
encode option = obj (
    ("options", arr (map (λ choice. obj (("value", string choice.value) ∷ [])) option.choices))
    ∷ [])

abbrev chosen : Change (List ConfigOption)
chosen = set_config encode [] confirms "root" "model" (id_value "two") content

chooses : chosen.outcome ≡ ok (options (with_model "two"))
unfolding set_config reconcile_settings apply_thread_settings record_settings_change settings_of
    is_settings_noop settings_match entry_matches send_settings await_settings patch value_id offers
    patch_of options model_option with_current model_choice effort_option effort_choices
    catalog_entry catalog_list tier_option approval_option sandbox_option mode_option select_option
    lookup insert contains
chooses = refl

not_current :
    is_current "model" (id_value "two") (options (reconcile_settings [] content).1.configuration)
    ≡ false
unfolding reconcile_settings value_id options model_option with_current model_choice effort_option
    effort_choices catalog_entry catalog_list tier_option approval_option sandbox_option mode_option
    select_option lookup contains
not_current = refl

set_config-ShowsValue_example : ShowsValue "model" "two" (options (with_model "two"))
set_config-ShowsValue_example =
    set_config-ShowsValue encode [] confirms
      (record { relocked = λ n seen. refl; sending = λ params seen. refl }) (λ n seen. refl) "root"
      "model" "two" content (options (with_model "two")) not_current chooses

abbrev unresolved : PendingSettings
unresolved = record { generation = 0; patch = ("model", string "two") ∷ [] }

abbrev marked : SessionData
marked = record content { pending_settings = some unresolved }

-- The backend reports other settings, and then nothing.
abbrev silent : Others
silent = record {
  before = (marked, none) ∷ [];
  sending = agrees;
  after = [];
  relocked = λ n seen. seen;
}

apply_thread_settings-blocked_example :
    (apply_thread_settings silent (model "one") marked).requests ≡ []
    × ((e : ControlError) × ((apply_thread_settings silent (model "one") marked).outcome ≡ err e))
apply_thread_settings-blocked_example =
    apply_thread_settings-blocked silent (model "one") marked unresolved refl (refl, tt)

abbrev running : SessionData
running = record content { active_turn = some "turn-1" }

abbrev finished : Cancelling
finished = record {
  found = running;
  interrupt = err timeout;
  terminal = ok (obj (("data", arr []) ∷ []));
  listed = record content { last_completed_turn = some "turn-1" };
  waiting = running ∷ content ∷ [];
}

cancels : (cancel_locked "root" finished new_state).0 ≡ ok false
unfolding cancel_locked cancel_turn interrupt_turn check_terminal is_terminal await_turn lookup
cancels = refl

cancel_locked-IsCancelled_example :
    IsCancelled finished false
    × ((cancel_locked "root" finished new_state).2 ≡ (cancel_interactions "root" new_state).1)
cancel_locked-IsCancelled_example =
    cancel_locked-IsCancelled "root" finished new_state false cancels
