-- ===== src/Config/Patch/Confirmed.antt =====
-- src/config.rs: the settings that match the patch of a chosen value.
use codex_acp_v.Config.Patch.Shown.{
  shows, all-options, text_matches, effort_apart, approval_apart, effort_shown, approval_shown,
  tier_matches, sandbox_policy_type, mode_shown, sandbox_shown, typed_not_null,
  mode_policy_not_null,
}
use codex_acp_v.Config.Patch.{sandbox_policy, mode_policy, patch_of, patch, value_id, offers}
use codex_acp_v.Config.Settings.{settings_match, entry_matches}
use codex_acp_v.Server.{Configuration}
use codex_acp_v.Json.{Value, string, null, is_null}
use codex_acp_v.Config.{ConfigOption, id_value, unknown_option, unsupported_value}
use codex_acp_v.Config.Options.{
  options, select_option, model_option, effort_choices, tier_option, sandbox_option, mode_option,
}
use codex_acp_v.Common.{
  String, List, ◌==◌, ◌≡◌, some, lookup, ◌||◌, true, false, ◌∷◌, eq_refl, arith, eq_iff, [], refl,
  all, if◌then◌else◌, Bool-cases, inl, sym, inr, ok, ok_injective, Option-cases, ◌∙◌,
  >>=-ok_inversion, or_fail, find, ensure,
}

-- The entry of a patch, by the option it is for.
pub data Asks (before : Configuration) (value : String)
    : String → List (String × Value) → Type 0 where
  asks_model : Asks before value "model" (("model", string value) ∷ [])
  asks_effort : Asks before value "effort" (("effort", string value) ∷ [])
  asks_approval : Asks before value "approvalPolicy" (("approvalPolicy", string value) ∷ [])
  asks_tier :
      Asks before value "serviceTier"
        (("serviceTier", if value == "default" then null else string value) ∷ [])
  asks_sandbox :
      (policy : Value)
      → sandbox_policy value ≡ some policy
      → Asks before value "sandbox" (("sandboxPolicy", policy) ∷ [])
  asks_mode :
      (value == "default" || value == "plan") ≡ true
      → Asks before value "mode" (("collaborationMode", mode_policy before value) ∷ [])

asked :
    {before : Configuration} {value id : String} {entries found : List (String × Value)}
    (name : String)
    → (id == name) ≡ true
    → patch_of before id value ≡ ok entries
    → patch_of before name value ≡ ok found
    → Asks before value name found
    → Asks before value id entries
asked {before} {value} {id} {entries} {found} name e h h' a =
    let same : id ≡ name = (eq_iff id name).0 e in
    let equal : found ≡ entries = ok_injective (sym h' ∙ (rw same at h)) in rw (same, sym equal) a

pub patch_of-Asks :
    (before : Configuration) (id value : String) (entries : List (String × Value))
    → patch_of before id value ≡ ok entries
    → Asks before value id entries
unfolding patch_of
patch_of-Asks before id value entries h = elim (Bool-cases (id == "model")) [
  | inl e ↦ asked "model" e h refl asks_model
  | inr model ↦ elim (Bool-cases (id == "effort")) [
    | inl e ↦ asked "effort" e h refl asks_effort
    | inr effort ↦ elim (Bool-cases (id == "approvalPolicy")) [
      | inl e ↦ asked "approvalPolicy" e h refl asks_approval
      | inr approval ↦ elim (Bool-cases (id == "serviceTier")) [
        | inl e ↦ asked "serviceTier" e h refl asks_tier
        | inr tier ↦ elim (Bool-cases (id == "sandbox")) [
          | inl e ↦ elim (Option-cases (sandbox_policy value)) [
            | inl absent ↦ absurd (ground (arith, eq_iff id "sandbox"))
            | inr (policy, found) ↦
                asked "sandbox" e h (rw (patch_of, found) refl) (asks_sandbox policy found)
          ]
          | inr sandbox ↦ elim (Bool-cases (id == "mode")) [
            | inl e ↦ elim (Bool-cases (value == "default" || value == "plan")) [
              | inl preset ↦ asked "mode" e h (rw (patch_of, preset) refl) (asks_mode preset)
              | inr unset ↦ absurd (ground (arith, eq_iff id "mode"))
            ]
            | inr mode ↦ absurd (ground arith)
          ]
        ]
      ]
    ]
  ]
]

Asks-shows :
    (before after : Configuration) (id value : String) (entries : List (String × Value))
    → Asks before value id entries
    → settings_match after entries ≡ true
    → all (shows id value) (options after) ≡ true
unfolding settings_match entry_matches model_option tier_option sandbox_option mode_option
    select_option
Asks-shows before after id value entries asks_model h =
    let text = text_matches (lookup after.settings "model") value (ground arith) in
    all-options after (shows "model" value) (rw (text, model_option) (eq_refl value))
      (effort_apart after (effort_choices after) "model" value refl) refl
      (approval_apart after "model" value refl) refl refl
Asks-shows before after id value entries asks_effort h =
    let text = text_matches (lookup after.settings "effort") value (ground arith) in
    all-options after (shows "effort" value) refl
      (effort_shown after (effort_choices after) value text) refl
      (approval_apart after "effort" value refl) refl refl
Asks-shows before after id value entries asks_approval h =
    let text = text_matches (lookup after.settings "approvalPolicy") value (ground arith) in
    all-options after (shows "approvalPolicy" value) refl
      (effort_apart after (effort_choices after) "approvalPolicy" value refl) refl
      (approval_shown after value text) refl refl
Asks-shows before after id value entries asks_tier h =
    let text = tier_matches (lookup after.settings "serviceTier") value (ground arith) in
    all-options after (shows "serviceTier" value) refl
      (effort_apart after (effort_choices after) "serviceTier" value refl)
      (rw (text, tier_option) (eq_refl value)) (approval_apart after "serviceTier" value refl) refl
      refl
Asks-shows before after id value entries (asks_sandbox policy e) h =
    let some_policy = typed_not_null policy value (sandbox_policy_type value policy e) in
    let text =
      sandbox_shown (lookup after.settings "sandboxPolicy") policy value e (ground arith) in
    all-options after (shows "sandbox" value) refl
      (effort_apart after (effort_choices after) "sandbox" value refl) refl
      (approval_apart after "sandbox" value refl)
      (rw (text, sandbox_option, select_option) (eq_refl value)) refl
Asks-shows before after id value entries (asks_mode preset) h =
    let some_mode : is_null (mode_policy before value) ≡ false =
      mode_policy_not_null before value in
    let text = mode_shown (lookup after.settings "collaborationMode") before value (ground arith) in
    all-options after (shows "mode" value) refl
      (effort_apart after (effort_choices after) "mode" value refl) refl
      (approval_apart after "mode" value refl) refl (rw (text, mode_option) (eq_refl value))

pub patch-Asks :
    (encode : ConfigOption → Value) (before : Configuration) (id value : String)
    (entries : List (String × Value))
    → patch encode before id (id_value value) ≡ ok entries
    → Asks before value id entries
unfolding patch value_id
patch-Asks encode before id value entries h =
    let (option, first, next) =
      >>=-ok_inversion
        (or_fail (find (λ option. option.config_id == id) (options before)) unknown_option) _ h in
    let (done, second, last) =
      >>=-ok_inversion (ensure (offers (encode option) value) (unsupported_value id)) _ next in
    patch_of-Asks before id value entries last

-- When the settings that the backend reports match the patch of a chosen value, every option of
-- that id shows the value as its current one, whatever the settings were before.
pub settings_match-shows :
    (encode : ConfigOption → Value) (before after : Configuration) (id value : String)
    (entries : List (String × Value))
    → patch encode before id (id_value value) ≡ ok entries
    → settings_match after entries ≡ true
    → all (shows id value) (options after) ≡ true
settings_match-shows encode before after id value entries h matched =
    Asks-shows before after id value entries (patch-Asks encode before id value entries h) matched
