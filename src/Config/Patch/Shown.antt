-- ===== src/Config/Patch/Shown.antt =====
-- src/config.rs: the choice that an option shows, and what of the settings it is read from.
use codex_acp_v.Config.Patch.{sandbox_policy, mode_policy}
use codex_acp_v.Config.Settings.{option_eq, same_sandbox, mode_matches}
use codex_acp_v.Server.{Configuration}
use codex_acp_v.Json.{
  Value, as_str, string, bool, number, array, object, null, value_eq, at, is_null,
}
use codex_acp_v.Config.{ConfigOption, SelectOption}
use codex_acp_v.Config.Options.{
  effort_option, options, approval_option, select_option, model_option, effort_choices, tier_option,
  sandbox_option, mode_option,
}
use codex_acp_v.Common.{
  String, Option, List, and_then, Bool, ◌==◌, not, ◌≡◌, some, lookup, ◌||◌, true, false, is_none_or,
  ap, ◌∷◌, eq_refl, arith, eq_iff, [], none, refl, all, unwrap_or, if◌then◌else◌, Bool-cases, inl,
  sym, inr, some_injective, is_some_and,
}

-- An option of another id, or one that shows the value.
abbrev pub shows : String → String → ConfigOption → Bool
shows id value option = not (option.config_id == id) || option.current_value == value

pub all-options :
    (c : Configuration) (p : ConfigOption → Bool)
    → p (model_option c) ≡ true
    → is_none_or (effort_option c (effort_choices c)) p ≡ true
    → p (tier_option c) ≡ true
    → is_none_or (approval_option c) p ≡ true
    → p (sandbox_option c) ≡ true
    → p (mode_option c) ≡ true
    → all p (options c) ≡ true
unfolding options
all-options c p model effort tier approval sandbox mode = ground arith

pub text_matches :
    (found : Option Value) (value : String)
    → option_eq found (some (string value)) ≡ true
    → and_then found as_str ≡ some value
text_matches (some (string text)) value h = ap some ((eq_iff text value).0 h)
text_matches none value h = absurd (ground arith)
text_matches (some null) value h = absurd (ground arith)
text_matches (some (bool b)) value h = absurd (ground arith)
text_matches (some (number n)) value h = absurd (ground arith)
text_matches (some (array vs)) value h = absurd (ground arith)
text_matches (some (object ms)) value h = absurd (ground arith)

-- The options that are not there for every configuration, under an id that is not theirs.
pub effort_apart :
    (c : Configuration) (choices : List SelectOption) (id value : String)
    → ("effort" == id) ≡ false
    → is_none_or (effort_option c choices) (shows id value) ≡ true
unfolding effort_option
effort_apart c [] id value h = refl
effort_apart c (first ∷ more) id value h = ground arith

pub approval_apart :
    (c : Configuration) (id value : String)
    → ("approvalPolicy" == id) ≡ false
    → is_none_or (approval_option c) (shows id value) ≡ true
unfolding approval_option select_option
approval_apart c id value h = ground arith

pub effort_shown :
    (c : Configuration) (choices : List SelectOption) (value : String)
    → and_then (lookup c.settings "effort") as_str ≡ some value
    → is_none_or (effort_option c choices) (shows "effort" value) ≡ true
unfolding effort_option
effort_shown c [] value h = refl
effort_shown c (first ∷ more) value h = rw h (eq_refl value)

pub approval_shown :
    (c : Configuration) (value : String)
    → and_then (lookup c.settings "approvalPolicy") as_str ≡ some value
    → is_none_or (approval_option c) (shows "approvalPolicy" value) ≡ true
unfolding approval_option select_option
approval_shown c value h = rw h (eq_refl value)

-- The value that each kind of entry asks for is the one the settings then show.
pub tier_matches :
    (found : Option Value) (value : String)
    → value_eq (unwrap_or found null) (if value == "default" then null else string value) ≡ true
    → unwrap_or (and_then found as_str) "default" ≡ value
tier_matches none value h = ground (arith, eq_iff value "default")
tier_matches (some null) value h = ground (arith, eq_iff value "default")
tier_matches (some (string text)) value h = ground (arith, eq_iff text value)
tier_matches (some (bool b)) value h = absurd (ground arith)
tier_matches (some (number n)) value h = absurd (ground arith)
tier_matches (some (array vs)) value h = absurd (ground arith)
tier_matches (some (object ms)) value h = absurd (ground arith)

text_of : (v : Value) (value : String) → value_eq v (string value) ≡ true → as_str v ≡ some value
text_of v value h = text_matches (some v) value h

pub sandbox_policy_type :
    (value : String) (policy : Value)
    → sandbox_policy value ≡ some policy
    → at policy "type" ≡ string value
unfolding sandbox_policy lookup
sandbox_policy_type value policy h = elim (Bool-cases (value == "readOnly")) [
  | inl e ↦
      rw (sym (some_injective (rw (sandbox_policy, e) at h)), (eq_iff value "readOnly").0 e) refl
  | inr e ↦ elim (Bool-cases (value == "workspaceWrite")) [
    | inl e' ↦
        rw
          (
            sym (some_injective (rw (sandbox_policy, e, e') at h)),
            (eq_iff value "workspaceWrite").0 e',
          )
          refl
    | inr e' ↦ elim (Bool-cases (value == "dangerFullAccess")) [
      | inl e'' ↦
          rw
            (
              sym (some_injective (rw (sandbox_policy, e, e', e'') at h)),
              (eq_iff value "dangerFullAccess").0 e'',
            )
            refl
      | inr e'' ↦ absurd (ground arith)
    ]
  ]
]

pub same_sandbox_type :
    (current policy : Value) (value : String)
    → at policy "type" ≡ string value
    → same_sandbox current policy ≡ true
    → as_str (at current "type") ≡ some value
unfolding same_sandbox
same_sandbox_type current policy value e h =
    elim (Bool-cases (value_eq (at current "type") (at policy "type"))) [
      | inl e' ↦ text_of (at current "type") value (rw e at e')
      | inr e' ↦ absurd (ground arith)
    ]

pub mode_shown :
    (found : Option Value) (before : Configuration) (value : String)
    → is_some_and found (λ current. mode_matches current (mode_policy before value)) ≡ true
    → unwrap_or (and_then found (λ v. as_str (at v "mode"))) "backend" ≡ value
unfolding mode_policy lookup
mode_shown none before value h = absurd (ground arith)
mode_shown (some current) before value h =
    let text = text_of (at current "mode") value (ground arith) in rw text refl

pub sandbox_shown :
    (found : Option Value) (policy : Value) (value : String)
    → sandbox_policy value ≡ some policy
    → is_some_and found (λ current. same_sandbox current policy) ≡ true
    → unwrap_or (and_then found (λ v. as_str (at v "type"))) "readOnly" ≡ value
sandbox_shown none policy value e h = absurd (ground arith)
sandbox_shown (some current) policy value e h =
    rw (same_sandbox_type current policy value (sandbox_policy_type value policy e) h) refl

pub typed_not_null :
    (policy : Value) (value : String) → at policy "type" ≡ string value → is_null policy ≡ false
typed_not_null null value e = absurd (ground arith)
typed_not_null (bool b) value e = refl
typed_not_null (number n) value e = refl
typed_not_null (string text) value e = refl
typed_not_null (array vs) value e = refl
typed_not_null (object ms) value e = refl

pub mode_policy_not_null :
    (c : Configuration) (value : String) → is_null (mode_policy c value) ≡ false
unfolding mode_policy
mode_policy_not_null c value = refl
